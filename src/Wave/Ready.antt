-- ===== src/Wave/Ready.antt =====
-- The statuses of a DAG's nodes as `Graph::run_dag` of src/graph.rs reads and writes them.
use takeln.Base.{
  ℕ, zero, suc, ◌+◌, Bool, true, false, ◌&&◌, ◌||◌, List, [], ◌∷◌, map, filter, all, find?, some,
  none, String, if◌then◌else◌,
}
use takeln.Dag.Data.{NodeStatus, pending, running, done, yielded, DagNode}
use takeln.Dag.Topology.{mem_id}

abbrev pub is_pending : NodeStatus → Bool
is_pending pending = true
is_pending _ = false

abbrev pub is_done : NodeStatus → Bool
is_done done = true
is_done _ = false

abbrev pub is_yielded : NodeStatus → Bool
is_yielded yielded = true
is_yielded _ = false

-- The identifiers of the nodes that are done.
unfoldable pub done_ids : List DagNode → List ℕ
done_ids nodes = map (λ n. n.id) (filter (λ n. is_done n.status) nodes)

-- A pending node whose dependencies are all completed.
unfoldable pub is_ready : List ℕ → DagNode → Bool
is_ready completed n = is_pending n.status && all (λ d. mem_id d completed) n.depends_on

-- The next wave: the ready nodes with their indices. The name, the identifier and the dependencies of a
-- node never change, so the node stands here for `dag.nodes[idx]`.
unfoldable pub ready_from : ℕ → List ℕ → List DagNode → List (ℕ × DagNode)
ready_from i completed [] = []
ready_from i completed (n ∷ ns) =
    let rest = ready_from (i + 1) completed ns in
    if is_ready completed n then (i, n) ∷ rest else rest

-- `dag.nodes[idx].status = status`
unfoldable pub set_status : ℕ → NodeStatus → List DagNode → List DagNode
set_status i status [] = []
set_status zero status (n ∷ ns) = (record n { status = status }) ∷ ns
set_status (suc i) status (n ∷ ns) = n ∷ set_status i status ns

-- The nodes of a wave are marked as running.
unfoldable pub mark_running : List (ℕ × DagNode) → List DagNode → List DagNode
mark_running [] nodes = nodes
mark_running ((i, _) ∷ wave) nodes = mark_running wave (set_status i running nodes)

unfoldable pub pending_names : List DagNode → List String
pending_names nodes = map (λ n. n.step_type) (filter (λ n. is_pending n.status) nodes)

-- The nodes that a yielded wave leaves.
unfoldable pub left_names : List DagNode → List String
left_names nodes =
    map (λ n. n.step_type) (filter (λ n. is_yielded n.status || is_pending n.status) nodes)

-- Where a finished wave leaves the thread: at the first pending node, or at the end.
unfoldable pub next_pending : List DagNode → String
next_pending nodes = elim (find? (λ n. is_pending n.status) nodes) [
  | some n ↦ n.step_type
  | none ↦ "__END__"
]
