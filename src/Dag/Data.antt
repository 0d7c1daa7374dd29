-- ===== src/Dag/Data.antt =====
-- The nodes of a DAG and their statuses. An identifier (`Uuid`) is a number that is only
-- compared; the timestamp is in milliseconds.
use takeln.Base.{ℕ, String, List, [], ◌∷◌, ◌++◌, map, Option, none, some, nat_eq, if◌then◌else◌}

pub data NodeStatus : Type 0 where
  pending running done failed yielded : NodeStatus

pub record DagNode : Type 0 where
  pub id : ℕ
  pub step_type : String
  pub depends_on : List ℕ
  pub status : NodeStatus

pub record Dag : Type 0 where
  pub id : ℕ
  pub nodes : List DagNode
  pub created_at : ℕ

-- `DAG::new`, with the drawn identifier and the time.
unfoldable pub new_dag : ℕ → ℕ → Dag
new_dag id now = record { id = id; nodes = []; created_at = now }

-- `DAG::add_node`, with the drawn identifier, which it returns.
unfoldable pub add_node : ℕ → String → List ℕ → Dag → ℕ × Dag
add_node id step_type depends_on dag = (
  id,
  record dag {
    nodes =
        dag.nodes
        ++ (record { id = id; step_type = step_type; depends_on = depends_on; status = pending })
          ∷ [];
  },
)

-- The `HashMap` from identifiers to statuses: of two nodes with one identifier the later counts.
unfoldable pub status_of : ℕ → List DagNode → Option NodeStatus
status_of i [] = none
status_of i (n ∷ ns) = elim (status_of i ns) [
  | some s ↦ some s
  | none ↦ if nat_eq n.id i then some n.status else none
]

unfoldable pub restore_node : List DagNode → DagNode → DagNode
restore_node saved n = elim (status_of n.id saved) [ some s ↦ record n { status = s } | none ↦ n ]

unfoldable pub restore_statuses : Dag → Dag → Dag
unfolding restore_node
restore_statuses checkpointed dag = record dag {
  nodes = map (restore_node checkpointed.nodes) dag.nodes;
}
