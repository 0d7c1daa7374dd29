-- ===== src/Wave/Status.antt =====
-- How the writes of `Graph::run_dag` (src/graph.rs) to `dag.nodes[idx].status` change what is read.
use takeln.Base.{
  ℕ, zero, suc, ◌+◌, ◌≤◌, ◌<◌, ◌≡◌, ◌≢◌, refl, ◌∙◌, ap, true, false, List, [], ◌∷◌, map, Option,
  some, none, nat_eq, nat_eq_iff, arith, if◌then◌else◌, Bool-cases, inl, inr,
}
use takeln.Dag.Data.{NodeStatus, pending, running, DagNode}
use takeln.Dag.Topology.{mem_id}
use takeln.Wave.Ready.{is_pending, is_done, done_ids, set_status, mark_running}

abbrev pub node_at : ℕ → List DagNode → Option DagNode
node_at i [] = none
node_at zero (n ∷ ns) = some n
node_at (suc i) (n ∷ ns) = node_at i ns

-- What never changes of a node.
abbrev pub reset : DagNode → DagNode
reset n = record n { status = pending }

abbrev pub pending_count : List DagNode → ℕ
pending_count [] = 0
pending_count (n ∷ ns) =
    let rest = pending_count ns in if is_pending n.status then rest + 1 else rest

-- Some node of the identifier is done.
abbrev pub IsDoneId : ℕ → List DagNode → Type 0
IsDoneId d nodes =
    (k : ℕ) × (m : DagNode) × (node_at k nodes ≡ some m) × (m.id ≡ d) × (is_done m.status ≡ true)

pub node_at-set_status :
    (i : ℕ) (s : NodeStatus) (nodes : List DagNode) (n : DagNode)
    → node_at i nodes ≡ some n
    → node_at i (set_status i s nodes) ≡ some (record n { status = s })
unfolding set_status
node_at-set_status i s [] n h = absurd (ground arith)
node_at-set_status zero s (m ∷ ms) n h = ground arith
node_at-set_status (suc i) s (m ∷ ms) n h = node_at-set_status i s ms n h

pub node_at-set_status-ne :
    (i j : ℕ) (s : NodeStatus) (nodes : List DagNode)
    → i ≢ j
    → node_at j (set_status i s nodes) ≡ node_at j nodes
unfolding set_status
node_at-set_status-ne i j s [] h = refl
node_at-set_status-ne zero zero s (m ∷ ms) h = absurd (h refl)
node_at-set_status-ne zero (suc j) s (m ∷ ms) h = refl
node_at-set_status-ne (suc i) zero s (m ∷ ms) h = refl
node_at-set_status-ne (suc i) (suc j) s (m ∷ ms) h =
    node_at-set_status-ne i j s ms (λ e. h (ap suc e))

pub reset-set_status :
    (i : ℕ) (s : NodeStatus) (nodes : List DagNode)
    → map reset (set_status i s nodes) ≡ map reset nodes
unfolding set_status
reset-set_status i s [] = refl
reset-set_status zero s (n ∷ ns) = refl
reset-set_status (suc i) s (n ∷ ns) = ap (λ ms. reset n ∷ ms) (reset-set_status i s ns)

pub pending_count-set_status :
    (i : ℕ) (s : NodeStatus) (nodes : List DagNode)
    → is_pending s ≡ false
    → pending_count (set_status i s nodes) ≤ pending_count nodes
unfolding set_status
pending_count-set_status i s [] h = omega arith
pending_count-set_status zero s (n ∷ ns) h = ground arith
pending_count-set_status (suc i) s (n ∷ ns) h = ground (arith, pending_count-set_status i s ns h)

pub pending_count-set_status-lt :
    (i : ℕ) (s : NodeStatus) (nodes : List DagNode) (n : DagNode)
    → is_pending s ≡ false
    → node_at i nodes ≡ some n
    → is_pending n.status ≡ true
    → pending_count (set_status i s nodes) < pending_count nodes
unfolding set_status
pending_count-set_status-lt i s [] n h at p = absurd (ground arith)
pending_count-set_status-lt zero s (m ∷ ms) n h at p = ground arith
pending_count-set_status-lt (suc i) s (m ∷ ms) n h at p =
    ground (arith, pending_count-set_status-lt i s ms n h at p)

pub pending_count-mark_running :
    (wave : List (ℕ × DagNode)) (nodes : List DagNode)
    → pending_count (mark_running wave nodes) ≤ pending_count nodes
unfolding mark_running
pending_count-mark_running [] nodes = omega arith
pending_count-mark_running ((i, n) ∷ wave) nodes = omega (
  arith,
  pending_count-mark_running wave (set_status i running nodes),
  pending_count-set_status i running nodes refl,
)

-- A done node stays, where the node that is written is not done.
pub set_status-IsDoneId :
    (i d : ℕ) (s : NodeStatus) (nodes : List DagNode) (n : DagNode)
    → node_at i nodes ≡ some n
    → is_done n.status ≡ false
    → IsDoneId d nodes
    → IsDoneId d (set_status i s nodes)
set_status-IsDoneId i d s nodes n at open_yet (k, m, at_k, id, is) = (
  k,
  m,
  node_at-set_status-ne i k s nodes (λ e. ground (arith, ap (λ j. node_at j nodes) e)) ∙ at_k,
  id,
  is,
)

IsDoneId-tail : (d : ℕ) (n : DagNode) (ns : List DagNode) → IsDoneId d ns → IsDoneId d (n ∷ ns)
IsDoneId-tail d n ns (k, m, at, id, is) = (suc k, m, at, id, is)

pub done_ids-IsDoneId :
    (d : ℕ) (nodes : List DagNode) → mem_id d (done_ids nodes) ≡ true → IsDoneId d nodes
unfolding done_ids
done_ids-IsDoneId d [] h = absurd (ground arith)
done_ids-IsDoneId d (n ∷ ns) h = elim (Bool-cases (is_done n.status)) [
  | inr open_yet ↦ IsDoneId-tail d n ns (done_ids-IsDoneId d ns (ground arith))
  | inl is ↦ elim (Bool-cases (nat_eq n.id d)) [
    | inl same ↦ (0, n, refl, (nat_eq_iff n.id d).0 same, is)
    | inr other ↦ IsDoneId-tail d n ns (done_ids-IsDoneId d ns (ground arith))
  ]
]

pub mem_id-done_ids :
    (k : ℕ) (nodes : List DagNode) (n : DagNode)
    → node_at k nodes ≡ some n
    → is_done n.status ≡ true
    → mem_id n.id (done_ids nodes) ≡ true
unfolding done_ids
mem_id-done_ids k [] n at h = absurd (ground arith)
mem_id-done_ids zero (m ∷ ms) n at h = ground (arith, nat_eq_iff m.id m.id)
mem_id-done_ids (suc k) (m ∷ ms) n at h = ground (arith, mem_id-done_ids k ms n at h)
