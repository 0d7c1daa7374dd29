-- ===== src/Wave/Launch.antt =====
-- A wave of `Graph::run_dag` (src/graph.rs) is of ready nodes, and marking it keeps the invariant.
use takeln.Base.{
  ℕ, suc, ◌+◌, ◌-◌, ◌≤◌, ◌<◌, ◌≡◌, refl, sym, ◌∙◌, ap, subst, true, List, [], ◌∷◌, ◌++◌, append-nil,
  append_assoc, All, some, nat_eq, nat_eq_iff, arith, Bool-cases, inl, inr,
}
use takeln.Dag.Data.{running, DagNode}
use takeln.Wave.Ready.{is_pending, is_ready, ready_from, set_status, mark_running}
use takeln.Wave.Status.{
  node_at, node_at-set_status-ne, pending_count, pending_count-set_status-lt,
  pending_count-mark_running,
}
use takeln.Wave.Inflight.{Key, times, Inflight, start_key}

-- A key of a ready node, among nodes that are counted from `k` on.
abbrev pub IsReadyFrom : ℕ → List ℕ → List DagNode → Key → Type 0
IsReadyFrom k completed nodes key =
    (k ≤ key.0) × (node_at (key.0 - k) nodes ≡ some key.1) × (is_ready completed key.1 ≡ true)

-- A ready node at its index.
abbrev pub IsReadyAt : List ℕ → List DagNode → Key → Type 0
IsReadyAt completed nodes key =
    (node_at key.0 nodes ≡ some key.1) × (is_ready completed key.1 ≡ true)

from_start :
    (completed : List ℕ) (nodes : List DagNode) (keys : List Key)
    → All (IsReadyFrom 0 completed nodes) keys
    → All (IsReadyAt completed nodes) keys
from_start completed nodes [] h = tt
from_start completed nodes (key ∷ keys) h =
    let same : key.0 ≡ key.0 - 0 = omega arith in
    let (bound, at, ready) = h.0 in
    ((ap (λ j. node_at j nodes) same ∙ at, ready), from_start completed nodes keys h.1)

shift_ready :
    (k : ℕ) (completed : List ℕ) (n : DagNode) (ns : List DagNode) (keys : List Key)
    → All (IsReadyFrom (k + 1) completed ns) keys
    → All (IsReadyFrom k completed (n ∷ ns)) keys
shift_ready k completed n ns [] h = tt
shift_ready k completed n ns (key ∷ keys) h =
    let (bound, at, ready) = h.0 in
    let next : key.0 - k ≡ suc (key.0 - (k + 1)) = omega (arith, bound) in
    (
      (omega (arith, bound), ap (λ j. node_at j (n ∷ ns)) next ∙ at, ready),
      shift_ready k completed n ns keys h.1,
    )

ready_from-All :
    (k : ℕ) (completed : List ℕ) (nodes : List DagNode)
    → All (IsReadyFrom k completed nodes) (ready_from k completed nodes)
unfolding ready_from
ready_from-All k completed [] = tt
ready_from-All k completed (n ∷ ns) =
    let rest = shift_ready k completed n ns _ (ready_from-All (k + 1) completed ns) in
    let here : k - k ≡ 0 = omega arith in
    elim (Bool-cases (is_ready completed n)) [
      | inl ready ↦ rw ready ((omega arith, ap (λ j. node_at j (n ∷ ns)) here, ready), rest)
      | inr other ↦ rw other rest
    ]

pub wave-IsReadyAt :
    (completed : List ℕ) (nodes : List DagNode)
    → All (IsReadyAt completed nodes) (ready_from 0 completed nodes)
wave-IsReadyAt completed nodes =
    from_start completed nodes (ready_from 0 completed nodes) (ready_from-All 0 completed nodes)

times_below :
    (j k : ℕ) (completed : List ℕ) (nodes : List DagNode)
    → j < k
    → times j (ready_from k completed nodes) ≡ 0
unfolding ready_from
times_below j k completed [] less = refl
times_below j k completed (n ∷ ns) less =
    ground (arith, times_below j (k + 1) completed ns (omega (arith, less)), nat_eq_iff k j)

pub times-ready_from :
    (j k : ℕ) (completed : List ℕ) (nodes : List DagNode)
    → times j (ready_from k completed nodes) ≤ 1
unfolding ready_from
times-ready_from j k completed [] = omega arith
times-ready_from j k completed (n ∷ ns) = elim (Bool-cases (nat_eq k j)) [
  | inl same ↦ ground (arith, times_below j (k + 1) completed ns (ground (arith, nat_eq_iff k j)))
  | inr other ↦ ground (arith, times-ready_from j (k + 1) completed ns)
]

-- Starting another node leaves a ready node ready.
ready_elsewhere :
    (i : ℕ) (completed : List ℕ) (nodes : List DagNode) (keys : List Key)
    → times i keys ≡ 0
    → All (IsReadyAt completed nodes) keys
    → All (IsReadyAt completed (set_status i running nodes)) keys
ready_elsewhere i completed nodes [] apart h = tt
ready_elsewhere i completed nodes (key ∷ keys) apart h = elim (Bool-cases (nat_eq key.0 i)) [
  | inl same ↦ absurd (ground arith)
  | inr other ↦
      let (at, ready) = h.0 in
      let kept : node_at key.0 (set_status i running nodes) ≡ node_at key.0 nodes =
        node_at-set_status-ne i key.0 running nodes
          (λ e. ground (arith, (nat_eq_iff key.0 i).1 (sym e))) in
      ((kept ∙ at, ready), ready_elsewhere i completed nodes keys (ground arith) h.1)
]

pub launch :
    (Tidy : Type 0) (base : List DagNode) (keys wave : List Key) (completed : List ℕ)
    (nodes : List DagNode)
    → Inflight Tidy base keys completed true nodes
    → All (IsReadyAt completed nodes) wave
    → ((j : ℕ) → times j wave ≤ 1)
    → Inflight Tidy base (keys ++ wave) completed true (mark_running wave nodes)
unfolding mark_running
launch Tidy base keys [] completed nodes h ready once =
    subst (λ ks. Inflight Tidy base ks completed true nodes) (sym (append-nil keys)) h
launch Tidy base keys ((i, n) ∷ wave) completed nodes h ready once =
    let (at, is) = ready.0 in
    let alone : times i wave ≡ 0 = ground (arith, once i, nat_eq_iff i i) in
    let started = start_key Tidy base keys completed nodes i n h at is in
    let rest =
      launch Tidy base (keys ++ (i, n) ∷ []) wave completed (set_status i running nodes) started
        (ready_elsewhere i completed nodes wave alone ready.1) (λ j. ground (arith, once j)) in
    subst
      (λ ks. Inflight Tidy base ks completed true (mark_running wave (set_status i running nodes)))
      (append_assoc keys ((i, n) ∷ []) wave) rest

-- A wave of ready nodes leaves fewer nodes pending.
pub launch-pending :
    (i : ℕ) (n : DagNode) (wave : List Key) (completed : List ℕ) (nodes : List DagNode)
    → All (IsReadyAt completed nodes) ((i, n) ∷ wave)
    → pending_count (mark_running ((i, n) ∷ wave) nodes) < pending_count nodes
unfolding mark_running is_ready
launch-pending i n wave completed nodes ready =
    let (at, is) = ready.0 in
    let waits : is_pending n.status ≡ true = ground arith in
    omega (
      arith,
      pending_count-mark_running wave (set_status i running nodes),
      pending_count-set_status-lt i running nodes n refl at waits,
    )
