-- ===== src/Wave/Inflight.antt =====
-- The invariant of a wave of `Graph::run_dag` (src/graph.rs): what holds of the DAG while some nodes run.
use takeln.Base.{
  some_inj, ℕ, ◌+◌, ◌≤◌, ◌<◌, ◌≡◌, ◌≢◌, refl, sym, ◌∙◌, ap, subst, Bool, true, false, List, [], ◌∷◌,
  ◌++◌, map, all, All, All-append, some, nat_eq, nat_eq_iff, arith, if◌then◌else◌, Bool-cases, inl,
  inr, ◌⊎◌,
}
use takeln.Dag.Data.{NodeStatus, running, done, DagNode}
use takeln.Dag.Topology.{mem_id}
use takeln.Wave.Ready.{is_pending, is_done, is_ready, set_status}
use takeln.Wave.Status.{
  node_at, reset, IsDoneId, node_at-set_status, node_at-set_status-ne, reset-set_status,
  set_status-IsDoneId,
}

-- A node of the wave, with its index.
abbrev pub Key : Type 0
Key = ℕ × DagNode

abbrev pub times : ℕ → List Key → ℕ
times j [] = 0
times j (k ∷ ks) = let rest = times j ks in if nat_eq k.0 j then rest + 1 else rest

pub times-append : (j : ℕ) (ks ls : List Key) → times j (ks ++ ls) ≡ times j ks + times j ls
times-append j [] ls = omega arith
times-append j (k ∷ ks) ls = ground (arith, times-append j ks ls)

-- The node at the index is pending.
abbrev pub IsPendingAt : ℕ → List DagNode → Type 0
IsPendingAt j nodes = (m : DagNode) × (node_at j nodes ≡ some m) × (is_pending m.status ≡ true)

-- Every node that was pending in `base` and is not any more has all its dependencies done.
abbrev pub IsOrdered : (base nodes : List DagNode) → Type 0
IsOrdered base nodes =
    (j : ℕ) (n : DagNode)
    → IsPendingAt j base
    → node_at j nodes ≡ some n
    → is_pending n.status ≡ false
    → (d : ℕ) → mem_id d n.depends_on ≡ true
    → IsDoneId d nodes

-- The node of a key is running.
abbrev IsPlaced : List DagNode → Key → Type 0
IsPlaced nodes k = node_at k.0 nodes ≡ some (record k.1 { status = running })

-- A node outside the wave is pending or completed.
abbrev pub IsTidyAt : List Key → List ℕ → ℕ → DagNode → Type 0
IsTidyAt keys completed j n =
    (is_pending n.status ≡ true)
    ⊎ ((is_done n.status ≡ true) × (mem_id n.id completed ≡ true))
    ⊎ (0 < times j keys)

-- `keys` are the nodes that run; `clean` says that no node of the wave has failed or yielded.
pub record Inflight (Tidy : Type 0) (base : List DagNode) (keys : List Key) (completed : List ℕ)
    (clean : Bool) (nodes : List DagNode) : Type 0 where
  pub once : (j : ℕ) → times j keys ≤ 1
  pub placed : All (IsPlaced nodes) keys
  pub known : (d : ℕ) → mem_id d completed ≡ true → IsDoneId d nodes
  pub ordered : IsOrdered base nodes
  pub shape : map reset nodes ≡ map reset base
  pub tidy :
      Tidy
      → clean ≡ true
      → (j : ℕ) (n : DagNode) → node_at j nodes ≡ some n
      → IsTidyAt keys completed j n

IsPlaced-elsewhere :
    (i : ℕ) (s : NodeStatus) (nodes : List DagNode) (ks : List Key)
    → times i ks ≡ 0
    → All (IsPlaced nodes) ks
    → All (IsPlaced (set_status i s nodes)) ks
IsPlaced-elsewhere i s nodes [] apart h = tt
IsPlaced-elsewhere i s nodes (k ∷ ks) apart h = elim (Bool-cases (nat_eq k.0 i)) [
  | inl same ↦ absurd (ground arith)
  | inr other ↦ (
    node_at-set_status-ne i k.0 s nodes (λ e. ground (arith, (nat_eq_iff k.0 i).1 (sym e))) ∙ h.0,
    IsPlaced-elsewhere i s nodes ks (ground arith) h.1,
  )
]

-- What stands at an index after a write: the written node, or what stood there.
node_at_cases :
    (i j : ℕ) (s : NodeStatus) (nodes : List DagNode) (n m : DagNode)
    → node_at i nodes ≡ some n
    → node_at j (set_status i s nodes) ≡ some m
    → ((i ≡ j) × (record n { status = s } ≡ m)) ⊎ ((i ≢ j) × (node_at j nodes ≡ some m))
node_at_cases i j s nodes n m at at_j = elim (Bool-cases (nat_eq i j)) [
  | inl same ↦
      let e = (nat_eq_iff i j).0 same in
      inl (
        e,
        some_inj (
            sym (node_at-set_status i s nodes n at)
            ∙ ap (λ k. node_at k (set_status i s nodes)) e
            ∙ at_j),
      )
  | inr other ↦
      let apart : i ≢ j = λ e. ground (arith, (nat_eq_iff i j).1 e) in
      inr (apart, sym (node_at-set_status-ne i j s nodes apart) ∙ at_j)
]

-- The write to a node that is not done, and is started with its dependencies done, keeps the order.
set_status-IsOrdered :
    (i : ℕ) (s : NodeStatus) (base nodes : List DagNode) (n : DagNode)
    → node_at i nodes ≡ some n
    → is_done n.status ≡ false
    → (IsPendingAt i base → (d : ℕ) → mem_id d n.depends_on ≡ true → IsDoneId d nodes)
    → IsOrdered base nodes
    → IsOrdered base (set_status i s nodes)
set_status-IsOrdered i s base nodes n at open_yet met ordered j m waited at_j started d dep =
    set_status-IsDoneId i d s nodes n at open_yet (elim (node_at_cases i j s nodes n m at at_j) [
      | inl here ↦
          met (subst (λ k. IsPendingAt k base) (sym here.0) waited) d
            (ap (λ k. mem_id d k.depends_on) here.1 ∙ dep)
      | inr there ↦ ordered j m waited there.1 started d dep
    ])

all-mem_id :
    (d : ℕ) (completed ds : List ℕ)
    → all (λ k. mem_id k completed) ds ≡ true
    → mem_id d ds ≡ true
    → mem_id d completed ≡ true
all-mem_id d completed [] h dep = absurd (ground arith)
all-mem_id d completed (k ∷ ks) h dep = elim (Bool-cases (nat_eq k d)) [
  | inl same ↦ subst (λ c. mem_id c completed ≡ true) ((nat_eq_iff k d).0 same) (ground arith)
  | inr other ↦ all-mem_id d completed ks (ground arith) (ground arith)
]

-- A node with a key is running.
placed_running :
    (i : ℕ) (nodes : List DagNode) (n : DagNode) (ks : List Key)
    → All (IsPlaced nodes) ks
    → 0 < times i ks
    → node_at i nodes ≡ some n
    → is_pending n.status ≡ false
placed_running i nodes n [] h held at = absurd (omega arith)
placed_running i nodes n (k ∷ ks) h held at = elim (Bool-cases (nat_eq k.0 i)) [
  | inl same ↦
      let e = some_inj (sym h.0 ∙ ap (λ j. node_at j nodes) ((nat_eq_iff k.0 i).0 same) ∙ at) in
      sym (ap (λ m. is_pending m.status) e)
  | inr other ↦ placed_running i nodes n ks h.1 (ground arith) at
]

All-split :
    (P : Key → Type 0) (front back : List Key) (k : Key)
    → All P (front ++ k ∷ back)
    → P k × All P (front ++ back)
All-split P [] back k h = h
All-split P (f ∷ fs) back k h = let (here, rest) = All-split P fs back k h.1 in (here, (h.0, rest))

times-split :
    (j : ℕ) (front back : List Key) (k : Key)
    → times j (front ++ k ∷ back) ≡ times j (front ++ back) + times j (k ∷ [])
times-split j front back k =
    ground (arith, times-append j front (k ∷ back), times-append j front back)

module _ (Tidy : Type 0) (base : List DagNode) where
  -- A ready node is started.
  pub start_key :
      (keys : List Key) (completed : List ℕ) (nodes : List DagNode) (i : ℕ) (n : DagNode)
      → Inflight Tidy base keys completed true nodes
      → node_at i nodes ≡ some n
      → is_ready completed n ≡ true
      → Inflight Tidy base (keys ++ (i, n) ∷ []) completed true (set_status i running nodes)
  unfolding is_ready
  start_key keys completed nodes i n h at ready =
      let waits : is_pending n.status ≡ true = ground arith in
      let open_yet : is_done n.status ≡ false = ground arith in
      let free : times i keys ≡ 0 = elim (Bool-cases (nat_eq (times i keys) 0)) [
        | inl none_held ↦ (nat_eq_iff (times i keys) 0).0 none_held
        | inr held ↦ absurd (
            ground (
              arith,
              placed_running i nodes n keys h.placed (ground (arith, nat_eq_iff (times i keys) 0))
                  at,
            ))
      ] in
      record {
        once =
            λ j. ground (arith, h.once j, free, times-append j keys ((i, n) ∷ []), nat_eq_iff i j);
        placed =
            All-append (IsPlaced (set_status i running nodes)) keys ((i, n) ∷ [])
              (IsPlaced-elsewhere i running nodes keys free h.placed)
              (node_at-set_status i running nodes n at, tt);
        known = λ d member. set_status-IsDoneId i d running nodes n at open_yet (h.known d member);
        ordered =
            set_status-IsOrdered i running base nodes n at open_yet
              (λ _ d dep. h.known d (all-mem_id d completed n.depends_on (ground arith) dep))
              h.ordered;
        shape = reset-set_status i running nodes ∙ h.shape;
        tidy = λ t clean j m at_j. elim (node_at_cases i j running nodes n m at at_j) [
          | inl here ↦
              inr (inr (ground (arith, here.0, times-append j keys ((i, n) ∷ []), nat_eq_iff i j)))
          | inr there ↦ elim (h.tidy t clean j m there.1) [
            | inl p ↦ inl p
            | inr (inl q) ↦ inr (inl q)
            | inr (inr r) ↦ inr (inr (omega (arith, r, times-append j keys ((i, n) ∷ []))))
          ]
        ];
      }

  -- The node of a key ends with another status than `done`.
  pub end_key :
      (s : NodeStatus) (front back : List Key) (completed : List ℕ) (clean : Bool)
      (nodes : List DagNode) (i : ℕ) (n : DagNode)
      → Inflight Tidy base (front ++ (i, n) ∷ back) completed clean nodes
      → Inflight Tidy base (front ++ back) completed false (set_status i s nodes)
  end_key s front back completed clean nodes i n h =
      let (at, rest) = All-split (IsPlaced nodes) front back (i, n) h.placed in
      let free : times i (front ++ back) ≡ 0 =
        ground (arith, h.once i, times-split i front back (i, n), nat_eq_iff i i) in
      record {
        once = λ j. omega (arith, h.once j, times-split j front back (i, n));
        placed = IsPlaced-elsewhere i s nodes (front ++ back) free rest;
        known = λ d member. set_status-IsDoneId i d s nodes _ at refl (h.known d member);
        ordered =
            set_status-IsOrdered i s base nodes _ at refl (λ waited. h.ordered i _ waited at refl)
              h.ordered;
        shape = reset-set_status i s nodes ∙ h.shape;
        tidy = λ t clean. absurd (ground arith);
      }

  pub done_key :
      (front back : List Key) (completed : List ℕ) (clean : Bool) (nodes : List DagNode) (i : ℕ)
      (n : DagNode)
      → Inflight Tidy base (front ++ (i, n) ∷ back) completed clean nodes
      → Inflight Tidy base (front ++ back) (n.id ∷ completed) clean (set_status i done nodes)
  done_key front back completed clean nodes i n h =
      let (at, rest) = All-split (IsPlaced nodes) front back (i, n) h.placed in
      let free : times i (front ++ back) ≡ 0 =
        ground (arith, h.once i, times-split i front back (i, n), nat_eq_iff i i) in
      record {
        once = λ j. omega (arith, h.once j, times-split j front back (i, n));
        placed = IsPlaced-elsewhere i done nodes (front ++ back) free rest;
        known = λ d member. elim (Bool-cases (nat_eq n.id d)) [
          | inl same ↦
              (i, _, node_at-set_status i done nodes _ at, (nat_eq_iff n.id d).0 same, refl)
          | inr other ↦ set_status-IsDoneId i d done nodes _ at refl (h.known d (ground arith))
        ];
        ordered =
            set_status-IsOrdered i done base nodes _ at refl
              (λ waited. h.ordered i _ waited at refl) h.ordered;
        shape = reset-set_status i done nodes ∙ h.shape;
        tidy = λ t clean j m at_j. elim (node_at_cases i j done nodes _ m at at_j) [
          | inl here ↦ inr (inl (ground (arith, here.1, nat_eq_iff n.id n.id)))
          | inr there ↦ elim (h.tidy t clean j m there.1) [
            | inl p ↦ inl p
            | inr (inl q) ↦ inr (inl (q.0, ground (arith, q.1)))
            | inr (inr r) ↦
                inr (
                  inr (ground (arith, r, there.0, times-split j front back (i, n), nat_eq_iff i j)))
          ]
        ];
      }
