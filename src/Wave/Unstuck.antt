-- ===== src/Wave/Unstuck.antt =====
-- With a DAG that the cycle check of src/dag.rs accepts, the ready selection of `Graph::run_dag`
-- (src/graph.rs) finds a node while some are pending.
use takeln.Base.{
  some_inj, ℕ, zero, suc, ◌+◌, ◌≡◌, refl, sym, ◌∙◌, ap, subst, Bool, true, false, ◌&&◌, some, List,
  [], ◌∷◌, map, any, all, All, nat_eq, nat_eq_iff, arith, Bool-cases, inl, inr,
}
use takeln.Dag.Data.{DagNode, Dag}
use takeln.Dag.Topology.{mem_id, initial_slot, id_at}
use takeln.Dag.Builder.{BuildResult, check_cycles}
use takeln.Dag.Sound.{AreDistinct, IsClosed, check_cycles_sound}
use takeln.Wave.Ready.{is_pending, is_ready, ready_from}
use takeln.Wave.Status.{node_at, reset}
use takeln.Wave.Inflight.{IsTidyAt}
use takeln.Wave.Rounds.{NeverStuck}

-- Every dependency is the identifier of a node.
abbrev pub DepsInside : List DagNode → Type 0
DepsInside nodes =
    (j : ℕ) (n : DagNode)
    → node_at j nodes ≡ some n
    → (d : ℕ) → mem_id d n.depends_on ≡ true
    → (k : ℕ) × (m : DagNode) × (node_at k nodes ≡ some m) × (m.id ≡ d)

any_at :
    (p : DagNode → Bool) (nodes : List DagNode)
    → any p nodes ≡ true
    → (k : ℕ) × (n : DagNode) × (node_at k nodes ≡ some n) × (p n ≡ true)
any_at p [] h = absurd (ground (arith, h))
any_at p (n ∷ ns) h = elim (Bool-cases (p n)) [
  | inl here ↦ (0, n, refl, here)
  | inr other ↦ let (k, m, at, is) = any_at p ns (ground arith) in (suc k, m, at, is)
]

at_any :
    (p : DagNode → Bool) (nodes : List DagNode) (k : ℕ) (n : DagNode)
    → node_at k nodes ≡ some n
    → p n ≡ true
    → any p nodes ≡ true
at_any p [] k n at h = absurd (ground (arith, at))
at_any p (m ∷ ms) zero n at h = ground (arith, ap p (some_inj at))
at_any p (m ∷ ms) (suc k) n at h = ground (arith, at_any p ms k n at h)

mem_any : (X : ℕ → Bool) (d : ℕ) (ds : List ℕ) → mem_id d ds ≡ true → X d ≡ true → any X ds ≡ true
mem_any X d [] member h = absurd (ground (arith, member))
mem_any X d (e ∷ es) member h = elim (Bool-cases (nat_eq e d)) [
  | inl same ↦ ground (arith, ap X ((nat_eq_iff e d).0 same))
  | inr other ↦ ground (arith, mem_any X d es (ground arith) h)
]

All-at :
    (P : DagNode → Type 0) (nodes : List DagNode)
    → ((j : ℕ) (n : DagNode) → node_at j nodes ≡ some n → P n)
    → All P nodes
All-at P [] h = tt
All-at P (n ∷ ns) h = (h 0 n refl, All-at P ns (λ j m at. h (suc j) m at))

id_at-node_at :
    (k : ℕ) (nodes : List DagNode) (n : DagNode)
    → node_at k nodes ≡ some n
    → id_at k (map initial_slot nodes) ≡ some n.id
unfolding id_at initial_slot
id_at-node_at k [] n at = absurd (ground (arith, at))
id_at-node_at zero (m ∷ ms) n at = ap some (ap (λ l. l.id) (some_inj at))
id_at-node_at (suc k) (m ∷ ms) n at = id_at-node_at k ms n at

pub cons_inj : {A : Type 0} {x y : A} {xs ys : List A} → x ∷ xs ≡ y ∷ ys → (x ≡ y) × (xs ≡ ys)
cons_inj e = ground (arith, e)

-- Lists of one shape have the same nodes at an index, but for the status.
shape_at :
    (k : ℕ) (xs ys : List DagNode) (x : DagNode)
    → map reset xs ≡ map reset ys
    → node_at k xs ≡ some x
    → (y : DagNode) × (node_at k ys ≡ some y) × (reset y ≡ reset x)
shape_at k [] ys x e at = absurd (ground (arith, at))
shape_at k (x' ∷ xs) [] x e at = absurd (ground (arith, e))
shape_at zero (x' ∷ xs) (y ∷ ys) x e at = (y, refl, sym (cons_inj e).0 ∙ ap reset (some_inj at))
shape_at (suc k) (x' ∷ xs) (y ∷ ys) x e at = shape_at k xs ys x (cons_inj e).1 at

unmet_dep :
    (completed ds : List ℕ)
    → all (λ d. mem_id d completed) ds ≡ false
    → (d : ℕ) × (mem_id d ds ≡ true) × (mem_id d completed ≡ false)
unmet_dep completed [] h = absurd (ground (arith, h))
unmet_dep completed (d ∷ ds) h = elim (Bool-cases (mem_id d completed)) [
  | inr missing ↦ (d, ground (arith, nat_eq_iff d d), missing)
  | inl met ↦
      let (e, member, missing) = unmet_dep completed ds (ground arith) in (e, ground arith, missing)
]

none_ready :
    (i k : ℕ) (completed : List ℕ) (nodes : List DagNode) (n : DagNode)
    → ready_from i completed nodes ≡ []
    → node_at k nodes ≡ some n
    → is_ready completed n ≡ false
unfolding ready_from
none_ready i k completed [] n e at = absurd (ground (arith, at))
none_ready i zero completed (m ∷ ms) n e at = elim (Bool-cases (is_ready completed m)) [
  | inl ready ↦ absurd (ground arith)
  | inr other ↦ subst (λ l. is_ready completed l ≡ false) (some_inj at) other
]
none_ready i (suc k) completed (m ∷ ms) n e at = elim (Bool-cases (is_ready completed m)) [
  | inl ready ↦ absurd (ground arith)
  | inr other ↦ none_ready (i + 1) k completed ms n (rw other at e) at
]

-- The identifiers of the pending nodes.
abbrev pending_ids : List DagNode → ℕ → Bool
pending_ids nodes id = any (λ n. nat_eq n.id id && is_pending n.status) nodes

module _ (base nodes : List DagNode) (completed : List ℕ)
    (distinct : AreDistinct (map initial_slot base)) (inside : DepsInside base)
    (shape : map reset nodes ≡ map reset base)
    (tidy : (j : ℕ) (n : DagNode) → node_at j nodes ≡ some n → IsTidyAt [] completed j n)
    (idle : ready_from 0 completed nodes ≡ []) where
  -- A node that is not completed is pending.
  missing_pending :
      (d k : ℕ) (o : DagNode)
      → mem_id d completed ≡ false
      → node_at k base ≡ some o
      → o.id ≡ d
      → pending_ids nodes d ≡ true
  missing_pending d k o missing at_o id_o =
      let (o', at_o', like) = shape_at k base nodes o (sym shape) at_o in
      let same : o'.id ≡ d = ap (λ l. l.id) like ∙ id_o in
      at_any _ nodes k o' at_o' (elim (tidy k o' at_o') [
        | inl p ↦ ground (arith, (nat_eq_iff o'.id d).1 same, p)
        | inr (inl q) ↦
            absurd (ground (arith, ap (λ i. mem_id i completed) (sym same) ∙ q.1, missing))
        | inr (inr r) ↦ absurd (omega (arith, r))
      ])

  -- A pending node waits for a pending node.
  waits_inside :
      (j k : ℕ) (n m : DagNode)
      → node_at j base ≡ some n
      → node_at k nodes ≡ some m
      → m.id ≡ n.id
      → is_pending m.status ≡ true
      → any (pending_ids nodes) n.depends_on ≡ true
  unfolding is_ready
  waits_inside j k n m at_j at_k same waits =
      let (m0, at0, like) = shape_at k nodes base m shape at_k in
      let index : j ≡ k =
        distinct j k n.id (id_at-node_at j base n at_j)
          (id_at-node_at k base m0 at0 ∙ ap some (ap (λ l. l.id) like ∙ same)) in
      let n_is : n ≡ m0 = some_inj (sym at_j ∙ ap (λ i. node_at i base) index ∙ at0) in
      let deps : n.depends_on ≡ m.depends_on =
        ap (λ l. l.depends_on) n_is ∙ ap (λ l. l.depends_on) like in
      let (d, member, missing) =
        unmet_dep completed m.depends_on
          (ground (arith, none_ready 0 k completed nodes m idle at_k, waits)) in
      let member' : mem_id d n.depends_on ≡ true = ap (mem_id d) deps ∙ member in
      let (k2, o, at_o, id_o) = inside j n at_j d member' in
      mem_any (pending_ids nodes) d n.depends_on member' (missing_pending d k2 o missing at_o id_o)

  pending_ids-IsClosed : IsClosed (pending_ids nodes) base
  pending_ids-IsClosed = All-at _ base λ j n at member.
      let (k, m, at_k, is) = any_at _ nodes member in
      waits_inside j k n m at at_k ((nat_eq_iff m.id n.id).0 (ground (arith, is)))
        (ground (arith, is))

-- Where the cycle check accepts, no wave is stuck.
pub never_stuck :
    (dag built : Dag)
    → AreDistinct (map initial_slot dag.nodes)
    → DepsInside dag.nodes
    → check_cycles dag ≡ BuildResult.ok built
    → NeverStuck dag.nodes
never_stuck dag built distinct inside accepted nodes completed shape tidy idle =
    elim (Bool-cases (any (λ n. is_pending n.status) nodes)) [
      | inr over ↦ over
      | inl waits ↦
          let (k, m, at, is) = any_at _ nodes waits in
          let (m0, at0, like) = shape_at k nodes dag.nodes m shape at in
          let none_in : any (λ n. pending_ids nodes n.id) dag.nodes ≡ false =
            check_cycles_sound (pending_ids nodes) dag built distinct
              (pending_ids-IsClosed dag.nodes nodes completed distinct inside shape tidy idle)
              accepted in
          let is_in : pending_ids nodes m0.id ≡ true =
            at_any _ nodes k m at
              (ground (arith, (nat_eq_iff m.id m0.id).1 (sym (ap (λ l. l.id) like)), is)) in
          absurd
            (ground (arith, none_in, at_any (λ n. pending_ids nodes n.id) dag.nodes k m0 at0 is_in))
    ]
