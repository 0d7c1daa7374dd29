-- ===== src/Dag/Names.antt =====
-- The identifiers that `DAGBuilder::build` of src/dag.rs draws: with distinct step types they are distinct,
-- so the cycle check is sound for what is built.
use takeln.Base.{
  ℕ, zero, suc, ◌+◌, ◌<◌, ◌≡◌, refl, ap, ◌∙◌, sym, arith, List, [], ◌∷◌, map, any, Bool, false,
  Bool-cases, inl, inr, Option, some, none, String, ◌==◌, eq_iff, lookup, insert, lookup-insert,
}
use takeln.Dag.Data.{DagNode, Dag}
use takeln.Dag.Topology.{initial_slot, id_at}
use takeln.Dag.Builder.{DagBuilder, BuildResult, assign_ids, build}
use takeln.Dag.Entries.{AreEntries, build-AreEntries, build-check_cycles}
use takeln.Dag.Sound.{AreDistinct, IsClosed, check_cycles_sound}

-- A supply that never draws an identifier again.
abbrev pub IsFresh : (ℕ → ℕ) → Type 0
IsFresh fresh = (j k : ℕ) → fresh j ≡ fresh k → j ≡ k

-- The names have identifiers of the first `k` draws, and no two names share one.
record AreNamed (fresh : ℕ → ℕ) (k : ℕ) (names : List (String × ℕ)) : Type 0 where
  drawn : (s : String) (id : ℕ) → lookup s names ≡ some id → (j : ℕ) × (j < k) × (id ≡ fresh j)
  single : (s t : String) (id : ℕ) → lookup s names ≡ some id → lookup t names ≡ some id → s ≡ t

unused :
    (fresh : ℕ → ℕ) (k : ℕ) (names : List (String × ℕ)) (u : String) (id : ℕ)
    → IsFresh fresh
    → AreNamed fresh k names
    → lookup u names ≡ some id
    → id ≡ fresh k
    → ⊥
unused fresh k names u id injective named at e =
    let (j, less, e') = named.drawn u id at in omega (arith, less, injective j k (sym e' ∙ e))

insert-AreNamed :
    (fresh : ℕ → ℕ) (k : ℕ) (names : List (String × ℕ)) (new : String)
    → IsFresh fresh
    → AreNamed fresh k names
    → AreNamed fresh (k + 1) (insert new (fresh k) names)
insert-AreNamed fresh k names new injective named = record {
  drawn = λ s id at. elim (Bool-cases (new == s)) [
    | inl same ↦ (k, omega arith, ground (arith, lookup-insert new s (fresh k) names, same))
    | inr other ↦
        let (j, less, e) =
          named.drawn s id (ground (arith, lookup-insert new s (fresh k) names, other)) in
        (j, omega (arith, less), e)
  ];
  single = λ s t id at_s at_t. elim (Bool-cases (new == s)) [
    | inl same ↦ elim (Bool-cases (new == t)) [
      | inl same' ↦ sym ((eq_iff new s).0 same) ∙ (eq_iff new t).0 same'
      | inr other' ↦ absurd (
          unused fresh k names t id injective named
            (ground (arith, lookup-insert new t (fresh k) names, other'))
            (ground (arith, lookup-insert new s (fresh k) names, same)))
    ]
    | inr other ↦ elim (Bool-cases (new == t)) [
      | inl same' ↦ absurd (
          unused fresh k names s id injective named
            (ground (arith, lookup-insert new s (fresh k) names, other))
            (ground (arith, lookup-insert new t (fresh k) names, same')))
      | inr other' ↦
          named.single s t id (ground (arith, lookup-insert new s (fresh k) names, other))
            (ground (arith, lookup-insert new t (fresh k) names, other'))
    ]
  ];
}

assign_ids-AreNamed :
    (fresh : ℕ → ℕ) (k : ℕ) (es : List (String × List String)) (names : List (String × ℕ))
    → IsFresh fresh
    → AreNamed fresh k names
    → (n : ℕ) × AreNamed fresh n (assign_ids fresh k es names)
unfolding assign_ids
assign_ids-AreNamed fresh k [] names injective named = (k, named)
assign_ids-AreNamed fresh k (e ∷ es) names injective named =
    assign_ids-AreNamed fresh (k + 1) es (insert e.0 (fresh k) names) injective
      (insert-AreNamed fresh k names e.0 injective named)

-- The step type of an entry by its index.
abbrev pub step_type_at : ℕ → List (String × List String) → Option String
step_type_at i [] = none
step_type_at zero (e ∷ es) = some e.0
step_type_at (suc i) (e ∷ es) = step_type_at i es

-- No step type stands at two indices.
abbrev pub HasDistinctSteps : List (String × List String) → Type 0
HasDistinctSteps es =
    (j k : ℕ) (s : String) → step_type_at j es ≡ some s → step_type_at k es ≡ some s → j ≡ k

id_at-step_type_at :
    (names : List (String × ℕ)) (es : List (String × List String)) (ns : List DagNode) (j id : ℕ)
    → AreEntries (λ s. lookup s names) es ns
    → id_at j (map initial_slot ns) ≡ some id
    → (s : String) × (step_type_at j es ≡ some s) × (lookup s names ≡ some id)
unfolding id_at initial_slot
id_at-step_type_at names [] [] j id entries at = absurd (ground arith)
id_at-step_type_at names [] (n ∷ ns) j id entries at = absurd entries
id_at-step_type_at names (e ∷ es) [] j id entries at = absurd entries
id_at-step_type_at names (e ∷ es) (n ∷ ns) zero id entries at =
    (e.0, refl, (entries.0).identified ∙ at)
id_at-step_type_at names (e ∷ es) (n ∷ ns) (suc j) id entries at =
    id_at-step_type_at names es ns j id entries.1 at

entries-AreDistinct :
    (fresh : ℕ → ℕ) (n : ℕ) (names : List (String × ℕ)) (es : List (String × List String))
    (ns : List DagNode)
    → AreNamed fresh n names
    → HasDistinctSteps es
    → AreEntries (λ s. lookup s names) es ns
    → AreDistinct (map initial_slot ns)
entries-AreDistinct fresh n names es ns named distinct entries j k id at_j at_k =
    let (s, step_j, look_j) = id_at-step_type_at names es ns j id entries at_j in
    let (t, step_k, look_k) = id_at-step_type_at names es ns k id entries at_k in
    distinct j k s step_j (step_k ∙ ap some (sym (named.single s t id look_j look_k)))

-- The nodes that are built have distinct identifiers.
pub build-AreDistinct :
    (fresh : ℕ → ℕ) (now : ℕ) (b : DagBuilder) (dag : Dag)
    → IsFresh fresh
    → HasDistinctSteps b.entries
    → build fresh now b ≡ BuildResult.ok dag
    → AreDistinct (map initial_slot dag.nodes)
build-AreDistinct fresh now b dag injective distinct built =
    let none_named : AreNamed fresh 1 [] = record {
      drawn = λ s id at. absurd (ground arith);
      single = λ s t id at_s at_t. absurd (ground arith);
    } in
    let (n, named) = assign_ids-AreNamed fresh 1 b.entries [] injective none_named in
    entries-AreDistinct fresh n (assign_ids fresh 1 b.entries []) b.entries dag.nodes named distinct
      (build-AreEntries fresh now b dag built).0

-- A built DAG has no cycle: where the supply never repeats an identifier and the entries have distinct step
-- types, a set of identifiers in which each of the built nodes that it holds has a dependency inside the
-- set holds none of them.
pub build_sound :
    (fresh : ℕ → ℕ) (now : ℕ) (b : DagBuilder) (dag : Dag) (X : ℕ → Bool)
    → IsFresh fresh
    → HasDistinctSteps b.entries
    → build fresh now b ≡ BuildResult.ok dag
    → IsClosed X dag.nodes
    → any (λ n. X n.id) dag.nodes ≡ false
build_sound fresh now b dag X injective distinct built closed =
    check_cycles_sound X dag dag (build-AreDistinct fresh now b dag injective distinct built) closed
      (build-check_cycles fresh now b dag built)
