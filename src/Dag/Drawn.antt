-- ===== src/Dag/Drawn.antt =====
-- The identifiers that `DAGBuilder::build` of src/dag.rs draws: the DAG takes the first, each entry one in
-- turn, and of the entries of one step type the last gives the identifier.
use mathlib.Core.Path.{fun_ext}
use takeln.Base.{
  ℕ, ◌+◌, ◌≡◌, refl, ◌∙◌, subst, List, [], ◌∷◌, Option, none, some, String, ◌==◌, eq_iff, lookup,
  insert, lookup-insert, arith, if◌then◌else◌,
}
use takeln.Dag.Data.{Dag}
use takeln.Dag.Builder.{DagBuilder, ok, assign_ids, build}
use takeln.Dag.Entries.{AreEntries, InVocabulary, build-AreEntries}

-- The place of the last entry of a step type, counted from `k`.
abbrev pub last_place : ℕ → List (String × List String) → String → Option ℕ
last_place k [] s = none
last_place k (e ∷ es) s = elim (last_place (k + 1) es s) [
  | some i ↦ some i
  | none ↦ if e.0 == s then some k else none
]

-- What a supply draws at a place, if there is one; a name without a place stays.
abbrev drawn_or : (ℕ → ℕ) → Option ℕ → Option ℕ → Option ℕ
drawn_or fresh none kept = kept
drawn_or fresh (some i) kept = some (fresh i)

-- The identifier of a step type: the one that was drawn for its last entry.
abbrev pub drawn_id : (ℕ → ℕ) → List (String × List String) → String → Option ℕ
drawn_id fresh es s = drawn_or fresh (last_place 1 es s) none

lookup-assign_ids :
    (fresh : ℕ → ℕ) (k : ℕ) (es : List (String × List String)) (names : List (String × ℕ))
    (s : String)
    → lookup s (assign_ids fresh k es names) ≡ drawn_or fresh (last_place k es s) (lookup s names)
unfolding assign_ids
lookup-assign_ids fresh k [] names s = refl
lookup-assign_ids fresh k (e ∷ es) names s =
    lookup-assign_ids fresh (k + 1) es (insert e.0 (fresh k) names) s
    ∙ ground (arith, lookup-insert e.0 s (fresh k) names, eq_iff e.0 s, eq_iff s e.0)

-- A DAG that is built has one node for each entry of the builder, in their order: pending, of the entry's
-- step type, and under the identifier that was drawn for the last entry of that step type. Its
-- dependencies are those identifiers of the step types that the entry names. Where step types are
-- declared, every entry's is one of them.
pub build-AreDrawn :
    (fresh : ℕ → ℕ) (now : ℕ) (b : DagBuilder) (dag : Dag)
    → build fresh now b ≡ ok dag
    → AreEntries (drawn_id fresh b.entries) b.entries dag.nodes
      × InVocabulary b.allowed_step_types b.entries
build-AreDrawn fresh now b dag h =
    let (entries, inside) = build-AreEntries fresh now b dag h in
    (
      subst (λ ids. AreEntries ids b.entries dag.nodes)
          (fun_ext (λ s. lookup-assign_ids fresh 1 b.entries [] s)) entries,
      inside,
    )
