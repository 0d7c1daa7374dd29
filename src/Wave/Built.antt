-- ===== src/Wave/Built.antt =====
-- What `DAGBuilder::build` (src/dag.rs) returns never gets a wave of `Graph::run_dag` (src/graph.rs) stuck.
use takeln.Base.{
  some_inj, ℕ, zero, suc, ◌+◌, ◌≡◌, refl, sym, ◌∙◌, ap, true, String, ◌==◌, eq_iff, lookup, insert,
  lookup-insert, some, List, [], ◌∷◌, map, nat_eq, nat_eq_iff, arith, Bool-cases, inl, inr, ◌⊎◌,
}
use takeln.Dag.Data.{DagNode, Dag}
use takeln.Dag.Topology.{mem_id}
use takeln.Dag.Builder.{DagBuilder, BuildResult, assign_ids, build}
use takeln.Dag.Entries.{AreEntries, build-AreEntries, build-check_cycles}
use takeln.Dag.Names.{IsFresh, HasDistinctSteps, step_type_at, build-AreDistinct}
use takeln.Wave.Status.{node_at}
use takeln.Wave.Rounds.{NeverStuck}
use takeln.Wave.Unstuck.{DepsInside, cons_inj, never_stuck}

-- Only the step types of entries get identifiers.
named_entry :
    (fresh : ℕ → ℕ) (k : ℕ) (es : List (String × List String)) (names : List (String × ℕ))
    (s : String) (id : ℕ)
    → lookup s (assign_ids fresh k es names) ≡ some id
    → (lookup s names ≡ some id) ⊎ ((j : ℕ) × (step_type_at j es ≡ some s))
unfolding assign_ids
named_entry fresh k [] names s id found = inl found
named_entry fresh k ((t, deps) ∷ es) names s id found =
    elim (named_entry fresh (k + 1) es (insert t (fresh k) names) s id found) [
      | inr later ↦ inr (suc later.0, later.1)
      | inl earlier ↦ elim (Bool-cases (t == s)) [
        | inl same ↦ inr (0, ap some ((eq_iff t s).0 same))
        | inr other ↦ inl (ground (arith, lookup-insert t s (fresh k) names, earlier, other))
      ]
    ]

entry_node :
    (names : List (String × ℕ)) (es : List (String × List String)) (ns : List DagNode) (j : ℕ)
    (s : String) (id : ℕ)
    → AreEntries (λ s. lookup s names) es ns
    → step_type_at j es ≡ some s
    → lookup s names ≡ some id
    → (n : DagNode) × (node_at j ns ≡ some n) × (n.id ≡ id)
entry_node names [] ns j s id entries at found = absurd (ground (arith, at))
entry_node names (e ∷ es) [] j s id entries at found = absurd entries
entry_node names (e ∷ es) (n ∷ ns) zero s id entries at found = (
  n,
  refl,
  some_inj (sym (entries.0).identified ∙ ap (λ t. lookup t names) (some_inj at) ∙ found),
)
entry_node names (e ∷ es) (n ∷ ns) (suc j) s id entries at found =
    entry_node names es ns j s id entries.1 at found

-- A resolved dependency is in the names.
resolved_dep :
    (names : List (String × ℕ)) (deps : List String) (ids : List ℕ) (d : ℕ)
    → map some ids ≡ map (λ s. lookup s names) deps
    → mem_id d ids ≡ true
    → (s : String) × (lookup s names ≡ some d)
resolved_dep names deps [] d e member = absurd (ground (arith, member))
resolved_dep names [] (i ∷ ids) d e member = absurd (ground (arith, e))
resolved_dep names (s ∷ deps) (i ∷ ids) d e member = elim (Bool-cases (nat_eq i d)) [
  | inl same ↦ (s, sym (cons_inj e).0 ∙ ap some ((nat_eq_iff i d).0 same))
  | inr other ↦ resolved_dep names deps ids d (cons_inj e).1 (ground arith)
]

node_dep :
    (names : List (String × ℕ)) (es : List (String × List String)) (ns : List DagNode) (j : ℕ)
    (n : DagNode) (d : ℕ)
    → AreEntries (λ s. lookup s names) es ns
    → node_at j ns ≡ some n
    → mem_id d n.depends_on ≡ true
    → (s : String) × (lookup s names ≡ some d)
node_dep names es [] j n d entries at member = absurd (ground (arith, at))
node_dep names [] (m ∷ ns) j n d entries at member = absurd entries
node_dep names (e ∷ es) (m ∷ ns) zero n d entries at member =
    resolved_dep names e.1 m.depends_on d (entries.0).resolved
      (ap (λ l. mem_id d l.depends_on) (some_inj at) ∙ member)
node_dep names (e ∷ es) (m ∷ ns) (suc j) n d entries at member =
    node_dep names es ns j n d entries.1 at member

build-DepsInside :
    (fresh : ℕ → ℕ) (now : ℕ) (b : DagBuilder) (dag : Dag)
    → build fresh now b ≡ BuildResult.ok dag
    → DepsInside dag.nodes
build-DepsInside fresh now b dag built j n at d member =
    let names = assign_ids fresh 1 b.entries [] in
    let entries : AreEntries (λ s. lookup s names) b.entries dag.nodes =
      (build-AreEntries fresh now b dag built).0 in
    let (s, found) = node_dep names b.entries dag.nodes j n d entries at member in
    elim (named_entry fresh 1 b.entries [] s d found) [
      | inl before ↦ absurd (ground (arith, before))
      | inr (k, step) ↦
          let (m, at_m, id) = entry_node names b.entries dag.nodes k s d entries step found in
          (k, m, at_m, id)
    ]

pub build-NeverStuck :
    (fresh : ℕ → ℕ) (now : ℕ) (b : DagBuilder) (dag : Dag)
    → IsFresh fresh
    → HasDistinctSteps b.entries
    → build fresh now b ≡ BuildResult.ok dag
    → NeverStuck dag.nodes
build-NeverStuck fresh now b dag injective distinct built =
    never_stuck dag dag (build-AreDistinct fresh now b dag injective distinct built)
      (build-DepsInside fresh now b dag built) (build-check_cycles fresh now b dag built)
