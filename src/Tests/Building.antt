-- ===== src/Tests/Building.antt =====
-- The DAG builder of src/dag.rs at fixed inputs, and its theorems at concrete data.
use takeln.Base.{ℕ, ◌≡◌, refl, arith, none, [], ◌∷◌, any}
use takeln.Dag.Topology.{
  initial_slot, initial_queue, lower, is_freed, relax, id_at, search_from, visit_all,
}
use takeln.Dag.Builder.{
  BuildResult, check_step_types, assign_ids, resolve, build_nodes, check_cycles, build,
}
use takeln.Dag.Entries.{AreEntries, InVocabulary}
use takeln.Dag.Drawn.{drawn_id, build-AreDrawn}
use takeln.Base.{zero, suc, map, Bool, false, nat_eq}
use takeln.Dag.Names.{build_sound}
use takeln.Dag.Sound.{AreDistinct, IsClosed, check_cycles_sound}
use takeln.Tests.Steps.{two_steps, two_nodes, two_steps-build, two_steps-HasDistinctSteps}
use takeln.Dag.Count.{Counted, visit_all-Counted}

build-AreDrawn_example :
    AreEntries (drawn_id (λ k. k) two_steps.entries) two_steps.entries two_nodes.nodes
    × InVocabulary two_steps.allowed_step_types two_steps.entries
build-AreDrawn_example = build-AreDrawn (λ k. k) 5 two_steps two_nodes two_steps-build

visit_all-Counted_example : Counted 2 (visit_all two_nodes.nodes)
visit_all-Counted_example = visit_all-Counted two_nodes.nodes

two_nodes-AreDistinct : AreDistinct (map initial_slot two_nodes.nodes)
unfolding id_at initial_slot
two_nodes-AreDistinct zero zero id p q = refl
two_nodes-AreDistinct zero (suc zero) id p q = absurd (ground arith)
two_nodes-AreDistinct zero (suc (suc k)) id p q = absurd (ground arith)
two_nodes-AreDistinct (suc zero) zero id p q = absurd (ground arith)
two_nodes-AreDistinct (suc zero) (suc zero) id p q = refl
two_nodes-AreDistinct (suc zero) (suc (suc k)) id p q = absurd (ground arith)
two_nodes-AreDistinct (suc (suc j)) k id p q = absurd (ground arith)

accepted : check_cycles two_nodes ≡ BuildResult.ok two_nodes
unfolding check_cycles visit_all search_from initial_queue initial_slot relax lower is_freed id_at
accepted = refl

abbrev some_set : ℕ → Bool
some_set k = nat_eq k 7

some_set-IsClosed : IsClosed some_set two_nodes.nodes
some_set-IsClosed = (λ e. absurd (ground arith), (λ e. absurd (ground arith), tt))

check_cycles_sound_example : any (λ n. some_set n.id) two_nodes.nodes ≡ false
check_cycles_sound_example =
    check_cycles_sound some_set two_nodes two_nodes two_nodes-AreDistinct some_set-IsClosed accepted

-- A dependency that is named twice counts twice and is lowered once: no cycle, and yet the error.
twice-build :
    build
      (λ k. k)
      5
      (record { entries = ("a", []) ∷ ("b", "a" ∷ "a" ∷ []) ∷ []; allowed_step_types = none })
    ≡ BuildResult.err "Cycle detected in DAG"
unfolding build check_step_types assign_ids build_nodes resolve check_cycles visit_all search_from
    initial_queue initial_slot relax lower is_freed id_at
twice-build = refl

-- Two entries of one step type share an identifier, and the in-degree of what depends on it overflows.
shared-build :
    build
      (λ k. k)
      5
      (record { entries = ("a", []) ∷ ("b", "a" ∷ []) ∷ ("a", []) ∷ []; allowed_step_types = none })
    ≡ BuildResult.panic
unfolding build check_step_types assign_ids build_nodes resolve check_cycles visit_all search_from
    initial_queue initial_slot relax lower is_freed id_at
shared-build = refl

build_sound_example : any (λ n. some_set n.id) two_nodes.nodes ≡ false
build_sound_example =
    build_sound (λ k. k) 5 two_steps two_nodes some_set (λ j k e. e) two_steps-HasDistinctSteps
      two_steps-build some_set-IsClosed
