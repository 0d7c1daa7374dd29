-- ===== src/Tests/Steps.antt =====
-- A DAG of two steps, built, for the tests.
use takeln.Base.{eq_iff, zero, suc, ◌≡◌, refl, arith, some, [], ◌∷◌}
use takeln.Dag.Data.{pending, Dag}
use takeln.Dag.Topology.{
  initial_slot, initial_queue, lower, is_freed, relax, id_at, search_from, visit_all,
}
use takeln.Dag.Builder.{
  BuildResult, DagBuilder, offenders, check_step_types, assign_ids, resolve, build_nodes,
  check_cycles, build,
}
use takeln.Dag.Names.{HasDistinctSteps}

-- Two steps, the second after the first.
abbrev pub two_steps : DagBuilder
two_steps = record {
  entries = ("fetch", []) ∷ ("parse", "fetch" ∷ []) ∷ [];
  allowed_step_types = some ("fetch" ∷ "parse" ∷ []);
}

abbrev pub two_nodes : Dag
two_nodes = record {
  id = 0;
  nodes =
      (record { id = 1; step_type = "fetch"; depends_on = []; status = pending })
      ∷ (record { id = 2; step_type = "parse"; depends_on = 1 ∷ []; status = pending })
      ∷ [];
  created_at = 5;
}

pub two_steps-build : build (λ k. k) 5 two_steps ≡ BuildResult.ok two_nodes
unfolding build check_step_types offenders assign_ids build_nodes resolve check_cycles visit_all
    search_from initial_queue initial_slot relax lower is_freed id_at
two_steps-build = refl

pub two_steps-HasDistinctSteps : HasDistinctSteps two_steps.entries
two_steps-HasDistinctSteps zero zero s p q = refl
two_steps-HasDistinctSteps zero (suc zero) s p q = absurd (ground (arith, eq_iff "fetch" "parse"))
two_steps-HasDistinctSteps zero (suc (suc k)) s p q = absurd (ground arith)
two_steps-HasDistinctSteps (suc zero) zero s p q = absurd (ground (arith, eq_iff "parse" "fetch"))
two_steps-HasDistinctSteps (suc zero) (suc zero) s p q = refl
two_steps-HasDistinctSteps (suc zero) (suc (suc k)) s p q = absurd (ground arith)
two_steps-HasDistinctSteps (suc (suc j)) k s p q = absurd (ground arith)
