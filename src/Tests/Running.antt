-- ===== src/Tests/Running.antt =====
-- The theorems on the run loop, the history and the backoff of src/graph.rs at concrete data.
use takeln.Base.{
  ℕ, inr, ltb, ◌↔◌, if◌then◌else◌, ◌+◌, ◌/◌, ◌≤◌, ◌<◌, ◌≡◌, ◌≢◌, refl, arith, some, none, [], ◌∷◌,
}
use takeln.Retry.{default_policy, capped_delay, delay_for}
use takeln.Retry.Bounds.{delay_for_bounds, delay_for-gt-cap, capped_delay_mono}
use takeln.Exec.Defs.{done, hang, push_record}
use takeln.Exec.History.{push_record_newest, push_record_zero}
use takeln.Run.Engine.{run, run_inner}
use takeln.Run.Termination.{run-ne-hang}
use takeln.Exec.Starts.{starts}
use takeln.Run.Starts.{run_inner-StartsUpTo}
use takeln.Error.{yield, ok}
use takeln.Context.{NodeContext}
use takeln.Graph.{edge_target}
use takeln.Graph.Builder.{edge, conditional_edge, build}
use takeln.Graph.Routes.{edge_target-build}
use takeln.Node.{run_child_state}
use takeln.Node.Children.{run_child_state-ne-yield}
use takeln.Schema.{validate_input_against_schema}
use takeln.Schema.Accepts.{HasType, IsListed, validate_accepts}
use takeln.Tests.Samples.{
  text, typed, Json, json_view, approval, machine, approval_graph, started, old_record, Heads,
  heads,
}

run-ne-hang_example : (run machine approval_graph heads "t1" 3 "review" none (started [])).0 ≢ hang
run-ne-hang_example =
    run-ne-hang machine approval_graph heads "t1" 3 "review" none (started []) (omega arith)

delay_for_bounds_example :
    let capped = capped_delay default_policy 6 in
    let delay = delay_for default_policy 6 12_345 in
    (capped ≤ delay + capped / 8) × (delay ≤ capped + capped / 8) × (delay ≤ 33_750)
delay_for_bounds_example = delay_for_bounds default_policy 6 12_345 (omega arith)

delay_for-gt-cap_example : 30_000 < delay_for default_policy 6 7_000
unfolding capped_delay
delay_for-gt-cap_example =
    delay_for-gt-cap default_policy 6 7_000 (omega arith) refl refl (omega arith) (omega arith)

capped_delay_mono_example : capped_delay default_policy 5 ≤ capped_delay default_policy 6
capped_delay_mono_example = capped_delay_mono default_policy 5

push_record_newest_example :
    let x = started {St = Heads} [] in
    let y = record x { records = old_record ∷ old_record ∷ [] } in
    (push_record 2 old_record y ≡ (done tt, record x { records = old_record ∷ old_record ∷ [] }))
    × (2 ≤ 2)
push_record_newest_example =
    push_record_newest 2 old_record
      (record (started {St = Heads} []) { records = old_record ∷ old_record ∷ [] }) (omega arith)

push_record_zero_example : push_record 0 old_record (started {St = Heads} []) ≡ (hang, started [])
push_record_zero_example = push_record_zero old_record (started {St = Heads} [])

run_inner-StartsUpTo_example :
    starts
      (run_inner machine approval_graph heads "t1" 3 "review" none
        (some (text "yes"))
        none
        (started [])).1.events
    ≤ 1_000
unfolding starts
run_inner-StartsUpTo_example =
    run_inner-StartsUpTo machine approval_graph heads "t1" 3 "review" none (some (text "yes")) none
      (started [])

-- A graph whose first node leads to the second, or to the end where the state is small.
edge_target-build_example :
    edge_target
      (build (
        conditional_edge "publish"
          (λ n. if ltb n 5 then "__END__" else "review")
          (edge "review" "publish" (record { graph = approval_graph }))))
      "publish"
      3
    ≡ some "__END__"
edge_target-build_example =
    edge_target-build (record { graph = approval_graph }) "review" "publish" "publish" "publish"
      (λ n. if ltb n 5 then "__END__" else "review") 3

abbrev parent : NodeContext Json ℕ
parent = record {
  thread_id = "t1";
  node_name = "each";
  attempt = 0;
  execution_id = "e";
  attempt_id = "a";
  last_checkpoint_id = none;
  budget_remaining_eur = none;
  cancellation = none;
  resumed_input = none;
}

run_child_state-ne-yield_example :
    (run_child_state machine (record { nodes = approval_graph.nodes }) "review" parent 3 0).0
    ≢ inr (yield approval)
run_child_state-ne-yield_example =
    run_child_state-ne-yield machine (record { nodes = approval_graph.nodes }) "review" parent 3 0
      approval

validate_accepts_example :
    (validate_input_against_schema {C = ℕ} json_view "approve" (text "yes") (typed "string")
      ≡ ok tt)
    ↔ (HasType json_view (text "yes") (typed "string")
        × IsListed json_view (text "yes") (typed "string"))
validate_accepts_example = validate_accepts json_view "approve" (text "yes") (typed "string")
