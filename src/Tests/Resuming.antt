-- ===== src/Tests/Resuming.antt =====
-- The theorems on resuming in src/graph.rs at concrete data.
use takeln.Base.{ℕ, ◌≡◌, ◌≢◌, refl, Option, some, none, [], ◌∷◌}
use takeln.Error.{node_not_found, execution_error, ok, err, schema_validation_failed}
use takeln.Checkpoint.{CheckpointStatus, claimed, checkpoint_id, checkpoint_proof}
use takeln.Store.Memory.Data.{MemoryCheckpoint, MemoryStore}
use takeln.Store.Memory.Ops.{to_meta, load_checkpoint, load_state}
use takeln.Store.Memory.{memory_checkpointer}
use takeln.Schema.{type_name, type_ok, validate_input_against_schema}
use takeln.Store.Memory.Claim.{claim_checkpoint, claim_interrupt}
use takeln.Exec.Defs.{
  Exec, Outcome, done, fail, Action, set_last_head, send, next_seq, emit, notify, push_record,
  evict, for_some,
}
use takeln.Run.Engine.{
  run_inner, run_loop, run_step, by_round, execute_node, execute_by, start_node, first_frame,
}
use takeln.Run.Journal.{Journaled, journaled, before_calls}
use takeln.Resume.Crash.{revert_to_yielded}
use takeln.Run.Handlers.{
  on_result, on_success, on_error, check_node_budget, check_budget, record_success, route,
}
use takeln.Run.Call.{call_node, call_loop, attempt_call, after_attempt}
use takeln.Run.Frame.{
  save, check_checkpoint_size, frame_request, call_site, config_of, elapsed_since, send_finished,
  emit_span,
}
use takeln.Node.{settle}
use takeln.Context.{new_context}
use takeln.Graph.{edge_target}
use takeln.Resume.Claims.{resume-refused, resume-completed, rejected-locks}
use takeln.Resume.Input.{
  resume_busy, check_resume, with_rollback, resume_with_input, after_resume, reverted_answer,
}
use takeln.Resume.Rollback.{rollback_failed}
use takeln.Tests.Samples.{
  waiting-IsClaimable, Json, num, text, json_view, machine, approval, approval_graph, started,
  caller, json_serde, waiting, answered, waiting_store, answered_store, Contested, contested,
  lone_graph, save_contested, save_head, same_head,
}

wrong-refused : (claim_interrupt {C = ℕ} "t1" "other" waiting_store).0 ≢ ok claimed
unfolding claim_interrupt claim_checkpoint
wrong-refused e = cc

resume-refused_example :
    (resume_with_input machine json_view approval_graph
      (memory_checkpointer json_serde)
      "t1"
      "other"
      (text "yes")
      caller
      none
      (started waiting_store)).1
    ≡ started waiting_store
resume-refused_example =
    resume-refused machine json_view approval_graph json_serde "t1" "other" (text "yes") caller none
      (started waiting_store) wrong-refused

loaded_answered :
    (load_state {C = ℕ} json_serde "t1" answered_store).0
    ≡ ok (some (4, to_meta "t1" answered, none))
unfolding load_state to_meta load_checkpoint
loaded_answered = refl

resume-completed_example :
    resume_with_input machine json_view approval_graph
      (memory_checkpointer json_serde)
      "t1"
      "approve"
      (text "yes")
      caller
      none
      (started answered_store)
    ≡ (done (some 4), started answered_store)
resume-completed_example =
    resume-completed machine json_view approval_graph json_serde "t1" "approve" (text "yes") caller
      none (started answered_store) 4 (to_meta "t1" answered) none refl loaded_answered

-- The checkpoint of the waiting store once it is claimed.
abbrev taken : MemoryCheckpoint Json
taken = record waiting { status = CheckpointStatus.running; claimed_interrupt = some "approve" }

loaded_taken :
    (load_state {C = ℕ} json_serde "t1" (claim_interrupt {C = ℕ} "t1" "approve" waiting_store).1).0
    ≡ ok (some (3, to_meta "t1" taken, none))
unfolding load_state to_meta load_checkpoint claim_interrupt claim_checkpoint
loaded_taken = refl

rejected_number :
    check_resume machine json_view approval_graph
      (memory_checkpointer json_serde)
      "t1"
      "approve"
      (num 1)
      (to_meta "t1" taken)
    ≡ err (schema_validation_failed "approve" "Expected type 'string', got 'integer'")
unfolding check_resume to_meta validate_input_against_schema type_name type_ok
rejected_number = refl

rejected-locks_example :
    let x = started waiting_store in
    let resume_by : Json
        → Exec ℕ ℕ (MemoryStore Json)
        → Outcome ℕ (Option ℕ) × Exec ℕ ℕ (MemoryStore Json) =
      λ v y.
        resume_with_input machine json_view approval_graph
          (memory_checkpointer json_serde)
          "t1"
          "approve"
          v
          caller
          none
          y in
    let y = (resume_by (num 1) x).1 in
    ((resume_by (num 1) x).0
      ≡ fail (schema_validation_failed "approve" "Expected type 'string', got 'integer'"))
    × (resume_by (text "yes") y ≡ (fail (resume_busy "t1" "approve"), y))
rejected-locks_example =
    rejected-locks machine json_view approval_graph json_serde "t1" "approve" (num 1) caller none
      (started waiting_store) 3 (to_meta "t1" taken) none _ (text "yes") caller none
      waiting-IsClaimable loaded_taken rejected_number

-- The rollback expects the run's own head and meets the other writer's: both errors are answered.
rival_conflict :
    let run : Action ℕ ℕ (Journaled ℕ Json ℕ Contested) ℕ =
      run_inner machine lone_graph
        (journaled contested)
        "t1"
        3
        "review"
        none
        (some (text "yes"))
        (some "approve") in
    let (answer, y) =
      with_rollback machine json_view lone_graph
        (journaled contested)
        run
        "t1"
        3
        "review"
        approval
        (before_calls (started {St = Contested} (1, ("t1", "c1") ∷ []))) in
    (answer
      ≡ fail (
          rollback_failed machine
            (node_not_found "publish")
            (execution_error "checkpoint head conflict; actual head: rival")))
    × (y.store.store ≡ (0, ("t1", "rival") ∷ []))
unfolding with_rollback after_resume reverted_answer revert_to_yielded run_inner run_loop run_step
    by_round execute_node execute_by start_node first_frame set_last_head send next_seq on_result
    on_success on_error call_node call_loop attempt_call after_attempt settle new_context save
    check_checkpoint_size frame_request elapsed_since check_node_budget check_budget record_success
    send_finished emit_span emit notify push_record evict for_some route save_contested save_head
    same_head checkpoint_id checkpoint_proof edge_target call_site config_of
rival_conflict = (refl, refl)
