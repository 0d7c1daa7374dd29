-- ===== src/Resume/Input.antt =====
-- `Graph::resume_with_input` of src/graph.rs.
use takeln.Base.{ℕ, String, ◌==◌, Option, none, some, [], ◌∷◌, concat, unwrap_or, if◌then◌else◌}
use takeln.Hitl.{YieldRequest, re_entry, handoff, ResumeContext}
use takeln.Error.{TakelnError, execution_error, nothing_to_resume, invalid_resume, Result, ok, err}
use takeln.Checkpoint.{
  CheckpointMeta, claimed, in_progress, already_completed, ClaimResult, Loaded, Checkpointer,
}
use takeln.Context.{Host}
use takeln.Graph.{Graph, edge_target}
use takeln.Schema.{JsonView, validate_input_against_schema}
use takeln.Exec.Defs.{
  on_resume, Exec, Outcome, done, fail, hang, Action, ◌>>=◌, ◌>>◌, pure, throw, lift, ask,
  ask_store, notify, push_record,
}
use takeln.Run.Engine.{run_inner}
use takeln.Resume.Crash.{revert_to_yielded}

-- The error of a resume whose interrupt another caller has claimed.
abbrev pub resume_busy : {C : Type 0} → (thread_id interrupt_id : String) → TakelnError C
resume_busy thread_id interrupt_id = execution_error (
    concat (
      "Resume in progress for interrupt '" ∷ interrupt_id ∷ "' on thread '" ∷ thread_id ∷ "'" ∷ []))

module _ {S V C W St : Type 0} (host : Host S V C W) (json : JsonView V) (graph : Graph S V C W)
    (cp : Checkpointer S V C St) where
  -- The answer to the caller once the rollback of a failed run is written, or is not.
  unfoldable pub reverted_answer :
      TakelnError C → Outcome C (Unit {0}) × Exec C W St → Outcome C (Option S) × Exec C W St
  reverted_answer e (done _, x) = (fail e, x)
  reverted_answer e (hang, x) = (hang, x)
  reverted_answer e (fail save_err, x) = (
    fail (
        execution_error (
          concat (
            "Execution failed: "
            ∷ host.error_text e
            ∷ ". Rollback save failed: "
            ∷ host.error_text save_err
            ∷ []))),
    x,
  )

  -- A run that fails is rolled back to the yielded checkpoint.
  unfoldable pub after_resume :
      (thread_id : String)
      → S
      → (next_node : String) → YieldRequest V
      → Outcome C S × Exec C W St
      → Outcome C (Option S) × Exec C W St
  unfolding reverted_answer
  after_resume thread_id state next_node request (done final, x) = (done (some final), x)
  after_resume thread_id state next_node request (hang, x) = (hang, x)
  after_resume thread_id state next_node request (fail e, x) =
      reverted_answer e (revert_to_yielded cp thread_id state next_node request x.last_head x)

  -- The run of a resume, and its rollback.
  unfoldable pub with_rollback :
      Action C W St S
      → (thread_id : String) → S
      → (next_node : String) → YieldRequest V
      → Action C W St (Option S)
  unfolding after_resume
  with_rollback run thread_id state next_node request x =
      after_resume thread_id state next_node request (run (record x { last_head = none }))

  -- The two modes: the yielded node runs again with the input, or the run goes on behind it.
  unfoldable pub resume_run :
      (thread_id interrupt_id : String)
      → V
      → Option ℕ
      → S
      → CheckpointMeta V
      → YieldRequest V
      → Action C W St (Option S)
  resume_run thread_id interrupt_id input cancellation state meta request =
      elim request.resume_mode [
        | re_entry ↦
            with_rollback
              (run_inner host graph cp thread_id state meta.next_node cancellation (some input)
                (some interrupt_id))
              thread_id state meta.next_node request
        | handoff ↦
            with_rollback
              (run_inner host graph cp thread_id state
                (unwrap_or (edge_target graph meta.next_node state) "__END__") cancellation none
                (some interrupt_id))
              thread_id state meta.next_node request
      ]

  -- The audit of a resume: the metrics hook and the history.
  unfoldable pub audit :
      (thread_id interrupt_id : String)
      → (response_hash : String) → ResumeContext V
      → CheckpointMeta V
      → Action C W St (Unit {0})
  audit thread_id interrupt_id response_hash context meta = do
    resumed_at ← ask host.utc_now
    notify (
        on_resume (record {
          interrupt_id = interrupt_id;
          thread_id = thread_id;
          node_name = meta.next_node;
          actor = context.actor;
          resumed_at = resumed_at;
          response_hash = response_hash;
        }))
    push_record graph.resource_limits.max_execution_records (record {
      node_name = meta.next_node;
      started_at = resumed_at;
      duration_ms = 0;
      status = "resumed";
      cost_eur = none;
      checkpoint_id = some meta.checkpoint_id;
      attempts = 0;
      actor = context.actor;
      response_hash = some response_hash;
      tokens_in = none;
      tokens_out = none;
    })

  -- The checks between the claim and the run; the claim is already made.
  unfoldable pub check_resume :
      (thread_id interrupt_id : String) → V → CheckpointMeta V → Result C (YieldRequest V)
  check_resume thread_id interrupt_id input meta = elim meta.yield_request [
    | none ↦ err (
        nothing_to_resume
          (concat ("Thread '" ∷ thread_id ∷ "' has no yield_request metadata" ∷ [])))
    | some request ↦
        if request.interrupt_id == interrupt_id
        then elim request.schema [
          | none ↦ ok request
          | some schema ↦
              elim (validate_input_against_schema {C = C} json interrupt_id input schema) [
                | err e ↦ err e
                | ok _ ↦ ok request
              ]
        ]
        else err (
            invalid_resume (
              concat (
                "Expected interrupt_id '" ∷ request.interrupt_id ∷ "', got '" ∷ interrupt_id ∷ "'"
                ∷ [])))
  ]

  -- The resume of a claimed interrupt.
  unfoldable pub resume_claimed :
      (thread_id interrupt_id : String)
      → V
      → ResumeContext V
      → Option ℕ
      → S
      → CheckpointMeta V
      → Action C W St (Option S)
  resume_claimed thread_id interrupt_id input context cancellation state meta = do
    request ← lift (check_resume thread_id interrupt_id input meta)
    result ← resume_run thread_id interrupt_id input cancellation state meta request
    audit thread_id interrupt_id (host.response_hash input) context meta
    pure result

  -- The resume, with the claim answered and the latest checkpoint loaded.
  unfoldable pub resume_loaded :
      (thread_id interrupt_id : String)
      → V
      → ResumeContext V
      → Option ℕ
      → ClaimResult
      → Option (Loaded S V)
      → Action C W St (Option S)
  resume_loaded thread_id interrupt_id input context cancellation claim none =
      throw (nothing_to_resume thread_id)
  resume_loaded thread_id interrupt_id input context cancellation already_completed
        (some (state, meta, _)) =
      pure (some state)
  resume_loaded thread_id interrupt_id input context cancellation in_progress
        (some (state, meta, _)) =
      throw (resume_busy thread_id interrupt_id)
  resume_loaded thread_id interrupt_id input context cancellation claimed (some (state, meta, _)) =
      resume_claimed thread_id interrupt_id input context cancellation state meta

  unfoldable pub resume_with_input :
      (thread_id interrupt_id : String) → V → ResumeContext V → Option ℕ → Action C W St (Option S)
  resume_with_input thread_id interrupt_id input context cancellation = do
    claim ← ask_store (cp.backend.claim_interrupt thread_id interrupt_id)
    loaded ← ask_store (cp.backend.load_state thread_id)
    resume_loaded thread_id interrupt_id input context cancellation claim loaded
