-- ===== src/Run/Silent.antt =====
-- The parts of a round of src/graph.rs that send no `NodeStarted` event: the attempts at a node, the arms of
-- the match on its result, and the durable write.
use takeln.Base.{max, refl, ℕ, zero, suc, ◌+◌, Option, none, String, List, leb}
use takeln.Error.{GraphError, retryable, fatal, yield, yield_in_dynamic_node}
use takeln.Checkpoint.{SaveRequest, Checkpointer}
use takeln.Context.{Host}
use takeln.Node.{Node, DynamicNode, NodeMeta, NodeOutput, NodeResult, done, failed}
use takeln.Graph.{Graph}
use takeln.Exec.Defs.{pure, SpanStatus, Action, ◌>>◌}
use takeln.Exec.Starts.{IsSilent, >>=-IsSilent, if-IsSilent, silent}
use takeln.Run.Frame.{Frame, save, check_checkpoint_size, elapsed_since, send_finished, emit_span}
use takeln.Run.Handlers.{
  check_node_budget, check_budget, record_success, on_success, on_yield, observe_failure, on_error,
  on_result,
}
use takeln.Run.Call.{
  CallSite, Called, attempt_call, back_off, after_attempt, call_loop, call_node, call_dynamic,
}

module _ {S V C W St : Type 0} (host : Host S V C W) where
  attempt_call-IsSilent :
      (site : CallSite S C) (node : Node S V C W) (attempt : ℕ) (input : Option V)
      → IsSilent {St = St} (attempt_call host site node attempt input)
  unfolding attempt_call
  attempt_call-IsSilent site node attempt input = search silent

  back_off-IsSilent :
      (site : CallSite S C) (attempt : ℕ) (msg : String)
      → IsSilent {St = St} (back_off host site attempt msg)
  unfolding back_off
  back_off-IsSilent site attempt msg = search silent

  after_attempt-IsSilent :
      (site : CallSite S C) (attempt : ℕ) (retry : String → Action C W St (Called S V C))
      → ((msg : String) → IsSilent (retry msg))
      → (r : NodeResult S V C) → IsSilent (after_attempt host site attempt retry r)
  unfolding after_attempt
  after_attempt-IsSilent site attempt retry h (failed (retryable msg)) =
      if-IsSilent (leb site.retry.max_attempts (attempt + 1))
        (pure (record { result = failed (retryable msg); attempt = attempt + 1 })) (retry msg)
        (λ x. refl) (h msg)
  after_attempt-IsSilent site attempt retry h r = λ x. refl

  call_loop-IsSilent :
      (fuel : ℕ) (site : CallSite S C) (node : Node S V C W) (attempt : ℕ) (input : Option V)
      → IsSilent {St = St} (call_loop host fuel site node attempt input)
  unfolding call_loop
  call_loop-IsSilent zero site node attempt input = λ x. refl
  call_loop-IsSilent (suc fuel) site node attempt input =
      let retry : String → Action C W St (Called S V C) = λ msg.
        back_off host site (attempt + 1) msg >> call_loop host fuel site node (attempt + 1) none in
      >>=-IsSilent (attempt_call host site node attempt input)
        (after_attempt host site attempt retry) (attempt_call-IsSilent site node attempt input)
        (after_attempt-IsSilent site attempt retry (λ msg.
          >>=-IsSilent (back_off host site (attempt + 1) msg)
            (λ _. call_loop host fuel site node (attempt + 1) none)
            (back_off-IsSilent site (attempt + 1) msg)
            (λ _. call_loop-IsSilent fuel site node (attempt + 1) none)))

  pub call_node-IsSilent :
      (site : CallSite S C) (node : Node S V C W) (input : Option V)
      → IsSilent {St = St} (call_node host site node input)
  unfolding call_node
  call_node-IsSilent site node input =
      call_loop-IsSilent (max site.retry.max_attempts 1) site node 0 input

  pub call_dynamic-IsSilent :
      (nodes : List (String × Node S V C W)) (site : CallSite S C) (node : DynamicNode S V C W)
      (input : Option V)
      → IsSilent {St = St} (call_dynamic host nodes site node input)
  unfolding call_dynamic
  call_dynamic-IsSilent nodes site node input = search silent

module _ {S V C W St : Type 0} (host : Host S V C W) (graph : Graph S V C W)
    (cp : Checkpointer S V C St) where
  pub save-IsSilent :
      (request : SaveRequest S V) (head : Option String)
      → IsSilent (save host graph cp request head)
  unfolding save check_checkpoint_size
  save-IsSilent request head = search silent

  send_finished-IsSilent :
      (f : Frame S V C) (duration_ms : ℕ) (status : String) (cost : Option C)
      → IsSilent {W = W} {St = St} (send_finished f duration_ms status cost)
  unfolding send_finished
  send_finished-IsSilent f duration_ms status cost = search silent

  emit_span-IsSilent :
      (f : Frame S V C) (attempt duration_ms : ℕ) (cost : Option C) (status : SpanStatus)
      (error : Option String) (meta : NodeMeta C)
      → IsSilent {W = W} {St = St} (emit_span f attempt duration_ms cost status error meta)
  unfolding emit_span
  emit_span-IsSilent f attempt duration_ms cost status error meta = search silent

  check_node_budget-IsSilent :
      (f : Frame S V C) (duration_ms : ℕ) (meta : NodeMeta C)
      → IsSilent {St = St} (check_node_budget host graph cp f duration_ms meta)
  unfolding check_node_budget
  check_node_budget-IsSilent f duration_ms meta = search (silent, send_finished-IsSilent)

  check_budget-IsSilent :
      (f : Frame S V C) (attempt duration_ms : ℕ) (meta : NodeMeta C) (running_cost : C)
      → IsSilent {St = St} (check_budget host graph cp f attempt duration_ms meta running_cost)
  unfolding check_budget
  check_budget-IsSilent f attempt duration_ms meta running_cost =
      search (silent, send_finished-IsSilent, emit_span-IsSilent)

  record_success-IsSilent :
      (f : Frame S V C) (started_at attempt duration_ms : ℕ) (meta : NodeMeta C)
      → IsSilent {St = St} (record_success host graph cp f started_at attempt duration_ms meta)
  unfolding record_success
  record_success-IsSilent f started_at attempt duration_ms meta =
      search (silent, send_finished-IsSilent, emit_span-IsSilent)

  on_success-IsSilent :
      (f : Frame S V C) (started_at attempt : ℕ) (out : NodeOutput S C)
      → IsSilent (on_success host graph cp f started_at attempt out)
  unfolding on_success elapsed_since
  on_success-IsSilent f started_at attempt out =
      search
        (
          silent, check_node_budget-IsSilent, check_budget-IsSilent, record_success-IsSilent,
          save-IsSilent,
        )
        depth 9

  on_error-IsSilent :
      (f : Frame S V C) (started_at attempt : ℕ) (e : GraphError V C)
      → IsSilent (on_error host graph cp f started_at attempt e)
  unfolding on_error on_yield observe_failure elapsed_since
  on_error-IsSilent f started_at attempt (yield request) =
      search (silent, save-IsSilent, send_finished-IsSilent, emit_span-IsSilent) depth 7
  on_error-IsSilent f started_at attempt (retryable msg) =
      search (silent, send_finished-IsSilent, emit_span-IsSilent)
  on_error-IsSilent f started_at attempt (fatal msg) =
      search (silent, send_finished-IsSilent, emit_span-IsSilent)
  on_error-IsSilent f started_at attempt (GraphError.budget_exceeded spent limit) =
      search (silent, send_finished-IsSilent, emit_span-IsSilent)
  on_error-IsSilent f started_at attempt (yield_in_dynamic_node i) = λ x. refl

  pub on_result-IsSilent :
      (f : Frame S V C) (started_at attempt : ℕ) (r : NodeResult S V C)
      → IsSilent (on_result host graph cp f started_at attempt r)
  unfolding on_result
  on_result-IsSilent f started_at attempt (done out) = on_success-IsSilent f started_at attempt out
  on_result-IsSilent f started_at attempt (failed e) = on_error-IsSilent f started_at attempt e
