-- ===== src/Run/Termination.antt =====
-- A run of src/graph.rs ends: the retries, the rounds and the history's eviction are bounded.
use takeln.Base.{
  ℕ, zero, suc, ◌+◌, ◌≤◌, ◌<◌, ◌≢◌, Option, none, some, String, List, arith, leb, Bool-cases, inl,
  inr,
}
use takeln.Error.{GraphError, retryable, fatal, yield, yield_in_dynamic_node}
use takeln.Checkpoint.{SaveRequest, Checkpointer}
use takeln.Context.{Host}
use takeln.Node.{Node, DynamicNode, NodeMeta, NodeOutput, NodeResult, done, failed}
use takeln.Graph.{Graph}
use takeln.Exec.Defs.{SpanStatus, set_last_head, Exec, hang, Action, ◌>>◌}
use takeln.Exec.Quiet.{Ends, >>=-Ends, pure-Ends, throw-Ends, ends}
use takeln.Run.Frame.{
  Frame, Round, stop, again, save, check_checkpoint_size, elapsed_since, send_finished, emit_span,
}
use takeln.Run.Engine.{
  start_node, execute_by, execute_node, by_round, finish, interrupt, run_step, run_loop, run_inner,
  run,
}
use takeln.Run.Handlers.{
  check_node_budget, check_budget, record_success, on_success, on_yield, observe_failure, on_error,
  on_result,
}
use takeln.Run.Call.{
  CallSite, Called, attempt_call, back_off, after_attempt, call_loop, call_node, call_dynamic,
}

module _ {S V C W St : Type 0} (host : Host S V C W) where
  attempt_call-Ends :
      (site : CallSite S C) (node : Node S V C W) (attempt : ℕ) (input : Option V)
      → Ends {St = St} (attempt_call host site node attempt input)
  unfolding attempt_call
  attempt_call-Ends site node attempt input = search ends

  back_off-Ends :
      (site : CallSite S C) (attempt : ℕ) (msg : String)
      → Ends {St = St} (back_off host site attempt msg)
  unfolding back_off
  back_off-Ends site attempt msg = search ends

  -- The retry is made only while the limit leaves attempts.
  after_attempt-Ends :
      (site : CallSite S C) (attempt : ℕ) (retry : String → Action C W St (Called S V C))
      → (suc attempt < site.retry.max_attempts → (msg : String) → Ends (retry msg))
      → (r : NodeResult S V C) → Ends (after_attempt host site attempt retry r)
  unfolding after_attempt
  after_attempt-Ends site attempt retry h (failed (retryable msg)) =
      elim (Bool-cases (leb site.retry.max_attempts (attempt + 1))) [
        | inl e ↦ rw e (pure-Ends _)
        | inr e ↦ rw e (h (ground arith) msg)
      ]
  after_attempt-Ends site attempt retry h r = pure-Ends _

  -- As many rounds as attempts are left, and one at least, are enough.
  call_loop-Ends :
      (fuel : ℕ) (site : CallSite S C) (node : Node S V C W) (attempt : ℕ) (input : Option V)
      → site.retry.max_attempts ≤ attempt + fuel
      → 0 < fuel
      → Ends {St = St} (call_loop host fuel site node attempt input)
  unfolding call_loop
  call_loop-Ends zero site node attempt input enough some_fuel = absurd (omega arith)
  call_loop-Ends (suc fuel) site node attempt input enough some_fuel =
      let retry : String → Action C W St (Called S V C) = λ msg.
        back_off host site (attempt + 1) msg >> call_loop host fuel site node (attempt + 1) none in
      >>=-Ends _ (after_attempt host site attempt retry) (attempt_call-Ends site node attempt input)
        (after_attempt-Ends site attempt retry (λ more msg.
          >>=-Ends _ _ (back_off-Ends site (attempt + 1) msg)
            (λ _. call_loop-Ends fuel site node (attempt + 1) none (omega arith) (omega arith))))

  call_node-Ends :
      (site : CallSite S C) (node : Node S V C W) (input : Option V)
      → Ends {St = St} (call_node host site node input)
  unfolding call_node
  call_node-Ends site node input = call_loop-Ends _ site node 0 input (omega arith) (omega arith)

  call_dynamic-Ends :
      (nodes : List (String × Node S V C W)) (site : CallSite S C) (node : DynamicNode S V C W)
      (input : Option V)
      → Ends {St = St} (call_dynamic host nodes site node input)
  unfolding call_dynamic
  call_dynamic-Ends nodes site node input = search ends

module _ {S V C W St : Type 0} (host : Host S V C W) (graph : Graph S V C W)
    (cp : Checkpointer S V C St)
    (some_record : 0 < graph.resource_limits.max_execution_records) where
  save-Ends :
      (request : SaveRequest S V) (head : Option String) → Ends (save host graph cp request head)
  unfolding save check_checkpoint_size
  save-Ends request head = search ends

  send_finished-Ends :
      (f : Frame S V C) (duration_ms : ℕ) (status : String) (cost : Option C)
      → Ends {W = W} {St = St} (send_finished f duration_ms status cost)
  unfolding send_finished
  send_finished-Ends f duration_ms status cost = search ends

  emit_span-Ends :
      (f : Frame S V C) (attempt duration_ms : ℕ) (cost : Option C) (status : SpanStatus)
      (error : Option String) (meta : NodeMeta C)
      → Ends {W = W} {St = St} (emit_span f attempt duration_ms cost status error meta)
  unfolding emit_span
  emit_span-Ends f attempt duration_ms cost status error meta = search ends

  set_last_head-Ends : (head : Option String) → Ends {C = C} {W = W} {St = St} (set_last_head head)
  unfolding set_last_head
  set_last_head-Ends head x e = cc

  check_node_budget-Ends :
      (f : Frame S V C) (duration_ms : ℕ) (meta : NodeMeta C)
      → Ends {St = St} (check_node_budget host graph cp f duration_ms meta)
  unfolding check_node_budget
  check_node_budget-Ends f duration_ms meta = search (ends, send_finished-Ends)

  check_budget-Ends :
      (f : Frame S V C) (attempt duration_ms : ℕ) (meta : NodeMeta C) (running_cost : C)
      → Ends {St = St} (check_budget host graph cp f attempt duration_ms meta running_cost)
  unfolding check_budget
  check_budget-Ends f attempt duration_ms meta running_cost =
      search (ends, send_finished-Ends, emit_span-Ends)

  record_success-Ends :
      (f : Frame S V C) (started_at attempt duration_ms : ℕ) (meta : NodeMeta C)
      → Ends {St = St} (record_success host graph cp f started_at attempt duration_ms meta)
  unfolding record_success
  record_success-Ends f started_at attempt duration_ms meta =
      search (ends, send_finished-Ends, emit_span-Ends)

  on_success-Ends :
      (f : Frame S V C) (started_at attempt : ℕ) (out : NodeOutput S C)
      → Ends (on_success host graph cp f started_at attempt out)
  unfolding on_success elapsed_since
  on_success-Ends f started_at attempt out =
      search
        (
          ends, check_node_budget-Ends, check_budget-Ends, record_success-Ends, save-Ends,
          set_last_head-Ends,
        )
        depth 9

  on_error-Ends :
      (f : Frame S V C) (started_at attempt : ℕ) (e : GraphError V C)
      → Ends (on_error host graph cp f started_at attempt e)
  unfolding on_error on_yield observe_failure elapsed_since
  on_error-Ends f started_at attempt (yield request) =
      search (ends, save-Ends, send_finished-Ends, emit_span-Ends) depth 7
  on_error-Ends f started_at attempt (retryable msg) =
      search (ends, send_finished-Ends, emit_span-Ends)
  on_error-Ends f started_at attempt (fatal msg) = search (ends, send_finished-Ends, emit_span-Ends)
  on_error-Ends f started_at attempt (GraphError.budget_exceeded spent limit) =
      search (ends, send_finished-Ends, emit_span-Ends)
  on_error-Ends f started_at attempt (yield_in_dynamic_node i) = throw-Ends _

  on_result-Ends :
      (f : Frame S V C) (started_at attempt : ℕ) (r : NodeResult S V C)
      → Ends (on_result host graph cp f started_at attempt r)
  unfolding on_result
  on_result-Ends f started_at attempt (done out) = on_success-Ends f started_at attempt out
  on_result-Ends f started_at attempt (failed e) = on_error-Ends f started_at attempt e

  start_node-Ends :
      (f : Frame S V C) (call : Action C W St (Called S V C))
      → Ends call
      → Ends (start_node host graph cp f call)
  unfolding start_node
  start_node-Ends f call h = search (ends, on_result-Ends) depth 7

  execute_by-Ends :
      (f : Frame S V C) (dynamic : Option (DynamicNode S V C W)) (node : Option (Node S V C W))
      → Ends (execute_by host graph cp f dynamic node)
  unfolding execute_by
  execute_by-Ends f (some node) registered =
      start_node-Ends f _ (call_dynamic-Ends host graph.nodes _ node _)
  execute_by-Ends f none (some node) = start_node-Ends f _ (call_node-Ends host _ node _)
  execute_by-Ends f none none = throw-Ends _

  execute_node-Ends : (f : Frame S V C) → Ends (execute_node host graph cp f)
  unfolding execute_node
  execute_node-Ends f = execute_by-Ends f _ _

  run_step-Ends : (f : Frame S V C) → Ends (run_step host graph cp f)
  unfolding run_step finish interrupt
  run_step-Ends f = search (ends, execute_node-Ends, save-Ends) depth 8

  by_round-Ends :
      (next : Frame S V C → Action C W St S)
      → ((f : Frame S V C) → Ends (next f))
      → (r : Round S V C) → Ends (by_round host graph cp next r)
  unfolding by_round
  by_round-Ends next h (stop s) = pure-Ends s
  by_round-Ends next h (again f) = h f

  run_loop-Ends : (left : ℕ) (f : Frame S V C) → Ends (run_loop host graph cp left f)
  unfolding run_loop
  run_loop-Ends zero f = throw-Ends _
  run_loop-Ends (suc left) f =
      >>=-Ends _ (by_round host graph cp (run_loop host graph cp left)) (run_step-Ends _)
        (by_round-Ends (run_loop host graph cp left) (run_loop-Ends left))

  pub run_inner-Ends :
      (thread_id : String) (state : S) (start : String) (cancellation : Option ℕ) (input : Option V)
      (resolved : Option String)
      → Ends (run_inner host graph cp thread_id state start cancellation input resolved)
  unfolding run_inner
  run_inner-Ends thread_id state start cancellation input resolved =
      search (ends, set_last_head-Ends, run_loop-Ends)

-- A run ends, in a state or an error, whatever the nodes answer and whatever cycles the edges have, if the
-- history may hold a record at all.
pub run-ne-hang :
    {S V C W St : Type 0} (host : Host S V C W) (graph : Graph S V C W) (cp : Checkpointer S V C St)
    (thread_id : String) (state : S) (start : String) (cancellation : Option ℕ) (x : Exec C W St)
    → 0 < graph.resource_limits.max_execution_records
    → (run host graph cp thread_id state start cancellation x).0 ≢ hang
unfolding run
run-ne-hang host graph cp thread_id state start cancellation x h =
    run_inner-Ends host graph cp h thread_id state start cancellation none none x
