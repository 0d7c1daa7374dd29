-- ===== src/Run/Quiet.antt =====
-- The parts of a round in src/graph.rs that touch neither the store nor the tracked head.
use takeln.Base.{ℕ, zero, suc, ◌+◌, Option, none, String, List}
use takeln.Error.{retryable}
use takeln.Checkpoint.{Checkpointer}
use takeln.Context.{Host}
use takeln.Node.{NodeMeta, Node, DynamicNode, NodeResult, failed}
use takeln.Graph.{Graph}
use takeln.Exec.Defs.{SpanStatus, Action, ◌>>◌}
use takeln.Exec.Quiet.{IsQuiet, SameStore-refl, >>=-IsQuiet, quiet}
use takeln.Run.Frame.{Frame, elapsed_since, send_finished, emit_span}
use takeln.Run.Handlers.{check_node_budget, check_budget, record_success}
use takeln.Run.Call.{
  CallSite, Called, attempt_call, back_off, after_attempt, call_loop, call_node, call_dynamic,
}

module _ {S V C W St : Type 0} (host : Host S V C W) where
  attempt_call-IsQuiet :
      (site : CallSite S C) (node : Node S V C W) (attempt : ℕ) (input : Option V)
      → IsQuiet {St = St} (attempt_call host site node attempt input)
  unfolding attempt_call
  attempt_call-IsQuiet site node attempt input = search quiet

  back_off-IsQuiet :
      (site : CallSite S C) (attempt : ℕ) (msg : String)
      → IsQuiet {St = St} (back_off host site attempt msg)
  unfolding back_off
  back_off-IsQuiet site attempt msg = search quiet

  after_attempt-IsQuiet :
      (site : CallSite S C) (attempt : ℕ) (retry : String → Action C W St (Called S V C))
      → ((msg : String) → IsQuiet (retry msg))
      → (r : NodeResult S V C) → IsQuiet (after_attempt host site attempt retry r)
  unfolding after_attempt
  after_attempt-IsQuiet site attempt retry h (failed (retryable msg)) = search (quiet, h)
  after_attempt-IsQuiet site attempt retry h r = search quiet

  call_loop-IsQuiet :
      (fuel : ℕ) (site : CallSite S C) (node : Node S V C W) (attempt : ℕ) (input : Option V)
      → IsQuiet {St = St} (call_loop host fuel site node attempt input)
  unfolding call_loop
  call_loop-IsQuiet zero site node attempt input = SameStore-refl
  call_loop-IsQuiet (suc fuel) site node attempt input =
      let retry : String → Action C W St (Called S V C) = λ msg.
        back_off host site (attempt + 1) msg >> call_loop host fuel site node (attempt + 1) none in
      >>=-IsQuiet _ (after_attempt host site attempt retry)
        (attempt_call-IsQuiet site node attempt input)
        (after_attempt-IsQuiet site attempt retry (λ msg.
          >>=-IsQuiet _ _ (back_off-IsQuiet site (attempt + 1) msg)
            (λ _. call_loop-IsQuiet fuel site node (attempt + 1) none)))

  pub call_node-IsQuiet :
      (site : CallSite S C) (node : Node S V C W) (input : Option V)
      → IsQuiet {St = St} (call_node host site node input)
  unfolding call_node
  call_node-IsQuiet site node input = call_loop-IsQuiet _ site node 0 input

  pub call_dynamic-IsQuiet :
      (nodes : List (String × Node S V C W)) (site : CallSite S C) (node : DynamicNode S V C W)
      (input : Option V)
      → IsQuiet {St = St} (call_dynamic host nodes site node input)
  unfolding call_dynamic
  call_dynamic-IsQuiet nodes site node input = search quiet

module _ {S V C W St : Type 0} where
  pub send_finished-IsQuiet :
      (f : Frame S V C) (duration_ms : ℕ) (status : String) (cost : Option C)
      → IsQuiet {W = W} {St = St} (send_finished f duration_ms status cost)
  unfolding send_finished
  send_finished-IsQuiet f duration_ms status cost = search quiet

  pub emit_span-IsQuiet :
      (f : Frame S V C) (attempt duration_ms : ℕ) (cost : Option C) (status : SpanStatus)
      (error : Option String) (meta : NodeMeta C)
      → IsQuiet {W = W} {St = St} (emit_span f attempt duration_ms cost status error meta)
  unfolding emit_span
  emit_span-IsQuiet f attempt duration_ms cost status error meta = search quiet

module _ {S V C W St : Type 0} (host : Host S V C W) (graph : Graph S V C W)
    (cp : Checkpointer S V C St) where
  pub elapsed_since-IsQuiet :
      (started_at : ℕ) → IsQuiet {C = C} {St = St} (elapsed_since host started_at)
  unfolding elapsed_since
  elapsed_since-IsQuiet started_at = search quiet

  pub check_node_budget-IsQuiet :
      (f : Frame S V C) (duration_ms : ℕ) (meta : NodeMeta C)
      → IsQuiet {St = St} (check_node_budget host graph cp f duration_ms meta)
  unfolding check_node_budget
  check_node_budget-IsQuiet f duration_ms meta = search (quiet, send_finished-IsQuiet)

  pub check_budget-IsQuiet :
      (f : Frame S V C) (attempt duration_ms : ℕ) (meta : NodeMeta C) (running_cost : C)
      → IsQuiet {St = St} (check_budget host graph cp f attempt duration_ms meta running_cost)
  unfolding check_budget
  check_budget-IsQuiet f attempt duration_ms meta running_cost =
      search (quiet, send_finished-IsQuiet, emit_span-IsQuiet)

  pub record_success-IsQuiet :
      (f : Frame S V C) (started_at attempt duration_ms : ℕ) (meta : NodeMeta C)
      → IsQuiet {St = St} (record_success host graph cp f started_at attempt duration_ms meta)
  unfolding record_success
  record_success-IsQuiet f started_at attempt duration_ms meta =
      search (quiet, send_finished-IsQuiet, emit_span-IsQuiet)
