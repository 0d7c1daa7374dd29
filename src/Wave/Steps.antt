-- ===== src/Wave/Steps.antt =====
-- A step of a task of `Graph::run_dag` (src/graph.rs) leaves the DAG alone and brings the task closer to its
-- end.
use takeln.Base.{
  ℕ, ◌+◌, ◌<◌, ◌≡◌, Bool, true, false, String, Option, none, some, leb, arith, Bool-cases, inl, inr,
}
use takeln.Error.{GraphError, retryable, fatal, yield, yield_in_dynamic_node}
use takeln.Context.{Host}
use takeln.Node.{NodeResult, done, failed}
use takeln.Graph.{Graph}
use takeln.Dag.Data.{Dag}
use takeln.Exec.Defs.{Action, node_started, pure, ask, send}
use takeln.Exec.Mild.{ask-IsMild, send-IsMild}
use takeln.Exec.Leads.{Leads, bind, mild_leads}
use takeln.Run.Call.{CallSite, back_off}
use takeln.Wave.Task.{
  Callee, dynamic, regular, Stage, queued, calling, returned, finished, crashed, after_call,
  call_once, or_panic, step_task,
}
use takeln.Wave.Scheduler.{steps_left}
use takeln.Wave.Mild.{
  attempt_call-IsMild, back_off-IsMild, call_dynamic-IsMild, elapsed_since-IsMild,
}

-- A task that has not ended.
abbrev pub is_alive : {S V C : Type 0} → Stage S V C → Bool
is_alive (finished r) = false
is_alive (crashed msg) = false
is_alive _ = true

module _ {S V C : Type 0} (P : Dag → Type 0) where
  -- What holds after a step from `stage`.
  abbrev pub Stepped : ℕ → Stage S V C → Stage S V C → Dag → Type 0
  Stepped attempts stage stage' d = P d × (steps_left attempts stage' < steps_left attempts stage)

module _ {S V C W St : Type 0} (host : Host S V C W) (graph : Graph S V C W) (Tidy Ending : Type 0)
    (Safe P : Dag → Type 0) (safe : (d : Dag) → P d → Safe d) where
  after_call_leads :
      (site : CallSite S C) (started_at attempt : ℕ) (r : NodeResult S V C)
      → Leads {St = St} Tidy Ending Safe P
          (after_call host graph site started_at attempt r)
          (Stepped P site.retry.max_attempts (calling started_at attempt))
  unfolding after_call steps_left
  after_call_leads site started_at attempt (failed (retryable msg)) =
      elim (Bool-cases (leb site.retry.max_attempts (attempt + 1))) [
        | inl e ↦ rw e (λ x p. (p, omega arith))
        | inr e ↦ rw e (
            bind Tidy Ending Safe P (λ _. P) _ (back_off host site (attempt + 1) msg) _
              (mild_leads Tidy Ending Safe P _ safe
                (back_off-IsMild host Tidy Ending site (attempt + 1) msg))
              (λ _ x p. (p, ground arith)))
      ]
  after_call_leads site started_at attempt (failed (fatal msg)) = λ x p. (p, omega arith)
  after_call_leads site started_at attempt (failed (yield r)) = λ x p. (p, omega arith)
  after_call_leads site started_at attempt (failed (GraphError.budget_exceeded a b)) =
      λ x p. (p, omega arith)
  after_call_leads site started_at attempt (failed (yield_in_dynamic_node i)) =
      λ x p. (p, omega arith)
  after_call_leads site started_at attempt (done out) = λ x p. (p, omega arith)

  -- A panic ends the task.
  or_panic_leads :
      (attempts started_at attempt : ℕ) (panic : Option String) (rest : Action C W St (Stage S V C))
      → Leads Tidy Ending Safe P rest (Stepped P attempts (calling started_at attempt))
      → Leads Tidy Ending Safe P
          (or_panic panic rest)
          (Stepped P attempts (calling started_at attempt))
  unfolding or_panic steps_left
  or_panic_leads attempts started_at attempt none rest h = h
  or_panic_leads attempts started_at attempt (some msg) rest h = λ x p. (p, omega arith)

  call_once_leads :
      (panic : Option String) (callee : Callee S V C W) (site : CallSite S C)
      (started_at attempt : ℕ)
      → Leads {St = St} Tidy Ending Safe P
          (call_once host graph panic callee site started_at attempt)
          (Stepped P site.retry.max_attempts (calling started_at attempt))
  unfolding call_once steps_left
  call_once_leads panic (regular node) site started_at attempt =
      bind Tidy Ending Safe P (λ _. P) _ _ _
        (mild_leads Tidy Ending Safe P _ safe
          (attempt_call-IsMild host Tidy Ending site node attempt none))
        (λ r.
          or_panic_leads site.retry.max_attempts started_at attempt panic _
            (after_call_leads site started_at attempt r))
  call_once_leads panic (dynamic node) site started_at attempt =
      bind Tidy Ending Safe P (λ _. P) _ _ _
        (mild_leads Tidy Ending Safe P _ safe
          (call_dynamic-IsMild host Tidy Ending graph.nodes site node none))
        (λ called.
          or_panic_leads site.retry.max_attempts started_at attempt panic _
            (λ x p. (p, omega arith)))

  pub step_task_leads :
      (panic : Option String) (callee : Callee S V C W) (site : CallSite S C) (stage : Stage S V C)
      → is_alive stage ≡ true
      → Leads {St = St} Tidy Ending Safe P
          (step_task host graph panic callee site stage)
          (Stepped P site.retry.max_attempts stage)
  unfolding step_task steps_left
  step_task_leads panic callee site queued alive =
      bind Tidy Ending Safe P (λ _. P) (Stepped P site.retry.max_attempts queued) (ask host.utc_now)
        _ (mild_leads Tidy Ending Safe P _ safe (ask-IsMild Tidy Ending host.utc_now))
        (λ started_at.
          bind Tidy Ending Safe P (λ _. P) (Stepped P site.retry.max_attempts queued)
            (send (node_started site.thread_id site.node_name started_at))
            (λ _. pure (calling started_at 0))
            (mild_leads Tidy Ending Safe P _ safe
              (send-IsMild Tidy Ending (node_started site.thread_id site.node_name started_at)))
            (λ _ x p. (p, omega arith)))
  step_task_leads panic callee site (calling started_at attempt) alive =
      call_once_leads panic callee site started_at attempt
  step_task_leads panic callee site (returned started_at r) alive =
      bind Tidy Ending Safe P (λ _. P) (Stepped P site.retry.max_attempts (returned started_at r)) _
        _ (mild_leads Tidy Ending Safe P _ safe (elapsed_since-IsMild host Tidy Ending started_at))
        (λ d.
          bind Tidy Ending Safe P (λ _. P)
            (Stepped P site.retry.max_attempts (returned started_at r)) _ _
            (mild_leads Tidy Ending Safe P _ safe (send-IsMild Tidy Ending _))
            (λ _ x p. (p, omega arith)))
  step_task_leads panic callee site (finished r) alive = absurd (ground (arith, alive))
  step_task_leads panic callee site (crashed msg) alive = absurd (ground (arith, alive))
