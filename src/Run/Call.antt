-- ===== src/Run/Call.antt =====
-- The call of one node in `Graph::run_inner` (src/graph.rs): the context, the timeout and cancellation, and
-- the retries.
use takeln.Base.{ℕ, zero, suc, ◌+◌, ◌-◌, max, String, Option, none, some, List, leb, if◌then◌else◌}
use takeln.Error.{retryable}
use takeln.Context.{Host, new_context}
use takeln.Retry.{RetryPolicy, draws_random, delay_for}
use takeln.Node.{Node, NodeResult, failed, default_meta, DynamicNode, settle}
use takeln.Exec.Defs.{retrying, hang, Action, ◌>>=◌, ◌>>◌, pure, ask, emit}

-- What does not change between the attempts at a node.
pub record CallSite (S C : Type 0) : Type 0 where
  pub thread_id : String
  pub node_name : String
  pub state : S
  pub last_checkpoint_id : Option String
  pub budget_remaining_eur : Option C
  pub cancellation : Option ℕ
  pub retry : RetryPolicy
  pub timeout : Option ℕ

-- The result of a call and the number of retries.
pub record Called (S V C : Type 0) : Type 0 where
  pub result : NodeResult S V C
  pub attempt : ℕ

module _ {S V C W St : Type 0} (host : Host S V C W) where
  -- One attempt: `pending_resumed_input.take()` hands the input out.
  unfoldable pub attempt_call :
      CallSite S C → Node S V C W → ℕ → Option V → Action C W St (NodeResult S V C)
  attempt_call site node attempt input = do
    ctx ← ask (
        new_context host site.thread_id site.node_name attempt site.last_checkpoint_id
          site.budget_remaining_eur site.cancellation input)
    awaited ← ask (node ctx site.state)
    pure (settle host.show_duration site.node_name site.timeout site.cancellation awaited)

  -- The span and the delay before a retry.
  unfoldable pub back_off : CallSite S C → ℕ → String → Action C W St (Unit {0})
  back_off site attempt msg = do
    emit (record {
      thread_id = site.thread_id;
      node_name = site.node_name;
      checkpoint_id = none;
      attempt = attempt;
      duration_ms = 0;
      cost_eur = none;
      status = retrying;
      dag_id = none;
      error = some msg;
      meta = default_meta;
    })
    random ← ask (if draws_random site.retry (attempt - 1) then host.random else λ w. (0, w))
    ask (λ w. (tt, host.sleep (delay_for site.retry (attempt - 1) random) w))

  -- The `match` on an attempt's result: `retry` is the next attempt, with the error's message.
  unfoldable pub after_attempt :
      CallSite S C
      → ℕ
      → (retry : String → Action C W St (Called S V C)) → NodeResult S V C
      → Action C W St (Called S V C)
  after_attempt site attempt retry (failed (retryable msg)) =
      if leb site.retry.max_attempts (attempt + 1)
      then pure (record { result = failed (retryable msg); attempt = attempt + 1 })
      else retry msg
  after_attempt site attempt retry r = pure (record { result = r; attempt = attempt })

  -- The retry loop, on fuel: one round for each attempt. It hangs only without fuel, and as many rounds as
  -- `max_attempts`, and at least one, are enough. The input is gone after the first attempt.
  unfoldable pub call_loop :
      ℕ → CallSite S C → Node S V C W → ℕ → Option V → Action C W St (Called S V C)
  call_loop zero site node attempt input = λ x. (hang, x)
  call_loop (suc fuel) site node attempt input = do
    r ← attempt_call site node attempt input
    after_attempt site attempt
        (λ msg. back_off site (attempt + 1) msg >> call_loop fuel site node (attempt + 1) none) r

  -- A registered node is called with retries.
  unfoldable pub call_node : CallSite S C → Node S V C W → Option V → Action C W St (Called S V C)
  call_node site node input = call_loop (max site.retry.max_attempts 1) site node 0 input

  -- A dynamic node is called once, with the registry as its runner.
  unfoldable pub call_dynamic :
      List (String × Node S V C W)
      → CallSite S C
      → DynamicNode S V C W
      → Option V
      → Action C W St (Called S V C)
  call_dynamic nodes site node input = do
    ctx ← ask (
        new_context host site.thread_id site.node_name 0 site.last_checkpoint_id
          site.budget_remaining_eur site.cancellation input)
    r ← ask (node ctx site.state (record { nodes = nodes }))
    pure (record { result = r; attempt = 0 })
