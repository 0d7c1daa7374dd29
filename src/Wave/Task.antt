-- ===== src/Wave/Task.antt =====
-- The tasks that `Graph::run_dag` of src/graph.rs spawns for the nodes of a wave, one step at a time: a
-- step ends where the task waits, and the steps of several tasks interleave.
use takeln.Base.{
  ℕ, ◌+◌, Bool, true, false, String, Option, none, some, List, [], ◌∷◌, lookup, leb, ltb, max,
  unwrap_or, and_then, if◌then◌else◌,
}
use takeln.Error.{retryable, yield, node_not_found}
use takeln.Context.{Host}
use takeln.Node.{Node, DynamicNode, NodeResult, done, failed}
use takeln.Graph.{Graph}
use takeln.Dag.Data.{DagNode}
use takeln.Exec.Defs.{node_started, node_finished, Action, ◌>>=◌, ◌>>◌, pure, throw, ask, send}
use takeln.Run.Call.{CallSite, attempt_call, back_off, call_dynamic}
use takeln.Run.Frame.{config_of, elapsed_since}

-- What a task calls: a dynamic node, or a registered one.
pub data Callee (S V C W : Type 0) : Type 0 where
  dynamic : DynamicNode S V C W → Callee S V C W
  regular : Node S V C W → Callee S V C W

-- Where a task stands: before its permit, before the given attempt, after the last attempt, at its end,
-- or ended by a panic.
pub data Stage (S V C : Type 0) : Type 0 where
  queued : Stage S V C
  calling : (started_at attempt : ℕ) → Stage S V C
  returned : (started_at : ℕ) → NodeResult S V C → Stage S V C
  finished : NodeResult S V C → Stage S V C
  crashed : String → Stage S V C

pub record Task (S V C W : Type 0) : Type 0 where
  pub idx : ℕ
  pub node : DagNode
  pub site : CallSite S C
  pub callee : Callee S V C W
  pub stage : Stage S V C

-- A choice of the scheduler: the task to move, and whether the body that it calls panics.
pub record Turn : Type 0 where
  pub pick : ℕ
  pub panic : Option String

module _ {S V C : Type 0} where
  -- A task holds its permit of the semaphore from its start to its end.
  unfoldable pub holds_permit : Stage S V C → Bool
  holds_permit (calling _ _) = true
  holds_permit (returned _ _) = true
  holds_permit _ = false

  -- A task that has not started waits for a permit; one that ended can be joined.
  unfoldable pub can_move : Bool → Stage S V C → Bool
  can_move permit queued = permit
  can_move permit _ = true

  unfoldable pub status_text : NodeResult S V C → String
  status_text (done out) = "success"
  status_text (failed (yield request)) = "yielded"
  status_text (failed e) = "failed"

  unfoldable pub cost_of_result : NodeResult S V C → Option C
  cost_of_result (done out) = out.meta.cost_eur
  cost_of_result (failed e) = none

module _ {S V C W : Type 0} where
  unfoldable pub permits_held : List (Task S V C W) → ℕ
  unfolding holds_permit
  permits_held [] = 0
  permits_held (t ∷ ts) =
      let rest = permits_held ts in if holds_permit t.stage then rest + 1 else rest

  -- Whether the semaphore has a permit left.
  unfoldable pub has_permit : ℕ → List (Task S V C W) → Bool
  has_permit max_concurrent_nodes ts = ltb (permits_held ts) (max max_concurrent_nodes 1)

module _ {S V C W : Type 0} (graph : Graph S V C W) where
  unfoldable pub wave_site : (thread_id : String) → Option ℕ → S → DagNode → CallSite S C
  wave_site thread_id cancellation state n = record {
    thread_id = thread_id;
    node_name = n.step_type;
    state = state;
    last_checkpoint_id = none;
    budget_remaining_eur = none;
    cancellation = cancellation;
    retry =
        unwrap_or (and_then (config_of graph n.step_type) (λ c. c.retry_policy)) graph.retry_policy;
    timeout = and_then (config_of graph n.step_type) (λ c. c.timeout);
  }

  -- A dynamic node hides a registered one of its name.
  unfoldable pub callee_of : String → Option (Callee S V C W)
  callee_of name = elim (lookup name graph.dynamic_nodes) [
    | some node ↦ some (dynamic node)
    | none ↦ elim (lookup name graph.nodes) [ some node ↦ some (regular node) | none ↦ none ]
  ]

module _ {S V C W St : Type 0} (graph : Graph S V C W) where
  -- A node without a body ends the run.
  unfoldable pub spawn_one :
      (thread_id : String)
      → Option ℕ
      → S
      → ℕ × DagNode
      → Option (Callee S V C W)
      → Action C W St (List (Task S V C W))
      → Action C W St (List (Task S V C W))
  spawn_one thread_id cancellation state (i, n) none rest = throw (node_not_found n.step_type)
  spawn_one thread_id cancellation state (i, n) (some callee) rest = do
    tasks ← rest
    pure (
        (record {
          idx = i;
          node = n;
          site = wave_site graph thread_id cancellation state n;
          callee = callee;
          stage = queued;
        })
        ∷ tasks)

  -- The spawn loop.
  unfoldable pub spawn_all :
      (thread_id : String) → Option ℕ → S → List (ℕ × DagNode) → Action C W St (List (Task S V C W))
  unfolding spawn_one
  spawn_all thread_id cancellation state [] = pure []
  spawn_all thread_id cancellation state (n ∷ wave) =
      spawn_one thread_id cancellation state n (callee_of graph n.1.step_type)
        (spawn_all thread_id cancellation state wave)

module _ {S V C W St : Type 0} where
  -- A body that panics leaves what it did, and nothing follows it.
  unfoldable pub or_panic :
      Option String → Action C W St (Stage S V C) → Action C W St (Stage S V C)
  or_panic none rest = rest
  or_panic (some msg) rest = pure (crashed msg)

module _ {S V C W St : Type 0} (host : Host S V C W) (graph : Graph S V C W) where
  -- The `match` on an attempt's result in a task.
  unfoldable pub after_call :
      CallSite S C → (started_at attempt : ℕ) → NodeResult S V C → Action C W St (Stage S V C)
  after_call site started_at attempt (failed (retryable msg)) =
      if leb site.retry.max_attempts (attempt + 1)
      then pure (returned started_at (failed (retryable msg)))
      else (back_off host site (attempt + 1) msg >> pure (calling started_at (attempt + 1)))
  after_call site started_at attempt r = pure (returned started_at r)

  -- One attempt of a registered node, or the only one of a dynamic node.
  unfoldable pub call_once :
      (panic : Option String)
      → Callee S V C W
      → CallSite S C
      → (started_at attempt : ℕ) → Action C W St (Stage S V C)
  call_once panic (regular node) site started_at attempt = do
    r ← attempt_call host site node attempt none
    or_panic panic (after_call site started_at attempt r)
  call_once panic (dynamic node) site started_at attempt = do
    called ← call_dynamic host graph.nodes site node none
    or_panic panic (pure (returned started_at called.result))

  -- One step of a task; one that ended takes none.
  unfoldable pub step_task :
      Option String → Callee S V C W → CallSite S C → Stage S V C → Action C W St (Stage S V C)
  step_task panic callee site queued = do
    started_at ← ask host.utc_now
    send (node_started site.thread_id site.node_name started_at)
    pure (calling started_at 0)
  step_task panic callee site (calling started_at attempt) =
      call_once panic callee site started_at attempt
  step_task panic callee site (returned started_at r) = do
    duration_ms ← elapsed_since host started_at
    send
        (node_finished site.thread_id site.node_name duration_ms (status_text r) (cost_of_result r))
    pure (finished r)
  step_task panic callee site (finished r) = pure (finished r)
  step_task panic callee site (crashed msg) = pure (crashed msg)
