-- ===== src/Wave/Scheduler.antt =====
-- How the tasks of a wave of `Graph::run_dag` (src/graph.rs) interleave. The scheduler chooses the task that
-- moves next among those that can move; to join a finished task is its last move.
use takeln.Base.{
  ℕ, zero, suc, ◌+◌, ◌-◌, Bool, String, Option, none, some, List, [], ◌∷◌, ◌++◌, max, if◌then◌else◌,
}
use takeln.Error.{join_error}
use takeln.Context.{Host}
use takeln.Graph.{Graph}
use takeln.Exec.Defs.{hang, Action, ◌>>=◌, pure, throw}
use takeln.Wave.Task.{
  Stage, queued, calling, returned, finished, crashed, Task, Turn, has_permit, can_move, step_task,
}
use takeln.Wave.Collect.{Wave, collect}

-- The task that a turn moves, between those before it and those after it.
pub record Chosen (S V C W : Type 0) : Type 0 where
  pub front : List (Task S V C W)
  pub task : Task S V C W
  pub back : List (Task S V C W)

module _ {S V C W : Type 0} where
  unfoldable pub behind : Task S V C W → Option (Chosen S V C W) → Option (Chosen S V C W)
  behind t none = none
  behind t (some c) = some (record c { front = t ∷ c.front })

  -- The first task from an index on that can move.
  unfoldable pub choose_from : ℕ → (permit : Bool) → List (Task S V C W) → Option (Chosen S V C W)
  unfolding behind
  choose_from k permit [] = none
  choose_from zero permit (t ∷ ts) =
      let later = behind t (choose_from zero permit ts) in
      if can_move permit t.stage then some (record { front = []; task = t; back = ts }) else later
  choose_from (suc k) permit (t ∷ ts) = behind t (choose_from k permit ts)

  unfoldable pub or_first :
      List (Task S V C W) → Bool → Option (Chosen S V C W) → Option (Chosen S V C W)
  or_first ts permit none = choose_from 0 permit ts
  or_first ts permit (some c) = some c

  -- From the picked index on, or else from the start.
  unfoldable pub choose : ℕ → (permit : Bool) → List (Task S V C W) → Option (Chosen S V C W)
  unfolding or_first
  choose k permit ts = or_first ts permit (choose_from k permit ts)

-- The tasks of a wave that are not joined yet, and what the others left.
pub record Pool (S V C W : Type 0) : Type 0 where
  pub tasks : List (Task S V C W)
  pub wave : Wave S V C

module _ {S V C : Type 0} where
  -- The steps that a task has left at most, with the one that joins it.
  unfoldable pub steps_left : (attempts : ℕ) → Stage S V C → ℕ
  steps_left attempts queued = max attempts 1 + 4
  steps_left attempts (calling _ attempt) = (max attempts 1 - attempt) + 3
  steps_left attempts (returned _ _) = 2
  steps_left attempts _ = 1

module _ {S V C W : Type 0} where
  unfoldable pub total_left : List (Task S V C W) → ℕ
  unfolding steps_left
  total_left [] = 0
  total_left (t ∷ ts) = steps_left t.site.retry.max_attempts t.stage + total_left ts

module _ {S V C W St : Type 0} (host : Host S V C W) (graph : Graph S V C W) where
  -- One move: a finished task is joined, a crashed one ends the run, and another one takes a step.
  unfoldable pub move_task :
      (thread_id : String)
      → Option String
      → Chosen S V C W
      → Wave S V C
      → Stage S V C
      → Action C W St (Pool S V C W)
  move_task thread_id panic c wave (finished r) = do
    wave' ← collect host graph thread_id c.task.idx c.task.node wave r
    pure (record { tasks = c.front ++ c.back; wave = wave' })
  move_task thread_id panic c wave (crashed msg) = throw (join_error msg)
  move_task thread_id panic c wave stage = do
    stage' ← step_task host graph panic c.task.callee c.task.site stage
    pure (record { tasks = c.front ++ (record c.task { stage = stage' }) ∷ c.back; wave = wave })

  unfoldable pub by_choice :
      (thread_id : String)
      → Option String
      → Wave S V C
      → Option (Chosen S V C W)
      → Action C W St (Pool S V C W)
  unfolding move_task
  by_choice thread_id panic wave (some c) = move_task thread_id panic c wave c.task.stage
  by_choice thread_id panic wave none = λ x. (hang, x)

  -- One turn: where no task can move, the wave hangs.
  unfoldable pub take_turn :
      (thread_id : String) → Turn → Pool S V C W → Action C W St (Pool S V C W)
  unfolding by_choice
  take_turn thread_id turn pool = by_choice thread_id turn.panic pool.wave (
      choose turn.pick (has_permit graph.resource_limits.max_concurrent_nodes pool.tasks)
        pool.tasks)

  -- `while let Some(res) = join_set.join_next().await`, with the scheduler's choices from the `k`-th on:
  -- it hangs without fuel, and `total_left` of the tasks is enough.
  unfoldable pub join_all :
      (thread_id : String)
      → (ℕ → Turn)
      → ℕ
      → ℕ
      → Wave S V C
      → List (Task S V C W)
      → Action C W St (Wave S V C)
  join_all thread_id turns fuel k wave [] = pure wave
  join_all thread_id turns zero k wave (t ∷ ts) = λ x. (hang, x)
  join_all thread_id turns (suc fuel) k wave (t ∷ ts) = do
    pool ← take_turn thread_id (turns k) (record { tasks = t ∷ ts; wave = wave })
    join_all thread_id turns fuel (k + 1) pool.wave pool.tasks
