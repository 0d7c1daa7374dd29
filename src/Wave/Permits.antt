-- ===== src/Wave/Permits.antt =====
-- The semaphore of `Graph::run_dag` (src/graph.rs): how many nodes of a wave run at once.
use takeln.Base.{
  ℕ, ◌+◌, ◌≤◌, ◌<◌, ◌≡◌, refl, ap, subst, Bool, true, false, if◌then◌else◌, String, Option, none,
  some, List, [], ◌∷◌, ◌++◌, max, arith, inl, inr, ◌⊎◌, ltb→lt,
}
use takeln.Context.{Host}
use takeln.Graph.{Graph}
use takeln.Dag.Data.{DagNode, Dag}
use takeln.Exec.Defs.{Exec, Outcome, done, fail, hang, Action}
use takeln.Exec.Leads.{EndsAs, Leads, bind}
use takeln.Wave.Task.{
  Callee, Stage, queued, calling, returned, finished, crashed, Task, Turn, callee_of, holds_permit,
  permits_held, has_permit, can_move, spawn_one, spawn_all, step_task,
}
use takeln.Wave.Collect.{Wave, collect}
use takeln.Wave.Scheduler.{Chosen, choose, Pool, move_task, by_choice, take_turn}
use takeln.Wave.Choice.{IsChoice, choose-IsChoice}

-- A task is between the start of its node and the end: it calls the body, or the body has returned.
abbrev pub is_between : {S V C : Type 0} → Stage S V C → Bool
is_between queued = false
is_between (calling _ _) = true
is_between (returned _ _) = true
is_between (finished _) = false
is_between (crashed _) = false

abbrev pub count_between : {S V C W : Type 0} → List (Task S V C W) → ℕ
count_between [] = 0
count_between (t ∷ ts) =
    let rest = count_between ts in if is_between t.stage then rest + 1 else rest

-- A pool reaches another by turns that end with a pool.
pub data Reaches {S V C W St : Type 0} (host : Host S V C W) (graph : Graph S V C W)
    (thread_id : String) : Pool S V C W → Exec C W St → Pool S V C W → Exec C W St → Type 0 where
  arrived : (p : Pool S V C W) (x : Exec C W St) → Reaches host graph thread_id p x p x
  turned :
      (turn : Turn) (p q r : Pool S V C W) (x y z : Exec C W St)
      → take_turn host graph thread_id turn p x ≡ (done q, y)
      → Reaches host graph thread_id q y r z
      → Reaches host graph thread_id p x r z

abbrev Always : Dag → Type 0
Always d = Unit

-- A claim about the value that an action ends with.
abbrev Gives : {C W St A : Type 0} → Action C W St A → (A → Type 0) → Type 0
Gives m Q = Leads ⊥ ⊥ Always Always m (λ a d. Q a)

module _ {C W St A : Type 0} where
  anything_ends : (r : Outcome C A × Exec C W St) → EndsAs ⊥ ⊥ Always (λ a. Always) r
  anything_ends (done a, x) = tt
  anything_ends (fail e, x) = (tt, absurd)
  anything_ends (hang, x) = (tt, absurd)

  given_value :
      (Q : A → Type 0) (r : Outcome C A × Exec C W St) (a : A) (x : Exec C W St)
      → EndsAs ⊥ ⊥ Always (λ b d. Q b) r
      → r ≡ (done a, x)
      → Q a
  given_value Q r a x h e = subst (λ s. EndsAs ⊥ ⊥ Always (λ b d. Q b) s) e h

module _ {S V C : Type 0} where
  -- Each task between its node's start and its end holds a permit, and no other does.
  is_between-holds : (stage : Stage S V C) → is_between stage ≡ holds_permit stage
  unfolding holds_permit
  is_between-holds queued = refl
  is_between-holds (calling _ _) = refl
  is_between-holds (returned _ _) = refl
  is_between-holds (finished _) = refl
  is_between-holds (crashed _) = refl

module _ {S V C W : Type 0} where
  count-permits : (ts : List (Task S V C W)) → count_between ts ≡ permits_held ts
  unfolding permits_held
  count-permits [] = refl
  count-permits (t ∷ ts) = ground (arith, is_between-holds t.stage, count-permits ts)

  permits-append :
      (ts us : List (Task S V C W)) → permits_held (ts ++ us) ≡ permits_held ts + permits_held us
  unfolding permits_held
  permits-append [] us = omega arith
  permits-append (t ∷ ts) us = ground (arith, permits-append ts us)

  -- A task that moves takes a permit where one is left, or keeps the one that it holds.
  restaged_within :
      (limit : ℕ) (permit : Bool) (c : Chosen S V C W) (stage : Stage S V C)
      → permits_held (c.front ++ c.task ∷ c.back) ≤ limit
      → (permit ≡ true → permits_held (c.front ++ c.task ∷ c.back) < limit)
      → (holds_permit c.task.stage ≡ true) ⊎ (permit ≡ true)
      → permits_held (c.front ++ (record c.task { stage = stage }) ∷ c.back) ≤ limit
  unfolding permits_held
  restaged_within limit permit c stage h free (inl held) = ground (
    arith,
    h,
    held,
    permits-append c.front (c.task ∷ c.back),
    permits-append c.front ((record c.task { stage = stage }) ∷ c.back),
  )
  restaged_within limit permit c stage h free (inr open_yet) = ground (
    arith,
    free open_yet,
    permits-append c.front (c.task ∷ c.back),
    permits-append c.front ((record c.task { stage = stage }) ∷ c.back),
  )

  removed_within :
      (limit : ℕ) (c : Chosen S V C W)
      → permits_held (c.front ++ c.task ∷ c.back) ≤ limit
      → permits_held (c.front ++ c.back) ≤ limit
  unfolding permits_held
  removed_within limit c h =
      ground (arith, h, permits-append c.front (c.task ∷ c.back), permits-append c.front c.back)

module _ {S V C W St : Type 0} (host : Host S V C W) (graph : Graph S V C W)
    (thread_id : String) where
  move_within :
      (limit : ℕ) (permit : Bool) (panic : Option String) (c : Chosen S V C W) (wave : Wave S V C)
      (stage : Stage S V C)
      → c.task.stage ≡ stage
      → can_move permit stage ≡ true
      → permits_held (c.front ++ c.task ∷ c.back) ≤ limit
      → (permit ≡ true → permits_held (c.front ++ c.task ∷ c.back) < limit)
      → Gives {St = St}
          (move_task host graph thread_id panic c wave stage)
          (λ pool. permits_held pool.tasks ≤ limit)
  unfolding move_task can_move holds_permit
  move_within limit permit panic c wave (crashed msg) e moves h free = λ x p. (tt, absurd)
  move_within limit permit panic c wave (finished r) e moves h free =
      bind ⊥ ⊥ Always Always (λ _. Always) (λ pool d. permits_held pool.tasks ≤ limit)
        (collect host graph thread_id c.task.idx c.task.node wave r) _ (λ x p. anything_ends _)
        (λ wave' x p. removed_within limit c h)
  move_within limit permit panic c wave queued e moves h free =
      bind ⊥ ⊥ Always Always (λ _. Always) (λ pool d. permits_held pool.tasks ≤ limit)
        (step_task host graph panic c.task.callee c.task.site queued) _ (λ x p. anything_ends _)
        (λ stage x p. restaged_within limit permit c stage h free (inr moves))
  move_within limit permit panic c wave (calling at k) e moves h free =
      bind ⊥ ⊥ Always Always (λ _. Always) (λ pool d. permits_held pool.tasks ≤ limit)
        (step_task host graph panic c.task.callee c.task.site (calling at k)) _
        (λ x p. anything_ends _)
        (λ stage x p. restaged_within limit permit c stage h free (inl (ap holds_permit e)))
  move_within limit permit panic c wave (returned at r) e moves h free =
      bind ⊥ ⊥ Always Always (λ _. Always) (λ pool d. permits_held pool.tasks ≤ limit)
        (step_task host graph panic c.task.callee c.task.site (returned at r)) _
        (λ x p. anything_ends _)
        (λ stage x p. restaged_within limit permit c stage h free (inl (ap holds_permit e)))

  by_choice_within :
      (limit : ℕ) (permit : Bool) (panic : Option String) (ts : List (Task S V C W))
      (wave : Wave S V C) (o : Option (Chosen S V C W))
      → permits_held ts ≤ limit
      → (permit ≡ true → permits_held ts < limit)
      → ((c : Chosen S V C W) → o ≡ some c → IsChoice permit ts c)
      → Gives {St = St}
          (by_choice host graph thread_id panic wave o)
          (λ pool. permits_held pool.tasks ≤ limit)
  unfolding by_choice
  by_choice_within limit permit panic ts wave none h free sound = λ x p. (tt, absurd)
  by_choice_within limit permit panic ts wave (some c) h free sound =
      let split = (sound c refl).split in
      move_within limit permit panic c wave c.task.stage refl (sound c refl).moves
        (subst (λ us. permits_held us ≤ limit) split h)
        (λ open_yet. subst (λ us. permits_held us < limit) split (free open_yet))

  -- A turn keeps the number of the permits within the semaphore's.
  take_turn_within :
      (turn : Turn) (pool : Pool S V C W)
      → permits_held pool.tasks ≤ max graph.resource_limits.max_concurrent_nodes 1
      → Gives {St = St}
          (take_turn host graph thread_id turn pool)
          (λ q. permits_held q.tasks ≤ max graph.resource_limits.max_concurrent_nodes 1)
  unfolding take_turn has_permit
  take_turn_within turn pool h =
      let limit = graph.resource_limits.max_concurrent_nodes in
      let permit = has_permit limit pool.tasks in
      by_choice_within (max limit 1) permit turn.panic pool.tasks pool.wave
        (choose turn.pick permit pool.tasks) h (λ open_yet. ltb→lt _ _ open_yet)
        (choose-IsChoice turn.pick permit pool.tasks)

  -- A wave starts with no permit taken.
  spawn_one_idle :
      (cancellation : Option ℕ) (state : S) (key : ℕ × DagNode) (callee : Option (Callee S V C W))
      (rest : Action C W St (List (Task S V C W)))
      → Gives rest (λ ts. permits_held ts ≡ 0)
      → Gives
          (spawn_one graph thread_id cancellation state key callee rest)
          (λ ts. permits_held ts ≡ 0)
  unfolding spawn_one permits_held holds_permit
  spawn_one_idle cancellation state key none rest h = λ x p. (tt, absurd)
  spawn_one_idle cancellation state key (some callee) rest h =
      bind ⊥ ⊥ Always Always (λ ts d. permits_held ts ≡ 0) (λ ts d. permits_held ts ≡ 0) rest _ h
        (λ ts x p. p)

  spawn_all_idle :
      (cancellation : Option ℕ) (state : S) (wave : List (ℕ × DagNode))
      → Gives {St = St}
          (spawn_all graph thread_id cancellation state wave)
          (λ ts. permits_held ts ≡ 0)
  unfolding spawn_all permits_held
  spawn_all_idle cancellation state [] = λ x p. refl
  spawn_all_idle cancellation state (key ∷ wave) =
      spawn_one_idle cancellation state key (callee_of graph key.1.step_type) _
        (spawn_all_idle cancellation state wave)

  Reaches-within :
      (p q : Pool S V C W) (x y : Exec C W St)
      → Reaches host graph thread_id p x q y
      → permits_held p.tasks ≤ max graph.resource_limits.max_concurrent_nodes 1
      → permits_held q.tasks ≤ max graph.resource_limits.max_concurrent_nodes 1
  Reaches-within p q x y (arrived p' x') h = h
  Reaches-within p q x y (turned turn p' q' r' x' y' z' e rest) h =
      Reaches-within q' r' y' z' rest (
        given_value _ (take_turn host graph thread_id turn p' x') q' y'
          (take_turn_within turn p' h x' tt) e)

  -- In every pool that a wave's tasks reach from their spawning, at most max_concurrent_nodes of them are
  -- between the start of their node and its end, or at most one where the limit is zero.
  pub spawned_within :
      (cancellation : Option ℕ) (state : S) (wave : List (ℕ × DagNode)) (ts : List (Task S V C W))
      (results : Wave S V C) (q : Pool S V C W) (x y z : Exec C W St)
      → spawn_all graph thread_id cancellation state wave x ≡ (done ts, y)
      → Reaches host graph thread_id (record { tasks = ts; wave = results }) y q z
      → count_between q.tasks ≤ max graph.resource_limits.max_concurrent_nodes 1
  spawned_within cancellation state wave ts results q x y z e reached = omega (
    arith,
    count-permits q.tasks,
    Reaches-within _ q y z reached
        (omega (arith, given_value _ _ ts y (spawn_all_idle cancellation state wave x tt) e)),
  )
