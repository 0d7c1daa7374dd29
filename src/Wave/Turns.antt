-- ===== src/Wave/Turns.antt =====
-- Every turn of a wave of `Graph::run_dag` (src/graph.rs) keeps the invariant and brings the wave closer to
-- its end, whatever the scheduler chooses.
use takeln.Base.{
  ℕ, zero, suc, ◌+◌, ◌≤◌, ◌<◌, ◌≡◌, ◌≢◌, refl, sym, ◌∙◌, ap, subst, Bool, true, String, Option,
  none, some, List, [], ◌∷◌, ◌++◌, map, arith,
}
use takeln.Context.{Host}
use takeln.Graph.{Graph}
use takeln.Dag.Data.{DagNode, Dag}
use takeln.Exec.Defs.{◌>>=◌, pure}
use takeln.Exec.Leads.{Leads, bind}
use takeln.Wave.Task.{
  Stage, queued, calling, returned, finished, crashed, Task, Turn, has_permit, step_task,
}
use takeln.Wave.Collect.{Wave}
use takeln.Wave.Scheduler.{
  Chosen, choose, Pool, steps_left, total_left, move_task, by_choice, take_turn, join_all,
}
use takeln.Wave.Choice.{IsChoice, choose-IsChoice, choose_some}
use takeln.Wave.Steps.{is_alive, Stepped, step_task_leads}
use takeln.Wave.Joined.{key_of, WaveHolds, IsSafe, collect_leads}

steps_left_pos :
    {S V C : Type 0} (attempts : ℕ) (stage : Stage S V C) → 0 < steps_left attempts stage
unfolding steps_left
steps_left_pos attempts queued = omega arith
steps_left_pos attempts (calling at k) = omega arith
steps_left_pos attempts (returned at r) = omega arith
steps_left_pos attempts (finished r) = omega arith
steps_left_pos attempts (crashed msg) = omega arith

-- What a turn leaves of a pool with so many steps left.
abbrev Advanced :
    {S V C W : Type 0} (Tidy : Type 0) (base : List DagNode) (b left : ℕ)
    → Pool S V C W
    → Dag
    → Type 0
Advanced Tidy base b left pool d =
    WaveHolds Tidy base b (map key_of pool.tasks) pool.wave d × (total_left pool.tasks < left)

module _ {S V C W : Type 0} where
  keys-append :
      (ts us : List (Task S V C W)) → map key_of (ts ++ us) ≡ map key_of ts ++ map key_of us
  keys-append [] us = refl
  keys-append (t ∷ ts) us = ap (λ ks. key_of t ∷ ks) (keys-append ts us)

  total_left-append :
      (ts us : List (Task S V C W)) → total_left (ts ++ us) ≡ total_left ts + total_left us
  unfolding total_left
  total_left-append [] us = omega arith
  total_left-append (t ∷ ts) us = omega (arith, total_left-append ts us)

  total_left_pos : (t : Task S V C W) (ts : List (Task S V C W)) → 0 < total_left (t ∷ ts)
  unfolding total_left
  total_left_pos t ts = omega (arith, steps_left_pos t.site.retry.max_attempts t.stage)

  abbrev moved : Chosen S V C W → Wave S V C → Stage S V C → Pool S V C W
  moved c wave stage = record {
    tasks = c.front ++ (record c.task { stage = stage }) ∷ c.back;
    wave = wave;
  }

  restaged :
      (c : Chosen S V C W) (stage : Stage S V C)
      → map key_of (c.front ++ c.task ∷ c.back)
        ≡ map key_of (c.front ++ (record c.task { stage = stage }) ∷ c.back)
  restaged c stage =
      keys-append c.front (c.task ∷ c.back)
      ∙ sym (keys-append c.front ((record c.task { stage = stage }) ∷ c.back))

  shorter :
      (c : Chosen S V C W) (stage : Stage S V C)
      → steps_left c.task.site.retry.max_attempts stage
        < steps_left c.task.site.retry.max_attempts c.task.stage
      → total_left (c.front ++ (record c.task { stage = stage }) ∷ c.back)
        < total_left (c.front ++ c.task ∷ c.back)
  unfolding total_left
  shorter c stage less = omega (
    arith,
    less,
    total_left-append c.front (c.task ∷ c.back),
    total_left-append c.front ((record c.task { stage = stage }) ∷ c.back),
  )

  removed_less :
      (c : Chosen S V C W)
      → total_left (c.front ++ c.back) < total_left (c.front ++ c.task ∷ c.back)
  unfolding total_left
  removed_less c = omega (
    arith,
    total_left-append c.front (c.task ∷ c.back),
    total_left-append c.front c.back,
    steps_left_pos c.task.site.retry.max_attempts c.task.stage,
  )

module _ {S V C W St : Type 0} (host : Host S V C W) (graph : Graph S V C W) (Tidy Ending : Type 0)
    (base : List DagNode) (ending : Ending → 0 < graph.resource_limits.max_execution_records)
    (b : ℕ) where
  -- A step of a task that has not ended.
  step_leads :
      (panic : Option String) (c : Chosen S V C W) (wave : Wave S V C) (stage : Stage S V C)
      → c.task.stage ≡ stage
      → is_alive stage ≡ true
      → Leads {St = St} Tidy Ending
          (IsSafe base)
          (WaveHolds Tidy base b (map key_of (c.front ++ c.task ∷ c.back)) wave)
          (do
            stage' ← step_task host graph panic c.task.callee c.task.site stage
            pure (moved c wave stage'))
          (Advanced Tidy base b (total_left (c.front ++ c.task ∷ c.back)))
  step_leads panic c wave stage e alive =
      let P = WaveHolds Tidy base b (map key_of (c.front ++ c.task ∷ c.back)) wave in
      bind Tidy Ending (IsSafe base) P (Stepped P c.task.site.retry.max_attempts stage)
        (Advanced Tidy base b (total_left (c.front ++ c.task ∷ c.back))) _ _
        (step_task_leads host graph Tidy Ending (IsSafe base) P (λ d p. (p.0).ordered) panic
          c.task.callee c.task.site stage alive)
        (λ stage' x p.
          let less =
            subst
              (λ s.
                steps_left c.task.site.retry.max_attempts stage'
                < steps_left c.task.site.retry.max_attempts s)
              (sym e) p.1 in
          (
            subst (λ ks. WaveHolds Tidy base b ks wave x.dag) (restaged c stage') p.0,
            shorter c stage' less,
          ))

  move_leads :
      (thread_id : String) (panic : Option String) (c : Chosen S V C W) (wave : Wave S V C)
      (stage : Stage S V C)
      → c.task.stage ≡ stage
      → Leads {W = W} {St = St} Tidy Ending
          (IsSafe base)
          (WaveHolds Tidy base b (map key_of (c.front ++ c.task ∷ c.back)) wave)
          (move_task host graph thread_id panic c wave stage)
          (Advanced Tidy base b (total_left (c.front ++ c.task ∷ c.back)))
  unfolding move_task
  move_leads thread_id panic c wave (crashed msg) e = λ x p. ((p.0).ordered, λ t. refl)
  move_leads thread_id panic c wave (finished r) e =
      let kf = map key_of c.front in
      let kb = map key_of c.back in
      bind Tidy Ending (IsSafe base) _ (WaveHolds Tidy base b (kf ++ kb))
        (Advanced Tidy base b (total_left (c.front ++ c.task ∷ c.back))) _ _
        (λ x p.
          collect_leads host graph Tidy Ending base ending b thread_id kf kb c.task.idx c.task.node
            wave r x
            (subst (λ ks. WaveHolds Tidy base b ks wave x.dag)
              (keys-append c.front (c.task ∷ c.back)) p))
        (λ wave' x p. (
          subst (λ ks. WaveHolds Tidy base b ks wave' x.dag) (sym (keys-append c.front c.back)) p,
          removed_less c,
        ))
  move_leads thread_id panic c wave queued e = step_leads panic c wave queued e refl
  move_leads thread_id panic c wave (calling at k) e = step_leads panic c wave (calling at k) e refl
  move_leads thread_id panic c wave (returned at r) e =
      step_leads panic c wave (returned at r) e refl

  by_choice_leads :
      (thread_id : String) (panic : Option String) (permit : Bool) (ts : List (Task S V C W))
      (wave : Wave S V C) (o : Option (Chosen S V C W))
      → (o ≢ none)
      → ((c : Chosen S V C W) → o ≡ some c → IsChoice permit ts c)
      → Leads {W = W} {St = St} Tidy Ending
          (IsSafe base)
          (WaveHolds Tidy base b (map key_of ts) wave)
          (by_choice host graph thread_id panic wave o)
          (Advanced Tidy base b (total_left ts))
  unfolding by_choice
  by_choice_leads thread_id panic permit ts wave none some_choice sound = absurd (some_choice refl)
  by_choice_leads thread_id panic permit ts wave (some c) some_choice sound =
      subst
        (λ us.
          Leads {W = W} {St = St} Tidy Ending (IsSafe base)
            (WaveHolds Tidy base b (map key_of us) wave)
            (move_task host graph thread_id panic c wave c.task.stage)
            (Advanced Tidy base b (total_left us)))
        (sym (sound c refl).split) (move_leads thread_id panic c wave c.task.stage refl)

  -- A turn of a pool that is not empty.
  take_turn_leads :
      (thread_id : String) (turn : Turn) (t : Task S V C W) (ts : List (Task S V C W))
      (wave : Wave S V C)
      → Leads {W = W} {St = St} Tidy Ending
          (IsSafe base)
          (WaveHolds Tidy base b (map key_of (t ∷ ts)) wave)
          (take_turn host graph thread_id turn (record { tasks = t ∷ ts; wave = wave }))
          (Advanced Tidy base b (total_left (t ∷ ts)))
  unfolding take_turn
  take_turn_leads thread_id turn t ts wave =
      let limit = graph.resource_limits.max_concurrent_nodes in
      let permit = has_permit limit (t ∷ ts) in
      by_choice_leads thread_id turn.panic permit (t ∷ ts) wave (choose turn.pick permit (t ∷ ts))
        (choose_some turn.pick limit t ts) (choose-IsChoice turn.pick permit (t ∷ ts))

  -- As much fuel as there are steps left is enough for a wave.
  pub join_all_leads :
      (thread_id : String) (turns : ℕ → Turn) (fuel k : ℕ) (wave : Wave S V C)
      (ts : List (Task S V C W))
      → total_left ts ≤ fuel
      → Leads {W = W} {St = St} Tidy Ending
          (IsSafe base)
          (WaveHolds Tidy base b (map key_of ts) wave)
          (join_all host graph thread_id turns fuel k wave ts)
          (WaveHolds Tidy base b [])
  unfolding join_all
  join_all_leads thread_id turns fuel k wave [] enough = λ x p. p
  join_all_leads thread_id turns zero k wave (t ∷ ts) enough =
      absurd (omega (arith, enough, total_left_pos t ts))
  join_all_leads thread_id turns (suc fuel) k wave (t ∷ ts) enough =
      bind Tidy Ending (IsSafe base) _ (Advanced Tidy base b (total_left (t ∷ ts)))
        (WaveHolds Tidy base b []) _ _ (take_turn_leads thread_id (turns k) t ts wave)
        (λ pool x p.
          join_all_leads thread_id turns fuel (k + 1) pool.wave pool.tasks
            (omega (arith, p.1, enough)) x p.0)
