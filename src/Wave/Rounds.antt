-- ===== src/Wave/Rounds.antt =====
-- A wave of `Graph::run_dag` (src/graph.rs), from where its nodes are marked as running to its checkpoint,
-- keeps the invariant.
use takeln.Base.{
  ℕ, ◌≤◌, ◌<◌, ◌≡◌, refl, sym, ap, subst, Bool, true, false, String, Option, none, some, List, [],
  ◌∷◌, map, any, mem_str, arith, if◌then◌else◌,
}
use takeln.Hitl.{YieldRequest}
use takeln.Checkpoint.{CheckpointStatus, Checkpointer}
use takeln.Context.{Host}
use takeln.Graph.{Graph}
use takeln.Dag.Data.{DagNode, Dag}
use takeln.Exec.Defs.{Action, ◌>>=◌, pure}
use takeln.Exec.Mild.{IsMild, >>=-IsMild}
use takeln.Exec.Leads.{Leads, bind, mild_leads}
use takeln.Wave.Ready.{is_pending, ready_from}
use takeln.Wave.Status.{node_at, reset, pending_count}
use takeln.Wave.Task.{Callee, Task, Turn, callee_of, spawn_one, spawn_all}
use takeln.Wave.Collect.{Wave, get_dag}
use takeln.Wave.Scheduler.{total_left, join_all}
use takeln.Wave.Engine.{
  Progress, WaveRound, return, break, next, names_of, empty_wave, save_wave, interrupt_wave,
  on_yielded, close_wave, on_failures,
}
use takeln.Wave.Inflight.{Key, IsTidyAt, Inflight}
use takeln.Wave.Mild.{IsPlainStore, save-IsMild, check_total-IsMild}
use takeln.Wave.Joined.{key_of, WaveHolds, IsSafe, is_clean}
use takeln.Wave.Turns.{join_all_leads}

-- Where every node is pending or completed and none is ready, none is pending.
abbrev pub NeverStuck : List DagNode → Type 0
NeverStuck base =
    (nodes : List DagNode) (completed : List ℕ)
    → map reset nodes ≡ map reset base
    → ((j : ℕ) (n : DagNode) → node_at j nodes ≡ some n → IsTidyAt [] completed j n)
    → ready_from 0 completed nodes ≡ []
    → any (λ n. is_pending n.status) nodes ≡ false

-- What holds of the DAG between the waves, with at most `b` nodes pending.
abbrev pub Between :
    {S C : Type 0} (Tidy : Type 0) (base : List DagNode) (b : ℕ) → Progress S C → Dag → Type 0
Between Tidy base b p d =
    Inflight Tidy base [] p.completed true d.nodes × (pending_count d.nodes ≤ b)

-- What a round leaves: another wave has fewer nodes pending.
abbrev pub RoundEnds :
    {S C : Type 0} (Tidy : Type 0) (base : List DagNode) (b : ℕ) → WaveRound S C → Dag → Type 0
RoundEnds Tidy base b (return s) d = IsSafe base d
RoundEnds Tidy base b (break p) d = IsSafe base d
RoundEnds Tidy base b (next p) d =
    Inflight Tidy base [] p.completed true d.nodes × (pending_count d.nodes < b)

-- What holds after a wave without a failure or a yield.
abbrev Cleared :
    {S V C : Type 0} (Tidy : Type 0) (base : List DagNode) (b : ℕ) → Wave S V C → Dag → Type 0
Cleared Tidy base b results d =
    Inflight Tidy base [] results.completed true d.nodes × (pending_count d.nodes ≤ b)

if_leads :
    {C W St A : Type 0} (Tidy Ending : Type 0) (Safe P : Dag → Type 0) (Q : A → Dag → Type 0)
    (c : Bool) (m k : Action C W St A)
    → Leads Tidy Ending Safe P m Q
    → Leads Tidy Ending Safe P k Q
    → Leads Tidy Ending Safe P (if c then m else k) Q
if_leads Tidy Ending Safe P Q true m k hm hk = hm
if_leads Tidy Ending Safe P Q false m k hm hk = hk

module _ {S V C W St : Type 0} (host : Host S V C W) (graph : Graph S V C W)
    (cp : Checkpointer S V C St) (merge : S → S → S) (Tidy Ending : Type 0) (base : List DagNode)
    (ending : Ending → 0 < graph.resource_limits.max_execution_records)
    (plain : Tidy → IsPlainStore cp) (unstuck : Tidy → NeverStuck base) where
  save_wave-IsMild :
      (p : Progress S C) (state : S) (next_node : String) (status : CheckpointStatus)
      (request : Option (YieldRequest V))
      → IsMild Tidy Ending (save_wave host graph cp p state next_node status request)
  unfolding save_wave get_dag
  save_wave-IsMild p state next_node status request =
      >>=-IsMild Tidy Ending get_dag _ (record { at = λ x. refl })
        (λ dag. save-IsMild host graph Tidy Ending cp _ p.expected_head plain)

  -- The last save of a run, with what holds of the DAG kept.
  save_then :
      (P : Dag → Type 0) (safe : (d : Dag) → P d → IsSafe base d) (b : ℕ) (p : Progress S C)
      (state : S) (next_node : String) (status : CheckpointStatus)
      (request : Option (YieldRequest V)) (out : String → WaveRound S C)
      → ((id : String) (d : Dag) → P d → RoundEnds Tidy base b (out id) d)
      → Leads Tidy Ending
          (IsSafe base)
          P
          (save_wave host graph cp p state next_node status request >>= λ id. pure (out id))
          (RoundEnds Tidy base b)
  save_then P safe b p state next_node status request out h =
      bind Tidy Ending (IsSafe base) P (λ _. P) (RoundEnds Tidy base b) _ _
        (mild_leads Tidy Ending (IsSafe base) P _ safe
          (save_wave-IsMild p state next_node status request))
        (λ id x q. h id x.dag q)

  on_yielded_leads :
      (b : ℕ) (p : Progress S C) (results : Wave S V C)
      → Leads Tidy Ending
          (IsSafe base)
          (IsSafe base)
          (on_yielded host graph cp p results)
          (RoundEnds Tidy base b)
  unfolding on_yielded get_dag
  on_yielded_leads b p results =
      bind Tidy Ending (IsSafe base) (IsSafe base) (λ _. (IsSafe base)) (RoundEnds Tidy base b)
        get_dag _ (λ x q. q)
        (λ dag.
          save_then (IsSafe base) (λ d q. q) b p p.state _ _ _ (λ _. return p.state) (λ id d q. q))

  pub interrupt_leads :
      (b : ℕ) (p : Progress S C) (wave : List Key)
      → Leads Tidy Ending
          (IsSafe base)
          (IsSafe base)
          (interrupt_wave host graph cp p wave)
          (RoundEnds Tidy base b)
  unfolding interrupt_wave
  interrupt_leads b p wave =
      save_then (IsSafe base) (λ d q. q) b p p.state _ _ _ (λ _. break p) (λ id d q. q)

  close_wave_leads :
      (b' b : ℕ) (p : Progress S C) (wave : List Key) (results : Wave S V C)
      → b' < b
      → Leads Tidy Ending
          (IsSafe base)
          (Cleared Tidy base b' results)
          (close_wave host graph cp merge p wave results)
          (RoundEnds Tidy base b)
  unfolding close_wave get_dag
  close_wave_leads b' b p wave results less =
      let P = Cleared Tidy base b' results in
      let Q = RoundEnds Tidy base b in
      let safe : (d : Dag) → P d → IsSafe base d = λ d q. (q.0).ordered in
      bind Tidy Ending (IsSafe base) P (λ _. P) Q _ _
        (mild_leads Tidy Ending (IsSafe base) P _ safe
          (check_total-IsMild host graph Tidy Ending cp _))
        (λ _.
          bind Tidy Ending (IsSafe base) P (λ _. P) Q get_dag _ (λ x q. q)
            (λ dag.
              bind Tidy Ending (IsSafe base) P (λ _. P) Q _ _
                (mild_leads Tidy Ending (IsSafe base) P _ safe (save_wave-IsMild p _ _ _ _))
                (λ id.
                  if_leads Tidy Ending (IsSafe base) P Q
                    (any (λ name. mem_str name graph.interrupt_after) (names_of wave)) _ _
                    (λ x q. (q.0).ordered) (λ x q. (q.0, omega (arith, q.1, less))))))

  by_yield_leads :
      (b' b : ℕ) (p : Progress S C) (wave : List Key) (results : Wave S V C) (paused : Bool)
      → b' < b
      → results.failed ≡ []
      → results.has_yielded ≡ paused
      → Leads Tidy Ending
          (IsSafe base)
          (WaveHolds Tidy base b' [] results)
          (if paused
            then on_yielded host graph cp p results
            else close_wave host graph cp merge p wave results)
          (RoundEnds Tidy base b)
  by_yield_leads b' b p wave results true less e y =
      λ x q. on_yielded_leads b p results x (q.0).ordered
  by_yield_leads b' b p wave results false less e y = λ x q.
      let clean : is_clean results ≡ true = ground (arith, e, y) in
      close_wave_leads b' b p wave results less x
        (subst (λ c. Inflight Tidy base [] results.completed c x.dag.nodes) clean q.0, q.1)

  on_failures_leads :
      (b' b : ℕ) (p : Progress S C) (wave : List Key) (results : Wave S V C)
      (failures : List (String × String))
      → b' < b
      → results.failed ≡ failures
      → Leads Tidy Ending
          (IsSafe base)
          (WaveHolds Tidy base b' [] results)
          (on_failures host graph cp merge p wave results failures)
          (RoundEnds Tidy base b)
  unfolding on_failures
  on_failures_leads b' b p wave results (f ∷ fs) less e = λ x q. ((q.0).ordered, λ t. refl)
  on_failures_leads b' b p wave results [] less e =
      by_yield_leads b' b p wave results results.has_yielded less e refl

  spawn_one_leads :
      (P : Dag → Type 0) (safe : (d : Dag) → P d → IsSafe base d) (thread_id : String)
      (cancellation : Option ℕ) (state : S) (key : Key) (wave : List Key)
      (callee : Option (Callee S V C W)) (rest : Action C W St (List (Task S V C W)))
      → Leads Tidy Ending (IsSafe base) P rest (λ tasks d. P d × (map key_of tasks ≡ wave))
      → Leads Tidy Ending
          (IsSafe base)
          P
          (spawn_one graph thread_id cancellation state key callee rest)
          (λ tasks d. P d × (map key_of tasks ≡ key ∷ wave))
  unfolding spawn_one
  spawn_one_leads P safe thread_id cancellation state key wave none rest h =
      λ x p. (safe x.dag p, λ t. refl)
  spawn_one_leads P safe thread_id cancellation state key wave (some callee) rest h =
      bind Tidy Ending (IsSafe base) P (λ tasks d. P d × (map key_of tasks ≡ wave))
        (λ tasks d. P d × (map key_of tasks ≡ key ∷ wave)) rest _ h
        (λ tasks x p. (p.0, ap (λ ks. key ∷ ks) p.1))

  spawn_all_leads :
      (P : Dag → Type 0) (safe : (d : Dag) → P d → IsSafe base d) (thread_id : String)
      (cancellation : Option ℕ) (state : S) (wave : List Key)
      → Leads {C = C} {W = W} {St = St} Tidy Ending
          (IsSafe base)
          P
          (spawn_all graph thread_id cancellation state wave)
          (λ tasks d. P d × (map key_of tasks ≡ wave))
  unfolding spawn_all
  spawn_all_leads P safe thread_id cancellation state [] = λ x p. (p, refl)
  spawn_all_leads P safe thread_id cancellation state (key ∷ wave) =
      spawn_one_leads P safe thread_id cancellation state key wave (callee_of graph key.1.step_type)
        _ (spawn_all_leads P safe thread_id cancellation state wave)

  -- A wave, from where its nodes are marked as running.
  pub marked_leads :
      (b' b : ℕ) (turns : ℕ → Turn) (p : Progress S C) (wave : List Key)
      → b' < b
      → Leads Tidy Ending
          (IsSafe base)
          (λ d. Inflight Tidy base wave p.completed true d.nodes × (pending_count d.nodes ≤ b'))
          (do
            tasks ← spawn_all graph p.thread_id p.cancellation_token p.state wave
            results ←
                join_all host graph p.thread_id turns
                  (total_left tasks)
                  0
                  (empty_wave host p.completed)
                  tasks
            on_failures host graph cp merge p wave results results.failed)
          (RoundEnds Tidy base b)
  marked_leads b' b turns p wave less =
      let P : Dag → Type 0 =
        λ d. Inflight Tidy base wave p.completed true d.nodes × (pending_count d.nodes ≤ b') in
      let Q = RoundEnds Tidy base b in
      bind Tidy Ending (IsSafe base) P (λ tasks d. P d × (map key_of tasks ≡ wave)) Q _ _
        (spawn_all_leads P (λ d q. (q.0).ordered) p.thread_id p.cancellation_token p.state wave)
        (λ tasks.
          bind Tidy Ending (IsSafe base) _ (WaveHolds Tidy base b' []) Q _ _
            (λ x q.
              join_all_leads host graph Tidy Ending base ending b' p.thread_id turns
                (total_left tasks) 0 (empty_wave host p.completed) tasks (omega arith) x
                (subst (λ ks. WaveHolds Tidy base b' ks (empty_wave host p.completed) x.dag)
                  (sym q.1) q.0))
            (λ results. on_failures_leads b' b p wave results results.failed less refl))
