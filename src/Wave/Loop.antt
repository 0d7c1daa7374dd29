-- ===== src/Wave/Loop.antt =====
-- The loop of `Graph::run_dag` (src/graph.rs): a round keeps the invariant and leaves fewer nodes pending, and
-- the loop ends, whatever the schedule.
use takeln.Base.{
  ℕ, zero, suc, ◌+◌, ◌-◌, ◌≤◌, ◌<◌, ◌≡◌, refl, subst, Bool, true, false, not, ◌&&◌, List, [], ◌∷◌,
  any, All, mem_str, arith, Bool-cases, inl, inr, if◌then◌else◌,
}
use takeln.Checkpoint.{Checkpointer}
use takeln.Context.{Host}
use takeln.Graph.{Graph}
use takeln.Dag.Data.{DagNode, Dag}
use takeln.Exec.Defs.{Exec, Action}
use takeln.Exec.Leads.{Leads, EndsAs, bind, mild_leads}
use takeln.Wave.Ready.{is_pending, ready_from, mark_running}
use takeln.Wave.Status.{pending_count}
use takeln.Wave.Task.{Turn}
use takeln.Wave.Collect.{get_dag, change_nodes}
use takeln.Wave.Engine.{
  Progress, WaveRound, return, break, next, names_of, on_no_ready, run_wave, dispatch, run_round,
  by_wave, run_waves,
}
use takeln.Wave.Inflight.{Key, times}
use takeln.Wave.Launch.{IsReadyAt, wave-IsReadyAt, times-ready_from, launch, launch-pending}
use takeln.Wave.Mild.{IsPlainStore, send_finished-IsMild}
use takeln.Wave.Joined.{IsSafe}
use takeln.Wave.Rounds.{NeverStuck, Between, RoundEnds, marked_leads, interrupt_leads}

if_EndsAs :
    {C W St A : Type 0} (Tidy Ending : Type 0) (Safe : Dag → Type 0) (Q : A → Dag → Type 0)
    (c : Bool) (m k : Action C W St A) (x : Exec C W St)
    → EndsAs Tidy Ending Safe Q (m x)
    → EndsAs Tidy Ending Safe Q (k x)
    → EndsAs Tidy Ending Safe Q ((if c then m else k) x)
if_EndsAs Tidy Ending Safe Q true m k x hm hk = hm
if_EndsAs Tidy Ending Safe Q false m k x hm hk = hk

module _ {S V C W St : Type 0} (host : Host S V C W) (graph : Graph S V C W)
    (cp : Checkpointer S V C St) (merge : S → S → S) (Tidy Ending : Type 0) (base : List DagNode)
    (ending : Ending → 0 < graph.resource_limits.max_execution_records)
    (plain : Tidy → IsPlainStore cp) (unstuck : Tidy → NeverStuck base) where
  run_wave-EndsAs :
      (b : ℕ) (turns : ℕ → Turn) (p : Progress S C) (i : ℕ) (n : DagNode) (wave : List Key)
      (x : Exec C W St)
      → Between Tidy base b p x.dag
      → All (IsReadyAt p.completed x.dag.nodes) ((i, n) ∷ wave)
      → ((j : ℕ) → times j ((i, n) ∷ wave) ≤ 1)
      → EndsAs Tidy Ending
          (IsSafe base)
          (RoundEnds Tidy base b)
          (run_wave host graph cp merge turns p ((i, n) ∷ wave) x)
  unfolding run_wave change_nodes
  run_wave-EndsAs b turns p i n wave x q ready once =
      let nodes = mark_running ((i, n) ∷ wave) x.dag.nodes in
      let fewer : pending_count nodes < pending_count x.dag.nodes =
        launch-pending i n wave p.completed x.dag.nodes ready in
      marked_leads host graph cp merge Tidy Ending base ending plain unstuck (pending_count nodes) b
        turns p ((i, n) ∷ wave) (omega (arith, fewer, q.1))
        (record x { dag = record x.dag { nodes = nodes } })
        (launch Tidy base [] ((i, n) ∷ wave) p.completed x.dag.nodes q.0 ready once, omega arith)

  no_ready-EndsAs :
      (b : ℕ) (p : Progress S C) (x : Exec C W St)
      → Between Tidy base b p x.dag
      → ready_from 0 p.completed x.dag.nodes ≡ []
      → EndsAs Tidy Ending
          (IsSafe base)
          (RoundEnds Tidy base b)
          (on_no_ready host graph cp p x.dag.nodes x)
  unfolding on_no_ready
  no_ready-EndsAs b p x q e = elim (Bool-cases (any (λ n. is_pending n.status) x.dag.nodes)) [
    | inr over ↦ rw over (q.0).ordered
    | inl waits ↦ rw waits (
      (q.0).ordered,
      λ t.
          let over = unstuck t x.dag.nodes p.completed (q.0).shape ((q.0).tidy t refl) e in
          absurd (ground (arith, waits, over)),
    )
  ]

  dispatch-EndsAs :
      (b : ℕ) (turns : ℕ → Turn) (p : Progress S C) (x : Exec C W St) (wave : List Key)
      → Between Tidy base b p x.dag
      → ready_from 0 p.completed x.dag.nodes ≡ wave
      → EndsAs Tidy Ending
          (IsSafe base)
          (RoundEnds Tidy base b)
          (dispatch host graph cp merge turns p x.dag.nodes wave x)
  unfolding dispatch
  dispatch-EndsAs b turns p x [] q e = no_ready-EndsAs b p x q e
  dispatch-EndsAs b turns p x ((i, n) ∷ wave) q e =
      let ready : All (IsReadyAt p.completed x.dag.nodes) ((i, n) ∷ wave) =
        subst (All (IsReadyAt p.completed x.dag.nodes)) e
          (wave-IsReadyAt p.completed x.dag.nodes) in
      let once : (j : ℕ) → times j ((i, n) ∷ wave) ≤ 1 =
        λ j. subst (λ ks. times j ks ≤ 1) e (times-ready_from j 0 p.completed x.dag.nodes) in
      if_EndsAs Tidy Ending (IsSafe base) (RoundEnds Tidy base b)
        (not p.is_first_wave
          && any (λ name. mem_str name graph.interrupt_before) (names_of ((i, n) ∷ wave)))
        _ _ x
        (interrupt_leads host graph cp merge Tidy Ending base ending plain unstuck b p
          ((i, n) ∷ wave) x (q.0).ordered)
        (run_wave-EndsAs b turns p i n wave x q ready once)

  run_round_leads :
      (b : ℕ) (turns : ℕ → Turn) (p : Progress S C)
      → Leads Tidy Ending
          (IsSafe base)
          (Between Tidy base b p)
          (run_round host graph cp merge turns p)
          (RoundEnds Tidy base b)
  unfolding run_round get_dag
  run_round_leads b turns p x q = dispatch-EndsAs b turns p x _ q refl

  by_wave_leads :
      (b : ℕ) (continue : Progress S C → Action C W St S) (out : WaveRound S C)
      → ((p : Progress S C)
          → Leads Tidy Ending
              (IsSafe base)
              (RoundEnds Tidy base b (next p))
              (continue p)
              (λ _. (IsSafe base)))
      → Leads Tidy Ending
          (IsSafe base)
          (RoundEnds Tidy base b out)
          (by_wave host graph cp merge continue out)
          (λ _. (IsSafe base))
  unfolding by_wave
  by_wave_leads b continue (return s) h = λ x q. q
  by_wave_leads b continue (next p) h = h p
  by_wave_leads b continue (break p) h =
      bind Tidy Ending (IsSafe base) (IsSafe base) (λ _. (IsSafe base)) (λ _. (IsSafe base)) _ _
        (mild_leads Tidy Ending (IsSafe base) (IsSafe base) _ (λ d q. q)
          (send_finished-IsMild Tidy Ending p.thread_id p.running_cost_eur))
        (λ _ x q. q)

  -- One round more than there are pending nodes is enough.
  pub run_waves_leads :
      (schedule : ℕ → ℕ → Turn) (fuel k b : ℕ) (p : Progress S C)
      → b < fuel
      → Leads Tidy Ending
          (IsSafe base)
          (Between Tidy base b p)
          (run_waves host graph cp merge schedule fuel k p)
          (λ _. (IsSafe base))
  unfolding run_waves
  run_waves_leads schedule zero k b p enough = absurd (omega (arith, enough))
  run_waves_leads schedule (suc fuel) k b p enough =
      bind Tidy Ending (IsSafe base) (Between Tidy base b p) (RoundEnds Tidy base b)
        (λ _. (IsSafe base)) _ _ (run_round_leads b (schedule k) p)
        (λ out. by_wave_leads b (run_waves host graph cp merge schedule fuel (k + 1)) out (λ p' x q.
          run_waves_leads schedule fuel (k + 1) (b - 1) p' (omega (arith, q.1, enough)) x
            (q.0, omega (arith, q.1))))
