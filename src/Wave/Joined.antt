-- ===== src/Wave/Joined.antt =====
-- The results of a wave of `Graph::run_dag` (src/graph.rs), in whatever order they arrive, keep the
-- invariant, and the wave ends.
use takeln.Base.{
  ℕ, ◌≤◌, ◌<◌, ◌≡◌, refl, sym, subst, Bool, true, false, not, ◌&&◌, String, List, [], ◌∷◌, ◌++◌,
  arith,
}
use takeln.Error.{GraphError, retryable, fatal, yield, yield_in_dynamic_node}
use takeln.Context.{Host}
use takeln.Node.{NodeResult, NodeOutput, WaveFailurePolicy, fail_fast, continue_on_error}
use takeln.Graph.{Graph}
use takeln.Dag.Data.{NodeStatus, DagNode, Dag}
use takeln.Exec.Defs.{◌>>◌}
use takeln.Exec.Leads.{Leads, bind, mild_leads}
use takeln.Wave.Ready.{is_pending}
use takeln.Wave.Status.{pending_count, pending_count-set_status}
use takeln.Wave.Task.{Task}
use takeln.Wave.Collect.{Wave, change_nodes, mark, take_output, by_policy, take_error, collect}
use takeln.Wave.Inflight.{Key, IsOrdered, Inflight, end_key, done_key}
use takeln.Wave.Mild.{observe_success-IsMild, check_wave_budget-IsMild}

abbrev is_nil : {A : Type 0} → List A → Bool
is_nil [] = true
is_nil (x ∷ xs) = false

-- No node of the wave has failed or yielded so far.
abbrev pub is_clean : {S V C : Type 0} → Wave S V C → Bool
is_clean wave = not wave.has_yielded && is_nil wave.failed

abbrev pub key_of : {S V C W : Type 0} → Task S V C W → Key
key_of t = (t.idx, t.node)

-- What holds of the DAG between the turns, with at most `b` nodes pending.
abbrev pub WaveHolds :
    {S V C : Type 0} (Tidy : Type 0) (base : List DagNode) (b : ℕ)
    → List Key
    → Wave S V C
    → Dag
    → Type 0
WaveHolds Tidy base b keys wave d =
    Inflight Tidy base keys wave.completed (is_clean wave) d.nodes × (pending_count d.nodes ≤ b)

-- The same, after a node of the wave has failed or yielded.
abbrev Unclean :
    {S V C : Type 0} (Tidy : Type 0) (base : List DagNode) (b : ℕ)
    → List Key
    → Wave S V C
    → Dag
    → Type 0
Unclean Tidy base b keys wave d =
    Inflight Tidy base keys wave.completed false d.nodes × (pending_count d.nodes ≤ b)

unclean : {A : Type 0} (b : Bool) (xs : List A) (x : A) → (b && is_nil (xs ++ x ∷ [])) ≡ false
unclean true [] x = refl
unclean true (y ∷ ys) x = refl
unclean false xs x = refl

abbrev pub IsSafe : List DagNode → Dag → Type 0
IsSafe base d = IsOrdered base d.nodes

module _ {S V C W St : Type 0} (host : Host S V C W) (graph : Graph S V C W) (Tidy Ending : Type 0)
    (base : List DagNode) (ending : Ending → 0 < graph.resource_limits.max_execution_records)
    (b : ℕ) where
  -- A failure leaves the wave unclean, whatever the policy keeps of it.
  by_policy_leads :
      (policy : WaveFailurePolicy) (keys : List Key) (n : DagNode) (wave : Wave S V C)
      (text : String)
      → Leads {W = W} {St = St} Tidy Ending
          (IsSafe base)
          (Unclean Tidy base b keys wave)
          (by_policy host graph policy n wave text)
          (WaveHolds Tidy base b keys)
  unfolding by_policy
  by_policy_leads fail_fast keys n wave text = λ x p. ((p.0).ordered, λ t. refl)
  by_policy_leads continue_on_error keys n wave text = λ x p. (
    subst (λ c. Inflight Tidy base keys wave.completed c x.dag.nodes)
        (sym (unclean (not wave.has_yielded) wave.failed (n.step_type, text))) p.0,
    p.1,
  )

  take_error_leads :
      (keys : List Key) (n : DagNode) (wave : Wave S V C) (e : GraphError V C)
      → Leads {W = W} {St = St} Tidy Ending
          (IsSafe base)
          (Unclean Tidy base b keys wave)
          (take_error host graph n wave e)
          (WaveHolds Tidy base b keys)
  unfolding take_error
  take_error_leads keys n wave (GraphError.budget_exceeded spent limit) =
      λ x p. ((p.0).ordered, λ t. refl)
  take_error_leads keys n wave (retryable msg) = by_policy_leads _ keys n wave _
  take_error_leads keys n wave (fatal msg) = by_policy_leads _ keys n wave _
  take_error_leads keys n wave (yield r) = by_policy_leads _ keys n wave _
  take_error_leads keys n wave (yield_in_dynamic_node i) = by_policy_leads _ keys n wave _

  mark_leads :
      (s : NodeStatus) (front back : List Key) (i : ℕ) (n : DagNode) (wave : Wave S V C)
      → is_pending s ≡ false
      → Leads {C = C} {W = W} {St = St} Tidy Ending
          (IsSafe base)
          (WaveHolds Tidy base b (front ++ (i, n) ∷ back) wave)
          (mark i s)
          (λ _. Unclean Tidy base b (front ++ back) wave)
  unfolding mark change_nodes
  mark_leads s front back i n wave h x p = (
    end_key Tidy base s front back wave.completed (is_clean wave) x.dag.nodes i n p.0,
    omega (arith, p.1, pending_count-set_status i s x.dag.nodes h),
  )

  -- The arm of a failure that is not a yield.
  failed_leads :
      (front back : List Key) (i : ℕ) (n : DagNode) (wave : Wave S V C) (e : GraphError V C)
      → Leads {W = W} {St = St} Tidy Ending
          (IsSafe base)
          (WaveHolds Tidy base b (front ++ (i, n) ∷ back) wave)
          (mark i NodeStatus.failed >> take_error host graph n wave e)
          (WaveHolds Tidy base b (front ++ back))
  failed_leads front back i n wave e =
      bind Tidy Ending (IsSafe base) _ (λ _. Unclean Tidy base b (front ++ back) wave)
        (WaveHolds Tidy base b (front ++ back)) (mark i NodeStatus.failed)
        (λ _. take_error host graph n wave e)
        (mark_leads NodeStatus.failed front back i n wave refl)
        (λ _. take_error_leads (front ++ back) n wave e)

  take_output_leads :
      (thread_id : String) (front back : List Key) (i : ℕ) (n : DagNode) (wave : Wave S V C)
      (out : NodeOutput S C)
      → Leads {W = W} {St = St} Tidy Ending
          (IsSafe base)
          (WaveHolds Tidy base b (front ++ (i, n) ∷ back) wave)
          (take_output host graph thread_id i n wave out)
          (WaveHolds Tidy base b (front ++ back))
  unfolding take_output mark change_nodes
  take_output_leads thread_id front back i n wave out =
      let P = WaveHolds Tidy base b (front ++ (i, n) ∷ back) wave in
      bind Tidy Ending (IsSafe base) P (λ _. P) (WaveHolds Tidy base b (front ++ back)) _ _
        (mild_leads Tidy Ending (IsSafe base) P _ (λ d p. (p.0).ordered)
          (observe_success-IsMild host graph Tidy Ending thread_id n.step_type out.meta ending))
        (λ _.
          bind Tidy Ending (IsSafe base) P (λ _. P) (WaveHolds Tidy base b (front ++ back)) _ _
            (mild_leads Tidy Ending (IsSafe base) P _ (λ d p. (p.0).ordered)
              (check_wave_budget-IsMild host graph Tidy Ending n.step_type out.meta))
            (λ _ x p. (
              done_key Tidy base front back wave.completed (is_clean wave) x.dag.nodes i n p.0,
              omega (arith, p.1, pending_count-set_status i NodeStatus.done x.dag.nodes refl),
            )))

  pub collect_leads :
      (thread_id : String) (front back : List Key) (i : ℕ) (n : DagNode) (wave : Wave S V C)
      (r : NodeResult S V C)
      → Leads {W = W} {St = St} Tidy Ending
          (IsSafe base)
          (WaveHolds Tidy base b (front ++ (i, n) ∷ back) wave)
          (collect host graph thread_id i n wave r)
          (WaveHolds Tidy base b (front ++ back))
  unfolding collect
  collect_leads thread_id front back i n wave (NodeResult.done out) =
      take_output_leads thread_id front back i n wave out
  collect_leads thread_id front back i n wave (NodeResult.failed (yield request)) =
      bind Tidy Ending (IsSafe base) _ (λ _. Unclean Tidy base b (front ++ back) wave)
        (WaveHolds Tidy base b (front ++ back)) (mark i NodeStatus.yielded) _
        (mark_leads NodeStatus.yielded front back i n wave refl) (λ _ x p. p)
  collect_leads thread_id front back i n wave (NodeResult.failed (retryable msg)) =
      failed_leads front back i n wave (retryable msg)
  collect_leads thread_id front back i n wave (NodeResult.failed (fatal msg)) =
      failed_leads front back i n wave (fatal msg)
  collect_leads thread_id front back i n wave
        (NodeResult.failed (GraphError.budget_exceeded spent limit)) =
      failed_leads front back i n wave (GraphError.budget_exceeded spent limit)
  collect_leads thread_id front back i n wave (NodeResult.failed (yield_in_dynamic_node id)) =
      failed_leads front back i n wave (yield_in_dynamic_node id)
