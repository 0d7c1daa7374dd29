-- ===== src/Wave/Sound.antt =====
-- `Graph::run_dag` of src/graph.rs under every schedule: the order of the nodes, termination, and no
-- deadlock on a DAG that was built.
use takeln.Base.{
  some_inj, ℕ, ◌+◌, ◌≤◌, ◌<◌, ◌≡◌, ◌≢◌, refl, sym, ◌∙◌, ap, subst, Bool, true, false, ◌||◌, String,
  Option, some, List, [], ◌∷◌, map, length, arith, Bool-cases, inl, inr,
}
use takeln.Error.{dag_deadlock}
use takeln.Checkpoint.{Checkpointer}
use takeln.Context.{Host}
use takeln.Graph.{Graph}
use takeln.Dag.Data.{DagNode, Dag}
use takeln.Dag.Builder.{DagBuilder, BuildResult, build}
use takeln.Dag.Names.{IsFresh, HasDistinctSteps}
use takeln.Exec.Defs.{Exec, Outcome, done, fail, hang}
use takeln.Exec.Mild.{is_deadlock, ask_store-IsMild}
use takeln.Exec.Leads.{Leads, EndsAs, bind, mild_leads}
use takeln.Wave.Ready.{is_pending, is_done, done_ids}
use takeln.Wave.Status.{node_at, reset, pending_count, done_ids-IsDoneId, mem_id-done_ids}
use takeln.Wave.Task.{Turn}
use takeln.Wave.Collect.{get_dag}
use takeln.Wave.Engine.{first_progress, run_waves, run_dag}
use takeln.Wave.Inflight.{IsOrdered, Inflight}
use takeln.Wave.Mild.{IsPlainStore, check_depth-IsMild, check_dag_size-IsMild}
use takeln.Wave.Joined.{IsSafe}
use takeln.Wave.Rounds.{NeverStuck}
use takeln.Wave.Loop.{run_waves_leads}
use takeln.Wave.Built.{build-NeverStuck}

-- Every node waits or is done: the statuses of a DAG that was built, or whose last wave completed.
abbrev pub IsQuiescent : List DagNode → Type 0
IsQuiescent nodes =
    (j : ℕ) (n : DagNode)
    → node_at j nodes ≡ some n
    → (is_pending n.status || is_done n.status) ≡ true

pending_count-le : (nodes : List DagNode) → pending_count nodes ≤ length nodes
pending_count-le [] = omega arith
pending_count-le (n ∷ ns) = ground (arith, pending_count-le ns)

base-IsOrdered : (base : List DagNode) → IsOrdered base base
base-IsOrdered base j n (m, at_m, waits) at started d dep =
    absurd
      (ground (arith, ap (λ l. is_pending l.status) (some_inj (sym at_m ∙ at)), waits, started))

-- The invariant at the start of a run.
start_holds :
    (Tidy : Type 0) (base : List DagNode)
    → (Tidy → IsQuiescent base)
    → Inflight Tidy base [] (done_ids base) true base
start_holds Tidy base quiescent = record {
  once = λ j. omega arith;
  placed = tt;
  known = λ d member. done_ids-IsDoneId d base member;
  ordered = base-IsOrdered base;
  shape = refl;
  tidy = λ t clean j n at. elim (Bool-cases (is_pending n.status)) [
    | inl waits ↦ inl waits
    | inr other ↦
        let is : is_done n.status ≡ true = ground (arith, quiescent t j n at, other) in
        inr (inl (is, mem_id-done_ids j base n at is))
  ];
}

module _ {S V C W St : Type 0} (host : Host S V C W) (graph : Graph S V C W)
    (cp : Checkpointer S V C St) (merge : S → S → S) (Tidy Ending : Type 0)
    (ending : Ending → 0 < graph.resource_limits.max_execution_records)
    (plain : Tidy → IsPlainStore cp) where
  -- The loop of a run, from the DAG `start`.
  loop_leads :
      (schedule : ℕ → ℕ → Turn) (thread_id : String) (state : S) (cancellation : Option ℕ)
      (start dag : Dag) (head : Option String)
      → (Tidy → NeverStuck start.nodes × IsQuiescent start.nodes)
      → dag ≡ start
      → Leads Tidy Ending
          (IsSafe start.nodes)
          (λ d. d ≡ start)
          (run_waves host graph cp merge schedule
            (length dag.nodes + 1)
            0
            (first_progress host thread_id state cancellation dag.nodes head))
          (λ _. IsSafe start.nodes)
  unfolding first_progress
  loop_leads schedule thread_id state cancellation start dag head tidy e x same =
      let base = start.nodes in
      let here : Inflight Tidy base [] (done_ids base) true x.dag.nodes =
        subst (λ d. Inflight Tidy base [] (done_ids base) true d.nodes) (sym same)
          (start_holds Tidy base (λ t. (tidy t).1)) in
      run_waves_leads host graph cp merge Tidy Ending base ending plain (λ t. (tidy t).0) schedule
        (length dag.nodes + 1) 0 (length dag.nodes)
        (first_progress host thread_id state cancellation dag.nodes head) (omega arith) x
        (
          subst (λ d. Inflight Tidy base [] (done_ids d.nodes) true x.dag.nodes) (sym e) here,
          subst (λ d. pending_count d.nodes ≤ length dag.nodes) (e ∙ sym same)
              (pending_count-le dag.nodes),
        )

  run_dag-EndsAs :
      (schedule : ℕ → ℕ → Turn) (thread_id : String) (state : S) (cancellation : Option ℕ)
      (depth : ℕ) (x : Exec C W St)
      → (Tidy → NeverStuck x.dag.nodes × IsQuiescent x.dag.nodes)
      → EndsAs Tidy Ending
          (IsSafe x.dag.nodes)
          (λ _. IsSafe x.dag.nodes)
          (run_dag host graph cp merge schedule thread_id state cancellation depth x)
  unfolding run_dag get_dag
  run_dag-EndsAs schedule thread_id state cancellation depth x tidy =
      let start = x.dag in
      let P : Dag → Type 0 = λ d. d ≡ start in
      let Safe : Dag → Type 0 = IsSafe start.nodes in
      let safe : (d : Dag) → P d → Safe d =
        λ d e. subst (IsSafe start.nodes) (sym e) (base-IsOrdered start.nodes) in
      bind Tidy Ending Safe P (λ _. P) (λ _. Safe) _ _
        (mild_leads Tidy Ending Safe P _ safe (check_depth-IsMild Tidy Ending depth))
        (λ _.
          bind Tidy Ending Safe P (λ a d. (a ≡ start) × P d) (λ _. Safe) get_dag _ (λ y e. (e, e))
            (λ dag y q.
              bind Tidy Ending Safe P (λ _. P) (λ _. Safe) _ _
                (mild_leads Tidy Ending Safe P _ safe
                  (check_dag_size-IsMild host graph Tidy Ending (length dag.nodes)))
                (λ _.
                  bind Tidy Ending Safe P (λ _. P) (λ _. Safe) _ _
                    (mild_leads Tidy Ending Safe P _ safe (
                      ask_store-IsMild Tidy Ending (cp.current_head thread_id)
                        (λ t. (plain t).plain_head thread_id)))
                    (λ head.
                      loop_leads schedule thread_id state cancellation start dag head tidy q.0))
                y q.1))
        x refl

-- The DAG that an action leaves, however it ends.
EndsAs-Safe :
    {C W St A : Type 0} (Safe : Dag → Type 0) (r : Outcome C A × Exec C W St)
    → EndsAs ⊥ ⊥ Safe (λ _. Safe) r
    → Safe r.1.dag
EndsAs-Safe Safe (done a, x) h = h
EndsAs-Safe Safe (fail e, x) h = h.0
EndsAs-Safe Safe (hang, x) h = h.0

EndsAs-ne-hang :
    {C W St A : Type 0} (Tidy Ending : Type 0) (Safe : Dag → Type 0) (r : Outcome C A × Exec C W St)
    → Ending
    → EndsAs Tidy Ending Safe (λ _. Safe) r
    → r.0 ≢ hang
EndsAs-ne-hang Tidy Ending Safe (done a, x) given h e = absurd (ground (arith, e))
EndsAs-ne-hang Tidy Ending Safe (fail e', x) given h e = absurd (ground (arith, e))
EndsAs-ne-hang Tidy Ending Safe (hang, x) given h e = h.1 given

abbrev is_deadlocked : {C A : Type 0} → Outcome C A → Bool
is_deadlocked (fail e) = is_deadlock e
is_deadlocked _ = false

EndsAs-ne-deadlock :
    {C W St A : Type 0} (Tidy Ending : Type 0) (Safe : Dag → Type 0) (r : Outcome C A × Exec C W St)
    (names : String)
    → Tidy
    → EndsAs Tidy Ending Safe (λ _. Safe) r
    → r.0 ≢ fail (dag_deadlock names)
EndsAs-ne-deadlock Tidy Ending Safe (done a, x) names given h e = absurd (ground (arith, e))
EndsAs-ne-deadlock Tidy Ending Safe (hang, x) names given h e = absurd (ground (arith, e))
EndsAs-ne-deadlock Tidy Ending Safe (fail e', x) names given h e =
    absurd (ground (arith, h.1 given, ap is_deadlocked e))

module _ {S V C W St : Type 0} (host : Host S V C W) (graph : Graph S V C W)
    (cp : Checkpointer S V C St) (merge : S → S → S) (schedule : ℕ → ℕ → Turn) (thread_id : String)
    (state : S) (cancellation : Option ℕ) (depth : ℕ) where
  -- Under every schedule and however the run ends, each node that was pending before it and is not
  -- pending after it has every dependency done after it.
  pub run_dag-IsOrdered :
      (x : Exec C W St)
      → IsOrdered x.dag.nodes
          (run_dag host graph cp merge schedule thread_id state cancellation depth x).1.dag.nodes
  run_dag-IsOrdered x = EndsAs-Safe (IsSafe x.dag.nodes) _ (
      run_dag-EndsAs host graph cp merge ⊥ ⊥ absurd absurd schedule thread_id state cancellation
        depth x absurd)

  -- Under every schedule the run of a DAG ends with a state or an error, where the history may keep a
  -- record.
  pub run_dag-ne-hang :
      (x : Exec C W St)
      → 0 < graph.resource_limits.max_execution_records
      → (run_dag host graph cp merge schedule thread_id state cancellation depth x).0 ≢ hang
  run_dag-ne-hang x records = EndsAs-ne-hang ⊥ Unit (IsSafe x.dag.nodes) _ tt (
      run_dag-EndsAs host graph cp merge ⊥ Unit (λ _. records) absurd schedule thread_id state
        cancellation depth x absurd)

  -- A run never ends with a deadlock error, under every schedule, where its DAG has the nodes of one that
  -- was built from distinct step types with a supply that never repeats an identifier, each node is
  -- pending or done, and the store does not give that error.
  pub run_dag-ne-deadlock :
      (x : Exec C W St) (fresh : ℕ → ℕ) (now : ℕ) (b : DagBuilder) (built : Dag) (names : String)
      → IsFresh fresh
      → HasDistinctSteps b.entries
      → build fresh now b ≡ BuildResult.ok built
      → map reset x.dag.nodes ≡ map reset built.nodes
      → IsQuiescent x.dag.nodes
      → IsPlainStore cp
      → (run_dag host graph cp merge schedule thread_id state cancellation depth x).0
        ≢ fail (dag_deadlock names)
  run_dag-ne-deadlock x fresh now b built names injective distinct is_built shape quiescent plain =
      let unstuck : NeverStuck x.dag.nodes = λ nodes completed like tidy idle.
        build-NeverStuck fresh now b built injective distinct is_built nodes completed
          (like ∙ shape) tidy idle in
      EndsAs-ne-deadlock Unit ⊥ (IsSafe x.dag.nodes) _ names tt (
        run_dag-EndsAs host graph cp merge Unit ⊥ absurd (λ _. plain) schedule thread_id state
          cancellation depth x (λ _. (unstuck, quiescent)))
