-- ===== src/Wave/Engine.antt =====
-- The loop of `Graph::run_dag` of src/graph.rs, one wave a round. States are merged by a parameter, the
-- trait `Merge`.
use takeln.Base.{
  ℕ, zero, suc, ◌+◌, Bool, true, false, not, ◌&&◌, String, Option, none, some, List, [], ◌∷◌, map,
  any, concat, join, mem_str, length, leb, ltb, if◌then◌else◌,
}
use takeln.Error.{
  execution_error, dag_deadlock, recursion_limit_exceeded, partial_wave_failure, TakelnError,
}
use takeln.Hitl.{YieldRequest}
use takeln.Checkpoint.{CheckpointStatus, complete, yielded, interrupted, Checkpointer}
use takeln.Context.{Host}
use takeln.Graph.{Graph}
use takeln.Dag.Data.{DagNode}
use takeln.Exec.Defs.{
  graph_finished, hang, Action, ◌>>=◌, ◌>>◌, for_some, pure, throw, ask_store, send,
}
use takeln.Run.Frame.{save}
use takeln.Wave.Ready.{
  is_pending, done_ids, ready_from, mark_running, pending_names, left_names, next_pending,
}
use takeln.Wave.Task.{Turn, spawn_all}
use takeln.Wave.Collect.{Wave, get_dag, change_nodes}
use takeln.Wave.Scheduler.{total_left, join_all}

-- The locals of the loop.
pub record Progress (S C : Type 0) : Type 0 where
  pub thread_id : String
  pub state : S
  pub cancellation_token : Option ℕ
  pub running_cost_eur : C
  pub completed : List ℕ
  pub is_first_wave : Bool
  pub expected_head : Option String

-- How a round ends: with `return`, with `break`, or with another wave.
pub data WaveRound (S C : Type 0) : Type 0 where
  return : S → WaveRound S C
  break : Progress S C → WaveRound S C
  next : Progress S C → WaveRound S C

-- `sort_by_key(|(idx, _)| *idx)`, a stable sort.
unfoldable pub insert_by_idx : {S : Type 0} → ℕ × S → List (ℕ × S) → List (ℕ × S)
insert_by_idx s [] = s ∷ []
insert_by_idx s (t ∷ ts) =
    let rest = insert_by_idx s ts in if leb s.0 t.0 then s ∷ t ∷ ts else t ∷ rest

unfoldable pub sort_by_idx : {S : Type 0} → List (ℕ × S) → List (ℕ × S)
unfolding insert_by_idx
sort_by_idx [] = []
sort_by_idx (s ∷ ss) = insert_by_idx s (sort_by_idx ss)

unfoldable pub merge_all : {S : Type 0} → (S → S → S) → S → List (ℕ × S) → S
merge_all merge state [] = state
merge_all merge state ((_, s) ∷ ss) = merge_all merge (merge state s) ss

-- The wave's states, merged in the order of the nodes.
unfoldable pub merge_wave : {S : Type 0} → (S → S → S) → S → List (ℕ × S) → S
unfolding sort_by_idx merge_all
merge_wave merge state states = merge_all merge state (sort_by_idx states)

-- `dag.nodes[idx].step_type` of the ready nodes.
abbrev pub names_of : List (ℕ × DagNode) → List String
names_of wave = map (λ n. n.1.step_type) wave

module _ {S V C W : Type 0} (host : Host S V C W) where
  unfoldable pub first_progress :
      (thread_id : String) → S → Option ℕ → List DagNode → Option String → Progress S C
  first_progress thread_id state cancellation nodes head = record {
    thread_id = thread_id;
    state = state;
    cancellation_token = cancellation;
    running_cost_eur = host.zero_cost;
    completed = done_ids nodes;
    is_first_wave = true;
    expected_head = head;
  }

  abbrev pub empty_wave : List ℕ → Wave S V C
  empty_wave completed = record {
    completed = completed;
    states = [];
    cost = host.zero_cost;
    has_yielded = false;
    succeeded = [];
    failed = [];
    yield_request = none;
  }

module _ {C W St : Type 0} where
  unfoldable pub check_depth : ℕ → Action C W St (Unit {0})
  check_depth depth = if ltb 8 depth then throw (recursion_limit_exceeded depth 8) else pure tt

module _ {S V C W St : Type 0} (host : Host S V C W) (graph : Graph S V C W) where
  unfoldable pub check_dag_size : ℕ → Action C W St (Unit {0})
  check_dag_size size =
      let limit = graph.resource_limits.max_dag_nodes in
      if ltb limit size
      then throw (
          execution_error (
            concat (
              "DAG has "
              ∷ host.show_nat size
              ∷ " nodes, exceeding max_dag_nodes limit of "
              ∷ host.show_nat limit
              ∷ [])))
      else pure tt

module _ {S V C W St : Type 0} (host : Host S V C W) (graph : Graph S V C W)
    (cp : Checkpointer S V C St) where
  -- Every checkpoint of the wave runner carries the DAG as it stands.
  unfoldable pub save_wave :
      Progress S C
      → S
      → (next_node : String) → CheckpointStatus
      → Option (YieldRequest V)
      → Action C W St String
  save_wave p state next_node status request = do
    dag ← get_dag
    save host graph cp
        (record {
          thread_id = p.thread_id;
          state = state;
          next_node = next_node;
          dag = some dag;
          status = status;
          yield_request = request;
          claimed_interrupt = none;
          resolved_interrupt = none;
        })
        p.expected_head

  -- No node is ready: the run is over, or the pending nodes wait for ever.
  unfoldable pub on_no_ready : Progress S C → List DagNode → Action C W St (WaveRound S C)
  on_no_ready p nodes =
      if any (λ n. is_pending n.status) nodes
      then throw (dag_deadlock (join ", " (pending_names nodes)))
      else pure (break p)

  -- The interrupt before a wave: the state is saved for it, and the run stops.
  unfoldable pub interrupt_wave : Progress S C → List (ℕ × DagNode) → Action C W St (WaveRound S C)
  interrupt_wave p wave = do
    save_wave p p.state (join "," (names_of wave)) interrupted none
    pure (break p)

  -- The state from before the wave is saved, whatever the other nodes of the wave returned.
  unfoldable pub on_yielded : Progress S C → Wave S V C → Action C W St (WaveRound S C)
  on_yielded p results = do
    dag ← get_dag
    save_wave p p.state (join "," (left_names dag.nodes)) yielded results.yield_request
    pure (return p.state)

  -- The graph's budget, on the running cost of the run.
  unfoldable pub check_total : C → Action C W St (Unit {0})
  check_total total = for_some graph.budget_eur λ budget.
      if host.gt_cost total budget
      then throw (TakelnError.budget_exceeded total budget)
      else pure tt

  module _ (merge : S → S → S) where
    -- The end of a wave without a failure or a yield: the merge, the budget, the checkpoint and the
    -- interrupt after a node.
    unfoldable pub close_wave :
        Progress S C → List (ℕ × DagNode) → Wave S V C → Action C W St (WaveRound S C)
    close_wave p wave results = do
      let state = merge_wave merge p.state results.states
      let total = host.add_cost p.running_cost_eur results.cost
      check_total total
      dag ← get_dag
      id ← save_wave p state (next_pending dag.nodes) complete none
      let p' : Progress S C = record p {
        state = state;
        running_cost_eur = total;
        completed = results.completed;
        is_first_wave = false;
        expected_head = some id;
      }
      if any (λ name. mem_str name graph.interrupt_after) (names_of wave)
          then pure (break p')
          else pure (next p')

    unfoldable pub on_failures :
        Progress S C
        → List (ℕ × DagNode)
        → Wave S V C
        → List (String × String)
        → Action C W St (WaveRound S C)
    on_failures p wave results [] =
        if results.has_yielded then on_yielded p results else close_wave p wave results
    on_failures p wave results (f ∷ fs) = throw (partial_wave_failure results.succeeded (f ∷ fs))

    -- A wave of ready nodes, under the scheduler's choices.
    unfoldable pub run_wave :
        (ℕ → Turn) → Progress S C → List (ℕ × DagNode) → Action C W St (WaveRound S C)
    run_wave turns p wave = do
      change_nodes (mark_running wave)
      tasks ← spawn_all graph p.thread_id p.cancellation_token p.state wave
      results ←
          join_all host graph p.thread_id turns (total_left tasks) 0 (empty_wave host p.completed)
            tasks
      on_failures p wave results results.failed

    unfoldable pub dispatch :
        (ℕ → Turn)
        → Progress S C
        → List DagNode
        → List (ℕ × DagNode)
        → Action C W St (WaveRound S C)
    dispatch turns p nodes [] = on_no_ready p nodes
    dispatch turns p nodes (n ∷ ns) =
        if not p.is_first_wave
          && any (λ name. mem_str name graph.interrupt_before) (names_of (n ∷ ns))
        then interrupt_wave p (n ∷ ns)
        else run_wave turns p (n ∷ ns)

    -- One round of the loop.
    unfoldable pub run_round : (ℕ → Turn) → Progress S C → Action C W St (WaveRound S C)
    run_round turns p = do
      dag ← get_dag
      dispatch turns p dag.nodes (ready_from 0 p.completed dag.nodes)

    unfoldable pub by_wave : (Progress S C → Action C W St S) → WaveRound S C → Action C W St S
    by_wave continue (return state) = pure state
    by_wave continue (break p) = do
      send (graph_finished p.thread_id p.running_cost_eur)
      pure p.state
    by_wave continue (next p) = continue p

    -- The loop, on fuel: it hangs only without, and one round more than there are pending nodes is
    -- enough. The `k`-th wave runs under the `k`-th row of choices.
    unfoldable pub run_waves : (ℕ → ℕ → Turn) → ℕ → ℕ → Progress S C → Action C W St S
    run_waves schedule zero k p = λ x. (hang, x)
    run_waves schedule (suc fuel) k p = do
      round ← run_round (schedule k) p
      by_wave (run_waves schedule fuel (k + 1)) round

    -- `run_dag` of the DAG in the state, under a schedule.
    unfoldable pub run_dag :
        (ℕ → ℕ → Turn) → (thread_id : String) → S → Option ℕ → (depth : ℕ) → Action C W St S
    unfolding first_progress
    run_dag schedule thread_id state cancellation depth = do
      check_depth depth
      dag ← get_dag
      check_dag_size host graph (length dag.nodes)
      head ← ask_store (cp.current_head thread_id)
      run_waves schedule (length dag.nodes + 1) 0
          (first_progress host thread_id state cancellation dag.nodes head)
