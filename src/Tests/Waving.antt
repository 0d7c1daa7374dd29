-- ===== src/Tests/Waving.antt =====
-- The theorems on the wave runner of src/graph.rs at concrete data, and runs at fixed inputs.
use mathlib.Core.List.{Permᴰ}
use takeln.Base.{
  ◌*◌, ℕ, zero, suc, ◌+◌, ◌≤◌, ◌≡◌, ◌≢◌, refl, arith, true, false, some, none, [], ◌∷◌, inl, inr,
  Bool-cases, lookup,
}
use takeln.Error.{dag_deadlock, ok}
use takeln.Checkpoint.{CheckpointMeta, Checkpointer, yielded, checkpoint_proof, checkpoint_id}
use takeln.Graph.{Graph}
use takeln.Dag.Data.{NodeStatus, pending, DagNode, Dag, restore_statuses, restore_node, status_of}
use takeln.Exec.Defs.{
  Exec, Outcome, hang, node_started, send, next_seq, emit, notify, push_record, evict, for_some,
}
use takeln.Exec.Starts.{starts}
use takeln.Context.{new_context}
use takeln.Node.{settle}
use takeln.Run.Call.{attempt_call}
use takeln.Run.Frame.{config_of, elapsed_since, save, check_checkpoint_size}
use takeln.Wave.Ready.{ready_from, is_ready, mark_running, set_status, left_names, done_ids}
use takeln.Wave.Inflight.{IsOrdered}
use takeln.Wave.Mild.{IsPlainStore}
use takeln.Wave.Task.{
  Stage, queued, calling, regular, Task, Turn, wave_site, callee_of, spawn_one, spawn_all,
  permits_held, holds_permit, has_permit, can_move, step_task, call_once, after_call, or_panic,
  status_text, cost_of_result,
}
use takeln.Wave.Collect.{
  Wave, get_dag, change_nodes, collect, take_output, observe_success, check_wave_budget, mark,
}
use takeln.Wave.Scheduler.{
  steps_left, total_left, behind, join_all, choose_from, or_first, choose, move_task, by_choice,
  take_turn,
}
use takeln.Wave.Merge.{merge_wave-Perm}
use takeln.Wave.Permits.{count_between, arrived, turned, spawned_within}
use takeln.Wave.Engine.{
  Progress, merge_wave, check_depth, check_dag_size, run_waves, run_round, dispatch, run_wave,
  on_failures, on_yielded, save_wave, by_wave, first_progress, run_dag,
}
use takeln.Wave.Resume.{resume_dag}
use takeln.Wave.Sound.{IsQuiescent, run_dag-IsOrdered, run_dag-ne-hang, run_dag-ne-deadlock}
use takeln.Wave.Settled.{resume_dag-settled}
use takeln.Tests.Samples.{
  Json, machine, publish, review, approval, approval_graph, started, Heads, heads, save_head,
  same_head,
}
use takeln.Tests.Steps.{two_steps, two_nodes, two_steps-build, two_steps-HasDistinctSteps}

-- Both steps add to the state.
abbrev wave_graph : Graph ℕ Json ℕ ℕ
wave_graph = record approval_graph { nodes = ("fetch", publish) ∷ ("parse", publish) ∷ [] }

abbrev add : ℕ → ℕ → ℕ
add a b = a + b

-- The scheduler takes the last task that can move.
abbrev last_first : ℕ → ℕ → Turn
last_first k i = record { pick = 1; panic = none }

abbrev two_started : Exec ℕ ℕ Heads
two_started = record (started []) { dag = two_nodes }

run_dag-IsOrdered_example :
    IsOrdered two_nodes.nodes
      (run_dag machine wave_graph heads add last_first "t1" 3 none 0 two_started).1.dag.nodes
run_dag-IsOrdered_example =
    run_dag-IsOrdered machine wave_graph heads add last_first "t1" 3 none 0 two_started

run_dag-ne-hang_example :
    (run_dag machine wave_graph heads add last_first "t1" 3 none 0 two_started).0 ≢ hang
run_dag-ne-hang_example =
    run_dag-ne-hang machine wave_graph heads add last_first "t1" 3 none 0 two_started (omega arith)

heads-IsPlainStore : IsPlainStore heads
unfolding save_head
heads-IsPlainStore = record {
  plain_head = λ t st. tt;
  plain_save = λ r p st. elim (Bool-cases (same_head p.expected_head (lookup r.thread_id st))) [
    | inl same ↦ rw same tt
    | inr other ↦ rw other tt
  ];
}

two_nodes-IsQuiescent : IsQuiescent two_nodes.nodes
two_nodes-IsQuiescent zero n at = ground (arith, at)
two_nodes-IsQuiescent (suc zero) n at = ground (arith, at)
two_nodes-IsQuiescent (suc (suc j)) n at = absurd (ground (arith, at))

run_dag-ne-deadlock_example :
    (run_dag machine wave_graph heads add last_first "t1" 3 none 0 two_started).0
    ≢ Outcome.fail (dag_deadlock "parse")
run_dag-ne-deadlock_example =
    run_dag-ne-deadlock machine wave_graph heads add last_first "t1" 3 none 0 two_started (λ k. k) 5
      two_steps two_nodes "parse" (λ j k e. e) two_steps-HasDistinctSteps two_steps-build refl
      two_nodes-IsQuiescent heads-IsPlainStore

abbrev results : Wave ℕ Json ℕ
results = record {
  completed = [];
  states = (1, 20) ∷ (0, 10) ∷ [];
  cost = 0;
  has_yielded = false;
  succeeded = [];
  failed = [];
  yield_request = none;
}

abbrev progress : Progress ℕ ℕ
progress = record {
  thread_id = "t1";
  state = 3;
  cancellation_token = none;
  running_cost_eur = 0;
  completed = [];
  is_first_wave = true;
  expected_head = none;
}

merge_wave-Perm_example : merge_wave (λ a b. a * 10 + b) 3 ((1, 2) ∷ (0, 1) ∷ []) ≡ 312
merge_wave-Perm_example =
    merge_wave-Perm (λ a b. a * 10 + b) 3 ((1, 2) ∷ (0, 1) ∷ []) ((0, 1) ∷ (1, 2) ∷ [])
      (Permᴰ.swap refl refl) ((omega arith, tt), (tt, tt))

abbrev fetch_node : DagNode
fetch_node = record { id = 1; step_type = "fetch"; depends_on = []; status = pending }

abbrev task_in : Stage ℕ Json ℕ → Task ℕ Json ℕ ℕ
task_in stage = record {
  idx = 0;
  node = fetch_node;
  site = wave_site wave_graph "t1" none 3 fetch_node;
  callee = regular publish;
  stage = stage;
}

-- The first turn starts the node.
abbrev first_turn : Exec ℕ ℕ Heads
first_turn = record two_started {
  env = 1;
  event_seq = 1;
  events = node_started "t1" "fetch" 0 0 ∷ [];
}

spawned :
    spawn_all wave_graph "t1" none 3 ((0, fetch_node) ∷ []) two_started
    ≡ (Outcome.done (task_in queued ∷ []), two_started)
unfolding spawn_all spawn_one callee_of
spawned = refl

spawned_within_example : count_between (task_in (calling 0 0) ∷ []) ≤ 64
unfolding spawn_all spawn_one callee_of take_turn by_choice choose choose_from or_first move_task
    step_task send next_seq has_permit permits_held holds_permit can_move wave_site
spawned_within_example =
    spawned_within machine wave_graph "t1" none 3 ((0, fetch_node) ∷ []) (task_in queued ∷ [])
      results (record { tasks = task_in (calling 0 0) ∷ []; wave = results }) two_started
      two_started first_turn spawned
      (turned (record { pick = 0; panic = none }) _ _ _ _ _ _ refl (arrived _ _))

-- A graph whose first node waits for an approval, while the second returns a state.
abbrev review_graph : Graph ℕ Json ℕ ℕ
review_graph = record approval_graph { nodes = ("review", review) ∷ ("publish", publish) ∷ [] }

abbrev both_with : NodeStatus → NodeStatus → Dag
both_with s t = record {
  id = 0;
  nodes =
      (record { id = 1; step_type = "review"; depends_on = []; status = s })
      ∷ (record { id = 2; step_type = "publish"; depends_on = []; status = t })
      ∷ [];
  created_at = 5;
}

abbrev first_first : ℕ → ℕ → Turn
first_first k i = record { pick = 0; panic = none }

-- What the second node returned, 13, is not in the state that the run returns, and the node counts as done.
yield_drops_results :
    let x = record (started []) { dag = both_with pending pending } in
    let (outcome, y) = run_dag machine review_graph heads add first_first "t1" 3 none 0 x in
    (outcome ≡ Outcome.done 3) × (y.dag ≡ both_with NodeStatus.yielded NodeStatus.done)
unfolding run_dag check_depth get_dag check_dag_size run_waves run_round dispatch ready_from
    is_ready run_wave change_nodes mark_running set_status spawn_all spawn_one callee_of wave_site
    config_of join_all total_left steps_left take_turn by_choice choose choose_from or_first behind
    has_permit permits_held holds_permit can_move move_task step_task call_once after_call
    attempt_call new_context settle elapsed_since status_text cost_of_result send next_seq collect
    take_output observe_success emit notify push_record evict check_wave_budget for_some mark
    on_failures on_yielded save_wave save check_checkpoint_size save_head same_head checkpoint_id
    checkpoint_proof left_names by_wave first_progress done_ids or_panic
yield_drops_results = (refl, refl)

-- The checkpoint of that run.
abbrev yielded_meta : CheckpointMeta Json
yielded_meta = record {
  checkpoint_id = "c1";
  thread_id = "t1";
  next_node = "review";
  graph_version = none;
  state_schema_version = none;
  status = yielded;
  created_at = 5;
  yield_request = some approval;
  claimed_interrupt = none;
  resolved_interrupt = none;
}

abbrev yielded_heads : Checkpointer ℕ Json ℕ Heads
yielded_heads = record heads {
  backend = record heads.backend {
    load_state = λ t st.
        (ok (some (3, yielded_meta, some (both_with NodeStatus.yielded NodeStatus.done))), st);
  };
}

resume_dag-settled_example :
    let x = record (started []) { dag = both_with pending pending } in
    let resumed = resume_dag machine review_graph yielded_heads add first_first "t1" none 0 x in
    (resumed.0 ≡ Outcome.done (some 3)) × (starts resumed.1.events ≡ 0)
unfolding restore_statuses restore_node status_of starts
resume_dag-settled_example =
    resume_dag-settled machine review_graph yielded_heads add first_first "t1" none 0
      (record (started []) { dag = both_with pending pending }) 3 yielded_meta
      (both_with NodeStatus.yielded NodeStatus.done) none [] [] refl refl refl (omega arith)
      (omega arith) refl
