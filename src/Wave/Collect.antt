-- ===== src/Wave/Collect.antt =====
-- How `Graph::run_dag` of src/graph.rs takes in the results of a wave, in the order of their arrival.
use takeln.Base.{
  ℕ, Bool, true, String, Option, none, some, List, [], ◌∷◌, ◌++◌, concat, unwrap_or, and_then,
  if◌then◌else◌,
}
use takeln.Error.{GraphError, yield, graph_error_text, TakelnError, execution_error}
use takeln.Hitl.{YieldRequest}
use takeln.Context.{Host}
use takeln.Node.{NodeMeta, NodeOutput, NodeResult, WaveFailurePolicy, fail_fast, continue_on_error}
use takeln.Graph.{Graph}
use takeln.Dag.Data.{NodeStatus, DagNode, Dag}
use takeln.Exec.Defs.{
  success, on_node_complete, Outcome, Action, ◌>>=◌, ◌>>◌, for_some, pure, throw, ask, emit, notify,
  push_record,
}
use takeln.Run.Frame.{config_of}
use takeln.Wave.Ready.{set_status}

-- What is known of the wave's results so far; `completed` is the whole run's.
pub record Wave (S V C : Type 0) : Type 0 where
  pub completed : List ℕ
  pub states : List (ℕ × S)
  pub cost : C
  pub has_yielded : Bool
  pub succeeded : List String
  pub failed : List (String × String)
  pub yield_request : Option (YieldRequest V)

module _ {C W St : Type 0} where
  unfoldable pub get_dag : Action C W St Dag
  get_dag x = (Outcome.done x.dag, x)

  -- `dag.nodes` is changed in place.
  unfoldable pub change_nodes : (List DagNode → List DagNode) → Action C W St (Unit {0})
  change_nodes f x = (Outcome.done tt, record x { dag = record x.dag { nodes = f x.dag.nodes } })

  unfoldable pub mark : ℕ → NodeStatus → Action C W St (Unit {0})
  unfolding change_nodes
  mark i status = change_nodes (set_status i status)

module _ {S V C W St : Type 0} (host : Host S V C W) (graph : Graph S V C W) where
  -- Span, metrics and history of a success: here the attempts and the duration are written as zero.
  unfoldable pub observe_success : (thread_id name : String) → NodeMeta C → Action C W St (Unit {0})
  observe_success thread_id name meta = do
    emit (record {
      thread_id = thread_id;
      node_name = name;
      checkpoint_id = none;
      attempt = 0;
      duration_ms = 0;
      cost_eur = meta.cost_eur;
      status = success;
      dag_id = none;
      error = none;
      meta = meta;
    })
    notify (on_node_complete name 0 success)
    started_at ← ask host.utc_now
    push_record graph.resource_limits.max_execution_records (record {
      node_name = name;
      started_at = started_at;
      duration_ms = 0;
      status = "success";
      cost_eur = meta.cost_eur;
      checkpoint_id = none;
      attempts = 0;
      actor = none;
      response_hash = none;
      tokens_in = meta.tokens_in;
      tokens_out = meta.tokens_out;
    })

  -- The per-node budget, on the cost of this call alone.
  unfoldable pub check_wave_budget : (name : String) → NodeMeta C → Action C W St (Unit {0})
  check_wave_budget name meta =
      let spent = unwrap_or meta.cost_eur host.zero_cost in
      for_some (and_then (config_of graph name) (λ c. c.budget_eur)) λ node_budget.
        if host.gt_cost spent node_budget
        then throw (TakelnError.budget_exceeded spent node_budget)
        else pure tt

  unfoldable pub take_output :
      (thread_id : String) → ℕ → DagNode → Wave S V C → NodeOutput S C → Action C W St (Wave S V C)
  take_output thread_id i n wave out = do
    observe_success thread_id n.step_type out.meta
    check_wave_budget n.step_type out.meta
    mark i NodeStatus.done
    pure (record wave {
      completed = n.id ∷ wave.completed;
      states = wave.states ++ (i, out.state) ∷ [];
      cost = host.add_cost wave.cost (unwrap_or out.meta.cost_eur host.zero_cost);
      succeeded = wave.succeeded ++ n.step_type ∷ [];
    })

  -- A failure that is not a spent budget ends the run, or is kept for the end of the wave.
  unfoldable pub by_policy :
      WaveFailurePolicy → DagNode → Wave S V C → String → Action C W St (Wave S V C)
  by_policy fail_fast n wave text =
      throw (execution_error (concat ("Node " ∷ n.step_type ∷ " failed: " ∷ text ∷ [])))
  by_policy continue_on_error n wave text =
      pure (record wave { failed = wave.failed ++ (n.step_type, text) ∷ [] })

  unfoldable pub take_error : DagNode → Wave S V C → GraphError V C → Action C W St (Wave S V C)
  take_error n wave (GraphError.budget_exceeded spent limit) =
      throw (TakelnError.budget_exceeded spent limit)
  take_error n wave e =
      by_policy graph.wave_failure_policy n wave (graph_error_text host.show_cost e)

  -- One result of `join_next`.
  unfoldable pub collect :
      (thread_id : String)
      → ℕ
      → DagNode
      → Wave S V C
      → NodeResult S V C
      → Action C W St (Wave S V C)
  collect thread_id i n wave (NodeResult.done out) = take_output thread_id i n wave out
  collect thread_id i n wave (NodeResult.failed (yield request)) = do
    mark i NodeStatus.yielded
    pure (record wave { has_yielded = true; yield_request = some request })
  collect thread_id i n wave (NodeResult.failed e) = do
    mark i NodeStatus.failed
    take_error n wave e
