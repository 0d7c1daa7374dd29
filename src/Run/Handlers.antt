-- ===== src/Run/Handlers.antt =====
-- The arms of `match call_result` in `Graph::run_inner` (src/graph.rs).
use takeln.Base.{
  ℕ, String, Option, none, some, [], ◌∷◌, concat, mem_str, unwrap_or, and_then, if◌then◌else◌,
}
use takeln.Error.{
  GraphError, retryable, fatal, yield, yield_in_dynamic_node, TakelnError, execution_error,
}
use takeln.Hitl.{YieldRequest}
use takeln.Checkpoint.{complete, yielded, Checkpointer}
use takeln.Context.{Host}
use takeln.Node.{NodeMeta, default_meta, NodeResult, NodeOutput, done, failed}
use takeln.Graph.{Graph, edge_target}
use takeln.Exec.Defs.{
  success, error, cancelled, on_node_complete, on_checkpoint_saved, Action, ◌>>=◌, ◌>>◌, for_some,
  pure, throw, notify, set_last_head, push_record,
}
use takeln.Run.Frame.{
  Frame, Round, stop, again, save, frame_request, config_of, elapsed_since, send_finished,
  emit_span,
}

module _ {S V C W St : Type 0} (host : Host S V C W) (graph : Graph S V C W)
    (cp : Checkpointer S V C St) where
  abbrev cost_of : NodeMeta C → C
  cost_of meta = unwrap_or meta.cost_eur host.zero_cost

  -- The text of both budget errors' spans.
  abbrev budget_text : C → C → String
  budget_text spent limit = concat (
      "Budget exceeded: spent "
      ∷ host.show_cost spent
      ∷ "€ of "
      ∷ host.show_cost limit
      ∷ "€ limit"
      ∷ [])

  -- The per-node budget, on the cost of this call alone.
  unfoldable pub check_node_budget : Frame S V C → ℕ → NodeMeta C → Action C W St (Unit {0})
  check_node_budget f duration_ms meta =
      for_some (and_then (config_of graph f.current_node_name) (λ c. c.budget_eur)) λ node_budget.
        if host.gt_cost (cost_of meta) node_budget
        then (do
          send_finished f duration_ms "failed" meta.cost_eur
          throw (TakelnError.budget_exceeded (cost_of meta) node_budget))
        else pure tt

  -- The graph's budget, on the running cost of the run.
  unfoldable pub check_budget :
      Frame S V C → (attempt duration_ms : ℕ) → NodeMeta C → C → Action C W St (Unit {0})
  check_budget f attempt duration_ms meta running_cost = for_some graph.budget_eur λ budget.
      if host.gt_cost running_cost budget
      then (do
        emit_span f attempt duration_ms (some running_cost) error
            (some (budget_text running_cost budget)) default_meta
        send_finished f duration_ms "failed" meta.cost_eur
        throw (TakelnError.budget_exceeded running_cost budget))
      else pure tt

  -- Span, metrics, history and event of a success.
  unfoldable pub record_success :
      Frame S V C → (started_at attempt duration_ms : ℕ) → NodeMeta C → Action C W St (Unit {0})
  record_success f started_at attempt duration_ms meta = do
    emit_span f attempt duration_ms meta.cost_eur success none meta
    notify (on_node_complete f.current_node_name duration_ms success)
    push_record graph.resource_limits.max_execution_records (record {
      node_name = f.current_node_name;
      started_at = started_at;
      duration_ms = duration_ms;
      status = "success";
      cost_eur = meta.cost_eur;
      checkpoint_id = none;
      attempts = attempt;
      actor = none;
      response_hash = none;
      tokens_in = meta.tokens_in;
      tokens_out = meta.tokens_out;
    })
    send_finished f duration_ms "success" meta.cost_eur

  -- The node's event, or the edge at the new state, or the end.
  unfoldable pub route : String → NodeOutput S C → String
  route name out = unwrap_or out.event (unwrap_or (edge_target graph name out.state) "__END__")

  -- `Ok(out)`: budgets, observation, the checkpoint for the next node, and the interrupt after the node.
  unfoldable pub on_success :
      Frame S V C → (started_at attempt : ℕ) → NodeOutput S C → Action C W St (Round S V C)
  on_success f started_at attempt out = do
    duration_ms ← elapsed_since host started_at
    let running_cost = host.add_cost f.running_cost_eur (cost_of out.meta)
    check_node_budget f duration_ms out.meta
    check_budget f attempt duration_ms out.meta running_cost
    record_success f started_at attempt duration_ms out.meta
    let next_node = route f.current_node_name out
    id ←
        save host graph cp (frame_request f out.state next_node complete none f.resolved_interrupt)
          f.expected_head
    set_last_head (some id)
    notify (on_checkpoint_saved f.thread_id id)
    if mem_str f.current_node_name graph.interrupt_after
        then pure (stop out.state)
        else pure (
            again (record f {
              state = out.state;
              current_node_name = next_node;
              running_cost_eur = running_cost;
              total_cost = running_cost;
              last_checkpoint_id = some id;
              expected_head = some id;
              pending_resumed_input = none;
            }))

  -- `Err(Yield)`: the state from before the call is saved, to resume at this node.
  unfoldable pub on_yield :
      Frame S V C → (started_at attempt : ℕ) → YieldRequest V → Action C W St (Round S V C)
  on_yield f started_at attempt request = do
    duration_ms ← elapsed_since host started_at
    emit_span f attempt duration_ms none cancelled (some request.message) default_meta
    send_finished f duration_ms "yielded" none
    save host graph cp (frame_request f f.state f.current_node_name yielded (some request) none)
        f.expected_head
    pure (stop f.state)

  -- A failure that is not a yield: it is observed and ends the run.
  unfoldable pub observe_failure :
      Frame S V C
      → (started_at attempt : ℕ) → Option C
      → String
      → TakelnError C
      → Action C W St (Round S V C)
  observe_failure f started_at attempt cost msg e = do
    duration_ms ← elapsed_since host started_at
    emit_span f attempt duration_ms cost error (some msg) default_meta
    send_finished f duration_ms "failed" none
    throw e

  -- The four arms for errors, and the arm for a yield.
  unfoldable pub on_error :
      Frame S V C → (started_at attempt : ℕ) → GraphError V C → Action C W St (Round S V C)
  on_error f started_at attempt (yield request) = on_yield f started_at attempt request
  on_error f started_at attempt (retryable msg) = observe_failure f started_at attempt none msg (
      execution_error (
        concat
          ("Node " ∷ f.current_node_name ∷ " failed (retryable) after max attempts: " ∷ msg ∷ [])))
  on_error f started_at attempt (fatal msg) =
      observe_failure f started_at attempt none msg
        (execution_error (concat ("Node " ∷ f.current_node_name ∷ " failed fatally: " ∷ msg ∷ [])))
  on_error f started_at attempt (GraphError.budget_exceeded spent limit) =
      observe_failure f started_at 0 (some spent) (budget_text spent limit)
        (TakelnError.budget_exceeded spent limit)
  on_error f started_at attempt (yield_in_dynamic_node interrupt_id) = throw (
      execution_error (
        concat (
          "HITL yield inside dynamic node is not supported (node: '" ∷ f.current_node_name
          ∷ "', interrupt: '" ∷ interrupt_id
          ∷ "'). Move the yielding node to a top-level graph node." ∷ [])))

  unfoldable pub on_result :
      Frame S V C → (started_at attempt : ℕ) → NodeResult S V C → Action C W St (Round S V C)
  on_result f started_at attempt (done out) = on_success f started_at attempt out
  on_result f started_at attempt (failed e) = on_error f started_at attempt e
