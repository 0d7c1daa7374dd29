-- ===== src/Run/Engine.antt =====
-- The loop of `Graph::run_inner` and `Graph::run` (src/graph.rs).
use takeln.Base.{
  ℕ, zero, suc, ◌+◌, true, false, not, ◌&&◌, String, ◌==◌, Option, none, some, lookup, mem_str,
  if◌then◌else◌,
}
use takeln.Error.{node_not_found, step_limit_exceeded}
use takeln.Checkpoint.{interrupted, Checkpointer}
use takeln.Context.{Host}
use takeln.Node.{Node, DynamicNode}
use takeln.Graph.{Graph}
use takeln.Exec.Defs.{
  node_started, graph_finished, on_graph_complete, Action, ◌>>=◌, ◌>>◌, pure, throw, ask, ask_store,
  send, notify, set_last_head,
}
use takeln.Run.Call.{Called, call_node, call_dynamic}
use takeln.Run.Frame.{Frame, Round, stop, again, save, frame_request, call_site}
use takeln.Run.Handlers.{on_result}

module _ {S V C W St : Type 0} (host : Host S V C W) (graph : Graph S V C W)
    (cp : Checkpointer S V C St) where
  -- The call of the current node, if it is registered; a dynamic node hides a node of its name.
  unfoldable pub start_node :
      Frame S V C → Action C W St (Called S V C) → Action C W St (Round S V C)
  start_node f call = do
    started_at ← ask host.utc_now
    send (node_started f.thread_id f.current_node_name started_at)
    called ← call
    on_result host graph cp f started_at called.attempt called.result

  unfoldable pub execute_by :
      Frame S V C
      → Option (DynamicNode S V C W)
      → Option (Node S V C W)
      → Action C W St (Round S V C)
  execute_by f (some node) registered =
      start_node f
        (call_dynamic host graph.nodes (call_site host graph f) node f.pending_resumed_input)
  execute_by f none (some node) =
      start_node f (call_node host (call_site host graph f) node f.pending_resumed_input)
  execute_by f none none = throw (node_not_found f.current_node_name)

  unfoldable pub execute_node : Frame S V C → Action C W St (Round S V C)
  execute_node f =
      execute_by f (lookup f.current_node_name graph.dynamic_nodes)
        (lookup f.current_node_name graph.nodes)

  unfoldable pub finish : Frame S V C → Action C W St (Round S V C)
  finish f = do
    notify (on_graph_complete f.thread_id f.running_cost_eur 0)
    send (graph_finished f.thread_id f.running_cost_eur)
    pure (stop f.state)

  -- The interrupt before a node: the state is saved for it, and the run stops.
  unfoldable pub interrupt : Frame S V C → Action C W St (Round S V C)
  interrupt f = do
    save host graph cp
        (frame_request f f.state f.current_node_name interrupted none f.resolved_interrupt)
        f.expected_head
    pure (stop f.state)

  -- One round, with the step already counted.
  unfoldable pub run_step : Frame S V C → Action C W St (Round S V C)
  run_step f =
      if f.current_node_name == "__END__"
      then finish f
      else if not f.is_first_step && mem_str f.current_node_name graph.interrupt_before
      then interrupt f
      else execute_node (record f { is_first_step = false })

  unfoldable pub by_round : (Frame S V C → Action C W St S) → Round S V C → Action C W St S
  by_round next (stop s) = pure s
  by_round next (again f) = next f

  -- The loop, by recursion on the steps that the limit leaves: `step_count + left` is the limit, and the
  -- source's test `step_count >= max_sequential_steps` holds when none is left.
  unfoldable pub run_loop : ℕ → Frame S V C → Action C W St S
  run_loop zero f =
      throw (step_limit_exceeded f.step_count graph.resource_limits.max_sequential_steps)
  run_loop (suc left) f = do
    round ← run_step (record f { step_count = f.step_count + 1 })
    by_round (run_loop left) round

  -- The frame of a run's first round.
  unfoldable pub first_frame :
      (thread_id : String)
      → S
      → (start_node : String) → Option ℕ
      → Option V
      → Option String
      → Option String
      → Frame S V C
  first_frame thread_id state start cancellation input resolved head = record {
    thread_id = thread_id;
    state = state;
    current_node_name = start;
    running_cost_eur = host.zero_cost;
    is_first_step = true;
    last_checkpoint_id = none;
    total_cost = host.zero_cost;
    step_count = 0;
    pending_resumed_input = input;
    expected_head = head;
    cancellation_token = cancellation;
    resolved_interrupt = resolved;
  }

  unfoldable pub run_inner :
      (thread_id : String)
      → S
      → (start_node : String) → Option ℕ
      → Option V
      → Option String
      → Action C W St S
  run_inner thread_id state start cancellation input resolved = do
    head ← ask_store (cp.current_head thread_id)
    set_last_head head
    run_loop graph.resource_limits.max_sequential_steps
        (first_frame thread_id state start cancellation input resolved head)

  -- `Graph::run`
  unfoldable pub run : (thread_id : String) → S → (start_node : String) → Option ℕ → Action C W St S
  run thread_id state start cancellation = run_inner thread_id state start cancellation none none
