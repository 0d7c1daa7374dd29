-- ===== src/Run/Frame.antt =====
-- The locals of the loop of `Graph::run_inner` (src/graph.rs), the durable write, and the parts of one
-- round.
use takeln.Base.{
  ℕ, ◌-◌, Bool, String, Option, none, [], ◌∷◌, concat, lookup, ltb, unwrap_or, and_then,
  if◌then◌else◌,
}
use mathlib.Core.Option
use takeln.Error.{execution_error}
use takeln.Hitl.{YieldRequest}
use takeln.Checkpoint.{CheckpointStatus, SaveRequest, Checkpointer, checkpoint_id, checkpoint_proof}
use takeln.Context.{Host}
use takeln.Node.{NodeMeta, NodeConfig}
use takeln.Graph.{Graph}
use takeln.Exec.Defs.{
  node_finished, SpanStatus, Action, ◌>>=◌, ◌>>◌, pure, throw, lift, ask, ask_store, send, emit,
}
use takeln.Run.Call.{CallSite}

pub record Frame (S V C : Type 0) : Type 0 where
  pub thread_id : String
  pub state : S
  pub current_node_name : String
  pub running_cost_eur : C
  pub is_first_step : Bool
  pub last_checkpoint_id : Option String
  pub total_cost : C
  pub step_count : ℕ
  pub pending_resumed_input : Option V
  pub expected_head : Option String
  pub cancellation_token : Option ℕ
  pub resolved_interrupt : Option String

-- How a round of the loop ends: `break` with a state, or another round.
pub data Round (S V C : Type 0) : Type 0 where
  stop : S → Round S V C
  again : Frame S V C → Round S V C

module _ {S V C : Type 0} where
  -- The write at the end of a round, at a yield and at an interrupt.
  unfoldable pub frame_request :
      Frame S V C
      → S
      → String
      → CheckpointStatus
      → Option (YieldRequest V)
      → Option String
      → SaveRequest S V
  frame_request f state next_node status request resolved = record {
    thread_id = f.thread_id;
    state = state;
    next_node = next_node;
    dag = none;
    status = status;
    yield_request = request;
    claimed_interrupt = none;
    resolved_interrupt = resolved;
  }

module _ {S V C W : Type 0} (graph : Graph S V C W) where
  unfoldable pub config_of : String → Option (NodeConfig C)
  config_of name = lookup name graph.node_configs

module _ {S V C W : Type 0} (host : Host S V C W) (graph : Graph S V C W) where
  -- The effective settings of the current node.
  unfoldable pub call_site : Frame S V C → CallSite S C
  call_site f = record {
    thread_id = f.thread_id;
    node_name = f.current_node_name;
    state = f.state;
    last_checkpoint_id = f.last_checkpoint_id;
    budget_remaining_eur = Option.map (λ b. host.sub_cost b f.total_cost) graph.budget_eur;
    cancellation = f.cancellation_token;
    retry =
        unwrap_or (and_then (config_of graph f.current_node_name) (λ c. c.retry_policy))
          graph.retry_policy;
    timeout = and_then (config_of graph f.current_node_name) (λ c. c.timeout);
  }

module _ {S V C W St : Type 0} (host : Host S V C W) (graph : Graph S V C W) where
  -- `check_checkpoint_size`; a state that does not serialise counts as empty.
  unfoldable pub check_checkpoint_size : S → Action C W St (Unit {0})
  check_checkpoint_size state =
      let size = unwrap_or (host.json_len state) 0 in
      let limit = graph.resource_limits.max_checkpoint_bytes in
      if ltb limit size
      then throw (
          execution_error (
            concat (
              "Checkpoint payload "
              ∷ host.show_nat size
              ∷ " bytes exceeds max_checkpoint_bytes limit of "
              ∷ host.show_nat limit
              ∷ [])))
      else pure tt

  -- Every durable write of a run: the size check, the write against the expected head, and the new
  -- checkpoint's identifier; a conflict is an error.
  unfoldable pub save :
      Checkpointer S V C St → SaveRequest S V → Option String → Action C W St String
  save cp request expected_head = do
    check_checkpoint_size request.state
    saved ← ask_store (cp.save_state_bound request (checkpoint_proof expected_head))
    lift (checkpoint_id saved)

module _ {S V C W St : Type 0} (host : Host S V C W) where
  -- The milliseconds since the start of the round, not below zero.
  unfoldable pub elapsed_since : ℕ → Action C W St ℕ
  elapsed_since started_at = do now ← ask host.utc_now; pure (now - started_at)

module _ {S V C W St : Type 0} where
  unfoldable pub send_finished : Frame S V C → ℕ → String → Option C → Action C W St (Unit {0})
  send_finished f duration_ms status cost =
      send (node_finished f.thread_id f.current_node_name duration_ms status cost)

  unfoldable pub emit_span :
      Frame S V C
      → ℕ
      → ℕ
      → Option C
      → SpanStatus
      → Option String
      → NodeMeta C
      → Action C W St (Unit {0})
  emit_span f attempt duration_ms cost status error meta = emit (record {
    thread_id = f.thread_id;
    node_name = f.current_node_name;
    checkpoint_id = none;
    attempt = attempt;
    duration_ms = duration_ms;
    cost_eur = cost;
    status = status;
    dag_id = none;
    error = error;
    meta = meta;
  })
