-- ===== src/Graph/Builder.antt =====
-- `GraphBuilder` of src/graph.rs, and the closures that are registered as nodes. The span emitter and the
-- metrics hook are not part of the model's graph: their calls are recorded.
use takeln.Base.{String}
use takeln.Limits.{ResourceLimits}
use takeln.Retry.{RetryPolicy}
use takeln.Checkpoint.{CrashRecoveryPolicy}
use takeln.Node.{Awaited, Node, DynamicNode, NodeConfig, WaveFailurePolicy}
use takeln.Graph.{
  Graph, new_graph, add_node, add_node_with_config, add_edge, add_conditional_edge,
  set_retry_policy, set_budget_eur, set_crash_recovery_policy, set_wave_failure_policy,
  add_interrupt_before, add_interrupt_after, add_dynamic_node, set_resource_limits,
}

pub record GraphBuilder (S V C W : Type 0) : Type 0 where
  pub graph : Graph S V C W

module _ {S V C W : Type 0} where
  -- `SimpleFnNode::call`: the context is not handed on.
  unfoldable pub ignore_context : (S → W → Awaited S V C × W) → Node S V C W
  ignore_context f ctx state = f state

  unfoldable pub add_simple_fn_node :
      String → (S → W → Awaited S V C × W) → Graph S V C W → Graph S V C W
  unfolding ignore_context
  add_simple_fn_node name f g = add_node name (ignore_context f) g

  -- `Graph::builder`
  unfoldable pub graph_builder : GraphBuilder S V C W
  graph_builder = record { graph = new_graph }

  unfoldable pub node : String → Node S V C W → GraphBuilder S V C W → GraphBuilder S V C W
  node name n b = record b { graph = add_node name n b.graph }

  unfoldable pub node_with_config :
      String → Node S V C W → NodeConfig C → GraphBuilder S V C W → GraphBuilder S V C W
  node_with_config name n config b = record b { graph = add_node_with_config name n config b.graph }

  unfoldable pub edge : (source target : String) → GraphBuilder S V C W → GraphBuilder S V C W
  edge source target b = record b { graph = add_edge source target b.graph }

  unfoldable pub conditional_edge :
      String → (S → String) → GraphBuilder S V C W → GraphBuilder S V C W
  conditional_edge source condition b = record b {
    graph = add_conditional_edge source condition b.graph;
  }

  unfoldable pub retry_policy : RetryPolicy → GraphBuilder S V C W → GraphBuilder S V C W
  retry_policy policy b = record b { graph = set_retry_policy policy b.graph }

  unfoldable pub budget_eur : C → GraphBuilder S V C W → GraphBuilder S V C W
  budget_eur budget b = record b { graph = set_budget_eur budget b.graph }

  unfoldable pub crash_recovery_policy :
      CrashRecoveryPolicy → GraphBuilder S V C W → GraphBuilder S V C W
  crash_recovery_policy policy b = record b { graph = set_crash_recovery_policy policy b.graph }

  unfoldable pub wave_failure_policy :
      WaveFailurePolicy → GraphBuilder S V C W → GraphBuilder S V C W
  wave_failure_policy policy b = record b { graph = set_wave_failure_policy policy b.graph }

  unfoldable pub interrupt_before : String → GraphBuilder S V C W → GraphBuilder S V C W
  interrupt_before name b = record b { graph = add_interrupt_before name b.graph }

  unfoldable pub interrupt_after : String → GraphBuilder S V C W → GraphBuilder S V C W
  interrupt_after name b = record b { graph = add_interrupt_after name b.graph }

  unfoldable pub simple_fn_node :
      String → (S → W → Awaited S V C × W) → GraphBuilder S V C W → GraphBuilder S V C W
  simple_fn_node name f b = record b { graph = add_simple_fn_node name f b.graph }

  unfoldable pub dynamic_node :
      String → DynamicNode S V C W → GraphBuilder S V C W → GraphBuilder S V C W
  dynamic_node name n b = record b { graph = add_dynamic_node name n b.graph }

  unfoldable pub resource_limits : ResourceLimits → GraphBuilder S V C W → GraphBuilder S V C W
  resource_limits limits b = record b { graph = set_resource_limits limits b.graph }

  unfoldable pub build : GraphBuilder S V C W → Graph S V C W
  build b = b.graph
