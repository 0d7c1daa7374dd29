-- ===== src/Graph.antt =====
-- `Graph` and `GraphBuilder` of src/graph.rs: the configuration. What a run changes behind its shared
-- references (event counter, execution records) is in `takeln.Exec`.
pub mod Builder
pub mod Routes
use takeln.Base.{String, Option, none, some, List, [], ◌∷◌, lookup, insert, mem_str, if◌then◌else◌}
use takeln.Limits.{ResourceLimits, default_limits}
use takeln.Retry.{RetryPolicy, default_policy}
use takeln.Checkpoint.{CrashRecoveryPolicy, reset_to_pending}
use takeln.Node.{
  Node, DynamicNode, NodeConfig, Edge, unconditional, conditional, WaveFailurePolicy, fail_fast,
}

pub record Graph (S V C W : Type 0) : Type 0 where
  pub nodes : List (String × Node S V C W)
  pub dynamic_nodes : List (String × DynamicNode S V C W)
  pub edges : List (String × Edge S)
  pub retry_policy : RetryPolicy
  pub budget_eur : Option C
  pub interrupt_before : List String
  pub interrupt_after : List String
  pub crash_recovery_policy : CrashRecoveryPolicy
  pub node_configs : List (String × NodeConfig C)
  pub wave_failure_policy : WaveFailurePolicy
  pub resource_limits : ResourceLimits

-- `HashSet::insert`
abbrev insert_str : String → List String → List String
insert_str k ks = if mem_str k ks then ks else k ∷ ks

module _ {S V C W : Type 0} where
  -- `Graph::new`
  unfoldable pub new_graph : Graph S V C W
  new_graph = record {
    nodes = [];
    dynamic_nodes = [];
    edges = [];
    retry_policy = default_policy;
    budget_eur = none;
    interrupt_before = [];
    interrupt_after = [];
    crash_recovery_policy = reset_to_pending;
    node_configs = [];
    wave_failure_policy = fail_fast;
    resource_limits = default_limits;
  }

  unfoldable pub add_interrupt_before : String → Graph S V C W → Graph S V C W
  add_interrupt_before node g = record g { interrupt_before = insert_str node g.interrupt_before }

  unfoldable pub add_interrupt_after : String → Graph S V C W → Graph S V C W
  add_interrupt_after node g = record g { interrupt_after = insert_str node g.interrupt_after }

  unfoldable pub set_crash_recovery_policy : CrashRecoveryPolicy → Graph S V C W → Graph S V C W
  set_crash_recovery_policy policy g = record g { crash_recovery_policy = policy }

  unfoldable pub set_retry_policy : RetryPolicy → Graph S V C W → Graph S V C W
  set_retry_policy policy g = record g { retry_policy = policy }

  unfoldable pub set_budget_eur : C → Graph S V C W → Graph S V C W
  set_budget_eur budget g = record g { budget_eur = some budget }

  -- `Graph::add_node`, and the variants that wrap a closure.
  unfoldable pub add_node : String → Node S V C W → Graph S V C W → Graph S V C W
  add_node name node g = record g { nodes = insert name node g.nodes }

  unfoldable pub add_node_with_config :
      String → Node S V C W → NodeConfig C → Graph S V C W → Graph S V C W
  add_node_with_config name node config g = record g {
    nodes = insert name node g.nodes;
    node_configs = insert name config g.node_configs;
  }

  unfoldable pub set_wave_failure_policy : WaveFailurePolicy → Graph S V C W → Graph S V C W
  set_wave_failure_policy policy g = record g { wave_failure_policy = policy }

  unfoldable pub add_edge : (source target : String) → Graph S V C W → Graph S V C W
  add_edge source target g = record g { edges = insert source (unconditional target) g.edges }

  unfoldable pub add_conditional_edge : String → (S → String) → Graph S V C W → Graph S V C W
  add_conditional_edge source condition g = record g {
    edges = insert source (conditional condition) g.edges;
  }

  unfoldable pub add_dynamic_node : String → DynamicNode S V C W → Graph S V C W → Graph S V C W
  add_dynamic_node name node g = record g { dynamic_nodes = insert name node g.dynamic_nodes }

  unfoldable pub set_resource_limits : ResourceLimits → Graph S V C W → Graph S V C W
  set_resource_limits limits g = record g { resource_limits = limits }

  -- The target of the edge out of a node, at the state that it leaves; `none` where no edge is registered.
  unfoldable pub edge_target : Graph S V C W → String → S → Option String
  edge_target g name state = elim (lookup name g.edges) [
    | some (unconditional target) ↦ some target
    | some (conditional condition) ↦ some (condition state)
    | none ↦ none
  ]
