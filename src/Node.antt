-- ===== src/Node.antt =====
-- Nodes: their outputs and metadata, how a call ends, per-node configuration, edges and dynamic nodes
-- (src/graph.rs, src/dynamic.rs).
pub mod Children
use takeln.Base.{
  ℕ, Bool, String, Option, none, some, List, [], ◌∷◌, concat, lookup, ◌⊎◌, inl, inr, if◌then◌else◌,
}
use takeln.Hitl.{simple}
use takeln.Error.{GraphError, fatal, yield, yield_in_dynamic_node}
use takeln.Context.{Host, NodeContext, new_context}
use takeln.Retry.{RetryPolicy}

pub record NodeMeta (C : Type 0) : Type 0 where
  pub tokens_in : Option ℕ
  pub tokens_out : Option ℕ
  pub cost_eur : Option C
  pub model : Option String

-- `NodeMeta::default`
abbrev pub default_meta : {C : Type 0} → NodeMeta C
default_meta = record { tokens_in = none; tokens_out = none; cost_eur = none; model = none }

-- `NodeMeta::llm`: the cost in `f64` is a parameter.
unfoldable pub llm :
    {C : Type 0}
    → (token_cost : ℕ → ℕ → C) → (tokens_in tokens_out : ℕ) → (model : String) → NodeMeta C
llm token_cost tokens_in tokens_out model = record {
  tokens_in = some tokens_in;
  tokens_out = some tokens_out;
  cost_eur = some (token_cost tokens_in tokens_out);
  model = some model;
}

pub record NodeOutput (S C : Type 0) : Type 0 where
  pub state : S
  pub event : Option String
  pub meta : NodeMeta C

module _ {S C : Type 0} where
  -- `NodeOutput::bare`
  unfoldable pub bare : S → NodeOutput S C
  bare state = record { state = state; event = none; meta = default_meta }

  -- `NodeOutput::with_llm`; `token_cost` is the cost of tokens in and out.
  unfoldable pub with_llm :
      (token_cost : ℕ → ℕ → C) → S → (tokens_in tokens_out : ℕ) → (model : String) → NodeOutput S C
  unfolding llm
  with_llm token_cost state tokens_in tokens_out model = record {
    state = state;
    event = none;
    meta = llm token_cost tokens_in tokens_out model;
  }

  unfoldable pub with_event : NodeOutput S C → String → NodeOutput S C
  with_event out event = record out { event = some event }

-- `Result<NodeOutput<S>, GraphError>`
pub data NodeResult (S V C : Type 0) : Type 0 where
  done : NodeOutput S C → NodeResult S V C
  failed : GraphError V C → NodeResult S V C

-- How an awaited call ends: what the body returns, and whether the timer or the cancellation is what the
-- `select!` sees first, where the call runs under one.
pub record Awaited (S V C : Type 0) : Type 0 where
  pub result : NodeResult S V C
  pub elapsed : Bool
  pub cancelled : Bool

abbrev pub Node : Type 0 → Type 0 → Type 0 → Type 0 → Type 0
Node S V C W = NodeContext V C → S → W → Awaited S V C × W

pub record NodeConfig (C : Type 0) : Type 0 where
  pub retry_policy : Option RetryPolicy
  pub timeout : Option ℕ
  pub budget_eur : Option C

pub data WaveFailurePolicy : Type 0 where
  fail_fast continue_on_error : WaveFailurePolicy

pub data Edge (S : Type 0) : Type 0 where
  unconditional : String → Edge S
  conditional : (S → String) → Edge S

pub record ChildRunner (S V C W : Type 0) : Type 0 where
  pub nodes : List (String × Node S V C W)

abbrev pub DynamicNode : Type 0 → Type 0 → Type 0 → Type 0 → Type 0
DynamicNode S V C W = NodeContext V C → S → ChildRunner S V C W → W → NodeResult S V C × W

module _ {S V C : Type 0} where
  -- The outcome of a call under an optional timeout and an optional cancellation token: the four
  -- branches of the source.
  unfoldable pub settle :
      (show_duration : ℕ → String)
      → (node_name : String) → (timeout token : Option ℕ) → Awaited S V C
      → NodeResult S V C
  unfolding simple
  settle show name timeout token a =
      let finished : NodeResult S V C = elim timeout [
        | none ↦ a.result
        | some t ↦
            if a.elapsed
            then failed (fatal (concat ("Node '" ∷ name ∷ "' timed out after " ∷ show t ∷ [])))
            else a.result
      ] in
      elim token [
        | none ↦ finished
        | some _ ↦ if a.cancelled then failed (yield (simple "Cancelled")) else finished
      ]

  -- A child of a dynamic node cannot yield.
  unfoldable pub forbid_yield : NodeResult S V C → NodeResult S V C
  forbid_yield (done out) = done out
  forbid_yield (failed (yield request)) = failed (yield_in_dynamic_node request.interrupt_id)
  forbid_yield (failed e) = failed e

  -- The state alone, or the error.
  unfoldable pub state_of : NodeResult S V C → S ⊎ GraphError V C
  state_of (done out) = inl out.state
  state_of (failed e) = inr e

module _ {S V C W : Type 0} (host : Host S V C W) where
  -- The child that is registered, if any, with a context that inherits the parent's identity.
  unfoldable pub call_child :
      String → NodeContext V C → S → Option (Node S V C W) → W → NodeResult S V C × W
  unfolding forbid_yield
  call_child child_name ctx state none w =
      (failed (fatal (concat ("Child node '" ∷ child_name ∷ "' not found in graph" ∷ []))), w)
  call_child child_name ctx state (some node) w =
      let (child_ctx, w') =
        new_context host ctx.thread_id child_name 0 ctx.last_checkpoint_id ctx.budget_remaining_eur
          ctx.cancellation none w in
      let (awaited, w'') = node child_ctx state w' in (forbid_yield awaited.result, w'')

  -- `ChildRunner::run_child`
  unfoldable pub run_child :
      ChildRunner S V C W → String → NodeContext V C → S → W → NodeResult S V C × W
  unfolding call_child
  run_child runner child_name ctx state w =
      call_child child_name ctx state (lookup child_name runner.nodes) w

  -- `ChildRunner::run_child_state`
  unfoldable pub run_child_state :
      ChildRunner S V C W → String → NodeContext V C → S → W → (S ⊎ GraphError V C) × W
  unfolding state_of run_child
  run_child_state runner child_name ctx state w =
      let (r, w') = run_child runner child_name ctx state w in (state_of r, w')
