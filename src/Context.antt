-- ===== src/Context.antt =====
-- src/context.rs: the context of a node's call, and the machine that the graph runs on. `W` is the state of
-- everything outside the graph: the clock, the randomness, and what the bodies of the nodes see.
use takeln.Error.{TakelnError}
use takeln.Base.{ℕ, Bool, String, Option, none, [], ◌∷◌, concat, unwrap_or}

-- What the graph takes from its libraries: time, random identifiers and numbers, sleeping, rendering, the
-- length of a state in JSON, the arithmetic of `f64` costs, and hashes.
pub record Host (S V C W : Type 0) : Type 0 where
  pub utc_now : W → ℕ × W
  pub new_v4 : W → String × W
  pub random : W → ℕ × W
  pub sleep : ℕ → W → W
  pub new_v5 : String → String
  pub json_len : S → Option ℕ
  pub response_hash : V → String
  pub show_nat : ℕ → String
  pub show_duration : ℕ → String
  pub show_cost : C → String
  pub error_text : TakelnError C → String
  pub zero_cost : C
  pub add_cost : C → C → C
  pub sub_cost : C → C → C
  pub gt_cost : C → C → Bool

pub record NodeContext (V C : Type 0) : Type 0 where
  pub thread_id : String
  pub node_name : String
  pub attempt : ℕ
  pub execution_id : String
  pub attempt_id : String
  pub last_checkpoint_id : Option String
  pub budget_remaining_eur : Option C
  pub cancellation : Option ℕ
  pub resumed_input : Option V

module _ {S V C W : Type 0} (host : Host S V C W) where
  -- The key that a node's external effects are deduplicated by.
  unfoldable pub execution_id : (thread_id node_name : String) → Option String → String
  execution_id thread_id node_name last_checkpoint_id =
      host.new_v5
        (concat (thread_id ∷ ":" ∷ node_name ∷ ":" ∷ unwrap_or last_checkpoint_id "initial" ∷ []))

  -- `NodeContext::new`
  unfoldable pub new_context :
      (thread_id node_name : String)
      → (attempt : ℕ) → (last_checkpoint_id : Option String) → (budget_remaining_eur : Option C)
      → (cancellation : Option ℕ) → (resumed_input : Option V) → W
      → NodeContext V C × W
  unfolding execution_id
  new_context thread_id node_name attempt last budget cancellation input w =
      let (attempt_id, w') = host.new_v4 w in
      (
        record {
          thread_id = thread_id;
          node_name = node_name;
          attempt = attempt;
          execution_id = execution_id thread_id node_name last;
          attempt_id = attempt_id;
          last_checkpoint_id = last;
          budget_remaining_eur = budget;
          cancellation = cancellation;
          resumed_input = input;
        },
        w',
      )

  -- `NodeContext::default`
  unfoldable pub default_context : W → NodeContext V C × W
  default_context w =
      let (execution_id, w') = host.new_v4 w in
      let (attempt_id, w'') = host.new_v4 w' in
      (
        record {
          thread_id = "default";
          node_name = "default";
          attempt = 0;
          execution_id = execution_id;
          attempt_id = attempt_id;
          last_checkpoint_id = none;
          budget_remaining_eur = none;
          cancellation = none;
          resumed_input = none;
        },
        w'',
      )
