-- ===== src/Node/Children.antt =====
-- The children of a dynamic node, `ChildRunner` of src/dynamic.rs.
use takeln.Base.{
  String, Option, none, some, lookup, ◌≢◌, inr, ◌⊎◌, ◌≡◌, ap, refl, Bool, true, false, arith,
}
use takeln.Hitl.{YieldRequest}
use takeln.Error.{GraphError, retryable, fatal, yield, yield_in_dynamic_node}
use takeln.Context.{Host, NodeContext}
use takeln.Node.{
  NodeResult, done, failed, ChildRunner, forbid_yield, Node, call_child, run_child, run_child_state,
  state_of,
}

module _ {S V C : Type 0} where
  abbrev yields : S ⊎ GraphError V C → Bool
  yields (inr (yield request)) = true
  yields _ = false

  forbid_yield_lem : (r : NodeResult S V C) → yields (state_of (forbid_yield r)) ≡ false
  unfolding state_of forbid_yield
  forbid_yield_lem (done out) = refl
  forbid_yield_lem (failed (retryable msg)) = refl
  forbid_yield_lem (failed (fatal msg)) = refl
  forbid_yield_lem (failed (yield request)) = refl
  forbid_yield_lem (failed (GraphError.budget_exceeded a b)) = refl
  forbid_yield_lem (failed (yield_in_dynamic_node i)) = refl

module _ {S V C W : Type 0} (host : Host S V C W) where
  call_child_lem :
      (child_name : String) (ctx : NodeContext V C) (state : S) (node : Option (Node S V C W))
      (w : W)
      → yields (state_of (call_child host child_name ctx state node w).0) ≡ false
  unfolding call_child state_of
  call_child_lem child_name ctx state none w = refl
  call_child_lem child_name ctx state (some node) w = forbid_yield_lem _

  -- A child that a dynamic node runs never yields, whatever is registered under the name and returned.
  pub run_child_state-ne-yield :
      (runner : ChildRunner S V C W) (child_name : String) (ctx : NodeContext V C) (state : S)
      (w : W) (request : YieldRequest V)
      → (run_child_state host runner child_name ctx state w).0 ≢ inr (yield request)
  unfolding run_child_state run_child
  run_child_state-ne-yield runner child_name ctx state w request e =
      ground
        (arith, ap yields e, call_child_lem child_name ctx state (lookup child_name runner.nodes) w)
