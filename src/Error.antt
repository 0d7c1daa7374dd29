-- ===== src/Error.antt =====
-- src/error.rs: the signals of a node and the errors of the runner. `C` stands for `f64` costs and
-- `V` for `serde_json::Value`; an index or a count is a natural number.
use takeln.Base.{ℕ, String, List, ◌∷◌, [], concat}
use takeln.Hitl.{YieldRequest}

pub data GraphError (V C : Type 0) : Type 0 where
  retryable : String → GraphError V C
  fatal : String → GraphError V C
  yield : YieldRequest V → GraphError V C
  budget_exceeded : (spent_eur limit_eur : C) → GraphError V C
  yield_in_dynamic_node : (interrupt_id : String) → GraphError V C

pub data TakelnError (C : Type 0) : Type 0 where
  node_not_found : String → TakelnError C
  checkpoint_error : String → TakelnError C
  budget_exceeded : (spent_eur limit_eur : C) → TakelnError C
  dag_deadlock : String → TakelnError C
  join_error : String → TakelnError C
  execution_error : String → TakelnError C
  serialization_error : String → TakelnError C
  deserialization_error : String → TakelnError C
  recursion_limit_exceeded : (depth limit : ℕ) → TakelnError C
  partial_wave_failure : (succeeded : List String) (failed : List (String × String)) → TakelnError C
  nothing_to_resume : String → TakelnError C
  invalid_resume : String → TakelnError C
  schema_validation_failed : (interrupt_id reason : String) → TakelnError C
  step_limit_exceeded : (steps limit : ℕ) → TakelnError C

-- `Result<A, TakelnError>`
pub data Result (C A : Type 0) : Type 0 where
  ok : A → Result C A
  err : TakelnError C → Result C A

-- `Display` for the signals of a node, given the rendering of a cost (`{:.4}`).
unfoldable pub graph_error_text : {V C : Type 0} → (C → String) → GraphError V C → String
graph_error_text show_cost (retryable m) = concat ("Retryable error: " ∷ m ∷ [])
graph_error_text show_cost (fatal m) = concat ("Fatal error: " ∷ m ∷ [])
graph_error_text show_cost (yield r) =
    concat ("Suspended/Yielded: [" ∷ r.interrupt_id ∷ "] " ∷ r.message ∷ [])
graph_error_text show_cost (GraphError.budget_exceeded spent limit) =
    concat
      ("Budget exceeded: spent " ∷ show_cost spent ∷ "€ of " ∷ show_cost limit ∷ "€ limit" ∷ [])
graph_error_text show_cost (yield_in_dynamic_node i) = concat (
    "HITL yield inside dynamic node is not supported (interrupt: '" ∷ i
    ∷ "'). Move the yielding node to a top-level graph node." ∷ [])
