-- ===== src/Store/Memory/Data.antt =====
-- The data of src/store/memory.rs. Identifiers and the time come from the machine that the store runs
-- on; the serialisation of the state is a parameter.
use takeln.Base.{ℕ, ◌⊎◌, List, [], Option, String, unwrap_or, lookup, insert}
use takeln.Hitl.{YieldRequest}
use takeln.Dag.Data.{Dag}
use takeln.Checkpoint.{CheckpointStatus}

pub record MemoryCheckpoint (V : Type 0) : Type 0 where
  pub checkpoint_id : String
  pub state : V
  pub next_node : String
  pub dag : Option Dag
  pub status : CheckpointStatus
  pub created_at : ℕ
  pub yield_request : Option (YieldRequest V)
  pub claimed_interrupt : Option String
  pub resolved_interrupt : Option String

-- The machine under the store: the supply of random identifiers, how many are drawn, and the clock.
pub record Machine : Type 0 where
  pub uuids : ℕ → String
  pub drawn : ℕ
  pub now : ℕ

-- The map from threads to their checkpoints, oldest first.
pub record MemoryStore (V : Type 0) : Type 0 where
  pub threads : List (String × List (MemoryCheckpoint V))
  pub machine : Machine

-- `serde_json`: an error is its text. `max_duration` is the longest duration that `chrono` takes, in
-- milliseconds.
pub record Serde (S V : Type 0) : Type 0 where
  pub to_value : S → V ⊎ String
  pub from_value : V → S ⊎ String
  pub max_duration : ℕ

module _ {V : Type 0} where
  -- The checkpoints of a thread; `or_default` for a thread that has none.
  abbrev pub checkpoints : String → MemoryStore V → List (MemoryCheckpoint V)
  checkpoints t st = unwrap_or (lookup t st.threads) []

  abbrev pub put_thread : String → List (MemoryCheckpoint V) → MemoryStore V → MemoryStore V
  put_thread t l st = record st { threads = insert t l st.threads }
