-- ===== src/Store/Sqlite/Data.antt =====
-- The table of src/store/sqlite.rs and what the code takes from `rusqlite`, `serde_json` and `chrono`.
use takeln.Base.{ℕ, ◌⊎◌, Bool, List, Option, String}
use takeln.Hitl.{YieldRequest}
use takeln.Dag.Data.{Dag}
use takeln.Store.Memory.Data.{Machine}

-- A row of `takeln_checkpoints`: every column is text.
pub record Row : Type 0 where
  pub id : String
  pub thread_id : String
  pub state : String
  pub next_node : String
  pub dag : Option String
  pub status : String
  pub created_at : String
  pub yield_request : Option String
  pub claimed_interrupt : Option String
  pub resolved_interrupt : Option String

-- The rows, in the order in which they were inserted, and the machine under the database.
pub record Database : Type 0 where
  pub rows : List Row
  pub machine : Machine

-- The statements that sort by `created_at`.
pub data Statement : Type 0 where
  load_latest list_thread keep_latest select_latest update_latest : Statement

-- What the code calls. The engine sorts the rows that a statement selects: `ascending` for
-- `ORDER BY created_at ASC`, `descending` for `DESC`; how it orders equal times may differ from one
-- statement to another. `text_lt` compares text, `bind_count` is the error that binding a count gives
-- when it does not fit a column, `constraint` the text of a violated key. An error of `serde_json` is
-- its text, and `max_duration` is the longest duration that `chrono` takes, in milliseconds.
pub record Engine (S V : Type 0) : Type 0 where
  pub ascending : Statement → List Row → List Row
  pub descending : Statement → List Row → List Row
  pub text_lt : String → String → Bool
  pub bind_count : ℕ → Option String
  pub constraint : String
  pub to_rfc3339 : ℕ → String
  pub parse_from_rfc3339 : String → Option ℕ
  pub max_duration : ℕ
  pub state_to_string : S → String ⊎ String
  pub state_from_str : String → S ⊎ String
  pub dag_to_string : Dag → String ⊎ String
  pub dag_from_str : String → Dag ⊎ String
  pub request_to_string : YieldRequest V → String ⊎ String
  pub request_from_str : String → YieldRequest V ⊎ String
