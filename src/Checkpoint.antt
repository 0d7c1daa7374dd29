-- ===== src/Checkpoint.antt =====
-- src/checkpoint.rs and src/checkpoint_meta.rs: what a checkpoint holds, and the trait `Checkpointer`
-- as a record of operations over a store. `S` is the graph's state, `V` stands for
-- `serde_json::Value`, `C` for costs, `St` for the store behind the trait.
use takeln.Base.{ℕ, String, Option, none, some, List, [], ◌∷◌, concat, unwrap_or}
use takeln.Hitl.{YieldRequest}
use takeln.Dag.Data.{Dag}
use takeln.Error.{execution_error, Result, ok, err}

pub data CheckpointStatus : Type 0 where
  complete running yielded failed interrupted : CheckpointStatus

pub record CheckpointMeta (V : Type 0) : Type 0 where
  pub checkpoint_id : String
  pub thread_id : String
  pub next_node : String
  pub graph_version : Option String
  pub state_schema_version : Option String
  pub status : CheckpointStatus
  pub created_at : ℕ
  pub yield_request : Option (YieldRequest V)
  pub claimed_interrupt : Option String
  pub resolved_interrupt : Option String

pub data RetentionPolicy : Type 0 where
  keep_all : RetentionPolicy
  keep_last : ℕ → RetentionPolicy
  older_than : ℕ → RetentionPolicy

pub data CrashRecoveryPolicy : Type 0 where
  reset_to_pending fail_fast skip_and_continue : CrashRecoveryPolicy

pub data ClaimResult : Type 0 where
  claimed in_progress already_completed : ClaimResult

pub record CheckpointProof : Type 0 where
  pub authorization_hash : Option String
  pub receipt_chain_count : ℕ
  pub receipt_chain_head : Option String
  pub expected_head : Option String

pub data CheckpointSave : Type 0 where
  created advanced idempotent_replay : (checkpoint_id : String) → CheckpointSave
  conflict : (actual_head : Option String) → CheckpointSave

-- The arguments that `save_state` and `save_state_bound` share.
pub record SaveRequest (S V : Type 0) : Type 0 where
  pub thread_id : String
  pub state : S
  pub next_node : String
  pub dag : Option Dag
  pub status : CheckpointStatus
  pub yield_request : Option (YieldRequest V)
  pub claimed_interrupt : Option String
  pub resolved_interrupt : Option String

-- What `load_state` returns: the state, its metadata and the DAG snapshot.
abbrev pub Loaded : Type 0 → Type 0 → Type 0
Loaded S V = S × CheckpointMeta V × Option Dag

-- The operations that every implementation of the trait gives.
pub record Backend (S V C St : Type 0) : Type 0 where
  pub save_state : SaveRequest S V → St → Result C String × St
  pub load_state : String → St → Result C (Option (Loaded S V)) × St
  pub load_version : String → String → St → Result C (Option (Loaded S V)) × St
  pub list_checkpoints : String → St → Result C (List (CheckpointMeta V)) × St
  pub delete_checkpoints : String → RetentionPolicy → St → Result C ℕ × St
  pub claim_interrupt : String → String → St → Result C ClaimResult × St

-- The whole trait: a backend with the two operations that have default bodies.
pub record Checkpointer (S V C St : Type 0) : Type 0 where
  pub backend : Backend S V C St
  pub current_head : String → St → Result C (Option String) × St
  pub save_state_bound : SaveRequest S V → CheckpointProof → St → Result C CheckpointSave × St

module _ {C St : Type 0} where
  unfoldable pub default_current_head : String → St → Result C (Option String) × St
  default_current_head thread_id st = (ok none, st)

  created_from : Result C String × St → Result C CheckpointSave × St
  created_from (ok checkpoint_id, st) = (ok (created checkpoint_id), st)
  created_from (err e, st) = (err e, st)

module _ {S V C St : Type 0} where
  unfoldable pub default_save_state_bound :
      Backend S V C St → SaveRequest S V → CheckpointProof → St → Result C CheckpointSave × St
  unfolding created_from
  default_save_state_bound b request proof st = created_from (b.save_state request st)

  -- A store without optimistic concurrency.
  unfoldable pub legacy : Backend S V C St → Checkpointer S V C St
  legacy b = record {
    backend = b;
    current_head = default_current_head;
    save_state_bound = default_save_state_bound b;
  }

-- `CheckpointSave::checkpoint_id`
unfoldable pub saved_id : CheckpointSave → Option String
saved_id (created i) = some i
saved_id (advanced i) = some i
saved_id (idempotent_replay i) = some i
saved_id (conflict _) = none

-- `checkpoint_proof` of src/graph.rs
unfoldable pub checkpoint_proof : Option String → CheckpointProof
checkpoint_proof expected_head = record {
  authorization_hash = none;
  receipt_chain_count = 0;
  receipt_chain_head = none;
  expected_head = expected_head;
}

-- `checkpoint_id` of src/graph.rs: a conflict is an error.
unfoldable pub checkpoint_id : {C : Type 0} → CheckpointSave → Result C String
checkpoint_id (created i) = ok i
checkpoint_id (advanced i) = ok i
checkpoint_id (idempotent_replay i) = ok i
checkpoint_id (conflict head) = err (
    execution_error
      (concat ("checkpoint head conflict; actual head: " ∷ unwrap_or head "<genesis>" ∷ [])))
