-- ===== src/Store/Memory.antt =====
-- src/store/memory.rs: `InMemoryCheckpointer`. The mutex makes each operation atomic, so an operation
-- is a function from the store to its answer and the new store.
pub mod Data
pub mod Ops
pub mod Claim
pub mod SingleWinner
pub mod Locked
pub mod History
use takeln.Checkpoint.{Backend, Checkpointer, legacy}
use takeln.Store.Memory.Data.{MemoryStore, Serde}
use takeln.Store.Memory.Ops.{
  save_state, load_state, load_version, list_checkpoints, delete_checkpoints,
}
use takeln.Store.Memory.Claim.{claim_interrupt}

module _ {S V C : Type 0} (serde : Serde S V) where
  -- The store behind the trait; it has no optimistic concurrency.
  unfoldable pub backend : Backend S V C (MemoryStore V)
  backend = record {
    save_state = save_state serde;
    load_state = load_state serde;
    load_version = load_version serde;
    list_checkpoints = list_checkpoints;
    delete_checkpoints = delete_checkpoints serde.max_duration;
    claim_interrupt = claim_interrupt;
  }

  unfoldable pub memory_checkpointer : Checkpointer S V C (MemoryStore V)
  unfolding legacy backend
  memory_checkpointer = legacy backend
