-- ===== src/Store/Sqlite.antt =====
-- src/store/sqlite.rs: `SqliteCheckpointer`. The connection's mutex makes each operation atomic, so an
-- operation is a function from the database to its answer and the new database.
pub mod Data
pub mod Ops
pub mod Delete
pub mod Claim
pub mod SingleWinner
pub mod RoundTrip
pub mod Keys
pub mod Isolation
pub mod Resolved
use takeln.Base.{[]}
use takeln.Checkpoint.{Backend, Checkpointer, legacy}
use takeln.Store.Memory.Data.{Machine}
use takeln.Store.Sqlite.Data.{Database, Engine}
use takeln.Store.Sqlite.Ops.{save_state, load_state, load_version, list_checkpoints}
use takeln.Store.Sqlite.Delete.{delete_checkpoints}
use takeln.Store.Sqlite.Claim.{claim_interrupt}

-- `SqliteCheckpointer::in_memory`: the table is created empty.
unfoldable pub in_memory : Machine → Database
in_memory m = record { rows = []; machine = m }

module _ {S V C : Type 0} (engine : Engine S V) where
  -- The store behind the trait; it has no optimistic concurrency.
  unfoldable pub sqlite_checkpointer : Checkpointer S V C Database
  unfolding legacy
  sqlite_checkpointer = legacy (record {
    save_state = save_state engine;
    load_state = load_state engine;
    load_version = load_version engine;
    list_checkpoints = list_checkpoints engine;
    delete_checkpoints = delete_checkpoints engine;
    claim_interrupt = claim_interrupt engine;
  })
