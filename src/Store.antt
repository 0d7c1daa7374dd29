-- ===== src/Store.antt =====
-- src/store: the stores behind the trait `Checkpointer`.
pub mod Memory
pub mod Sqlite
