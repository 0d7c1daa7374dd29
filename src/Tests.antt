-- ===== src/Tests.antt =====
-- Runs of the model at fixed inputs, and the theorems at concrete data.
pub mod Samples
pub mod Steps
pub mod Storing
pub mod Tabling
pub mod Building
pub mod Waving
pub mod Running
pub mod Resuming
