-- ===== src/Exec.antt =====
-- The state of a run and its actions.
pub mod Defs
pub mod Quiet
pub mod History
pub mod Starts
pub mod Mild
pub mod Leads
