-- ===== src/Resume.antt =====
-- Resuming a thread from its checkpoint (src/graph.rs).
pub mod Crash
pub mod Input
pub mod Claims
pub mod Rollback
