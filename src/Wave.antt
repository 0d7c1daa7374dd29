-- ===== src/Wave.antt =====
-- The wave runner, `Graph::run_dag` and `Graph::resume_dag` of src/graph.rs.
pub mod Ready
pub mod Task
pub mod Collect
pub mod Scheduler
pub mod Engine
pub mod Resume
pub mod Status
pub mod Inflight
pub mod Launch
pub mod Choice
pub mod Mild
pub mod Steps
pub mod Joined
pub mod Turns
pub mod Rounds
pub mod Loop
pub mod Unstuck
pub mod Built
pub mod Sound
pub mod Merge
pub mod Permits
pub mod Settled
