-- ===== src/Run.antt =====
-- `Graph::run` of src/graph.rs.
pub mod Call
pub mod Frame
pub mod Handlers
pub mod Engine
pub mod Termination
pub mod Silent
pub mod Starts
pub mod Quiet
pub mod Journal
pub mod Head
