-- ===== src/Dag.antt =====
-- src/dag.rs: the nodes of a DAG, their statuses, the builder and its checks.
pub mod Data
pub mod Topology
pub mod Builder
pub mod Entries
pub mod Drawn
pub mod Count
pub mod Acyclic
pub mod Sound
pub mod Names
