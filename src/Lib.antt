-- ===== src/Lib.antt =====
-- takeln runs graphs of nodes over a shared state, with checkpoints: a run calls a node, saves the new state
-- with the node to run next, and goes on until the end, an interrupt, a yield or an error; a yielded
-- thread is resumed by an answer from outside. This library models its core and proves what the parts
-- promise.
--
-- The parts, and the files that model them (paths from the root of the repository):
--   src/hitl.rs (yield requests, resume modes), src/error.rs, src/resource_limits.rs, src/context.rs: Hitl,
--     Error, Limits and Context. Context also has the record Host of what the graph takes from its
--     libraries: clock, random numbers and identifiers, sleeping, rendering, the arithmetic of costs.
--   src/checkpoint.rs, src/checkpoint_meta.rs: Checkpoint. The trait Checkpointer is a record of operations
--     over the type of the store behind it; an operation maps the store to an answer and a new store.
--   src/store/memory.rs: Store/Memory, the operations in Ops and Claim. The mutex makes each operation
--     atomic, so callers that race are a sequence of operations in the order of the lock.
--   src/store/sqlite.rs: Store/Sqlite. The table is a list of rows of text in the order of their insertion
--     (Data), with the statements as functions of it in Ops, Delete and Claim. The record Engine has what
--     the code takes from rusqlite, serde_json and chrono: the sort of each statement, the comparison of
--     text, the texts of errors, and the reading and writing of the columns.
--   src/dag.rs: Dag/Data (nodes and statuses), Dag/Builder (DAGBuilder::build with its errors) and
--     Dag/Topology (the cycle check). An identifier is a number that is only compared; the overflow of an
--     in-degree, at which a checked build panics, is an outcome.
--   src/graph.rs: Retry (RetryPolicy), Node and Graph (configuration, with GraphBuilder in
--     Graph/Builder), Run (run and run_inner), Schema (validate_input_against_schema), Resume
--     (resume, resume_with, resume_with_input and revert_to_yielded). src/dynamic.rs is in Node.
--   src/history.rs, src/emitter.rs, src/metrics.rs: Exec, with the state that a run threads: the machine,
--     the store, the event counter, and what was sent, emitted, reported and recorded, in order.
--
-- An action is a function from this state to an outcome and the new state; what was done before an error
-- stays done. The run loop is one function per part of the source's loop body: Run/Call (the attempts at a
-- node), Run/Handlers (the arms of the match on its result), Run/Frame (the locals, and the durable write)
-- and Run/Engine (the loop).
--
-- Loops and fuel. The run loop recurses on the steps that max_sequential_steps leaves, which is the
-- source's own bound. The retry loop has as many rounds as max_attempts, and at least one; the eviction of
-- records recurses on the history. The cycle check has as many rounds as there are nodes. A loop of the
-- source that would not end is the outcome hang.
--
-- The wave runner (run_dag and resume_dag of src/graph.rs) is in Wave: Ready (statuses and ready nodes), Task
-- (a spawned task, step by step), Collect (the arms of the collecting loop), Scheduler (whose turn it is),
-- Engine (the loop) and Resume. A schedule chooses, for each wave and each turn in it, the task that moves
-- next and whether the body that it calls panics; the theorems hold for every schedule. To dispatch a wave
-- and to join a task is one step each; after an early return the tasks that are left take no further step.
-- A wave has fuel for the steps that its tasks have left, and the loop for one round more than there are
-- nodes. The merge of two states is a parameter, and so is the trait Merge of src/merge.rs.
--
-- Numbers are natural numbers; the backoff saturates at 64 bits and the event counter wraps, as in the
-- source. A timeout and a cancellation that race with a call are in the answer of the call: which of them
-- the runtime sees first. Costs (f64), values of JSON and hashes are parameters.
--
-- Other writers. The operations of a store are parameters where a theorem speaks of any store: what another
-- writer does between two of them, or a node that holds the store itself, is a part of what the next
-- operation does to the store. Over such a store Run/Journal notes the calls of a run. The stores of
-- Store/Memory and Store/Sqlite have no other writer than the sequence of operations in a theorem, and a
-- node is given the state and the machine only.
--
-- Times are milliseconds from zero on. Where OlderThan reaches behind zero its cutoff is zero; the panic of a
-- date below chrono's range is left out, and so is the sum of a wave's costs in f64, whose rounding depends
-- on the order of arrival.
--
-- Not modelled: src/store/postgres.rs, the file and the migration behind src/store/sqlite.rs with the errors
-- that the engine raises by itself (a full disk, a busy file), the rendering of errors in
-- src/safe_error.rs, logging, and a poisoned mutex.
--
-- The proofs stand beside what they are about: Store/Memory (SingleWinner, Locked, History),
-- Store/Sqlite (SingleWinner, RoundTrip, Keys, Resolved, Isolation), Dag (Entries, Drawn, Count,
-- Acyclic, Sound, Names), Exec (Quiet, History, Starts, Mild, Leads), Run (Termination, Quiet, Journal,
-- Head, Silent, Starts), Resume (Claims, Rollback), Retry/Bounds, Schema/Accepts, Node/Children, Graph/Routes and Wave (Sound,
-- Permits, Merge, Settled and what they rest on). Runs at fixed inputs and the theorems at concrete data
-- are in Tests.
pub mod Base
pub mod Hitl
pub mod Error
pub mod Dag
pub mod Checkpoint
pub mod Store
pub mod Limits
pub mod Retry
pub mod Context
pub mod Node
pub mod Graph
pub mod Exec
pub mod Run
pub mod Schema
pub mod Resume
pub mod Wave
pub mod Tests
