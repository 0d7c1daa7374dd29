-- ===== src/Wave/Resume.antt =====
-- `Graph::resume_dag` of src/graph.rs.
use takeln.Base.{ℕ, String, Option, none, some, [], ◌∷◌, List, map, concat, if◌then◌else◌}
use takeln.Error.{execution_error}
use takeln.Checkpoint.{
  CheckpointStatus, CrashRecoveryPolicy, reset_to_pending, fail_fast, skip_and_continue, Loaded,
  Checkpointer,
}
use takeln.Context.{Host}
use takeln.Graph.{Graph}
use takeln.Dag.Data.{NodeStatus, pending, running, done, DagNode, Dag, restore_statuses}
use takeln.Exec.Defs.{Action, ◌>>=◌, ◌>>◌, pure, throw, ask_store, set_dag}
use takeln.Wave.Task.{Turn}
use takeln.Wave.Collect.{get_dag, change_nodes}
use takeln.Wave.Engine.{run_dag}
use takeln.Resume.Crash.{is_running}

-- What the crash recovery makes of a node that was running.
unfoldable pub recover_status : CrashRecoveryPolicy → NodeStatus → NodeStatus
recover_status reset_to_pending running = pending
recover_status skip_and_continue running = done
recover_status policy status = status

unfoldable pub recover_node : CrashRecoveryPolicy → DagNode → DagNode
unfolding recover_status
recover_node policy n = record n { status = recover_status policy n.status }

unfoldable pub recover_nodes : CrashRecoveryPolicy → List DagNode → List DagNode
unfolding recover_node
recover_nodes policy nodes = map (recover_node policy) nodes

module _ {C W St : Type 0} where
  -- The first `match` on the policy: only one of them refuses.
  unfoldable pub refuse_crashed :
      (thread_id : String) → CrashRecoveryPolicy → Action C W St (Unit {0})
  refuse_crashed thread_id fail_fast = throw (
      execution_error (
        concat (
          "DAG checkpoint for thread '" ∷ thread_id
          ∷ "' has Running status (crash detected). FailFast policy applied." ∷ [])))
  refuse_crashed thread_id _ = pure tt

module _ {S V C W St : Type 0} (host : Host S V C W) (graph : Graph S V C W)
    (cp : Checkpointer S V C St) (merge : S → S → S) where
  -- The statuses of the snapshot, with the crash recovery where the checkpoint was taken mid-execution.
  unfoldable pub restore : (thread_id : String) → CheckpointStatus → Dag → Action C W St (Unit {0})
  restore thread_id status saved = do
    if is_running status then refuse_crashed thread_id graph.crash_recovery_policy else pure tt
    dag ← get_dag
    set_dag (restore_statuses saved dag)
    if is_running status then change_nodes (recover_nodes graph.crash_recovery_policy) else pure tt

  -- A checkpoint without a snapshot is not resumed here.
  unfoldable pub resume_loaded :
      (ℕ → ℕ → Turn)
      → (thread_id : String) → Option ℕ
      → (depth : ℕ) → Option (Loaded S V)
      → Action C W St (Option S)
  resume_loaded schedule thread_id cancellation depth (some (state, meta, some saved)) = do
    restore thread_id meta.status saved
    final ← run_dag host graph cp merge schedule thread_id state cancellation depth
    pure (some final)
  resume_loaded schedule thread_id cancellation depth _ = pure none

  unfoldable pub resume_dag :
      (ℕ → ℕ → Turn) → (thread_id : String) → Option ℕ → (depth : ℕ) → Action C W St (Option S)
  resume_dag schedule thread_id cancellation depth = do
    loaded ← ask_store (cp.backend.load_state thread_id)
    resume_loaded schedule thread_id cancellation depth loaded
