-- ===== src/Resume/Crash.antt =====
-- `Graph::resume` and `resume_with` of src/graph.rs, and the rollback of a failed resume.
use takeln.Base.{ℕ, Bool, true, false, String, Option, none, some, [], ◌∷◌, concat, if◌then◌else◌}
use takeln.Hitl.{YieldRequest}
use takeln.Error.{execution_error}
use takeln.Checkpoint.{
  CheckpointStatus, yielded, CheckpointMeta, CrashRecoveryPolicy, reset_to_pending, fail_fast,
  skip_and_continue, Checkpointer, checkpoint_id, checkpoint_proof,
}
use takeln.Context.{Host}
use takeln.Graph.{Graph, edge_target}
use takeln.Exec.Defs.{Action, ◌>>=◌, pure, throw, lift, ask_store}
use takeln.Run.Engine.{run_inner}

abbrev pub is_running : CheckpointStatus → Bool
is_running CheckpointStatus.running = true
is_running _ = false

module _ {S V C W St : Type 0} (host : Host S V C W) (graph : Graph S V C W)
    (cp : Checkpointer S V C St) where
  -- The run that a checkpoint is resumed by: from `node`, with the claimed interrupt to resolve.
  abbrev rerun : String → S → String → Option ℕ → CheckpointMeta V → Action C W St (Option S)
  rerun thread_id state node cancellation meta = do
    final ← run_inner host graph cp thread_id state node cancellation none meta.claimed_interrupt
    pure (some final)

  -- The crash recovery of `resume_with`, for a checkpoint that was taken mid-execution.
  unfoldable pub recover :
      String → S → Option ℕ → CheckpointMeta V → CrashRecoveryPolicy → Action C W St (Option S)
  recover thread_id state cancellation meta reset_to_pending =
      rerun thread_id state meta.next_node cancellation meta
  recover thread_id state cancellation meta fail_fast = throw (
      execution_error (
        concat (
          "Checkpoint for thread '" ∷ thread_id
          ∷ "' has Running status (crash detected). FailFast policy applied." ∷ [])))
  recover thread_id state cancellation meta skip_and_continue =
      elim (edge_target graph meta.next_node state) [
        | some next ↦ rerun thread_id state next cancellation meta
        | none ↦ rerun thread_id state meta.next_node cancellation meta
      ]

  unfoldable pub resume_with :
      (thread_id : String) → Option ℕ → (rebind : S → S) → Action C W St (Option S)
  resume_with thread_id cancellation rebind = do
    loaded ← ask_store (cp.backend.load_state thread_id)
    elim loaded [
      | none ↦ pure none
      | some (state, meta, _) ↦
          if is_running meta.status
          then recover thread_id (rebind state) cancellation meta graph.crash_recovery_policy
          else rerun thread_id (rebind state) meta.next_node cancellation meta
    ]

  unfoldable pub resume : (thread_id : String) → Option ℕ → Action C W St (Option S)
  resume thread_id cancellation = resume_with thread_id cancellation (λ s. s)

module _ {S V C W St : Type 0} (cp : Checkpointer S V C St) where
  -- `revert_to_yielded`: the rollback extends the head that the failed run last saw or wrote, and reads
  -- the head only if the run did not get that far.
  unfoldable pub revert_to_yielded :
      (thread_id : String)
      → S
      → (next_node : String) → YieldRequest V
      → Option (Option String)
      → Action C W St (Unit {0})
  revert_to_yielded thread_id state next_node request last_head = do
    head ← elim last_head [ some head ↦ pure head | none ↦ ask_store (cp.current_head thread_id) ]
    saved ← ask_store (
        cp.save_state_bound
          (record {
            thread_id = thread_id;
            state = state;
            next_node = next_node;
            dag = none;
            status = yielded;
            yield_request = some request;
            claimed_interrupt = none;
            resolved_interrupt = none;
          })
          (checkpoint_proof head))
    _ ← lift (checkpoint_id saved)
    pure tt
