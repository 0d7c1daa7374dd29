-- ===== src/Wave/Mild.antt =====
-- The parts of `Graph::run_dag` (src/graph.rs) that leave the DAG alone.
use takeln.Base.{ℕ, ◌<◌, refl, String, Option, List}
use takeln.Checkpoint.{
  SaveRequest, CheckpointProof, CheckpointSave, created, advanced, idempotent_replay, conflict,
  checkpoint_id, checkpoint_proof, Checkpointer,
}
use takeln.Context.{Host}
use takeln.Node.{Node, DynamicNode, NodeMeta}
use takeln.Graph.{Graph}
use takeln.Exec.Defs.{graph_finished, send}
use takeln.Exec.Mild.{IsPlain, IsMild, ask_store-IsMild, lift-IsMild, >>=-IsMild, mild}
use takeln.Run.Call.{CallSite, attempt_call, back_off, call_dynamic}
use takeln.Run.Frame.{check_checkpoint_size, save, elapsed_since}
use takeln.Wave.Collect.{observe_success, check_wave_budget}
use takeln.Wave.Engine.{check_total, check_depth, check_dag_size}

-- The errors of a store are not the runner's own `DAGDeadlock`.
pub record IsPlainStore {S V C St : Type 0} (cp : Checkpointer S V C St) : Type 0 where
  pub plain_head : (thread_id : String) (st : St) → IsPlain (cp.current_head thread_id st).0
  pub plain_save :
      (request : SaveRequest S V) (proof : CheckpointProof) (st : St)
      → IsPlain (cp.save_state_bound request proof st).0

checkpoint_id-IsPlain :
    (C : Type 0) (saved : CheckpointSave) → IsPlain (checkpoint_id {C = C} saved)
unfolding checkpoint_id
checkpoint_id-IsPlain C (created i) = tt
checkpoint_id-IsPlain C (advanced i) = tt
checkpoint_id-IsPlain C (idempotent_replay i) = tt
checkpoint_id-IsPlain C (conflict head) = refl

module _ {C W St : Type 0} (Tidy Ending : Type 0) where
  pub send_finished-IsMild :
      (thread_id : String) (cost : C)
      → IsMild {C = C} {W = W} {St = St} Tidy Ending (send (graph_finished thread_id cost))
  send_finished-IsMild thread_id cost = search mild

  pub check_depth-IsMild :
      (depth : ℕ) → IsMild {C = C} {W = W} {St = St} Tidy Ending (check_depth depth)
  unfolding check_depth
  check_depth-IsMild depth = search mild

module _ {S V C W St : Type 0} (host : Host S V C W) (Tidy Ending : Type 0) where
  pub attempt_call-IsMild :
      (site : CallSite S C) (node : Node S V C W) (attempt : ℕ) (input : Option V)
      → IsMild {St = St} Tidy Ending (attempt_call host site node attempt input)
  unfolding attempt_call
  attempt_call-IsMild site node attempt input = search mild

  pub back_off-IsMild :
      (site : CallSite S C) (attempt : ℕ) (msg : String)
      → IsMild {St = St} Tidy Ending (back_off host site attempt msg)
  unfolding back_off
  back_off-IsMild site attempt msg = search mild

  pub call_dynamic-IsMild :
      (nodes : List (String × Node S V C W)) (site : CallSite S C) (node : DynamicNode S V C W)
      (input : Option V)
      → IsMild {St = St} Tidy Ending (call_dynamic host nodes site node input)
  unfolding call_dynamic
  call_dynamic-IsMild nodes site node input = search mild

  pub elapsed_since-IsMild :
      (started_at : ℕ) → IsMild {C = C} {St = St} Tidy Ending (elapsed_since host started_at)
  unfolding elapsed_since
  elapsed_since-IsMild started_at = search mild

module _ {S V C W St : Type 0} (host : Host S V C W) (graph : Graph S V C W)
    (Tidy Ending : Type 0) where
  pub observe_success-IsMild :
      (thread_id name : String) (meta : NodeMeta C)
      → (Ending → 0 < graph.resource_limits.max_execution_records)
      → IsMild {St = St} Tidy Ending (observe_success host graph thread_id name meta)
  unfolding observe_success
  observe_success-IsMild thread_id name meta h = search (h, mild)

  pub check_wave_budget-IsMild :
      (name : String) (meta : NodeMeta C)
      → IsMild {St = St} Tidy Ending (check_wave_budget host graph name meta)
  unfolding check_wave_budget
  check_wave_budget-IsMild name meta = search mild

  pub check_dag_size-IsMild :
      (size : ℕ) → IsMild {St = St} Tidy Ending (check_dag_size host graph size)
  unfolding check_dag_size
  check_dag_size-IsMild size = search mild

  pub check_total-IsMild :
      (cp : Checkpointer S V C St) (total : C)
      → IsMild {W = W} {St = St} Tidy Ending (check_total host graph cp total)
  unfolding check_total
  check_total-IsMild cp total = search mild

  check_checkpoint_size-IsMild :
      (state : S) → IsMild {St = St} Tidy Ending (check_checkpoint_size host graph state)
  unfolding check_checkpoint_size
  check_checkpoint_size-IsMild state = search mild

  pub save-IsMild :
      (cp : Checkpointer S V C St) (request : SaveRequest S V) (head : Option String)
      → (Tidy → IsPlainStore cp)
      → IsMild Tidy Ending (save host graph cp request head)
  unfolding save
  save-IsMild cp request head plain =
      >>=-IsMild Tidy Ending _ _ (check_checkpoint_size-IsMild request.state) (λ _.
        >>=-IsMild Tidy Ending _ _
          (ask_store-IsMild Tidy Ending (cp.save_state_bound request (checkpoint_proof head))
            (λ t. (plain t).plain_save request (checkpoint_proof head)))
          (λ saved.
            lift-IsMild Tidy Ending (checkpoint_id saved) (λ t. checkpoint_id-IsPlain C saved)))
