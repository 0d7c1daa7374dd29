-- ===== src/Tests/Storing.antt =====
-- The theorems on src/store/memory.rs at concrete data.
use takeln.Base.{
  ℕ, ◌+◌, ◌≤◌, ◌≡◌, ◌≢◌, refl, arith, String, some, none, [], ◌∷◌, length, last?, eq_iff,
}
use takeln.Error.{ok}
use takeln.Checkpoint.{CheckpointStatus, keep_last, already_completed}
use takeln.Store.Memory.Data.{checkpoints}
use takeln.Store.Memory.Ops.{save_state, load_state, retain, delete_checkpoints}
use takeln.Store.Memory.Claim.{claim_interrupt}
use takeln.Store.Memory.SingleWinner.{race, winners, race_single_winner, race_one_winner}
use takeln.Store.Memory.History.{delete_counts, keep_last_latest, claim-save_resolved, load-save}
use takeln.Tests.Samples.{
  waiting-IsClaimable, num, json_serde, answered, waiting_store, answered_store, answer_request,
}

race_single_winner_example :
    winners (race {C = ℕ} "t1" ("approve" ∷ "other" ∷ "approve" ∷ []) waiting_store).0 ≤ 1
race_single_winner_example =
    race_single_winner ℕ "t1" ("approve" ∷ "other" ∷ "approve" ∷ []) waiting_store

race_one_winner_example :
    winners (race {C = ℕ} "t1" ("other" ∷ "approve" ∷ "approve" ∷ []) waiting_store).0 ≡ 1
race_one_winner_example =
    race_one_winner ℕ "t1" "approve" ("other" ∷ "approve" ∷ "approve" ∷ []) waiting_store
      waiting-IsClaimable refl

load-save_example :
    let (saved, st) =
      save_state {C = ℕ} json_serde (answer_request (some "approve")) waiting_store in
    (id : String) × (saved ≡ ok id)
    × ((load_state {C = ℕ} json_serde "t1" st).0
        ≡ ok (
            some (
              5,
              record {
                checkpoint_id = id;
                thread_id = "t1";
                next_node = "publish";
                graph_version = none;
                state_schema_version = none;
                status = CheckpointStatus.complete;
                created_at = 9;
                yield_request = none;
                claimed_interrupt = none;
                resolved_interrupt = some "approve";
              },
              none,
            )))
load-save_example =
    load-save ℕ json_serde (answer_request (some "approve")) waiting_store (num 5) refl refl

claim-save_resolved_example :
    let st = (save_state {C = ℕ} json_serde (answer_request none) answered_store).1 in
    claim_interrupt {C = ℕ} "t1" "approve" st ≡ (ok already_completed, st)
claim-save_resolved_example =
    claim-save_resolved ℕ json_serde (answer_request none) answered_store "approve" (num 5) refl
      refl

deleted_refl : (delete_checkpoints {C = ℕ} 1000 "t1" (keep_last 1) answered_store).0 ≡ ok 1
unfolding delete_checkpoints retain
deleted_refl = refl

threads_differ : ◌≢◌ {A = String} "t1" "t2"
threads_differ = ground (arith, eq_iff "t1" "t2")

delete_counts_example :
    let st = (delete_checkpoints {C = ℕ} 1000 "t1" (keep_last 1) answered_store).1 in
    (length (checkpoints "t1" st) + 1 ≡ 2) × (checkpoints "t2" st ≡ [])
delete_counts_example =
    delete_counts ℕ 1000 "t1" "t2" (keep_last 1) answered_store 1 threads_differ deleted_refl

keep_last_latest_example :
    let st = (delete_checkpoints {C = ℕ} 1000 "t1" (keep_last 1) answered_store).1 in
    (length (checkpoints "t1" st) ≡ 1) × (last? (checkpoints "t1" st) ≡ some answered)
keep_last_latest_example = keep_last_latest ℕ 1000 "t1" 1 answered_store (omega arith)
