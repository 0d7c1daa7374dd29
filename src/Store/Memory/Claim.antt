-- ===== src/Store/Memory/Claim.antt =====
-- `claim_interrupt` of src/store/memory.rs.
use takeln.Base.{
  Bool, false, List, [], ◌∷◌, Option, none, some, String, ◌==◌, any, last?, set_last, unwrap_or,
  concat, if◌then◌else◌, lookup,
}
use takeln.Error.{Result, ok, err, nothing_to_resume, invalid_resume, execution_error}
use takeln.Checkpoint.{
  CheckpointStatus, complete, running, yielded, failed, interrupted, ClaimResult, claimed,
  in_progress, already_completed,
}
use takeln.Store.Memory.Data.{MemoryCheckpoint, MemoryStore, put_thread}

-- `{:?}` of a status
unfoldable pub status_text : CheckpointStatus → String
status_text complete = "Complete"
status_text running = "Running"
status_text yielded = "Yielded"
status_text failed = "Failed"
status_text interrupted = "Interrupted"

abbrev pub same_text : Option String → String → Bool
same_text none i = false
same_text (some j) i = j == i

module _ {V : Type 0} where
  abbrev pub is_resolved : String → List (MemoryCheckpoint V) → Bool
  is_resolved i l = any (λ c. same_text c.resolved_interrupt i) l

module _ {V C : Type 0} where
  -- The latest checkpoint is claimed: the answer, and the checkpoint's new value where it changes.
  unfoldable pub claim_checkpoint :
      (thread_id interrupt_id : String)
      → MemoryCheckpoint V
      → Result C ClaimResult × Option (MemoryCheckpoint V)
  claim_checkpoint t i c = elim c.status [
    | running ↦ (
      if same_text c.claimed_interrupt i
          then ok in_progress
          else err (
              execution_error (
                concat (
                  "Resume claim failed: thread '"
                  ∷ t
                  ∷ "' is already running with claimed_interrupt '"
                  ∷ unwrap_or c.claimed_interrupt "none"
                  ∷ "'"
                  ∷ []))),
      none,
    )
    | yielded ↦ elim c.yield_request [
      | none ↦ (
        err (
            nothing_to_resume (
              concat ("Thread '" ∷ t ∷ "' has Yielded status but no yield_request metadata" ∷ []))),
        none,
      )
      | some request ↦
          if request.interrupt_id == i
          then (ok claimed, some (record c { status = running; claimed_interrupt = some i }))
          else (
            err (
                invalid_resume (
                  concat (
                    "Expected interrupt_id '" ∷ request.interrupt_id ∷ "', got '" ∷ i ∷ "'" ∷ []))),
            none,
          )
    ]
    | other ↦ (
      err (
          nothing_to_resume (
            concat (
              "Thread '"
              ∷ t
              ∷ "' latest checkpoint status is "
              ∷ status_text other
              ∷ ", expected Yielded"
              ∷ []))),
      none,
    )
  ]

  claim_latest :
      (thread_id interrupt_id : String)
      → List (MemoryCheckpoint V)
      → MemoryStore V
      → Result C ClaimResult × MemoryStore V
  unfolding claim_checkpoint
  claim_latest t i l st = elim (last? l) [
    | none ↦ (err (nothing_to_resume t), st)
    | some c ↦
        let (answer, change) = claim_checkpoint t i c in
        elim change [ none ↦ (answer, st) | some c' ↦ (answer, put_thread t (set_last c' l) st) ]
  ]

  unfoldable pub claim_interrupt :
      (thread_id interrupt_id : String) → MemoryStore V → Result C ClaimResult × MemoryStore V
  unfolding claim_latest
  claim_interrupt t i st = elim (lookup t st.threads) [
    | none ↦ (err (nothing_to_resume t), st)
    | some l ↦ if is_resolved i l then (ok already_completed, st) else claim_latest t i l st
  ]
