-- ===== src/Store/Sqlite/Claim.antt =====
-- `claim_interrupt` of src/store/sqlite.rs: one transaction, rolled back unless it commits.
use takeln.Base.{
  inl, inr, Bool, ◌&&◌, List, [], ◌∷◌, map, Option, none, some, String, ◌==◌, length, filter, any,
  nat_eq, unwrap_or, concat, if◌then◌else◌,
}
use takeln.Error.{
  Result, ok, err, nothing_to_resume, invalid_resume, execution_error, deserialization_error,
}
use takeln.Checkpoint.{running, yielded, ClaimResult, claimed, in_progress, already_completed}
use takeln.Store.Memory.Claim.{same_text}
use takeln.Store.Sqlite.Data.{Row, Database, Engine, select_latest, update_latest}
use takeln.Store.Sqlite.Ops.{parse_status, of_thread, first_row, first_id}

-- `SELECT EXISTS(... WHERE thread_id = ?1 AND resolved_interrupt = ?2)`
abbrev pub is_resolved : (thread_id interrupt_id : String) → List Row → Bool
is_resolved t i l = any (λ r. r.thread_id == t && same_text r.resolved_interrupt i) l

-- The rows that `UPDATE` changes.
abbrev pub is_updated : (id : Option String) → Row → Bool
is_updated id r = same_text id r.id && r.status == "Yielded"

-- `SET status = 'Running', claimed_interrupt = ?1`
abbrev pub set_running : String → Row → Row
set_running i r = record r { status = "Running"; claimed_interrupt = some i }

abbrev pub claim_row : (id : Option String) → String → Row → Row
claim_row id i r = if is_updated id r then set_running i r else r

module _ {S V : Type 0} (engine : Engine S V) where
  -- The row that the inner `SELECT` of `UPDATE` names.
  abbrev pub update_target : String → List Row → Option String
  update_target t l = first_id (engine.descending update_latest (of_thread t l))

module _ {S V C : Type 0} (engine : Engine S V) where
  -- The checks on the latest row: `none` when the claim may go on.
  unfoldable pub refusal : (thread_id interrupt_id : String) → Row → Option (Result C ClaimResult)
  unfolding parse_status
  refusal t i r = elim (parse_status r.status) [
    | running ↦ some (
        if same_text r.claimed_interrupt i
        then ok in_progress
        else err (
            execution_error (
              concat (
                "Resume claim failed: thread '"
                ∷ t
                ∷ "' is already running with claimed_interrupt '"
                ∷ unwrap_or r.claimed_interrupt "none"
                ∷ "'"
                ∷ []))))
    | yielded ↦ elim r.yield_request [
      | none ↦ some (
          err (
            nothing_to_resume (
              concat ("Thread '" ∷ t ∷ "' has Yielded status but no yield_request metadata" ∷ []))))
      | some text ↦ elim (engine.request_from_str text) [
        | inr e ↦ some (err (deserialization_error e))
        | inl request ↦
            if request.interrupt_id == i
            then none
            else some (
                err (
                  invalid_resume (
                    concat (
                      "Expected interrupt_id '" ∷ request.interrupt_id ∷ "', got '" ∷ i ∷ "'"
                      ∷ []))))
      ]
    ]
    | _ ↦ some (
        err (
          nothing_to_resume (
            concat (
              "Thread '" ∷ t ∷ "' latest checkpoint status is '" ∷ r.status ∷ "', expected Yielded"
              ∷ []))))
  ]

  -- `UPDATE`, committed when it changes one row.
  unfoldable pub update_claim :
      (thread_id interrupt_id : String) → Database → Result C ClaimResult × Database
  update_claim t i db =
      let target = update_target engine t db.rows in
      if nat_eq (length (filter (is_updated target) db.rows)) 1
      then (ok claimed, record db { rows = map (claim_row target i) db.rows })
      else (
        err (
            execution_error
              (concat ("Concurrent resume claim failed for thread '" ∷ t ∷ "'" ∷ []))),
        db,
      )

  unfoldable pub claim_interrupt :
      (thread_id interrupt_id : String) → Database → Result C ClaimResult × Database
  unfolding refusal update_claim
  claim_interrupt t i db =
      if is_resolved t i db.rows
      then (ok already_completed, db)
      else elim (first_row (engine.descending select_latest (of_thread t db.rows))) [
        | none ↦ (err (nothing_to_resume t), db)
        | some r ↦ elim (refusal t i r) [ some answer ↦ (answer, db) | none ↦ update_claim t i db ]
      ]
