-- ===== src/Store/Sqlite/Delete.antt =====
-- `delete_checkpoints` of src/store/sqlite.rs.
use takeln.Base.{
  ℕ, ◌-◌, Bool, not, ◌&&◌, [], ◌∷◌, none, some, String, ◌==◌, ltb, length, take, filter, concat,
  if◌then◌else◌,
}
use takeln.Error.{Result, ok, err, checkpoint_error}
use takeln.Checkpoint.{RetentionPolicy, keep_all, keep_last, older_than}
use takeln.Store.Sqlite.Data.{Row, Database, Engine, keep_latest}
use takeln.Store.Sqlite.Ops.{of_thread, has_id}

-- `DELETE`: the rows that pass the test go, and are counted.
unfoldable pub delete_rows : {C : Type 0} → (Row → Bool) → Database → Result C ℕ × Database
delete_rows p db =
    let kept = filter (λ r. not (p r)) db.rows in
    (ok (length db.rows - length kept), record db { rows = kept })

module _ {S V C : Type 0} (engine : Engine S V) where
  unfoldable pub delete_checkpoints : String → RetentionPolicy → Database → Result C ℕ × Database
  unfolding delete_rows
  delete_checkpoints t keep_all db = (ok 0, db)
  delete_checkpoints t (keep_last n) db = elim (engine.bind_count n) [
    | some e ↦ (err (checkpoint_error (concat ("Failed to delete: " ∷ e ∷ []))), db)
    | none ↦
        delete_rows
          (λ r.
            r.thread_id == t
            && not (has_id r.id (take n (engine.descending keep_latest (of_thread t db.rows)))))
          db
  ]
  delete_checkpoints t (older_than duration) db =
      if ltb engine.max_duration duration
      then (err (checkpoint_error "Source duration value is out of range for the target type"), db)
      else delete_rows
          (λ r.
            r.thread_id == t
            && engine.text_lt r.created_at (engine.to_rfc3339 (db.machine.now - duration)))
          db
