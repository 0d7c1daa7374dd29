-- ===== src/Store/Sqlite/Isolation.antt =====
-- `delete_checkpoints` of src/store/sqlite.rs beside the other threads.
use takeln.Base.{
  ◌-◌, ◌≡◌, refl, ◌≢◌, Bool, not, ◌&&◌, List, [], ◌∷◌, String, ◌==◌, eq_iff, arith, filter, take,
}
use takeln.Checkpoint.{RetentionPolicy, keep_all, keep_last, older_than}
use takeln.Store.Sqlite.Data.{Row, Database, Engine, keep_latest}
use takeln.Store.Sqlite.Ops.{of_thread, has_id}
use takeln.Store.Sqlite.Delete.{delete_rows, delete_checkpoints}

of_thread-filter :
    (t u : String) (p : Row → Bool) (l : List Row)
    → t ≢ u
    → of_thread u (filter (λ r. not (r.thread_id == t && p r)) l) ≡ of_thread u l
of_thread-filter t u p [] h = refl
of_thread-filter t u p (x ∷ l) h =
    ground (arith, eq_iff x.thread_id t, eq_iff x.thread_id u, of_thread-filter t u p l h)

delete_rows-others :
    (C : Type 0) (t u : String) (p : Row → Bool) (db : Database)
    → t ≢ u
    → of_thread u (delete_rows {C = C} (λ r. r.thread_id == t && p r) db).1.rows
      ≡ of_thread u db.rows
unfolding delete_rows
delete_rows-others C t u p db h = of_thread-filter t u p db.rows h

module _ {S V : Type 0} (C : Type 0) (engine : Engine S V) where
  -- Deleting checkpoints of a thread leaves the rows of every other thread of the SQLite store, in
  -- their order, under every policy.
  pub delete-others :
      (t u : String) (policy : RetentionPolicy) (db : Database)
      → t ≢ u
      → of_thread u (delete_checkpoints {C = C} engine t policy db).1.rows ≡ of_thread u db.rows
  unfolding delete_checkpoints
  delete-others t u keep_all db h = refl
  delete-others t u (keep_last n) db h =
      let kept = take n (engine.descending keep_latest (of_thread t db.rows)) in
      let others = delete_rows-others C t u (λ r. not (has_id r.id kept)) db h in ground arith
  delete-others t u (older_than d) db h =
      let cutoff = engine.to_rfc3339 (db.machine.now - d) in
      let others = delete_rows-others C t u (λ r. engine.text_lt r.created_at cutoff) db h in
      ground arith
