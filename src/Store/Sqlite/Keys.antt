-- ===== src/Store/Sqlite/Keys.antt =====
-- The primary key of the table of src/store/sqlite.rs.
use takeln.Base.{
  ◌-◌, ◌≡◌, take, refl, Bool, true, false, not, ◌&&◌, List, [], ◌∷◌, ◌++◌, map, Option, String,
  ◌==◌, arith, filter, any-append, eq_iff,
}
use takeln.Checkpoint.{SaveRequest, RetentionPolicy, keep_all, keep_last, older_than}
use takeln.Store.Sqlite.Data.{Row, Database, Engine, keep_latest}
use takeln.Store.Sqlite.Ops.{of_thread, has_id, insert_row, save_state}
use takeln.Store.Sqlite.Delete.{delete_rows, delete_checkpoints}
use takeln.Store.Sqlite.Claim.{claim_row, update_claim, claim_interrupt}

abbrev pub has_distinct_ids : List Row → Bool
has_distinct_ids [] = true
has_distinct_ids (r ∷ l) = not (has_id r.id l) && has_distinct_ids l

inserted_distinct :
    (r : Row) (l : List Row)
    → has_id r.id l ≡ false
    → has_distinct_ids l ≡ true
    → has_distinct_ids (l ++ r ∷ []) ≡ true
inserted_distinct r [] n h = refl
inserted_distinct r (x ∷ l) n h = ground (
  arith,
  eq_iff x.id r.id,
  eq_iff r.id x.id,
  any-append (λ y. y.id == x.id) l (r ∷ []),
  inserted_distinct r l,
)

has_id-filter :
    (p : Row → Bool) (i : String) (l : List Row)
    → has_id i l ≡ false
    → has_id i (filter p l) ≡ false
has_id-filter p i [] h = refl
has_id-filter p i (x ∷ l) h = ground (arith, has_id-filter p i l)

filter_distinct :
    (p : Row → Bool) (l : List Row)
    → has_distinct_ids l ≡ true
    → has_distinct_ids (filter p l) ≡ true
filter_distinct p [] h = refl
filter_distinct p (x ∷ l) h = ground (arith, has_id-filter p x.id l, filter_distinct p l)

has_id-claim :
    (id : Option String) (i j : String) (l : List Row)
    → has_id j (map (claim_row id i) l) ≡ has_id j l
has_id-claim id i j [] = refl
has_id-claim id i j (x ∷ l) = ground (arith, has_id-claim id i j l)

claim_distinct :
    (id : Option String) (i : String) (l : List Row)
    → has_distinct_ids (map (claim_row id i) l) ≡ has_distinct_ids l
claim_distinct id i [] = refl
claim_distinct id i (x ∷ l) = ground (arith, has_id-claim id i x.id l, claim_distinct id i l)

delete_rows_distinct :
    (C : Type 0) (p : Row → Bool) (db : Database)
    → has_distinct_ids db.rows ≡ true
    → has_distinct_ids (delete_rows {C = C} p db).1.rows ≡ true
unfolding delete_rows
delete_rows_distinct C p db h = filter_distinct (λ r. not (p r)) db.rows h

module _ {S V : Type 0} (C : Type 0) (engine : Engine S V) where
  saved_distinct :
      (r : SaveRequest S V) (db : Database)
      → has_distinct_ids db.rows ≡ true
      → has_distinct_ids (save_state {C = C} engine r db).1.rows ≡ true
  unfolding save_state insert_row
  saved_distinct r db h = grind (arith, inserted_distinct)

  deleted_distinct :
      (t : String) (policy : RetentionPolicy) (db : Database)
      → has_distinct_ids db.rows ≡ true
      → has_distinct_ids (delete_checkpoints {C = C} engine t policy db).1.rows ≡ true
  unfolding delete_checkpoints
  deleted_distinct t keep_all db h = h
  deleted_distinct t (keep_last n) db h =
      let deleted =
        delete_rows_distinct C
          (λ r.
            r.thread_id == t
            && not (has_id r.id (take n (engine.descending keep_latest (of_thread t db.rows)))))
          db h in
      ground arith
  deleted_distinct t (older_than d) db h =
      let deleted =
        delete_rows_distinct C
          (λ r.
            r.thread_id == t
            && engine.text_lt r.created_at (engine.to_rfc3339 (db.machine.now - d)))
          db h in
      ground arith

  claimed_distinct :
      (t i : String) (db : Database)
      → has_distinct_ids db.rows ≡ true
      → has_distinct_ids (claim_interrupt {C = C} engine t i db).1.rows ≡ true
  unfolding claim_interrupt update_claim
  claimed_distinct t i db h = grind (arith, claim_distinct)

  -- The identifiers of the SQLite store's rows stay distinct, whatever is saved, deleted or claimed,
  -- and whatever identifiers the machine draws.
  pub keys_kept :
      (db : Database) (r : SaveRequest S V) (t i : String) (policy : RetentionPolicy)
      → has_distinct_ids db.rows ≡ true
      → (has_distinct_ids (save_state {C = C} engine r db).1.rows ≡ true)
        × (has_distinct_ids (delete_checkpoints {C = C} engine t policy db).1.rows ≡ true)
        × (has_distinct_ids (claim_interrupt {C = C} engine t i db).1.rows ≡ true)
  keys_kept db r t i policy h =
      (saved_distinct r db h, deleted_distinct t policy db h, claimed_distinct t i db h)
