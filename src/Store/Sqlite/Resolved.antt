-- ===== src/Store/Sqlite/Resolved.antt =====
-- Interrupts that the rows of src/store/sqlite.rs have resolved.
use takeln.Base.{◌≡◌, refl, ◌∙◌, ap, true, List, [], ◌∷◌, ◌++◌, some, String, eq_refl, arith}
use takeln.Error.{ok}
use takeln.Checkpoint.{SaveRequest, already_completed}
use takeln.Store.Sqlite.Data.{Row, Database, Engine}
use takeln.Store.Sqlite.Ops.{new_row, save_state}
use takeln.Store.Sqlite.Claim.{is_resolved, claim_interrupt}
use takeln.Store.Sqlite.RoundTrip.{save-Saved}

resolved-append :
    (t i : String) (r : Row) (l : List Row)
    → r.thread_id ≡ t
    → r.resolved_interrupt ≡ some i
    → is_resolved t i (l ++ r ∷ []) ≡ true
resolved-append t i r [] h k = rw h (rw k (ground (arith, eq_refl t, eq_refl i)))
resolved-append t i r (x ∷ l) h k = ground (arith, resolved-append t i r l h k)

module _ {S V : Type 0} (C : Type 0) (engine : Engine S V) where
  -- After a successful save that resolves an interrupt, a claim of that interrupt on the SQLite store
  -- answers that it is completed and changes nothing.
  pub claim-save_completed :
      (r : SaveRequest S V) (db : Database) (id i : String)
      → (save_state {C = C} engine r db).0 ≡ ok id
      → r.resolved_interrupt ≡ some i
      → claim_interrupt {C = C} engine r.thread_id i (save_state {C = C} engine r db).1
        ≡ (ok already_completed, (save_state {C = C} engine r db).1)
  unfolding claim_interrupt new_row
  claim-save_completed r db id i h k =
      let s = save-Saved C engine r db id h in
      let row = new_row engine r db.machine s.state s.dag s.request in
      let resolved : is_resolved r.thread_id i (save_state {C = C} engine r db).1.rows ≡ true =
        ap (is_resolved r.thread_id i) s.rows ∙ resolved-append r.thread_id i row db.rows refl k in
      rw resolved refl
