-- ===== src/Store/Sqlite/SingleWinner.antt =====
-- Claims of an interrupt race: the connection's mutex in src/store/sqlite.rs serialises them.
use takeln.Base.{
  ◌+◌, ◌≤◌, ◌≡◌, refl, ◌∙◌, ◌≢◌, inl, inr, false, List, [], ◌∷◌, map, Option, some, String, arith,
  ap, Bool-cases, length, filter,
}
use takeln.Error.{Result, ok}
use takeln.Checkpoint.{ClaimResult, claimed}
use takeln.Store.Memory.SingleWinner.{winners, granted?, winners-refused}
use takeln.Store.Sqlite.Data.{Row, Database, Engine, Statement, update_latest}
use takeln.Store.Sqlite.Ops.{of_thread, first_id}
use takeln.Store.Sqlite.Claim.{
  is_updated, claim_row, update_target, refusal, update_claim, claim_interrupt,
}

-- `ORDER BY created_at` looks at no other column: a change of the others leaves the order.
unfoldable pub SortsByTime : {S V : Type 0} → Engine S V → Type 0
SortsByTime engine =
    (s : Statement) (f : Row → Row) (l : List Row)
    → ((r : Row) → (f r).created_at ≡ r.created_at)
    → engine.descending s (map f l) ≡ map f (engine.descending s l)

of_thread-map :
    (t : String) (f : Row → Row) (l : List Row)
    → ((r : Row) → (f r).thread_id ≡ r.thread_id)
    → of_thread t (map f l) ≡ map f (of_thread t l)
of_thread-map t f [] h = refl
of_thread-map t f (r ∷ l) h = ground (arith, h r, of_thread-map t f l h)

claim_row-thread :
    (id : Option String) (i : String) (r : Row) → (claim_row id i r).thread_id ≡ r.thread_id
claim_row-thread id i r = ground arith

claim_row-time :
    (id : Option String) (i : String) (r : Row) → (claim_row id i r).created_at ≡ r.created_at
claim_row-time id i r = ground arith

claim_row-id : (id : Option String) (i : String) (r : Row) → (claim_row id i r).id ≡ r.id
claim_row-id id i r = ground arith

claim_row-updated :
    (id : Option String) (i : String) (r : Row) → is_updated id (claim_row id i r) ≡ false
claim_row-updated id i r = elim (Bool-cases (is_updated id r)) [
  | inl e ↦ rw (e, claim_row) (ground arith)
  | inr e ↦ rw (e, claim_row) e
]

-- No row is left for the same `UPDATE`.
updated_none :
    (id : Option String) (i : String) (l : List Row)
    → length (filter (is_updated id) (map (claim_row id i) l)) ≡ 0
updated_none id i [] = refl
updated_none id i (r ∷ l) = ground (arith, claim_row-updated id i r, updated_none id i l)

first_id-map :
    (id : Option String) (i : String) (l : List Row)
    → first_id (map (claim_row id i) l) ≡ first_id l
first_id-map id i [] = refl
first_id-map id i (r ∷ l) = ap some (claim_row-id id i r)

module _ {S V : Type 0} (engine : Engine S V) where
  -- A claim leaves the row that the next `UPDATE` of the thread names.
  update_target-claim :
      SortsByTime engine
      → (t i : String) (id : Option String) (l : List Row)
      → update_target engine t (map (claim_row id i) l) ≡ update_target engine t l
  unfolding SortsByTime
  update_target-claim h t i id l =
      let thread = of_thread-map t (claim_row id i) l (claim_row-thread id i) in
      let order = h update_latest (claim_row id i) (of_thread t l) (claim_row-time id i) in
      rw (thread, update_target)
        (rw order (first_id-map id i (engine.descending update_latest (of_thread t l))))

-- The `UPDATE` that claims a thread finds no row.
abbrev pub IsSpent : {S V : Type 0} → Engine S V → String → Database → Type 0
IsSpent engine t db = length (filter (is_updated (update_target engine t db.rows)) db.rows) ≡ 0

module _ {S V C : Type 0} (engine : Engine S V) where
  refusal-ne : (t i : String) (r : Row) → refusal {C = C} engine t i r ≢ some (ok claimed)
  unfolding refusal
  refusal-ne t i r = ground arith

  -- A claim that is not granted changes nothing.
  pub refused_unchanged :
      (t i : String) (db : Database)
      → (claim_interrupt {C = C} engine t i db).0 ≢ ok claimed
      → (claim_interrupt {C = C} engine t i db).1 ≡ db
  unfolding claim_interrupt update_claim
  refused_unchanged t i db g = ground arith

  spent_refuses :
      (t i : String) (db : Database)
      → IsSpent engine t db
      → (claim_interrupt {C = C} engine t i db).0 ≢ ok claimed
  unfolding claim_interrupt update_claim
  spent_refuses t i db h g = ground (arith, refusal-ne t i)

  granted_rows :
      (t i : String) (db : Database)
      → (claim_interrupt {C = C} engine t i db).0 ≡ ok claimed
      → (claim_interrupt {C = C} engine t i db).1.rows
        ≡ map (claim_row (update_target engine t db.rows) i) db.rows
  unfolding claim_interrupt update_claim
  granted_rows t i db g = ground (arith, refusal-ne t i)

  granted-IsSpent :
      SortsByTime engine
      → (t i : String) (db : Database) → (claim_interrupt {C = C} engine t i db).0 ≡ ok claimed
      → IsSpent engine t (claim_interrupt {C = C} engine t i db).1
  granted-IsSpent h t i db g = rw (granted_rows t i db g) (
      rw (update_target-claim engine h t i (update_target engine t db.rows) db.rows)
        (updated_none (update_target engine t db.rows) i db.rows))

-- Claims of one thread, in the order in which they get the connection: the answers and the last state.
unfoldable pub serve_claims :
    {S V C : Type 0}
    → Engine S V
    → String
    → List String
    → Database
    → List (Result C ClaimResult) × Database
unfolding claim_interrupt
serve_claims engine t [] db = ([], db)
serve_claims engine t (i ∷ is) db =
    let (r, db') = claim_interrupt engine t i db in
    let (rs, db'') = serve_claims engine t is db' in (r ∷ rs, db'')

module _ {S V : Type 0} (C : Type 0) (engine : Engine S V) where
  serve_spent :
      (t : String) (is : List String) (db : Database)
      → IsSpent engine t db
      → winners (serve_claims {C = C} engine t is db).0 ≡ 0
  unfolding serve_claims
  serve_spent t [] db h = refl
  serve_spent t (i ∷ is) db h =
      let refused = spent_refuses {C = C} engine t i db h in
      winners-refused _ _ refused
      ∙ rw (refused_unchanged {C = C} engine t i db refused) (serve_spent t is db h)

  serve_granted :
      SortsByTime engine
      → (t i : String) (is : List String) (db : Database)
      → (claim_interrupt {C = C} engine t i db).0 ≡ ok claimed
      → winners (serve_claims {C = C} engine t (i ∷ is) db).0 ≡ 1
  unfolding serve_claims
  serve_granted h t i is db g =
      let after = (claim_interrupt {C = C} engine t i db).1 in
      let rest : winners (serve_claims {C = C} engine t is after).0 ≡ 0 =
        serve_spent t is after (granted-IsSpent {C = C} engine h t i db g) in
      rw g (ap (λ n. n + 1) rest)

  -- However many callers race to resume a thread of the SQLite store, whatever interrupts they name and
  -- in whatever order they get the connection, at most one of them is granted the claim, provided that
  -- the engine's sort looks at the time only.
  pub sqlite_single_winner :
      SortsByTime engine
      → (t : String) (is : List String) (db : Database)
      → winners (serve_claims {C = C} engine t is db).0 ≤ 1
  unfolding serve_claims
  sqlite_single_winner h t [] db = omega arith
  sqlite_single_winner h t (i ∷ is) db = elim (granted? (claim_interrupt {C = C} engine t i db).0) [
    | inl g ↦ omega (arith, serve_granted h t i is db g)
    | inr r ↦
        rw
          (winners-refused _
            (serve_claims {C = C} engine t is (claim_interrupt {C = C} engine t i db).1).0 r)
          (sqlite_single_winner h t is (claim_interrupt {C = C} engine t i db).1)
  ]
