-- ===== src/Store/Sqlite/RoundTrip.antt =====
-- What src/store/sqlite.rs hands out is what was saved, text columns included.
use takeln.Base.{
  ℕ, ◌≡◌, refl, ◌∙◌, sym, ◌⊎◌, inl, inr, ◌&&◌, false, List, [], ◌∷◌, ◌++◌, Option, none, some,
  String, ◌==◌, eq_iff, ap, subst, arith, find?, Bool-cases,
}
use takeln.Hitl.{YieldRequest}
use takeln.Dag.Data.{Dag}
use takeln.Error.{Result, ok, err, TakelnError}
use takeln.Checkpoint.{
  CheckpointStatus, complete, running, yielded, failed, interrupted, SaveRequest, Loaded,
}
use takeln.Store.Memory.Claim.{status_text}
use takeln.Store.Memory.Data.{Machine}
use takeln.Store.Sqlite.Data.{Row, Database, Engine}
use takeln.Store.Sqlite.Ops.{
  parse_status, encode, decode, has_id, draw, new_row, insert_row, save_state, row_meta, load_row,
  load_found, load_version,
}

-- `serde_json` reads back what it writes for the saved values, and `chrono` the time of the save.
pub record ReadsBack {S V : Type 0} (engine : Engine S V) (r : SaveRequest S V) (now : ℕ)
    : Type 0 where
  pub state :
      (text : String)
      → engine.state_to_string r.state ≡ inl text
      → engine.state_from_str text ≡ inl r.state
  pub dag :
      (d : Dag) (text : String)
      → r.dag ≡ some d
      → engine.dag_to_string d ≡ inl text
      → engine.dag_from_str text ≡ inl d
  pub request :
      (q : YieldRequest V) (text : String)
      → r.yield_request ≡ some q
      → engine.request_to_string q ≡ inl text
      → engine.request_from_str text ≡ inl q
  pub time : engine.parse_from_rfc3339 (engine.to_rfc3339 now) ≡ some now

parse-status_text : (s : CheckpointStatus) → parse_status (status_text s) ≡ s
unfolding parse_status status_text
parse-status_text complete = refl
parse-status_text running = refl
parse-status_text yielded = refl
parse-status_text failed = refl
parse-status_text interrupted = refl

Result-cases :
    {C A : Type 0} (r : Result C A) → ((a : A) × (r ≡ ok a)) ⊎ ((e : TakelnError C) × (r ≡ err e))
Result-cases (ok a) = inl (a, refl)
Result-cases (err e) = inr (e, refl)

Sum-cases : {A B : Type 0} (s : A ⊎ B) → ((a : A) × (s ≡ inl a)) ⊎ ((b : B) × (s ≡ inr b))
Sum-cases (inl a) = inl (a, refl)
Sum-cases (inr b) = inr (b, refl)

decode-encode :
    {C A : Type 0} (f : A → String ⊎ String) (g : String → A ⊎ String) (o : Option A)
    (text : Option String)
    → ((a : A) (s : String) → o ≡ some a → f a ≡ inl s → g s ≡ inl a)
    → encode {C = C} f o ≡ ok text
    → decode {C = C} g text ≡ ok o
decode-encode f g none text h e = ground arith
decode-encode f g (some a) text h e = elim (Sum-cases (f a)) [
  | inl (s, k) ↦ ground (arith, h a s refl k)
  | inr (m, k) ↦ ground arith
]

-- A row with a new key is found by it.
find?-inserted :
    (t i : String) (r : Row) (l : List Row)
    → r.thread_id ≡ t
    → r.id ≡ i
    → has_id i l ≡ false
    → find? (λ x. x.thread_id == t && x.id == i) (l ++ r ∷ []) ≡ some r
find?-inserted t i r [] h k n = ground (arith, eq_iff r.thread_id t, eq_iff r.id i)
find?-inserted t i r (x ∷ l) h k n = ground (arith, find?-inserted t i r l h k)

-- What a successful save has stored.
pub record Saved {S V : Type 0} (C : Type 0) (engine : Engine S V) (r : SaveRequest S V)
    (db : Database) (id : String) (db' : Database) : Type 0 where
  pub state : String
  pub dag : Option String
  pub request : Option String
  pub state_saved : engine.state_to_string r.state ≡ inl state
  pub dag_saved : encode {C = C} engine.dag_to_string r.dag ≡ ok dag
  pub request_saved : encode {C = C} engine.request_to_string r.yield_request ≡ ok request
  pub key : db.machine.uuids db.machine.drawn ≡ id
  pub fresh : has_id id db.rows ≡ false
  pub rows : db'.rows ≡ db.rows ++ new_row engine r db.machine state dag request ∷ []
  pub clock : db'.machine.now ≡ db.machine.now

-- A successful `INSERT` is one of a new key.
insert_row-ok :
    {S V C : Type 0} (engine : Engine S V) (r : Row) (db : Database) (id : String)
    → (insert_row {C = C} engine r db).0 ≡ ok id
    → (r.id ≡ id)
      × (has_id r.id db.rows ≡ false)
      × ((insert_row {C = C} engine r db).1 ≡ record db { rows = db.rows ++ r ∷ [] })
unfolding insert_row
insert_row-ok engine r db id h = elim (Bool-cases (has_id r.id db.rows)) [
  | inl e ↦ ground arith
  | inr e ↦ (ground arith, e, rw e refl)
]

module _ {S V : Type 0} where
  -- What a save of the request at a time hands back.
  abbrev pub loaded : SaveRequest S V → (id : String) → (now : ℕ) → Loaded S V
  loaded r id now = (
    r.state,
    record {
      checkpoint_id = id;
      thread_id = r.thread_id;
      next_node = r.next_node;
      graph_version = none;
      state_schema_version = none;
      status = r.status;
      created_at = now;
      yield_request = r.yield_request;
      claimed_interrupt = r.claimed_interrupt;
      resolved_interrupt = r.resolved_interrupt;
    },
    r.dag,
  )

module _ {S V : Type 0} (C : Type 0) (engine : Engine S V) where
  pub save-Saved :
      (r : SaveRequest S V) (db : Database) (id : String)
      → (save_state {C = C} engine r db).0 ≡ ok id
      → Saved C engine r db id (save_state {C = C} engine r db).1
  unfolding save_state new_row
  save-Saved r db id h = elim (Sum-cases (engine.state_to_string r.state)) [
    | inr (e, k) ↦ ground arith
    | inl (state, k) ↦ elim (Result-cases (encode {C = C} engine.dag_to_string r.dag)) [
      | inr (e, k') ↦ ground arith
      | inl (dag, k') ↦
          elim (Result-cases (encode {C = C} engine.request_to_string r.yield_request)) [
            | inr (e, k'') ↦ ground arith
            | inl (request, k'') ↦
                let row = new_row engine r db.machine state dag request in
                let step : save_state {C = C} engine r db
                    ≡ insert_row {C = C} engine row (draw db) =
                  rw (k, save_state) (rw k' (rw k'' refl)) in
                let (key, fresh, after) =
                  insert_row-ok {C = C} engine row (draw db) id (sym (ap (λ x. x.0) step) ∙ h) in
                record {
                  state = state;
                  dag = dag;
                  request = request;
                  state_saved = k;
                  dag_saved = k';
                  request_saved = k'';
                  key = key;
                  fresh = subst (λ x. has_id x db.rows ≡ false) key fresh;
                  rows = ap (λ x. x.1.rows) step ∙ ap (λ x. x.rows) after;
                  clock = ap (λ x. x.1.machine.now) step ∙ ap (λ x. x.machine.now) after;
                }
          ]
    ]
  ]

  load_row-new_row :
      (r : SaveRequest S V) (m : Machine) (now : ℕ) (state : String) (dag request : Option String)
      → engine.parse_from_rfc3339 (engine.to_rfc3339 m.now) ≡ some m.now
      → engine.state_from_str state ≡ inl r.state
      → decode {C = C} engine.dag_from_str dag ≡ ok r.dag
      → decode {C = C} engine.request_from_str request ≡ ok r.yield_request
      → load_row {C = C} engine now (new_row engine r m state dag request)
        ≡ ok (some (loaded r (m.uuids m.drawn) m.now))
  unfolding load_row new_row row_meta
  load_row-new_row r m now state dag request time s d q =
      rw (s, load_row) (rw d (rw q (rw (time) (rw (parse-status_text r.status) refl))))

  new_row-thread :
      (r : SaveRequest S V) (m : Machine) (state : String) (dag request : Option String)
      → (new_row engine r m state dag request).thread_id ≡ r.thread_id
  unfolding new_row
  new_row-thread r m state dag request = refl

  new_row-id :
      (r : SaveRequest S V) (m : Machine) (state : String) (dag request : Option String)
      → (new_row engine r m state dag request).id ≡ m.uuids m.drawn
  unfolding new_row
  new_row-id r m state dag request = refl

  -- The checkpoint that a successful save of the SQLite store has stored is what `load_version` hands
  -- out under the returned identifier: the state and the DAG that were saved, and their metadata with
  -- the time of the save, provided that `serde_json` reads back what it writes for the saved state, DAG
  -- and yield request, and `chrono` reads back the time.
  pub load_version-save :
      (r : SaveRequest S V) (db : Database) (id : String)
      → ReadsBack engine r db.machine.now
      → (save_state {C = C} engine r db).0 ≡ ok id
      → (load_version {C = C} engine r.thread_id id (save_state {C = C} engine r db).1).0
        ≡ ok (some (loaded r id db.machine.now))
  unfolding load_version load_found
  load_version-save r db id laws h =
      let s = save-Saved r db id h in
      let row = new_row engine r db.machine s.state s.dag s.request in
      let found =
        find?-inserted r.thread_id id row db.rows (new_row-thread r _ _ _ _)
          (new_row-id r _ _ _ _ ∙ s.key) s.fresh in
      let read =
        load_row-new_row r db.machine (save_state {C = C} engine r db).1.machine.now s.state s.dag
          s.request laws.time (laws.state s.state s.state_saved)
          (decode-encode {C = C} engine.dag_to_string engine.dag_from_str r.dag s.dag laws.dag
            s.dag_saved)
          (decode-encode {C = C} engine.request_to_string engine.request_from_str r.yield_request
            s.request laws.request s.request_saved) in
      rw s.rows (rw found (read ∙ ap (λ i. ok (some (loaded r i db.machine.now))) s.key))
