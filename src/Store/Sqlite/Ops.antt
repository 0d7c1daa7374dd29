-- ===== src/Store/Sqlite/Ops.antt =====
-- Saving, loading, listing and deleting in src/store/sqlite.rs.
use takeln.Base.{
  ℕ, ◌+◌, ◌⊎◌, inl, inr, Bool, ◌&&◌, List, [], ◌∷◌, ◌++◌, Option, none, some, String, ◌==◌, filter,
  any, find?, concat, unwrap_or, if◌then◌else◌,
}
use takeln.Error.{Result, ok, err, serialization_error, deserialization_error, checkpoint_error}
use takeln.Checkpoint.{
  CheckpointMeta, CheckpointStatus, complete, running, yielded, failed, interrupted, SaveRequest,
  Loaded,
}
use takeln.Hitl.{YieldRequest}
use takeln.Store.Memory.Data.{Machine}
use takeln.Store.Memory.Claim.{status_text}
use takeln.Store.Sqlite.Data.{Row, Database, Engine, load_latest, list_thread}

-- `parse_status`: an unknown text counts as `Complete`.
unfoldable pub parse_status : String → CheckpointStatus
parse_status s =
    if s == "Complete"
    then complete
    else if s == "Running"
    then running
    else if s == "Yielded"
    then yielded
    else if s == "Failed"
    then failed
    else if s == "Interrupted"
    then interrupted
    else complete

module _ {C A : Type 0} where
  -- `.map(f).transpose().map_err(...)`
  abbrev pub encode : (A → String ⊎ String) → Option A → Result C (Option String)
  encode f none = ok none
  encode f (some a) = elim (f a) [ inr e ↦ err (serialization_error e) | inl s ↦ ok (some s) ]

  abbrev pub decode : (String → A ⊎ String) → Option String → Result C (Option A)
  decode f none = ok none
  decode f (some s) = elim (f s) [ inr e ↦ err (deserialization_error e) | inl a ↦ ok (some a) ]

-- `WHERE thread_id = ?1`
abbrev pub of_thread : String → List Row → List Row
of_thread t l = filter (λ r. r.thread_id == t) l

abbrev pub has_id : String → List Row → Bool
has_id i l = any (λ r. r.id == i) l

-- `ORDER BY created_at DESC LIMIT 1` of the sorted rows.
abbrev pub first_row : List Row → Option Row
first_row [] = none
first_row (r ∷ _) = some r

abbrev pub first_id : List Row → Option String
first_id [] = none
first_id (r ∷ _) = some r.id

-- `Uuid::new_v4`
abbrev pub draw : Database → Database
draw db = record db {
  machine = record { uuids = db.machine.uuids; drawn = db.machine.drawn + 1; now = db.machine.now };
}

module _ {S V : Type 0} (engine : Engine S V) where
  -- The row of `INSERT`, its three encoded columns given.
  unfoldable pub new_row :
      SaveRequest S V → Machine → (state : String) (dag yield_request : Option String) → Row
  new_row r m state dag yield_request = record {
    id = m.uuids m.drawn;
    thread_id = r.thread_id;
    state = state;
    next_node = r.next_node;
    dag = dag;
    status = status_text r.status;
    created_at = engine.to_rfc3339 m.now;
    yield_request = yield_request;
    claimed_interrupt = r.claimed_interrupt;
    resolved_interrupt = r.resolved_interrupt;
  }

  -- The metadata of a row, its yield request given; a time that does not parse is replaced by the clock.
  unfoldable pub row_meta : (now : ℕ) → Row → Option (YieldRequest V) → CheckpointMeta V
  unfolding parse_status
  row_meta now r request = record {
    checkpoint_id = r.id;
    thread_id = r.thread_id;
    next_node = r.next_node;
    graph_version = none;
    state_schema_version = none;
    status = parse_status r.status;
    created_at = unwrap_or (engine.parse_from_rfc3339 r.created_at) now;
    yield_request = request;
    claimed_interrupt = r.claimed_interrupt;
    resolved_interrupt = r.resolved_interrupt;
  }

module _ {S V C : Type 0} (engine : Engine S V) where
  -- `INSERT INTO takeln_checkpoints`; `id` is the primary key.
  unfoldable pub insert_row : Row → Database → Result C String × Database
  insert_row r db =
      if has_id r.id db.rows
      then (err (checkpoint_error (concat ("Failed to save: " ∷ engine.constraint ∷ []))), db)
      else (ok r.id, record db { rows = db.rows ++ r ∷ [] })

  unfoldable pub save_state : SaveRequest S V → Database → Result C String × Database
  unfolding new_row insert_row
  save_state r db = elim (engine.state_to_string r.state) [
    | inr e ↦ (err (serialization_error e), draw db)
    | inl state ↦ elim (encode {C = C} engine.dag_to_string r.dag) [
      | err e ↦ (err e, draw db)
      | ok dag ↦ elim (encode {C = C} engine.request_to_string r.yield_request) [
        | err e ↦ (err e, draw db)
        | ok request ↦ insert_row (new_row engine r db.machine state dag request) (draw db)
      ]
    ]
  ]

  -- A row as `load_state` and `load_version` hand it out.
  unfoldable pub load_row : (now : ℕ) → Row → Result C (Option (Loaded S V))
  unfolding row_meta
  load_row now r = elim (engine.state_from_str r.state) [
    | inr e ↦ err (deserialization_error e)
    | inl state ↦ elim (decode {C = C} engine.dag_from_str r.dag) [
      | err e ↦ err e
      | ok dag ↦ elim (decode {C = C} engine.request_from_str r.yield_request) [
        | err e ↦ err e
        | ok request ↦ ok (some (state, row_meta engine now r request, dag))
      ]
    ]
  ]

  unfoldable pub load_found : (now : ℕ) → Option Row → Result C (Option (Loaded S V))
  unfolding load_row
  load_found now none = ok none
  load_found now (some r) = load_row now r

  unfoldable pub load_state : String → Database → Result C (Option (Loaded S V)) × Database
  unfolding load_found
  load_state t db = (
    load_found db.machine.now (first_row (engine.descending load_latest (of_thread t db.rows))),
    db,
  )

  -- `WHERE thread_id = ?1 AND id = ?2`
  unfoldable pub load_version :
      String → String → Database → Result C (Option (Loaded S V)) × Database
  unfolding load_found
  load_version t checkpoint_id db = (
    load_found db.machine.now (find? (λ r. r.thread_id == t && r.id == checkpoint_id) db.rows),
    db,
  )

  -- The loop of `list_checkpoints`: the first row that does not decode ends it.
  unfoldable pub list_rows : (now : ℕ) → List Row → Result C (List (CheckpointMeta V))
  unfolding row_meta
  list_rows now [] = ok []
  list_rows now (r ∷ l) =
      let rest = list_rows now l in
      elim (decode {C = C} engine.request_from_str r.yield_request) [
        | err e ↦ err e
        | ok request ↦ elim rest [
          | err e ↦ err e
          | ok metas ↦ ok (row_meta engine now r request ∷ metas)
        ]
      ]

  unfoldable pub list_checkpoints :
      String → Database → Result C (List (CheckpointMeta V)) × Database
  unfolding list_rows
  list_checkpoints t db =
      (list_rows db.machine.now (engine.ascending list_thread (of_thread t db.rows)), db)
