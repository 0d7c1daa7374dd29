-- ===== src/Tests/Tabling.antt =====
-- The theorems on src/store/sqlite.rs at concrete data: an engine that sorts by insertion, and a table
-- with a thread that waits for an approval.
use takeln.Base.{
  ◌⊎◌, ℕ, ◌≤◌, ◌≡◌, refl, ◌∙◌, ap, arith, inl, inr, Bool, true, false, String, ◌==◌, Option, some,
  none, List, [], ◌∷◌, map, ltb, nat_eq, eq_iff, ◌≢◌, unwrap_or, if◌then◌else◌,
}
use takeln.Error.{ok}
use takeln.Dag.Data.{Dag}
use takeln.Checkpoint.{CheckpointStatus, claimed, already_completed, keep_last, SaveRequest}
use takeln.Store.Memory.SingleWinner.{winners}
use takeln.Store.Sqlite.Data.{Row, Database, Engine}
use takeln.Store.Sqlite.Ops.{of_thread, save_state, load_version, new_row, insert_row}
use takeln.Store.Sqlite.Delete.{delete_checkpoints}
use takeln.Store.Sqlite.Claim.{claim_interrupt, update_claim, refusal}
use takeln.Store.Sqlite.SingleWinner.{SortsByTime, serve_claims, sqlite_single_winner}
use takeln.Store.Sqlite.RoundTrip.{ReadsBack, loaded, load_version-save}
use takeln.Store.Sqlite.Resolved.{claim-save_completed}
use takeln.Store.Sqlite.Isolation.{delete-others}
use takeln.Store.Sqlite.Keys.{has_distinct_ids, keys_kept}
use takeln.Tests.Samples.{Json, approval, answer_request}

abbrev read_time : String → Option ℕ
read_time s =
    if s == "2026-01-01T00:00:03+00:00"
    then some 3
    else if s == "2026-01-01T00:00:09+00:00"
    then some 9
    else none

abbrev write_time : ℕ → String
write_time n = if nat_eq n 3 then "2026-01-01T00:00:03+00:00" else "2026-01-01T00:00:09+00:00"

abbrev earlier : String → String → Bool
earlier a b = ltb (unwrap_or (read_time a) 0) (unwrap_or (read_time b) 0)

abbrev sort_in : Row → List Row → List Row
sort_in r [] = r ∷ []
sort_in r (x ∷ l) =
    let rest = sort_in r l in if earlier x.created_at r.created_at then r ∷ x ∷ l else x ∷ rest

abbrev newest_first : List Row → List Row
newest_first [] = []
newest_first (r ∷ l) = sort_in r (newest_first l)

abbrev asked_dag : Dag
asked_dag = record { id = 7; nodes = []; created_at = 3 }

abbrev table_engine : Engine ℕ Json
table_engine = record {
  ascending = λ s l. l;
  descending = λ s l. newest_first l;
  text_lt = earlier;
  bind_count = λ n. none;
  constraint = "UNIQUE constraint failed";
  to_rfc3339 = write_time;
  parse_from_rfc3339 = read_time;
  max_duration = 1000;
  state_to_string = λ n. if nat_eq n 5 then inl "5" else inr "not a known state";
  state_from_str = λ s. inl 5;
  dag_to_string = λ d. inl "dag";
  dag_from_str = λ s. if s == "dag" then inl asked_dag else inr "no graph";
  request_to_string = λ r. inl "approval";
  request_from_str = λ s. if s == "approval" then inl approval else inr "no request";
}

abbrev saved_five : SaveRequest ℕ Json
saved_five = answer_request (some "approve")

-- A checkpoint that waits for an approval, in a DAG.
abbrev asked_five : SaveRequest ℕ Json
asked_five = record (answer_request none) {
  dag = some asked_dag;
  status = CheckpointStatus.yielded;
  yield_request = some approval;
}

abbrev waiting_row : Row
waiting_row = record {
  id = "c1";
  thread_id = "t1";
  state = "5";
  next_node = "review";
  dag = none;
  status = "Yielded";
  created_at = "2026-01-01T00:00:03+00:00";
  yield_request = some "approval";
  claimed_interrupt = none;
  resolved_interrupt = none;
}

abbrev waiting_table : Database
waiting_table = record {
  rows = waiting_row ∷ [];
  machine = record { uuids = λ n. "c2"; drawn = 1; now = 9 };
}

map-if :
    (f : Row → Row) (c b : Bool) (xs ys zs : List Row)
    → c ≡ b
    → zs ≡ map f ys
    → (if c then map f xs else zs) ≡ map f (if b then xs else ys)
map-if f c true xs ys zs e h = rw e refl
map-if f c false xs ys zs e h = rw e h

sort_in-map :
    (f : Row → Row) (r : Row) (l : List Row)
    → ((x : Row) → (f x).created_at ≡ x.created_at)
    → sort_in (f r) (map f l) ≡ map f (sort_in r l)
sort_in-map f r [] h = refl
sort_in-map f r (x ∷ l) h =
    map-if f (earlier (f x).created_at (f r).created_at) (earlier x.created_at r.created_at)
      (r ∷ x ∷ l) (x ∷ sort_in r l) (f x ∷ sort_in (f r) (map f l))
      (ap (λ a. earlier a (f r).created_at) (h x) ∙ ap (λ b. earlier x.created_at b) (h r))
      (ap (λ xs. f x ∷ xs) (sort_in-map f r l h))

newest_first-map :
    (f : Row → Row) (l : List Row)
    → ((x : Row) → (f x).created_at ≡ x.created_at)
    → newest_first (map f l) ≡ map f (newest_first l)
newest_first-map f [] h = refl
newest_first-map f (r ∷ l) h = rw (newest_first-map f l h) (sort_in-map f r (newest_first l) h)

table-SortsByTime : SortsByTime table_engine
unfolding SortsByTime
table-SortsByTime s f l h = newest_first-map f l h

abbrev written : String ⊎ String → String
written (inl text) = text
written (inr text) = text

asked_five-ReadsBack : ReadsBack table_engine asked_five 9
asked_five-ReadsBack = record {
  state = λ text h. refl;
  dag = λ d text saved h. rw⁻¹ (ap written h) (ap (λ o. inl (unwrap_or o asked_dag)) saved);
  request = λ q text saved h. rw⁻¹ (ap written h) (ap (λ o. inl (unwrap_or o approval)) saved);
  time = refl;
}

sqlite_single_winner_example :
    winners
      (serve_claims {C = ℕ} table_engine "t1"
        ("other" ∷ "approve" ∷ "approve" ∷ [])
        waiting_table).0
    ≤ 1
sqlite_single_winner_example =
    sqlite_single_winner ℕ table_engine table-SortsByTime "t1"
      ("other" ∷ "approve" ∷ "approve" ∷ []) waiting_table

-- The engine grants the claim that names the interrupt.
table_claim : (claim_interrupt {C = ℕ} table_engine "t1" "approve" waiting_table).0 ≡ ok claimed
unfolding claim_interrupt update_claim refusal
table_claim = refl

saved_refl : (save_state {C = ℕ} table_engine saved_five waiting_table).0 ≡ ok "c2"
unfolding save_state insert_row new_row
saved_refl = refl

asked_refl : (save_state {C = ℕ} table_engine asked_five waiting_table).0 ≡ ok "c2"
unfolding save_state insert_row new_row
asked_refl = refl

load_version-save_example :
    (load_version {C = ℕ} table_engine "t1" "c2"
      (save_state {C = ℕ} table_engine asked_five waiting_table).1).0
    ≡ ok (some (loaded asked_five "c2" 9))
load_version-save_example =
    load_version-save ℕ table_engine asked_five waiting_table "c2" asked_five-ReadsBack asked_refl

keys_kept_example :
    (has_distinct_ids (save_state {C = ℕ} table_engine saved_five waiting_table).1.rows ≡ true)
    × (has_distinct_ids
          (delete_checkpoints {C = ℕ} table_engine "t1" (keep_last 0) waiting_table).1.rows
        ≡ true)
    × (has_distinct_ids (claim_interrupt {C = ℕ} table_engine "t1" "approve" waiting_table).1.rows
        ≡ true)
keys_kept_example =
    keys_kept ℕ table_engine waiting_table saved_five "t1" "approve" (keep_last 0) refl

claim-save_completed_example :
    let st = (save_state {C = ℕ} table_engine saved_five waiting_table).1 in
    claim_interrupt {C = ℕ} table_engine "t1" "approve" st ≡ (ok already_completed, st)
claim-save_completed_example =
    claim-save_completed ℕ table_engine saved_five waiting_table "c2" "approve" saved_refl refl

table_threads : ◌≢◌ {A = String} "t2" "t1"
table_threads = ground (arith, eq_iff "t2" "t1")

abbrev two_threads : Database
two_threads = record waiting_table {
  rows = record waiting_row { id = "c0"; thread_id = "t2" } ∷ waiting_row ∷ [];
}

delete-others_example :
    of_thread "t1" (delete_checkpoints {C = ℕ} table_engine "t2" (keep_last 0) two_threads).1.rows
    ≡ waiting_row ∷ []
delete-others_example =
    delete-others ℕ table_engine "t2" "t1" (keep_last 0) two_threads table_threads
