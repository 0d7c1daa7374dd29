-- ===== src/Resume/Rollback.antt =====
-- The rollback of a failed resume in src/graph.rs, over any store: another writer may have moved the head.
use takeln.Base.{◌≡◌, String, Option, none, some, [], ◌∷◌, concat, unwrap_or}
use takeln.Hitl.{YieldRequest}
use takeln.Error.{TakelnError, execution_error, Result, ok, err}
use takeln.Checkpoint.{
  CheckpointSave, created, advanced, idempotent_replay, conflict, yielded, SaveRequest,
  Checkpointer, checkpoint_proof,
}
use takeln.Context.{Host}
use takeln.Graph.{Graph}
use takeln.Schema.{JsonView}
use takeln.Exec.Defs.{Exec, Outcome, done, fail, hang}
use takeln.Run.Journal.{Journaled, journaled, own_head}

-- The checkpoint that a rollback writes: the state before the run, waiting for the same interrupt.
abbrev pub rollback_request :
    {S V : Type 0} → String → S → String → YieldRequest V → SaveRequest S V
rollback_request thread_id state next_node request = record {
  thread_id = thread_id;
  state = state;
  next_node = next_node;
  dag = none;
  status = yielded;
  yield_request = some request;
  claimed_interrupt = none;
  resolved_interrupt = none;
}

module _ {S V C W : Type 0} (host : Host S V C W) where
  -- The error of a run, joined by the error of its rollback.
  abbrev pub rollback_failed : (run save : TakelnError C) → TakelnError C
  rollback_failed run save = execution_error (
      concat (
        "Execution failed: "
        ∷ host.error_text run
        ∷ ". Rollback save failed: "
        ∷ host.error_text save
        ∷ []))

  -- The error that the caller is answered, by what the store said to the rollback's write.
  abbrev pub rollback_error : TakelnError C → Result C CheckpointSave → TakelnError C
  rollback_error e (ok (created _)) = e
  rollback_error e (ok (advanced _)) = e
  rollback_error e (ok (idempotent_replay _)) = e
  rollback_error e (ok (conflict actual)) = rollback_failed e (
      execution_error
        (concat ("checkpoint head conflict; actual head: " ∷ unwrap_or actual "<genesis>" ∷ [])))
  rollback_error e (err f) = rollback_failed e f

module _ {S V C W St : Type 0} (host : Host S V C W) (json : JsonView V) (graph : Graph S V C W)
    (cp : Checkpointer S V C St) where
  -- From `w` to `z` there is one write, of the request against the head, and its answer decides the error.
  abbrev pub WritesBack :
      SaveRequest S V
      → (head : Option String) → TakelnError C
      → (w : Exec C W St) → Outcome C (Option S) × Exec C W St
      → Type 0
  WritesBack request head e w (answer, z) =
      let (saved, st) = cp.save_state_bound request (checkpoint_proof head) w.store in
      (z ≡ record w { store = st }) × (answer ≡ fail (rollback_error host e saved))

  -- Where the run has no head of its own, the head is read for the write, which a failed read prevents.
  abbrev pub ReadsAndWrites :
      SaveRequest S V
      → TakelnError C
      → (w : Exec C W St) → Result C (Option String) × St
      → Outcome C (Option S) × Exec C W St
      → Type 0
  ReadsAndWrites request e w (ok head, st) r = WritesBack request head e (record w { store = st }) r
  ReadsAndWrites request e w (err f, st) (answer, z) =
      (z ≡ record w { store = st }) × (answer ≡ fail (rollback_failed host e f))

  abbrev pub ExtendsOwn :
      SaveRequest S V
      → Option (Option String)
      → TakelnError C
      → (w : Exec C W St) → Outcome C (Option S) × Exec C W St
      → Type 0
  ExtendsOwn request (some head) e w r = WritesBack request head e w r
  ExtendsOwn request none e w r =
      ReadsAndWrites request e w (cp.current_head request.thread_id w.store) r

module _ {S V C W St : Type 0} (host : Host S V C W) (json : JsonView V) (graph : Graph S V C W)
    (cp : Checkpointer S V C St) where
  -- The rollback of a run with the given end.
  abbrev pub RolledBack :
      String
      → S
      → String
      → YieldRequest V
      → Outcome C S × Exec C W (Journaled S V C St)
      → Outcome C (Option S) × Exec C W (Journaled S V C St)
      → Type 0
  RolledBack t state node request (done final, y) (answer, z) =
      (answer ≡ done (some final)) × (z ≡ y)
  RolledBack t state node request (hang, y) (answer, z) = (answer ≡ hang) × (z ≡ y)
  RolledBack t state node request (fail e, y) r =
      ExtendsOwn host json graph (journaled cp) (rollback_request t state node request)
        (own_head y.store.calls) e y r
