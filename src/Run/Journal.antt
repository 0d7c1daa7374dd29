-- ===== src/Run/Journal.antt =====
-- A store that notes the calls of the optimistic concurrency in src/graph.rs: what the head was read as,
-- and each bound write with its answer. The store below is any store at all. Other writers, and a node that
-- holds the store itself, act between the calls: what they do is a part of what the store's operations do.
use takeln.Base.{◌≡◌, String, Option, none, some, List, [], ◌∷◌}
use takeln.Error.{Result, ok, err}
use takeln.Checkpoint.{
  CheckpointProof, CheckpointSave, created, advanced, idempotent_replay, conflict, SaveRequest,
  Checkpointer,
}
use takeln.Exec.Defs.{Exec}

pub data StoreCall (S V C : Type 0) : Type 0 where
  head_read : (thread_id : String) → Result C (Option String) → StoreCall S V C
  bound_write : SaveRequest S V → CheckpointProof → Result C CheckpointSave → StoreCall S V C

-- The store, and the calls on it, newest first.
pub record Journaled (S V C St : Type 0) : Type 0 where
  pub store : St
  pub calls : List (StoreCall S V C)

module _ {S V C St : Type 0} where
  abbrev through : {A : Type 0} → (St → A × St) → Journaled S V C St → A × Journaled S V C St
  through op j = let (a, st) = op j.store in (a, record { store = st; calls = j.calls })

  abbrev noting :
      {A : Type 0}
      → (A → StoreCall S V C)
      → (St → A × St)
      → Journaled S V C St
      → A × Journaled S V C St
  noting call op j =
      let (a, st) = op j.store in (a, record { store = st; calls = call a ∷ j.calls })

  abbrev pub journaled : Checkpointer S V C St → Checkpointer S V C (Journaled S V C St)
  journaled cp = record {
    backend = record {
      save_state = λ r. through (cp.backend.save_state r);
      load_state = λ t. through (cp.backend.load_state t);
      load_version = λ t i. through (cp.backend.load_version t i);
      list_checkpoints = λ t. through (cp.backend.list_checkpoints t);
      delete_checkpoints = λ t p. through (cp.backend.delete_checkpoints t p);
      claim_interrupt = λ t i. through (cp.backend.claim_interrupt t i);
    };
    current_head = λ t. noting (head_read t) (cp.current_head t);
    save_state_bound = λ r p. noting (bound_write r p) (cp.save_state_bound r p);
  }

module _ {S V C : Type 0} where
  -- The head that the caller wrote last, or else read, whatever the store has by now; `none` before the
  -- first read.
  abbrev pub own_head : List (StoreCall S V C) → Option (Option String)
  own_head [] = none
  own_head (head_read _ (ok head) ∷ l) = some head
  own_head (head_read _ (err _) ∷ l) = own_head l
  own_head (bound_write _ _ (ok (created i)) ∷ l) = some (some i)
  own_head (bound_write _ _ (ok (advanced i)) ∷ l) = some (some i)
  own_head (bound_write _ _ (ok (idempotent_replay i)) ∷ l) = some (some i)
  own_head (bound_write _ _ (ok (conflict _)) ∷ l) = own_head l
  own_head (bound_write _ _ (err _) ∷ l) = own_head l

  -- The calls are on the thread, and each write expects the head that the caller itself wrote or read last.
  abbrev pub IsChained : String → List (StoreCall S V C) → Type 0
  IsChained t [] = Unit
  IsChained t (head_read u _ ∷ l) = (u ≡ t) × IsChained t l
  IsChained t (bound_write r p _ ∷ l) =
      (r.thread_id ≡ t) × (own_head l ≡ some p.expected_head) × IsChained t l

-- A caller that has made no call yet.
abbrev pub before_calls : {S V C W St : Type 0} → Exec C W St → Exec C W (Journaled S V C St)
before_calls x = record {
  env = x.env;
  store = record { store = x.store; calls = [] };
  event_seq = x.event_seq;
  events = x.events;
  spans = x.spans;
  metrics = x.metrics;
  records = x.records;
  last_head = none;
  dag = x.dag;
}
