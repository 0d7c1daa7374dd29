-- ===== src/Run/Head.antt =====
-- The optimistic concurrency of a run in src/graph.rs: over any store, the run expects the head that it wrote
-- or read last itself, and reports that head to its caller when it fails.
use takeln.Base.{◌≡◌, some, String, List, ◌∷◌}
use takeln.Checkpoint.{CheckpointProof, SaveRequest, Checkpointer}
use takeln.Context.{Host}
use takeln.Node.{done, Node}
use takeln.Graph.{Graph}
use takeln.Exec.Defs.{Exec, Outcome, fail, hang, Action}
use takeln.Run.Journal.{StoreCall, bound_write, own_head, IsChained}
use takeln.Run.Frame.{Frame, Round, stop, again}

-- The store notes each bound write with its answer.
abbrev pub NotesWrites :
    {S V C St : Type 0} → Checkpointer S V C St → (St → List (StoreCall S V C)) → Type 0
NotesWrites {S} {V} {C} {St} cp calls =
    (r : SaveRequest S V) (p : CheckpointProof) (st : St)
    → calls (cp.save_state_bound r p st).1
      ≡ bound_write r p (cp.save_state_bound r p st).0 ∷ calls st

module _ {S V C W St : Type 0} (calls : St → List (StoreCall S V C)) where
  -- The calls of a loop are chained, and where it fails it leaves the head tracked.
  abbrev pub OnFail : {A : Type 0} → String → Outcome C A × Exec C W St → Type 0
  OnFail t (Outcome.done a, x) = IsChained t (calls x.store)
  OnFail t (fail e, x) = (x.last_head ≡ own_head (calls x.store)) × IsChained t (calls x.store)
  OnFail t (hang, x) = IsChained t (calls x.store)

module _ {S V C W St : Type 0} (host : Host S V C W) (graph : Graph S V C W)
    (cp : Checkpointer S V C St) (calls : St → List (StoreCall S V C))
    (notes : NotesWrites cp calls) where
  -- The calls are chained, and the tracked head is the run's own.
  abbrev IsTracked : String → Exec C W St → Type 0
  IsTracked t x = (x.last_head ≡ own_head (calls x.store)) × IsChained t (calls x.store)

  -- So is the head that the next write expects.
  record IsSynced (f : Frame S V C) (x : Exec C W St) : Type 0 where
    expected : own_head (calls x.store) ≡ some f.expected_head
    tracked : IsTracked f.thread_id x

  -- What a round keeps: the calls are chained, another round starts in sync, and a failure leaves the head
  -- tracked.
  abbrev Post : Frame S V C → Outcome C (Round S V C) × Exec C W St → Type 0
  Post f (Outcome.done (stop s), x) = IsChained f.thread_id (calls x.store)
  Post f (Outcome.done (again f'), x) = (f'.thread_id ≡ f.thread_id) × IsSynced f' x
  Post f (fail e, x) = IsTracked f.thread_id x
  Post f (hang, x) = IsChained f.thread_id (calls x.store)

  -- An action that keeps this, as the rest of a round.
  abbrev IsRound : Frame S V C → Action C W St (Round S V C) → Type 0
  IsRound f m = (x : Exec C W St) → IsSynced f x → Post f (m x)

  -- A save makes its identifier the run's own head, or fails and leaves the head.
  abbrev SavePost : String → Exec C W St → Outcome C String × Exec C W St → Type 0
  SavePost t x (Outcome.done id, y) =
      (own_head (calls y.store) ≡ some (some id)) × IsChained t (calls y.store)
  SavePost t x (fail e, y) =
      (own_head (calls y.store) ≡ own_head (calls x.store))
      × (y.last_head ≡ x.last_head)
      × IsChained t (calls y.store)
  SavePost t x (hang, y) = ⊥

  -- What follows a save, whose identifier is the run's own head.
  abbrev FromHead : Frame S V C → String → Action C W St (Round S V C) → Type 0
  FromHead f id m =
      (y : Exec C W St)
      → own_head (calls y.store) ≡ some (some id)
      → IsChained f.thread_id (calls y.store)
      → Post f (m y)
