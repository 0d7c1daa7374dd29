-- ===== src/Store/Memory/Ops.antt =====
-- Saving, loading, listing and deleting in src/store/memory.rs.
use takeln.Base.{
  ℕ, ◌+◌, ◌-◌, inl, inr, List, [], ◌∷◌, ◌++◌, map, Option, none, some, String, ◌==◌, ltb, leb,
  length, drop, filter, find?, last?, if◌then◌else◌, lookup, insert,
}
use takeln.Error.{Result, ok, err, serialization_error, deserialization_error, checkpoint_error}
use takeln.Checkpoint.{
  CheckpointMeta, RetentionPolicy, keep_all, keep_last, older_than, SaveRequest, Loaded,
}
use takeln.Store.Memory.Data.{
  MemoryCheckpoint, Machine, MemoryStore, Serde, checkpoints, put_thread,
}

module _ {V : Type 0} where
  -- `MemoryCheckpoint::to_meta`
  unfoldable pub to_meta : String → MemoryCheckpoint V → CheckpointMeta V
  to_meta thread_id c = record {
    checkpoint_id = c.checkpoint_id;
    thread_id = thread_id;
    next_node = c.next_node;
    graph_version = none;
    state_schema_version = none;
    status = c.status;
    created_at = c.created_at;
    yield_request = c.yield_request;
    claimed_interrupt = c.claimed_interrupt;
    resolved_interrupt = c.resolved_interrupt;
  }

  -- `InMemoryCheckpointer::new`
  unfoldable pub new_store : Machine → MemoryStore V
  new_store m = record { threads = []; machine = m }

module _ {S V : Type 0} where
  -- What is pushed: the serialised state beside the request's fields.
  unfoldable pub new_checkpoint : SaveRequest S V → V → Machine → MemoryCheckpoint V
  new_checkpoint r value m = record {
    checkpoint_id = m.uuids m.drawn;
    state = value;
    next_node = r.next_node;
    dag = r.dag;
    status = r.status;
    created_at = m.now;
    yield_request = r.yield_request;
    claimed_interrupt = r.claimed_interrupt;
    resolved_interrupt = r.resolved_interrupt;
  }

module _ {S V C : Type 0} (serde : Serde S V) where
  unfoldable pub save_state : SaveRequest S V → MemoryStore V → Result C String × MemoryStore V
  unfolding new_checkpoint
  save_state r st = elim (serde.to_value r.state) [
    | inr e ↦ (err (serialization_error e), st)
    | inl value ↦ (
      ok (st.machine.uuids st.machine.drawn),
      record {
        threads =
            insert r.thread_id
              (checkpoints r.thread_id st ++ new_checkpoint r value st.machine ∷ []) st.threads;
        machine = record {
          uuids = st.machine.uuids;
          drawn = st.machine.drawn + 1;
          now = st.machine.now;
        };
      },
    )
  ]

  -- A stored checkpoint as `load_state` and `load_version` hand it out.
  unfoldable pub load_checkpoint : String → MemoryCheckpoint V → Result C (Option (Loaded S V))
  unfolding to_meta
  load_checkpoint thread_id c = elim (serde.from_value c.state) [
    | inr e ↦ err (deserialization_error e)
    | inl state ↦ ok (some (state, to_meta thread_id c, c.dag))
  ]

  unfoldable pub load_state :
      String → MemoryStore V → Result C (Option (Loaded S V)) × MemoryStore V
  unfolding load_checkpoint
  load_state thread_id st = (
    elim (last? (checkpoints thread_id st)) [
      | none ↦ ok none
      | some c ↦ load_checkpoint thread_id c
    ],
    st,
  )

  unfoldable pub load_version :
      String → String → MemoryStore V → Result C (Option (Loaded S V)) × MemoryStore V
  unfolding load_checkpoint
  load_version thread_id checkpoint_id st = (
    elim (find? (λ c. c.checkpoint_id == checkpoint_id) (checkpoints thread_id st)) [
      | none ↦ ok none
      | some c ↦ load_checkpoint thread_id c
    ],
    st,
  )

module _ {V C : Type 0} where
  unfoldable pub list_checkpoints :
      String → MemoryStore V → Result C (List (CheckpointMeta V)) × MemoryStore V
  unfolding to_meta
  list_checkpoints thread_id st = (ok (map (to_meta thread_id) (checkpoints thread_id st)), st)

  -- The checkpoints that a policy keeps, and the count of those it deletes. A cutoff before zero is zero;
  -- the panic of a date below chrono's range is left out.
  unfoldable pub retain :
      (max_duration now : ℕ)
      → RetentionPolicy
      → List (MemoryCheckpoint V)
      → Result C ℕ × List (MemoryCheckpoint V)
  retain max_duration now keep_all l = (ok 0, l)
  retain max_duration now (keep_last n) l =
      if ltb n (length l) then (ok (length l - n), drop (length l - n) l) else (ok 0, l)
  retain max_duration now (older_than duration) l =
      let kept = filter (λ c. leb (now - duration) c.created_at) l in
      if ltb max_duration duration
      then (err (checkpoint_error "Source duration value is out of range for the target type"), l)
      else (ok (length l - length kept), kept)

  unfoldable pub delete_checkpoints :
      (max_duration : ℕ) → String → RetentionPolicy → MemoryStore V → Result C ℕ × MemoryStore V
  unfolding retain
  delete_checkpoints max_duration thread_id policy st = elim (lookup thread_id st.threads) [
    | none ↦ (ok 0, st)
    | some l ↦
        let (count, kept) = retain max_duration st.machine.now policy l in
        (count, put_thread thread_id kept st)
  ]
