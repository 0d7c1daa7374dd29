-- ===== src/Store/Memory/History.antt =====
-- What src/store/memory.rs keeps: loading what was saved, resolved interrupts, and retention.
use takeln.Base.{
  ℕ, zero, suc, sym, ◌∙◌, ap, ◌+◌, ◌-◌, ◌<◌, min, ◌≡◌, refl, ◌≢◌, inl, inr, true, false, List, [],
  ◌∷◌, ◌++◌, none, some, String, ◌==◌, eq_iff, eq_refl, arith, any-append, drop, last?, last?-snoc,
  length, length-drop, length-filter-le, lookup, lookup-insert, leb, Option-cases,
}
use takeln.Error.{ok}
use takeln.Checkpoint.{
  already_completed, SaveRequest, RetentionPolicy, keep_all, keep_last, older_than,
}
use takeln.Store.Memory.Data.{MemoryCheckpoint, MemoryStore, Serde, checkpoints, put_thread}
use takeln.Store.Memory.Ops.{
  new_checkpoint, save_state, load_checkpoint, load_state, retain, delete_checkpoints,
}
use takeln.Store.Memory.Claim.{same_text, is_resolved, claim_interrupt}

module _ {V C : Type 0} where
  -- A resolved interrupt is not granted again.
  pub claim_resolved :
      (t i : String) (st : MemoryStore V)
      → is_resolved i (checkpoints t st) ≡ true
      → claim_interrupt {C = C} t i st ≡ (ok already_completed, st)
  unfolding claim_interrupt
  claim_resolved t i st h = ground arith

module _ {S V : Type 0} (C : Type 0) (serde : Serde S V) where
  -- A save appends one checkpoint to its thread.
  save_appends :
      (r : SaveRequest S V) (st : MemoryStore V) {v : V}
      → serde.to_value r.state ≡ inl v
      → checkpoints r.thread_id (save_state {C = C} serde r st).1
        ≡ checkpoints r.thread_id st ++ new_checkpoint r v st.machine ∷ []
  unfolding save_state
  save_appends r st e = rw (e, save_state) (simp (lookup-insert, eq_refl))

  -- What was saved last is what is loaded: the state, the node to run next, the status, the DAG and the
  -- interrupt fields, under the identifier that the save returned; given that the state survives its
  -- serialisation.
  pub load-save :
      (r : SaveRequest S V) (st : MemoryStore V) (v : V)
      → serde.to_value r.state ≡ inl v
      → serde.from_value v ≡ inl r.state
      → let (saved, st') = save_state {C = C} serde r st in
        (id : String) × (saved ≡ ok id)
        × ((load_state {C = C} serde r.thread_id st').0
            ≡ ok (
                some (
                  r.state,
                  record {
                    checkpoint_id = id;
                    thread_id = r.thread_id;
                    next_node = r.next_node;
                    graph_version = none;
                    state_schema_version = none;
                    status = r.status;
                    created_at = st.machine.now;
                    yield_request = r.yield_request;
                    claimed_interrupt = r.claimed_interrupt;
                    resolved_interrupt = r.resolved_interrupt;
                  },
                  r.dag,
                )))
  unfolding save_state load_state new_checkpoint
  load-save r st v e f = (
    st.machine.uuids st.machine.drawn,
    rw (e, save_state) refl,
    rw (save_appends r st e, load_state)
        (rw (last?-snoc (checkpoints r.thread_id st) (new_checkpoint r v st.machine), load_state)
          (rw (f, load_checkpoint) refl)),
  )

  -- An interrupt that some checkpoint of the thread has resolved stays resolved after a further save of a
  -- state that serialises: a claim of it is answered `AlreadyCompleted` and changes nothing.
  pub claim-save_resolved :
      (r : SaveRequest S V) (st : MemoryStore V) (i : String) (v : V)
      → serde.to_value r.state ≡ inl v
      → is_resolved i (checkpoints r.thread_id st) ≡ true
      → let st' = (save_state {C = C} serde r st).1 in
        claim_interrupt {C = C} r.thread_id i st' ≡ (ok already_completed, st')
  claim-save_resolved r st i v e h =
      claim_resolved r.thread_id i (save_state {C = C} serde r st).1 (
        rw (save_appends r st e) (
          rw (any-append (λ c. same_text c.resolved_interrupt i) (checkpoints r.thread_id st) _)
            (rw h refl)))

module _ {V : Type 0} where
  last?-drop : (n : ℕ) (l : List (MemoryCheckpoint V)) → n < length l → last? (drop n l) ≡ last? l
  last?-drop zero l h = refl
  last?-drop (suc n) [] h = refl
  last?-drop (suc n) (x ∷ []) h = absurd (omega arith)
  last?-drop (suc n) (x ∷ y ∷ l) h = last?-drop n (y ∷ l) (omega arith)

  checkpoints-put_self :
      (t : String) (l : List (MemoryCheckpoint V)) (st : MemoryStore V)
      → checkpoints t (put_thread t l st) ≡ l
  checkpoints-put_self t l st = simp (lookup-insert, eq_refl)

  checkpoints-put_ne :
      (t u : String) (l : List (MemoryCheckpoint V)) (st : MemoryStore V)
      → t ≢ u
      → checkpoints u (put_thread t l st) ≡ checkpoints u st
  checkpoints-put_ne t u l st h =
      let e : (t == u) ≡ false = ground (arith, eq_iff t u) in
      rw (lookup-insert t u l st.threads) (rw e refl)

module _ {V : Type 0} (C : Type 0) where
  retain_counts :
      (limit now : ℕ) (policy : RetentionPolicy) (l : List (MemoryCheckpoint V)) {n : ℕ}
      → (retain {C = C} limit now policy l).0 ≡ ok n
      → length (retain {C = C} limit now policy l).1 + n ≡ length l
  unfolding retain
  retain_counts limit now keep_all l e = ground arith
  retain_counts limit now (keep_last k) l e = ground (arith, length-drop (length l - k) l)
  retain_counts limit now (older_than d) l e =
      ground (arith, length-filter-le (λ c. leb (now - d) c.created_at) l)

  retain_latest :
      (limit now n : ℕ) (l : List (MemoryCheckpoint V))
      → 0 < n
      → let kept = (retain {C = C} limit now (keep_last n) l).1 in
        (length kept ≡ min n (length l)) × (last? kept ≡ last? l)
  unfolding retain
  retain_latest limit now n l h =
      ground (arith, length-drop (length l - n) l, last?-drop (length l - n) l)

  delete_absent :
      (limit : ℕ) (t : String) (policy : RetentionPolicy) (st : MemoryStore V)
      → lookup t st.threads ≡ none
      → delete_checkpoints {C = C} limit t policy st ≡ (ok 0, st)
  unfolding delete_checkpoints
  delete_absent limit t policy st h = rw (h, delete_checkpoints) refl

  delete_present :
      (limit : ℕ) (t : String) (policy : RetentionPolicy) (st : MemoryStore V)
      {l : List (MemoryCheckpoint V)}
      → lookup t st.threads ≡ some l
      → let (answer, kept) = retain {C = C} limit st.machine.now policy l in
        delete_checkpoints {C = C} limit t policy st ≡ (answer, put_thread t kept st)
  unfolding delete_checkpoints
  delete_present limit t policy st h = rw (h, delete_checkpoints) refl

  -- Where `delete_checkpoints` succeeds, the number that it returns is the number of checkpoints that are
  -- gone, and every other thread keeps its own.
  pub delete_counts :
      (limit : ℕ) (t u : String) (policy : RetentionPolicy) (st : MemoryStore V) (n : ℕ)
      → t ≢ u
      → (delete_checkpoints {C = C} limit t policy st).0 ≡ ok n
      → let st' = (delete_checkpoints {C = C} limit t policy st).1 in
        (length (checkpoints t st') + n ≡ length (checkpoints t st))
        × (checkpoints u st' ≡ checkpoints u st)
  delete_counts limit t u policy st n other e = elim (Option-cases (lookup t st.threads)) [
    | inl absent ↦
        let same = delete_absent limit t policy st absent in
        let zero_n : n ≡ 0 = ground (arith, same) in rw same (rw zero_n (omega arith, refl))
    | inr (l, found) ↦
        let same = delete_present limit t policy st found in
        rw same (
          rw (checkpoints-put_self t _ st) (
              rw found
                (retain_counts limit st.machine.now policy l (sym (ap (λ p. p.0) same) ∙ e))),
          checkpoints-put_ne t u _ st other,
        )
  ]

  -- `KeepLast(n)` with a positive `n` leaves the smaller of `n` and the number of checkpoints there were,
  -- and the latest checkpoint, from which a thread resumes, is among them.
  pub keep_last_latest :
      (limit : ℕ) (t : String) (n : ℕ) (st : MemoryStore V)
      → 0 < n
      → let st' = (delete_checkpoints {C = C} limit t (keep_last n) st).1 in
        (length (checkpoints t st') ≡ min n (length (checkpoints t st)))
        × (last? (checkpoints t st') ≡ last? (checkpoints t st))
  keep_last_latest limit t n st h = elim (Option-cases (lookup t st.threads)) [
    | inl absent ↦
        rw (delete_absent limit t (keep_last n) st absent) (rw absent (omega arith, refl))
    | inr (l, found) ↦
        rw (delete_present limit t (keep_last n) st found)
          (rw (checkpoints-put_self t _ st) (rw found (retain_latest limit st.machine.now n l h)))
  ]
