-- ===== src/Resume/Claims.antt =====
-- `resume_with_input` of src/graph.rs over the store of src/store/memory.rs: what an answer of the claim
-- does to the resume, and what a rejected input leaves behind.
use takeln.Base.{ℕ, ◌≡◌, ◌≢◌, ◌∙◌, ap, refl, String, Option, some, none, true}
use takeln.Hitl.{ResumeContext}
use takeln.Error.{TakelnError, Result, ok, err}
use takeln.Checkpoint.{
  ClaimResult, claimed, in_progress, already_completed, CheckpointMeta, Loaded, legacy,
}
use takeln.Context.{Host}
use takeln.Graph.{Graph}
use takeln.Schema.{JsonView}
use takeln.Store.Memory.Data.{MemoryStore, Serde, checkpoints}
use takeln.Store.Memory.Ops.{load_state}
use takeln.Store.Memory.Claim.{is_resolved, claim_interrupt}
use takeln.Store.Memory.History.{claim_resolved}
use takeln.Dag.Data.{Dag}
use takeln.Store.Memory.SingleWinner.{IsClaimable, claim_claimable, refused_same}
use takeln.Store.Memory.Locked.{claim-claim}
use takeln.Store.Memory.{backend, memory_checkpointer}
use takeln.Exec.Defs.{Exec, Outcome, done, fail, after, lift}
use takeln.Resume.Input.{
  check_resume, resume_claimed, resume_loaded, resume_busy, resume_with_input,
}

module _ {S V C W : Type 0} (host : Host S V C W) (json : JsonView V) (graph : Graph S V C W)
    (serde : Serde S V) where
  -- The resume over the memory store.
  abbrev memory_resume :
      (thread_id interrupt_id : String)
      → V
      → ResumeContext V
      → Option ℕ
      → Exec C W (MemoryStore V)
      → Outcome C (Option S) × Exec C W (MemoryStore V)
  memory_resume = resume_with_input host json graph (memory_checkpointer serde)

  -- The loaded checkpoint, for a claim that is not granted.
  loaded_refused :
      (t i : String) (input : V) (context : ResumeContext V) (cancellation : Option ℕ)
      (claim : ClaimResult) (loaded : Result C (Option (Loaded S V))) (x : Exec C W (MemoryStore V))
      → claim ≢ claimed
      → (after (lift loaded x) (
          resume_loaded host json graph
            (memory_checkpointer serde)
            t
            i
            input
            context
            cancellation
            claim)).1
        ≡ x
  unfolding resume_loaded
  loaded_refused t i input context cancellation claimed loaded x h = absurd (h refl)
  loaded_refused t i input context cancellation in_progress (ok none) x h = refl
  loaded_refused t i input context cancellation in_progress (ok (some l)) x h = refl
  loaded_refused t i input context cancellation in_progress (err e) x h = refl
  loaded_refused t i input context cancellation already_completed (ok none) x h = refl
  loaded_refused t i input context cancellation already_completed (ok (some l)) x h = refl
  loaded_refused t i input context cancellation already_completed (err e) x h = refl

  answer_refused :
      (t i : String) (input : V) (context : ResumeContext V) (cancellation : Option ℕ)
      (answer : Result C ClaimResult) (x : Exec C W (MemoryStore V))
      → answer ≢ ok claimed
      → (after (lift answer x) (λ claim y.
          after (lift (load_state serde t y.store).0 (record y { store = y.store })) (
            resume_loaded host json graph
              (memory_checkpointer serde)
              t
              i
              input
              context
              cancellation
              claim))).1
        ≡ x
  answer_refused t i input context cancellation (err e) x h = refl
  answer_refused t i input context cancellation (ok claim) x h =
      loaded_refused t i input context cancellation claim (load_state serde t x.store).0 x
        (λ e. h (ap ok e))

  -- Over the memory store, a resume whose claim is not granted changes nothing, neither the store nor what
  -- is sent, reported or recorded, nor the machine that a node's call would run on, whatever the answer is.
  pub resume-refused :
      (t i : String) (input : V) (context : ResumeContext V) (cancellation : Option ℕ)
      (x : Exec C W (MemoryStore V))
      → (claim_interrupt {C = C} t i x.store).0 ≢ ok claimed
      → (memory_resume t i input context cancellation x).1 ≡ x
  unfolding resume_with_input memory_checkpointer backend legacy load_state
  resume-refused t i input context cancellation x h =
      answer_refused t i input context cancellation (claim_interrupt t i x.store).0
        (record x { store = (claim_interrupt {C = C} t i x.store).1 }) h
      ∙ rw (refused_same t i x.store h) refl

  -- An interrupt that some checkpoint of the thread has resolved is not executed again: where the latest
  -- checkpoint loads, the resume answers with its state and changes nothing.
  pub resume-completed :
      (t i : String) (input : V) (context : ResumeContext V) (cancellation : Option ℕ)
      (x : Exec C W (MemoryStore V)) (state : S) (meta : CheckpointMeta V) (dag : Option Dag)
      → is_resolved i (checkpoints t x.store) ≡ true
      → (load_state {C = C} serde t x.store).0 ≡ ok (some (state, meta, dag))
      → memory_resume t i input context cancellation x ≡ (done (some state), x)
  unfolding resume_with_input memory_checkpointer backend legacy load_state resume_loaded
  resume-completed t i input context cancellation x state meta dag resolved loaded =
      rw (claim_resolved {C = C} t i x.store resolved, loaded) refl

  -- After the claim, a resume whose input is rejected leaves the claimed store as it is.
  resume_rejected :
      (t i : String) (input : V) (context : ResumeContext V) (cancellation : Option ℕ)
      (x : Exec C W (MemoryStore V)) (st : MemoryStore V) (state : S) (meta : CheckpointMeta V)
      (dag : Option Dag) (e : TakelnError C)
      → claim_interrupt {C = C} t i x.store ≡ (ok claimed, st)
      → (load_state {C = C} serde t st).0 ≡ ok (some (state, meta, dag))
      → check_resume host json graph (memory_checkpointer serde) t i input meta ≡ err e
      → memory_resume t i input context cancellation x ≡ (fail e, record x { store = st })
  unfolding resume_with_input memory_checkpointer backend legacy load_state resume_loaded
      resume_claimed
  resume_rejected t i input context cancellation x st state meta dag e granted loaded rejected =
      rw (granted, loaded, rejected) refl

  -- A resume of an interrupt that is in progress fails, whatever the input is.
  resume_in_progress :
      (t i : String) (input : V) (context : ResumeContext V) (cancellation : Option ℕ)
      (x : Exec C W (MemoryStore V)) (state : S) (meta : CheckpointMeta V) (dag : Option Dag)
      → claim_interrupt {C = C} t i x.store ≡ (ok in_progress, x.store)
      → (load_state {C = C} serde t x.store).0 ≡ ok (some (state, meta, dag))
      → memory_resume t i input context cancellation x ≡ (fail (resume_busy t i), x)
  unfolding resume_with_input memory_checkpointer backend legacy load_state resume_loaded
  resume_in_progress t i input context cancellation x state meta dag granted loaded =
      rw (granted, loaded) refl

  -- A rejected input locks the interrupt: where the claim of a waiting interrupt is granted, the claimed
  -- checkpoint loads and the check of the input fails, the resume fails with the check's error, and the
  -- next resume of that interrupt, whatever its input is, is answered that a resume is in progress and
  -- changes nothing.
  pub rejected-locks :
      (t i : String) (input : V) (context : ResumeContext V) (cancellation : Option ℕ)
      (x : Exec C W (MemoryStore V)) (state : S) (meta : CheckpointMeta V) (dag : Option Dag)
      (e : TakelnError C) (valid : V) (later : ResumeContext V) (token : Option ℕ)
      → IsClaimable t i x.store
      → (load_state {C = C} serde t (claim_interrupt {C = C} t i x.store).1).0
        ≡ ok (some (state, meta, dag))
      → check_resume host json graph (memory_checkpointer serde) t i input meta ≡ err e
      → let (answer, y) = memory_resume t i input context cancellation x in
        (answer ≡ fail e) × (memory_resume t i valid later token y ≡ (fail (resume_busy t i), y))
  rejected-locks t i input context cancellation x state meta dag e valid later token h loaded
        rejected =
      let st : MemoryStore V = (claim_interrupt {C = C} t i x.store).1 in
      rw
        (resume_rejected t i input context cancellation x st state meta dag e
          (ap (λ r. (r, st)) (ap (λ p. p.0) (claim_claimable {C = C} t i x.store h))) loaded
          rejected)
        (
          refl,
          resume_in_progress t i valid later token (record x { store = st }) state meta dag
              (claim-claim C t i x.store h) loaded,
        )
