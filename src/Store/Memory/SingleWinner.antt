-- ===== src/Store/Memory/SingleWinner.antt =====
-- Claims of an interrupt race: what the mutex of src/store/memory.rs serialises is a sequence of claims.
use takeln.Base.{
  ℕ, ◌+◌, ◌≤◌, ◌≡◌, refl, ◌∙◌, ◌≢◌, ◌⊎◌, inl, inr, true, false, List, [], ◌∷◌, some, String, ◌==◌,
  eq_iff, eq_refl, arith, any, last?, set_last, last?-set_last, lookup, lookup-insert, Option-cases,
}
use takeln.Hitl.{YieldRequest}
use takeln.Error.{Result, ok, err}
use takeln.Checkpoint.{running, yielded, ClaimResult, claimed, in_progress, already_completed}
use takeln.Store.Memory.Data.{MemoryCheckpoint, MemoryStore, put_thread}
use takeln.Store.Memory.Claim.{is_resolved, claim_checkpoint, claim_interrupt}

-- The latest checkpoint of the thread is the given one.
pub record Latest {V : Type 0} (t : String) (st : MemoryStore V) (c : MemoryCheckpoint V)
    : Type 0 where
  pub history : List (MemoryCheckpoint V)
  pub stored : lookup t st.threads ≡ some history
  pub last : last? history ≡ some c

-- The thread can be resumed by the interrupt: its latest checkpoint waits for it, and no checkpoint of
-- its history has resolved it.
pub record IsClaimable {V : Type 0} (t i : String) (st : MemoryStore V) : Type 0 where
  pub checkpoint : MemoryCheckpoint V
  pub latest : Latest t st checkpoint
  pub waits : checkpoint.status ≡ yielded
  pub request : YieldRequest V
  pub asked : checkpoint.yield_request ≡ some request
  pub named : request.interrupt_id ≡ i
  pub open_yet : is_resolved i latest.history ≡ false

module _ {V : Type 0} where
  abbrev pub take_claim : String → MemoryCheckpoint V → MemoryCheckpoint V
  take_claim i c = record c { status = running; claimed_interrupt = some i }

  -- The claim keeps what the history has resolved.
  pub is_resolved-set_last :
      (i j : String) (c : MemoryCheckpoint V) (l : List (MemoryCheckpoint V))
      → last? l ≡ some c
      → is_resolved i (set_last (take_claim j c) l) ≡ is_resolved i l
  is_resolved-set_last i j c [] h = refl
  is_resolved-set_last i j c (x ∷ []) h = cc
  is_resolved-set_last i j c (x ∷ y ∷ l) h = cc (is_resolved-set_last i j c (y ∷ l) h)

module _ {V C : Type 0} where
  -- A claimable interrupt is claimed, and the latest checkpoint becomes `Running` under it.
  pub claim_claimable :
      (t i : String) (st : MemoryStore V) (h : IsClaimable t i st)
      → claim_interrupt {C = C} t i st
        ≡ (ok claimed, put_thread t (set_last (take_claim i h.checkpoint) h.latest.history) st)
  unfolding claim_interrupt claim_checkpoint
  claim_claimable t i st h = ground (arith, eq_iff h.request.interrupt_id i)

  -- Only a claimable interrupt is granted.
  granted-IsClaimable :
      (t i : String) (st : MemoryStore V)
      → (claim_interrupt {C = C} t i st).0 ≡ ok claimed
      → IsClaimable t i st
  unfolding claim_interrupt claim_checkpoint
  granted-IsClaimable t i st g = elim (Option-cases (lookup t st.threads)) [
    | inl e ↦ ground arith
    | inr (l, e) ↦ elim (Option-cases (last? l)) [
      | inl e' ↦ ground arith
      | inr (c, e') ↦ elim (Option-cases c.yield_request) [
        | inl e'' ↦ ground arith
        | inr (r, e'') ↦ record {
          checkpoint = c;
          latest = record { history = l; stored = e; last = e' };
          waits = ground arith;
          request = r;
          asked = e'';
          named = ground (arith, eq_iff r.interrupt_id i);
          open_yet = ground arith;
        }
      ]
    ]
  ]

  -- A claim that is not granted changes nothing.
  pub refused_same :
      (t i : String) (st : MemoryStore V)
      → (claim_interrupt {C = C} t i st).0 ≢ ok claimed
      → (claim_interrupt {C = C} t i st).1 ≡ st
  unfolding claim_interrupt claim_checkpoint
  refused_same t i st g = ground arith

  -- A thread whose latest checkpoint is `Running` grants no claim.
  running_refuses :
      (t i : String) (st : MemoryStore V) {c : MemoryCheckpoint V}
      → Latest t st c
      → c.status ≡ running
      → (claim_interrupt {C = C} t i st).0 ≢ ok claimed
  running_refuses t i st {c} h r g =
      let k = granted-IsClaimable t i st g in
      cc (k.latest.stored, k.latest.last, k.waits, h.stored, h.last, r)

module _ {V : Type 0} (C : Type 0) where
  -- A granted claim leaves the thread running.
  granted_running :
      (t i : String) (st : MemoryStore V) (h : IsClaimable t i st)
      → Latest t (claim_interrupt {C = C} t i st).1 (take_claim i h.checkpoint)
  granted_running t i st h = record {
    history = set_last (take_claim i h.checkpoint) h.latest.history;
    stored = rw (claim_claimable t i st h) (simp (lookup-insert, eq_refl));
    last = last?-set_last _ h.checkpoint h.latest.history h.latest.last;
  }

-- Claims of one thread, in the order in which they get the lock: the answers and the last store.
unfoldable pub race :
    {V C : Type 0}
    → String
    → List String
    → MemoryStore V
    → List (Result C ClaimResult) × MemoryStore V
race t [] st = ([], st)
race t (i ∷ is) st =
    let (r, st') = claim_interrupt t i st in let (rs, st'') = race t is st' in (r ∷ rs, st'')

-- How many of the answers grant the claim.
abbrev pub winners : {C : Type 0} → List (Result C ClaimResult) → ℕ
winners [] = 0
winners (ok claimed ∷ rs) = winners rs + 1
winners (ok in_progress ∷ rs) = winners rs
winners (ok already_completed ∷ rs) = winners rs
winners (err _ ∷ rs) = winners rs

pub granted? : {C : Type 0} (r : Result C ClaimResult) → (r ≡ ok claimed) ⊎ (r ≢ ok claimed)
granted? (ok claimed) = inl refl
granted? (ok in_progress) = inr (λ e. cc)
granted? (ok already_completed) = inr (λ e. cc)
granted? (err _) = inr (λ e. cc)

pub winners-refused :
    {C : Type 0} (r : Result C ClaimResult) (rs : List (Result C ClaimResult))
    → r ≢ ok claimed
    → winners (r ∷ rs) ≡ winners rs
winners-refused (ok claimed) rs h = absurd (h refl)
winners-refused (ok in_progress) rs h = refl
winners-refused (ok already_completed) rs h = refl
winners-refused (err _) rs h = refl

module _ {V : Type 0} (C : Type 0) where
  race_running :
      (t : String) (is : List String) (st : MemoryStore V) {c : MemoryCheckpoint V}
      → Latest t st c
      → c.status ≡ running
      → winners (race {C = C} t is st).0 ≡ 0
  unfolding race
  race_running t [] st h r = refl
  race_running t (i ∷ is) st h r =
      let refused = running_refuses {C = C} t i st h r in
      winners-refused _ _ refused
      ∙ rw (refused_same {C = C} t i st refused) (race_running t is st h r)

  race_granted :
      (t i : String) (is : List String) (st : MemoryStore V)
      → (claim_interrupt {C = C} t i st).0 ≡ ok claimed
      → winners (race {C = C} t (i ∷ is) st).0 ≡ 1
  unfolding race
  race_granted t i is st g =
      let h = granted-IsClaimable t i st g in
      rw g (omega (arith, race_running t is _ (granted_running C t i st h) refl))

module _ {V : Type 0} (C : Type 0) where
  -- However many callers race to resume a thread, whatever interrupts they name and in whatever order
  -- they get the lock, at most one of them is granted the claim.
  pub race_single_winner :
      (t : String) (is : List String) (st : MemoryStore V) → winners (race {C = C} t is st).0 ≤ 1
  unfolding race
  race_single_winner t [] st = omega arith
  race_single_winner t (i ∷ is) st = elim (granted? (claim_interrupt {C = C} t i st).0) [
    | inl g ↦ omega (arith, race_granted C t i is st g)
    | inr r ↦
        rw (winners-refused _ (race {C = C} t is (claim_interrupt {C = C} t i st).1).0 r)
          (race_single_winner t is (claim_interrupt {C = C} t i st).1)
  ]

  -- On a thread that waits for an interrupt which nothing has resolved, exactly one of the racing
  -- callers is granted the claim, if any of them names that interrupt.
  pub race_one_winner :
      (t i : String) (is : List String) (st : MemoryStore V)
      → IsClaimable t i st
      → any (λ j. j == i) is ≡ true
      → winners (race {C = C} t is st).0 ≡ 1
  unfolding race
  race_one_winner t i [] st h m = cc
  race_one_winner t i (j ∷ is) st h m = elim (granted? (claim_interrupt {C = C} t j st).0) [
    | inl g ↦ race_granted C t j is st g
    | inr r ↦
        let other : (j == i) ≡ false =
          ground (arith, eq_iff j i, claim_claimable {C = C} t i st h) in
        winners-refused _ (race {C = C} t is (claim_interrupt {C = C} t j st).1).0 r
        ∙ rw (refused_same {C = C} t j st r) (race_one_winner t i is st h (rw other at m))
  ]
