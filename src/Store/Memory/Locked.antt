-- ===== src/Store/Memory/Locked.antt =====
-- A claimed interrupt of src/store/memory.rs stays claimed until a checkpoint is saved.
use takeln.Base.{
  ◌≡◌, refl, ◌∙◌, false, some, String, eq_refl, arith, set_last, lookup-insert, last?-set_last,
}
use takeln.Error.{ok}
use takeln.Checkpoint.{running, in_progress}
use takeln.Store.Memory.Data.{MemoryCheckpoint, MemoryStore}
use takeln.Store.Memory.Claim.{is_resolved, claim_checkpoint, claim_interrupt}
use takeln.Store.Memory.SingleWinner.{
  Latest, IsClaimable, take_claim, claim_claimable, is_resolved-set_last,
}

module _ {V : Type 0} (C : Type 0) where
  claim_running :
      (t i : String) (st : MemoryStore V) (c : MemoryCheckpoint V) (h : Latest t st c)
      → c.status ≡ running
      → c.claimed_interrupt ≡ some i
      → is_resolved i h.history ≡ false
      → claim_interrupt {C = C} t i st ≡ (ok in_progress, st)
  unfolding claim_interrupt claim_checkpoint
  claim_running t i st c h r k o = ground (arith, eq_refl i)

  -- A claimable interrupt is in progress once it is claimed.
  pub claim-claim :
      (t i : String) (st : MemoryStore V)
      → IsClaimable t i st
      → claim_interrupt {C = C} t i (claim_interrupt {C = C} t i st).1
        ≡ (ok in_progress, (claim_interrupt {C = C} t i st).1)
  claim-claim t i st h =
      let granted : Latest t (claim_interrupt {C = C} t i st).1 (take_claim i h.checkpoint) =
        record {
          history = set_last (take_claim i h.checkpoint) h.latest.history;
          stored = rw (claim_claimable {C = C} t i st h) (simp (lookup-insert, eq_refl));
          last = last?-set_last _ h.checkpoint h.latest.history h.latest.last;
        } in
      claim_running t i (claim_interrupt {C = C} t i st).1 (take_claim i h.checkpoint) granted refl
        refl (is_resolved-set_last i i h.checkpoint h.latest.history h.latest.last ∙ h.open_yet)
