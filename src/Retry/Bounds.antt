-- ===== src/Retry/Bounds.antt =====
-- The bounds of the backoff.
use takeln.Base.{
  ℕ, ◌+◌, ◌*◌, ◌/◌, ◌%◌, ◌^◌, ◌≤◌, ◌<◌, min, ◌≡◌, true, arith, ltb, inl, inr, Bool-cases, ltb→lt,
}
use native.Mathlib.Nat.{mod-lt, pow-le-pow_right}
use takeln.Retry.{RetryPolicy, u64_max, capped_delay, with_jitter, delay_for}

capped_delay-le : (p : RetryPolicy) (attempt : ℕ) → capped_delay p attempt ≤ p.max_delay_ms
unfolding capped_delay
capped_delay-le p attempt = omega arith

with_jitter_bounds :
    (capped random : ℕ)
    → capped + capped / 4 ≤ u64_max
    → (capped ≤ with_jitter capped random + capped / 8)
      × (with_jitter capped random ≤ capped + capped / 8)
unfolding with_jitter
with_jitter_bounds capped random h = elim (Bool-cases (ltb 0 (capped / 4))) [
  | inl e ↦
      let below : random % (capped / 4) < capped / 4 = mod-lt random (ltb→lt 0 (capped / 4) e) in
      rw e (omega (arith, below))
  | inr e ↦ rw e (omega arith)
]

with_jitter-gt :
    (capped random : ℕ)
    → capped + capped / 4 ≤ u64_max
    → 0 < capped / 4
    → capped / 4 / 2 < random % (capped / 4)
    → capped < with_jitter capped random
unfolding with_jitter
with_jitter-gt capped random h wide upper =
    let below : random % (capped / 4) < capped / 4 = mod-lt random wide in
    let test : ltb 0 (capped / 4) ≡ true = ground arith in rw test (omega (arith, below))

-- A delay stays within an eighth of the capped exponential delay on both sides, and never passes the cap
-- of the policy by more than an eighth of it, with jitter or without, where the sum of the cap and its
-- quarter fits the machine's 64 bits.
pub delay_for_bounds :
    (p : RetryPolicy) (attempt random : ℕ)
    → p.max_delay_ms + p.max_delay_ms / 4 ≤ u64_max
    → let capped = capped_delay p attempt in
      let delay = delay_for p attempt random in
      (capped ≤ delay + capped / 8)
      × (delay ≤ capped + capped / 8)
      × (delay ≤ p.max_delay_ms + p.max_delay_ms / 8)
unfolding delay_for
delay_for_bounds p attempt random h =
    ground (arith, capped_delay-le p attempt, with_jitter_bounds (capped_delay p attempt) random)

-- The cap of the policy does not bound the jittered delay: where the exponential delay has reached the
-- cap, any draw in the upper half of the jitter's range waits longer than the cap, where the sum of the cap
-- and its quarter fits the machine's 64 bits.
pub delay_for-gt-cap :
    (p : RetryPolicy) (attempt random : ℕ)
    → p.max_delay_ms + p.max_delay_ms / 4 ≤ u64_max
    → p.jitter ≡ true
    → capped_delay p attempt ≡ p.max_delay_ms
    → p.max_delay_ms / 4 / 2 < random % (p.max_delay_ms / 4)
    → 0 < p.max_delay_ms / 4
    → p.max_delay_ms < delay_for p attempt random
unfolding delay_for
delay_for-gt-cap p attempt random h j e upper wide =
    ground (arith, with_jitter-gt (capped_delay p attempt) random, e, j)

-- The capped exponential delay never falls from one attempt to the next.
pub capped_delay_mono :
    (p : RetryPolicy) (attempt : ℕ) → capped_delay p attempt ≤ capped_delay p (attempt + 1)
unfolding capped_delay
capped_delay_mono p attempt =
    let pow : 2 ^ min attempt 10 ≤ 2 ^ min (attempt + 1) 10 =
      pow-le-pow_right (omega arith) (omega arith) in
    let scaled : p.base_delay_ms * 2 ^ min attempt 10 ≤ p.base_delay_ms * 2 ^ min (attempt + 1) 10 =
      grind arith in
    omega (arith, scaled)
