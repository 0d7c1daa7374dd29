-- ===== src/Retry.antt =====
-- `RetryPolicy` of src/graph.rs: exponential backoff with a cap and jitter, in `u64` milliseconds.
pub mod Bounds
use takeln.Base.{
  ℕ, ◌+◌, ◌-◌, ◌*◌, ◌&&◌, ◌/◌, ◌%◌, ◌^◌, ◌≤◌, ◌<◌, min, ◌≡◌, Bool, true, false, arith, ltb,
  if◌then◌else◌,
}

pub record RetryPolicy : Type 0 where
  pub max_attempts : ℕ
  pub base_delay_ms : ℕ
  pub max_delay_ms : ℕ
  pub jitter : Bool

-- `RetryPolicy::default`
abbrev pub default_policy : RetryPolicy
default_policy = record {
  max_attempts = 3;
  base_delay_ms = 500;
  max_delay_ms = 30_000;
  jitter = true;
}

-- `u64::MAX`
abbrev pub u64_max : ℕ
u64_max = 2 ^ 64 - 1

abbrev pub saturating_mul : ℕ → ℕ → ℕ
saturating_mul a b = min (a * b) u64_max

abbrev pub saturating_add : ℕ → ℕ → ℕ
saturating_add a b = min (a + b) u64_max

-- The delay before jitter: `1u64 << attempt.min(10)` cannot overflow.
unfoldable pub capped_delay : RetryPolicy → ℕ → ℕ
capped_delay p attempt = min (saturating_mul p.base_delay_ms (2 ^ min attempt 10)) p.max_delay_ms

-- The jitter of ±an eighth: `rand::random() % jitter_range`, shifted down by half of the range.
unfoldable pub with_jitter : ℕ → ℕ → ℕ
with_jitter capped random =
    let jitter_range = capped / 4 in
    let jitter = if ltb 0 jitter_range then random % jitter_range else 0 in
    saturating_add (capped - jitter_range / 2) jitter

-- Whether `delay_for` draws a random number.
unfoldable pub draws_random : RetryPolicy → ℕ → Bool
draws_random p attempt = p.jitter && ltb 0 (capped_delay p attempt / 4)

-- `delay_for`, with the random number that it draws.
unfoldable pub delay_for : RetryPolicy → ℕ → ℕ → ℕ
delay_for p attempt random =
    let capped = capped_delay p attempt in if p.jitter then with_jitter capped random else capped
