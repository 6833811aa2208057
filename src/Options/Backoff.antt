-- ===== src/Options/Backoff.antt =====
-- The delays of a retry configuration.
use native.Mathlib.Nat.{pow-le-pow_right, mul-le-mul_left}
use rs_query.Base.{ℕ, ◌^◌, ◌≤◌, arith, min}
use rs_query.Options.{RetryConfig, u32_max, delay_for_attempt}

min_mono : (x y m : ℕ) → x ≤ y → min x m ≤ min y m
min_mono x y m h = omega arith

-- No delay passes the configured cap, and a later attempt never waits less.
delay_bounds :
    (c : RetryConfig) (a b : ℕ)
    → a ≤ b
    → (delay_for_attempt c a ≤ c.max_delay) × (delay_for_attempt c a ≤ delay_for_attempt c b)
unfolding delay_for_attempt
delay_bounds c a b h = (
  ground arith,
  ground (
    arith,
    mul-le-mul_left c.base_delay
        (min_mono (2 ^ a) (2 ^ b) u32_max (pow-le-pow_right (omega arith) h)),
  ),
)
