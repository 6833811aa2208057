-- ===== src/Retry/Delay.antt =====
-- The backoff curve of src/retryer.rs, and how src/executor.rs applies it.
use native.Mathlib.Nat.{pow-le-pow_right}
use native.Mathlib.Decide.{dec_le}
use rs_query.Base.{ℕ, ◌*◌, ◌^◌, ◌≤◌, ◌<◌, ◌≡◌, ◌↔◌, true, arith, min}
use rs_query.Options.{RetryConfig, new_retry, millis, secs, base_retry_delay, delay_for_attempt}
use rs_query.Retry.{retry_delay, delay_for}

pow2_mono : (a b : ℕ) → a ≤ b → 2 ^ a ≤ 2 ^ b
pow2_mono a b h = pow-le-pow_right (omega arith) h

-- Neither saturation of the 64-bit arithmetic shows: for every attempt the delay is the documented
-- `min(1000 * 2^attempt, 30_000)` milliseconds.
retry_delay_lem : (a : ℕ) → retry_delay a ≡ millis (min (1000 * 2 ^ a) 30_000)
unfolding retry_delay
retry_delay_lem a = omega arith

pub retry_delay_mono : (a b : ℕ) → a ≤ b → retry_delay a ≤ retry_delay b
retry_delay_mono a b h = omega (arith, pow2_mono a b h, retry_delay_lem a, retry_delay_lem b)

-- The cap is reached with the sixth failure, and not before.
retry_delay-eq-cap_iff : (a : ℕ) → (retry_delay a ≡ secs 30) ↔ (5 ≤ a)
retry_delay-eq-cap_iff a = (
  λ e. elim (dec_le 5 a) [
    | yes h ↦ h
    | no h ↦ absurd (omega (arith, pow2_mono a 4 (omega arith), retry_delay_lem a))
  ],
  λ h. omega (arith, pow2_mono 5 a h, retry_delay_lem a),
)

-- For a configuration that `RetryConfig::new` makes, the configuration's own delay, the backoff of the
-- retryer and the delay that the executor takes are the same after every failure.
default_delays :
    (n a : ℕ)
    → (delay_for_attempt (new_retry n) a ≡ retry_delay a)
      × (delay_for (new_retry n) a ≡ delay_for_attempt (new_retry n) a)
unfolding delay_for delay_for_attempt new_retry retry_delay
default_delays n a = (omega arith, omega arith)

-- The executor disregards the configured cap where the base is one second: each delay from the
-- sixth failure on is 30 seconds, above any cap below that.
delay_for-exceeds_cap :
    (c : RetryConfig) (a : ℕ)
    → c.exponential_backoff ≡ true
    → c.base_delay ≡ base_retry_delay
    → c.max_delay < secs 30
    → 5 ≤ a
    → c.max_delay < delay_for c a
unfolding delay_for
delay_for-exceeds_cap c a x b m h = ground (arith, (retry_delay-eq-cap_iff a).1 h)
