-- ===== src/Retry.antt =====
-- src/retryer.rs: retry decisions, the backoff, and the attempt loop. The loop's surroundings are
-- its input: one `Round` for each turn of the outer loop, with what the online manager, the token
-- and the task give in it.
pub mod Delay
pub mod Loop
use rs_query.Base.{
  ℕ, zero, suc, ◌+◌, ◌*◌, ◌%◌, ◌^◌, ◌≡◌, Bool, true, false, ◌&&◌, not, ◌⊎◌, inl, inr, Option, none,
  some, List, [], ◌∷◌, ltb, min, if◌then◌else◌,
}
use rs_query.State.{QueryError, is_cancelled, cancelled}
use rs_query.Network.{NetworkMode, can_retry}
use rs_query.Options.{RetryConfig, u64_max, millis, base_retry_delay, delay_for_attempt}
use rs_query.Base.{◌==◌}

-- `RetryDecision`.
pub data RetryDecision : Type 0 where
  never always : RetryDecision
  count : ℕ → RetryDecision
  function : (QueryError → ℕ → Bool) → RetryDecision

unfoldable pub should_retry : RetryDecision → QueryError → ℕ → Bool
should_retry never e attempt = false
should_retry (count n) e attempt = ltb attempt n
should_retry always e attempt = true
should_retry (function f) e attempt = f e attempt

abbrev pub default_decision : RetryDecision
default_decision = count 3

-- `2u64.saturating_pow(attempt)` and `u64::saturating_mul`.
unfoldable pub pow2_u64 : ℕ → ℕ
pow2_u64 attempt = min (2 ^ attempt) u64_max

unfoldable pub mul_u64 : ℕ → ℕ → ℕ
mul_u64 a b = min (a * b) u64_max

-- `retry_delay`, in nanoseconds; the constants are 1000 and 30 000 milliseconds.
unfoldable pub retry_delay : ℕ → ℕ
unfolding pow2_u64 mul_u64
retry_delay attempt = millis (min (mul_u64 1000 (pow2_u64 attempt)) 30_000)

-- `delay_for` of src/executor.rs: the same curve for every exponential configuration whose base is
-- one second.
unfoldable pub delay_for : RetryConfig → ℕ → ℕ
delay_for c attempt =
    if c.exponential_backoff && c.base_delay == base_retry_delay
    then retry_delay attempt
    else delay_for_attempt c attempt

-- `Retryer`, without the timer that it sleeps on.
pub record Retryer : Type 0 where
  pub decision : RetryDecision
  pub failure_count : ℕ  -- u32
  pub failure_reason : Option QueryError
  pub is_paused : Bool

unfoldable pub new : RetryDecision → Retryer
new d = record { decision = d; failure_count = 0; failure_reason = none; is_paused = false }

-- One turn of the pause: the token's state at its start, whether `changed` resolved well, and what
-- `is_online` says then.
pub record Wake : Type 0 where
  pub token_cancelled : Bool
  pub changed_ok : Bool
  pub online : Bool

pub data Pause : Type 0 where
  resumed interrupted waiting : Pause

-- The inner loop; `waiting` when the turns given are over and it still waits.
unfoldable pub pause : List Wake → Pause
pause [] = waiting
pause (w ∷ ws) =
    let rest = pause ws in
    if w.token_cancelled then interrupted else if w.changed_ok && w.online then resumed else rest

-- What a turn of the outer loop meets.
pub record Round (T : Type 0) : Type 0 where
  pub online : Bool
  pub wakes : List Wake
  pub outcome : T ⊎ QueryError

-- How far the loop came: a result, or still at it; with the retryer, the number of times the task
-- was called and the delays that were slept, in their order.
pub record Run (T : Type 0) : Type 0 where
  pub result : Option (T ⊎ QueryError)
  pub retryer : Retryer
  pub attempts : ℕ
  pub sleeps : List ℕ

abbrev pub plain_cancel : QueryError
plain_cancel = cancelled false false

abbrev pub u32 : ℕ → ℕ
u32 n = n % 2 ^ 32

-- `failure_count += 1` (which wraps in a release build) and the reason.
abbrev pub failed : Retryer → QueryError → Retryer
failed r e = record r { failure_count = u32 (r.failure_count + 1); failure_reason = some e }

abbrev pub unpaused : Retryer → Retryer
unpaused r = record r { is_paused = false }

module _ {T : Type 0} where
  abbrev pub stop : Retryer → T ⊎ QueryError → ℕ → Run T
  stop r res attempts = record { result = some res; retryer = r; attempts = attempts; sleeps = [] }

  abbrev pub running : Retryer → Run T
  running r = record { result = none; retryer = r; attempts = 0; sleeps = [] }

  -- An attempt and the delay after it, put in front of the rest of the run.
  abbrev pub retried : ℕ → Run T → Run T
  retried delay rest = record rest { attempts = suc rest.attempts; sleeps = delay ∷ rest.sleeps }

  -- The attempt of one turn; `next` is the rest of the loop.
  unfoldable pub attempt : (Retryer → Run T) → Retryer → T ⊎ QueryError → Run T
  attempt next r (inl v) = stop (record r { failure_reason = none }) (inl v) 1
  attempt next r (inr e) =
      let rest = retried (retry_delay r.failure_count) (next (failed r e)) in
      if is_cancelled e
      then stop r (inr plain_cancel) 1
      else if not (should_retry r.decision e r.failure_count)
      then stop (failed r e) (inr e) 1
      else rest

  -- One turn of the outer loop: the pause, if connectivity forbids a retry, and the attempt.
  unfoldable pub turn : (Retryer → Run T) → NetworkMode → Retryer → Round T → Run T
  turn next mode r round =
      if not (can_retry mode round.online) && ltb 0 r.failure_count
      then elim (pause round.wakes) [
        | interrupted ↦ stop (unpaused r) (inr plain_cancel) 0
        | waiting ↦ running (record r { is_paused = true })
        | resumed ↦ attempt next (unpaused r) round.outcome
      ]
      else attempt next r round.outcome

  -- `Retryer::run` over the turns given.
  unfoldable pub run : NetworkMode → Retryer → List (Round T) → Run T
  run mode r [] = running r
  run mode r (round ∷ rounds) = turn (λ r'. run mode r' rounds) mode r round
