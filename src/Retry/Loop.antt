-- ===== src/Retry/Loop.antt =====
-- The attempt loop with a counted decision: how often it tries, that it ends, what it sleeps.
use rs_query.Base.{
  ℕ, zero, suc, ◌+◌, ◌-◌, ◌^◌, ◌≤◌, ◌<◌, ◌≡◌, refl, ◌≢◌, ◌⊎◌, inl, inr, true, Bool-cases, not, ◌&&◌,
  Option, none, some, List, [], ◌∷◌, ltb, arith, length, map, if◌then◌else◌, All, is_some,
}
use native.Mathlib.Decide.{dec_lt}
use rs_query.State.{QueryError, is_cancelled}
use rs_query.Network.{NetworkMode, always, can_retry}
use rs_query.Retry.{
  count, should_retry, retry_delay, Retryer, Pause, waiting, interrupted, resumed, pause, stop,
  running, Round, Run, plain_cancel, attempt, turn, run, failed, unpaused, u32,
}

-- The backoffs of `k` failures in a row, the first with the index `c`.
abbrev pub delays : ℕ → ℕ → List ℕ
delays c zero = []
delays c (suc k) = retry_delay c ∷ delays (suc c) k

-- The retryer is set to `n` retries and has not used them up.
pub record Within (n : ℕ) (r : Retryer) : Type 0 where
  pub decision : r.decision ≡ count n
  pub budget : r.failure_count ≤ n

module _ {T : Type 0} where
  -- What a counted run does from `r`, with `k` turns to go: it tries at most as often as retries and
  -- the first attempt are left; it sleeps the backoff of each failure that it retries; and it has a
  -- result if the turns suffice and no pause lasts.
  pub record Bounded (n k : ℕ) (settled : Type 0) (r : Retryer) (run : Run T) : Type 0 where
    pub attempts : run.attempts ≤ suc n - r.failure_count
    pub sleeps : run.sleeps ≡ delays r.failure_count (length run.sleeps)
    pub slept : length run.sleeps ≤ run.attempts
    pub ends : settled → n < k + r.failure_count → is_some run.result ≡ true

  attempt-Bounded :
      (n k : ℕ) (settled : Type 0) (next : Retryer → Run T) (r : Retryer) (o : T ⊎ QueryError)
      → n < 2 ^ 32 - 1
      → Within n r
      → ((r' : Retryer) → Within n r' → Bounded n k settled r' (next r'))
      → Bounded n (suc k) settled r (attempt next r o)
  unfolding attempt should_retry
  attempt-Bounded n k settled next r (inl v) w h ih = record {
    attempts = omega arith;
    sleeps = refl;
    slept = omega arith;
    ends = λ s l. refl;
  }
  attempt-Bounded n k settled next r (inr e) w h ih = elim (dec_lt r.failure_count n) [
    | yes more ↦
        let c : u32 (r.failure_count + 1) ≡ suc r.failure_count = omega arith in
        let b = ih (failed r e) (record { decision = h.decision; budget = omega arith }) in
        ground (arith, c, b.attempts, b.sleeps, b.slept)
    | no out ↦ ground arith
  ]

  -- No pause of these turns lasts for ever.
  abbrev pub Settles : List (Round T) → Type 0
  Settles rounds = All (λ x. pause x.wakes ≢ waiting) rounds

  paused-Bounded :
      (n k : ℕ) (settled : Type 0) (r : Retryer) (a : Run T) (p : Pause)
      → Within n r
      → Bounded n (suc k) settled r a
      → Bounded n (suc k) ((p ≢ waiting) × settled) r (elim p [
        | interrupted ↦ stop (unpaused r) (inr plain_cancel) 0
        | waiting ↦ running (record r { is_paused = true })
        | resumed ↦ a
      ])
  paused-Bounded n k settled r a interrupted h b = record {
    attempts = omega arith;
    sleeps = refl;
    slept = omega arith;
    ends = λ s l. refl;
  }
  paused-Bounded n k settled r a waiting h b = record {
    attempts = omega arith;
    sleeps = refl;
    slept = omega arith;
    ends = λ s l. absurd (s.0 refl);
  }
  paused-Bounded n k settled r a resumed h b = record {
    attempts = b.attempts;
    sleeps = b.sleeps;
    slept = b.slept;
    ends = λ s l. b.ends s.1 l;
  }

  run-Bounded :
      (mode : NetworkMode) (n : ℕ) (r : Retryer) (rounds : List (Round T))
      → n < 2 ^ 32 - 1
      → Within n r
      → Bounded n (length rounds) (Settles rounds) r (run mode r rounds)
  unfolding run turn
  run-Bounded mode n r [] w h = record {
    attempts = omega arith;
    sleeps = refl;
    slept = omega arith;
    ends = λ s l. absurd (omega arith);
  }
  run-Bounded mode n r (x ∷ rounds) w h =
      elim (Bool-cases (not (can_retry mode x.online) && ltb 0 r.failure_count)) [
        | inl e ↦
            let b =
              attempt-Bounded n (length rounds) (Settles rounds) (λ q. run mode q rounds)
                (unpaused r) x.outcome w (record { decision = h.decision; budget = h.budget })
                (λ q hq. run-Bounded mode n q rounds w hq) in
            rw (e, turn)
              (paused-Bounded n (length rounds) (Settles rounds) r _ (pause x.wakes) h (record {
                attempts = b.attempts;
                sleeps = b.sleeps;
                slept = b.slept;
                ends = b.ends;
              }))
        | inr e ↦
            let b =
              attempt-Bounded n (length rounds) (Settles rounds) (λ q. run mode q rounds) r
                x.outcome w h (λ q hq. run-Bounded mode n q rounds w hq) in
            rw (e, turn)
              (record {
                attempts = b.attempts;
                sleeps = b.sleeps;
                slept = b.slept;
                ends = λ s l. b.ends s.1 l;
              })
      ]

  -- A run set to `n` retries (fewer than 2³² - 1) that has not used them up tries at most as often
  -- as retries and the first attempt are left, and what it sleeps are the backoffs of the failures
  -- in their order, at most one for each attempt.
  run_budget :
      (mode : NetworkMode) (n : ℕ) (r : Retryer) (rounds : List (Round T))
      → n < 2 ^ 32 - 1
      → Within n r
      → ((run mode r rounds).attempts ≤ suc n - r.failure_count)
        × ((run mode r rounds).sleeps ≡ delays r.failure_count (length (run mode r rounds).sleeps))
        × (length (run mode r rounds).sleeps ≤ (run mode r rounds).attempts)
  run_budget mode n r rounds w h =
      let b = run-Bounded mode n r rounds w h in (b.attempts, b.sleeps, b.slept)

  -- A run set to `n` retries (fewer than 2³² - 1) that has not used them up comes to a result if none
  -- of its pauses lasts and it is given more turns than retries are left.
  run_ends :
      (mode : NetworkMode) (n : ℕ) (r : Retryer) (rounds : List (Round T))
      → n < 2 ^ 32 - 1
      → Within n r
      → Settles rounds
      → n < length rounds + r.failure_count
      → is_some (run mode r rounds).result ≡ true
  run_ends mode n r rounds w h s l = (run-Bounded mode n r rounds w h).ends s l

  -- The first outcome that settles a run with `budget` retries: a success, a cancellation, or the
  -- error after which no retry is left.
  abbrev pub first_settled : ℕ → List (T ⊎ QueryError) → Option (T ⊎ QueryError)
  first_settled budget [] = none
  first_settled budget (inl v ∷ rest) = some (inl v)
  first_settled zero (inr e ∷ rest) = some (inr (if is_cancelled e then plain_cancel else e))
  first_settled (suc budget) (inr e ∷ rest) =
      let later = first_settled budget rest in
      if is_cancelled e then some (inr plain_cancel) else later

  attempt_settled :
      (n b : ℕ) (next : Retryer → Run T) (r : Retryer) (o : T ⊎ QueryError)
      (rest : List (T ⊎ QueryError))
      → n < 2 ^ 32 - 1
      → r.decision ≡ count n
      → r.failure_count + b ≡ n
      → ((b' : ℕ) (r' : Retryer)
          → r'.decision ≡ count n
          → r'.failure_count + b' ≡ n
          → (next r').result ≡ first_settled b' rest)
      → (attempt next r o).result ≡ first_settled b (o ∷ rest)
  unfolding attempt should_retry
  attempt_settled n b next r (inl v) rest w d e ih = refl
  attempt_settled n zero next r (inr x) rest w d e ih = ground arith
  attempt_settled n (suc b) next r (inr x) rest w d e ih =
      let c : u32 (r.failure_count + 1) ≡ suc r.failure_count = omega arith in
      ground (arith, c, ih b (failed r x) d (omega arith))

  -- Where connectivity does not matter (`NetworkMode::Always`), a run counted to `n` retries (fewer than
  -- 2³² - 1), of which `b` are left, ends with the first settling outcome, and is
  -- still at it as long as there is none; the cancellation token, which only the pause for connectivity
  -- looks at, has no part in it.
  pub run-first_settled :
      (n b : ℕ) (r : Retryer) (rounds : List (Round T))
      → n < 2 ^ 32 - 1
      → r.decision ≡ count n
      → r.failure_count + b ≡ n
      → (run always r rounds).result ≡ first_settled b (map (λ x. x.outcome) rounds)
  unfolding run turn can_retry
  run-first_settled n b r [] w d e = refl
  run-first_settled n b r (x ∷ rounds) w d e =
      attempt_settled n b (λ q. run always q rounds) r x.outcome (map (λ y. y.outcome) rounds) w d e
        (λ b' r' d' e'. run-first_settled n b' r' rounds w d' e')
