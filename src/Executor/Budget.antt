-- ===== src/Executor/Budget.antt =====
-- How often an execution fetches, that it ends, and when it does not fetch at all.
use rs_query.Base.{
  if_holds, ltb→lt, ap, sym, subst, ℕ, zero, suc, ◌+◌, ◌-◌, ◌^◌, ◌≤◌, ◌<◌, ◌≡◌, refl, ◌≢◌, ◌⊎◌, inl,
  inr, Bool, true, if◌then◌else◌, not, ◌&&◌, ◌||◌, Option, none, some, List, [], ◌∷◌, arith, length,
  ltb,
}
use rs_query.State.{QueryError, is_cancelled}
use rs_query.Network.{can_fetch, can_retry}
use rs_query.Options.{RetryConfig}
use rs_query.Retry.{should_retry, delay_for, u32, plain_cancel}
use rs_query.Client.Core
use rs_query.Client.Core.{QueryStateVariant, Tables, Client, is_in_flight, notify_subscribers}
use rs_query.Executor.{
  Query, Turn, Outcome, unfinished, Executed, retryable, success_or_panic, ended, slept, failure,
  failed_attempt, fetched, one_turn, fetch_loop, execute_query_inner,
}

-- The delays after `j` failures in a row, the first with the index `k`.
abbrev pub waits : RetryConfig → ℕ → ℕ → List ℕ
waits c k zero = []
waits c k (suc j) = delay_for c k ∷ waits c (suc k) j

module _ {V : Type 0} (M : Tables V) (beq : ℕ → V → V → Bool) (q : Query V) where
  abbrev limit : ℕ
  limit = q.options.retry.max_retries

  -- `turns` more turns suffice from the index `k` on.
  record Spent (k turns : ℕ) (x : Executed M) : Type 0 where
    attempts : x.attempts ≤ suc limit - k
    sleeps : x.sleeps ≡ waits q.options.retry k (length x.sleeps)
    between : (length x.sleeps ≤ x.attempts) × (x.attempts ≤ suc (length x.sleeps))
    over : limit < turns + k → x.outcome ≢ unfinished

  success_over : (o : Option V) → success_or_panic o ≢ unfinished
  success_over none e = cc
  success_over (some v) e = cc

  once :
      (k turns : ℕ) (o : Outcome V) (c : Client M) (n : ℕ)
      → k ≤ limit
      → n ≤ 1
      → o ≢ unfinished
      → Spent k turns (ended M beq q o c n)
  once k turns o c n h m ne = record {
    attempts = omega arith;
    sleeps = refl;
    between = (omega arith, omega arith);
    over = λ l. ne;
  }

  slept-Spent :
      (k turns : ℕ) (more : Executed M)
      → k < limit
      → Spent (suc k) turns more
      → Spent k (suc turns) (slept M beq q (delay_for q.options.retry k) more)
  slept-Spent k turns more l h =
      let a = h.attempts in
      record {
        attempts = omega arith;
        sleeps = ap (◌∷◌ (delay_for q.options.retry k)) h.sleeps;
        between = (omega (arith, h.between.0), omega (arith, h.between.1));
        over = λ m. h.over (omega arith);
      }

  failed-Spent :
      (more : Client M → Executed M) (turn : Turn M) (e : QueryError) (k turns : ℕ) (c : Client M)
      → k ≤ limit
      → (k < limit → (d : Client M) → Spent (suc k) turns (more d))
      → Spent k (suc turns) (failed_attempt M beq q more turn e k c)
  unfolding failed_attempt should_retry
  failed-Spent more turn e k turns c h ih =
      let P : Executed M → Type 0 = Spent k (suc turns) in
      let waits = not (can_retry q.options.network_mode turn.online) in
      let c1 = if waits then turn.waiting c else c in
      let cancel : (d : Client M)
          → Spent k (suc turns) (ended M beq q (failure M beq q plain_cancel d) d 1) =
        λ d. once k (suc turns) (failure M beq q plain_cancel d) d 1 h (omega arith) (λ x. cc) in
      if_holds P (is_cancelled e) _ _ (λ x. cancel c)
        (λ y.
          if_holds P (ltb k limit && retryable e) _ _
            (λ more_left.
              if_holds P (waits && turn.cancelled_waiting) _ _ (λ x. cancel c1)
                (λ x.
                  let l : k < limit = ltb→lt k limit (ground arith) in
                  slept-Spent k turns (more (turn.sleeping c1)) l (ih l (turn.sleeping c1))))
            (λ x. once k (suc turns) (failure M beq q e c) _ 1 h (omega arith) (λ z. cc)))

  fetched-Spent :
      (more : Client M → Executed M) (turn : Turn M) (k turns : ℕ) (c : Client M)
      (o : V ⊎ QueryError)
      → k ≤ limit
      → (k < limit → (d : Client M) → Spent (suc k) turns (more d))
      → Spent k (suc turns) (fetched M beq q more turn k c o)
  unfolding fetched
  fetched-Spent more turn k turns c (inl v) h ih =
      once k (suc turns) _ _ 1 h (omega arith) (success_over _)
  fetched-Spent more turn k turns c (inr e) h ih = failed-Spent more turn e k turns c h ih

  fetch_loop-Spent :
      (turns : List (Turn M)) (k : ℕ) (c : Client M)
      → limit < 2 ^ 32 - 1
      → k ≤ limit
      → Spent k (length turns) (fetch_loop M beq q turns k c)
  unfolding fetch_loop one_turn
  fetch_loop-Spent [] k c b h = record {
    attempts = omega arith;
    sleeps = refl;
    between = (omega arith, omega arith);
    over = λ l. absurd (omega arith);
  }
  fetch_loop-Spent (turn ∷ turns) k c b h =
      let n = length turns in
      let next : k < limit → u32 (k + 1) ≡ suc k = λ l. omega arith in
      if_holds (Spent k (suc n)) turn.cancelled _ _
        (λ x. once k (suc n) (failure M beq q plain_cancel c) c 0 h (omega arith) (λ z. cc))
        (λ x. fetched-Spent _ turn k n (turn.fetching c) turn.fetched h (λ l d.
          subst (λ j. Spent (suc k) n (fetch_loop M beq q turns j d)) (sym (next l))
            (fetch_loop-Spent turns (suc k) d b (omega arith))))

  -- With fewer than 2³² - 1 retries configured, of which `k` are used, the loop fetches at most as
  -- often as retries and the first attempt are left; it sleeps between any two fetches, each time the
  -- delay of the failure before, in their order; and there is a fetch before each sleep.
  pub fetch_loop_budget :
      (turns : List (Turn M)) (k : ℕ) (c : Client M)
      → limit < 2 ^ 32 - 1
      → k ≤ limit
      → let x = fetch_loop M beq q turns k c in
        (x.attempts ≤ suc limit - k)
        × (x.sleeps ≡ waits q.options.retry k (length x.sleeps))
        × (length x.sleeps ≤ x.attempts)
        × (x.attempts ≤ suc (length x.sleeps))
  fetch_loop_budget turns k c b h =
      let s = fetch_loop-Spent turns k c b h in (s.attempts, s.sleeps, s.between.0, s.between.1)

  -- With fewer than 2³² - 1 retries configured, of which `k` are used, the loop is over after at most
  -- one turn more than retries are left.
  pub fetch_loop_ends :
      (turns : List (Turn M)) (k : ℕ) (c : Client M)
      → limit < 2 ^ 32 - 1
      → k ≤ limit
      → limit < length turns + k
      → (fetch_loop M beq q turns k c).outcome ≢ unfinished
  fetch_loop_ends turns k c b h l = (fetch_loop-Spent turns k c b h).over l

  -- While a persisted cache is restored, where a fetch of the key is in flight and is waited for, and
  -- offline in a mode that forbids to start, an execution fetches nothing and leaves the cache alone.
  pub execute_query_inner_gated :
      (allow_dedup : Bool) (now : ℕ) (online : Bool) (updates : List (QueryStateVariant × Client M))
      (turns : List (Turn M)) (c : Client M)
      → (c.is_restoring
          || allow_dedup && is_in_flight M q.key.cache_key c
          || not (can_fetch q.options.network_mode online))
        ≡ true
      → let x = execute_query_inner M beq q allow_dedup now online updates turns c in
        (x.attempts ≡ 0) × (x.client.cache ≡ c.cache)
  unfolding execute_query_inner notify_subscribers Core.subscribe
  execute_query_inner_gated allow_dedup now online updates turns c h =
      let P : Executed M → Type 0 = λ x. (x.attempts ≡ 0) × (x.client.cache ≡ c.cache) in
      if_holds P c.is_restoring _ _ (λ a. (refl, refl))
        (λ a.
          if_holds P (allow_dedup && is_in_flight M q.key.cache_key c) _ _ (λ b. (refl, refl))
            (λ b.
              if_holds P (not (can_fetch q.options.network_mode online)) _ _ (λ d. (refl, refl))
                (λ d. absurd (ground arith))))
