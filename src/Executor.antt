-- ===== src/Executor.antt =====
-- src/executor.rs: the execution of a query, with its guards, the attempt loop and the wait for a
-- fetch that is in flight already. The surroundings are the input, one `Turn` for each turn of the
-- loop, with what the other tasks do to the client while the loop waits.
pub mod Outcomes
pub mod Budget
pub mod Spawning
pub mod Imperative
use rs_query.Base.{
  ℕ, suc, ◌+◌, Bool, true, false, ◌&&◌, not, ◌⊎◌, inl, inr, Option, none, some, List, [], ◌∷◌,
  if◌then◌else◌,
}
use rs_query.Key.{QueryKey}
use rs_query.State.{QueryError, QueryState, is_cancelled}
use rs_query.Network.{can_fetch, can_retry}
use rs_query.Options.{QueryOptions}
use rs_query.Retry.{RetryDecision, should_retry, delay_for, plain_cancel, u32}
use rs_query.Client.Core
use rs_query.Client.Core.{QueryStateVariant, Tables, Client, is_in_flight, notify_subscribers}
use rs_query.Client.Data.{get_query_data, is_stale, set_query_data}

-- `Query<T>` of src/query.rs, at the type with the id `type_id`; its fetch function is in the turns.
pub record Query (V : Type 0) : Type 0 where
  pub key : QueryKey
  pub type_id : ℕ
  pub options : QueryOptions
  pub select : Option (V → V)

-- What a turn of the loop meets: the token at its start, what `cancellable_fetch` gives, whether the
-- client is online after a failure, the token after `wait_for_online`, and the instant of the write;
-- and what other tasks do to the client during the fetch, between the write and the read of the
-- answer, during `wait_for_online` and during the sleep.
pub record Turn {V : Type 0} (M : Tables V) : Type 0 where
  pub cancelled : Bool
  pub fetched : V ⊎ QueryError
  pub online : Bool
  pub cancelled_waiting : Bool
  pub now : ℕ
  pub fetching : Client M → Client M
  pub writing : Client M → Client M
  pub waiting : Client M → Client M
  pub sleeping : Client M → Client M

-- `panicked` is the failure of `expect("data should be set")`.
pub data Outcome (V : Type 0) : Type 0 where
  returned : QueryState V → Outcome V
  panicked unfinished : Outcome V

pub record Executed {V : Type 0} (M : Tables V) : Type 0 where
  pub outcome : Outcome V
  pub client : Client M
  pub attempts : ℕ
  pub sleeps : List ℕ

-- `should_retry`: which kinds of errors are retried.
unfoldable pub retryable : QueryError → Bool
retryable (QueryError.network m) = true
retryable (QueryError.timeout m) = true
retryable _ = false

abbrev pub selected : {V : Type 0} → Option (V → V) → V → V
selected none v = v
selected (some f) v = f v

abbrev pub success_or_panic : {V : Type 0} → Option V → Outcome V
success_or_panic none = panicked
success_or_panic (some v) = returned (QueryState.success v)

-- `QueryError::custom("Deduplicated request failed")`.
abbrev pub dedup_failed : QueryError
dedup_failed = QueryError.custom (
    b'D' ∷ b'e' ∷ b'd' ∷ b'u' ∷ b'p' ∷ b'l' ∷ b'i' ∷ b'c' ∷ b'a' ∷ b't' ∷ b'e' ∷ b'd' ∷ b' ' ∷ b'r'
    ∷ b'e' ∷ b'q' ∷ b'u' ∷ b'e' ∷ b's' ∷ b't' ∷ b' ' ∷ b'f' ∷ b'a' ∷ b'i' ∷ b'l' ∷ b'e' ∷ b'd' ∷ [])

module _ {V : Type 0} (M : Tables V) (beq : ℕ → V → V → Bool) (q : Query V) where
  -- An error with the data that are cached now.
  abbrev pub failure : QueryError → Client M → Outcome V
  failure e c = returned (QueryState.error e (get_query_data M q.type_id q.key c))

  abbrev pub ended : Outcome V → Client M → ℕ → Executed M
  ended o c attempts = record { outcome = o; client = c; attempts = attempts; sleeps = [] }

  abbrev pub slept : ℕ → Executed M → Executed M
  slept d x = record x { attempts = suc x.attempts; sleeps = d ∷ x.sleeps }

  abbrev pub stored : ℕ → V → Client M → Client M
  stored now v c = set_query_data M beq now q.type_id q.key (selected q.select v) q.options c

  -- A failed attempt; `index` is `attempts - 1`, and `more` the rest of the loop.
  unfoldable pub failed_attempt :
      (Client M → Executed M) → Turn M → QueryError → ℕ → Client M → Executed M
  failed_attempt more turn e index c =
      let waits = not (can_retry q.options.network_mode turn.online) in
      let c1 = if waits then turn.waiting c else c in
      if is_cancelled e
      then ended (failure plain_cancel c) c 1
      else if should_retry (RetryDecision.count q.options.retry.max_retries) e index && retryable e
      then (if waits && turn.cancelled_waiting
          then ended (failure plain_cancel c1) c1 1
          else slept (delay_for q.options.retry index) (more (turn.sleeping c1)))
      else ended (failure e c) (notify_subscribers M q.key.cache_key QueryStateVariant.error c) 1

  -- The `match` on what the attempt gave.
  unfoldable pub fetched :
      (Client M → Executed M) → Turn M → ℕ → Client M → V ⊎ QueryError → Executed M
  unfolding failed_attempt
  fetched more turn index c (inl v) =
      let c' = turn.writing (stored turn.now v c) in
      ended (success_or_panic (get_query_data M q.type_id q.key c')) c' 1
  fetched more turn index c (inr e) = failed_attempt more turn e index c

  unfoldable pub one_turn : (Client M → Executed M) → Turn M → ℕ → Client M → Executed M
  unfolding fetched
  one_turn more turn index c =
      if turn.cancelled
      then ended (failure plain_cancel c) c 0
      else fetched more turn index (turn.fetching c) turn.fetched

  -- The loop of `execute_query_inner`.
  unfoldable pub fetch_loop : List (Turn M) → ℕ → Client M → Executed M
  unfolding one_turn
  fetch_loop [] attempts c = ended unfinished c 0
  fetch_loop (turn ∷ turns) attempts c =
      one_turn (fetch_loop turns (u32 (attempts + 1))) turn attempts c

  -- The end of `wait_for_dedup`: the updates until `recv` fails, each with the client as the waiter
  -- then finds it.
  unfoldable pub dedup_loop : List (QueryStateVariant × Client M) → Outcome V
  dedup_loop [] = returned QueryState.loading
  dedup_loop ((variant, c) ∷ rest) =
      let later = dedup_loop rest in
      elim variant [
        | QueryStateVariant.success ↦ elim (get_query_data M q.type_id q.key c) [
          | none ↦ later
          | some v ↦ returned (QueryState.success v)
        ]
        | QueryStateVariant.stale ↦ elim (get_query_data M q.type_id q.key c) [
          | none ↦ later
          | some v ↦ returned (QueryState.stale v)
        ]
        | QueryStateVariant.error ↦ failure dedup_failed c
        | QueryStateVariant.idle ↦ later
        | QueryStateVariant.loading ↦ later
        | QueryStateVariant.refetching ↦ later
      ]

  unfoldable pub wait_for_dedup : ℕ → List (QueryStateVariant × Client M) → Client M → Outcome V
  unfolding dedup_loop
  wait_for_dedup now updates c = elim (get_query_data M q.type_id q.key c) [
    | none ↦ dedup_loop updates
    | some v ↦
        returned (if is_stale M now q.key c then QueryState.stale v else QueryState.success v)
  ]

  -- `execute_query_inner`; `online` is the connectivity at its start.
  unfoldable pub execute_query_inner :
      Bool → ℕ → Bool → List (QueryStateVariant × Client M) → List (Turn M) → Client M → Executed M
  unfolding wait_for_dedup fetch_loop
  execute_query_inner allow_dedup now online updates turns c =
      let c1 = notify_subscribers M q.key.cache_key QueryStateVariant.loading c in
      let c2 = (Core.subscribe M q.key.cache_key c).0 in
      if c.is_restoring
      then ended (returned QueryState.idle) c 0
      else if allow_dedup && is_in_flight M q.key.cache_key c
      then ended (wait_for_dedup now updates c2) c2 0
      else if not (can_fetch q.options.network_mode online)
      then ended (failure QueryError.paused c1) c1 0
      else fetch_loop turns 0 c1
