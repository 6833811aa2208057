-- ===== src/Executor/Imperative.antt =====
-- The imperative fetches of src/client.rs, and `spawn_mutation` of src/executor.rs past its check for
-- a restore.
use rs_query.Base.{
  ℕ, ◌≤◌, ◌≡◌, ap, ◌∙◌, if_holds, Bool, true, false, not, Option, none, some, List, ltb,
  if◌then◌else◌, arith,
}
use rs_query.State.{QueryState, QueryStatus, FetchStatus}
use rs_query.Key.{QueryKey}
use rs_query.Options.{RetryConfig, new_retry}
use rs_query.Client.Core.{QueryStateVariant, Tables, Client, is_in_flight, notify_subscribers}
use rs_query.Client.Data.{get_query_data, is_stale, entry_is_stale}
use rs_query.Network.{can_fetch}
use rs_query.Executor.{Query, Turn, Executed, returned, ended, execute_query_inner}
use rs_query.Executor.Budget.{fetch_loop_budget}

-- `QueryStateSnapshot`.
pub record QueryStateSnapshot : Type 0 where
  pub status : QueryStatus
  pub fetch_status : FetchStatus
  pub is_stale : Bool
  pub has_data : Bool
  pub data_updated_at : Option ℕ

-- The clone of `fetch_query`, which does not retry.
abbrev no_retries : RetryConfig → RetryConfig
no_retries r = if ltb 0 r.max_retries then new_retry 0 else r

unfoldable pub forced : {V : Type 0} → Query V → Query V
forced q = record q { options = record (q.options) { retry = no_retries q.options.retry } }

module _ {V : Type 0} (M : Tables V) where
  -- `get_query_state`.
  unfoldable pub get_query_state : ℕ → QueryKey → Client M → Option QueryStateSnapshot
  unfolding entry_is_stale
  get_query_state now key c = elim (M.cache.get key.cache_key c.cache) [
    | none ↦ none
    | some e ↦ some (record {
      status = QueryStatus.success;
      fetch_status =
          if is_in_flight M key.cache_key c then FetchStatus.fetching else FetchStatus.idle;
      is_stale = entry_is_stale now e;
      has_data = true;
      data_updated_at = some e.fetched_at;
    })
  ]

  -- `is_restoring` and `set_is_restoring`.
  unfoldable pub is_restoring : Client M → Bool
  is_restoring c = c.is_restoring

  unfoldable pub set_is_restoring : Bool → Client M → Client M
  set_is_restoring b c = record c { is_restoring = b }

  module _ (beq : ℕ → V → V → Bool) (q : Query V) where
    -- `fetch_query`, which is `execute_query` of the clone, and `prefetch_query`, which drops the state.
    unfoldable pub fetch_query :
        ℕ → Bool → List (QueryStateVariant × Client M) → List (Turn M) → Client M → Executed M
    fetch_query = execute_query_inner M beq (forced q) true

    unfoldable pub prefetch_query :
        ℕ → Bool → List (QueryStateVariant × Client M) → List (Turn M) → Client M → Client M
    prefetch_query now online updates turns c = (fetch_query now online updates turns c).client

    abbrev fresh : Option V → Bool → Option V
    fresh none stale = none
    fresh (some v) stale = if stale then none else some v

    abbrev or_fetch : Client M → Executed M → Option V → Executed M
    or_fetch c fetch none = fetch
    or_fetch c fetch (some v) = ended M beq q (returned (QueryState.success v)) c 0

    -- `ensure_query_data`.
    unfoldable pub ensure_query_data :
        ℕ → Bool → List (QueryStateVariant × Client M) → List (Turn M) → Client M → Executed M
    ensure_query_data now online updates turns c =
        or_fetch c (fetch_query now online updates turns c)
          (fresh (get_query_data M q.type_id q.key c) (is_stale M now q.key c))

    never_retries : (forced q).options.retry.max_retries ≡ 0
    unfolding forced new_retry
    never_retries = ground arith

    fetch_query_once :
        (now : ℕ) (online : Bool) (updates : List (QueryStateVariant × Client M))
        (turns : List (Turn M)) (c : Client M)
        → (fetch_query now online updates turns c).attempts ≤ 1
    unfolding fetch_query execute_query_inner
    fetch_query_once now online updates turns c =
        let f = forced q in
        let P : Executed M → Type 0 = λ x. x.attempts ≤ 1 in
        if_holds P c.is_restoring _ _ (λ a. omega arith)
          (λ a.
            if_holds P (is_in_flight M f.key.cache_key c) _ _ (λ b. omega arith)
              (λ b.
                if_holds P (not (can_fetch f.options.network_mode online)) _ _ (λ d. omega arith)
                  (λ d. omega (
                    arith,
                    never_retries,
                    (fetch_loop_budget M beq f turns 0
                        (notify_subscribers M f.key.cache_key QueryStateVariant.loading c)
                        (omega (arith, never_retries)) (omega arith)).0,
                  ))))

    -- `ensure_query_data` calls the fetch function at most once, whatever retries the query asks for; if
    -- the data are cached and fresh, not at all: it gives them back and leaves the client as it is.
    ensure_query_data_lem :
        (now : ℕ) (online : Bool) (updates : List (QueryStateVariant × Client M))
        (turns : List (Turn M)) (c : Client M)
        → let x = ensure_query_data now online updates turns c in
          (x.attempts ≤ 1)
          × ((v : V)
              → get_query_data M q.type_id q.key c ≡ some v
              → is_stale M now q.key c ≡ false
              → (x.outcome ≡ returned (QueryState.success v)) × (x.attempts ≡ 0) × (x.client ≡ c))
    unfolding ensure_query_data
    ensure_query_data_lem now online updates turns c = (
      once (fresh (get_query_data M q.type_id q.key c) (is_stale M now q.key c)),
      λ v cached new.
          let kept : fresh (get_query_data M q.type_id q.key c) (is_stale M now q.key c) ≡ some v =
            ap (λ o. fresh o (is_stale M now q.key c)) cached ∙ ap (fresh (some v)) new in
          let whole = ap (or_fetch c (fetch_query now online updates turns c)) kept in
          (ap (λ x. x.outcome) whole, ap (λ x. x.attempts) whole, ap (λ x. x.client) whole),
    )
      where
        once : (o : Option V) → (or_fetch c (fetch_query now online updates turns c) o).attempts ≤ 1
        once none = fetch_query_once now online updates turns c
        once (some v) = omega arith
