-- ===== src/Observer.antt =====
-- src/observer.rs: the observer of one key. It reads values of the type with the id `type_id`; its
-- receiver is the id of a subscription, and `now` the instant of a call.
pub mod Bookkeeping
pub mod States
use rs_query.Base.{
  ℕ, zero, suc, min, Bool, true, false, ◌&&◌, not, Option, none, some, if◌then◌else◌,
}
use rs_query.Key.{QueryKey}
use rs_query.State.{QueryError, QueryState, data_of, has_data, is_error}
use rs_query.Network.{can_fetch}
use rs_query.Options.{QueryOptions, PlaceholderData, default_options, resolve, is_enabled, u32_max}
use rs_query.Bus.{Shared, try_recv, ok, lagged}
use rs_query.Client.Core
use rs_query.Client.Core.{Tables, Client}
use rs_query.Client.Data.{get_query_data, is_stale, set_query_data, invalidate_queries}
use rs_query.Client.Core.{cancel_query}

-- `QueryObserver<T>`, without the pointer to its client.
pub record QueryObserver (V : Type 0) : Type 0 where
  pub key : QueryKey
  pub type_id : ℕ
  pub state : QueryState V
  pub receiver : ℕ
  pub options : QueryOptions
  pub fetch_started_at : Option ℕ
  pub placeholder_data : Option (PlaceholderData V)
  pub data_updated_at : Option ℕ
  pub error_updated_at : Option ℕ
  pub error_update_count : ℕ
  pub failure_count : ℕ
  pub failure_reason : Option QueryError
  pub is_fetched : Bool
  pub is_fetched_after_mount : Bool

-- `QueryResultFlags`.
pub record QueryResultFlags : Type 0 where
  pub data_updated_at : Option ℕ
  pub error_updated_at : Option ℕ
  pub error_update_count : ℕ
  pub failure_count : ℕ
  pub failure_reason : Option QueryError
  pub is_fetched : Bool
  pub is_fetched_after_mount : Bool
  pub is_loading_error : Bool
  pub is_refetch_error : Bool
  pub is_placeholder_data : Bool
  pub is_paused : Bool
  pub is_enabled : Bool

abbrev pub is_some_instant : Option ℕ → Bool
is_some_instant none = false
is_some_instant (some t) = true

-- `saturating_add(1)` of a `u32`.
abbrev pub count_one : ℕ → ℕ
count_one n = min (suc n) u32_max

module _ {V : Type 0} where
  -- The observer with its bookkeeping at the start.
  abbrev pub mounted :
      QueryKey → ℕ → QueryState V → ℕ → QueryOptions → Option (PlaceholderData V) → QueryObserver V
  mounted key t state receiver options placeholder = record {
    key = key;
    type_id = t;
    state = state;
    receiver = receiver;
    options = options;
    fetch_started_at = none;
    placeholder_data = placeholder;
    data_updated_at = none;
    error_updated_at = none;
    error_update_count = 0;
    failure_count = 0;
    failure_reason = none;
    is_fetched = false;
    is_fetched_after_mount = false;
  }

  abbrev pub after_fetch : QueryObserver V → Bool
  after_fetch o = if is_some_instant o.fetch_started_at then true else o.is_fetched_after_mount

  abbrev pub started : Option (PlaceholderData V) → Option V → QueryState V
  started placeholder (some d) = QueryState.refetching d
  started (some p) none = QueryState.loading_with_placeholder (resolve p none)
  started none none = QueryState.loading

  unfoldable pub set_loading : ℕ → QueryObserver V → QueryObserver V
  set_loading now o = record o {
    fetch_started_at = some now;
    failure_count = 0;
    failure_reason = none;
    state = started o.placeholder_data (data_of o.state);
  }

  unfoldable pub set_success : ℕ → V → QueryObserver V → QueryObserver V
  set_success now d o = record o {
    fetch_started_at = none;
    state = QueryState.success d;
    data_updated_at = some now;
    is_fetched = true;
    is_fetched_after_mount = after_fetch o;
    failure_count = 0;
    failure_reason = none;
  }

  unfoldable pub set_error : ℕ → QueryError → QueryObserver V → QueryObserver V
  set_error now e o = record o {
    fetch_started_at = none;
    state = QueryState.error e (data_of o.state);
    error_updated_at = some now;
    error_update_count = count_one o.error_update_count;
    failure_count = count_one o.failure_count;
    failure_reason = some e;
    is_fetched = true;
    is_fetched_after_mount = after_fetch o;
  }

  unfoldable pub set_stale : ℕ → QueryObserver V → QueryObserver V
  set_stale now o = elim (data_of o.state) [
    | none ↦ o
    | some d ↦ record o { state = QueryState.stale d; data_updated_at = some now }
  ]

  abbrev shows_placeholder : QueryState V → Bool
  shows_placeholder (QueryState.loading_with_placeholder d) = true
  shows_placeholder _ = false

  unfoldable pub flags : (online : Bool) → QueryObserver V → QueryResultFlags
  unfolding is_error has_data can_fetch is_enabled
  flags online o = record {
    data_updated_at = o.data_updated_at;
    error_updated_at = o.error_updated_at;
    error_update_count = o.error_update_count;
    failure_count = o.failure_count;
    failure_reason = o.failure_reason;
    is_fetched = o.is_fetched;
    is_fetched_after_mount = o.is_fetched_after_mount;
    is_loading_error = is_error o.state && not (has_data o.state);
    is_refetch_error = is_error o.state && has_data o.state;
    is_placeholder_data = shows_placeholder o.state;
    is_paused = not (can_fetch o.options.network_mode online);
    is_enabled = is_enabled o.options;
  }

-- The loop of `try_recv` after `Lagged(n)`: at most `n` messages, up to an error.
unfoldable pub recover : {U : Type 0} → ℕ → Option U → ℕ → Shared U → Shared U × Option U
recover zero last id s = (s, last)
recover (suc n) last id s =
    let (s', r) = try_recv id s in elim r [ ok u ↦ recover n (some u) id s' | _ ↦ (s', last) ]

-- `try_recv` on the channel of the key.
unfoldable pub try_recv_update : {U : Type 0} → ℕ → Shared U → Shared U × Option U
unfolding recover
try_recv_update id s =
    let (s', r) = try_recv id s in
    elim r [ ok u ↦ (s', some u) | lagged n ↦ recover n none id s' | _ ↦ (s', none) ]

module _ {V : Type 0} (M : Tables V) where
  abbrev found : Bool → V → QueryState V
  found stale d = if stale then QueryState.stale d else QueryState.success d

  -- The state that `new` reads from the cache.
  abbrev pub initial : Option V → Bool → QueryState V
  initial none stale = QueryState.idle
  initial (some d) stale = found stale d

  unfoldable pub new : ℕ → ℕ → QueryKey → Client M → Client M × QueryObserver V
  unfolding Core.subscribe
  new now t key c =
      let (c', id) = Core.subscribe M key.cache_key c in
      (
        c',
        mounted key t (initial (get_query_data M t key c') (is_stale M now key c')) id
            default_options none,
      )

  unfoldable pub with_options :
      ℕ → ℕ → QueryKey → QueryOptions → Client M → Client M × QueryObserver V
  with_options now t key options c =
      let (c', o) = new now t key c in (c', record o { options = options })

  -- `from_query`, with the parts of the query.
  unfoldable pub from_query :
      (ℕ → V → V → Bool)
      → ℕ
      → ℕ
      → QueryKey
      → QueryOptions
      → Option V
      → Option (PlaceholderData V)
      → Client M
      → Client M × QueryObserver V
  from_query beq now t key options initial_data placeholder c =
      let (c', id) = Core.subscribe M key.cache_key c in
      elim (get_query_data M t key c') [
        | some d ↦ (c', mounted key t (found (is_stale M now key c') d) id options placeholder)
        | none ↦ elim initial_data [
          | none ↦ (c', mounted key t QueryState.idle id options placeholder)
          | some d ↦ (
            set_query_data M beq now t key d options c',
            mounted key t (QueryState.success d) id options placeholder,
          )
        ]
      ]

  -- `clone`: the copy has a subscription of its own.
  unfoldable pub clone_observer : QueryObserver V → Client M → Client M × QueryObserver V
  clone_observer o c =
      let (c', id) = Core.subscribe M o.key.cache_key c in (c', record o { receiver = id })

  -- The `match` of `update`.
  abbrev pub updated : QueryState V → Option V → Bool → QueryState V
  updated state none stale = QueryState.idle
  updated QueryState.loading (some d) stale = found stale d
  updated (QueryState.loading_with_placeholder p) (some d) stale = found stale d
  updated (QueryState.refetching p) (some d) stale = found stale d
  updated _ (some d) true = QueryState.stale d
  updated _ (some d) false = QueryState.success d

  unfoldable pub update : ℕ → Client M → QueryObserver V → QueryObserver V
  unfolding get_query_data is_stale
  update now c o = record o {
    state = updated o.state (get_query_data M o.type_id o.key c) (is_stale M now o.key c);
  }

  unfoldable pub refetch : QueryObserver V → Client M → Client M
  refetch o c = invalidate_queries M o.key c

  unfoldable pub refetch_with : Bool → QueryObserver V → Client M → Client M
  unfolding refetch
  refetch_with cancel_refetch o c =
      if cancel_refetch then refetch o (cancel_query M o.key c) else refetch o c
