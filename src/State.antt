-- ===== src/State.antt =====
-- src/error.rs and src/state.rs: errors, and the states of queries and mutations with the
-- aggregate views that filters and bindings read.
pub mod Views
use rs_query.Base.{◌≡◌, Bool, true, false, Option, none, some, arith, Text, is_some}
use mathlib.Core.Option

-- `QueryError`; the texts are the messages.
pub data QueryError : Type 0 where
  network serialization timeout custom : Text → QueryError
  cancelled : (revert silent : Bool) → QueryError
  missing_query_fn paused undefined_data redacted : QueryError

-- `QueryError::is_cancelled`.
unfoldable pub is_cancelled : QueryError → Bool
is_cancelled (cancelled revert silent) = true
is_cancelled _ = false

pub data QueryStatus : Type 0 where
  pending error success : QueryStatus

pub data FetchStatus : Type 0 where
  idle fetching paused : FetchStatus

pub data MutationStatus : Type 0 where
  idle pending success error : MutationStatus

-- The derived `PartialEq`s.
unfoldable pub query_status_eq : QueryStatus → QueryStatus → Bool
query_status_eq QueryStatus.pending QueryStatus.pending = true
query_status_eq QueryStatus.error QueryStatus.error = true
query_status_eq QueryStatus.success QueryStatus.success = true
query_status_eq _ _ = false

unfoldable pub fetch_status_eq : FetchStatus → FetchStatus → Bool
fetch_status_eq FetchStatus.idle FetchStatus.idle = true
fetch_status_eq FetchStatus.fetching FetchStatus.fetching = true
fetch_status_eq FetchStatus.paused FetchStatus.paused = true
fetch_status_eq _ _ = false

unfoldable pub mutation_status_eq : MutationStatus → MutationStatus → Bool
mutation_status_eq MutationStatus.idle MutationStatus.idle = true
mutation_status_eq MutationStatus.pending MutationStatus.pending = true
mutation_status_eq MutationStatus.success MutationStatus.success = true
mutation_status_eq MutationStatus.error MutationStatus.error = true
mutation_status_eq _ _ = false

pub query_status_eq_sound : (a b : QueryStatus) → query_status_eq a b ≡ true → a ≡ b
unfolding query_status_eq
query_status_eq_sound a b h = ground arith

pub query_status_eq_self : (a : QueryStatus) → query_status_eq a a ≡ true
unfolding query_status_eq
query_status_eq_self a = ground arith

pub fetch_status_eq_sound : (a b : FetchStatus) → fetch_status_eq a b ≡ true → a ≡ b
unfolding fetch_status_eq
fetch_status_eq_sound a b h = ground arith

pub fetch_status_eq_self : (a : FetchStatus) → fetch_status_eq a a ≡ true
unfolding fetch_status_eq
fetch_status_eq_self a = ground arith

pub mutation_status_eq_sound : (a b : MutationStatus) → mutation_status_eq a b ≡ true → a ≡ b
unfolding mutation_status_eq
mutation_status_eq_sound a b h = ground arith

pub mutation_status_eq_self : (a : MutationStatus) → mutation_status_eq a a ≡ true
unfolding mutation_status_eq
mutation_status_eq_self a = ground arith

-- `QueryState<T>`.
pub data QueryState (T : Type 0) : Type 0 where
  idle loading : QueryState T
  loading_with_placeholder refetching success stale : T → QueryState T
  error : QueryError → (stale_data : Option T) → QueryState T

module _ {T : Type 0} where
  unfoldable pub data_of : QueryState T → Option T
  data_of QueryState.idle = none
  data_of loading = none
  data_of (loading_with_placeholder d) = some d
  data_of (refetching d) = some d
  data_of (QueryState.success d) = some d
  data_of (stale d) = some d
  data_of (QueryState.error e stale_data) = stale_data

  -- `data_mut` followed by a write through the reference: the data become `f` of themselves.
  unfoldable pub data_mut : (T → T) → QueryState T → QueryState T
  data_mut f QueryState.idle = QueryState.idle
  data_mut f loading = loading
  data_mut f (loading_with_placeholder d) = loading_with_placeholder (f d)
  data_mut f (refetching d) = refetching (f d)
  data_mut f (QueryState.success d) = QueryState.success (f d)
  data_mut f (stale d) = stale (f d)
  data_mut f (QueryState.error e stale_data) = QueryState.error e (Option.map f stale_data)

  unfoldable pub is_loading : QueryState T → Bool
  is_loading loading = true
  is_loading (loading_with_placeholder d) = true
  is_loading _ = false

  unfoldable pub is_refetching : QueryState T → Bool
  is_refetching (refetching d) = true
  is_refetching _ = false

  unfoldable pub is_success : QueryState T → Bool
  is_success (QueryState.success d) = true
  is_success _ = false

  unfoldable pub is_stale : QueryState T → Bool
  is_stale (stale d) = true
  is_stale _ = false

  unfoldable pub is_error : QueryState T → Bool
  is_error (QueryState.error e stale_data) = true
  is_error _ = false

  unfoldable pub is_idle : QueryState T → Bool
  is_idle QueryState.idle = true
  is_idle _ = false

  unfoldable pub error_of : QueryState T → Option QueryError
  error_of (QueryState.error e stale_data) = some e
  error_of _ = none

  unfoldable pub has_data : QueryState T → Bool
  unfolding data_of
  has_data s = is_some (data_of s)

  unfoldable pub status : QueryState T → QueryStatus
  status QueryState.idle = QueryStatus.pending
  status loading = QueryStatus.pending
  status (loading_with_placeholder d) = QueryStatus.pending
  status (refetching d) = QueryStatus.success
  status (QueryState.success d) = QueryStatus.success
  status (stale d) = QueryStatus.success
  status (QueryState.error e stale_data) = QueryStatus.error

  unfoldable pub fetch_status : QueryState T → FetchStatus
  fetch_status QueryState.idle = FetchStatus.idle
  fetch_status (QueryState.success d) = FetchStatus.idle
  fetch_status (stale d) = FetchStatus.idle
  fetch_status (QueryState.error e stale_data) = FetchStatus.idle
  fetch_status loading = FetchStatus.fetching
  fetch_status (loading_with_placeholder d) = FetchStatus.fetching
  fetch_status (refetching d) = FetchStatus.fetching

  -- `unwrap`; `none` is the panic.
  unfoldable pub unwrap : QueryState T → Option T
  unwrap (loading_with_placeholder d) = some d
  unwrap (refetching d) = some d
  unwrap (QueryState.success d) = some d
  unwrap (stale d) = some d
  unwrap (QueryState.error e (some d)) = some d
  unwrap _ = none

-- `QueryState::map`.
unfoldable pub map_data : {T U : Type 0} → (T → U) → QueryState T → Option U
unfolding data_of
map_data f s = Option.map f (data_of s)

-- `MutationState<T>`.
pub data MutationState (T : Type 0) : Type 0 where
  idle loading : MutationState T
  success : T → MutationState T
  error : QueryError → MutationState T

module _ {T : Type 0} where
  unfoldable pub mutation_data : MutationState T → Option T
  mutation_data (MutationState.success d) = some d
  mutation_data _ = none

  unfoldable pub mutation_error : MutationState T → Option QueryError
  mutation_error (MutationState.error e) = some e
  mutation_error _ = none

  unfoldable pub mutation_status : MutationState T → MutationStatus
  mutation_status MutationState.idle = MutationStatus.idle
  mutation_status MutationState.loading = MutationStatus.pending
  mutation_status (MutationState.success d) = MutationStatus.success
  mutation_status (MutationState.error e) = MutationStatus.error
