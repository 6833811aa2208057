-- ===== src/State/Views.antt =====
-- How the aggregate views of a query's state hang together.
use rs_query.Base.{◌≡◌, ◌||◌, arith}
use mathlib.Core.Option
use rs_query.State.{
  QueryStatus, FetchStatus, query_status_eq, fetch_status_eq, QueryState, data_of, data_mut,
  is_loading, is_refetching, is_error, is_idle, error_of, status, fetch_status, unwrap,
}

module _ {T : Type 0} where
  -- A state is fetching exactly if it loads or refetches, failed exactly if it is an error, pending
  -- exactly if it is idle or loads; and `unwrap` panics exactly on the states without data.
  status_views :
      (s : QueryState T)
      → (fetch_status_eq (fetch_status s) FetchStatus.fetching ≡ (is_loading s || is_refetching s))
        × (query_status_eq (status s) QueryStatus.error ≡ is_error s)
        × (query_status_eq (status s) QueryStatus.pending ≡ (is_idle s || is_loading s))
        × (unwrap s ≡ data_of s)
  unfolding status is_error is_idle is_loading is_refetching fetch_status unwrap data_of
      query_status_eq fetch_status_eq
  status_views s = ground arith

  -- A write through `data_mut` changes the data, if there are any, and no other view of the state.
  views_data_mut :
      (f : T → T) (s : QueryState T)
      → (data_of (data_mut f s) ≡ Option.map f (data_of s))
        × (status (data_mut f s) ≡ status s)
        × (fetch_status (data_mut f s) ≡ fetch_status s)
        × (error_of (data_mut f s) ≡ error_of s)
  unfolding data_of data_mut status fetch_status error_of
  views_data_mut f s = ground arith
