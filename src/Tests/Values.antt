-- ===== src/Tests/Values.antt =====
-- Keys (src/key.rs), states (src/state.rs), filters (src/filters.rs), options (src/options.rs) and
-- pages (src/infinite.rs) at concrete inputs.
use rs_query.Base.{ℕ, ◌≡◌, refl, ◌↔◌, true, false, some, [], ◌∷◌, Text}
use rs_query.Key.{QueryKey}
use rs_query.Key.Join.{joined}
use rs_query.State.{QueryError, QueryStatus, FetchStatus, MutationStatus, QueryState}
use rs_query.Filters.{
  QuerySnapshot, QueryFilters, all_queries, MutationSnapshot, MutationFilters, all_mutations,
  match_query,
}
use rs_query.Filters.Meaning.{Selected, match_query_iff}
use rs_query.Options.{RetryConfig, secs, base_retry_delay}
use rs_query.Infinite.{InfiniteData}

abbrev users : Text
users = b'u' ∷ b's' ∷ []

abbrev seven : Text
seven = b'7' ∷ []

abbrev user_list : QueryKey
user_list = joined (users ∷ [])

abbrev user_seven : QueryKey
user_seven = joined (users ∷ seven ∷ [])

abbrev kept_error : QueryState ℕ
kept_error = QueryState.error QueryError.missing_query_fn (some 3)

abbrev stale_user : QuerySnapshot
stale_user = record {
  key = user_seven;
  is_active = false;
  is_stale = true;
  fetch_status = FetchStatus.idle;
  status = QueryStatus.success;
  has_data = true;
}

abbrev stale_users : QueryFilters
stale_users = record all_queries { query_key = some user_list; stale = true }

match_query_iff_example :
    (match_query stale_user stale_users ≡ true) ↔ Selected stale_user stale_users
match_query_iff_example = match_query_iff stale_user stale_users refl

abbrev saving : MutationSnapshot
saving = record {
  mutation_key = some user_seven;
  status = MutationStatus.pending;
  is_paused = true;
}

abbrev paused_users : MutationFilters
paused_users = record all_mutations { mutation_key = some user_list; is_paused = some true }

abbrev five_seconds : RetryConfig
five_seconds = record {
  max_retries = 10;
  base_delay = base_retry_delay;
  exponential_backoff = true;
  max_delay = secs 5;
}

abbrev two_pages : InfiniteData ℕ ℕ
two_pages = record { pages = 10 ∷ 20 ∷ []; page_params = 1 ∷ 2 ∷ [] }
