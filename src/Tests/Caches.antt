-- ===== src/Tests/Caches.antt =====
-- The client's operations (src/client.rs) at concrete inputs, over tables that are association lists.
use mathlib.Core.Option
use rs_query.Base.{
  ℕ, ◌≡◌, Bool, true, false, none, some, [], ◌∷◌, Text, text_eq, ◌==◌, if◌then◌else◌,
}
use rs_query.Key.{QueryKey}
use rs_query.Key.Join.{joined}
use rs_query.Filters.{InvalidateQueryFilters, RefetchType, all_queries}
use rs_query.Options.{QueryOptions, default_options}
use rs_query.Map.Assoc.{assoc_map}
use rs_query.Map.Keys.{passes}
use rs_query.Client.Core
use rs_query.Client.Core.{CacheEntry, Tables, Client, QueryStateUpdate}
use rs_query.Bus
use rs_query.Client.Data.{
  mark_stale, effective_options, text_matches, get_query_data, is_stale, set_query_data,
  invalidate_queries,
}
use rs_query.Client.Bulk.{reset_queries, remove_queries}
use rs_query.Client.Reads.{Stands, get_query_data-set_query_data}
use rs_query.Client.Marks.{invalidate_queries_marks}
use rs_query.Client.Removal.{Removed, remove_reset_queries}

abbrev tables : Tables ℕ
tables = record {
  cache = assoc_map (CacheEntry ℕ);
  in_flight = assoc_map ℕ;
  subscribers = assoc_map (Bus.Shared QueryStateUpdate);
}

abbrev same_number : ℕ → ℕ → ℕ → Bool
same_number t a b = a == b

abbrev user_text : Text
user_text = b'u' ∷ []

abbrev user_tasks_text : Text
user_tasks_text = b'u' ∷ b't' ∷ []

abbrev user : QueryKey
user = joined (user_text ∷ [])

abbrev user_tasks : QueryKey
user_tasks = joined (user_tasks_text ∷ [])

-- A key whose one segment is `"::"`.
abbrev odd : QueryKey
odd = joined ((b':' ∷ b':' ∷ []) ∷ [])

abbrev static_options : QueryOptions
static_options = record default_options { stale_time = 10; stale_time_static = true }

abbrev old_entry : CacheEntry ℕ
old_entry = record {
  data_of = record { type_id = 1; address = 0; value = 42 };
  type_id = 1;
  fetched_at = 5;
  last_accessed = 5;
  options = static_options;
  is_stale = false;
}

abbrev blank : Client tables
blank = Core.new tables

-- The client with an entry and a task for `user`, and with default options.
abbrev one : Client tables
one = record blank {
  cache = tables.cache.insert user_text old_entry tables.cache.empty;
  in_flight = tables.in_flight.insert user_text 9 tables.in_flight.empty;
  default_options = some static_options;
}

get_query_data-set_query_data_example :
    let c' = set_query_data tables same_number 7 1 user 42 default_options one in
    ((w : ℕ) × (get_query_data tables 1 user c' ≡ some w)
      × Stands tables same_number
          (effective_options false one.default_options default_options)
          1
          42
          (some old_entry)
          w)
    × (is_stale tables 7 user c' ≡ false)
unfolding assoc_map text_eq
get_query_data-set_query_data_example =
    get_query_data-set_query_data tables same_number 7 1 user 42 default_options one

invalidate_queries_marks_example :
    let c' = invalidate_queries tables user one in
    let hit =
      passes
        (λ key e. text_matches user_text key)
        user_text
        (tables.cache.get user_text one.cache) in
    (tables.cache.get user_text c'.cache ≡ (
      if hit
      then Option.map mark_stale (tables.cache.get user_text one.cache)
      else tables.cache.get user_text one.cache))
    × (tables.in_flight.get user_text c'.in_flight
        ≡ (if hit then none else tables.in_flight.get user_text one.in_flight))
invalidate_queries_marks_example = invalidate_queries_marks tables one user user_text

remove_reset_queries_example :
    Removed tables 9 all_queries one (remove_queries tables 9 all_queries one).0 user_text
    × Removed tables 9 all_queries one (reset_queries tables 9 all_queries one).0 user_text
remove_reset_queries_example = remove_reset_queries tables 9 all_queries one user_text

abbrev all_refetched : InvalidateQueryFilters
all_refetched = record { filters = all_queries; refetch_type = RefetchType.all }
