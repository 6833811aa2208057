-- ===== src/Client/Data.antt =====
-- Reading and writing the cache (src/client.rs). `now` is the instant of the call, and `t` the id of
-- the type at which it is made.
use rs_query.Base.{
  ℕ, suc, ◌-◌, Bool, true, false, ◌&&◌, ◌||◌, not, Option, none, some, List, [], ◌∷◌, Text, ltb,
  ◌==◌, if◌then◌else◌, for_each, text_starts_with, text_eq, is_some,
}
use rs_query.Key.{QueryKey}
use rs_query.Options.{QueryOptions, default_options, allows_refetch}
use rs_query.Options.Merge.{merge_options}
use rs_query.Map.Keys.{keys_where, get_mut}
use rs_query.Client.Core.{
  Dynamic, eq_any, downcast, CacheEntry, Tables, Client, success, stale, notify_subscribers,
  abort_in_flight,
}

-- `entry_is_stale`, and the same test in `is_stale` and `refetch_all_stale`.
unfoldable pub entry_is_stale : {V : Type 0} → ℕ → CacheEntry V → Bool
entry_is_stale now e =
    (not (e.options.stale_time == 0) && ltb e.options.stale_time (now - e.fetched_at)) || e.is_stale

-- `entry.is_stale = true`.
abbrev pub mark_stale : {V : Type 0} → CacheEntry V → CacheEntry V
mark_stale e = record e { is_stale = true }

-- The merge of the client's defaults, for a new entry.
abbrev pub effective_options : Bool → Option QueryOptions → QueryOptions → QueryOptions
effective_options false defaults options = options
effective_options true none options = options
effective_options true (some d) options = merge_options d options

-- `key.starts_with(pattern) || key == pattern`, on the texts.
abbrev pub text_matches : Text → Text → Bool
text_matches pattern key = text_starts_with pattern key || text_eq key pattern

abbrev pub tasks_of : List (Text × ℕ) → List ℕ
tasks_of [] = []
tasks_of ((k, t) ∷ m) = t ∷ tasks_of m

abbrev pub options_or_default : Option QueryOptions → QueryOptions
options_or_default none = default_options
options_or_default (some o) = o

module _ {V : Type 0} (M : Tables V) where
  -- `get_query_data::<T>`.
  unfoldable pub get_query_data : ℕ → QueryKey → Client M → Option V
  unfolding downcast
  get_query_data t key c = elim (M.cache.get key.cache_key c.cache) [
    | none ↦ none
    | some e ↦ if not (e.type_id == t) then none else downcast t e.data_of
  ]

  unfoldable pub get_query_options : QueryKey → Client M → Option QueryOptions
  get_query_options key c = elim (M.cache.get key.cache_key c.cache) [
    | none ↦ none
    | some e ↦ some e.options
  ]

  unfoldable pub is_stale : ℕ → QueryKey → Client M → Bool
  unfolding entry_is_stale
  is_stale now key c = elim (M.cache.get key.cache_key c.cache) [
    | none ↦ false
    | some e ↦ entry_is_stale now e
  ]

  -- The `if` of `set_query_data` on `structural_sharing`: the old allocation is kept for an equal
  -- value of the same type.
  unfoldable pub shared_data :
      (ℕ → V → V → Bool) → QueryOptions → ℕ → Dynamic V → Option (CacheEntry V) → Dynamic V
  unfolding eq_any
  shared_data beq options t new none = new
  shared_data beq options t new (some old) =
      if options.structural_sharing && old.type_id == t && eq_any beq new old.data_of
      then old.data_of
      else new

  -- `set_query_data::<T>`; the entry is written, then subscribers are told.
  unfoldable pub set_query_data :
      (ℕ → V → V → Bool) → ℕ → ℕ → QueryKey → V → QueryOptions → Client M → Client M
  unfolding shared_data notify_subscribers
  set_query_data beq now t key value provided c =
      let old = M.cache.get key.cache_key c.cache in
      let options = effective_options (not (is_some old)) c.default_options provided in
      let new : Dynamic V = record { type_id = t; address = c.next_address; value = value } in
      let entry : CacheEntry V = record {
        data_of = shared_data beq options t new old;
        type_id = t;
        fetched_at = now;
        last_accessed = now;
        options = options;
        is_stale = false;
      } in
      notify_subscribers M key.cache_key success (record c {
        cache = M.cache.insert key.cache_key entry c.cache;
        next_address = suc c.next_address;
      })

  -- The body of the loop of `invalidate_queries`: the notification is sent if the entry is there.
  unfoldable pub invalidate_key : Text → Client M → Client M
  unfolding get_mut notify_subscribers abort_in_flight
  invalidate_key key c =
      let c1 = abort_in_flight M key c in
      if is_some (M.cache.get key c1.cache)
      then notify_subscribers M key stale
          (record c1 { cache = get_mut M.cache mark_stale key c1.cache })
      else c1

  unfoldable pub invalidate_queries : QueryKey → Client M → Client M
  invalidate_queries pattern c =
      for_each (keys_where (λ key e. text_matches pattern.cache_key key) (M.cache.iter c.cache))
        invalidate_key c

  -- `clear`: every task is cancelled and aborted, and both tables are emptied.
  unfoldable pub clear : Client M → Client M
  clear c = record c {
    aborted = for_each (tasks_of (M.in_flight.iter c.in_flight)) ◌∷◌ c.aborted;
    in_flight = M.in_flight.empty;
    cache = M.cache.empty;
  }

  -- `gc`.
  unfoldable pub gc : ℕ → Client M → Client M
  gc now c = record c {
    cache = M.cache.retain (λ k e. ltb (now - e.last_accessed) e.options.gc_time) c.cache;
  }

  unfoldable pub get_default_options : Client M → QueryOptions
  get_default_options c = options_or_default c.default_options

  unfoldable pub set_default_options : QueryOptions → Client M → Client M
  set_default_options o c = record c { default_options = some o }

  -- The body of the loop of `refetch_all_stale`.
  unfoldable pub refetch_if_stale : ℕ → Text → Client M → Client M
  unfolding entry_is_stale allows_refetch get_mut notify_subscribers
  refetch_if_stale now key c = elim (M.cache.get key c.cache) [
    | none ↦ c
    | some e ↦
        if entry_is_stale now e
          && allows_refetch e.options.refetch_on_window_focus (entry_is_stale now e)
        then notify_subscribers M key stale
            (record c { cache = get_mut M.cache mark_stale key c.cache })
        else c
  ]

  unfoldable pub refetch_all_stale : ℕ → Client M → Client M
  unfolding refetch_if_stale
  refetch_all_stale now c =
      for_each (keys_where (λ key e. true) (M.cache.iter c.cache)) (refetch_if_stale now) c
