-- ===== src/Client/Bulk.antt =====
-- The operations over filters (src/client.rs). Each returns its count with the new state.
use rs_query.Base.{
  ℕ, suc, Bool, true, false, ◌&&◌, not, none, some, List, [], ◌∷◌, Text, length, if◌then◌else◌,
  for_each, is_some,
}
use rs_query.Key.{from_segments, split}
use rs_query.State.{QueryStatus, FetchStatus}
use rs_query.Filters.{
  RefetchType, QuerySnapshot, QueryFilters, InvalidateQueryFilters, RefetchQueryFilters,
  match_query,
}
use rs_query.Options.{is_enabled}
use rs_query.Map.Keys.{get_mut}
use rs_query.Client.Core.{
  CacheEntry, Tables, Client, loading, error, notify_subscribers, is_in_flight, abort_in_flight,
}
use rs_query.Client.Data.{entry_is_stale, mark_stale}

-- `entry_snapshot`; the key is built again from the pieces of the cache key.
unfoldable pub entry_snapshot : {V : Type 0} → ℕ → Text → CacheEntry V → Bool → QuerySnapshot
unfolding from_segments split is_enabled entry_is_stale
entry_snapshot now cache_key e in_flight = record {
  key = from_segments (split cache_key);
  is_active = in_flight && is_enabled e.options;
  is_stale = entry_is_stale now e;
  fetch_status = if in_flight then FetchStatus.fetching else FetchStatus.idle;
  status = QueryStatus.success;
  has_data = true;
}

-- The `match` on the refetch type.
unfoldable pub should_refetch : RefetchType → Bool → Bool
should_refetch RefetchType.all is_active = true
should_refetch RefetchType.active is_active = is_active
should_refetch RefetchType.inactive is_active = not is_active
should_refetch RefetchType.nothing is_active = false

module _ {V : Type 0} (M : Tables V) where
  -- The snapshot that `matching_entries` makes of an entry.
  unfoldable pub snapshot_at : ℕ → Client M → Text → CacheEntry V → QuerySnapshot
  unfolding entry_snapshot
  snapshot_at now c key e = entry_snapshot now key e (is_in_flight M key c)

  unfoldable pub collect :
      ℕ → Client M → QueryFilters → List (Text × CacheEntry V) → List (Text × QuerySnapshot)
  collect now c filters [] = []
  collect now c filters ((key, e) ∷ m) =
      let rest = collect now c filters m in
      if match_query (snapshot_at now c key e) filters
      then (key, snapshot_at now c key e) ∷ rest
      else rest

  unfoldable pub matching_entries : ℕ → QueryFilters → Client M → List (Text × QuerySnapshot)
  unfolding collect
  matching_entries now filters c = collect now c filters (M.cache.iter c.cache)

  abbrev pub snapshots_of : List (Text × QuerySnapshot) → List QuerySnapshot
  snapshots_of [] = []
  snapshots_of ((k, s) ∷ m) = s ∷ snapshots_of m

  unfoldable pub query_snapshots : ℕ → QueryFilters → Client M → List QuerySnapshot
  query_snapshots now filters c = snapshots_of (matching_entries now filters c)

  -- The body of the loop of `cancel_queries`.
  unfoldable pub cancel_one : Text × QuerySnapshot → Client M × ℕ → Client M × ℕ
  cancel_one (key, s) (c, n) =
      if is_in_flight M key c
      then (notify_subscribers M key error (abort_in_flight M key c), suc n)
      else (c, n)

  unfoldable pub cancel_queries : ℕ → QueryFilters → Client M → Client M × ℕ
  unfolding cancel_one
  cancel_queries now filters c = for_each (matching_entries now filters c) cancel_one (c, 0)

  -- `cache.remove(key)`, and whether there was something to remove.
  unfoldable pub drop_entry : Text → Client M × ℕ → Client M × ℕ
  drop_entry key (c, n) =
      let removed : Client M = record c { cache = M.cache.remove key c.cache } in
      (removed, if is_some (M.cache.get key c.cache) then suc n else n)

  -- The bodies of the loops of `reset_queries` and `remove_queries`.
  unfoldable pub reset_one : Text × QuerySnapshot → Client M × ℕ → Client M × ℕ
  unfolding drop_entry
  reset_one (key, s) (c, n) =
      let (c', n') = drop_entry key (abort_in_flight M key c, n) in
      (notify_subscribers M key loading c', n')

  unfoldable pub remove_one : Text × QuerySnapshot → Client M × ℕ → Client M × ℕ
  unfolding drop_entry
  remove_one (key, s) (c, n) =
      let (c', n') = drop_entry key (abort_in_flight M key c, n) in
      (notify_subscribers M key error c', n')

  unfoldable pub reset_queries : ℕ → QueryFilters → Client M → Client M × ℕ
  unfolding reset_one
  reset_queries now filters c = for_each (matching_entries now filters c) reset_one (c, 0)

  unfoldable pub remove_queries : ℕ → QueryFilters → Client M → Client M × ℕ
  unfolding remove_one
  remove_queries now filters c = for_each (matching_entries now filters c) remove_one (c, 0)

  -- `if let Some(mut entry) = cache.get_mut(key) { entry.is_stale = true }`.
  unfoldable pub flag_stale : Text → Client M → Client M
  unfolding get_mut
  flag_stale key c = record c { cache = get_mut M.cache mark_stale key c.cache }

  unfoldable pub trigger_refetch : Text → Client M → Client M
  unfolding flag_stale
  trigger_refetch key c =
      notify_subscribers M key loading (flag_stale key (abort_in_flight M key c))

  -- The bodies of the two loops of `invalidate_queries_filtered`.
  unfoldable pub flag_one : Text × QuerySnapshot → Client M → Client M
  unfolding flag_stale
  flag_one (key, s) c = flag_stale key c

  unfoldable pub refetch_one : RefetchType → Text × QuerySnapshot → Client M → Client M
  unfolding should_refetch trigger_refetch
  refetch_one refetch_type (key, s) c =
      if should_refetch refetch_type s.is_active then trigger_refetch key c else c

  unfoldable pub invalidate_queries_filtered : ℕ → InvalidateQueryFilters → Client M → Client M × ℕ
  unfolding flag_one refetch_one
  invalidate_queries_filtered now f c =
      let matches = matching_entries now f.filters c in
      (for_each matches (refetch_one f.refetch_type) (for_each matches flag_one c), length matches)

  -- The end of the loop's body of `refetch_queries`, past the guards.
  unfoldable pub refetch_entry : Bool → Text → Client M → Client M
  unfolding flag_stale
  refetch_entry cancel_refetch key c =
      notify_subscribers M key loading
        (flag_stale key (if cancel_refetch then abort_in_flight M key c else c))

  unfoldable pub refetch_guarded : Bool → Text × QuerySnapshot → Client M × ℕ → Client M × ℕ
  unfolding is_enabled refetch_entry
  refetch_guarded cancel_refetch (key, s) (c, n) = elim (M.cache.get key c.cache) [
    | none ↦ (c, n)
    | some e ↦
        if not (is_enabled e.options)
        then (c, n)
        else if e.options.stale_time_static && not s.is_stale
        then (c, n)
        else (refetch_entry cancel_refetch key c, suc n)
  ]

  unfoldable pub refetch_queries : ℕ → QueryFilters → RefetchQueryFilters → Client M → Client M × ℕ
  unfolding refetch_guarded
  refetch_queries now filters opts c =
      for_each (matching_entries now filters c) (refetch_guarded opts.cancel_refetch) (c, 0)

  abbrev count_in_flight : Client M → List (Text × QuerySnapshot) → ℕ
  count_in_flight c [] = 0
  count_in_flight c ((key, s) ∷ m) =
      let rest = count_in_flight c m in if is_in_flight M key c then suc rest else rest

  unfoldable pub is_fetching_filtered : ℕ → QueryFilters → Client M → ℕ
  is_fetching_filtered now filters c = count_in_flight c (matching_entries now filters c)
