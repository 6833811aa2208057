-- ===== src/Client/Removal.antt =====
-- What the operations over filters do to the cache and the in-flight table, key by key.
use mathlib.Core.Option
use rs_query.Base.{
  ℕ, ◌≡◌, refl, ap, ◌∙◌, inl, inr, Bool, true, Option, none, some, List, [], ◌∷◌, arith, Text, map,
  if◌then◌else◌, Bool-cases, for_each, for_each_part, for_each-map, for_each-select, select,
}
use rs_query.Map.{contains}
use rs_query.Map.Keys.{
  keys_where, contains-keys_where, passes, get_mut, get-for_each_mut, take_out,
  get-for_each-take_out, get-for_each_remove,
}
use rs_query.Filters.{QuerySnapshot, QueryFilters, InvalidateQueryFilters, RefetchType, match_query}
use rs_query.Client.Core.{CacheEntry, Tables, Client, notify_subscribers}
use rs_query.Client.Data.{mark_stale}
use rs_query.Client.Bulk.{
  snapshot_at, collect, matching_entries, reset_one, remove_one, reset_queries, remove_queries,
  flag_one, refetch_one, should_refetch, trigger_refetch, invalidate_queries_filtered,
}
use rs_query.Client.Marks.{abort_tables}

contains-select :
    {A : Type 0} (p : Text × A → Bool) (k : Text) (xs : List (Text × A))
    → contains k (map (λ x. x.0) (select p xs)) ≡ true
    → contains k (map (λ x. x.0) xs) ≡ true
contains-select p k [] h = h
contains-select p k ((j, a) ∷ xs) h = ground (arith, contains-select p k xs)

-- Marks of some of the entries that are marked already change nothing.
marked_twice :
    {V : Type 0} (o o1 : Option (CacheEntry V)) (all some_of : Bool)
    → o1 ≡ (if all then Option.map mark_stale o else o)
    → (some_of ≡ true → all ≡ true)
    → (if some_of then Option.map mark_stale o1 else o1)
      ≡ (if all then Option.map mark_stale o else o)
marked_twice none o1 all some_of e h = ground arith
marked_twice (some v) o1 all some_of e h = ground arith

module _ {V : Type 0} (M : Tables V) where
  -- Does the entry at a key match the filters?
  abbrev pub matched : ℕ → QueryFilters → Client M → Text → Bool
  matched now filters c k =
      passes (λ key e. match_query (snapshot_at M now c key e) filters) k (M.cache.get k c.cache)

  collect_keys :
      (now : ℕ) (c : Client M) (filters : QueryFilters) (m : List (Text × CacheEntry V))
      → map (λ x. x.0) (collect M now c filters m)
        ≡ keys_where (λ key e. match_query (snapshot_at M now c key e) filters) m
  unfolding collect keys_where
  collect_keys now c filters [] = refl
  collect_keys now c filters ((key, e) ∷ m) = ground (arith, collect_keys now c filters m)

  contains-matching :
      (now : ℕ) (c : Client M) (filters : QueryFilters) (k : Text)
      → contains k (map (λ x. x.0) (matching_entries M now filters c)) ≡ matched now filters c k
  unfolding matching_entries
  contains-matching now c filters k =
      ap (contains k) (collect_keys now c filters (M.cache.iter c.cache))
      ∙ contains-keys_where M.cache (λ key e. match_query (snapshot_at M now c key e) filters) k
          c.cache

  -- A loop over the matching entries that acts on a part of the state by key.
  over_matches :
      {S P : Type 0} (part : S → P) (body : Text × QuerySnapshot → S → S) (g : Text → P → P)
      → ((x : Text × QuerySnapshot) (s : S) → part (body x s) ≡ g x.0 (part s))
      → (xs : List (Text × QuerySnapshot)) (s : S)
      → part (for_each xs body s) ≡ for_each (map (λ x. x.0) xs) g (part s)
  over_matches part body g h xs s =
      for_each_part part body (λ x. g x.0) h xs s ∙ for_each-map (λ x. x.0) g xs (part s)

  remove_one_tables :
      (x : Text × QuerySnapshot) (s : Client M × ℕ)
      → ((remove_one M x s).0.cache ≡ M.cache.remove x.0 s.0.cache)
        × ((remove_one M x s).0.in_flight ≡ take_out M.in_flight x.0 s.0.in_flight)
  unfolding remove_one notify_subscribers
  remove_one_tables (key, q) (c, n) =
      (ap (M.cache.remove key) (abort_tables M key c).0, (abort_tables M key c).1)

  reset_one_tables :
      (x : Text × QuerySnapshot) (s : Client M × ℕ)
      → ((reset_one M x s).0.cache ≡ M.cache.remove x.0 s.0.cache)
        × ((reset_one M x s).0.in_flight ≡ take_out M.in_flight x.0 s.0.in_flight)
  unfolding reset_one notify_subscribers
  reset_one_tables (key, q) (c, n) =
      (ap (M.cache.remove key) (abort_tables M key c).0, (abort_tables M key c).1)

  -- The tables after a removal of the matching entries and their tasks.
  abbrev pub Removed : ℕ → QueryFilters → Client M → Client M → Text → Type 0
  Removed now filters c c' k =
      (M.cache.get k c'.cache ≡ (if matched now filters c k then none else M.cache.get k c.cache))
      × (M.in_flight.get k c'.in_flight
          ≡ (if matched now filters c k then none else M.in_flight.get k c.in_flight))

  removal :
      (body : Text × QuerySnapshot → Client M × ℕ → Client M × ℕ)
      → ((x : Text × QuerySnapshot) (s : Client M × ℕ)
          → ((body x s).0.cache ≡ M.cache.remove x.0 s.0.cache)
            × ((body x s).0.in_flight ≡ take_out M.in_flight x.0 s.0.in_flight))
      → (now : ℕ) (filters : QueryFilters) (c : Client M) (k : Text)
      → Removed now filters c (for_each (matching_entries M now filters c) body (c, 0)).0 k
  removal body h now filters c k =
      let xs = matching_entries M now filters c in
      let keys = map (λ x. x.0) xs in
      let hit = contains-matching now c filters k in
      (
        ap (M.cache.get k) (
              over_matches (λ (s : Client M × ℕ). s.0.cache) body M.cache.remove (λ x s. (h x s).0)
                xs (c, 0))
            ∙ get-for_each_remove M.cache keys k c.cache
            ∙ ap (λ b. if b then none else M.cache.get k c.cache) hit,
        ap (M.in_flight.get k) (
              over_matches (λ (s : Client M × ℕ). s.0.in_flight) body (take_out M.in_flight)
                (λ x s. (h x s).1) xs (c, 0))
            ∙ get-for_each-take_out M.in_flight keys k c.in_flight
            ∙ ap (λ b. if b then none else M.in_flight.get k c.in_flight) hit,
      )

  -- `remove_queries` and `reset_queries` take out exactly the matching entries and the tasks of
  -- their keys, and leave every other entry and task as it was.
  pub remove_reset_queries :
      (now : ℕ) (filters : QueryFilters) (c : Client M) (k : Text)
      → Removed now filters c (remove_queries M now filters c).0 k
        × Removed now filters c (reset_queries M now filters c).0 k
  unfolding remove_queries reset_queries
  remove_reset_queries now filters c k = (
    removal (remove_one M) remove_one_tables now filters c k,
    removal (reset_one M) reset_one_tables now filters c k,
  )

  flag_one_cache :
      (x : Text × QuerySnapshot) (c : Client M)
      → (flag_one M x c).cache ≡ get_mut M.cache mark_stale x.0 c.cache
  unfolding flag_one
  flag_one_cache (key, q) c = refl

  trigger_cache :
      (key : Text) (c : Client M)
      → (trigger_refetch M key c).cache ≡ get_mut M.cache mark_stale key c.cache
  unfolding trigger_refetch notify_subscribers
  trigger_cache key c = ap (get_mut M.cache mark_stale key) (abort_tables M key c).0

  -- The second loop writes at some of the keys of the first.
  refetch_one_cache :
      (r : RefetchType) (x : Text × QuerySnapshot) (c : Client M)
      → (refetch_one M r x c).cache ≡ (
          if should_refetch r x.1.is_active
          then get_mut M.cache mark_stale x.0 c.cache
          else c.cache)
  unfolding refetch_one
  refetch_one_cache r (key, q) c = elim (Bool-cases (should_refetch r q.is_active)) [
    | inl e ↦ rw (e, refetch_one) (trigger_cache key c)
    | inr e ↦ rw (e, refetch_one)
  ]

  -- `invalidate_queries_filtered` marks exactly the matching entries stale, whatever is refetched
  -- afterwards, and keeps all else of every entry.
  invalidate_filtered_marks :
      (now : ℕ) (f : InvalidateQueryFilters) (c : Client M) (k : Text)
      → M.cache.get k (invalidate_queries_filtered M now f c).0.cache ≡ (
          if matched now f.filters c k
          then Option.map mark_stale (M.cache.get k c.cache)
          else M.cache.get k c.cache)
  unfolding invalidate_queries_filtered
  invalidate_filtered_marks now f c k =
      let xs = matching_entries M now f.filters c in
      let keys = map (λ x. x.0) xs in
      let chosen : Text × QuerySnapshot → Bool = λ x. should_refetch f.refetch_type x.1.is_active in
      let some_keys = map (λ x. x.0) (select chosen xs) in
      let flagged = for_each xs (flag_one M) c in
      let first : M.cache.get k flagged.cache ≡ (
          if contains k keys
          then Option.map mark_stale (M.cache.get k c.cache)
          else M.cache.get k c.cache) =
        ap (M.cache.get k) (
          over_matches (λ (s : Client M). s.cache) (flag_one M) (get_mut M.cache mark_stale)
            flag_one_cache xs c)
        ∙ get-for_each_mut M.cache mark_stale (λ e. refl) keys k c.cache in
      let second =
        ap (M.cache.get k) (
          for_each_part (λ (s : Client M). s.cache) (refetch_one M f.refetch_type)
            (λ x m. if chosen x then get_mut M.cache mark_stale x.0 m else m)
            (refetch_one_cache f.refetch_type) xs flagged
          ∙ for_each-select chosen (λ x. get_mut M.cache mark_stale x.0) xs flagged.cache
          ∙ for_each-map (λ x. x.0) (get_mut M.cache mark_stale) (select chosen xs) flagged.cache)
        ∙ get-for_each_mut M.cache mark_stale (λ e. refl) some_keys k flagged.cache in
      second
      ∙ marked_twice (M.cache.get k c.cache) (M.cache.get k flagged.cache) (contains k keys)
          (contains k some_keys) first (contains-select chosen k xs)
      ∙ ap (λ b. if b then Option.map mark_stale (M.cache.get k c.cache) else M.cache.get k c.cache)
          (contains-matching now c f.filters k)
