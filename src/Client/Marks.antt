-- ===== src/Client/Marks.antt =====
-- What `invalidate_queries` and `gc` do to the tables, key by key.
use mathlib.Core.Option
use rs_query.Base.{
  ℕ, ◌-◌, ◌≡◌, refl, ap, ◌∙◌, inl, inr, Bool, none, some, arith, Text, ltb, if◌then◌else◌, is_some,
  Bool-cases, for_each_part,
}
use rs_query.Key.{QueryKey}
use rs_query.Map.{kept}
use rs_query.Map.Keys.{
  keys_where, contains-keys_where, passes, get_mut, get-for_each_mut, take_out,
  get-for_each-take_out,
}
use rs_query.Client.Core.{CacheEntry, Tables, Client, abort_in_flight}
use rs_query.Client.Data.{mark_stale, text_matches, invalidate_key, invalidate_queries, gc}

module _ {V : Type 0} (M : Tables V) where
  pub abort_tables :
      (key : Text) (c : Client M)
      → ((abort_in_flight M key c).cache ≡ c.cache)
        × ((abort_in_flight M key c).in_flight ≡ take_out M.in_flight key c.in_flight)
  unfolding abort_in_flight take_out
  abort_tables key c = ground arith

  get_mut_absent :
      (key : Text) (m : M.cache.Map)
      → M.cache.get key m ≡ none
      → get_mut M.cache mark_stale key m ≡ m
  unfolding get_mut
  get_mut_absent key m e = rw (e, get_mut)

  invalidate_key_tables :
      (key : Text) (c : Client M)
      → ((invalidate_key M key c).cache ≡ get_mut M.cache mark_stale key c.cache)
        × ((invalidate_key M key c).in_flight ≡ take_out M.in_flight key c.in_flight)
  unfolding invalidate_key
  invalidate_key_tables key c =
      elim (Bool-cases (is_some (M.cache.get key (abort_in_flight M key c).cache))) [
        | inl e ↦ rw (e, invalidate_key) (ground (arith, abort_tables key c))
        | inr e ↦
            rw (e, invalidate_key) (ground (arith, abort_tables key c, get_mut_absent key c.cache))
      ]

  -- `invalidate_queries` marks stale exactly the entries whose cache key begins with the pattern's
  -- text, keeps all else of every entry, and takes exactly the tasks of those keys out of the table.
  pub invalidate_queries_marks :
      (c : Client M) (pattern : QueryKey) (k : Text)
      → let c' = invalidate_queries M pattern c in
        let hit = passes (λ key e. text_matches pattern.cache_key key) k (M.cache.get k c.cache) in
        (M.cache.get k c'.cache
          ≡ (if hit then Option.map mark_stale (M.cache.get k c.cache) else M.cache.get k c.cache))
        × (M.in_flight.get k c'.in_flight ≡ (if hit then none else M.in_flight.get k c.in_flight))
  unfolding invalidate_queries
  invalidate_queries_marks c pattern k =
      let test : Text → CacheEntry V → Bool = λ key e. text_matches pattern.cache_key key in
      let keys = keys_where test (M.cache.iter c.cache) in
      let hits = contains-keys_where M.cache test k c.cache in
      (
        ap (M.cache.get k) (
              for_each_part (λ (x : Client M). x.cache) (invalidate_key M)
                (get_mut M.cache mark_stale) (λ key x. (invalidate_key_tables key x).0) keys c)
            ∙ get-for_each_mut M.cache mark_stale (λ e. refl) keys k c.cache
            ∙ ap
                (λ b.
                  if b
                  then Option.map mark_stale (M.cache.get k c.cache)
                  else M.cache.get k c.cache)
                hits,
        ap (M.in_flight.get k) (
              for_each_part (λ (x : Client M). x.in_flight) (invalidate_key M)
                (take_out M.in_flight) (λ key x. (invalidate_key_tables key x).1) keys c)
            ∙ get-for_each-take_out M.in_flight keys k c.in_flight
            ∙ ap (λ b. if b then none else M.in_flight.get k c.in_flight) hits,
      )

  -- `gc` keeps an entry, as it is, if less than its `gc_time` has passed since its `last_accessed`, and
  -- else removes it.
  gc_keeps :
      (now : ℕ) (c : Client M) (k : Text) (e : CacheEntry V)
      → M.cache.get k c.cache ≡ some e
      → M.cache.get k (gc M now c).cache
        ≡ (if ltb (now - e.last_accessed) e.options.gc_time then some e else none)
  unfolding gc
  gc_keeps now c k e at =
      M.cache.get-retain (λ j x. ltb (now - x.last_accessed) x.options.gc_time) k c.cache
      ∙ ap (kept (λ j x. ltb (now - x.last_accessed) x.options.gc_time) k) at
