-- ===== src/Hydration/Restoring.antt =====
-- What hydrating a payload does to the cache, key by key.
use mathlib.Core.Option
use mathlib.Core.Option.{some-injective}
use rs_query.Base.{
  ℕ, ◌-◌, ◌≤◌, ◌≡◌, refl, ap, ◌∙◌, Bool, true, ◌&&◌, not, Option, none, some, Text, ltb, arith,
  if◌then◌else◌, text_eq, text_eq_iff, text_eq_self,
}
use rs_query.Key
use rs_query.Key.{QueryKey, from_segments}
use rs_query.Options.{QueryOptions, millis}
use rs_query.Map.Keys.{get-get_mut}
use rs_query.Client.Core.{Dynamic, CacheEntry, Tables, Client, downcast}
use rs_query.Client.Data.{set_query_data, shared_data}
use rs_query.Client.Reads.{written, get-set}
use rs_query.Client.Pages.{Payload}
use rs_query.Hydration.{
  as_millis, DehydratedQuery, DehydrateOptions, HydrateOptions, query_key_from_dehydrated,
  dehydrated_age_ms, dehydrated_is_newer, stored_options_for, lets_in, backdate, restored,
  payload_wins, serialize_entry_data, deserialize_entry_data, dehydrate_cache_entry,
  restore_entry_staleness, write_payload, hydrate_data, hydrate_query,
}

-- The key that is rebuilt from a payload is the one of its hash, whatever its segments are.
pub rebuilt_key : (d : DehydratedQuery) → (query_key_from_dehydrated d).cache_key ≡ d.query_hash
unfolding query_key_from_dehydrated Key.new
rebuilt_key d = ground (arith, text_eq_iff (from_segments d.query_key).cache_key d.query_hash)

module _ {V : Type 0} (M : Tables V) (S : Payload V Text) (encode : Text → Text)
    (decode : Text → Option Text) (beq : ℕ → V → V → Bool) where
  -- The entry that hydrating writes.
  abbrev pub hydrated : ℕ → ℕ → HydrateOptions → DehydratedQuery → Text → Client M → CacheEntry V
  hydrated now at o d json c = restored now d (dehydrated_age_ms at d.fetched_at_ms) (
      written M beq now S.type_id (query_key_from_dehydrated d)
        (S.inject (deserialize_entry_data M S encode decode json)) (stored_options_for d o) c)

  pub get-write_payload :
      (now at : ℕ) (o : HydrateOptions) (d : DehydratedQuery) (json : Text) (c : Client M)
      (k : Text)
      → M.cache.get k (write_payload M S encode decode beq now at d o json c).cache ≡ (
          if text_eq d.query_hash k
          then some (hydrated now at o d json c)
          else M.cache.get k c.cache)
  unfolding write_payload restore_entry_staleness
  get-write_payload now at o d json c k =
      let key = query_key_from_dehydrated d in
      let v = S.inject (deserialize_entry_data M S encode decode json) in
      let c1 = set_query_data M beq now S.type_id key v (stored_options_for d o) c in
      let w = written M beq now S.type_id key v (stored_options_for d o) c in
      let set : M.cache.get k c1.cache
          ≡ (if text_eq d.query_hash k then some w else M.cache.get k c.cache) =
        get-set M beq now S.type_id key v (stored_options_for d o) c k
        ∙ ap (λ z. if text_eq z k then some w else M.cache.get k c.cache) (rebuilt_key d) in
      ground (
        arith,
        get-get_mut M.cache (restored now d (dehydrated_age_ms at d.fetched_at_ms)) d.query_hash k
            c1.cache,
        set,
      )

  -- Is a payload with data written, when there is this entry or none?
  abbrev pub accepted : ℕ → ℕ → HydrateOptions → DehydratedQuery → Option (CacheEntry V) → Bool
  accepted now at o d none = lets_in o.should_hydrate d.query_hash
  accepted now at o d (some e) =
      lets_in o.should_hydrate d.query_hash
      && o.should_overwrite
      && ltb (millis (dehydrated_age_ms at d.fetched_at_ms)) (now - e.fetched_at)

  -- What is found at a key after hydrating.
  abbrev pub after_hydrating :
      ℕ
      → ℕ
      → HydrateOptions
      → DehydratedQuery
      → Client M
      → Text
      → Option Text
      → Option (CacheEntry V)
  after_hydrating now at o d c k none = M.cache.get k c.cache
  after_hydrating now at o d c k (some json) =
      if text_eq d.query_hash k && accepted now at o d (M.cache.get d.query_hash c.cache)
      then some (hydrated now at o d json c)
      else M.cache.get k c.cache

  pub accepted_is :
      (now at : ℕ) (o : HydrateOptions) (d : DehydratedQuery) (old : Option (CacheEntry V))
      → (lets_in o.should_hydrate d.query_hash && payload_wins now at d o old)
        ≡ accepted now at o d old
  unfolding payload_wins dehydrated_is_newer
  accepted_is now at o d none = ground arith
  accepted_is now at o d (some e) = ground arith

  data_effect :
      (now at : ℕ) (o : HydrateOptions) (d : DehydratedQuery) (json : Option Text) (c : Client M)
      (k : Text)
      → M.cache.get k
          (if not (lets_in o.should_hydrate d.query_hash)
            then c
            else hydrate_data M S encode decode beq now at o d json c).cache
        ≡ after_hydrating now at o d c k json
  unfolding hydrate_data
  data_effect now at o d none c k = ground arith
  data_effect now at o d (some json) c k = ground (
    arith,
    accepted_is now at o d (M.cache.get d.query_hash c.cache),
    get-write_payload now at o d json c k,
  )

  -- Hydrating a payload writes the entry of its hash and no other one, and this just when the filter
  -- lets the hash in, the payload has data and there is no entry, or it may be overwritten and the data
  -- was younger when it was dehydrated than the entry's is now.
  pub hydrate_query_effect :
      (now at : ℕ) (o : HydrateOptions) (d : DehydratedQuery) (c : Client M) (k : Text)
      → M.cache.get k (hydrate_query M S encode decode beq now at o d c).cache
        ≡ after_hydrating now at o d c k d.data_json
  unfolding hydrate_query
  hydrate_query_effect now at o d c k = data_effect now at o d d.data_json c k

  -- What is left of an entry that was dehydrated at the instant `before` and hydrated at `now`: times are
  -- cut to whole milliseconds.
  pub record ComesBack (before now : ℕ) (e e' : CacheEntry V) : Type 0 where
    pub value : e'.data_of.value ≡ e.data_of.value
    pub type_id : (e'.type_id ≡ S.type_id) × (e'.data_of.type_id ≡ S.type_id)
    pub is_stale : e'.is_stale ≡ e.is_stale
    pub age : now - e'.fetched_at ≡ millis (as_millis (before - e.fetched_at))
    pub stale_time : e'.options.stale_time ≡ millis (as_millis e.options.stale_time)
    pub gc_time : e'.options.gc_time ≡ millis (as_millis e.options.gc_time)
    pub meta : e'.options.meta ≡ e.options.meta

  backdated_age : (now age : ℕ) → millis age ≤ now → now - backdate now age now ≡ millis age
  backdated_age now age h = ground arith

  -- The written entry, when there was none and the client has no default options.
  written_new :
      (now : ℕ) (d : DehydratedQuery) (v : V) (options : QueryOptions) (c : Client M)
      → M.cache.get d.query_hash c.cache ≡ none
      → c.default_options ≡ none
      → let w = written M beq now S.type_id (query_key_from_dehydrated d) v options c in
        (w.data_of.value ≡ v) × (w.data_of.type_id ≡ S.type_id) × (w.options ≡ options)
  unfolding written shared_data
  written_new now d v options c h n =
      let absent : M.cache.get (query_key_from_dehydrated d).cache_key c.cache ≡ none =
        ap (λ k. M.cache.get k c.cache) (rebuilt_key d) ∙ h in
      rw absent (refl, refl, ground (arith, n))

  reads_back :
      (options : DehydrateOptions) (t : Text)
      → options.serialize_data ≡ none
      → ((x : Text) → decode (encode x) ≡ some x)
      → deserialize_entry_data M S encode decode
          (serialize_entry_data M S encode decode (S.project (S.inject t)) options)
        ≡ t
  unfolding serialize_entry_data deserialize_entry_data
  reads_back options t h codec = ground (arith, h, codec t, S.project-inject t)

  value_of : (d : Dynamic V) (v : V) → downcast S.type_id d ≡ some v → v ≡ d.value
  unfolding downcast
  value_of d v h = ground arith

  -- The age that a payload has when it is hydrated.
  age_kept : (wall age : ℕ) → age ≤ wall → dehydrated_age_ms wall (some (wall - age)) ≡ age
  unfolding dehydrated_age_ms
  age_kept wall age h = omega (arith, h)

  new_entry_back :
      (before wall now : ℕ) (e : CacheEntry V) (d : DehydratedQuery) (v : V) (o : HydrateOptions)
      (c : Client M)
      → M.cache.get d.query_hash c.cache ≡ none
      → c.default_options ≡ none
      → as_millis (before - e.fetched_at) ≤ wall
      → millis (as_millis (before - e.fetched_at)) ≤ now
      → v ≡ e.data_of.value
      → d.is_stale ≡ e.is_stale
      → d.fetched_at_ms ≡ some (wall - as_millis (before - e.fetched_at))
      → d.stale_time_ms ≡ as_millis e.options.stale_time
      → d.gc_time_ms ≡ as_millis e.options.gc_time
      → d.meta ≡ e.options.meta
      → ComesBack before now e (
          restored now d (dehydrated_age_ms wall d.fetched_at_ms) (
            written M beq now S.type_id (query_key_from_dehydrated d) v (stored_options_for d o) c))
  unfolding restored stored_options_for written
  new_entry_back before wall now e d v o c absent defaults past young same flag at stale gc meta =
      let w = written_new now d v (stored_options_for d o) c absent defaults in
      record {
        value = w.0 ∙ same;
        type_id = (refl, w.1);
        is_stale = flag;
        age =
            ap (λ a. now - backdate now a now)
              (ap (dehydrated_age_ms wall) at ∙ age_kept wall _ past)
            ∙ backdated_age now _ young;
        stale_time = ap (λ p. p.stale_time) w.2 ∙ ap millis stale;
        gc_time = ap (λ p. p.gc_time) w.2 ∙ ap millis gc;
        meta = ap (λ p. p.meta) w.2 ∙ meta;
      }

  -- An entry with a text, dehydrated without a hook and hydrated into a client that has no entry of its
  -- key and no default options, comes back with its value, flag, age and times.
  pub hydrate_query-dehydrate_cache_entry :
      (before wall now : ℕ) (key t : Text) (e : CacheEntry V) (out : DehydrateOptions)
      (o : HydrateOptions) (c : Client M)
      → downcast S.type_id e.data_of ≡ some (S.inject t)
      → out.serialize_data ≡ none
      → ((x : Text) → decode (encode x) ≡ some x)
      → as_millis (before - e.fetched_at) ≤ wall
      → millis (as_millis (before - e.fetched_at)) ≤ now
      → M.cache.get key c.cache ≡ none
      → c.default_options ≡ none
      → lets_in o.should_hydrate key ≡ true
      → let d = dehydrate_cache_entry M S encode decode before wall key e none out in
        (e' : CacheEntry V) × (M.cache.get key
            (hydrate_query M S encode decode beq now wall o d c).cache
          ≡ some e')
        × ComesBack before now e e'
  unfolding dehydrate_cache_entry
  hydrate_query-dehydrate_cache_entry before wall now key t e out o c text hook codec past young
        absent defaults filter =
      let d = dehydrate_cache_entry M S encode decode before wall key e none out in
      let json = serialize_entry_data M S encode decode (S.project (S.inject t)) out in
      let found : d.data_json ≡ some json =
        ap (Option.map (λ v. serialize_entry_data M S encode decode (S.project v) out)) text in
      (
        hydrated now wall o d json c,
        hydrate_query_effect now wall o d c key
            ∙ ap (after_hydrating now wall o d c key) found
            ∙ rw (text_eq_self key, absent, filter) refl,
        new_entry_back before wall now e d _ o c absent defaults past young
            (ap S.inject (reads_back out t hook codec) ∙ value_of e.data_of (S.inject t) text) refl
            refl refl refl refl,
      )
