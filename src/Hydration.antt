-- ===== src/Hydration.antt =====
-- src/hydration.rs: the serializable form of the cache, and the writing of it back into a client. The
-- feature `serde` is on: `encode` and `decode` stand for its JSON of a text. `now` is the monotonic
-- instant of a call, in nanoseconds, and `wall` the wall clock, in milliseconds.
pub mod Restoring
pub mod Whole
use mathlib.Core.Option
use rs_query.Base.{
  ℕ, ◌-◌, ◌*◌, ◌/◌, min, Bool, true, false, ◌&&◌, not, Option, none, some, List, [], ◌∷◌, Text, ltb,
  leb, ◌==◌, if◌then◌else◌, for_each, text_eq, select,
}
use rs_query.Key
use rs_query.Key.{QueryKey, split, from_segments}
use rs_query.Options.{QueryOptions, default_options, u64_max, millis}
use rs_query.Map.Keys.{get_mut}
use rs_query.Client.Core.{CacheEntry, Tables, Client, downcast}
use rs_query.Client.Data.{set_query_data, options_or_default}
use rs_query.Client.Pages.{Payload}

-- `u64::try_from(duration.as_millis()).unwrap_or(u64::MAX)`.
abbrev pub as_millis : ℕ → ℕ
as_millis duration = min (duration / 1_000_000) u64_max

abbrev pub query_type_query : Text
query_type_query = b'q' ∷ b'u' ∷ b'e' ∷ b'r' ∷ b'y' ∷ []

abbrev pub redacted : Text
redacted = b'r' ∷ b'e' ∷ b'd' ∷ b'a' ∷ b'c' ∷ b't' ∷ b'e' ∷ b'd' ∷ []

-- `DehydratedQuery`.
pub record DehydratedQuery : Type 0 where
  pub query_hash : Text
  pub query_key : List Text
  pub data_json : Option Text
  pub error_json : Option Text
  pub fetched_at_ms : Option ℕ
  pub is_stale : Bool
  pub stale_time_ms : ℕ
  pub gc_time_ms : ℕ
  pub meta : List (Text × Text)
  pub query_type : Text

-- `DehydratedMutation`.
pub record DehydratedMutation : Type 0 where
  pub mutation_key : Option (List Text)
  pub data_updated_at_ms : Option ℕ
  pub is_paused : Bool

-- `DehydratedState`.
pub record DehydratedState : Type 0 where
  pub dehydrated_at_ms : ℕ
  pub queries : List DehydratedQuery
  pub mutations : List DehydratedMutation

unfoldable pub default_should_dehydrate_query : DehydratedQuery → Bool
default_should_dehydrate_query d = elim d.data_json [ none ↦ false | some t ↦ true ]

-- `DehydrateOptions`; the predicate on mutations is never called.
pub record DehydrateOptions : Type 0 where
  pub should_dehydrate_query : DehydratedQuery → Bool
  pub should_redact_errors : Bool
  pub serialize_data : Option (Text → Text)

unfoldable pub default_dehydrate : DehydrateOptions
unfolding default_should_dehydrate_query
default_dehydrate = record {
  should_dehydrate_query = default_should_dehydrate_query;
  should_redact_errors = true;
  serialize_data = none;
}

-- `HydrateOptions`.
pub record HydrateOptions : Type 0 where
  pub should_overwrite : Bool
  pub should_hydrate : Option (Text → Bool)
  pub default_options : Option QueryOptions

-- `query_key_from_dehydrated`.
unfoldable pub query_key_from_dehydrated : DehydratedQuery → QueryKey
query_key_from_dehydrated d =
    let key = from_segments d.query_key in
    if text_eq key.cache_key d.query_hash then key else Key.new d.query_hash

-- `redact_error`.
unfoldable pub redact_error : Option Text → Bool → Option Text
redact_error none redact = none
redact_error (some e) redact = if redact then some redacted else some e

-- `dehydrated_age_ms`; `saturating_sub` is the subtraction of ℕ.
unfoldable pub dehydrated_age_ms : ℕ → Option ℕ → ℕ
dehydrated_age_ms at none = u64_max
dehydrated_age_ms at (some fetched) = at - fetched

-- `dehydrated_is_newer`, with `existing_fetched_at.elapsed()` at the instant `now`.
unfoldable pub dehydrated_is_newer : ℕ → ℕ → ℕ → Option ℕ → Bool
dehydrated_is_newer now existing at fetched =
    ltb (millis (dehydrated_age_ms at fetched)) (now - existing)

-- `stored_options_for`.
unfoldable pub stored_options_for : DehydratedQuery → HydrateOptions → QueryOptions
stored_options_for d o = record (options_or_default o.default_options) {
  stale_time = millis d.stale_time_ms;
  gc_time = millis d.gc_time_ms;
  meta = d.meta;
}

-- Does the filter of `hydrate_query` let the hash through?
abbrev pub lets_in : Option (Text → Bool) → Text → Bool
lets_in none hash = true
lets_in (some filter) hash = filter hash

-- `Instant::now().checked_sub(age)`, if the age is positive.
abbrev pub backdate : ℕ → ℕ → ℕ → ℕ
backdate now age_ms fetched_at =
    if ltb 0 age_ms && leb (millis age_ms) now then now - millis age_ms else fetched_at

-- `str::cmp`, less or equal: the order of the code points is that of their bytes.
unfoldable pub text_leb : Text → Text → Bool
text_leb [] t = true
text_leb (x ∷ s) [] = false
text_leb (x ∷ s) (y ∷ t) = let rest = text_leb s t in if x == y then rest else ltb x y

-- The steps of `sort_by` on the hashes: a stable insertion from the right.
abbrev pub insert_query : DehydratedQuery → List DehydratedQuery → List DehydratedQuery
insert_query d [] = d ∷ []
insert_query d (x ∷ xs) =
    let rest = insert_query d xs in
    if text_leb d.query_hash x.query_hash then d ∷ x ∷ xs else x ∷ rest

abbrev pub sort_queries : List DehydratedQuery → List DehydratedQuery
sort_queries [] = []
sort_queries (d ∷ ds) = insert_query d (sort_queries ds)

-- The writes of `restore_entry_staleness`.
unfoldable pub restored : {V : Type 0} → ℕ → DehydratedQuery → ℕ → CacheEntry V → CacheEntry V
restored now d age_ms e = record e {
  is_stale = d.is_stale;
  fetched_at = backdate now age_ms e.fetched_at;
}

-- Which of the payload and the entry that is there wins.
unfoldable pub payload_wins :
    {V : Type 0} → ℕ → ℕ → DehydratedQuery → HydrateOptions → Option (CacheEntry V) → Bool
payload_wins now at d o none = true
payload_wins now at d o (some existing) =
    o.should_overwrite && dehydrated_is_newer now existing.fetched_at at d.fetched_at_ms

module _ {V : Type 0} (M : Tables V) (S : Payload V Text) (encode : Text → Text)
    (decode : Text → Option Text) where
  -- `serialize_entry_data` and `deserialize_entry_data`.
  abbrev hooked : Option (Text → Text) → Text → Text
  hooked none json = json
  hooked (some hook) json = hook json

  unfoldable pub serialize_entry_data : Text → DehydrateOptions → Text
  serialize_entry_data text o = hooked o.serialize_data (encode text)

  abbrev or_raw : Text → Option Text → Text
  or_raw raw none = raw
  or_raw raw (some t) = t

  unfoldable pub deserialize_entry_data : Text → Text
  deserialize_entry_data json = or_raw json (decode json)

  -- `dehydrate_cache_entry`.
  unfoldable pub dehydrate_cache_entry :
      ℕ → ℕ → Text → CacheEntry V → Option Text → DehydrateOptions → DehydratedQuery
  dehydrate_cache_entry now wall key e error o = record {
    query_hash = key;
    query_key = split key;
    data_json =
        Option.map (λ v. serialize_entry_data (S.project v) o) (downcast S.type_id e.data_of);
    error_json = redact_error error o.should_redact_errors;
    fetched_at_ms = some (wall - as_millis (now - e.fetched_at));
    is_stale = e.is_stale;
    stale_time_ms = as_millis e.options.stale_time;
    gc_time_ms = as_millis e.options.gc_time;
    meta = e.options.meta;
    query_type = query_type_query;
  }

  abbrev pub dehydrate_all :
      ℕ → ℕ → DehydrateOptions → List (Text × CacheEntry V) → List DehydratedQuery
  dehydrate_all now wall o [] = []
  dehydrate_all now wall o ((k, e) ∷ m) =
      dehydrate_cache_entry now wall k e none o ∷ dehydrate_all now wall o m

  -- `dehydrate_state`.
  unfoldable pub dehydrate_state : ℕ → ℕ → Client M → DehydrateOptions → DehydratedState
  dehydrate_state now wall c o = record {
    dehydrated_at_ms = wall;
    queries =
        sort_queries
          (select o.should_dehydrate_query (dehydrate_all now wall o (M.cache.iter c.cache)));
    mutations = [];
  }

  -- `hydrate_mutations` does nothing yet.
  unfoldable pub hydrate_mutations : List DehydratedMutation → Client M → Client M
  hydrate_mutations mutations c = for_each mutations (λ m c. c) c

  -- `restore_entry_staleness`.
  unfoldable pub restore_entry_staleness : ℕ → DehydratedQuery → ℕ → Client M → Client M
  restore_entry_staleness now d age_ms c = record c {
    cache = get_mut M.cache (restored now d age_ms) d.query_hash c.cache;
  }

  -- The write of `hydrate_query`.
  unfoldable pub write_payload :
      (ℕ → V → V → Bool) → ℕ → ℕ → DehydratedQuery → HydrateOptions → Text → Client M → Client M
  write_payload beq now at d o json c =
      restore_entry_staleness now d (dehydrated_age_ms at d.fetched_at_ms) (
        set_query_data M beq now S.type_id (query_key_from_dehydrated d)
          (S.inject (deserialize_entry_data json)) (stored_options_for d o) c)

  -- `hydrate_query` from its `let Some(data_json)` on.
  unfoldable pub hydrate_data :
      (ℕ → V → V → Bool)
      → ℕ
      → ℕ
      → HydrateOptions
      → DehydratedQuery
      → Option Text
      → Client M
      → Client M
  hydrate_data beq now at o d none c = c
  hydrate_data beq now at o d (some json) c =
      if not (payload_wins now at d o (M.cache.get d.query_hash c.cache))
      then c
      else write_payload beq now at d o json c

  -- `hydrate_query`.
  unfoldable pub hydrate_query :
      (ℕ → V → V → Bool) → ℕ → ℕ → HydrateOptions → DehydratedQuery → Client M → Client M
  hydrate_query beq now at o d c =
      if not (lets_in o.should_hydrate d.query_hash)
      then c
      else hydrate_data beq now at o d d.data_json c

  -- `hydrate_state_owned`, `hydrate_with_options` and `QueryClient::hydrate`, all at one instant.
  unfoldable pub hydrate_state :
      (ℕ → V → V → Bool) → ℕ → DehydratedState → HydrateOptions → Client M → Client M
  hydrate_state beq now state o c =
      for_each state.queries (hydrate_query beq now state.dehydrated_at_ms o)
        (hydrate_mutations state.mutations c)
