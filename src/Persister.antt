-- ===== src/Persister.antt =====
-- src/persister.rs: queries kept in a storage. The storage of the trait `QueryStorage` is an interface
-- of a map of texts whose calls succeed, with `iter` for `entries`; `Json` stands for serde, and the
-- data are of the type `String`. `now` is the monotonic instant and `wall` the wall clock in
-- milliseconds.
pub mod Keeping
pub mod Bulk
use mathlib.Core.Option
use rs_query.Base.{
  ℕ, suc, ◌≡◌, ◌-◌, ◌*◌, ◌/◌, min, Bool, true, false, ◌&&◌, not, Option, none, some, List, [], ◌∷◌,
  ◌++◌, Text, text_eq, text_starts_with, leb, ltb, if◌then◌else◌, for_each, drop, length,
}
use rs_query.Key.{QueryKey, from_segments}
use rs_query.Options.{QueryOptions, default_options, u64_max}
use rs_query.Map.{DashMap}
use rs_query.Map.Keys.{get_mut}
use rs_query.Client.Core.{Tables, Client}
use rs_query.Client.Data.{mark_stale, get_query_data, set_query_data, invalidate_queries}
use rs_query.Client.Pages.{Payload}
use rs_query.Hydration.{as_millis}

-- `PersistedQuery`, with its `PersistedQueryState`.
pub record PersistedQuery : Type 0 where
  pub buster : Text
  pub query_hash : Text
  pub query_key : List Text
  pub data_json : Option Text
  pub data_updated_at_ms : Option ℕ
  pub error_text : Option Text

-- `serialize_persisted_query` and its way back, and serde's JSON of a text.
pub record Json : Type 0 where
  pub to_text : PersistedQuery → Text
  pub of_text : Text → Option PersistedQuery
  pub encode : Text → Text
  pub decode : Text → Option Text
  pub of_text-to_text : (q : PersistedQuery) → of_text (to_text q) ≡ some q
  pub decode-encode : (t : Text) → decode (encode t) ≡ some t

-- `QueryPersisterOptions`, without the storage.
pub record QueryPersisterOptions : Type 0 where
  pub buster : Text
  pub max_age : ℕ
  pub prefix : Text
  pub refetch_on_restore : Bool
  pub stale_time : Option ℕ

-- `"{prefix}-"` and `storage_key`.
abbrev pub owned : QueryPersisterOptions → Text
owned o = o.prefix ++ b'-' ∷ []

unfoldable pub storage_key : QueryPersisterOptions → Text → Text
storage_key o hash = owned o ++ hash

abbrev pub too_old : QueryPersisterOptions → ℕ → Option ℕ → Bool
too_old o wall none = true
too_old o wall (some at) = ltb (as_millis o.max_age) (wall - at)

unfoldable pub is_expired_or_busted : QueryPersisterOptions → PersistedQuery → ℕ → Bool
is_expired_or_busted o q wall =
    if not (text_eq q.buster o.buster) then true else too_old o wall q.data_updated_at_ms

-- Is an entry of the storage dropped by `persister_gc`?
abbrev pub unusable : QueryPersisterOptions → ℕ → Option PersistedQuery → Bool
unusable o wall none = true
unusable o wall (some q) = is_expired_or_busted o q wall

abbrev pub dropped : Json → QueryPersisterOptions → ℕ → Text → Text → Bool
dropped json o wall key raw = text_starts_with (owned o) key && unusable o wall (json.of_text raw)

abbrev or_zero : Option ℕ → ℕ
or_zero none = 0
or_zero (some n) = n

abbrev due : ℕ → ℕ → Option ℕ → Bool
due wall stale_time none = true
due wall stale_time (some at) = leb (as_millis stale_time) (wall - at)

module _ {V : Type 0} (M : Tables V) (S : Payload V Text) (D : DashMap Text) (json : Json)
    (o : QueryPersisterOptions) where
  abbrev pub payload_of : ℕ → QueryKey → Text → PersistedQuery
  payload_of wall key t = record {
    buster = o.buster;
    query_hash = key.cache_key;
    query_key = key.segments;
    data_json = some (json.encode t);
    data_updated_at_ms = some wall;
    error_text = none;
  }

  -- `persist_query`; the storage after it.
  unfoldable pub persist_query : ℕ → QueryKey → Client M → D.Map → D.Map
  persist_query wall key c m = elim (get_query_data M S.type_id key c) [
    | none ↦ m
    | some v ↦
        D.insert (storage_key o key.cache_key) (json.to_text (payload_of wall key (S.project v))) m
  ]

  -- `apply_restored_data`.
  unfoldable pub apply_restored_data :
      (ℕ → V → V → Bool) → ℕ → ℕ → QueryKey → Text → Option ℕ → Client M → Client M
  apply_restored_data beq now wall key t updated_at c =
      let stale_time = or_zero o.stale_time in
      let c1 =
        set_query_data M beq now S.type_id key (S.inject t)
          (record default_options { stale_time = stale_time }) c in
      if o.refetch_on_restore && due wall stale_time updated_at
      then record c1 { cache = get_mut M.cache mark_stale key.cache_key c1.cache }
      else c1

  -- What `retrieve_query` leaves: the storage, the client and its answer.
  pub record Retrieved : Type 0 where
    pub storage : D.Map
    pub client : Client M
    pub answer : Option Text

  abbrev nothing : D.Map → Client M → Retrieved
  nothing m c = record { storage = m; client = c; answer = none }

  -- The end of `retrieve_query`, on the decoded data.
  unfoldable pub restored_text :
      (ℕ → V → V → Bool) → ℕ → ℕ → QueryKey → Option ℕ → Option Text → D.Map → Client M → Retrieved
  restored_text beq now wall key updated_at none m c =
      nothing (D.remove (storage_key o key.cache_key) m) c
  restored_text beq now wall key updated_at (some t) m c = record {
    storage = m;
    client = apply_restored_data beq now wall key t updated_at c;
    answer = some t;
  }

  abbrev with_data :
      (ℕ → V → V → Bool) → ℕ → ℕ → QueryKey → Option ℕ → Option Text → D.Map → Client M → Retrieved
  with_data beq now wall key updated_at none m c = nothing m c
  with_data beq now wall key updated_at (some data_json) m c =
      restored_text beq now wall key updated_at (json.decode data_json) m c

  -- `retrieve_query` on the parsed entry.
  unfoldable pub parsed :
      (ℕ → V → V → Bool) → ℕ → ℕ → QueryKey → Option PersistedQuery → D.Map → Client M → Retrieved
  parsed beq now wall key none m c = nothing (D.remove (storage_key o key.cache_key) m) c
  parsed beq now wall key (some q) m c =
      if is_expired_or_busted o q wall
      then nothing m c
      else with_data beq now wall key q.data_updated_at_ms q.data_json m c

  unfoldable pub retrieve_query :
      (ℕ → V → V → Bool) → ℕ → ℕ → QueryKey → D.Map → Client M → Retrieved
  retrieve_query beq now wall key m c = elim (D.get (storage_key o key.cache_key) m) [
    | none ↦ nothing m c
    | some raw ↦ parsed beq now wall key (json.of_text raw) m c
  ]

  -- `restore_query`.
  unfoldable pub restore_query :
      (ℕ → V → V → Bool) → ℕ → ℕ → QueryKey → D.Map → Client M → Retrieved
  restore_query beq now wall key m c = elim (get_query_data M S.type_id key c) [
    | some v ↦ record { storage = m; client = c; answer = some (S.project v) }
    | none ↦ retrieve_query beq now wall key m c
  ]

  -- The body of the loop of `persister_gc`, with the number of entries that it removed.
  unfoldable pub gc_one : ℕ → Text × Text → D.Map × Client M × ℕ → D.Map × Client M × ℕ
  gc_one wall (key, raw) (m, c, n) =
      if dropped json o wall key raw
      then (
        D.remove key m,
        invalidate_queries M (from_segments (drop (length (owned o)) key ∷ [])) c,
        suc n,
      )
      else (m, c, n)

  unfoldable pub persister_gc : ℕ → D.Map → Client M → D.Map × Client M × ℕ
  persister_gc wall m c = for_each (D.iter m) (gc_one wall) (m, c, 0)
