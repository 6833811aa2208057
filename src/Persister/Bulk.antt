-- ===== src/Persister/Bulk.antt =====
-- `restore_queries` and `remove_queries` of src/persister.rs, and the builders of its options.
use rs_query.Base.{
  ℕ, suc, ◌≡◌, ap, ◌∙◌, Bool, true, ◌||◌, Option, none, List, [], ◌∷◌, Text, map, is_some,
  if◌then◌else◌, for_each, for_each_part, for_each-map, refl,
}
use rs_query.Key.{QueryKey}
use rs_query.Map.{DashMap, contains}
use rs_query.Map.Keys.{get-for_each_remove}
use rs_query.Client.Core.{Tables, Client}
use rs_query.Client.Pages.{Payload}
use rs_query.Persister.{Json, QueryPersisterOptions, Retrieved, storage_key, retrieve_query}

-- `DEFAULT_MAX_AGE`, in nanoseconds, and `PERSISTER_KEY_PREFIX`.
abbrev pub default_max_age : ℕ
default_max_age = 86_400_000_000_000

abbrev pub persister_key_prefix : Text
persister_key_prefix = b'r' ∷ b's' ∷ b'-' ∷ b'q' ∷ b'u' ∷ b'e' ∷ b'r' ∷ b'y' ∷ []

unfoldable pub new_options : QueryPersisterOptions
new_options = record {
  buster = [];
  max_age = default_max_age;
  prefix = persister_key_prefix;
  refetch_on_restore = true;
  stale_time = none;
}

unfoldable pub with_buster : Text → QueryPersisterOptions → QueryPersisterOptions
with_buster t o = record o { buster = t }

unfoldable pub with_max_age : ℕ → QueryPersisterOptions → QueryPersisterOptions
with_max_age n o = record o { max_age = n }

unfoldable pub with_prefix : Text → QueryPersisterOptions → QueryPersisterOptions
with_prefix t o = record o { prefix = t }

unfoldable pub with_refetch_on_restore : Bool → QueryPersisterOptions → QueryPersisterOptions
with_refetch_on_restore b o = record o { refetch_on_restore = b }

unfoldable pub with_stale_time : Option ℕ → QueryPersisterOptions → QueryPersisterOptions
with_stale_time n o = record o { stale_time = n }

module _ {V : Type 0} (M : Tables V) (S : Payload V Text) (D : DashMap Text) (json : Json)
    (o : QueryPersisterOptions) where
  -- The body of the loop of `restore_queries`, with the number of keys restored.
  abbrev counted : Retrieved M S D json o → ℕ → D.Map × Client M × ℕ
  counted r n = (r.storage, r.client, if is_some r.answer then suc n else n)

  unfoldable pub restore_one :
      (ℕ → V → V → Bool) → ℕ → ℕ → QueryKey → D.Map × Client M × ℕ → D.Map × Client M × ℕ
  restore_one beq now wall key (m, c, n) =
      counted (retrieve_query M S D json o beq now wall key m c) n

  unfoldable pub restore_queries :
      (ℕ → V → V → Bool) → ℕ → ℕ → List QueryKey → D.Map → Client M → D.Map × Client M × ℕ
  restore_queries beq now wall keys m c = for_each keys (restore_one beq now wall) (m, c, 0)

for_each_idle {ℓ κ} : {A : Type ℓ} {T : Type κ} (xs : List A) (t : T) → for_each xs (λ x t. t) t ≡ t
unfolding for_each
for_each_idle [] t = refl
for_each_idle (x ∷ xs) t = for_each_idle xs t

module _ {V : Type 0} (M : Tables V) (D : DashMap Text) (o : QueryPersisterOptions) where
  -- The body of the loop of `remove_queries`, with the number of keys that something was removed of.
  unfoldable pub remove_one : QueryKey → D.Map × Client M × ℕ → D.Map × Client M × ℕ
  remove_one key (m, c, n) =
      let k = storage_key o key.cache_key in
      let found = is_some (D.get k m) || is_some (M.cache.get key.cache_key c.cache) in
      (
        D.remove k m,
        record c { cache = M.cache.remove key.cache_key c.cache },
        if found then suc n else n,
      )

  unfoldable pub remove_queries : List QueryKey → D.Map → Client M → D.Map × Client M × ℕ
  remove_queries keys m c = for_each keys remove_one (m, c, 0)

  -- The storage keys and the cache keys of some queries.
  abbrev pub storage_keys : List QueryKey → List Text
  storage_keys = map (λ key. storage_key o key.cache_key)

  abbrev pub cache_keys : List QueryKey → List Text
  cache_keys = map (λ key. key.cache_key)

  removals :
      (keys : List QueryKey) (m : D.Map) (c : Client M)
      → (remove_queries keys m c).0 ≡ for_each (storage_keys keys) D.remove m
  unfolding remove_queries remove_one
  removals keys m c =
      for_each_part (λ s. s.0) remove_one (λ key. D.remove (storage_key o key.cache_key))
        (λ key s. refl) keys (m, c, 0)
      ∙ for_each-map (λ key. storage_key o key.cache_key) D.remove keys m

  evictions :
      (keys : List QueryKey) (m : D.Map) (c : Client M)
      → (remove_queries keys m c).1.cache ≡ for_each (cache_keys keys) M.cache.remove c.cache
  unfolding remove_queries remove_one
  evictions keys m c =
      for_each_part (λ s. s.1.cache) remove_one (λ key. M.cache.remove key.cache_key)
        (λ key s. refl) keys (m, c, 0)
      ∙ for_each-map (λ key. key.cache_key) M.cache.remove keys c.cache

  flights :
      (keys : List QueryKey) (m : D.Map) (c : Client M)
      → (remove_queries keys m c).1.in_flight ≡ c.in_flight
  unfolding remove_queries remove_one
  flights keys m c =
      for_each_part (λ s. s.1.in_flight) remove_one (λ key t. t) (λ key s. refl) keys (m, c, 0)
      ∙ for_each_idle keys c.in_flight

  -- `remove_queries` takes out of the storage exactly the entries of its keys, and out of the cache of
  -- the client as well; the fetches of these keys stay in flight, and may bring them back.
  remove_queries_removes :
      (keys : List QueryKey) (m : D.Map) (c : Client M) (k : Text)
      → let (m', c', n) = remove_queries keys m c in
        (D.get k m' ≡ (if contains k (storage_keys keys) then none else D.get k m))
        × (M.cache.get k c'.cache
            ≡ (if contains k (cache_keys keys) then none else M.cache.get k c.cache))
        × (c'.in_flight ≡ c.in_flight)
  remove_queries_removes keys m c k = (
    ap (D.get k) (removals keys m c) ∙ get-for_each_remove D (storage_keys keys) k m,
    ap (M.cache.get k) (evictions keys m c)
        ∙ get-for_each_remove M.cache (cache_keys keys) k c.cache,
    flights keys m c,
  )
