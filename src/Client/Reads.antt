-- ===== src/Client/Reads.antt =====
-- What `get_query_data` and `is_stale` say after `set_query_data`.
use rs_query.Base.{
  ℕ, ◌≡◌, refl, ap, ◌∙◌, ◌≢◌, ◌⊎◌, inl, inr, Bool, true, false, not, ◌&&◌, Option, none, some,
  arith, Text, ◌==◌, if◌then◌else◌, text_eq, text_eq_iff, text_eq_self, is_some, Bool-cases,
}
use rs_query.Key.{QueryKey}
use rs_query.Options.{QueryOptions}
use rs_query.Options.Merge.{merge_options}
use rs_query.Client.Core.{Dynamic, eq_any, CacheEntry, Tables, Client}
use rs_query.Client.Data.{
  entry_is_stale, effective_options, get_query_data, get_query_options, is_stale, shared_data,
  set_query_data,
}

module _ {V : Type 0} (M : Tables V) (beq : ℕ → V → V → Bool) where
  -- What is stored holds the new value; or, only under structural sharing, the value that the old
  -- entry of the same type has, which equals the new one.
  abbrev pub Stands : QueryOptions → ℕ → V → Option (CacheEntry V) → V → Type 0
  Stands o t v old w =
      (w ≡ v)
      ⊎ ((o.structural_sharing ≡ true)
          × (e : CacheEntry V) × (old ≡ some e)
          × (e.type_id ≡ t)
          × (w ≡ e.data_of.value)
          × (beq t w v ≡ true))

  eq_any-same :
      (t a : ℕ) (v : V) (d : Dynamic V)
      → eq_any beq (record { type_id = t; address = a; value = v }) d ≡ true
      → (d.type_id ≡ t) × (beq t d.value v ≡ true)
  unfolding eq_any
  eq_any-same t a v d h = (ground arith, ground arith)

  shared_data-Stands :
      (o : QueryOptions) (t a : ℕ) (v : V) (old : Option (CacheEntry V))
      → let d = shared_data M beq o t (record { type_id = t; address = a; value = v }) old in
        (d.type_id ≡ t) × Stands o t v old d.value
  unfolding shared_data
  shared_data-Stands o t a v none = (refl, inl refl)
  shared_data-Stands o t a v (some e) =
      let new : Dynamic V = record { type_id = t; address = a; value = v } in
      elim (Bool-cases (o.structural_sharing && e.type_id == t && eq_any beq new e.data_of)) [
        | inl h ↦
            let same = eq_any-same t a v e.data_of (ground arith) in
            rw (h, shared_data) (same.0, inr (ground arith, e, refl, ground arith, refl, same.1))
        | inr h ↦ rw (h, shared_data) (refl, inl refl)
      ]

  read_entry :
      (t : ℕ) (key : QueryKey) (c : Client M) (e : CacheEntry V)
      → M.cache.get key.cache_key c.cache ≡ some e
      → e.type_id ≡ t
      → e.data_of.type_id ≡ t
      → get_query_data M t key c ≡ some e.data_of.value
  unfolding get_query_data
  read_entry t key c e at h d = rw (at, get_query_data) (ground arith)

  -- The entry that `set_query_data` writes.
  unfoldable pub written : ℕ → ℕ → QueryKey → V → QueryOptions → Client M → CacheEntry V
  written now t key v o c =
      let old = M.cache.get key.cache_key c.cache in
      let options = effective_options (not (is_some old)) c.default_options o in
      record {
        data_of =
            shared_data M beq options t
              (record { type_id = t; address = c.next_address; value = v }) old;
        type_id = t;
        fetched_at = now;
        last_accessed = now;
        options = options;
        is_stale = false;
      }

  pub get-set :
      (now t : ℕ) (key : QueryKey) (v : V) (o : QueryOptions) (c : Client M) (k : Text)
      → M.cache.get k (set_query_data M beq now t key v o c).cache ≡ (
          if text_eq key.cache_key k then some (written now t key v o c) else M.cache.get k c.cache)
  unfolding set_query_data written
  get-set now t key v o c k = M.cache.get-insert key.cache_key k (written now t key v o c) c.cache

  get-set_self :
      (now t : ℕ) (key : QueryKey) (v : V) (o : QueryOptions) (c : Client M)
      → M.cache.get key.cache_key (set_query_data M beq now t key v o c).cache
        ≡ some (written now t key v o c)
  get-set_self now t key v o c =
      get-set now t key v o c key.cache_key ∙ rw (text_eq_self key.cache_key)

  stale_entry :
      (now : ℕ) (key : QueryKey) (c : Client M) (e : CacheEntry V)
      → M.cache.get key.cache_key c.cache ≡ some e
      → is_stale M now key c ≡ entry_is_stale now e
  unfolding is_stale
  stale_entry now key c e at = rw (at, is_stale)

  options_entry :
      (key : QueryKey) (c : Client M) (e : CacheEntry V)
      → M.cache.get key.cache_key c.cache ≡ some e
      → get_query_options M key c ≡ some e.options
  unfolding get_query_options
  options_entry key c e at = rw (at, get_query_options)

  fresh_entry :
      (now t : ℕ) (key : QueryKey) (v : V) (o : QueryOptions) (c : Client M)
      → entry_is_stale now (written now t key v o c) ≡ false
  unfolding entry_is_stale written
  fresh_entry now t key v o c = ground arith

  new_options :
      (now t : ℕ) (key : QueryKey) (v : V) (d o : QueryOptions) (c : Client M)
      → M.cache.get key.cache_key c.cache ≡ none
      → c.default_options ≡ some d
      → (written now t key v o c).options ≡ merge_options d o
  unfolding written
  new_options now t key v d o c absent def = rw (absent, def)

  old_options :
      (now t : ℕ) (key : QueryKey) (v : V) (o : QueryOptions) (c : Client M) (e : CacheEntry V)
      → M.cache.get key.cache_key c.cache ≡ some e
      → (written now t key v o c).options ≡ o
  unfolding written
  old_options now t key v o c e at = rw at

  -- A read after a write, at the type of the write, gives the written value, or, only if the options
  -- that the write stores ask for structural sharing, the value of the old entry of that type, which
  -- equals it; and at that instant the data are not stale.
  pub get_query_data-set_query_data :
      (now t : ℕ) (key : QueryKey) (v : V) (o : QueryOptions) (c : Client M)
      → let c' = set_query_data M beq now t key v o c in
        let old = M.cache.get key.cache_key c.cache in
        let options = effective_options (not (is_some old)) c.default_options o in
        ((w : V) × (get_query_data M t key c' ≡ some w) × Stands options t v old w)
        × (is_stale M now key c' ≡ false)
  unfolding written
  get_query_data-set_query_data now t key v o c =
      let e = written now t key v o c in
      let at = get-set_self now t key v o c in
      let s =
        shared_data-Stands
          (effective_options (not (is_some (M.cache.get key.cache_key c.cache))) c.default_options
            o)
          t c.next_address v (M.cache.get key.cache_key c.cache) in
      (
        (
          e.data_of.value,
          read_entry t key (set_query_data M beq now t key v o c) e at refl s.0,
          s.1,
        ),
        stale_entry now key (set_query_data M beq now t key v o c) e at
            ∙ fresh_entry now t key v o c,
      )

  -- A write leaves the reads of every key with another cache key alone.
  get_query_data-set_ne :
      (now t t2 : ℕ) (key other : QueryKey) (v : V) (o : QueryOptions) (c : Client M)
      → key.cache_key ≢ other.cache_key
      → let c' = set_query_data M beq now t key v o c in
        (get_query_data M t2 other c' ≡ get_query_data M t2 other c)
        × (is_stale M now other c' ≡ is_stale M now other c)
  unfolding get_query_data is_stale
  get_query_data-set_ne now t t2 key other v o c ne =
      let same : M.cache.get other.cache_key (set_query_data M beq now t key v o c).cache
          ≡ M.cache.get other.cache_key c.cache =
        get-set now t key v o c other.cache_key
        ∙ ground (arith, text_eq_iff key.cache_key other.cache_key) in
      (rw (same, get_query_data), rw (same, is_stale))

  -- Of the client's default options a key keeps only the first write: the next write of the same
  -- options stores these as they were provided, without the defaults.
  defaults_lost :
      (now later t : ℕ) (key : QueryKey) (v w : V) (d o : QueryOptions) (c : Client M)
      → M.cache.get key.cache_key c.cache ≡ none
      → c.default_options ≡ some d
      → let c1 = set_query_data M beq now t key v o c in
        let c2 = set_query_data M beq later t key w o c1 in
        (get_query_options M key c1 ≡ some (merge_options d o))
        × (get_query_options M key c2 ≡ some o)
  unfolding get_query_options written
  defaults_lost now later t key v w d o c absent def =
      let c1 = set_query_data M beq now t key v o c in
      let at = get-set_self now t key v o c in
      let at2 = get-set_self later t key w o c1 in
      (
        options_entry key c1 _ at ∙ ap some (new_options now t key v d o c absent def),
        options_entry key (set_query_data M beq later t key w o c1) _ at2
            ∙ ap some (old_options later t key w o c1 _ at),
      )
