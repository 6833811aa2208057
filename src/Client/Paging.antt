-- ===== src/Client/Paging.antt =====
-- What the page operations leave in the cache.
use rs_query.Base.{
  ℕ, suc, ◌-◌, ◌≡◌, refl, ap, ◌∙◌, some, [], ◌∷◌, ◌++◌, arith, length, take, drop, text_eq_self,
}
use rs_query.Key.{QueryKey}
use rs_query.Infinite.{InfiniteData}
use rs_query.Infinite.Pages.{Aligned, append_page_lem, prepend_page_lem}
use rs_query.Client.Core.{Dynamic, downcast, CacheEntry, Tables, Client}
use rs_query.Client.Data.{get_query_data, is_stale, entry_is_stale}
use rs_query.Client.Pages.{
  Payload, get_infinite_data, write_pages, append_infinite_page, prepend_infinite_page,
}

-- The newest pages of the old ones and the new one, and the first of the new one and the old ones.
abbrev pub appended : {T P : Type 0} → ℕ → T → P → InfiniteData T P → InfiniteData T P
appended max page param d = record {
  pages = drop (suc (length d.pages) - max) (d.pages ++ page ∷ []);
  page_params = drop (suc (length d.pages) - max) (d.page_params ++ param ∷ []);
}

abbrev pub prepended : {T P : Type 0} → ℕ → T → P → InfiniteData T P → InfiniteData T P
prepended max page param d = record {
  pages = take max (page ∷ d.pages);
  page_params = take max (param ∷ d.page_params);
}

module _ {V T P : Type 0} (M : Tables V) (I : Payload V (InfiniteData T P)) where
  -- The entry of the key holds pages.
  pub record HasPages (c : Client M) (key : QueryKey) (e : CacheEntry V) : Type 0 where
    pub entry : M.cache.get key.cache_key c.cache ≡ some e
    pub entry_type : e.type_id ≡ I.type_id
    pub value_type : e.data_of.type_id ≡ I.type_id

  written_entry :
      (now : ℕ) (key : QueryKey) (e : CacheEntry V) (new : InfiniteData T P) (c : Client M)
      → M.cache.get key.cache_key (write_pages M I now key e new c).cache
        ≡ some (record e {
          data_of = record { type_id = I.type_id; address = c.next_address; value = I.inject new };
          fetched_at = now;
          last_accessed = now;
        })
  unfolding write_pages
  written_entry now key e new c =
      M.cache.get-insert key.cache_key key.cache_key _ c.cache ∙ rw (text_eq_self key.cache_key)

  read_entry :
      (key : QueryKey) (c : Client M) (e : CacheEntry V)
      → HasPages c key e
      → get_infinite_data M I key c ≡ some (I.project e.data_of.value)
  unfolding get_infinite_data get_query_data
  read_entry key c e h =
      let at = h.entry in
      let a = h.entry_type in let b = h.value_type in rw (at, get_query_data) (ground arith)

  stale_entry :
      (now : ℕ) (key : QueryKey) (c : Client M) (e : CacheEntry V)
      → M.cache.get key.cache_key c.cache ≡ some e
      → is_stale M now key c ≡ entry_is_stale now e
  unfolding is_stale
  stale_entry now key c e at = rw (at, is_stale)

  fresh_entry :
      (now : ℕ) (e : CacheEntry V) → e.fetched_at ≡ now → entry_is_stale now e ≡ e.is_stale
  unfolding entry_is_stale
  fresh_entry now e h = ground arith

  -- What a read gives after pages were written, and whether they are stale.
  pub read_written :
      (now : ℕ) (key : QueryKey) (e : CacheEntry V) (new : InfiniteData T P) (c : Client M)
      → e.type_id ≡ I.type_id
      → (get_infinite_data M I key (write_pages M I now key e new c) ≡ some new)
        × (is_stale M now key (write_pages M I now key e new c) ≡ e.is_stale)
  read_written now key e new c t =
      let c' = write_pages M I now key e new c in
      let at = written_entry now key e new c in
      (
        read_entry key c' _ (record { entry = at; entry_type = t; value_type = refl })
            ∙ ap some (I.project-inject new),
        stale_entry now key c' _ at ∙ fresh_entry now _ refl,
      )

  downcast_self : (d : Dynamic V) → d.type_id ≡ I.type_id → downcast I.type_id d ≡ some d.value
  unfolding downcast
  downcast_self d t = ground arith

  append_entry :
      (now max : ℕ) (key : QueryKey) (page : T) (param : P) (c : Client M) (e : CacheEntry V)
      → HasPages c key e
      → Aligned (I.project e.data_of.value)
      → let new = appended max page param (I.project e.data_of.value) in
        append_infinite_page M I now key page param (some max) c
        ≡ some (write_pages M I now key e new c, some new)
  unfolding append_infinite_page
  append_entry now max key page param c e h a =
      let at = h.entry in
      let d = downcast_self e.data_of h.value_type in
      let l = append_page_lem max page param (I.project e.data_of.value) a in
      rw (at, append_infinite_page) (rw (d, append_infinite_page) (rw (l, append_infinite_page)))

  prepend_entry :
      (now max : ℕ) (key : QueryKey) (page : T) (param : P) (c : Client M) (e : CacheEntry V)
      → HasPages c key e
      → Aligned (I.project e.data_of.value)
      → let new = prepended max page param (I.project e.data_of.value) in
        prepend_infinite_page M I now key page param (some max) c
        ≡ (write_pages M I now key e new c, some new)
  unfolding prepend_infinite_page
  prepend_entry now max key page param c e h a =
      let at = h.entry in
      let d = downcast_self e.data_of h.value_type in
      let l = prepend_page_lem max page param (I.project e.data_of.value) a in
      rw (at, prepend_infinite_page) (rw (d, prepend_infinite_page) (rw (l, prepend_infinite_page)))

  -- Appending to an entry that holds aligned pages, under a limit, does not panic: it returns the
  -- newest pages, as many as the limit, which a read of the key gives then; the entry is stale then
  -- exactly if it was flagged before, since the flag is kept and the clock of `stale_time` restarts.
  pub append_infinite_page_lem :
      (now max : ℕ) (key : QueryKey) (page : T) (param : P) (c : Client M) (e : CacheEntry V)
      → HasPages c key e
      → Aligned (I.project e.data_of.value)
      → let new = appended max page param (I.project e.data_of.value) in
        (c' : Client M) × (append_infinite_page M I now key page param (some max) c
          ≡ some (c', some new))
        × (get_infinite_data M I key c' ≡ some new)
        × (is_stale M now key c' ≡ e.is_stale)
  append_infinite_page_lem now max key page param c e h a =
      let new = appended max page param (I.project e.data_of.value) in
      let r = read_written now key e new c h.entry_type in
      (write_pages M I now key e new c, append_entry now max key page param c e h a, r.0, r.1)

  -- The same for prepending: the first pages of the new one and the old ones.
  pub prepend_infinite_page_lem :
      (now max : ℕ) (key : QueryKey) (page : T) (param : P) (c : Client M) (e : CacheEntry V)
      → HasPages c key e
      → Aligned (I.project e.data_of.value)
      → let new = prepended max page param (I.project e.data_of.value) in
        (c' : Client M) × (prepend_infinite_page M I now key page param (some max) c
          ≡ (c', some new))
        × (get_infinite_data M I key c' ≡ some new)
        × (is_stale M now key c' ≡ e.is_stale)
  prepend_infinite_page_lem now max key page param c e h a =
      let new = prepended max page param (I.project e.data_of.value) in
      let r = read_written now key e new c h.entry_type in
      (write_pages M I now key e new c, prepend_entry now max key page param c e h a, r.0, r.1)
