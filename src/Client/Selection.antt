-- ===== src/Client/Selection.antt =====
-- What the filters of bulk operations select in the cache.
use rs_query.Base.{
  ℕ, ◌-◌, ◌<◌, ◌≡◌, refl, sym, ap, subst, ◌∙◌, ◌↔◌, inl, inr, true, false, arith, Text, Bool-cases,
}
use rs_query.Key.{QueryKey, split, IsJoined}
use rs_query.Key.Join.{joined, from_segments-joined, join-split, split-join_iff, Separable}
use rs_query.Filters.{QueryFilters, with_key, only_exact, match_query}
use rs_query.Filters.Meaning.{Selected, match_query_iff}
use rs_query.Options.{is_stale_by_time}
use rs_query.Client.Core.{CacheEntry, Tables, Client}
use rs_query.Client.Data.{entry_is_stale}
use rs_query.Client.Bulk.{snapshot_at}

abbrev pub exact_key : QueryKey → QueryFilters
exact_key key = only_exact (with_key key)

module _ {V : Type 0} (M : Tables V) where
  exact_Selected :
      (now : ℕ) (c : Client M) (k : Text) (e : CacheEntry V) (key : QueryKey)
      → Selected (snapshot_at M now c k e) (exact_key key) ↔ (key ≡ joined (split k))
  unfolding snapshot_at only_exact with_key
  exact_Selected now c k e key = (
    λ s. s.key ∙ from_segments-joined (split k),
    λ h. record {
      key = h ∙ sym (from_segments-joined (split k));
      type = tt;
      staleness = tt;
      fetch_status = tt;
      status = tt;
    },
  )

  exact_match :
      (now : ℕ) (c : Client M) (k : Text) (e : CacheEntry V) (key : QueryKey)
      → (match_query (snapshot_at M now c k e) (exact_key key) ≡ true) ↔ (key ≡ joined (split k))
  unfolding only_exact with_key
  exact_match now c k e key =
      let m = match_query_iff (snapshot_at M now c k e) (exact_key key) refl in
      let s = exact_Selected now c k e key in (λ h. s.0 (m.0 h), λ h. m.1 (s.1 h))

  -- For a key as the constructors build it whose segments are separable, the exact filter selects exactly the entry of that key.
  exact_filter_iff :
      (now : ℕ) (c : Client M) (k : Text) (e : CacheEntry V) (key : QueryKey)
      → IsJoined key
      → Separable key.segments
      → (match_query (snapshot_at M now c k e) (exact_key key) ≡ true) ↔ (k ≡ key.cache_key)
  exact_filter_iff now c k e key j s =
      let m = exact_match now c k e key in
      (
        λ h. sym (ap (λ x. x.cache_key) (m.0 h) ∙ join-split k),
        λ h.
            m.1 (λ i. record { segments = pieces h i; cache_key = (sym h ∙ sym (join-split k)) i }),
      )
    where
      pieces : k ≡ key.cache_key → key.segments ≡ split k
      pieces h = sym (ap split (h ∙ j) ∙ (split-join_iff key.segments).1 s)

  -- For a key whose segments are not separable (one with a segment that holds `"::"`, one with a segment before the last that
  -- ends in a colon, and the key with no segment) the exact filter selects no entry at all, its own included.
  exact_filter_misses :
      (now : ℕ) (c : Client M) (k : Text) (e : CacheEntry V) (key : QueryKey)
      → ¬ Separable key.segments
      → match_query (snapshot_at M now c k e) (exact_key key) ≡ false
  exact_filter_misses now c k e key no_sep =
      elim (Bool-cases (match_query (snapshot_at M now c k e) (exact_key key))) [
        | inl hit ↦ absurd (
            no_sep (
              subst Separable (sym (ap (λ x. x.segments) ((exact_match now c k e key).0 hit)))
                ((split-join_iff (split k)).0 (ap split (join-split k)))))
        | inr miss ↦ miss
      ]

-- An entry whose options say `stale_time_static` beside a positive `stale_time` counts as stale once
-- more than that time has passed, although `is_stale_by_time` of those options says that it is not.
static_becomes_stale :
    {V : Type 0} (now : ℕ) (e : CacheEntry V)
    → e.options.stale_time_static ≡ true
    → 0 < e.options.stale_time
    → e.options.stale_time < now - e.fetched_at
    → (entry_is_stale now e ≡ true) × (is_stale_by_time e.options now e.fetched_at ≡ false)
unfolding entry_is_stale is_stale_by_time
static_becomes_stale now e s p h = ground arith
