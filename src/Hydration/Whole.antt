-- ===== src/Hydration/Whole.antt =====
-- A whole client, dehydrated and hydrated into another one.
use mathlib.Core.Option
use rs_query.Base.{
  ℕ, ◌-◌, ◌≤◌, ◌≡◌, refl, sym, ap, subst, ◌∙◌, Bool, true, false, not, Option, none, some, List, [],
  ◌∷◌, Text, text_eq, text_eq_iff, select, for_each, if◌then◌else◌, Bool-cases, inl, inr, arith,
  if_holds,
}
use rs_query.Options.{millis}
use rs_query.Map.{find, Distinct}
use rs_query.Client.Core.{CacheEntry, Tables, Client, downcast, notify_subscribers}
use rs_query.Client.Data.{set_query_data}
use rs_query.Client.Pages.{Payload}
use rs_query.Hydration.{
  as_millis, DehydratedQuery, DehydrateOptions, HydrateOptions, text_leb, insert_query,
  sort_queries, lets_in, dehydrate_cache_entry, dehydrate_all, dehydrate_state, hydrate_query,
  hydrate_data, write_payload, restore_entry_staleness, payload_wins, hydrate_state,
  hydrate_mutations,
}
use rs_query.Hydration.Restoring.{
  ComesBack, after_hydrating, hydrate_query_effect, hydrate_query-dehydrate_cache_entry,
}

-- What payloads have under a hash: one, or none.
data Holds (k : Text) : Option DehydratedQuery → List DehydratedQuery → Type 0 where
  nothing : Holds k none []
  other :
      (o : Option DehydratedQuery) (d : DehydratedQuery) (ds : List DehydratedQuery)
      → text_eq d.query_hash k ≡ false
      → Holds k o ds
      → Holds k o (d ∷ ds)
  mine :
      (d : DehydratedQuery) (ds : List DehydratedQuery)
      → text_eq d.query_hash k ≡ true
      → Holds k none ds
      → Holds k (some d) (d ∷ ds)

abbrev kept : (DehydratedQuery → Bool) → Option DehydratedQuery → Option DehydratedQuery
kept p none = none
kept p (some d) = if p d then some d else none

select-Holds :
    (p : DehydratedQuery → Bool) (k : Text) {o : Option DehydratedQuery} {ds : List DehydratedQuery}
    → Holds k o ds
    → Holds k (kept p o) (select p ds)
select-Holds p k nothing = nothing
select-Holds p k (other o d ds h rest) =
    if_holds (Holds k (kept p o)) (p d) (d ∷ select p ds) (select p ds)
      (λ e. other (kept p o) d (select p ds) h (select-Holds p k rest)) (λ e. select-Holds p k rest)
select-Holds p k (mine d ds h rest) = elim (Bool-cases (p d)) [
  | inl e ↦ rw e (mine d (select p ds) h (select-Holds p k rest))
  | inr e ↦ rw e (select-Holds p k rest)
]

-- Sorting moves payloads only.
insert-other :
    (k : Text) (x : DehydratedQuery) {o : Option DehydratedQuery} {ds : List DehydratedQuery}
    → text_eq x.query_hash k ≡ false
    → Holds k o ds
    → Holds k o (insert_query x ds)
insert-other k x h nothing = other none x [] h nothing
insert-other k x h (other o d ds g rest) =
    if_holds (Holds k o) (text_leb x.query_hash d.query_hash) (x ∷ d ∷ ds) (d ∷ insert_query x ds)
      (λ e. other o x (d ∷ ds) h (other o d ds g rest))
      (λ e. other o d (insert_query x ds) g (insert-other k x h rest))
insert-other k x h (mine d ds g rest) =
    if_holds (Holds k (some d)) (text_leb x.query_hash d.query_hash) (x ∷ d ∷ ds)
      (d ∷ insert_query x ds) (λ e. other (some d) x (d ∷ ds) h (mine d ds g rest))
      (λ e. mine d (insert_query x ds) g (insert-other k x h rest))

insert-mine :
    (k : Text) (x : DehydratedQuery) (ds : List DehydratedQuery)
    → text_eq x.query_hash k ≡ true
    → Holds k none ds
    → Holds k (some x) (insert_query x ds)
insert-mine k x [] h rest = mine x [] h nothing
insert-mine k x (d ∷ ds) h (other o d' ds' g rest) =
    if_holds (Holds k (some x)) (text_leb x.query_hash d.query_hash) (x ∷ d ∷ ds)
      (d ∷ insert_query x ds) (λ e. mine x (d ∷ ds) h (other none d ds g rest))
      (λ e. other (some x) d (insert_query x ds) g (insert-mine k x ds h rest))

sort-Holds :
    (k : Text) {o : Option DehydratedQuery} {ds : List DehydratedQuery}
    → Holds k o ds
    → Holds k o (sort_queries ds)
sort-Holds k nothing = nothing
sort-Holds k (other o d ds h rest) = insert-other k d h (sort-Holds k rest)
sort-Holds k (mine d ds h rest) = insert-mine k d (sort_queries ds) h (sort-Holds k rest)

module _ {V : Type 0} (M : Tables V) (S : Payload V Text) (encode : Text → Text)
    (decode : Text → Option Text) where
  module _ (before wall : ℕ) (out : DehydrateOptions) where
    abbrev dehydrated : Text → CacheEntry V → DehydratedQuery
    dehydrated k e = dehydrate_cache_entry M S encode decode before wall k e none out

    absent-Holds :
        (k : Text) (m : List (Text × CacheEntry V))
        → find k m ≡ none
        → Holds k none (dehydrate_all M S encode decode before wall out m)
    unfolding dehydrate_cache_entry
    absent-Holds k [] h = nothing
    absent-Holds k ((j, e) ∷ m) h = elim (Bool-cases (text_eq j k)) [
      | inl own ↦ absurd (ground (arith, own, h))
      | inr apart ↦
          other none (dehydrated j e) (dehydrate_all M S encode decode before wall out m) apart
            (absent-Holds k m (ap (λ b. if b then some e else find k m) (sym apart) ∙ h))
    ]

    all-Holds :
        (k : Text) (m : List (Text × CacheEntry V))
        → Distinct m
        → Holds k
            (Option.map (dehydrated k) (find k m))
            (dehydrate_all M S encode decode before wall out m)
    unfolding dehydrate_cache_entry
    all-Holds k [] d = nothing
    all-Holds k ((j, e) ∷ m) d = elim (Bool-cases (text_eq j k)) [
      | inl own ↦
          let same : j ≡ k = (text_eq_iff j k).0 own in
          let rest = dehydrate_all M S encode decode before wall out m in
          rw own (
            subst (λ z. Holds k (some (dehydrated z e)) (dehydrated j e ∷ rest)) same
              (mine (dehydrated j e) rest own
                (absent-Holds k m (subst (λ z. find z m ≡ none) same d.0))))
      | inr apart ↦ rw apart (
          other (Option.map (dehydrated k) (find k m)) (dehydrated j e)
            (dehydrate_all M S encode decode before wall out m) apart (all-Holds k m d.1))
    ]

    -- The payload of a key is that of its entry, if there is one and the options let it through.
    state-Holds :
        (k : Text) (c : Client M)
        → Holds k
            (kept out.should_dehydrate_query (Option.map (dehydrated k) (M.cache.get k c.cache)))
            (dehydrate_state M S encode decode before wall c out).queries
    unfolding dehydrate_state
    state-Holds k c = sort-Holds k (
        select-Holds out.should_dehydrate_query k (
          subst
            (λ o.
              Holds k (Option.map (dehydrated k) o)
                (dehydrate_all M S encode decode before wall out (M.cache.iter c.cache)))
            (M.cache.find-iter k c.cache)
            (all-Holds k (M.cache.iter c.cache) (M.cache.iter-Distinct c.cache))))

  module _ (beq : ℕ → V → V → Bool) (now at : ℕ) (o : HydrateOptions) where
    abbrev hydrate_all : List DehydratedQuery → Client M → Client M
    hydrate_all ds = for_each ds (hydrate_query M S encode decode beq now at o)

    apart_effect :
        (d : DehydratedQuery) (json : Option Text) (c : Client M) (k : Text)
        → text_eq d.query_hash k ≡ false
        → after_hydrating M S encode decode beq now at o d c k json ≡ M.cache.get k c.cache
    apart_effect d none c k h = refl
    apart_effect d (some json) c k h = rw h refl

    apart_same :
        (d : DehydratedQuery) (c : Client M) (k : Text)
        → text_eq d.query_hash k ≡ false
        → M.cache.get k (hydrate_query M S encode decode beq now at o d c).cache
          ≡ M.cache.get k c.cache
    apart_same d c k h =
        hydrate_query_effect M S encode decode beq now at o d c k ∙ apart_effect d d.data_json c k h

    none_same :
        (k : Text) (ds : List DehydratedQuery) (c : Client M)
        → Holds k none ds
        → M.cache.get k (hydrate_all ds c).cache ≡ M.cache.get k c.cache
    unfolding for_each
    none_same k [] c h = refl
    none_same k (d ∷ ds) c (other o' d' ds' h rest) =
        none_same k ds (hydrate_query M S encode decode beq now at o d c) rest ∙ apart_same d c k h

    data-default_options :
        (d : DehydratedQuery) (json : Option Text) (c : Client M)
        → (hydrate_data M S encode decode beq now at o d json c).default_options ≡ c.default_options
    unfolding hydrate_data write_payload restore_entry_staleness set_query_data notify_subscribers
    data-default_options d none c = refl
    data-default_options d (some json) c =
        if_holds (λ (x : Client M). x.default_options ≡ c.default_options)
          (not (payload_wins now at d o (M.cache.get d.query_hash c.cache))) _ _ (λ e. refl)
          (λ e. refl)

    hydrate_query-default_options :
        (d : DehydratedQuery) (c : Client M)
        → (hydrate_query M S encode decode beq now at o d c).default_options ≡ c.default_options
    unfolding hydrate_query
    hydrate_query-default_options d c =
        if_holds (λ (x : Client M). x.default_options ≡ c.default_options)
          (not (lets_in o.should_hydrate d.query_hash)) _ _ (λ e. refl)
          (λ e. data-default_options d d.data_json c)

    -- Hydrating the payload of a key alone: at some client that has the same entry of the key.
    one_effect :
        (k : Text) (d : DehydratedQuery) (ds : List DehydratedQuery) (c : Client M)
        → Holds k (some d) ds
        → (c' : Client M) × (M.cache.get k c'.cache ≡ M.cache.get k c.cache)
          × (c'.default_options ≡ c.default_options)
          × (M.cache.get k (hydrate_all ds c).cache
              ≡ M.cache.get k (hydrate_query M S encode decode beq now at o d c').cache)
    unfolding for_each
    one_effect k d [] c h = elim h [ ]
    one_effect k d (d' ∷ ds) c (other o' d'' ds' h rest) =
        let c1 = hydrate_query M S encode decode beq now at o d' c in
        let (c', same, defaults, ends) = one_effect k d ds c1 rest in
        (c', same ∙ apart_same d' c k h, defaults ∙ hydrate_query-default_options d' c, ends)
    one_effect k d (d' ∷ ds) c (mine d'' ds' h rest) =
        (c, refl, refl, none_same k ds (hydrate_query M S encode decode beq now at o d c) rest)

module _ {V : Type 0} (M : Tables V) (S : Payload V Text) (encode : Text → Text)
    (decode : Text → Option Text) (beq : ℕ → V → V → Bool) where
  -- A key without an entry in the client that is dehydrated keeps what it has in the other one.
  absent_stays :
      (before wall now : ℕ) (k : Text) (out : DehydrateOptions) (o : HydrateOptions)
      (c c' : Client M)
      → M.cache.get k c.cache ≡ none
      → M.cache.get k
          (hydrate_state M S encode decode beq now
            (dehydrate_state M S encode decode before wall c out)
            o
            c').cache
        ≡ M.cache.get k c'.cache
  unfolding hydrate_state dehydrate_state hydrate_mutations for_each
  absent_stays before wall now k out o c c' absent =
      let held = state-Holds M S encode decode before wall out k c in
      none_same M S encode decode beq now wall o k
        (dehydrate_state M S encode decode before wall c out).queries c'
        (subst
          (λ x.
            Holds k
              (kept out.should_dehydrate_query
                (Option.map (dehydrated M S encode decode before wall out k) x))
              (dehydrate_state M S encode decode before wall c out).queries)
          absent held)

  -- Of a whole client that is dehydrated without a hook and hydrated into another one, every entry with a
  -- text which the options let through comes back with its value, flag, age and times, whatever else is
  -- cached, if the other client has no entry of its key and no default options.
  pub hydrate_state-dehydrate_state :
      (before wall now : ℕ) (k t : Text) (e : CacheEntry V) (out : DehydrateOptions)
      (o : HydrateOptions) (c c' : Client M)
      → M.cache.get k c.cache ≡ some e
      → downcast S.type_id e.data_of ≡ some (S.inject t)
      → out.serialize_data ≡ none
      → out.should_dehydrate_query
          (dehydrate_cache_entry M S encode decode before wall k e none out)
        ≡ true
      → ((x : Text) → decode (encode x) ≡ some x)
      → as_millis (before - e.fetched_at) ≤ wall
      → millis (as_millis (before - e.fetched_at)) ≤ now
      → M.cache.get k c'.cache ≡ none
      → c'.default_options ≡ none
      → lets_in o.should_hydrate k ≡ true
      → (e' : CacheEntry V) × (M.cache.get k
            (hydrate_state M S encode decode beq now
              (dehydrate_state M S encode decode before wall c out)
              o
              c').cache
          ≡ some e')
        × ComesBack M S encode decode beq before now e e'
  unfolding hydrate_state dehydrate_state hydrate_mutations for_each
  hydrate_state-dehydrate_state before wall now k t e out o c c' there text hook through codec past
        young absent defaults filter =
      let d = dehydrated M S encode decode before wall out k e in
      let ds = (dehydrate_state M S encode decode before wall c out).queries in
      let held : Holds k (some d) ds =
        subst (λ b. Holds k (if b then some d else none) ds) through
          (subst
            (λ x.
              Holds k
                (kept out.should_dehydrate_query
                  (Option.map (dehydrated M S encode decode before wall out k) x))
                ds)
            there (state-Holds M S encode decode before wall out k c)) in
      let (c1, same, kept_defaults, ends) =
        one_effect M S encode decode beq now wall o k d ds c' held in
      let (e', found, back) =
        hydrate_query-dehydrate_cache_entry M S encode decode beq before wall now k t e out o c1
          text hook codec past young (same ∙ absent) (kept_defaults ∙ defaults) filter in
      (e', ends ∙ found, back)
