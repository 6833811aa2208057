-- ===== src/Filters/Meaning.antt =====
-- What the filters select: the criteria as a conjunction.
use rs_query.Base.{
  ◌&&◌, not, ◌≡◌, refl, ◌↔◌, Bool, true, false, Option, none, some, arith, texts_eq_iff,
  text_eq_iff,
}
use rs_query.Key.{QueryKey, key_eq}
use rs_query.Key.Prefix.{Extends, starts_with_iff}
use rs_query.State.{
  query_status_eq, fetch_status_eq, mutation_status_eq, query_status_eq_sound, query_status_eq_self,
  fetch_status_eq_sound, fetch_status_eq_self, mutation_status_eq_sound, mutation_status_eq_self,
}
use rs_query.Filters.{
  QueryType, QuerySnapshot, QueryFilters, MutationSnapshot, MutationFilters, key_matches,
  type_matches, wanted, bool_eq, match_criteria, match_query, key_or_empty, match_mutation_criteria,
  match_mutation,
}

key_eq_sound : (a b : QueryKey) → key_eq a b ≡ true → a ≡ b
unfolding key_eq
key_eq_sound a b h =
    ground (arith, texts_eq_iff a.segments b.segments, text_eq_iff a.cache_key b.cache_key)

key_eq_self : (a : QueryKey) → key_eq a a ≡ true
unfolding key_eq
key_eq_self a =
    ground (arith, texts_eq_iff a.segments a.segments, text_eq_iff a.cache_key a.cache_key)

-- The key criterion: none, the very key, or a key that continues it by segments.
abbrev pub KeyFits : Option QueryKey → QueryKey → Bool → Type 0
KeyFits none k exact = Unit {0}
KeyFits (some f) k true = f ≡ k
KeyFits (some f) k false = Extends k.segments f.segments

pub key_matches_sound :
    (f : Option QueryKey) (k : QueryKey) (exact : Bool)
    → key_matches f k exact ≡ true
    → KeyFits f k exact
unfolding key_matches
key_matches_sound none k exact h = tt
key_matches_sound (some f) k true h = key_eq_sound f k h
key_matches_sound (some f) k false h = (starts_with_iff k f).0 h

pub key_matches_complete :
    (f : Option QueryKey) (k : QueryKey) (exact : Bool)
    → KeyFits f k exact
    → key_matches f k exact ≡ true
unfolding key_matches
key_matches_complete none k exact h = refl
key_matches_complete (some f) k true h = rw h (key_eq_self k)
key_matches_complete (some f) k false h = (starts_with_iff k f).1 h

abbrev pub TypeFits : QueryType → Bool → Type 0
TypeFits QueryType.all a = Unit {0}
TypeFits QueryType.active a = a ≡ true
TypeFits QueryType.inactive a = a ≡ false

abbrev pub StaleFits : (asked found : Bool) → Type 0
StaleFits true found = found ≡ true
StaleFits false found = Unit {0}

stale_iff : (asked found : Bool) → ((asked && not found) ≡ false) ↔ StaleFits asked found
stale_iff true found = (λ h. ground arith, λ h. ground arith)
stale_iff false found = (λ h. tt, λ h. refl)

-- A criterion that is not set fits everything.
abbrev pub Fits {ℓ} : {A : Type ℓ} → Option A → A → Type ℓ
Fits none found = Unit
Fits (some x) found = found ≡ x

-- What a query filter without predicate asks of a snapshot.
pub record Selected (s : QuerySnapshot) (f : QueryFilters) : Type 0 where
  pub key : KeyFits f.query_key s.key f.exact
  pub type : TypeFits f.query_type s.is_active
  pub staleness : StaleFits f.stale s.is_stale
  pub fetch_status : Fits f.fetch_status s.fetch_status
  pub status : Fits f.status s.status

type_matches_iff : (t : QueryType) (a : Bool) → (type_matches t a ≡ true) ↔ TypeFits t a
unfolding type_matches
type_matches_iff QueryType.all a = (λ h. tt, λ h. refl)
type_matches_iff QueryType.active a = (λ h. h, λ h. h)
type_matches_iff QueryType.inactive true = (λ h. cc, λ h. cc)
type_matches_iff QueryType.inactive false = (λ h. refl, λ h. refl)

module _ {ℓ} {A : Type ℓ} (eq : A → A → Bool) (sound : (a b : A) → eq a b ≡ true → a ≡ b)
    (same : (a : A) → eq a a ≡ true) where
  wanted_iff : (o : Option A) (found : A) → (wanted eq o found ≡ true) ↔ Fits o found
  wanted_iff none found = (λ h. tt, λ h. refl)
  wanted_iff (some x) found = (λ h. sound found x h, λ h. rw h (same x))

match_criteria-Selected :
    (s : QuerySnapshot) (f : QueryFilters) → match_criteria s f ≡ true → Selected s f
unfolding match_criteria
match_criteria-Selected s f h = record {
  key = key_matches_sound f.query_key s.key f.exact (ground arith);
  type = (type_matches_iff f.query_type s.is_active).0 (ground arith);
  staleness = (stale_iff f.stale s.is_stale).0 (ground arith);
  fetch_status =
      (wanted_iff fetch_status_eq fetch_status_eq_sound fetch_status_eq_self _ _).0 (ground arith);
  status =
      (wanted_iff query_status_eq query_status_eq_sound query_status_eq_self _ _).0 (ground arith);
}

Selected-match_criteria :
    (s : QuerySnapshot) (f : QueryFilters) → Selected s f → match_criteria s f ≡ true
unfolding match_criteria
Selected-match_criteria s f h = ground (
  arith,
  key_matches_complete f.query_key s.key f.exact h.key,
  (type_matches_iff f.query_type s.is_active).1 h.type,
  (stale_iff f.stale s.is_stale).1 h.staleness,
  (wanted_iff fetch_status_eq fetch_status_eq_sound fetch_status_eq_self f.fetch_status
        s.fetch_status).1
      h.fetch_status,
  (wanted_iff query_status_eq query_status_eq_sound query_status_eq_self f.status s.status).1
      h.status,
)

-- Without a predicate, a snapshot matches a filter exactly when it meets every criterion that is
-- set: the key (equal if exact, else continuing the filter's key by segments), the activity, the
-- staleness, the fetch status and the status.
pub match_query_iff :
    (s : QuerySnapshot) (f : QueryFilters)
    → f.predicate ≡ none
    → (match_query s f ≡ true) ↔ Selected s f
unfolding match_query
match_query_iff s f e = (
  λ h. match_criteria-Selected s f (rw (e, match_query) at h),
  λ h. rw (e, match_query) (Selected-match_criteria s f h),
)

-- What a mutation filter without predicate asks of a snapshot; a mutation without a key has the
-- empty one.
pub record MutationSelected (s : MutationSnapshot) (f : MutationFilters) : Type 0 where
  pub key : KeyFits f.mutation_key (key_or_empty s.mutation_key) f.exact
  pub status : Fits f.status s.status
  pub paused : Fits f.is_paused s.is_paused

bool_eq_sound : (a b : Bool) → bool_eq a b ≡ true → a ≡ b
bool_eq_sound a b h = ground arith

bool_eq_self : (a : Bool) → bool_eq a a ≡ true
bool_eq_self a = ground arith

match_mutation_criteria-Selected :
    (s : MutationSnapshot) (f : MutationFilters)
    → match_mutation_criteria s f ≡ true
    → MutationSelected s f
unfolding match_mutation_criteria
match_mutation_criteria-Selected s f h = record {
  key = key_matches_sound f.mutation_key (key_or_empty s.mutation_key) f.exact (ground arith);
  status =
      (wanted_iff mutation_status_eq mutation_status_eq_sound mutation_status_eq_self _ _).0
        (ground arith);
  paused = (wanted_iff bool_eq bool_eq_sound bool_eq_self _ _).0 (ground arith);
}

Selected-match_mutation_criteria :
    (s : MutationSnapshot) (f : MutationFilters)
    → MutationSelected s f
    → match_mutation_criteria s f ≡ true
unfolding match_mutation_criteria
Selected-match_mutation_criteria s f h = ground (
  arith,
  key_matches_complete f.mutation_key (key_or_empty s.mutation_key) f.exact h.key,
  (wanted_iff mutation_status_eq mutation_status_eq_sound mutation_status_eq_self f.status
        s.status).1
      h.status,
  (wanted_iff bool_eq bool_eq_sound bool_eq_self f.is_paused s.is_paused).1 h.paused,
)

-- Without a predicate, a mutation matches a filter exactly when its key (the empty key, if it has
-- none), its status and its pausing meet every criterion that is set.
match_mutation_iff :
    (s : MutationSnapshot) (f : MutationFilters)
    → f.predicate ≡ none
    → (match_mutation s f ≡ true) ↔ MutationSelected s f
unfolding match_mutation
match_mutation_iff s f e = (
  λ h. match_mutation_criteria-Selected s f (rw (e, match_mutation) at h),
  λ h. rw (e, match_mutation) (Selected-match_mutation_criteria s f h),
)
