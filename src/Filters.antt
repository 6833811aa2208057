-- ===== src/Filters.antt =====
-- src/filters.rs: the filters of bulk operations and how a snapshot of a query or of a mutation is
-- matched against them. A predicate is a function of the snapshot, as in the source.
pub mod Meaning
use rs_query.Base.{Bool, true, false, ◌&&◌, not, Option, none, some, [], if◌then◌else◌, is_some}
use rs_query.Key.{QueryKey, new, starts_with, key_eq}
use rs_query.State.{
  QueryStatus, FetchStatus, MutationStatus, query_status_eq, fetch_status_eq, mutation_status_eq,
}

pub data QueryType : Type 0 where
  all active inactive : QueryType

pub data RefetchType : Type 0 where
  all active inactive nothing : RefetchType  -- `nothing` is the source's `None`

pub record QuerySnapshot : Type 0 where
  pub key : QueryKey
  pub is_active : Bool
  pub is_stale : Bool
  pub fetch_status : FetchStatus
  pub status : QueryStatus
  pub has_data : Bool

pub record QueryFilters : Type 0 where
  pub query_key : Option QueryKey
  pub exact : Bool
  pub query_type : QueryType
  pub stale : Bool
  pub fetch_status : Option FetchStatus
  pub status : Option QueryStatus
  pub predicate : Option (QuerySnapshot → Bool)

-- `QueryFilters::default`, which `all` returns.
abbrev pub all_queries : QueryFilters
all_queries = record {
  query_key = none;
  exact = false;
  query_type = QueryType.all;
  stale = false;
  fetch_status = none;
  status = none;
  predicate = none;
}

-- The builders.
unfoldable pub with_key : QueryKey → QueryFilters
with_key key = record all_queries { query_key = some key }

unfoldable pub only_exact : QueryFilters → QueryFilters
only_exact f = record f { exact = true }

unfoldable pub only_active : QueryFilters → QueryFilters
only_active f = record f { query_type = QueryType.active }

unfoldable pub only_inactive : QueryFilters → QueryFilters
only_inactive f = record f { query_type = QueryType.inactive }

unfoldable pub only_stale : QueryFilters → QueryFilters
only_stale f = record f { stale = true }

unfoldable pub with_fetch_status : FetchStatus → QueryFilters → QueryFilters
with_fetch_status s f = record f { fetch_status = some s }

unfoldable pub with_status : QueryStatus → QueryFilters → QueryFilters
with_status s f = record f { status = some s }

unfoldable pub with_predicate : (QuerySnapshot → Bool) → QueryFilters → QueryFilters
with_predicate p f = record f { predicate = some p }

pub record InvalidateQueryFilters : Type 0 where
  pub filters : QueryFilters
  pub refetch_type : RefetchType

-- `InvalidateQueryFilters::new`: active queries are refetched.
abbrev pub invalidate_default : InvalidateQueryFilters
invalidate_default = record { filters = all_queries; refetch_type = RefetchType.active }

pub record RefetchQueryFilters : Type 0 where
  pub filters : QueryFilters
  pub cancel_refetch : Bool
  pub throw_on_error : Bool

-- `RefetchQueryFilters::new`.
abbrev pub refetch_default : RefetchQueryFilters
refetch_default = record { filters = all_queries; cancel_refetch = true; throw_on_error = false }

pub record MutationSnapshot : Type 0 where
  pub mutation_key : Option QueryKey
  pub status : MutationStatus
  pub is_paused : Bool

pub record MutationFilters : Type 0 where
  pub mutation_key : Option QueryKey
  pub exact : Bool
  pub status : Option MutationStatus
  pub is_paused : Option Bool
  pub predicate : Option (MutationSnapshot → Bool)

abbrev pub all_mutations : MutationFilters
all_mutations = record {
  mutation_key = none;
  exact = false;
  status = none;
  is_paused = none;
  predicate = none;
}

-- `EMPTY_KEY`: the key of a mutation without one.
unfoldable pub empty_key : QueryKey
unfolding new
empty_key = new []

unfoldable pub key_matches : Option QueryKey → QueryKey → Bool → Bool
key_matches none candidate exact = true
key_matches (some filter) candidate exact =
    if exact then key_eq filter candidate else starts_with candidate filter

-- The `match` on `query_type`: may matching go on?
unfoldable pub type_matches : QueryType → Bool → Bool
type_matches QueryType.active is_active = is_active
type_matches QueryType.inactive is_active = not is_active
type_matches QueryType.all is_active = true

abbrev pub bool_eq : Bool → Bool → Bool
bool_eq true b = b
bool_eq false b = not b

-- `if let Some(x) = wanted && x != found { return false }`: may matching go on?
abbrev pub wanted {ℓ} : {A : Type ℓ} → (A → A → Bool) → Option A → A → Bool
wanted eq none found = true
wanted eq (some x) found = eq found x

-- `match_query` without a predicate: its guards in their order.
unfoldable pub match_criteria : QuerySnapshot → QueryFilters → Bool
match_criteria s f =
    if not (key_matches f.query_key s.key f.exact)
    then false
    else if not (type_matches f.query_type s.is_active)
    then false
    else if f.stale && not s.is_stale
    then false
    else if not (wanted fetch_status_eq f.fetch_status s.fetch_status)
    then false
    else wanted query_status_eq f.status s.status

unfoldable pub match_query : QuerySnapshot → QueryFilters → Bool
unfolding match_criteria
match_query s f = elim f.predicate [ some p ↦ p s | none ↦ match_criteria s f ]

abbrev pub key_or_empty : Option QueryKey → QueryKey
key_or_empty none = empty_key
key_or_empty (some k) = k

unfoldable pub match_mutation_criteria : MutationSnapshot → MutationFilters → Bool
match_mutation_criteria s f =
    if not (key_matches f.mutation_key (key_or_empty s.mutation_key) f.exact)
    then false
    else if not (wanted mutation_status_eq f.status s.status)
    then false
    else wanted bool_eq f.is_paused s.is_paused

unfoldable pub match_mutation : MutationSnapshot → MutationFilters → Bool
unfolding match_mutation_criteria
match_mutation s f = elim f.predicate [ some p ↦ p s | none ↦ match_mutation_criteria s f ]
