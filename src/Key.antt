-- ===== src/Key.antt =====
-- src/key.rs: hierarchical query keys, their pre-computed cache key, and the way back from a cache
-- key to segments that `QueryClient::entry_snapshot` takes (`cache_key.split("::")`).
pub mod Join
pub mod Prefix
use rs_query.Base.{
  ℕ, ◌≡◌, Bool, true, false, ◌&&◌, List, [], ◌∷◌, ◌++◌, Text, leb, ◌==◌, length, take, text_eq,
  texts_eq,
}

pub record QueryKey : Type 0 where
  pub segments : List Text
  pub cache_key : Text

-- The separator `"::"`, and the sign of `format!("{}={}")`.
abbrev pub colon : ℕ
colon = b':'

abbrev pub separator : Text
separator = colon ∷ colon ∷ []

-- `QueryKey::new`.
unfoldable pub new : Text → QueryKey
new segment = record { segments = segment ∷ []; cache_key = segment }

-- `QueryKey::segment`.
unfoldable pub segment : QueryKey → Text → QueryKey
segment k name = record {
  segments = k.segments ++ name ∷ [];
  cache_key = k.cache_key ++ (separator ++ name);
}

-- `QueryKey::with`; `value` is the text that the caller's `Display` prints.
unfoldable pub with_param : QueryKey → Text → Text → QueryKey
with_param k label value =
    let param : Text = label ++ (b'=' ∷ value) in
    record { segments = k.segments ++ param ∷ []; cache_key = k.cache_key ++ (separator ++ param) }

-- `iter.fold(first, QueryKey::segment)`.
unfoldable pub fold_segments : QueryKey → List Text → QueryKey
fold_segments k [] = k
fold_segments k (s ∷ rest) = fold_segments (segment k s) rest

-- `QueryKey::from_segments`.
unfoldable pub from_segments : List Text → QueryKey
from_segments [] = record { segments = []; cache_key = [] }
from_segments (first ∷ rest) = fold_segments (new first) rest

-- `QueryKey::starts_with`.
unfoldable pub starts_with : QueryKey → QueryKey → Bool
starts_with k prefix =
    let n = length prefix.segments in
    leb n (length k.segments) && texts_eq (take n k.segments) prefix.segments

-- The derived `PartialEq`.
unfoldable pub key_eq : QueryKey → QueryKey → Bool
key_eq a b = texts_eq a.segments b.segments && text_eq a.cache_key b.cache_key

abbrev cons_first : ℕ → List Text → List Text
cons_first c [] = (c ∷ []) ∷ []
cons_first c (s ∷ rest) = (c ∷ s) ∷ rest

-- `str::split("::")`: the pieces between the leftmost separators that do not overlap.
unfoldable pub split : Text → List Text
split [] = [] ∷ []
split (x ∷ []) = (x ∷ []) ∷ []
split (x ∷ y ∷ r) = elim (x == colon && y == colon) [
  | true ↦ [] ∷ split r
  | false ↦ cons_first x (split (y ∷ r))
]

-- The segments in a row, with the separator between them.
abbrev pub join : List Text → Text
join [] = []
join (s ∷ []) = s
join (s ∷ t ∷ rest) = s ++ (separator ++ join (t ∷ rest))

-- A key as the constructors build it: the cache key is the joined segments.
abbrev pub IsJoined : QueryKey → Type 0
IsJoined k = k.cache_key ≡ join k.segments
