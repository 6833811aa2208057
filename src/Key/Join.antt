-- ===== src/Key/Join.antt =====
-- The cache key of a key is its joined segments, and splitting it gives the segments back exactly
-- when no segment hides a separator.
use rs_query.Base.{
  ℕ, ◌≡◌, refl, sym, ap, subst, ◌∙◌, ◌↔◌, Bool, false, ◌&&◌, ◌||◌, List, [], ◌∷◌, ◌++◌,
  append_assoc, append-nil, arith, Text, ◌==◌, Bool-cases, ◌⊎◌, inl, inr,
}
use rs_query.Key.{
  QueryKey, colon, separator, new, segment, fold_segments, from_segments, cons_first, split, join,
}

-- The key whose segments are `l`.
abbrev pub joined : List Text → QueryKey
joined l = record { segments = l; cache_key = join l }

join-snoc :
    (s : Text) (l : List Text) (t : Text)
    → join (s ∷ (l ++ t ∷ [])) ≡ join (s ∷ l) ++ (separator ++ t)
join-snoc s [] t = refl
join-snoc s (u ∷ l) t =
    ap (λ z. s ++ (separator ++ z)) (join-snoc u l t)
    ∙ sym (append_assoc s (separator ++ join (u ∷ l)) (separator ++ t))

pub segment-joined :
    (s : Text) (l : List Text) (t : Text) → segment (joined (s ∷ l)) t ≡ joined (s ∷ (l ++ t ∷ []))
unfolding segment
segment-joined s l t =
    λ i. record { segments = s ∷ (l ++ t ∷ []); cache_key = sym (join-snoc s l t) i }

fold_segments-joined :
    (s : Text) (l rest : List Text) → fold_segments (joined (s ∷ l)) rest ≡ joined (s ∷ (l ++ rest))
unfolding fold_segments
fold_segments-joined s l [] = rw (append-nil l)
fold_segments-joined s l (t ∷ rest) =
    ap (λ k. fold_segments k rest) (segment-joined s l t)
    ∙ fold_segments-joined s (l ++ t ∷ []) rest
    ∙ ap (λ m. joined (s ∷ m)) (append_assoc l (t ∷ []) rest)

-- `from_segments` keeps the segments as they are and joins them to the cache key.
pub from_segments-joined : (l : List Text) → from_segments l ≡ joined l
unfolding from_segments new
from_segments-joined [] = refl
from_segments-joined (s ∷ rest) = fold_segments-joined s [] rest

join-cons_first : (c : ℕ) (l : List Text) → join (cons_first c l) ≡ c ∷ join l
join-cons_first c [] = refl
join-cons_first c (s ∷ []) = refl
join-cons_first c (s ∷ t ∷ rest) = refl

abbrev NonEmpty : List Text → Type 0
NonEmpty l = (h : Text) × (t : List Text) × (l ≡ h ∷ t)

cons_first-NonEmpty : (c : ℕ) (l : List Text) → NonEmpty (cons_first c l)
cons_first-NonEmpty c [] = (c ∷ [], [], refl)
cons_first-NonEmpty c (s ∷ rest) = (c ∷ s, rest, refl)

split-NonEmpty : (s : Text) → NonEmpty (split s)
unfolding split
split-NonEmpty [] = ([], [], refl)
split-NonEmpty (x ∷ []) = (x ∷ [], [], refl)
split-NonEmpty (x ∷ y ∷ r) = elim (Bool-cases (x == colon && y == colon)) [
  | inl e ↦ ([], split r, rw (e, split))
  | inr e ↦ rw (e, split) (cons_first-NonEmpty x (split (y ∷ r)))
]

join-nil_cons : (l : List Text) → NonEmpty l → join ([] ∷ l) ≡ separator ++ join l
join-nil_cons [] ne = cc ne.2
join-nil_cons (t ∷ rest) ne = refl

-- Splitting and joining again gives every text back.
pub join-split : (s : Text) → join (split s) ≡ s
unfolding split
join-split [] = refl
join-split (x ∷ []) = refl
join-split (x ∷ y ∷ r) = elim (Bool-cases (x == colon && y == colon)) [
  | inl e ↦
      rw (e, split) (join-nil_cons (split r) (split-NonEmpty r) ∙ ground (arith, join-split r))
  | inr e ↦ rw (e, split) (join-cons_first x (split (y ∷ r)) ∙ ap (◌∷◌ x) (join-split (y ∷ r)))
]

-- `"::"` stands somewhere in the text.
abbrev pub has_separator : Text → Bool
has_separator [] = false
has_separator (x ∷ []) = false
has_separator (x ∷ y ∷ r) = (x == colon && y == colon) || has_separator (y ∷ r)

-- The only leftmost separators of the joined segments are those that joined them: no segment holds
-- one, and none but the last ends in a colon.
abbrev pub Separable : List Text → Type 0
Separable [] = ⊥
Separable (s ∷ []) = has_separator s ≡ false
Separable (s ∷ t ∷ rest) = (has_separator (s ++ colon ∷ []) ≡ false) × Separable (t ∷ rest)

split-plain : (s : Text) → has_separator s ≡ false → split s ≡ s ∷ []
unfolding split
split-plain [] h = refl
split-plain (x ∷ []) h = refl
split-plain (x ∷ y ∷ r) h = ground (arith, split-plain (y ∷ r))

split-segment :
    (s u : Text)
    → has_separator (s ++ colon ∷ []) ≡ false
    → split (s ++ (separator ++ u)) ≡ s ∷ split u
unfolding split
split-segment [] u h = refl
split-segment (x ∷ []) u h = ground arith
split-segment (x ∷ y ∷ r) u h = ground (arith, split-segment (y ∷ r) u)

pub split-join : (l : List Text) → Separable l → split (join l) ≡ l
split-join [] h = absurd h
split-join (s ∷ []) h = split-plain s h
split-join (s ∷ t ∷ rest) h =
    split-segment s (join (t ∷ rest)) h.0 ∙ ap (◌∷◌ s) (split-join (t ∷ rest) h.1)

-- The first piece of a text either is empty, at a colon, or begins as the text does.
abbrev Begins : ℕ → List Text → Type 0
Begins y l =
    ((y ≡ colon) × (t : List Text) × (l ≡ [] ∷ t))
    ⊎ ((h : Text) × (t : List Text) × (l ≡ (y ∷ h) ∷ t))

cons_first-Begins : (y : ℕ) (l : List Text) → Begins y (cons_first y l)
cons_first-Begins y [] = inr ([], [], refl)
cons_first-Begins y (s ∷ rest) = inr (s, rest, refl)

split-Begins : (y : ℕ) (r : Text) → Begins y (split (y ∷ r))
unfolding split
split-Begins y [] = inr ([], [], refl)
split-Begins y (z ∷ r) = elim (Bool-cases (y == colon && z == colon)) [
  | inl e ↦ rw (e, split) (inl (ground arith, split r, refl))
  | inr e ↦ rw (e, split) (cons_first-Begins y (split (z ∷ r)))
]

nil_cons-Separable : (l : List Text) → NonEmpty l → Separable l → Separable ([] ∷ l)
nil_cons-Separable [] ne h = absurd h
nil_cons-Separable (t ∷ rest) ne h = (refl, h)

cons_first-Separable :
    (x y : ℕ) (l : List Text)
    → (x == colon && y == colon) ≡ false
    → Begins y l
    → Separable l
    → Separable (cons_first x l)
cons_first-Separable x y [] e b h = absurd h
cons_first-Separable x y ([] ∷ []) e b h = refl
cons_first-Separable x y ((c ∷ s) ∷ []) e b h = ground arith
cons_first-Separable x y ([] ∷ t ∷ rest) e b h = (ground arith, h.1)
cons_first-Separable x y ((c ∷ s) ∷ t ∷ rest) e b h = (ground arith, h.1)

split-Separable : (s : Text) → Separable (split s)
unfolding split
split-Separable [] = refl
split-Separable (x ∷ []) = refl
split-Separable (x ∷ y ∷ r) = elim (Bool-cases (x == colon && y == colon)) [
  | inl e ↦ rw (e, split) (nil_cons-Separable (split r) (split-NonEmpty r) (split-Separable r))
  | inr e ↦
      rw (e, split)
        (cons_first-Separable x y (split (y ∷ r)) e (split-Begins y r) (split-Separable (y ∷ r)))
]

-- Splitting the joined segments gives them back exactly when they are separable: there is one, none
-- holds `"::"`, and none before the last ends in a colon.
pub split-join_iff : (l : List Text) → (split (join l) ≡ l) ↔ Separable l
split-join_iff l = (λ e. subst Separable e (split-Separable (join l)), split-join l)
