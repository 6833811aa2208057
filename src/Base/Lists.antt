-- ===== src/Base/Lists.antt =====
-- Lists measured by native numbers, under the library's names, and predicates by recursion.
use Prim.Native.Nat.{ℕ, zero, suc, ◌+◌, ◌-◌, ◌≤◌}
use mathlib.Core.Path.{◌≡◌, refl, ap, ◌∙◌}
use mathlib.Core.Logic.{inl, inr}
use mathlib.Core.Bool.{Bool}
use mathlib.Core.List.{List, [], ◌∷◌, ◌++◌, map}
use mathlib.Core.Option.{Option, none, some}
use native.Mathlib.Omega.{arith}
use rs_query.Base.Tests.{if◌then◌else◌, Bool-cases}

module _ {ℓ} {A : Type ℓ} where
  abbrev pub length : List A → ℕ
  length [] = 0
  length (x ∷ xs) = suc (length xs)

  abbrev pub take : ℕ → List A → List A
  take zero xs = []
  take (suc n) [] = []
  take (suc n) (x ∷ xs) = x ∷ take n xs

  abbrev pub drop : ℕ → List A → List A
  drop zero xs = xs
  drop (suc n) [] = []
  drop (suc n) (x ∷ xs) = drop n xs

  abbrev pub tail_of : List A → List A
  tail_of [] = []
  tail_of (x ∷ xs) = xs

  abbrev pub head? : List A → Option A
  head? [] = none
  head? (x ∷ xs) = some x

  abbrev pub get_last? : List A → Option A
  get_last? [] = none
  get_last? (x ∷ []) = some x
  get_last? (x ∷ y ∷ xs) = get_last? (y ∷ xs)

  abbrev pub get_elem? : List A → ℕ → Option A
  get_elem? [] i = none
  get_elem? (x ∷ xs) zero = some x
  get_elem? (x ∷ xs) (suc i) = get_elem? xs i

  -- A write out of bounds changes nothing.
  abbrev pub set : List A → ℕ → A → List A
  set [] i v = []
  set (x ∷ xs) zero v = v ∷ xs
  set (x ∷ xs) (suc i) v = x ∷ set xs i v

  -- The elements that pass a Boolean test, in their order.
  abbrev pub select : (A → Bool) → List A → List A
  select p [] = []
  select p (x ∷ xs) = let rest = select p xs in if p x then x ∷ rest else rest

  abbrev pub All {κ} : (A → Type κ) → List A → Type κ
  All P [] = Unit
  All P (x ∷ xs) = P x × All P xs

  pub length-append : (xs ys : List A) → length (xs ++ ys) ≡ length xs + length ys
  length-append [] ys = omega arith
  length-append (x ∷ xs) ys = omega (arith, length-append xs ys)

  pub length-drop : (n : ℕ) (xs : List A) → length (drop n xs) ≡ length xs - n
  length-drop zero xs = omega arith
  length-drop (suc n) [] = omega arith
  length-drop (suc n) (x ∷ xs) = omega (arith, length-drop n xs)

  pub take-append : (xs ys : List A) → take (length xs) (xs ++ ys) ≡ xs
  take-append [] ys = refl
  take-append (x ∷ xs) ys = ap (◌∷◌ x) (take-append xs ys)

  pub take-append-drop : (n : ℕ) (xs : List A) → take n xs ++ drop n xs ≡ xs
  take-append-drop zero xs = refl
  take-append-drop (suc n) [] = refl
  take-append-drop (suc n) (x ∷ xs) = ap (◌∷◌ x) (take-append-drop n xs)

  pub length-select-le : (p : A → Bool) (xs : List A) → length (select p xs) ≤ length xs
  length-select-le p [] = omega arith
  length-select-le p (x ∷ xs) = ground (arith, length-select-le p xs)

-- What a property implies holds as widely.
pub All-mono {ℓ κ μ} :
    {A : Type ℓ} {P : A → Type κ} {Q : A → Type μ} (h : (x : A) → P x → Q x) (xs : List A)
    → All P xs
    → All Q xs
All-mono h [] a = tt
All-mono h (x ∷ xs) a = (h x a.0, All-mono h xs a.1)

-- `for x in xs { ... }` over a state.
module _ {ℓ κ} {A : Type ℓ} {S : Type κ} where
  unfoldable pub for_each : List A → (A → S → S) → S → S
  for_each [] body s = s
  for_each (x ∷ xs) body s = for_each xs body (body x s)

-- A part of the state on which the body acts by `g` alone goes through the same loop.
pub for_each_part {ℓ κ μ} :
    {A : Type ℓ} {S : Type κ} {P : Type μ} (part : S → P) (body : A → S → S) (g : A → P → P)
    → ((x : A) (s : S) → part (body x s) ≡ g x (part s))
    → (xs : List A) (s : S) → part (for_each xs body s) ≡ for_each xs g (part s)
unfolding for_each
for_each_part part body g h [] s = refl
for_each_part part body g h (x ∷ xs) s =
    for_each_part part body g h xs (body x s) ∙ ap (for_each xs g) (h x s)

pub for_each-map {ℓ κ μ} :
    {A : Type ℓ} {B : Type κ} {S : Type μ} (f : A → B) (body : B → S → S) (xs : List A) (s : S)
    → for_each xs (λ x. body (f x)) s ≡ for_each (map f xs) body s
unfolding for_each
for_each-map f body [] s = refl
for_each-map f body (x ∷ xs) s = for_each-map f body xs (body (f x) s)

pub for_each-select {ℓ κ} :
    {A : Type ℓ} {S : Type κ} (p : A → Bool) (body : A → S → S) (xs : List A) (s : S)
    → for_each xs (λ x t. if p x then body x t else t) s ≡ for_each (select p xs) body s
unfolding for_each
for_each-select p body [] s = refl
for_each-select p body (x ∷ xs) s = elim (Bool-cases (p x)) [
  | inl e ↦ rw e (for_each-select p body xs (body x s))
  | inr e ↦ rw e (for_each-select p body xs s)
]
