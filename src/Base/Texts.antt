-- ===== src/Base/Texts.antt =====
-- A `String` is the list of its code points; equality and prefixes of texts and of lists of texts.
use Prim.Native.Nat.{ℕ}
use mathlib.Core.Path.{◌≡◌, refl}
use mathlib.Core.Logic.{◌↔◌}
use mathlib.Core.Bool.{Bool, true, false, ◌&&◌}
use mathlib.Core.List.{List, [], ◌∷◌, ◌++◌}
use native.Mathlib.Omega.{arith}
use rs_query.Base.Tests.{◌==◌}

abbrev pub Text : Type 0
Text = List ℕ

-- Equality of slices, from that of their elements.
unfoldable pub list_eq {ℓ} : {A : Type ℓ} → (A → A → Bool) → List A → List A → Bool
list_eq eq [] [] = true
list_eq eq [] (y ∷ ys) = false
list_eq eq (x ∷ xs) [] = false
list_eq eq (x ∷ xs) (y ∷ ys) = eq x y && list_eq eq xs ys

pub list_eq_sound {ℓ} :
    {A : Type ℓ} (eq : A → A → Bool) (sound : (x y : A) → eq x y ≡ true → x ≡ y) (xs ys : List A)
    → list_eq eq xs ys ≡ true
    → xs ≡ ys
unfolding list_eq
list_eq_sound eq sound [] [] h = refl
list_eq_sound eq sound [] (y ∷ ys) h = cc
list_eq_sound eq sound (x ∷ xs) [] h = cc
list_eq_sound eq sound (x ∷ xs) (y ∷ ys) h = ground (arith, sound x y, list_eq_sound eq sound xs ys)

pub list_eq_self {ℓ} :
    {A : Type ℓ} (eq : A → A → Bool) (same : (x : A) → eq x x ≡ true) (xs : List A)
    → list_eq eq xs xs ≡ true
unfolding list_eq
list_eq_self eq same [] = refl
list_eq_self eq same (x ∷ xs) = ground (arith, same x, list_eq_self eq same xs)

unfoldable pub text_eq : Text → Text → Bool
unfolding list_eq
text_eq = list_eq ◌==◌

pub text_eq_self : (s : Text) → text_eq s s ≡ true
unfolding text_eq
text_eq_self s = list_eq_self ◌==◌ (λ x. ground arith) s

pub text_eq_sound : (s t : Text) → text_eq s t ≡ true → s ≡ t
unfolding text_eq
text_eq_sound s t h = list_eq_sound ◌==◌ (λ x y e. ground arith) s t h

pub text_eq_iff : (s t : Text) → (text_eq s t ≡ true) ↔ (s ≡ t)
text_eq_iff s t = (text_eq_sound s t, λ e. rw e (text_eq_self t))

unfoldable pub texts_eq : List Text → List Text → Bool
unfolding list_eq text_eq
texts_eq = list_eq text_eq

pub texts_eq_iff : (s t : List Text) → (texts_eq s t ≡ true) ↔ (s ≡ t)
unfolding texts_eq
texts_eq_iff s t =
    (list_eq_sound text_eq text_eq_sound s t, λ e. rw e (list_eq_self text_eq text_eq_self t))

-- `str::starts_with`: the second text begins with the first.
unfoldable pub text_starts_with : Text → Text → Bool
text_starts_with [] s = true
text_starts_with (p ∷ ps) [] = false
text_starts_with (p ∷ ps) (c ∷ s) = p == c && text_starts_with ps s

pub text_starts_with-append : (p s : Text) → text_starts_with p (p ++ s) ≡ true
unfolding text_starts_with
text_starts_with-append [] s = refl
text_starts_with-append (p ∷ ps) s = ground (arith, text_starts_with-append ps s)

pub text_starts_with_self : (s : Text) → text_starts_with s s ≡ true
unfolding text_starts_with
text_starts_with_self [] = refl
text_starts_with_self (c ∷ s) = ground (arith, text_starts_with_self s)
