-- ===== src/Infinite/Pages.antt =====
-- The page limit keeps pages and parameters together and leaves the newest pages.
use rs_query.Base.{
  ℕ, zero, suc, ◌-◌, ◌≤◌, ◌≡◌, refl, sym, ap, ◌∙◌, some, List, [], ◌∷◌, ◌++◌, arith, ltb, ltb→lt,
  length, length-append, length-drop, take, drop, inl, inr, Bool-cases,
}
use rs_query.Infinite.{
  InfiniteData, init_of, push_page, trim_front, trim_back, append_page, prepend_page,
}

-- Each page has its parameter.
abbrev pub Aligned : {T P : Type 0} → InfiniteData T P → Type 0
Aligned d = length d.pages ≡ length d.page_params

length-init : {A : Type 0} (x : A) (xs : List A) → length (init_of (x ∷ xs)) ≡ length xs
length-init x [] = refl
length-init x (y ∷ xs) = ap suc (length-init y xs)

take-init :
    {A : Type 0} (n : ℕ) (x : A) (xs : List A)
    → n ≤ length xs
    → take n (init_of (x ∷ xs)) ≡ take n (x ∷ xs)
take-init zero x xs h = refl
take-init (suc n) x [] h = absurd (omega arith)
take-init (suc n) x (y ∷ xs) h = ap (◌∷◌ x) (take-init n y xs (omega arith))

take-nil : {A : Type 0} (n : ℕ) → take {A = A} n [] ≡ []
take-nil zero = refl
take-nil (suc n) = refl

take_all : {A : Type 0} (n : ℕ) (xs : List A) → length xs ≤ n → take n xs ≡ xs
take_all n [] h = take-nil n
take_all zero (x ∷ xs) h = absurd (omega arith)
take_all (suc n) (x ∷ xs) h = ap (◌∷◌ x) (take_all n xs (omega arith))

length-take-le : {A : Type 0} (n : ℕ) (xs : List A) → length (take n xs) ≤ n
length-take-le zero xs = omega arith
length-take-le (suc n) [] = omega arith
length-take-le (suc n) (x ∷ xs) = omega (arith, length-take-le n xs)

length-take :
    {A B : Type 0} (n : ℕ) (xs : List A) (ys : List B)
    → length xs ≡ length ys
    → length (take n xs) ≡ length (take n ys)
length-take zero xs ys e = refl
length-take (suc n) [] [] e = refl
length-take (suc n) (x ∷ xs) (y ∷ ys) e = ap suc (length-take n xs ys (omega arith))
length-take (suc n) [] (y ∷ ys) e = absurd (omega arith)
length-take (suc n) (x ∷ xs) [] e = absurd (omega arith)

module _ {T P : Type 0} where
  trim_front-drop :
      (max : ℕ) (pages : List T) (params : List P)
      → length pages ≡ length params
      → trim_front max pages params
        ≡ some (record {
          pages = drop (length pages - max) pages;
          page_params = drop (length pages - max) params;
        })
  unfolding trim_front
  trim_front-drop max [] params e = let z : 0 - max ≡ 0 = omega arith in rw z
  trim_front-drop max (x ∷ pages) [] e = cc
  trim_front-drop max (x ∷ pages) (q ∷ params) e =
      elim (Bool-cases (ltb max (length (x ∷ pages)))) [
        | inl more ↦
            let k : suc (length pages) - max ≡ suc (length pages - max) =
              omega (arith, ltb→lt max (suc (length pages)) more) in
            rw k (ground (arith, trim_front-drop max pages params (omega arith)))
        | inr fits ↦ let z : suc (length pages) - max ≡ 0 = ground arith in rw z (ground arith)
      ]

  trim_back-take :
      (fuel max : ℕ) (pages : List T) (params : List P)
      → length pages ≡ length params
      → length pages ≤ fuel
      → trim_back fuel max (record { pages = pages; page_params = params })
        ≡ record { pages = take max pages; page_params = take max params }
  unfolding trim_back
  trim_back-take zero max [] [] e h =
      let a = take-nil {A = T} max in let b = take-nil {A = P} max in cc
  trim_back-take zero max [] (q ∷ params) e h = absurd (omega arith)
  trim_back-take zero max (x ∷ pages) params e h = absurd (omega arith)
  trim_back-take (suc fuel) max [] [] e h =
      let a = take-nil {A = T} max in let b = take-nil {A = P} max in ground (arith, a, b)
  trim_back-take (suc fuel) max [] (q ∷ params) e h = absurd (omega arith)
  trim_back-take (suc fuel) max (x ∷ pages) [] e h = absurd (omega arith)
  trim_back-take (suc fuel) max (x ∷ pages) (q ∷ params) e h =
      elim (Bool-cases (ltb max (length (x ∷ pages)))) [
        | inl more ↦
            let b : max ≤ length pages = omega (arith, ltb→lt max (suc (length pages)) more) in
            let i = length-init x pages in
            let j = length-init q params in
            let rest =
              trim_back-take fuel max (init_of (x ∷ pages)) (init_of (q ∷ params))
                (i ∙ omega arith ∙ sym j) (omega arith) in
            let t = take-init max x pages b in
            let u = take-init max q params (omega arith) in rw more (rest ∙ cc)
        | inr fits ↦
            let t = take_all max (x ∷ pages) (ground arith) in
            let u = take_all max (q ∷ params) (ground arith) in rw (fits, t, u) refl
      ]

  -- On aligned data, appending under a limit never panics: it leaves the last `max` pages of the
  -- old ones followed by the new one, each with its parameter.
  pub append_page_lem :
      (max : ℕ) (page : T) (param : P) (d : InfiniteData T P)
      → Aligned d
      → append_page (some max) page param d
        ≡ some (record {
          pages = drop (suc (length d.pages) - max) (d.pages ++ page ∷ []);
          page_params = drop (suc (length d.pages) - max) (d.page_params ++ param ∷ []);
        })
  unfolding append_page push_page
  append_page_lem max page param d e =
      let l = length-append d.pages (page ∷ []) in
      let m = length-append d.page_params (param ∷ []) in
      let k : length (d.pages ++ page ∷ []) ≡ suc (length d.pages) = omega (arith, l) in
      let t =
        trim_front-drop max (d.pages ++ page ∷ []) (d.page_params ++ param ∷ [])
          (omega (arith, l, m, e)) in
      t ∙ rw k refl

  -- On aligned data, prepending under a limit leaves the first `max` pages of the new one followed by the old ones.
  pub prepend_page_lem :
      (max : ℕ) (page : T) (param : P) (d : InfiniteData T P)
      → Aligned d
      → prepend_page (some max) page param d ≡ record {
        pages = take max (page ∷ d.pages);
        page_params = take max (param ∷ d.page_params);
      }
  unfolding prepend_page
  prepend_page_lem max page param d e =
      trim_back-take (suc (length d.pages)) max (page ∷ d.pages) (param ∷ d.page_params) (ap suc e)
        (omega arith)

  -- Prepending and appending under a limit keep aligned data aligned and within the limit.
  pages_limited :
      (max : ℕ) (page : T) (param : P) (d : InfiniteData T P)
      → Aligned d
      → (Aligned (prepend_page (some max) page param d)
          × length (prepend_page (some max) page param d).pages ≤ max)
        × ((r : InfiniteData T P) × (append_page (some max) page param d ≡ some r)
            × Aligned r
            × (length r.pages ≤ max))
  pages_limited max page param d e =
      let l = length-append d.pages (page ∷ []) in
      let m = length-append d.page_params (param ∷ []) in
      let k = suc (length d.pages) - max in
      let a = length-drop k (d.pages ++ page ∷ []) in
      let b = length-drop k (d.page_params ++ param ∷ []) in
      let c = length-take-le max (page ∷ d.pages) in
      let f = length-take max (page ∷ d.pages) (param ∷ d.page_params) (ap suc e) in
      rw (prepend_page_lem max page param d e) (
        (f, c),
        (_, append_page_lem max page param d e, omega (arith, a, b, l, m, e), omega (arith, a, l)),
      )
