-- ===== src/QueriesObserver/Marks.antt =====
-- What a run of some indices does: it marks results, and nothing else.
use rs_query.Base.{
  ℕ, zero, suc, ◌≡◌, refl, ap, ◌∙◌, Bool, true, false, not, Option, none, some, List, [], ◌∷◌,
  length, get_elem?, ◌==◌, if◌then◌else◌, arith,
}
use rs_query.State.{QueryState}
use rs_query.Options.{is_enabled}
use rs_query.Client.Core.{Tables}
use rs_query.QueriesObserver.{Spec, Task, World, mark_at, with_results, run_spec, run_indices}

abbrev pub Avoids : ℕ → List ℕ → Type 0
Avoids j [] = Unit
Avoids j (i ∷ is) = ((i == j) ≡ false) × Avoids j is

module _ {V : Type 0} where
  -- The results after the marks.
  abbrev pub mark_spec : ℕ → Option (Spec V) → List (QueryState V) → List (QueryState V)
  mark_spec i none ss = ss
  mark_spec i (some q) ss = if not (is_enabled q.options) then ss else mark_at i ss

  abbrev pub marks : List ℕ → List (Spec V) → List (QueryState V) → List (QueryState V)
  marks [] specs ss = ss
  marks (i ∷ is) specs ss = marks is specs (mark_spec i (get_elem? specs i) ss)

  length-mark_at : (i : ℕ) (ss : List (QueryState V)) → length (mark_at i ss) ≡ length ss
  length-mark_at i [] = refl
  length-mark_at zero (s ∷ ss) = refl
  length-mark_at (suc i) (s ∷ ss) = ap suc (length-mark_at i ss)

  length-mark_spec :
      (i : ℕ) (q : Option (Spec V)) (ss : List (QueryState V))
      → length (mark_spec i q ss) ≡ length ss
  length-mark_spec i none ss = refl
  length-mark_spec i (some q) ss = ground (arith, length-mark_at i ss)

  pub length-marks :
      (is : List ℕ) (specs : List (Spec V)) (ss : List (QueryState V))
      → length (marks is specs ss) ≡ length ss
  length-marks [] specs ss = refl
  length-marks (i ∷ is) specs ss =
      length-marks is specs (mark_spec i (get_elem? specs i) ss)
      ∙ length-mark_spec i (get_elem? specs i) ss

  get_elem?-mark_at :
      (i j : ℕ) (ss : List (QueryState V))
      → (i == j) ≡ false
      → get_elem? (mark_at i ss) j ≡ get_elem? ss j
  get_elem?-mark_at i j [] h = refl
  get_elem?-mark_at zero zero (s ∷ ss) h = absurd (ground arith)
  get_elem?-mark_at zero (suc j) (s ∷ ss) h = refl
  get_elem?-mark_at (suc i) zero (s ∷ ss) h = refl
  get_elem?-mark_at (suc i) (suc j) (s ∷ ss) h = get_elem?-mark_at i j ss (ground arith)

  get_elem?-mark_spec :
      (i j : ℕ) (q : Option (Spec V)) (ss : List (QueryState V))
      → (i == j) ≡ false
      → get_elem? (mark_spec i q ss) j ≡ get_elem? ss j
  get_elem?-mark_spec i j none ss h = refl
  get_elem?-mark_spec i j (some q) ss h = ground (arith, get_elem?-mark_at i j ss h)

  -- A result of an index that is not run stays.
  pub get_elem?-marks :
      (j : ℕ) (is : List ℕ) (specs : List (Spec V)) (ss : List (QueryState V))
      → Avoids j is
      → get_elem? (marks is specs ss) j ≡ get_elem? ss j
  get_elem?-marks j [] specs ss a = refl
  get_elem?-marks j (i ∷ is) specs ss a =
      get_elem?-marks j is specs (mark_spec i (get_elem? specs i) ss) a.1
      ∙ get_elem?-mark_spec i j (get_elem? specs i) ss a.0

module _ {V : Type 0} (M : Tables V) where
  abbrev Ran : Type 0
  Ran = World M × List Task

  run_spec-marks :
      (i : ℕ) (q : Option (Spec V)) (w : World M)
      → (run_spec M i q w).0 ≡ with_results M (mark_spec i q w.observer.results) w
  unfolding run_spec
  run_spec-marks i none w = refl
  run_spec-marks i (some q) w = marked (is_enabled q.options)
    where
      marked :
          (b : Bool)
          → let r : Ran = if not b then (w, []) else (
            with_results M (mark_at i w.observer.results) w,
            record { buffer = w.observer.completed; idx = i } ∷ [],
          ) in
            r.0
            ≡ with_results M (if not b then w.observer.results else mark_at i w.observer.results) w
      marked true = refl
      marked false = refl

  pub run_indices-marks :
      (is : List ℕ) (w : World M)
      → (run_indices M is w).0 ≡ with_results M (marks is w.observer.specs w.observer.results) w
  unfolding run_indices
  run_indices-marks [] w = refl
  run_indices-marks (i ∷ is) w =
      let w1 = (run_spec M i (get_elem? w.observer.specs i) w).0 in
      run_indices-marks is w1
      ∙ ap (λ v. with_results M (marks is v.observer.specs v.observer.results) v)
          (run_spec-marks i (get_elem? w.observer.specs i) w)
