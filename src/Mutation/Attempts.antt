-- ===== src/Mutation/Attempts.antt =====
-- How often `mutate_fn` is called, and which of its outcomes counts.
use rs_query.Base.{
  ℕ, zero, suc, ◌+◌, ◌≤◌, ◌<◌, ◌≡◌, refl, sym, ap, ◌∙◌, Bool, true, false, ◌⊎◌, inl, inr, arith,
}
use rs_query.State.{QueryError}
use rs_query.Client.Core.{Tables}
use rs_query.Mutation.Core.{World, Surroundings, attempts}

abbrev pub succeeded : {T : Type 0} → T ⊎ QueryError → Bool
succeeded (inl v) = true
succeeded (inr e) = false

-- The attempts from the call `used` on stop with `k` more calls: those before the last one fail, and
-- the last one succeeds or is the last that is allowed.
pub record Stops {T : Type 0} (outcome : ℕ → T ⊎ QueryError) (left used k : ℕ) : Type 0 where
  pub allowed : k ≤ left
  pub failed_before : (j : ℕ) → j < k → succeeded (outcome (used + j)) ≡ false
  pub last : (succeeded (outcome (used + k)) ≡ true) ⊎ (k ≡ left)

pub sum-cases : {A B : Type 0} (x : A ⊎ B) → ((a : A) × (x ≡ inl a)) ⊎ ((b : B) × (x ≡ inr b))
sum-cases (inl a) = inl (a, refl)
sum-cases (inr b) = inr (b, refl)

none_below : (b : ℕ → Bool) (j : ℕ) → j < 0 → b j ≡ false
none_below b j l = ground (arith, l)

module _ {T : Type 0} (outcome : ℕ → T ⊎ QueryError) where
  shift : (used j : ℕ) → suc used + j ≡ used + suc j
  shift used j = omega arith

  here : (used : ℕ) → outcome used ≡ outcome (used + 0)
  here used = ap outcome (omega arith)

  failed_later :
      (used k : ℕ)
      → succeeded (outcome used) ≡ false
      → ((j : ℕ) → j < k → succeeded (outcome (suc used + j)) ≡ false)
      → (j : ℕ) → j < suc k
      → succeeded (outcome (used + j)) ≡ false
  failed_later used k h f zero l = sym (ap succeeded (here used)) ∙ h
  failed_later used k h f (suc j) l =
      sym (ap (λ i. succeeded (outcome i)) (shift used j)) ∙ f j (omega (arith, l))

  last_later :
      (left used k : ℕ)
      → (succeeded (outcome (suc used + k)) ≡ true) ⊎ (k ≡ left)
      → (succeeded (outcome (used + suc k)) ≡ true) ⊎ (suc k ≡ suc left)
  last_later left used k (inl h) = inl (sym (ap (λ i. succeeded (outcome i)) (shift used k)) ∙ h)
  last_later left used k (inr h) = inr (ap suc h)

  Stops-now : (left used : ℕ) → succeeded (outcome used) ≡ true → Stops outcome left used 0
  Stops-now left used h = record {
    allowed = omega arith;
    failed_before = none_below (λ j. succeeded (outcome (used + j)));
    last = inl (sym (ap succeeded (here used)) ∙ h);
  }

  Stops-exhausted : (used : ℕ) → Stops outcome 0 used 0
  Stops-exhausted used = record {
    allowed = omega arith;
    failed_before = none_below (λ j. succeeded (outcome (used + j)));
    last = inr refl;
  }

  Stops-later :
      (left used k : ℕ)
      → succeeded (outcome used) ≡ false
      → Stops outcome left (suc used) k
      → Stops outcome (suc left) used (suc k)
  Stops-later left used k h st = record {
    allowed = omega (arith, st.allowed);
    failed_before = failed_later used k h st.failed_before;
    last = last_later left used k st.last;
  }

module _ {V : Type 0} {M : Tables V} {W : Type 0} where
  -- What the other tasks do during the call `first` and the `more` calls after it.
  abbrev pub during : Surroundings M W → ℕ → ℕ → World M W → World M W
  during around first zero s = around.calling first s
  during around first (suc more) s = during around (suc first) more (around.calling first s)

  -- The attempts call `mutate_fn` until the first success, and at most so often again as there are
  -- retries left; their result is the outcome of the last call.
  attempts_stop :
      {T : Type 0} (around : Surroundings M W) (outcome : ℕ → T ⊎ QueryError) (left used : ℕ)
      (s : World M W)
      → (k : ℕ) × Stops outcome left used k
        × (attempts around outcome left used s ≡ (during around used k s, outcome (used + k)))
  unfolding attempts
  attempts_stop around outcome zero used s =
      (0, Stops-exhausted outcome used, ap (λ r. (around.calling used s, r)) (here outcome used))
  attempts_stop around outcome (suc left) used s = elim (sum-cases (outcome used)) [
    | inl (v, e) ↦ (
      0,
      Stops-now outcome (suc left) used (ap succeeded e),
      rw (e, attempts) (ap (λ r. (around.calling used s, r)) (sym e ∙ here outcome used)),
    )
    | inr (x, e) ↦
        let (k, st, same) = attempts_stop around outcome left (suc used) (around.calling used s) in
        (
          suc k,
          Stops-later outcome left used k (ap succeeded e) st,
          rw (e, attempts)
              (same ∙ ap (λ i. (during around used (suc k) s, outcome i)) (shift outcome used k)),
        )
  ]
