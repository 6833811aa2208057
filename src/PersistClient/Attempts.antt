-- ===== src/PersistClient/Attempts.antt =====
-- The rounds of `persist_with_retry`: how often it restores, and what ends it.
use rs_query.Base.{
  ℕ, zero, suc, ◌+◌, ◌≤◌, ◌<◌, ◌≡◌, refl, sym, ap, subst, ltb→lt, ◌⊎◌, inl, inr, Bool, Option, none,
  some, Text, ltb, arith, Bool-cases,
}
use rs_query.State.{QueryError}
use rs_query.Client.Core.{Tables}
use rs_query.Client.Pages.{Payload}
use rs_query.PersistClient.{
  PersistedClient, PersistQueryClientOptions, ClientPersister, Outcome, Clock, World,
  max_restore_retries, persist_query_client_restore, replaced, consulted, after_attempt, retry_loop,
  persist_with_retry,
}

module _ {V : Type 0} (M : Tables V) (S : Payload V Text) (encode : Text → Text)
    (decode : Text → Option Text) (P : ClientPersister) (o : PersistQueryClientOptions)
    (beq : ℕ → V → V → Bool) (clock : ℕ → Clock)
    (retry_strategy : QueryError → ℕ → Option PersistedClient) (w : World M P) where
  -- The state that the restore after `k` errors starts from, and that restore.
  abbrev pub start : ℕ → World M P
  start zero = w
  start (suc k) = (persist_query_client_restore M S encode decode P o beq (clock k) (start k)).0

  abbrev pub attempt : ℕ → World M P × Outcome
  attempt k = persist_query_client_restore M S encode decode P o beq (clock k) (start k)

  -- The restore fails, and the strategy has nothing to put in the snapshot's place.
  abbrev pub Declined : ℕ → Type 0
  Declined k = (e : QueryError) × ((attempt k).1 ≡ inr e) × (retry_strategy e (suc k) ≡ none)

  -- The restore ends the loop, with the result.
  abbrev pub Ends : ℕ → World M P × Outcome → Type 0
  Ends k r =
      ((attempt k).1 ≡ inl tt) × (r ≡ attempt k)
      ⊎ (e : QueryError) × ((attempt k).1 ≡ inr e)
        × ((k ≡ max_restore_retries) × (r ≡ attempt k)
            ⊎ (p : PersistedClient) × (k < max_restore_retries)
              × (retry_strategy e (suc k) ≡ some p)
              × (r
                  ≡ replaced M S encode decode P o beq clock retry_strategy (clock (suc k)) p
                      (attempt k).0))

  abbrev Found : Option (World M P × Outcome) → Type 0
  Found x =
      (k : ℕ) × (r : World M P × Outcome) × (k ≤ max_restore_retries)
      × (x ≡ some r)
      × ((j : ℕ) → j < k → Declined j)
      × Ends k r

  abbrev loop : ℕ → ℕ → World M P → Option (World M P × Outcome)
  loop = retry_loop M S encode decode P o beq clock retry_strategy

  abbrev consult : ℕ → ℕ → Option PersistedClient → World M P → Option (World M P × Outcome)
  consult f = consulted M S encode decode P o beq clock retry_strategy (loop f)

  abbrev after : ℕ → ℕ → World M P × Outcome → Option (World M P × Outcome)
  after f = after_attempt M S encode decode P o beq clock retry_strategy (loop f)

  one_more :
      (k : ℕ) → ((j : ℕ) → j < k → Declined j) → Declined k → (j : ℕ) → j < suc k → Declined j
  one_more k before now j h = elim (Bool-cases (ltb j k)) [
    | inl less ↦ before j (ltb→lt j k less)
    | inr same ↦ let e : k ≡ j = ground arith in subst Declined e now
  ]

  -- The strategy's answer, when rounds are left; `next` is the rest of the loop.
  answered :
      (f k : ℕ) (w' : World M P) (err : QueryError)
      → attempt k ≡ (w', inr err)
      → k < 3
      → ((j : ℕ) → j < k → Declined j)
      → (Declined k → Found (loop f (suc k) (start (suc k))))
      → (s : Option PersistedClient) → retry_strategy err (suc k) ≡ s
      → Found (consult f (suc k) s w')
  unfolding consulted
  answered f k w' err a m before next none b =
      subst (λ v. Found (loop f (suc k) v)) (ap (λ p. p.0) a) (next (err, ap (λ p. p.1) a, b))
  answered f k w' err a m before next (some p) b = (
    k,
    replaced M S encode decode P o beq clock retry_strategy (clock (suc k)) p w',
    omega arith,
    refl,
    before,
    inr (
      err,
      ap (λ q. q.1) a,
      inr (
        p,
        m,
        b,
        ap (λ v. replaced M S encode decode P o beq clock retry_strategy (clock (suc k)) p v.0)
            (sym a),
      ),
    ),
  )

  tried :
      (f k : ℕ)
      → k ≤ 3
      → ((j : ℕ) → j < k → Declined j)
      → (k < 3 → Declined k → Found (loop f (suc k) (start (suc k))))
      → (x : World M P × Outcome) → attempt k ≡ x
      → Found (after f k x)
  unfolding after_attempt
  tried f k m before next (w', inl tt) a =
      (k, (w', inl tt), m, refl, before, inl (ap (λ p. p.1) a, sym a))
  tried f k m before next (w', inr err) a = elim (Bool-cases (ltb 3 (suc k))) [
    | inl over ↦ rw over (
      k,
      (w', inr err),
      m,
      refl,
      before,
      inr (err, ap (λ p. p.1) a, inl (omega (arith, ltb→lt 3 (suc k) over), sym a)),
    )
    | inr more ↦
        let m' : k < 3 = ground arith in
        rw more (answered f k w' err a m' before (next m') (retry_strategy err (suc k)) refl)
  ]

  rounds : (f k : ℕ) → f + k ≡ 3 → ((j : ℕ) → j < k → Declined j) → Found (loop (suc f) k (start k))
  unfolding retry_loop
  rounds zero k e before =
      tried zero k (omega arith) before (λ h. absurd (omega arith)) (attempt k) refl
  rounds (suc f) k e before =
      tried (suc f) k (omega arith) before
        (λ h d. rounds f (suc k) (omega arith) (one_more k before d)) (attempt k) refl

  -- `persist_with_retry` always returns. It restores once and then again after each failure for which
  -- the strategy has no replacement; the last restore is the first one that succeeds, or the fourth one,
  -- whose error is returned without asking the strategy, or one that fails and for which the strategy
  -- has a replacement, which is hydrated and saved.
  pub persist_with_retry_lem :
      (k : ℕ) × (r : World M P × Outcome) × (k ≤ max_restore_retries)
      × (persist_with_retry M S encode decode P o beq clock retry_strategy w ≡ some r)
      × ((j : ℕ) → j < k → Declined j)
      × Ends k r
  unfolding persist_with_retry
  persist_with_retry_lem = rounds 3 0 refl (λ j h. elim h [ ])
