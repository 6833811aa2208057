-- ===== src/MutationObserver/Tracking.antt =====
-- Which execution the state of an observer tells of.
use rs_query.Base.{
  ℕ, ◌+◌, ◌≤◌, ◌<◌, ◌≡◌, refl, subst, ◌⊎◌, Bool, true, false, List, [], ◌∷◌, ◌++◌, All, All-mono,
  arith,
}
use rs_query.State.{QueryError, MutationState}
use rs_query.MutationObserver.{
  MutationObserver, u64, new, submit, on_entry_added, told, is_observed, write_result, settle,
  next_generation, clear_state, reset, current_result,
}

-- An observer, with the generations that its executions in flight were submitted under, and the
-- results of those that have found their generation and are about to write.
pub record Machine (T : Type 0) : Type 0 where
  pub observer : MutationObserver T
  pub tasks : List ℕ
  pub writers : List (T ⊎ QueryError)

module _ {ℓ} {A : Type ℓ} (P : A → Type 0) where
  All-drop : (xs : List A) (x : A) (ys : List A) → All P (xs ++ x ∷ ys) → All P (xs ++ ys)
  All-drop [] x ys a = a.1
  All-drop (y ∷ xs) x ys a = (a.0, All-drop xs x ys a.1)

  All-middle : (xs : List A) (x : A) (ys : List A) → All P (xs ++ x ∷ ys) → P x
  All-middle [] x ys a = a.0
  All-middle (y ∷ xs) x ys a = All-middle xs x ys a.1

no-middle : {A : Type 0} (xs before after : List A) (x : A) → xs ≡ [] → xs ≡ before ++ x ∷ after → ⊥
no-middle xs [] after x e h = cc
no-middle xs (y ∷ before) after x e h = cc

module _ {T : Type 0} where
  -- The end of an execution up to its look at the generation.
  abbrev pub looked : Bool → List ℕ → T ⊎ QueryError → Machine T → Machine T
  looked true rest result m = record m { tasks = rest; writers = result ∷ m.writers }
  looked false rest result m = record m { tasks = rest }

  -- What executions in flight do, step by step: they add their entries, look at the generation, and
  -- write.
  pub data Runs (m : Machine T) : Machine T → Type 0 where
    still : Runs m m
    adds :
        {n : Machine T} (id : ℕ)
        → Runs m n
        → Runs m (record n { observer = on_entry_added id n.observer })
    looks :
        {n : Machine T} (before after : List ℕ) (g : ℕ) (result : T ⊎ QueryError)
        → Runs m n
        → n.tasks ≡ before ++ g ∷ after
        → Runs m (looked (is_observed g n.observer) (before ++ after) result n)
    writes :
        {n : Machine T} (before after : List (T ⊎ QueryError)) (result : T ⊎ QueryError)
        → Runs m n
        → n.writers ≡ before ++ result ∷ after
        → Runs m (record n { observer = write_result result n.observer; writers = before ++ after })

  -- The states that a fresh observer comes to, with fewer than 2⁶⁴ resets.
  pub data Reach : Machine T → Type 0 where
    fresh : Reach (record { observer = new; tasks = []; writers = [] })
    mutates :
        {m : Machine T}
        → Reach m
        → Reach
            (record m { observer = (submit m.observer).0; tasks = (submit m.observer).1 ∷ m.tasks })
    raises :
        {m : Machine T}
        → Reach m
        → m.observer.generation + 1 < u64
        → Reach (record m { observer = next_generation m.observer })
    clears : {m : Machine T} → Reach m → Reach (record m { observer = clear_state m.observer })
    runs : {m n : Machine T} → Reach m → Runs m n → Reach n

  looked_observer :
      (b : Bool) (rest : List ℕ) (result : T ⊎ QueryError) (m : Machine T)
      → ((looked b rest result m).observer ≡ m.observer) × ((looked b rest result m).tasks ≡ rest)
  looked_observer true rest result m = (refl, refl)
  looked_observer false rest result m = (refl, refl)

  abbrev IsOld : Machine T → Type 0
  IsOld m = All (λ g. g ≤ m.observer.generation) m.tasks

  Runs-IsOld : {m n : Machine T} → Runs m n → IsOld m → IsOld n
  unfolding on_entry_added write_result
  Runs-IsOld still old = old
  Runs-IsOld (adds id r) old = Runs-IsOld r old
  Runs-IsOld (looks {n} before after g result r e) old =
      let now : IsOld n = Runs-IsOld r old in
      let P : ℕ → Type 0 = λ k. k ≤ n.observer.generation in
      let same = looked_observer (is_observed g n.observer) (before ++ after) result n in
      rw (same.0, same.1) (All-drop P before g after (subst (All P) e now))
  Runs-IsOld (writes before after result r e) old = Runs-IsOld r old

  Reach-IsOld : {m : Machine T} → Reach m → IsOld m
  unfolding submit next_generation clear_state
  Reach-IsOld fresh = tt
  Reach-IsOld (mutates r) = (omega arith, Reach-IsOld r)
  Reach-IsOld (raises {m} r few) =
      All-mono {P = λ g. g ≤ m.observer.generation} (λ g h. grind arith) m.tasks (Reach-IsOld r)
  Reach-IsOld (clears r) = Reach-IsOld r
  Reach-IsOld (runs r s) = Runs-IsOld s (Reach-IsOld r)

  -- The executions in flight are of other generations, none is about to write, and the state is as
  -- given.
  record IsQuiet (state : MutationState T) (m : Machine T) : Type 0 where
    others : All (λ g. is_observed g m.observer ≡ false) m.tasks
    nobody : m.writers ≡ []
    same : m.observer.state ≡ state

  Runs-IsQuiet :
      (state : MutationState T) {m n : Machine T} → Runs m n → IsQuiet state m → IsQuiet state n
  unfolding on_entry_added is_observed
  Runs-IsQuiet state still old = old
  Runs-IsQuiet state (adds id r) old =
      let now = Runs-IsQuiet state r old in
      record { others = now.others; nobody = now.nobody; same = now.same }
  Runs-IsQuiet state (looks {n} before after g result r e) old =
      let now = Runs-IsQuiet state r old in
      let P : ℕ → Type 0 = λ k. is_observed k n.observer ≡ false in
      let there = subst (All P) e now.others in
      let mine = All-middle P before g after there in
      rw mine
        (record { others = All-drop P before g after there; nobody = now.nobody; same = now.same })
  Runs-IsQuiet state (writes {n} before after result r e) old =
      let now = Runs-IsQuiet state r old in
      absurd (no-middle n.writers before after result now.nobody e)

  -- If no execution is between its look at the generation and its write when a reset raises the
  -- generation, then the result stays idle from the end of the reset on as long as nothing is submitted
  -- anew, whatever the executions that were in flight add, find and do during and after the reset.
  pub reset_stays :
      {m n k : Machine T}
      → Reach m
      → m.observer.generation + 1 < u64
      → m.writers ≡ []
      → Runs (record m { observer = next_generation m.observer }) n
      → Runs (record n { observer = clear_state n.observer }) k
      → current_result k.observer ≡ MutationState.idle
  unfolding current_result next_generation clear_state is_observed
  reset_stays {m} {n} reached few none during after =
      let raised = Runs-IsQuiet m.observer.state during (record {
        others =
            All-mono {P = λ g. g ≤ m.observer.generation} (λ g h. grind arith) m.tasks
              (Reach-IsOld reached);
        nobody = none;
        same = refl;
      }) in
      (Runs-IsQuiet MutationState.idle after
        (record { others = raised.others; nobody = raised.nobody; same = refl })).same

  -- A reset between the look of an execution at the generation and its write is overwritten: from then on
  -- the state tells of the execution that was reset.
  reset_overtaken :
      (o : MutationObserver T) (result : T ⊎ QueryError)
      → (is_observed (submit o).1 (submit o).0 ≡ true)
        × (current_result (write_result result (reset (submit o).0)) ≡ told result)
  unfolding current_result is_observed submit write_result
  reset_overtaken o result = (ground arith, refl)

  -- Of two executions in flight under one generation, the one that ends last has the last word, be it the
  -- one that was submitted first: the state then tells of the older one.
  older_has_the_last_word :
      (o : MutationObserver T) (mine newer : T ⊎ QueryError)
      → let (o1, older) = submit o in
        let (o2, newest) = submit o1 in
        (current_result (settle newest newer o2) ≡ told newer)
        × (current_result (settle older mine (settle newest newer o2)) ≡ told mine)
  unfolding current_result settle submit is_observed write_result
  older_has_the_last_word o mine newer = ground arith
