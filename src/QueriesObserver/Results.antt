-- ===== src/QueriesObserver/Results.antt =====
-- What `set_specs` does with the results of queries whose keys stay.
use rs_query.Base.{
  ℕ, zero, suc, ◌+◌, ◌≤◌, ◌<◌, ◌≡◌, ◌≢◌, refl, sym, ap, subst, ◌∙◌, Bool, true, Option, none, some,
  List, [], ◌∷◌, ◌++◌, Text, text_eq_sound, length, get_elem?, set, ltb, ◌==◌, if◌then◌else◌, All,
  arith,
}
use rs_query.State.{QueryState}
use rs_query.Client.Core.{Tables, Client}
use rs_query.QueriesObserver.{
  Spec, Slots, World, Rebuilt, position_from, position, in_range, or_idle, or_empty, all_some,
  initial_result, rebuilt_at, rebuilt, replaced, set_specs,
}
use rs_query.QueriesObserver.Marks.{Avoids, get_elem?-marks, run_indices-marks}

module _ {V : Type 0} where
  position_from_bound :
      (n : ℕ) (k : Text) (qs : List (Spec V)) (i : ℕ) → position_from n k qs ≡ some i → n ≤ i
  position_from_bound n k [] i h = cc
  position_from_bound n k (q ∷ qs) i h = ground (arith, position_from_bound (suc n) k qs i)

  -- Two keys at one position are the same.
  position_from_key :
      (n : ℕ) (k j : Text) (qs : List (Spec V)) (i : ℕ)
      → position_from n k qs ≡ some i
      → position_from n j qs ≡ some i
      → k ≡ j
  position_from_key n k j [] i hk hj = cc
  position_from_key n k j (q ∷ qs) i hk hj = ground (
    arith,
    text_eq_sound q.key.cache_key k,
    text_eq_sound q.key.cache_key j,
    position_from_bound (suc n) k qs i,
    position_from_bound (suc n) j qs i,
    position_from_key (suc n) k j qs i,
  )

  get_elem?-all_some :
      (ss : List (QueryState V)) (i : ℕ) {s : QueryState V}
      → get_elem? ss i ≡ some s
      → get_elem? (all_some ss) i ≡ some (some s)
  get_elem?-all_some [] i h = cc
  get_elem?-all_some (s ∷ ss) zero h = ap some h
  get_elem?-all_some (s ∷ ss) (suc i) h = get_elem?-all_some ss i h

module _ {ℓ} {A : Type ℓ} where
  get_elem?-set_other :
      (xs : List A) (i j : ℕ) (v : A) → i ≢ j → get_elem? (set xs i v) j ≡ get_elem? xs j
  get_elem?-set_other [] i j v h = refl
  get_elem?-set_other (x ∷ xs) zero zero v h = absurd (h refl)
  get_elem?-set_other (x ∷ xs) zero (suc j) v h = refl
  get_elem?-set_other (x ∷ xs) (suc i) zero v h = refl
  get_elem?-set_other (x ∷ xs) (suc i) (suc j) v h =
      get_elem?-set_other xs i j v (λ e. h (ap suc e))

  get_elem?_bound :
      (xs : List A) (i : ℕ) {v : A} → get_elem? xs i ≡ some v → ltb i (length xs) ≡ true
  get_elem?_bound [] i h = cc
  get_elem?_bound (x ∷ xs) zero h = ground arith
  get_elem?_bound (x ∷ xs) (suc i) h = ground (arith, get_elem?_bound xs i h)

module _ {V : Type 0} (M : Tables V) (beq : ℕ → V → V → Bool) (now : ℕ) (previous : List (Spec V))
    (old_completed : Slots V) where
  abbrev from : ℕ → List (Spec V) → Slots V → Client M → Rebuilt M
  from = rebuilt M beq now previous old_completed

  in_range_sound : (old : Slots V) (at : Option ℕ) {i : ℕ} → in_range old at ≡ some i → at ≡ some i
  in_range_sound old none h = h
  in_range_sound old (some k) h = ground arith

  -- The indices that a part of the loop finds new are not below its first one.
  from-Avoids :
      (j idx : ℕ) (qs : List (Spec V)) (old : Slots V) (c : Client M)
      → j < idx
      → Avoids j (from idx qs old c).new_indices
  unfolding rebuilt rebuilt_at
  from-Avoids j idx [] old c h = tt
  from-Avoids j idx (q ∷ qs) old c h =
      either (in_range old (position q.key.cache_key previous))
        (λ old' c'. from-Avoids j (suc idx) qs old' c' (omega arith))
    where
      either :
          (p : Option ℕ)
          → ((old' : Slots V) (c' : Client M) → Avoids j (from (suc idx) qs old' c').new_indices)
          → Avoids j
              (rebuilt_at M beq now old_completed (from (suc idx) qs) idx q old c p).new_indices
      either none rest = (ground arith, rest old (initial_result M beq now q c).0)
      either (some i) rest = rest (set old i none) c

  -- The result and the slot at an index, which is not new.
  record Keeps (j : ℕ) (s : QueryState V) (i : ℕ) (r : Rebuilt M) (n : ℕ) : Type 0 where
    result : get_elem? r.results n ≡ some s
    slot : get_elem? r.slots n ≡ some (or_empty (get_elem? old_completed i))
    not_new : Avoids j r.new_indices

  abbrev one :
      (Slots V → Client M → Rebuilt M) → ℕ → Spec V → Slots V → Client M → Option ℕ → Rebuilt M
  one = rebuilt_at M beq now old_completed

  here :
      (i idx j : ℕ) (s : QueryState V) (old : Slots V) (rest : Slots V → Client M → Rebuilt M)
      (q : Spec V) (c : Client M)
      → get_elem? old i ≡ some (some s)
      → Avoids j (rest (set old i none) c).new_indices
      → Keeps j s i (one rest idx q old c (some i)) 0
  unfolding rebuilt_at
  here i idx j s old rest q c there a = record {
    result = ap (λ x. some (or_idle x)) there;
    slot = refl;
    not_new = a;
  }

  past :
      (i idx j : ℕ) (s : QueryState V) (old : Slots V) (rest : Slots V → Client M → Rebuilt M)
      (p : Spec V) (c : Client M) (n : ℕ)
      → get_elem? old i ≡ some (some s)
      → ((old' : Slots V) (c' : Client M)
          → get_elem? old' i ≡ some (some s)
          → Keeps j s i (rest old' c') n)
      → idx < j
      → (at : Option ℕ) → at ≢ some i
      → Keeps j s i (one rest idx p old c at) (suc n)
  unfolding rebuilt_at
  past i idx j s old rest p c n there keeps less none other =
      let k = keeps old (initial_result M beq now p c).0 there in
      record { result = k.result; slot = k.slot; not_new = (ground arith, k.not_new) }
  past i idx j s old rest p c n there keeps less (some i') other =
      let k =
        keeps (set old i' none) c
          (get_elem?-set_other old i' i none (λ e. other (ap some e)) ∙ there) in
      record { result = k.result; slot = k.slot; not_new = k.not_new }

  from-Keeps :
      (before after : List (Spec V)) (q : Spec V) (i idx j : ℕ) (s : QueryState V) (old : Slots V)
      (c : Client M)
      → position q.key.cache_key previous ≡ some i
      → get_elem? old i ≡ some (some s)
      → All (λ p. p.key.cache_key ≢ q.key.cache_key) before
      → idx + length before ≡ j
      → Keeps j s i (from idx (before ++ q ∷ after) old c) (length before)
  unfolding rebuilt position
  from-Keeps [] after q i idx j s old c at there distinct e =
      let found : in_range old (position q.key.cache_key previous) ≡ some i =
        ap (in_range old) at ∙ rw (get_elem?_bound old i there) in
      subst
        (λ x.
          Keeps j s i (rebuilt_at M beq now old_completed (from (suc idx) after) idx q old c x) 0)
        (sym found)
        (here i idx j s old (from (suc idx) after) q c there
          (from-Avoids j (suc idx) after (set old i none) c (omega arith)))
  from-Keeps (p ∷ before) after q i idx j s old c at there distinct e =
      let rest : (old' : Slots V) (c' : Client M)
          → get_elem? old' i ≡ some (some s)
          → Keeps j s i (from (suc idx) (before ++ q ∷ after) old' c') (length before) =
        λ old' c' h.
          from-Keeps before after q i (suc idx) j s old' c' at h distinct.1 (omega arith) in
      past i idx j s old (from (suc idx) (before ++ q ∷ after)) p c (length before) there rest
        (omega arith) (in_range old (position p.key.cache_key previous))
        (λ same. distinct.0 (
          position_from_key 0 p.key.cache_key q.key.cache_key previous i
            (in_range_sound old (position p.key.cache_key previous) same) at))

module _ {V : Type 0} (M : Tables V) where
  -- A query whose key was observed before, and does not stand before it among the new specs, keeps its
  -- result and its slot: at its new index they are those of the first old spec of its key. The new
  -- queries, which are started, do not touch them.
  pub set_specs_keeps :
      (beq : ℕ → V → V → Bool) (now : ℕ) (before after : List (Spec V)) (q : Spec V) (w : World M)
      (i : ℕ) (s : QueryState V)
      → position q.key.cache_key w.observer.specs ≡ some i
      → get_elem? w.observer.results i ≡ some s
      → All (λ p. p.key.cache_key ≢ q.key.cache_key) before
      → let w' = (set_specs M beq now (before ++ q ∷ after) w).0 in
        (get_elem? w'.observer.results (length before) ≡ some s)
        × (get_elem? (w'.buffers w'.observer.completed) (length before)
            ≡ some (or_empty (get_elem? (w.buffers w.observer.completed) i)))
  unfolding set_specs
  set_specs_keeps beq now before after q w i s at there distinct =
      let specs = before ++ q ∷ after in
      let r =
        rebuilt M beq now w.observer.specs (w.buffers w.observer.completed) 0 specs
          (all_some w.observer.results) w.client in
      let k =
        from-Keeps M beq now w.observer.specs (w.buffers w.observer.completed) before after q i 0
          (length before) s (all_some w.observer.results) w.client at
          (get_elem?-all_some w.observer.results i there) distinct (omega arith) in
      let own : (w.next_buffer == w.next_buffer) ≡ true = ground arith in
      let ran = run_indices-marks M r.new_indices (replaced M specs r w) in
      (
        ap (λ v. get_elem? v.observer.results (length before)) ran
            ∙ get_elem?-marks (length before) r.new_indices specs r.results k.not_new
            ∙ k.result,
        ap (λ v. get_elem? (v.buffers v.observer.completed) (length before)) ran
            ∙ ap (λ b. get_elem? (if b then r.slots else w.buffers w.next_buffer) (length before))
                own
            ∙ k.slot,
      )
