-- ===== src/Bus/Receiver.antt =====
-- One receiver's entry: a bounded queue that drops its oldest values and counts them.
use rs_query.Base.{
  ℕ, zero, suc, ◌+◌, ◌-◌, ◌≤◌, ◌<◌, ◌≡◌, refl, sym, ap, subst, true, false, List, [], ◌∷◌, ◌++◌,
  append-nil, append_assoc, arith, length, drop, tail_of, length-append,
}
use native.Mathlib.Decide.{dec_lt}
use rs_query.Bus.{RecvState, push}

module _ {T : Type 0} where
  unfoldable pub push_all : ℕ → List T → RecvState T → RecvState T
  push_all capacity [] r = r
  push_all capacity (v ∷ vs) r = push_all capacity vs (push capacity v r)

  -- The entry after `c` and `all`: the last `c` values, and a count of the others.
  abbrev pub Holds : ℕ → List T → ℕ → RecvState T → Type 0
  Holds c all missed r =
      (r.queue ≡ drop (length all - c) all)
      × (r.missed ≡ missed + (length all - c))
      × (r.alive ≡ true)

  drop-none : (n : ℕ) (l : List T) → n ≡ 0 → drop n l ≡ l
  drop-none zero l e = refl
  drop-none (suc n) l e = absurd (omega arith)

  -- Where there is room, the value is queued.
  push_room :
      (c : ℕ) (v : T) (r : RecvState T)
      → r.alive ≡ true
      → length r.queue < c
      → push c v r ≡ record r { queue = r.queue ++ v ∷ []; parked = false }
  unfolding push
  push_room c v r a h = ground arith

  -- In a full queue it takes the place of the oldest.
  push_full :
      (c : ℕ) (v : T) (r : RecvState T)
      → r.alive ≡ true
      → c ≤ length r.queue
      → push c v r
        ≡ record r { queue = tail_of r.queue ++ v ∷ []; missed = suc r.missed; parked = false }
  unfolding push
  push_full c v r a h = ground arith

  full_step :
      (c : ℕ) (v : T) (vs q : List T) (missed : ℕ) (r : RecvState T)
      → 0 < c
      → length q ≡ c
      → Holds c ((tail_of q ++ v ∷ []) ++ vs) (suc missed) r
      → Holds c (q ++ v ∷ vs) missed r
  full_step c v vs [] missed r p e h = absurd (omega arith)
  full_step c v vs (x ∷ q) missed r p e h =
      let l : length (q ++ v ∷ vs) ≡ length q + suc (length vs) = length-append q (v ∷ vs) in
      let k : suc (length (q ++ v ∷ vs)) - c ≡ suc (length (q ++ v ∷ vs) - c) = omega arith in
      let h' : Holds c (q ++ v ∷ vs) (suc missed) r = rw (← append_assoc q (v ∷ []) vs) h in
      (rw k h'.0, rw k (omega (arith, h'.1)), h'.2)

  pub length-shift :
      (c : ℕ) (v : T) (q : List T) → length q ≤ c → 0 < c → length (tail_of q ++ v ∷ []) ≤ c
  length-shift c v [] h p = omega arith
  length-shift c v (x ∷ q) h p = omega (arith, length-append q (v ∷ []))

  -- A live receiver keeps the last `c` of its queued and new values, and counts the others.
  pub push_all-Holds :
      (c : ℕ) (vs : List T) (r : RecvState T)
      → r.alive ≡ true
      → 0 < c
      → length r.queue ≤ c
      → Holds c (r.queue ++ vs) r.missed (push_all c vs r)
  unfolding push_all
  push_all-Holds c [] r a p h =
      let e : length r.queue - c ≡ 0 = omega arith in
      rw (append-nil r.queue) (sym (drop-none (length r.queue - c) r.queue e), omega arith, a)
  push_all-Holds c (v ∷ vs) r a p h = elim (dec_lt (length r.queue) c) [
    | yes room ↦
        subst (Holds c (r.queue ++ v ∷ vs) r.missed)
          (ap (push_all c vs) (sym (push_room c v r a room)))
          (rw (← append_assoc r.queue (v ∷ []) vs) (
            push_all-Holds c vs (record r { queue = r.queue ++ v ∷ []; parked = false }) a p
              (omega (arith, length-append r.queue (v ∷ [])))))
    | no full ↦
        let r' : RecvState T = record r {
          queue = tail_of r.queue ++ v ∷ [];
          missed = suc r.missed;
          parked = false;
        } in
        subst (Holds c (r.queue ++ v ∷ vs) r.missed)
          (ap (push_all c vs) (sym (push_full c v r a (omega arith))))
          (full_step c v vs r.queue r.missed (push_all c vs r') p (omega arith)
            (push_all-Holds c vs r' a p (length-shift c v r.queue h p)))
  ]
