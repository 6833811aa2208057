-- ===== src/MutationObserver/Events.antt =====
-- What the filtered stream of an observer delivers.
use rs_query.Base.{
  ℕ, zero, suc, ◌+◌, ◌≤◌, ◌≡◌, refl, sym, ap, subst, ◌∙◌, Bool, true, false, Option, some, List, [],
  ◌∷◌, length, if◌then◌else◌, Bool-cases, inl, inr, arith,
}
use rs_query.Base.Table.{get, put, get-put}
use rs_query.Bus
use rs_query.Bus.{
  RecvState, Received, poll_state, poll_entry, take_value, ok, empty, closed, lagged,
}
use rs_query.MutationCache.{MutationCacheEvent}
use rs_query.MutationObserver.{Next, relevant, on_received, next, event, ended, pending}

module _ (entry_ids : List ℕ) where
  -- What a queue has for the stream, and what is left of the queue.
  abbrev pub delivered : Bool → List MutationCacheEvent → Next
  delivered alive [] = if alive then pending else ended
  delivered alive (e ∷ q) = if relevant entry_ids e then event e else delivered alive q

  abbrev pub left : List MutationCacheEvent → List MutationCacheEvent
  left [] = []
  left (e ∷ q) = if relevant entry_ids e then q else left q

  module _ (id : ℕ) where
    -- A poll gives what the queue has for the stream, and leaves the receiver with the rest.
    abbrev Answers :
        Bool → List MutationCacheEvent → Bus.Shared MutationCacheEvent × Option Next → Type 0
    Answers alive q (s, answer) =
        (r : RecvState MutationCacheEvent) × (answer ≡ some (delivered alive q))
        × (get id s.receivers ≡ some r)
        × (r.queue ≡ left q)
        × (r.missed ≡ 0)

    poll :
        (s : Bus.Shared MutationCacheEvent) (r : RecvState MutationCacheEvent)
        → get id s.receivers ≡ some r
        → let p = poll_entry s.senders_alive true r in
          poll_state true id s ≡ (record s { receivers = put id p.0 s.receivers }, p.1)
    unfolding poll_state
    poll s r h = rw (h, poll_state) refl

    own :
        (r : RecvState MutationCacheEvent) (s : Bus.Shared MutationCacheEvent)
        → get id (put id r s.receivers) ≡ some r
    own r s = ground (arith, get-put id id r s.receivers)

    abbrev receiver : List MutationCacheEvent → Bool → ℕ → Bool → RecvState MutationCacheEvent
    receiver q parked missed alive = record {
      queue = q;
      parked = parked;
      missed = missed;
      alive = alive;
    }

    abbrev step :
        ℕ
        → Bus.Shared MutationCacheEvent × Received MutationCacheEvent
        → Bus.Shared MutationCacheEvent × Option Next
    step fuel = on_received entry_ids id (next entry_ids id fuel)

    closing :
        (fuel : ℕ) (s : Bus.Shared MutationCacheEvent) (parked alive b : Bool)
        → let p = take_value b true (receiver [] parked 0 alive) [] in
          Answers b [] (step fuel (record s { receivers = put id p.0 s.receivers }, p.1))
    unfolding on_received take_value
    closing fuel s parked alive true =
        (receiver [] true 0 alive, refl, own (receiver [] true 0 alive) s, refl, refl)
    closing fuel s parked alive false =
        (receiver [] parked 0 false, refl, own (receiver [] parked 0 false) s, refl, refl)

    taken :
        (fuel : ℕ) (s : Bus.Shared MutationCacheEvent) (v : MutationCacheEvent)
        (q : List MutationCacheEvent) (r : RecvState MutationCacheEvent)
        → get id s.receivers ≡ some r
        → r.queue ≡ q
        → r.missed ≡ 0
        → Answers s.senders_alive q (next entry_ids id fuel s)
        → Answers s.senders_alive (v ∷ q) (step fuel (s, ok v))
    unfolding on_received
    taken fuel s v q r h e m rest = elim (Bool-cases (relevant entry_ids v)) [
      | inl own ↦ rw own (r, refl, h, e, m)
      | inr other ↦ rw other rest
    ]

    caught_up :
        (fuel : ℕ) (s : Bus.Shared MutationCacheEvent) (q : List MutationCacheEvent)
        (parked alive : Bool)
        → get id s.receivers ≡ some (receiver q parked 0 alive)
        → length q + 1 ≤ fuel
        → Answers s.senders_alive q (next entry_ids id fuel s)
    unfolding next poll_entry
    caught_up zero s q parked alive h f = absurd (omega arith)
    caught_up (suc fuel) s [] parked alive h f =
        subst (λ x. Answers s.senders_alive [] (step fuel x))
          (sym (poll s (receiver [] parked 0 alive) h))
          (closing fuel s parked alive s.senders_alive)
    caught_up (suc fuel) s (v ∷ q) parked alive h f =
        let r = receiver q parked 0 alive in
        let s' : Bus.Shared MutationCacheEvent = record s { receivers = put id r s.receivers } in
        subst (λ x. Answers s.senders_alive (v ∷ q) (step fuel x))
          (sym (poll s (receiver (v ∷ q) parked 0 alive) h))
          (taken fuel s' v q r (own r s) refl refl
            (caught_up fuel s' q parked alive (own r s) (omega arith)))

    notice :
        (b : Bool) (q : List MutationCacheEvent) (parked : Bool) (n : ℕ) (alive : Bool)
        → poll_entry b true (receiver q parked (suc n) alive)
          ≡ (receiver q parked 0 alive, lagged (suc n))
    unfolding poll_entry
    notice b q parked n alive = ground arith

    -- A notice of loss comes first.
    lagging :
        (fuel : ℕ) (s : Bus.Shared MutationCacheEvent) (q : List MutationCacheEvent) (parked : Bool)
        (missed : ℕ) (alive : Bool)
        → get id s.receivers ≡ some (receiver q parked missed alive)
        → length q + 2 ≤ fuel
        → Answers s.senders_alive q (next entry_ids id fuel s)
    unfolding next on_received
    lagging zero s q parked missed alive h f = absurd (omega arith)
    lagging (suc fuel) s q parked zero alive h f =
        caught_up (suc fuel) s q parked alive h (omega arith)
    lagging (suc fuel) s q parked (suc n) alive h f =
        let r = receiver q parked 0 alive in
        let s' : Bus.Shared MutationCacheEvent = record s { receivers = put id r s.receivers } in
        subst (λ x. Answers s.senders_alive q (step fuel x))
          (sym (
            poll s (receiver q parked (suc n) alive) h
            ∙ ap (λ p. (record s { receivers = put id p.0 s.receivers }, p.1))
                (notice s.senders_alive q parked n alive)))
          (caught_up fuel s' q parked alive (own r s) (omega arith))

    -- The first event of an observer's own mutations in the queue of its stream, or of those that concern
    -- all, is what the next poll gives, within a turn for each event before it and one each for a notice
    -- of loss and an empty queue; the events before it are dropped, those after it stay. Without one the
    -- poll waits, or ends the stream if the cache is gone.
    pub next_lem :
        (fuel : ℕ) (s : Bus.Shared MutationCacheEvent) (r : RecvState MutationCacheEvent)
        → get id s.receivers ≡ some r
        → length r.queue + 2 ≤ fuel
        → let polled = next entry_ids id fuel s in
          (r' : RecvState MutationCacheEvent) × (polled.1
            ≡ some (delivered s.senders_alive r.queue))
          × (get id polled.0.receivers ≡ some r')
          × (r'.queue ≡ left r.queue)
          × (r'.missed ≡ 0)
    next_lem fuel s r h f = lagging fuel s r.queue r.parked r.missed r.alive h f
