-- ===== src/Bus/Closing.antt =====
-- When a channel closes: the count of its senders and the bound of its queues.
use mathlib.Core.Option
use rs_query.Base.{
  ℕ, suc, ◌-◌, ◌≤◌, ◌<◌, ◌≡◌, refl, sym, ◌∙◌, Bool, Option, none, some, List, [], ◌∷◌, arith,
  length, length-append, ltb, ◌==◌, Bool-cases, Option-cases, inl, inr,
}
use rs_query.Base.Table.{get, put, map_values, get-put, get-del, get-map_values}
use rs_query.Bus.{
  RecvState, Shared, fresh, channel, subscribe, push, send, unpark, clone_sender, drop_sender,
  poll_entry, poll_state, drop_receiver,
}
use rs_query.Bus.Receiver.{length-shift}

module _ {T : Type 0} where
  -- What happens to a channel with `n` senders in the program's hands, and how many there are then.
  -- Receivers are not cloned here.
  pub data Step : ℕ → Shared T → ℕ → Shared T → Type 0 where
    sends : (n : ℕ) (s : Shared T) (v : T) → 0 < n → Step n s n (send v s)
    subscribes : (n : ℕ) (s : Shared T) → 0 < n → Step n s n (subscribe s).0
    clones : (n : ℕ) (s : Shared T) → 0 < n → Step n s (suc n) (clone_sender s)
    drops : (n : ℕ) (s : Shared T) → 0 < n → Step n s (n - 1) (drop_sender s)
    polls :
        (n : ℕ) (s : Shared T) (waiting : Bool) (id : ℕ) → Step n s n (poll_state waiting id s).0
    leaves : (n : ℕ) (s : Shared T) (id : ℕ) → Step n s n (drop_receiver id s)

  pub data Reach (s : Shared T) (n : ℕ) : ℕ → Shared T → Type 0 where
    here : Reach s n n s
    next : {m k : ℕ} {t u : Shared T} → Reach s n m t → Step m t k u → Reach s n k u

  -- The count is right, and the channel is open as long as there is a sender.
  pub record Counts (n : ℕ) (s : Shared T) : Type 0 where
    pub count : s.sender_count ≡ n
    pub is_open : s.senders_alive ≡ ltb 0 n

  Step-Counts : {n m : ℕ} {s t : Shared T} → Step n s m t → Counts n s → Counts m t
  unfolding send subscribe clone_sender drop_sender poll_state drop_receiver
  Step-Counts (sends n s v h) c = record { count = c.count; is_open = c.is_open }
  Step-Counts (subscribes n s h) c = record { count = c.count; is_open = c.is_open }
  Step-Counts (clones n s h) c = record { count = ground arith; is_open = ground arith }
  Step-Counts (drops n s h) c = ground arith
  Step-Counts (polls n s waiting id) c = ground arith
  Step-Counts (leaves n s id) c = record { count = c.count; is_open = c.is_open }

  -- Each queue stays within the capacity.
  abbrev pub Bounded : Shared T → Type 0
  Bounded s = (id : ℕ) (r : RecvState T) → get id s.receivers ≡ some r → length r.queue ≤ s.capacity

  poll_entry_shrinks :
      (b w : Bool) (r : RecvState T) → length (poll_entry b w r).0.queue ≤ length r.queue
  unfolding poll_entry
  poll_entry_shrinks b w r = ground arith

  push_bounded :
      (c : ℕ) (v : T) (r : RecvState T) → 0 < c → length r.queue ≤ c → length (push c v r).queue ≤ c
  unfolding push
  push_bounded c v r p h = ground (arith, length-append r.queue (v ∷ []), length-shift c v r.queue)

  map-some :
      (f : RecvState T → RecvState T) (o : Option (RecvState T)) (r : RecvState T)
      → Option.map f o ≡ some r
      → (r0 : RecvState T) × (o ≡ some r0) × (r ≡ f r0)
  map-some f none r e = cc
  map-some f (some r0) r e = (r0, refl, cc)

  map_values-Bounded :
      (f : RecvState T → RecvState T) (c : ℕ) (m : List (ℕ × RecvState T))
      → ((r : RecvState T) → length r.queue ≤ c → length (f r).queue ≤ c)
      → ((id : ℕ) (r : RecvState T) → get id m ≡ some r → length r.queue ≤ c)
      → (id : ℕ) (r : RecvState T) → get id (map_values f m) ≡ some r
      → length r.queue ≤ c
  map_values-Bounded f c m keep h id r e =
      let (r0, at, same) = map-some f (get id m) r (sym (get-map_values f id m) ∙ e) in
      rw same (keep r0 (h id r0 at))

  put-Bounded :
      (c k : ℕ) (r' : RecvState T) (m : List (ℕ × RecvState T))
      → length r'.queue ≤ c
      → ((id : ℕ) (r : RecvState T) → get id m ≡ some r → length r.queue ≤ c)
      → (id : ℕ) (r : RecvState T) → get id (put k r' m) ≡ some r
      → length r.queue ≤ c
  put-Bounded c k r' m small h id r e = ground (arith, get-put k id r' m, h id r)

  poll-Bounded :
      (waiting : Bool) (id : ℕ) (s : Shared T) → Bounded s → Bounded (poll_state waiting id s).0
  unfolding poll_state
  poll-Bounded waiting id s h = elim (Option-cases (get id s.receivers)) [
    | inl e ↦ rw (e, poll_state) h
    | inr (r, e) ↦
        rw (e, poll_state)
          (put-Bounded s.capacity id (poll_entry s.senders_alive waiting r).0 s.receivers
            (omega (arith, poll_entry_shrinks s.senders_alive waiting r, h id r e)) h)
  ]

  poll_capacity :
      (waiting : Bool) (id : ℕ) (s : Shared T) → (poll_state waiting id s).0.capacity ≡ s.capacity
  unfolding poll_state
  poll_capacity waiting id s = ground arith

  -- The invariant that every step keeps.
  pub record Inv (n : ℕ) (s : Shared T) : Type 0 where
    pub counts : Counts n s
    pub positive : 0 < s.capacity
    pub bounded : Bounded s

  drop-Bounded : (s : Shared T) → Bounded s → Bounded (drop_sender s)
  unfolding drop_sender
  drop-Bounded s h = elim (Bool-cases (s.sender_count - 1 == 0)) [
    | inl e ↦ rw (e, drop_sender) (map_values-Bounded unpark s.capacity s.receivers (λ r k. k) h)
    | inr e ↦ rw (e, drop_sender) h
  ]

  drop_capacity : (s : Shared T) → (drop_sender s).capacity ≡ s.capacity
  unfolding drop_sender
  drop_capacity s = ground arith

  Step-Bounded :
      {n : ℕ} {s : Shared T} {m : ℕ} {t : Shared T}
      → Step n s m t
      → 0 < s.capacity
      → Bounded s
      → (0 < t.capacity) × Bounded t
  unfolding send subscribe clone_sender drop_receiver
  Step-Bounded (sends n s v h) p b = (
    p,
    map_values-Bounded (push s.capacity v) s.capacity s.receivers
        (λ r. push_bounded s.capacity v r p) b,
  )
  Step-Bounded (subscribes n s h) p b =
      (p, put-Bounded s.capacity s.next_id fresh s.receivers (omega arith) b)
  Step-Bounded (clones n s h) p b = (p, b)
  Step-Bounded (drops n s h) p b = (rw (drop_capacity s) p, drop-Bounded s b)
  Step-Bounded (polls n s waiting id) p b =
      (rw (poll_capacity waiting id s) p, poll-Bounded waiting id s b)
  Step-Bounded (leaves n s id) p b = (p, λ k r e. ground (arith, get-del id k s.receivers, b k r))

  Reach-Inv : {s : Shared T} {n m : ℕ} {t : Shared T} → Reach s n m t → Inv n s → Inv m t
  Reach-Inv here i = i
  Reach-Inv (next r st) i =
      let j = Reach-Inv r i in
      let b = Step-Bounded st j.positive j.bounded in
      record { counts = Step-Counts st j.counts; positive = b.0; bounded = b.1 }

  channel-Inv : (capacity : ℕ) → Inv 1 (channel capacity).0
  unfolding channel get
  channel-Inv capacity = record {
    counts = record { count = refl; is_open = refl };
    positive = omega arith;
    bounded = λ id r e. ground arith;
  }

  abbrev pub Fits : ℕ → Option (RecvState T) → Type 0
  Fits capacity none = Unit {0}
  Fits capacity (some r) = length r.queue ≤ capacity

  Bounded-Fits :
      (c : ℕ) (o : Option (RecvState T))
      → ((r : RecvState T) → o ≡ some r → length r.queue ≤ c)
      → Fits c o
  Bounded-Fits c none h = tt
  Bounded-Fits c (some r) h = h r refl

  -- Whatever its senders and receivers do, short of a receiver's clone, a channel counts its senders
  -- exactly, is open exactly while there is one, and no queue grows beyond the capacity.
  pub channel-Counts :
      (capacity : ℕ) {m : ℕ} {t : Shared T}
      → Reach (channel capacity).0 1 m t
      → Counts m t × ((id : ℕ) → Fits t.capacity (get id t.receivers))
  channel-Counts capacity {m} {t} r =
      let i = Reach-Inv r (channel-Inv capacity) in
      (i.counts, λ id. Bounded-Fits t.capacity (get id t.receivers) (i.bounded id))
