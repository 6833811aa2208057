-- ===== src/Broadcast/Registered.antt =====
-- The bus that a channel's name stands for is the one that its living receivers are on.
use rs_query.Base.{
  ℕ, suc, ◌≤◌, ◌<◌, ◌≡◌, refl, sym, ap, subst, ◌∙◌, ◌⊎◌, inl, inr, Bool, true, false, Option, none,
  some, List, [], ◌∷◌, Text, text_eq, text_eq_sound, text_eq_self, ◌==◌, if◌then◌else◌, Bool-cases,
  if_holds, arith,
}
use rs_query.Base.Table.{get, put, del, map_values}
use rs_query.Bus
use rs_query.Bus.{
  RecvState, Received, send, push, subscribe, receiver_count, count_alive, clone_sender,
  drop_sender, unpark, drop_receiver, poll_state, poll_entry, take_value,
}
use rs_query.PersistClient.{PersistedClient}
use rs_query.Broadcast.{
  Registry, no_channels, set_channel, at_bus, made, found, or_insert, channel_entry, removed_if,
  maybe_remove_channel, publish_begin, publish_end,
}

module _ {T : Type 0} where
  -- Operations that bring no living receiver.
  count-map_values :
      (f : RecvState T → RecvState T)
      → ((r : RecvState T) → (f r).alive ≡ r.alive)
      → (m : List (ℕ × RecvState T)) → count_alive (map_values f m) ≡ count_alive m
  unfolding map_values
  count-map_values f h [] = refl
  count-map_values f h ((i, r) ∷ m) = rw (h r, count-map_values f h m) refl

  count-del : (k : ℕ) (m : List (ℕ × RecvState T)) → count_alive (del k m) ≤ count_alive m
  unfolding del
  count-del k [] = omega arith
  count-del k ((i, r) ∷ m) = ground (arith, count-del k m)

  count-put :
      (k : ℕ) (r r' : RecvState T) (m : List (ℕ × RecvState T))
      → get k m ≡ some r
      → (r.alive ≡ false → r'.alive ≡ false)
      → count_alive (put k r' m) ≤ count_alive m
  unfolding get put
  count-put k r r' [] e h = cc
  count-put k r r' ((i, s) ∷ m) e h = ground (arith, count-put k r r' m, h)

  living :
      (k : ℕ) (r : RecvState T) (m : List (ℕ × RecvState T))
      → get k m ≡ some r
      → r.alive ≡ true
      → 0 < count_alive m
  unfolding get
  living k r [] e a = cc
  living k r ((i, s) ∷ m) e a = ground (arith, living k r m)

  pub push-alive : (n : ℕ) (v : T) (r : RecvState T) → (push n v r).alive ≡ r.alive
  unfolding push
  push-alive n v r = ground arith

  count-send : (v : T) (s : Bus.Shared T) → receiver_count (send v s) ≡ receiver_count s
  unfolding receiver_count send
  count-send v s = count-map_values (push s.capacity v) (push-alive s.capacity v) s.receivers

  count-drop_sender : (s : Bus.Shared T) → receiver_count (drop_sender s) ≡ receiver_count s
  unfolding receiver_count drop_sender
  count-drop_sender s = ground (arith, count-map_values unpark (λ r. refl) s.receivers)

  poll_entry-alive :
      (b : Bool) (q : List T) (parked : Bool) (missed : ℕ) (alive : Bool)
      → let r : RecvState T = record {
        queue = q;
        parked = parked;
        missed = missed;
        alive = alive;
      } in
        r.alive ≡ false → (poll_entry b true r).0.alive ≡ false
  unfolding poll_entry take_value
  poll_entry-alive b [] parked missed alive h = ground arith
  poll_entry-alive b (v ∷ q) parked missed alive h = ground arith

  count-poll_state :
      (id : ℕ) (s : Bus.Shared T) → receiver_count (poll_state true id s).0 ≤ receiver_count s
  unfolding receiver_count poll_state
  count-poll_state id s = looked (get id s.receivers) refl
    where
      looked :
          (o : Option (RecvState T))
          → get id s.receivers ≡ o
          → receiver_count (poll_state true id s).0 ≤ receiver_count s
      looked none e = rw (e, poll_state) (omega arith)
      looked (some r) e =
          rw (e, poll_state)
            (count-put id r (poll_entry s.senders_alive true r).0 s.receivers e
              (poll_entry-alive s.senders_alive r.queue r.parked r.missed r.alive))

-- A name that was given to a bus stands for it as long as the bus has a living receiver; the buses that
-- names stand for are made, and keep their names.
pub record IsRegistered (r : Registry) : Type 0 where
  pub held : (a : ℕ) → (receiver_count (r.buses a) ≡ 0) ⊎ (r.channel_of (r.name_of a) ≡ some a)
  pub named : (n : Text) (a : ℕ) → r.channel_of n ≡ some a → (r.name_of a ≡ n) × (a < r.next_bus)

-- What happens to a bus without a living receiver that comes to it.
Quiet : (Bus.Shared PersistedClient → Bus.Shared PersistedClient) → Type 0
Quiet f = (b : Bus.Shared PersistedClient) → receiver_count (f b) ≤ receiver_count b

at_bus-IsRegistered :
    (a : ℕ) (f : Bus.Shared PersistedClient → Bus.Shared PersistedClient) (r : Registry)
    → Quiet f
    → IsRegistered r
    → IsRegistered (at_bus a f r)
unfolding Quiet
at_bus-IsRegistered a f r quiet i = record { held = λ b. one b (i.held b); named = i.named }
  where
    one :
        (b : ℕ)
        → (receiver_count (r.buses b) ≡ 0) ⊎ (r.channel_of (r.name_of b) ≡ some b)
        → (receiver_count (if a == b then f (r.buses b) else r.buses b) ≡ 0)
          ⊎ (r.channel_of (r.name_of b) ≡ some b)
    one b (inl none_left) = inl (ground (arith, quiet (r.buses b)))
    one b (inr there) = inr there

made-IsRegistered :
    (n : Text) (r : Registry) → r.channel_of n ≡ none → IsRegistered r → IsRegistered (made n r)
unfolding made
made-IsRegistered n r free i = record {
  held = λ a. bus a (i.held a);
  named = λ m a. name m a (i.named m a);
}
  where
    kept :
        (a : ℕ)
        → r.channel_of (r.name_of a) ≡ some a
        → set_channel n (some r.next_bus) r.channel_of (r.name_of a) ≡ some a
    kept a there = elim (Bool-cases (text_eq n (r.name_of a))) [
      | inl same ↦
          let e : none ≡ some a =
            sym free ∙ ap r.channel_of (text_eq_sound n (r.name_of a) same) ∙ there in
          cc
      | inr other ↦ rw other there
    ]

    bus :
        (a : ℕ)
        → (receiver_count (r.buses a) ≡ 0) ⊎ (r.channel_of (r.name_of a) ≡ some a)
        → (receiver_count ((made n r).buses a) ≡ 0)
          ⊎ ((made n r).channel_of ((made n r).name_of a) ≡ some a)
    bus a old = elim (Bool-cases (r.next_bus == a)) [
      | inl own ↦
          let same : r.next_bus ≡ a = ground arith in inr (rw (own, text_eq_self n) (ap some same))
      | inr other ↦ elim old [
        | inl quiet ↦ inl (rw other quiet)
        | inr there ↦ inr (rw other (kept a there))
      ]
    ]

    name :
        (m : Text) (a : ℕ)
        → (r.channel_of m ≡ some a → (r.name_of a ≡ m) × (a < r.next_bus))
        → set_channel n (some r.next_bus) r.channel_of m ≡ some a
        → ((if r.next_bus == a then n else r.name_of a) ≡ m) × (a < suc r.next_bus)
    name m a old h = ground (arith, text_eq_sound n m)

or_insert-IsRegistered : (n : Text) (r : Registry) → IsRegistered r → IsRegistered (or_insert n r).0
unfolding or_insert found
or_insert-IsRegistered n r i = looked (r.channel_of n) refl
  where
    looked : (o : Option ℕ) → r.channel_of n ≡ o → IsRegistered (found n r o).0
    looked none e = made-IsRegistered n r e i
    looked (some a) e = i

-- The bus that `or_insert` gives is the one of the name, under the name.
or_insert_lem :
    (n : Text) (r : Registry)
    → IsRegistered r
    → let (r', a) = or_insert n r in (r'.channel_of n ≡ some a) × (r'.name_of a ≡ n)
unfolding or_insert found made
or_insert_lem n r i = looked (r.channel_of n) refl
  where
    looked :
        (o : Option ℕ)
        → r.channel_of n ≡ o
        → ((found n r o).0.channel_of n ≡ some (found n r o).1)
          × ((found n r o).0.name_of (found n r o).1 ≡ n)
    looked none e = (rw (text_eq_self n), ground arith)
    looked (some a) e = (e, (i.named n a e).0)

-- An operation on the bus of a name that stands for it.
held-IsRegistered :
    (a : ℕ) (f : Bus.Shared PersistedClient → Bus.Shared PersistedClient) (r : Registry)
    → r.channel_of (r.name_of a) ≡ some a
    → IsRegistered r
    → IsRegistered (at_bus a f r)
held-IsRegistered a f r there i = record { held = λ b. one b (i.held b); named = i.named }
  where
    one :
        (b : ℕ)
        → (receiver_count (r.buses b) ≡ 0) ⊎ (r.channel_of (r.name_of b) ≡ some b)
        → (receiver_count (if a == b then f (r.buses b) else r.buses b) ≡ 0)
          ⊎ (r.channel_of (r.name_of b) ≡ some b)
    one b old = elim (Bool-cases (a == b)) [
      | inl own ↦
          let same : a ≡ b = ground arith in
          inr (subst (λ x. r.channel_of (r.name_of x) ≡ some x) same there)
      | inr other ↦ rw other old
    ]

channel_entry-IsRegistered :
    (n : Text) (r : Registry) → IsRegistered r → IsRegistered (channel_entry n r).0
unfolding channel_entry
channel_entry-IsRegistered n r i =
    let (r', a) = or_insert n r in
    let (stands, name) = or_insert_lem n r i in
    held-IsRegistered a (λ b. (subscribe (clone_sender b)).0) r' (ap r'.channel_of name ∙ stands)
      (or_insert-IsRegistered n r i)

publish_begin-IsRegistered :
    (n : Text) (r : Registry) → IsRegistered r → IsRegistered (publish_begin n r).0
unfolding publish_begin
publish_begin-IsRegistered n r i =
    let (r', a) = or_insert n r in
    let (stands, name) = or_insert_lem n r i in
    held-IsRegistered a clone_sender r' (ap r'.channel_of name ∙ stands)
      (or_insert-IsRegistered n r i)

send-Quiet : (p : PersistedClient) → Quiet (λ b. drop_sender (send p b))
unfolding Quiet
send-Quiet p b = omega (arith, count-drop_sender (send p b), count-send p b)

drop_sender-Quiet : Quiet drop_sender
unfolding Quiet
drop_sender-Quiet b = omega (arith, count-drop_sender b)

drop_receiver-Quiet : (id : ℕ) → Quiet (drop_receiver id)
unfolding Quiet drop_receiver receiver_count
drop_receiver-Quiet id b = count-del id b.receivers

poll-Quiet : (id : ℕ) → Quiet (λ b. (poll_state true id b).0)
unfolding Quiet
poll-Quiet id b = count-poll_state id b

publish_end-IsRegistered :
    (a : ℕ) (p : PersistedClient) (r : Registry) → IsRegistered r → IsRegistered (publish_end a p r)
unfolding publish_end
publish_end-IsRegistered a p r i =
    if_holds IsRegistered (receiver_count (r.buses a) == 0) _ _
      (λ e. at_bus-IsRegistered a drop_sender r drop_sender-Quiet i)
      (λ e. at_bus-IsRegistered a (λ b. drop_sender (send p b)) r (send-Quiet p) i)

maybe_remove_channel-IsRegistered :
    (n : Text) (r : Registry) → IsRegistered r → IsRegistered (maybe_remove_channel n r)
unfolding maybe_remove_channel removed_if
maybe_remove_channel-IsRegistered n r i = looked (r.channel_of n) refl
  where
    there :
        (m : Text) (b : ℕ) → set_channel n none r.channel_of m ≡ some b → r.channel_of m ≡ some b
    there m b h = ground arith

    still :
        (a : ℕ)
        → r.channel_of n ≡ some a
        → receiver_count (r.buses a) ≡ 0
        → (b : ℕ) → (receiver_count (r.buses b) ≡ 0) ⊎ (r.channel_of (r.name_of b) ≡ some b)
        → (receiver_count (r.buses b) ≡ 0)
          ⊎ (set_channel n none r.channel_of (r.name_of b) ≡ some b)
    still a e quiet b (inl z) = inl z
    still a e quiet b (inr h) = elim (Bool-cases (text_eq n (r.name_of b))) [
      | inl same ↦
          let one : ◌≡◌ {A = Option ℕ} (some a) (some b) =
            sym e ∙ ap r.channel_of (text_eq_sound n (r.name_of b) same) ∙ h in
          let e' : a ≡ b = cc in inl (subst (λ x. receiver_count (r.buses x) ≡ 0) e' quiet)
      | inr other ↦ inr (rw other h)
    ]

    unnamed :
        (a : ℕ)
        → r.channel_of n ≡ some a
        → receiver_count (r.buses a) ≡ 0
        → IsRegistered (record r { channel_of = set_channel n none r.channel_of })
    unnamed a e quiet = record {
      held = λ b. still a e quiet b (i.held b);
      named = λ m b h. i.named m b (there m b h);
    }

    looked : (o : Option ℕ) → r.channel_of n ≡ o → IsRegistered (removed_if n o r)
    looked none e = i
    looked (some a) e =
        if_holds IsRegistered (receiver_count (r.buses a) == 0) _ _
          (λ z.
            at_bus-IsRegistered a drop_sender
              (record r { channel_of = set_channel n none r.channel_of }) drop_sender-Quiet
              (unnamed a e (ground arith)))
          (λ z. i)

-- What the threads of the process do with channels, each step under the lock of the registry or of a
-- bus: a subscription, the two halves of a publication, the drop of a sender and of a receiver, a poll
-- of a receiver, and the removal after the end of a task.
pub data Step (r : Registry) : Registry → Type 0 where
  enters : (n : Text) → Step r (channel_entry n r).0
  begins : (n : Text) → Step r (publish_begin n r).0
  ends : (a : ℕ) (p : PersistedClient) → Step r (publish_end a p r)
  drops_sender : (a : ℕ) → Step r (at_bus a drop_sender r)
  drops_receiver : (a id : ℕ) → Step r (at_bus a (drop_receiver id) r)
  polls : (a id : ℕ) → Step r (at_bus a (λ b. (poll_state true id b).0) r)
  removes : (n : Text) → Step r (maybe_remove_channel n r)

pub data Reach : Registry → Type 0 where
  start : Reach no_channels
  next : {r t : Registry} → Reach r → Step r t → Reach t

Step-IsRegistered : {r t : Registry} → Step r t → IsRegistered r → IsRegistered t
Step-IsRegistered {r} (enters n) i = channel_entry-IsRegistered n r i
Step-IsRegistered {r} (begins n) i = publish_begin-IsRegistered n r i
Step-IsRegistered {r} (ends a p) i = publish_end-IsRegistered a p r i
Step-IsRegistered {r} (drops_sender a) i = at_bus-IsRegistered a drop_sender r drop_sender-Quiet i
Step-IsRegistered {r} (drops_receiver a id) i =
    at_bus-IsRegistered a (drop_receiver id) r (drop_receiver-Quiet id) i
Step-IsRegistered {r} (polls a id) i =
    at_bus-IsRegistered a (λ b. (poll_state true id b).0) r (poll-Quiet id) i
Step-IsRegistered {r} (removes n) i = maybe_remove_channel-IsRegistered n r i

Reach-IsRegistered : {r : Registry} → Reach r → IsRegistered r
unfolding no_channels receiver_count drop_receiver del Bus.channel
Reach-IsRegistered start = record { held = λ a. inl refl; named = λ n a h. cc }
Reach-IsRegistered (next r st) = Step-IsRegistered st (Reach-IsRegistered r)

counted : (b : Bus.Shared PersistedClient) → receiver_count b ≡ count_alive b.receivers
unfolding receiver_count
counted b = refl

-- Whatever the threads do, a receiver that is alive sits on the bus that a publication on the channel
-- which the bus was made for is sent to, and a subscription to a channel gets a bus that was made for
-- it: no subscriber is left behind on a bus that has been removed from the registry.
pub publications_arrive :
    {r : Registry}
    → Reach r
    → (a id : ℕ) (receiver : RecvState PersistedClient)
    → get id (r.buses a).receivers ≡ some receiver
    → receiver.alive ≡ true
    → (n : Text)
    → ((publish_begin (r.name_of a) r).1 ≡ a)
      × ((channel_entry n r).0.name_of (channel_entry n r).1 ≡ n)
unfolding publish_begin or_insert found channel_entry
publications_arrive {r} reached a id receiver there alive n =
    let i = Reach-IsRegistered reached in
    let some_one = living id receiver (r.buses a).receivers there alive in
    (registered (i.held a) some_one, (or_insert_lem n r i).1)
  where
    registered :
        (receiver_count (r.buses a) ≡ 0) ⊎ (r.channel_of (r.name_of a) ≡ some a)
        → 0 < count_alive (r.buses a).receivers
        → (publish_begin (r.name_of a) r).1 ≡ a
    registered (inl none_left) living_one = absurd (omega (arith, counted (r.buses a)))
    registered (inr stands) living_one = ap (λ o. (found (r.name_of a) r o).1) stands
