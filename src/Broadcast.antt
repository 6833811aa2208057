-- ===== src/Broadcast.antt =====
-- src/broadcast.rs: snapshots of clients sent over named channels of the process. A channel's bus has
-- an address; the registry, a map under one lock, holds a sender of the bus that a name stands for
-- now. `name_of` notes the name that a bus was made for.
pub mod Registered
use rs_query.Base.{
  ℕ, zero, suc, ◌≡◌, Bool, true, false, Option, none, some, List, [], ◌∷◌, Text, text_eq, ◌==◌,
  if◌then◌else◌,
}
use rs_query.Watch
use rs_query.Watch.{Watcher, Poll, poll_changed}
use rs_query.Bus
use rs_query.Bus.{
  Received, send, subscribe, receiver_count, clone_sender, drop_sender, drop_receiver, poll_state,
  ok, empty, closed, lagged,
}
use rs_query.Client.Core.{Tables, Client, sender}
use rs_query.Client.Pages.{Payload}
use rs_query.Hydration.{default_dehydrate, dehydrate_state, hydrate_state}
use rs_query.PersistClient.{PersistedClient, Clock, default_hydrate}

-- `CHANNEL_CAPACITY`, and `DEFAULT_CHANNEL`.
abbrev pub channel_capacity : ℕ
channel_capacity = 64

abbrev pub default_channel : Text
default_channel = b'r' ∷ b's' ∷ b'-' ∷ b'q' ∷ b'u' ∷ b'e' ∷ b'r' ∷ b'y' ∷ []

-- `CHANNEL_REGISTRY` with the buses that it and the subscribers hold.
pub record Registry : Type 0 where
  pub channel_of : Text → Option ℕ
  pub buses : ℕ → Bus.Shared PersistedClient
  pub next_bus : ℕ
  pub name_of : ℕ → Text

-- The registry at the start of the process.
unfoldable pub no_channels : Registry
unfolding sender
no_channels = record {
  channel_of = λ n. none;
  buses = λ a. sender channel_capacity;
  next_bus = 0;
  name_of = λ a. [];
}

abbrev pub set_channel : Text → Option ℕ → (Text → Option ℕ) → Text → Option ℕ
set_channel n v f m = if text_eq n m then v else f m

abbrev pub at_bus :
    ℕ → (Bus.Shared PersistedClient → Bus.Shared PersistedClient) → Registry → Registry
at_bus a f r = record r { buses = λ b. if a == b then f (r.buses b) else r.buses b }

-- `entry(channel).or_insert_with(|| Sender::channel(CHANNEL_CAPACITY).0)`.
unfoldable pub made : Text → Registry → Registry
unfolding sender
made n r = record r {
  channel_of = set_channel n (some r.next_bus) r.channel_of;
  buses = λ b. if r.next_bus == b then sender channel_capacity else r.buses b;
  next_bus = suc r.next_bus;
  name_of = λ b. if r.next_bus == b then n else r.name_of b;
}

unfoldable pub found : Text → Registry → Option ℕ → Registry × ℕ
unfolding made
found n r none = (made n r, r.next_bus)
found n r (some a) = (r, a)

unfoldable pub or_insert : Text → Registry → Registry × ℕ
unfolding found
or_insert n r = found n r (r.channel_of n)

-- `channel_entry`: the address of the bus, a sender of which is cloned, and the id of the receiver.
unfoldable pub channel_entry : Text → Registry → Registry × ℕ × ℕ
unfolding subscribe clone_sender
channel_entry n r =
    let (r', a) = or_insert n r in
    let id = (subscribe (clone_sender (r'.buses a))).1 in
    (at_bus a (λ b. (subscribe (clone_sender b)).0) r', a, id)

-- `maybe_remove_channel`; the sender that the registry held is dropped.
unfoldable pub removed_if : Text → Option ℕ → Registry → Registry
unfolding receiver_count drop_sender
removed_if n none r = r
removed_if n (some a) r =
    if receiver_count (r.buses a) == 0
    then at_bus a drop_sender (record r { channel_of = set_channel n none r.channel_of })
    else r

unfoldable pub maybe_remove_channel : Text → Registry → Registry
unfolding removed_if
maybe_remove_channel n r = removed_if n (r.channel_of n) r

-- `publish_state` up to the end of its lock: the address of the bus, a sender of which is cloned.
unfoldable pub publish_begin : Text → Registry → Registry × ℕ
unfolding clone_sender
publish_begin n r = let (r', a) = or_insert n r in (at_bus a clone_sender r', a)

-- The rest of it, without the lock: the send, if anyone listens, and the drop of the clone, with no other
-- thread between the count of receivers and the send.
unfoldable pub publish_end : ℕ → PersistedClient → Registry → Registry
unfolding receiver_count drop_sender send
publish_end a snapshot r =
    if receiver_count (r.buses a) == 0
    then at_bus a drop_sender r
    else at_bus a (λ b. drop_sender (send snapshot b)) r

module _ {V : Type 0} (M : Tables V) where
  -- A subscription's task, with what its handle shares with it.
  pub record Subscription : Type 0 where
    pub channel : Text
    pub bus : ℕ
    pub receiver : ℕ
    pub unsubscribed : Bool
    pub stop_signal : Watch.Shared Bool
    pub stop_rx : Watcher
    pub running : Bool
    pub client : Client M

  -- `broadcast_query_client_with_options`; the clone of the sender is dropped at its end.
  unfoldable pub broadcast_query_client : Text → Client M → Registry → Registry × Subscription
  unfolding drop_sender
  broadcast_query_client n c r =
      let (r', a, id) = channel_entry n r in
      let (cell, rx) = Watch.new false in
      (
        at_bus a drop_sender r',
        record {
          channel = n;
          bus = a;
          receiver = id;
          unsubscribed = false;
          stop_signal = cell;
          stop_rx = rx;
          running = true;
          client = c;
        },
      )

  -- The end of the task: the receiver is dropped first.
  unfoldable pub drop_own : Subscription → Registry → Registry
  unfolding drop_receiver
  drop_own s r = at_bus s.bus (drop_receiver s.receiver) r

  unfoldable pub end_task : Subscription → Registry → Registry × Subscription
  unfolding drop_own
  end_task s r = (maybe_remove_channel s.channel (drop_own s r), record s { running = false })

  -- `BroadcastHandle::unsubscribe`.
  unfoldable pub unsubscribe : Subscription → Subscription
  unsubscribe s = record s { unsubscribed = true; stop_signal = (Watch.send true s.stop_signal).0 }

module _ {V : Type 0} (M : Tables V) (S : Payload V Text) (encode : Text → Text)
    (decode : Text → Option Text) where
  unfoldable pub snapshot_of : Clock → Client M → PersistedClient
  snapshot_of at c = record {
    timestamp_ms = at.wall;
    buster = [];
    client_state = dehydrate_state M S encode decode at.now at.wall c default_dehydrate;
  }

  -- A snapshot that came in: the flag is looked at, then the client is hydrated.
  unfoldable pub applied :
      (ℕ → V → V → Bool)
      → Clock
      → PersistedClient
      → Subscription M
      → Registry
      → Registry × Subscription M
  applied beq at p s r = if s.unsubscribed then end_task M s r else (
    r,
    record s {
      client = hydrate_state M S encode decode beq at.now p.client_state default_hydrate s.client;
    },
  )

  -- The branches on what the receiver got.
  unfoldable pub on_message :
      (ℕ → V → V → Bool)
      → Clock
      → Subscription M
      → Registry
      → Received PersistedClient
      → Registry × Subscription M
  on_message beq at s r (ok p) = applied beq at p s r
  on_message beq at s r (lagged n) = (r, s)
  on_message beq at s r closed = end_task M s r
  on_message beq at s r empty = (r, s)

  -- A poll of the `select`: the stop signal first, then the receiver.
  unfoldable pub selected :
      (ℕ → V → V → Bool)
      → Clock
      → Watch.Shared Bool × Watcher × Poll
      → Subscription M
      → Registry
      → Registry × Subscription M
  unfolding poll_state
  selected beq at (cell, rx, Poll.pending) s r =
      let (b, got) = poll_state true s.receiver (r.buses s.bus) in
      on_message beq at (record s { stop_signal = cell; stop_rx = rx }) (at_bus s.bus (λ old. b) r)
        got
  selected beq at (cell, rx, p) s r = end_task M (record s { stop_signal = cell; stop_rx = rx }) r

  unfoldable pub poll_task :
      (ℕ → V → V → Bool) → Clock → Subscription M → Registry → Registry × Subscription M
  poll_task beq at s r =
      if s.running then selected beq at (poll_changed s.stop_signal s.stop_rx) s r else (r, s)
