-- ===== src/Client/Core.antt =====
-- The state of `QueryClient`, its notifications and its in-flight table (src/client.rs), and the
-- variants that a notification carries (src/observer.rs). Values are dynamic in the source
-- (`Arc<dyn PartialEqAny>`, src/sharing.rs): here a payload of the type `V` with its type's id and
-- the address of the allocation; `beq` is the `PartialEq` of the type with that id.
use rs_query.Base.{
  ℕ, Bool, true, false, ◌&&◌, Option, none, some, List, [], ◌∷◌, Text, ◌==◌, if◌then◌else◌,
}
use rs_query.Bus
use rs_query.Bus.{Shared, channel, send, drop_receiver}
use rs_query.Key.{QueryKey}
use rs_query.Options.{QueryOptions}
use rs_query.Map.{DashMap}

-- `QueryStateVariant` and `QueryStateUpdate`.
pub data QueryStateVariant : Type 0 where
  idle loading refetching success stale error : QueryStateVariant

pub record QueryStateUpdate : Type 0 where
  pub key : Text
  pub state_variant : QueryStateVariant

-- `ActivityEvent`.
pub data ActivityEvent : Type 0 where
  fetching_count_changed mutating_count_changed : ℕ → ActivityEvent

-- `Arc<dyn PartialEqAny>`.
pub record Dynamic (V : Type 0) : Type 0 where
  pub type_id : ℕ
  pub address : ℕ
  pub value : V

-- `self.eq_any(other)`: `other` is of the type of `self`, and equal to it.
unfoldable pub eq_any : {V : Type 0} → (ℕ → V → V → Bool) → Dynamic V → Dynamic V → Bool
eq_any beq self other = other.type_id == self.type_id && beq self.type_id other.value self.value

-- `downcast_ref::<T>` at the type with the id `t`.
unfoldable pub downcast : {V : Type 0} → ℕ → Dynamic V → Option V
downcast t d = if d.type_id == t then some d.value else none

-- `CacheEntry`.
pub record CacheEntry (V : Type 0) : Type 0 where
  pub data_of : Dynamic V
  pub type_id : ℕ
  pub fetched_at : ℕ
  pub last_accessed : ℕ
  pub options : QueryOptions
  pub is_stale : Bool

-- The three tables. An `InFlightTask` is the id of the task that its token and its abort reach.
pub record Tables (V : Type 0) : Type 1 where
  pub cache : DashMap (CacheEntry V)
  pub in_flight : DashMap ℕ
  pub subscribers : DashMap (Shared QueryStateUpdate)

-- `QueryClient`. `aborted` lists the tasks that were cancelled and aborted, the last first, and
-- `next_address` stands for the allocator.
pub record Client {V : Type 0} (M : Tables V) : Type 0 where
  pub cache : M.cache.Map
  pub in_flight : M.in_flight.Map
  pub subscribers : M.subscribers.Map
  pub all_subscribers : Shared QueryStateUpdate
  pub default_options : Option QueryOptions
  pub is_restoring : Bool
  pub mount_count : ℕ
  pub reconnect_watcher : Bool
  pub fetching_count : ℕ
  pub mutating_count : ℕ
  pub activity : Shared ActivityEvent
  pub aborted : List ℕ
  pub next_address : ℕ

-- `bus::Sender::channel(n).0`: the first receiver is dropped at once.
unfoldable pub sender : {T : Type 0} → ℕ → Shared T
sender n = drop_receiver 0 (channel n).0

module _ {V : Type 0} (M : Tables V) where
  -- `QueryClient::new`, without its runtime and its collector thread.
  unfoldable pub new : Client M
  unfolding sender
  new = record {
    cache = M.cache.empty;
    in_flight = M.in_flight.empty;
    subscribers = M.subscribers.empty;
    all_subscribers = sender 64;
    default_options = none;
    is_restoring = false;
    mount_count = 0;
    reconnect_watcher = false;
    fetching_count = 0;
    mutating_count = 0;
    activity = sender 16;
    aborted = [];
    next_address = 0;
  }

  abbrev sender_or : Option (Shared QueryStateUpdate) → Shared QueryStateUpdate
  sender_or none = sender 16
  sender_or (some s) = s

  -- `subscribe`: the channel of the key is made when it is first asked for.
  unfoldable pub subscribe : Text → Client M → Client M × ℕ
  unfolding Bus.subscribe
  subscribe key c =
      let (s, id) = Bus.subscribe (sender_or (M.subscribers.get key c.subscribers)) in
      (record c { subscribers = M.subscribers.insert key s c.subscribers }, id)

  -- `subscribe_all`.
  unfoldable pub subscribe_all : Client M → Client M × ℕ
  unfolding Bus.subscribe
  subscribe_all c =
      let (s, id) = Bus.subscribe c.all_subscribers in (record c { all_subscribers = s }, id)

  -- The senders of one key.
  unfoldable pub send_to : QueryStateUpdate → M.subscribers.Map → M.subscribers.Map
  send_to u m = elim (M.subscribers.get u.key m) [
    | none ↦ m
    | some s ↦ M.subscribers.insert u.key (send u s) m
  ]

  unfoldable pub notify_subscribers : Text → QueryStateVariant → Client M → Client M
  unfolding send_to
  notify_subscribers key variant c =
      let u : QueryStateUpdate = record { key = key; state_variant = variant } in
      record c { all_subscribers = send u c.all_subscribers; subscribers = send_to u c.subscribers }

  unfoldable pub is_in_flight : Text → Client M → Bool
  is_in_flight key c = elim (M.in_flight.get key c.in_flight) [ none ↦ false | some t ↦ true ]

  unfoldable pub set_in_flight : Text → ℕ → Client M → Client M
  set_in_flight key task c = record c { in_flight = M.in_flight.insert key task c.in_flight }

  unfoldable pub clear_in_flight : Text → Client M → Client M
  clear_in_flight key c = record c { in_flight = M.in_flight.remove key c.in_flight }

  -- `if let Some((_, task)) = in_flight.remove(key) { token.cancel(); abort() }`.
  unfoldable pub abort_in_flight : Text → Client M → Client M
  abort_in_flight key c = elim (M.in_flight.get key c.in_flight) [
    | none ↦ c
    | some t ↦ record c { in_flight = M.in_flight.remove key c.in_flight; aborted = t ∷ c.aborted }
  ]

  -- `cancel_query`: subscribers are told only if there was something to cancel.
  unfoldable pub cancel_query : QueryKey → Client M → Client M
  unfolding is_in_flight abort_in_flight notify_subscribers
  cancel_query key c =
      if is_in_flight key.cache_key c
      then notify_subscribers key.cache_key error (abort_in_flight key.cache_key c)
      else c
