-- ===== src/Bus.antt =====
-- src/bus.rs: the bounded broadcast channel. A sender is the shared state; a receiver is its id.
-- Each operation holds the lock from its start to its end, so it is one step. A waker is a flag:
-- whether the receiver is parked. Ids and counters do not wrap here.
pub mod Receiver
pub mod Stream
pub mod Closing
pub mod Cloning
use Prim.Native.Nat.{max}
use rs_query.Base.{
  ℕ, zero, suc, ◌+◌, ◌-◌, ◌≡◌, Bool, true, false, Option, none, some, List, [], ◌∷◌, ◌++◌, leb, ltb,
  ◌==◌, not, if◌then◌else◌, length, tail_of,
}
use rs_query.Base.Table.{get, put, del, map_values}

-- `RecvState<T>`.
pub record RecvState (T : Type 0) : Type 0 where
  pub queue : List T
  pub parked : Bool
  pub missed : ℕ
  pub alive : Bool

-- `Shared<T>`.
pub record Shared (T : Type 0) : Type 0 where
  pub capacity : ℕ
  pub next_id : ℕ
  pub senders_alive : Bool
  pub sender_count : ℕ
  pub receivers : List (ℕ × RecvState T)

-- `Result<T, TryRecvError>`.
pub data Received (T : Type 0) : Type 0 where
  ok : T → Received T
  empty closed : Received T
  lagged : ℕ → Received T

module _ {T : Type 0} where
  abbrev pub fresh : RecvState T
  fresh = record { queue = []; parked = false; missed = 0; alive = true }

  -- `Sender::channel`; the first receiver has the id 0.
  unfoldable pub channel : ℕ → Shared T × ℕ
  unfolding put
  channel capacity = (
    record {
      capacity = max capacity 1;
      next_id = 1;
      senders_alive = true;
      sender_count = 1;
      receivers = put 0 fresh [];
    },
    0,
  )

  unfoldable pub subscribe : Shared T → Shared T × ℕ
  subscribe s =
      (record s { next_id = suc s.next_id; receivers = put s.next_id fresh s.receivers }, s.next_id)

  -- The body of the loop of `send`.
  unfoldable pub push : ℕ → T → RecvState T → RecvState T
  push capacity v r =
      if not r.alive
      then r
      else if leb capacity (length r.queue)
      then record r { queue = tail_of r.queue ++ v ∷ []; missed = suc r.missed; parked = false }
      else record r { queue = r.queue ++ v ∷ []; parked = false }

  unfoldable pub send : T → Shared T → Shared T
  send v s = record s { receivers = map_values (push s.capacity v) s.receivers }

  abbrev pub count_alive : List (ℕ × RecvState T) → ℕ
  count_alive [] = 0
  count_alive ((i, r) ∷ m) = let rest = count_alive m in if r.alive then suc rest else rest

  unfoldable pub receiver_count : Shared T → ℕ
  receiver_count s = count_alive s.receivers

  -- `Clone` and `Drop` of `Sender`; `saturating_sub` is the subtraction of ℕ.
  unfoldable pub clone_sender : Shared T → Shared T
  clone_sender s = record s { sender_count = suc s.sender_count }

  abbrev pub unpark : RecvState T → RecvState T
  unpark r = record r { parked = false }

  unfoldable pub drop_sender : Shared T → Shared T
  drop_sender s =
      let n = s.sender_count - 1 in
      if n == 0
      then record s {
        sender_count = n;
        senders_alive = false;
        receivers = map_values unpark s.receivers;
      }
      else record s { sender_count = n }

  -- The end of `Receiver::poll_state`, by the receiver's queue: `pop_front`, else the closed
  -- channel, else the waker is left, if one is given.
  unfoldable pub take_value : Bool → Bool → RecvState T → List T → RecvState T × Received T
  take_value senders_alive waiting r (v ∷ rest) = (record r { queue = rest }, ok v)
  take_value senders_alive waiting r [] =
      if not senders_alive
      then (record r { alive = false }, closed)
      else if waiting
      then (record r { parked = true }, empty)
      else (r, empty)

  -- `Receiver::poll_state` on the receiver's entry; `waiting` tells whether a waker is given.
  unfoldable pub poll_entry : Bool → Bool → RecvState T → RecvState T × Received T
  unfolding take_value
  poll_entry senders_alive waiting r =
      if ltb 0 r.missed
      then (record r { missed = 0 }, lagged r.missed)
      else take_value senders_alive waiting r r.queue

  -- `Receiver::poll_state`: `try_recv` gives no waker, a poll of `recv` gives one. An `empty` is
  -- the `Pending` of that poll.
  unfoldable pub poll_state : Bool → ℕ → Shared T → Shared T × Received T
  poll_state waiting id s = elim (get id s.receivers) [
    | none ↦ (s, closed)
    | some r ↦
        let (r', res) = poll_entry s.senders_alive waiting r in
        (record s { receivers = put id r' s.receivers }, res)
  ]

  unfoldable pub try_recv : ℕ → Shared T → Shared T × Received T
  unfolding poll_state
  try_recv = poll_state false

  -- `Drop` of `Receiver`.
  unfoldable pub drop_receiver : ℕ → Shared T → Shared T
  drop_receiver id s = record s { receivers = del id s.receivers }

  -- `Clone` of `Receiver`: a `Sender` is built around the shared state, asked for a subscription,
  -- and dropped at the end of the statement.
  unfoldable pub clone_receiver : Shared T → Shared T × ℕ
  unfolding subscribe drop_sender
  clone_receiver s = let (s', id) = subscribe s in (drop_sender s', id)
