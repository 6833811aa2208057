-- ===== src/Watch.antt =====
-- src/watch.rs: a cell with one value and a version, and its watchers. The map of wakers is the
-- list of the ids of the watchers that are parked; version and id counters do not wrap here.
pub mod Changes
use Prim.Native.Nat.{compare, Ordering}
use rs_query.Base.{
  ℕ, suc, ◌≡◌, Bool, true, false, ◌&&◌, not, List, [], ◌∷◌, ◌==◌, if◌then◌else◌, select,
}

-- `Shared<T>`.
pub record Shared (T : Type 0) : Type 0 where
  pub value : T
  pub version : ℕ
  pub alive : Bool
  pub next_id : ℕ
  pub waiters : List ℕ

-- `Watcher<T>`, without the pointer to the shared cell.
pub record Watcher : Type 0 where
  pub last_seen : ℕ
  pub id : ℕ

-- What a poll of `Changed` gives.
pub data Poll : Type 0 where
  ready closed pending : Poll

module _ {T : Type 0} where
  -- `Watch::new`.
  unfoldable pub new : T → Shared T × Watcher
  new initial = (
    record { value = initial; version = 0; alive = true; next_id = 2; waiters = [] },
    record { last_seen = 0; id = 1 },
  )

  -- `Watch::subscribe`.
  unfoldable pub subscribe : Shared T → Shared T × Watcher
  subscribe s =
      (record s { next_id = suc s.next_id }, record { last_seen = s.version; id = s.next_id })

  -- `Watch::send`, with the ids of the watchers that are woken.
  unfoldable pub send : T → Shared T → Shared T × List ℕ
  send v s = (record s { value = v; version = suc s.version; waiters = [] }, s.waiters)

  -- `Watcher::borrow` and `peek`.
  unfoldable pub borrow : Shared T → Watcher → Watcher × T
  borrow s w = (record w { last_seen = s.version }, s.value)

  unfoldable pub peek : Shared T → T
  peek s = s.value

  unfoldable pub has_changed : Shared T → Watcher → Bool
  has_changed s w = s.alive && not (s.version == w.last_seen)

  -- `Watcher::clone`.
  unfoldable pub clone_watcher : Shared T → Watcher → Shared T × Watcher
  clone_watcher s w =
      (record s { next_id = suc s.next_id }, record { last_seen = w.last_seen; id = s.next_id })

  -- `HashMap::insert` of the waker.
  unfoldable pub park : ℕ → Shared T → Shared T
  park id s = record s { waiters = id ∷ select (λ i. not (i == id)) s.waiters }

  -- `Changed::poll`.
  unfoldable pub poll_changed : Shared T → Watcher → Shared T × Watcher × Poll
  unfolding park
  poll_changed s w =
      if not (s.version == w.last_seen)
      then (s, record w { last_seen = s.version }, ready)
      else if not s.alive
      then (s, w, closed)
      else (park w.id s, w, pending)
