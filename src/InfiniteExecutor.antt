-- ===== src/InfiniteExecutor.antt =====
-- src/infinite_executor.rs: the request slot between an observer and the loop of an infinite query,
-- and the loop. `recv` is a machine whose phases end where its locks are released; the loop's fetch
-- is an input, with what other threads do to the client while it is awaited.
pub mod Requests
pub mod Serving
use mathlib.Core.Option
use rs_query.Base.{
  ℕ, Bool, true, false, ◌&&◌, not, ◌⊎◌, inl, inr, Option, none, some, List, [], ◌∷◌, if◌then◌else◌,
  is_some, head?, get_last?,
}
use rs_query.Key.{QueryKey}
use rs_query.Options.{QueryOptions}
use rs_query.State.{QueryError}
use rs_query.Watch
use rs_query.Watch.{Shared, Watcher, poll_changed, Poll}
use rs_query.Infinite.{InfiniteData, with_first_page}
use rs_query.Client.Core.{
  QueryStateVariant, Tables, Client, is_in_flight, set_in_flight, clear_in_flight,
  notify_subscribers, cancel_query,
}
use rs_query.Client.Pages.{
  Payload, get_infinite_data, set_infinite_data, append_infinite_page, prepend_infinite_page,
}

-- `PageRequest`; `next_page` and `previous_page` are `Next` and `Previous`.
pub data PageRequest : Type 0 where
  next_page previous_page : PageRequest

-- `SlotInner`, with whether the sender's `Arc` is there.
pub record SlotInner : Type 0 where
  pub slot : Option PageRequest
  pub release : Shared Bool
  pub sender_alive : Bool

-- `PageRequestSender::pair`. The cell's value is `()` in the source and `true` here.
unfoldable pub pair : SlotInner
unfolding Watch.new
pair = record { slot = none; release = (Watch.new true).0; sender_alive = true }

-- `try_send`.
unfoldable pub try_send : PageRequest → SlotInner → SlotInner × Bool
unfolding Watch.send
try_send request s =
    if is_some s.slot
    then (s, false)
    else (record s { slot = some request; release = (Watch.send true s.release).0 }, true)

-- The drop of the sender: the wake-up comes before its `Arc` is released.
unfoldable pub drop_signal : SlotInner → SlotInner
unfolding Watch.send
drop_signal s = record s { release = (Watch.send true s.release).0 }

unfoldable pub drop_arc : SlotInner → SlotInner
drop_arc s = record s { sender_alive = false }

-- Where `recv` is: before it takes from the slot, before it counts the references, before it
-- subscribes, and parked on a watcher.
pub data Phase : Type 0 where
  looking counting subscribing : Phase
  parked : Watcher → Phase
  received : PageRequest → Phase
  ended : Phase

-- One step of `recv`.
unfoldable pub recv_step : SlotInner → Phase → SlotInner × Phase
unfolding Watch.subscribe poll_changed
recv_step s looking = elim s.slot [
  | some request ↦ (record s { slot = none }, received request)
  | none ↦ (s, counting)
]
recv_step s counting = if s.sender_alive then (s, subscribing) else (s, ended)
recv_step s subscribing =
    let (release, w) = Watch.subscribe s.release in (record s { release = release }, parked w)
recv_step s (parked w) =
    let (release, w', polled) = poll_changed s.release w in
    (
      record s { release = release },
      elim polled [ Poll.pending ↦ parked w' | Poll.ready ↦ looking | Poll.closed ↦ looking ],
    )
recv_step s (received request) = (s, received request)
recv_step s ended = (s, ended)

-- `InfiniteLoopParams`, without the fetch function.
pub record InfiniteLoopParams (T P : Type 0) : Type 0 where
  pub key : QueryKey
  pub options : QueryOptions
  pub initial_param : P
  pub get_next_fn : Option (T → List T → Option P)
  pub get_prev_fn : Option (T → List T → Option P)
  pub max_pages : Option ℕ

-- The parameter of the page asked for: the function of the direction at the page at that end.
abbrev pub param_at : {T P : Type 0} → Option (T → List T → Option P) → Option T → List T → Option P
param_at none page pages = none
param_at (some get) none pages = none
param_at (some get) (some page) pages = get page pages

abbrev pub page_param :
    {T P : Type 0} → InfiniteLoopParams T P → PageRequest → InfiniteData T P → Option P
page_param q next_page d = param_at q.get_next_fn (get_last? d.pages) d.pages
page_param q previous_page d = param_at q.get_prev_fn (head? d.pages) d.pages

module _ {V T P : Type 0} (M : Tables V) (I : Payload V (InfiniteData T P))
    (q : InfiniteLoopParams T P) where
  -- The loop's first fetch. What it does to the observer is not the client's.
  unfoldable pub first_fetch : (ℕ → V → V → Bool) → ℕ → T ⊎ QueryError → Client M → Client M
  unfolding set_infinite_data notify_subscribers with_first_page
  first_fetch beq now (inl page) c =
      set_infinite_data M I beq now q.key (with_first_page page q.initial_param) q.options c
  first_fetch beq now (inr e) c = notify_subscribers M q.key.cache_key QueryStateVariant.error c

  -- The guards of the loop's body: the parameter of the page to fetch, if one is to be fetched.
  unfoldable pub accepts : PageRequest → Client M → Option P
  unfolding get_infinite_data is_in_flight
  accepts request c = elim (get_infinite_data M I q.key c) [
    | none ↦ none
    | some d ↦ if is_in_flight M q.key.cache_key c then none else page_param q request d
  ]

  -- The `match` on the fetch; an outer `none` is a panic.
  unfoldable pub store_page : ℕ → PageRequest → P → T ⊎ QueryError → Client M → Option (Client M)
  unfolding append_infinite_page prepend_infinite_page notify_subscribers
  store_page now next_page param (inl page) c =
      Option.map (λ r. r.0) (append_infinite_page M I now q.key page param q.max_pages c)
  store_page now previous_page param (inl page) c =
      some (prepend_infinite_page M I now q.key page param q.max_pages c).0
  store_page now request param (inr e) c =
      some (notify_subscribers M q.key.cache_key QueryStateVariant.error c)

  -- One turn of the loop. `task` is the id of the entry that it registers, and `meanwhile` what other
  -- threads do to the client while the page is fetched.
  unfoldable pub serve :
      ℕ
      → ℕ
      → (P → T ⊎ QueryError)
      → (Client M → Client M)
      → PageRequest
      → Client M
      → Option (Client M)
  unfolding accepts store_page set_in_flight clear_in_flight
  serve now task fetch meanwhile request c = elim (accepts request c) [
    | none ↦ some c
    | some param ↦ Option.map (clear_in_flight M q.key.cache_key) (
        store_page now request param (fetch param)
          (meanwhile (set_in_flight M q.key.cache_key task c)))
  ]

  -- `fetch_page_with` on the client: an in-flight fetch is cancelled, or the request is dropped.
  -- The second part tells whether the request goes on to the slot.
  unfoldable pub fetch_page_with : Bool → Client M → Client M × Bool
  unfolding is_in_flight cancel_query
  fetch_page_with cancel_refetch c =
      if is_in_flight M q.key.cache_key c
      then (if not cancel_refetch then (c, false) else (cancel_query M q.key c, true))
      else (c, true)

  -- The observer's own state, else the cache.
  abbrev known_data : Option (InfiniteData T P) → Client M → Option (InfiniteData T P)
  known_data (some d) c = some d
  known_data none c = get_infinite_data M I q.key c

  abbrev leads_on : PageRequest → Option (InfiniteData T P) → Bool
  leads_on request none = false
  leads_on request (some d) = is_some (page_param q request d)

  -- `has_next_page` and `has_previous_page` of the observer, whose state holds `own`.
  unfoldable pub has_next_page : Option (InfiniteData T P) → Client M → Bool
  has_next_page own c = leads_on next_page (known_data own c)

  unfoldable pub has_previous_page : Option (InfiniteData T P) → Client M → Bool
  has_previous_page own c = leads_on previous_page (known_data own c)
