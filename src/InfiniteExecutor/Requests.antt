-- ===== src/InfiniteExecutor/Requests.antt =====
-- Which requests reach the loop.
use rs_query.Base.{
  ℕ, zero, suc, ap, ◌≡◌, refl, ◌∙◌, true, none, some, List, [], ◌∷◌, arith, is_some,
}
use rs_query.Watch
use rs_query.Watch.{Shared, Watcher}
use rs_query.InfiniteExecutor.{
  PageRequest, SlotInner, try_send, Phase, looking, subscribing, parked, received, recv_step,
}

-- A receiver runs on its own until it parks, receives or ends.
unfoldable pub steps : ℕ → SlotInner → Phase → SlotInner × Phase
steps zero s p = (s, p)
steps (suc n) s p = let (s', p') = recv_step s p in steps n s' p'

-- Requests sent one after the other.
unfoldable pub send_requests : List PageRequest → SlotInner → SlotInner
send_requests [] s = s
send_requests (r ∷ rs) s = send_requests rs (try_send r s).0

-- The slot after a request into the empty one.
abbrev filled : PageRequest → SlotInner → SlotInner
unfolding Watch.send
filled request s = record s { slot = some request; release = (Watch.send true s.release).0 }

try_send_empty :
    (request : PageRequest) (s : SlotInner)
    → s.slot ≡ none
    → try_send request s ≡ (filled request s, true)
unfolding try_send Watch.send
try_send_empty request s e = ground arith

full_slot : (rs : List PageRequest) (s : SlotInner) → is_some s.slot ≡ true → send_requests rs s ≡ s
unfolding send_requests try_send
full_slot [] s e = refl
full_slot (r ∷ rs) s e =
    let dropped : (try_send r s).0 ≡ s = ground arith in rw dropped (full_slot rs s e)

behind :
    (request : PageRequest) (s : SlotInner) (w : Watcher)
    → w.last_seen ≡ s.release.version
    → recv_step (filled request s) (parked w) ≡ (filled request s, looking)
unfolding recv_step Watch.send Watch.poll_changed
behind request s w u = ground arith

-- A request sent into an empty slot is received: in two steps by a receiver that is parked and up to
-- date, and in one by a receiver that is about to look into the slot.
request_received :
    (request : PageRequest) (s : SlotInner) (w : Watcher)
    → s.slot ≡ none
    → w.last_seen ≡ s.release.version
    → ((steps 2 (try_send request s).0 (parked w)).1 ≡ received request)
      × ((steps 1 (try_send request s).0 looking).1 ≡ received request)
unfolding steps recv_step filled
request_received request s w e u =
    let sent = try_send_empty request s e in
    (rw sent (ap (λ x. (steps 1 x.0 x.1).1) (behind request s w u)), rw sent refl)

waits :
    (s : SlotInner) (w : Watcher)
    → w.last_seen ≡ s.release.version
    → s.release.alive ≡ true
    → (recv_step s (parked w)).1 ≡ parked w
unfolding recv_step Watch.poll_changed
waits s w u a = ground arith

-- A request sent between the receiver's look into the empty slot and its subscription is lost, and all
-- later ones with it: the receiver parks on a watcher that has seen the wake-up, and stays parked
-- whatever is sent afterwards, since the slot is full.
pub request_lost :
    (request : PageRequest) (later : List PageRequest) (s : SlotInner)
    → s.slot ≡ none
    → s.release.alive ≡ true
    → let s1 = (try_send request s).0 in
      let (s2, phase) = recv_step s1 subscribing in
      let s3 = send_requests later s2 in (s3.slot ≡ some request) × ((recv_step s3 phase).1 ≡ phase)
unfolding recv_step Watch.send Watch.subscribe
request_lost request later s e a =
    let s2 = (recv_step (filled request s) subscribing).0 in
    let w = (Watch.subscribe (filled request s).release).1 in
    let stuck = full_slot later s2 refl in
    rw (try_send_empty request s e)
      (ap (λ x. x.slot) stuck, ap (λ x. (recv_step x (parked w)).1) stuck ∙ waits s2 w refl a)
