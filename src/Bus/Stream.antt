-- ===== src/Bus/Stream.antt =====
-- What a receiver sees of the stream: a notice of the values it lost, then the newest in order.
use rs_query.Base.{
  ℕ, zero, suc, ◌-◌, ◌<◌, ◌≡◌, refl, sym, ap, subst, ◌∙◌, Bool, false, some, List, [], ◌∷◌, ◌++◌,
  arith, length, drop, map, ltb, if◌then◌else◌,
}
use rs_query.Base.Table.{get, put, get-put, get-map_values}
use native.Mathlib.Decide.{dec_lt}
use rs_query.Bus.{
  RecvState, Shared, Received, ok, empty, closed, lagged, fresh, subscribe, push, send, poll_entry,
  try_recv,
}
use rs_query.Bus.Receiver.{push_all, push_all-Holds}

module _ {T : Type 0} where
  unfoldable pub send_all : List T → Shared T → Shared T
  send_all [] s = s
  send_all (v ∷ vs) s = send_all vs (send v s)

  -- The results of `n` calls of `try_recv` by one receiver.
  unfoldable pub collect : ℕ → ℕ → Shared T → List (Received T)
  collect zero id s = []
  collect (suc n) id s = let (s', res) = try_recv id s in res ∷ collect n id s'

  abbrev pub notice : ℕ → List (Received T)
  notice n = if ltb 0 n then lagged n ∷ [] else []

  abbrev pub last_result : Bool → Received T
  last_result senders_alive = if senders_alive then empty else closed

  -- All that a receiver in this state gets until its queue is empty, and what it gets then.
  abbrev pub outcome : Bool → ℕ → List T → List (Received T)
  outcome senders_alive missed q = notice missed ++ (map ok q ++ last_result senders_alive ∷ [])

  get-send_all :
      (vs : List T) (s : Shared T) (id : ℕ) (r : RecvState T)
      → get id s.receivers ≡ some r
      → (get id (send_all vs s).receivers ≡ some (push_all s.capacity vs r))
        × ((send_all vs s).senders_alive ≡ s.senders_alive)
  unfolding send_all push_all send
  get-send_all [] s id r e = (e, refl)
  get-send_all (v ∷ vs) s id r e =
      get-send_all vs (send v s) id (push s.capacity v r)
        (get-map_values (push s.capacity v) id s.receivers ∙ ground (arith))

  pub try_recv_entry :
      (s : Shared T) (id : ℕ) (r r' : RecvState T) (res : Received T)
      → get id s.receivers ≡ some r
      → poll_entry s.senders_alive false r ≡ (r', res)
      → try_recv id s ≡ (record s { receivers = put id r' s.receivers }, res)
  unfolding try_recv
  try_recv_entry s id r r' res e p = ground arith

  poll_value :
      (senders_alive : Bool) (r : RecvState T) (v : T) (q : List T)
      → r.missed ≡ 0
      → r.queue ≡ v ∷ q
      → poll_entry senders_alive false r ≡ (record r { queue = q }, ok v)
  unfolding poll_entry
  poll_value senders_alive r v q m h = ground arith

  poll_end :
      (senders_alive : Bool) (r : RecvState T)
      → r.missed ≡ 0
      → r.queue ≡ []
      → (poll_entry senders_alive false r).1 ≡ last_result senders_alive
  unfolding poll_entry
  poll_end senders_alive r m h = ground arith

  poll_lag :
      (senders_alive : Bool) (r : RecvState T)
      → 0 < r.missed
      → poll_entry senders_alive false r ≡ (record r { missed = 0 }, lagged r.missed)
  unfolding poll_entry
  poll_lag senders_alive r m = ground arith

  put_self : (id : ℕ) (r : RecvState T) (m : List (ℕ × RecvState T)) → get id (put id r m) ≡ some r
  put_self id r m = get-put id id r m ∙ ground arith

  collect_queue :
      (q : List T) (s : Shared T) (id : ℕ) (r : RecvState T)
      → get id s.receivers ≡ some r
      → r.missed ≡ 0
      → r.queue ≡ q
      → collect (length (outcome s.senders_alive 0 q)) id s ≡ outcome s.senders_alive 0 q
  unfolding collect
  collect_queue [] s id r e m h =
      rw
        (try_recv_entry s id r (poll_entry s.senders_alive false r).0
          (poll_entry s.senders_alive false r).1 e refl)
        (ap (λ x. x ∷ []) (poll_end s.senders_alive r m h))
  collect_queue (v ∷ q) s id r e m h =
      let r' : RecvState T = record r { queue = q } in
      rw (try_recv_entry s id r r' (ok v) e (poll_value s.senders_alive r v q m h)) (
        ap (◌∷◌ (ok v)) (
          collect_queue q (record s { receivers = put id r' s.receivers }) id r'
            (put_self id r' s.receivers) m refl))

  outcome_lost :
      (senders_alive : Bool) (n : ℕ) (q : List T)
      → 0 < n
      → outcome senders_alive n q ≡ lagged n ∷ outcome senders_alive 0 q
  outcome_lost senders_alive n q h = ground arith

  -- A receiver with `missed` lost values and a queue gets the notice, then the queue in its order,
  -- then `Empty` or, once the senders are gone, `Closed`.
  pub collect_entry :
      (s : Shared T) (id : ℕ) (r : RecvState T)
      → get id s.receivers ≡ some r
      → collect (length (outcome s.senders_alive r.missed r.queue)) id s
        ≡ outcome s.senders_alive r.missed r.queue
  unfolding collect
  collect_entry s id r e = elim (dec_lt 0 r.missed) [
    | yes lost ↦
        let r' : RecvState T = record r { missed = 0 } in
        rw
          (
            outcome_lost s.senders_alive r.missed r.queue lost,
            collect,
            try_recv_entry s id r r' (lagged r.missed) e (poll_lag s.senders_alive r lost),
          )
          (ap (◌∷◌ (lagged r.missed)) (
            collect_queue r.queue (record s { receivers = put id r' s.receivers }) id r'
              (put_self id r' s.receivers) refl refl))
    | no kept ↦
        let z : r.missed ≡ 0 = omega arith in
        subst
          (λ n.
            collect (length (outcome s.senders_alive n r.queue)) id s
            ≡ outcome s.senders_alive n r.queue)
          (sym z) (collect_queue r.queue s id r e z refl)
  ]

  -- Of a channel with a positive capacity, a subscriber that reads after `vs` were sent is told first how many of them it lost, if any
  -- (those beyond the capacity), then gets the newest ones, as many as the capacity, in the order
  -- of sending, and then `Empty` (`Closed`, if the senders are gone).
  pub subscriber_sees :
      (s : Shared T) (vs : List T)
      → 0 < s.capacity
      → let (s0, id) = subscribe s in
        let lost = length vs - s.capacity in
        let seen = outcome s.senders_alive lost (drop lost vs) in
        collect (length seen) id (send_all vs s0) ≡ seen
  unfolding subscribe
  subscriber_sees s vs p =
      let s0 : Shared T = (subscribe s).0 in
      let id : ℕ = (subscribe s).1 in
      let r : RecvState T = push_all s.capacity vs fresh in
      let held = push_all-Holds s.capacity vs fresh refl p (omega arith) in
      let at = get-send_all vs s0 id fresh (put_self id fresh s.receivers) in
      subst
        (λ z.
          collect (length (outcome z (length vs - s.capacity) (drop (length vs - s.capacity) vs)))
            id (send_all vs s0)
          ≡ outcome z (length vs - s.capacity) (drop (length vs - s.capacity) vs))
        at.1
        (let m : r.missed ≡ length vs - s.capacity = omega (arith, held.1) in
          rw (← held.0, ← m) (collect_entry (send_all vs s0) id r at.0))
