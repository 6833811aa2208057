-- ===== src/Bus/Cloning.antt =====
-- What the clone of a receiver does to the count of senders.
use rs_query.Base.{ℕ, ◌≡◌, refl, ap, ◌∙◌, false, some, [], arith}
use rs_query.Base.Table.{get, put, get-put, get-map_values}
use rs_query.Bus.{
  RecvState, Shared, closed, fresh, push, send, unpark, poll_entry, try_recv, clone_receiver,
}
use rs_query.Bus.Stream.{try_recv_entry}
use rs_query.Bus.Closing.{Counts}

module _ {T : Type 0} where
  abbrev dead : RecvState T
  dead = record fresh { alive = false }

  clone_entry :
      (s : Shared T)
      → Counts 1 s
      → let (s', id) = clone_receiver s in
        (s'.senders_alive ≡ false) × (get id s'.receivers ≡ some fresh)
  unfolding clone_receiver
  clone_entry s c = ground (
    arith,
    c.count,
    get-map_values unpark s.next_id (put s.next_id fresh s.receivers),
    get-put s.next_id s.next_id fresh s.receivers,
  )

  closed_read :
      (s : Shared T) (id : ℕ) (r : RecvState T)
      → get id s.receivers ≡ some r
      → s.senders_alive ≡ false
      → r.queue ≡ []
      → r.missed ≡ 0
      → try_recv id s
        ≡ (record s { receivers = put id (record r { alive = false }) s.receivers }, closed)
  unfolding poll_entry
  closed_read s id r e a q m =
      try_recv_entry s id r (record r { alive = false }) closed e (ground arith)

  send-dead :
      (s : Shared T) (id : ℕ) (v : T)
      → get id s.receivers ≡ some dead
      → get id (send v s).receivers ≡ some dead
  unfolding send push
  send-dead s id v e = ground (arith, get-map_values (push s.capacity v) id s.receivers)

  send_open : (v : T) (s : Shared T) → (send v s).senders_alive ≡ s.senders_alive
  unfolding send
  send_open v s = refl

  -- Cloning a receiver takes one off the count of senders: with one sender left, a clone closes the
  -- channel under it. The clone's first read says `Closed`, and a value that the living sender
  -- sends after that read never reaches it: its next read says `Closed` again.
  pub clone_receiver_closes :
      (s : Shared T) (v : T)
      → Counts 1 s
      → let (s1, id) = clone_receiver s in
        let (s2, first) = try_recv id s1 in
        let (s3, second) = try_recv id (send v s2) in
        (s1.senders_alive ≡ false) × (first ≡ closed) × (second ≡ closed)
  clone_receiver_closes s v c =
      let s1 : Shared T = (clone_receiver s).0 in
      let id : ℕ = (clone_receiver s).1 in
      let (off, at) = clone_entry s c in
      let s2 : Shared T = record s1 { receivers = put id dead s1.receivers } in
      let read : try_recv id s1 ≡ (s2, closed) = closed_read s1 id fresh at off refl refl in
      let at2 = send-dead s2 id v (get-put id id dead s1.receivers ∙ ground arith) in
      (
        off,
        rw read refl,
        rw read
            (ap (λ x. x.1) (closed_read (send v s2) id dead at2 (send_open v s2 ∙ off) refl refl)),
      )
