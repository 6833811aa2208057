-- ===== src/Tests/Channels.antt =====
-- The watch cell (src/watch.rs), the online manager (src/network.rs) and the broadcast channel
-- (src/bus.rs) at concrete inputs.
use rs_query.Base.{ℕ, ◌≡◌, refl, true, false, [], ◌∷◌, arith}
use rs_query.Base.Table.{get}
use rs_query.Watch
use rs_query.Watch.{Watcher, ready, closed, pending, borrow, poll_changed}
use rs_query.Network.{OnlineManager}
use rs_query.Bus
use rs_query.Bus.{
  channel, subscribe, send, ok, empty, lagged, try_recv, clone_receiver, clone_sender,
}
use rs_query.Bus.Stream.{send_all, collect, subscriber_sees}
use rs_query.Bus.Closing.{Counts, Fits, channel-Counts}
use rs_query.Bus.Cloning.{clone_receiver_closes}
use rs_query.Bus.Closing

abbrev cell : Watch.Shared ℕ
cell = record { value = 0; version = 0; alive = true; next_id = 2; waiters = [] }

abbrev watcher : Watcher
watcher = record { last_seen = 0; id = 1 }

abbrev offline : OnlineManager
offline = record {
  online = false;
  tx = record { value = false; version = 1; alive = true; next_id = 2; waiters = [] };
}

abbrev bus : Bus.Shared ℕ
bus = record { capacity = 2; next_id = 0; senders_alive = true; sender_count = 1; receivers = [] }

subscriber_sees_example :
    let (s0, id) = subscribe bus in
    collect 4 id (send_all (7 ∷ 8 ∷ 9 ∷ []) s0) ≡ lagged 1 ∷ ok 8 ∷ ok 9 ∷ empty ∷ []
subscriber_sees_example = subscriber_sees bus (7 ∷ 8 ∷ 9 ∷ []) (omega arith)

channel-Counts_example :
    Counts 2 (clone_sender (channel {T = ℕ} 4).0)
    × ((id : ℕ)
        → Fits
            (clone_sender (channel {T = ℕ} 4).0).capacity
            (get id (clone_sender (channel {T = ℕ} 4).0).receivers))
channel-Counts_example =
    channel-Counts 4
      (Closing.Reach.next Closing.Reach.here (Closing.Step.clones 1 (channel 4).0 (omega arith)))

clone_receiver_closes_example :
    let (s1, id) = clone_receiver bus in
    let (s2, first) = try_recv id s1 in
    let (s3, second) = try_recv id (send 5 s2) in
    (s1.senders_alive ≡ false) × (first ≡ Bus.Received.closed) × (second ≡ Bus.Received.closed)
clone_receiver_closes_example =
    clone_receiver_closes bus 5 (record { count = refl; is_open = refl })
