-- ===== src/PersistClient/Saving.antt =====
-- The save loop of `persist_query_client` once its handle is used.
use rs_query.Base.{
  suc, ◌≤◌, ◌<◌, ◌≡◌, ◌⊎◌, inl, inr, refl, sym, subst, ap, ◌∙◌, Bool-cases, if◌then◌else◌, if_holds,
  ◌==◌, Bool, true, false, Option, Text, arith,
}
use rs_query.Watch
use rs_query.Watch.{Shared, Watcher, Poll, poll_changed, park}
use rs_query.Client.Core.{Tables}
use rs_query.Client.Pages.{Payload}
use rs_query.PersistClient.{
  PersistedClient, PersistQueryClientOptions, ClientPersister, Clock, World, SaveLoop, subscribed,
  raise_flag, send_stop, unsubscribe, Phase, selecting, cleared, saving, persisted, client_snapshot,
  ticked, selected, advanced, poll_loop,
}

module _ {V : Type 0} (M : Tables V) (S : Payload V Text) (encode : Text → Text)
    (decode : Text → Option Text) (P : ClientPersister) (o : PersistQueryClientOptions) where
  -- What the runtime and the owner of the handle do with a loop.
  pub data Step : SaveLoop M P → SaveLoop M P → Type 0 where
    polls :
        (at : Clock) (elapsed done : Bool) (l : SaveLoop M P)
        → Step l (poll_loop M S encode decode P o at elapsed done l)
    raises : (l : SaveLoop M P) → Step l (raise_flag M P l)
    sends : (l : SaveLoop M P) → Step l (send_stop M P l)

  pub data Reach (l : SaveLoop M P) : SaveLoop M P → Type 0 where
    here : Reach l l
    next : {m n : SaveLoop M P} → Reach l m → Step m n → Reach l n

  abbrev Seen : SaveLoop M P → Type 0
  Seen l = l.stop_rx.last_seen ≤ l.stop_signal.version

  Step-Seen : {l m : SaveLoop M P} → Step l m → Seen l → Seen m
  unfolding poll_loop advanced selected ticked poll_changed park raise_flag send_stop Watch.send
  Step-Seen (polls at elapsed done l) h = ground arith
  Step-Seen (raises l) h = h
  Step-Seen (sends l) h = omega arith

  Reach-Seen : {l m : SaveLoop M P} → Seen l → Reach l m → Seen m
  Reach-Seen h here = h
  Reach-Seen h (next r st) = Step-Seen st (Reach-Seen h r)

  -- What can have become of the loop and of the world since a call of `unsubscribe` that found the loop
  -- in the phase and the world: nothing, or the one save that was on its way has gone on or ended.
  pub data Late (w : World M P) : Phase → Phase → World M P → Type 0 where
    untouched : (p : Phase) → Late w p p w
    begun : (p : PersistedClient) → Late w cleared (saving p) w
    ended : (p : PersistedClient) → Late w cleared selecting (persisted M S encode decode P o p w).0
    ended_soon :
        (p : PersistedClient) → Late w (saving p) selecting (persisted M S encode decode P o p w).0

  -- The flag is up, and the loop is over or will see the stop signal at its next `select`.
  record IsQuiet (w : World M P) (at_first : Phase) (l : SaveLoop M P) : Type 0 where
    flag : l.unsubscribed ≡ true
    late : Late w at_first l.phase l.world
    news : (l.running ≡ false) ⊎ (l.stop_rx.last_seen < l.stop_signal.version)

  save_begun :
      (w w' : World M P) (at_first : Phase) (p : PersistedClient)
      → Late w at_first cleared w'
      → Late w at_first (saving p) w'
  save_begun w w' at_first p (untouched q) = begun p

  save_ended :
      (w w' : World M P) (at_first : Phase) (p : PersistedClient)
      → Late w at_first (saving p) w'
      → Late w at_first selecting (persisted M S encode decode P o p w').0
  save_ended w w' at_first p (untouched q) = ended_soon p
  save_ended w w' at_first p (begun q) = ended p

  -- One part of the loop that has the stop signal before it.
  advanced-IsQuiet :
      (w : World M P) (at_first now : Phase) (at : Clock) (elapsed done : Bool) (l : SaveLoop M P)
      → l.stop_rx.last_seen < l.stop_signal.version
      → l.unsubscribed ≡ true
      → l.phase ≡ now
      → Late w at_first now l.world
      → IsQuiet w at_first (advanced M S encode decode P o at elapsed done now l)
  unfolding advanced selected poll_changed
  advanced-IsQuiet w at_first selecting at elapsed done l news flag at_phase late =
      let apart : (l.stop_signal.version == l.stop_rx.last_seen) ≡ false = ground arith in
      rw apart (record {
        flag = flag;
        late = subst (λ p. Late w at_first p l.world) (sym at_phase) late;
        news = inl refl;
      })
  advanced-IsQuiet w at_first cleared at elapsed done l news flag at_phase late = record {
    flag = flag;
    late = save_begun w l.world at_first (client_snapshot M S encode decode P o at l.world) late;
    news = inr news;
  }
  advanced-IsQuiet w at_first (saving p) at elapsed true l news flag at_phase late = record {
    flag = flag;
    late = save_ended w l.world at_first p late;
    news = inr news;
  }
  advanced-IsQuiet w at_first (saving p) at elapsed false l news flag at_phase late = record {
    flag = flag;
    late = subst (λ p. Late w at_first p l.world) (sym at_phase) late;
    news = inr news;
  }

  poll-IsQuiet :
      (w : World M P) (at_first : Phase) (at : Clock) (elapsed done : Bool) (l : SaveLoop M P)
      → IsQuiet w at_first l
      → IsQuiet w at_first (poll_loop M S encode decode P o at elapsed done l)
  unfolding poll_loop
  poll-IsQuiet w at_first at elapsed done l q =
      if_holds (IsQuiet w at_first) l.running _ _
        (λ on.
          advanced-IsQuiet w at_first l.phase at elapsed done l (ground (arith, on, q.news)) q.flag
            refl q.late)
        (λ off. q)

  later :
      (l : SaveLoop M P)
      → (l.running ≡ false) ⊎ (l.stop_rx.last_seen < l.stop_signal.version)
      → (l.running ≡ false) ⊎ (l.stop_rx.last_seen < suc l.stop_signal.version)
  later l (inl over) = inl over
  later l (inr news) = inr (omega arith)

  Step-IsQuiet :
      (w : World M P) (at_first : Phase) {l m : SaveLoop M P}
      → Step l m
      → IsQuiet w at_first l
      → IsQuiet w at_first m
  unfolding raise_flag send_stop Watch.send
  Step-IsQuiet w at_first (polls at elapsed done l) q = poll-IsQuiet w at_first at elapsed done l q
  Step-IsQuiet w at_first (raises l) q = record { flag = refl; late = q.late; news = q.news }
  Step-IsQuiet w at_first (sends l) q = record {
    flag = q.flag;
    late = q.late;
    news = later l q.news;
  }

  Reach-IsQuiet :
      (w : World M P) (at_first : Phase) {l m : SaveLoop M P}
      → IsQuiet w at_first l
      → Reach l m
      → IsQuiet w at_first m
  Reach-IsQuiet w at_first q here = q
  Reach-IsQuiet w at_first q (next r st) = Step-IsQuiet w at_first st (Reach-IsQuiet w at_first q r)

  abbrev IsStopped : SaveLoop M P → Type 0
  IsStopped l = (l.running ≡ false) ⊎ (l.stop_rx.last_seen < l.stop_signal.version)

  -- A poll with the call of the persister over.
  abbrev once : Clock → Bool → SaveLoop M P → SaveLoop M P
  once at elapsed l = poll_loop M S encode decode P o at elapsed true l

  once_off :
      (at : Clock) (elapsed : Bool) (l : SaveLoop M P) → l.running ≡ false → once at elapsed l ≡ l
  unfolding poll_loop
  once_off at elapsed l h =
      ap (λ b. if b then advanced M S encode decode P o at elapsed true l.phase l else l) h

  once_on :
      (at : Clock) (elapsed : Bool) (l : SaveLoop M P) (p : Phase)
      → l.running ≡ true
      → l.phase ≡ p
      → once at elapsed l ≡ advanced M S encode decode P o at elapsed true p l
  unfolding poll_loop
  once_on at elapsed l p h at_phase =
      ap (λ b. if b then advanced M S encode decode P o at elapsed true l.phase l else l) h
      ∙ ap (λ q. advanced M S encode decode P o at elapsed true q l) at_phase

  over_stays :
      (at : Clock) (elapsed : Bool) (l : SaveLoop M P)
      → l.running ≡ false
      → (once at elapsed l).running ≡ false
  over_stays at elapsed l h = ap (λ x. x.running) (once_off at elapsed l h) ∙ h

  selecting_stops :
      (at : Clock) (elapsed : Bool) (l : SaveLoop M P)
      → l.phase ≡ selecting
      → IsStopped l
      → (once at elapsed l).running ≡ false
  unfolding advanced selected poll_changed
  selecting_stops at elapsed l at_phase ends = elim (Bool-cases l.running) [
    | inl on ↦
        let apart : (l.stop_signal.version == l.stop_rx.last_seen) ≡ false =
          ground (arith, on, ends) in
        ap (λ x. x.running) (once_on at elapsed l selecting on at_phase) ∙ rw apart refl
    | inr off ↦ over_stays at elapsed l off
  ]

  saving_stops :
      (at : Clock) (elapsed : Bool) (l : SaveLoop M P) (p : PersistedClient)
      → l.phase ≡ saving p
      → IsStopped l
      → (once at elapsed (once at elapsed l)).running ≡ false
  unfolding advanced
  saving_stops at elapsed l p at_phase ends = elim (Bool-cases l.running) [
    | inl on ↦
        let news : l.stop_rx.last_seen < l.stop_signal.version = ground (arith, on, ends) in
        ap (λ x. (once at elapsed x).running) (once_on at elapsed l (saving p) on at_phase)
        ∙ selecting_stops at elapsed _ refl (inr news)
    | inr off ↦ over_stays at elapsed _ (over_stays at elapsed l off)
  ]

  cleared_stops :
      (at : Clock) (elapsed : Bool) (l : SaveLoop M P)
      → l.phase ≡ cleared
      → IsStopped l
      → (once at elapsed (once at elapsed (once at elapsed l))).running ≡ false
  unfolding advanced
  cleared_stops at elapsed l at_phase ends = elim (Bool-cases l.running) [
    | inl on ↦
        let news : l.stop_rx.last_seen < l.stop_signal.version = ground (arith, on, ends) in
        ap (λ x. (once at elapsed (once at elapsed x)).running)
          (once_on at elapsed l cleared on at_phase)
        ∙ saving_stops at elapsed _ _ refl (inr news)
    | inr off ↦ over_stays at elapsed _ (over_stays at elapsed _ (over_stays at elapsed l off))
  ]

  anywhere_stops :
      (at : Clock) (elapsed : Bool) (l : SaveLoop M P) (p : Phase)
      → l.phase ≡ p
      → IsStopped l
      → (once at elapsed (once at elapsed (once at elapsed l))).running ≡ false
  anywhere_stops at elapsed l selecting at_phase ends =
      over_stays at elapsed _ (over_stays at elapsed _ (selecting_stops at elapsed l at_phase ends))
  anywhere_stops at elapsed l cleared at_phase ends = cleared_stops at elapsed l at_phase ends
  anywhere_stops at elapsed l (saving p) at_phase ends =
      over_stays at elapsed _ (saving_stops at elapsed l p at_phase ends)

  -- From the call of `unsubscribe` on, whenever it comes, and whatever the loop is polled and its handle
  -- used afterwards: a loop that stood before its `select` changes neither the client nor the backend any
  -- more; one that was past its look at the flag, or in a save, ends that one save and does nothing else;
  -- and three polls more, with the call of the persister over, end the loop.
  pub unsubscribe_stops :
      (w : World M P) {l m : SaveLoop M P}
      → Reach (subscribed M P w) l
      → Reach (unsubscribe M P l) m
      → (at : Clock) (elapsed : Bool)
      → let poll = poll_loop M S encode decode P o at elapsed true in
        Late l.world l.phase m.phase m.world × ((poll (poll (poll m))).running ≡ false)
  unfolding subscribed unsubscribe raise_flag send_stop Watch.new Watch.send
  unsubscribe_stops w {l} {m} before r at elapsed =
      let seen : Seen l = Reach-Seen (omega arith) before in
      let q =
        Reach-IsQuiet l.world l.phase
          (record { flag = refl; late = untouched l.phase; news = inr (omega arith) }) r in
      (q.late, anywhere_stops at elapsed m m.phase refl q.news)
