-- ===== src/Watch/Changes.antt =====
-- No change is lost: what the polls of a watcher give after any number of writes.
use mathlib.Core.List.{Memᴰ}
use rs_query.Base.{
  subst, sym, ◌≢◌, not, ◌==◌, select, ◌+◌, ◌≡◌, refl, true, false, List, [], ◌∷◌, arith, length,
}
use rs_query.Watch.{
  Shared, Watcher, ready, closed, pending, new, subscribe, clone_watcher, send, borrow,
  poll_changed,
}

module _ {T : Type 0} where
  -- Several writes, one after the other.
  unfoldable pub send_all : List T → Shared T → Shared T
  send_all [] s = s
  send_all (v ∷ vs) s = send_all vs (send v s).0

  abbrev pub last_or : T → List T → T
  last_or d [] = d
  last_or d (v ∷ vs) = last_or v vs

  send_all_fields :
      (vs : List T) (s : Shared T)
      → ((send_all vs s).version ≡ s.version + length vs)
        × ((send_all vs s).value ≡ last_or s.value vs)
        × ((send_all vs s).alive ≡ s.alive)
  unfolding send_all send
  send_all_fields [] s = (omega arith, refl, refl)
  send_all_fields (v ∷ vs) s = ground (arith, send_all_fields vs (send v s).0)

  -- Writes coalesce: after any positive number of writes since a watcher was up to date, its next
  -- poll is ready at once, it then reads the last value written, and the poll after that is not
  -- ready until there is another write.
  poll_after_writes :
      (s : Shared T) (w : Watcher) (v : T) (vs : List T)
      → w.last_seen ≡ s.version
      → let s' = send_all (v ∷ vs) s in
        let (s1, w1, p) = poll_changed s' w in
        (p ≡ ready)
        × (s1 ≡ s')
        × ((borrow s1 w1).1 ≡ last_or v vs)
        × ((poll_changed s1 w1).2 ≡ (elim s.alive [ true ↦ pending | false ↦ closed ]))
  unfolding poll_changed borrow
  poll_after_writes s w v vs e = ground (arith, send_all_fields (v ∷ vs) s)

  -- A watcher whose poll is pending is woken by the next write, and its poll after that is ready.
  parked_woken :
      (s : Shared T) (w : Watcher) (v : T)
      → (poll_changed s w).2 ≡ pending
      → let (s1, w1, p) = poll_changed s w in
        (Memᴰ w.id (send v s1).1) × ((poll_changed (send v s1).0 w1).2 ≡ ready)
  unfolding poll_changed send
  parked_woken s w v h = (subst (Memᴰ w.id) (sym (parks s w h)) (Memᴰ.head refl), ground arith)
    where
      parks :
          (s : Shared T) (w : Watcher)
          → (poll_changed s w).2 ≡ pending
          → (poll_changed s w).0.waiters ≡ w.id ∷ select (λ i. not (i == w.id)) s.waiters
      parks s w h = ground arith

  -- Everything that happens to a cell: writes, new watchers and polls.
  pub data Step : Shared T → Shared T → Type 0 where
    sends : (s : Shared T) (v : T) → Step s (send v s).0
    subscribes : (s : Shared T) → Step s (subscribe s).0
    clones : (s : Shared T) (w : Watcher) → Step s (clone_watcher s w).0
    polls : (s : Shared T) (w : Watcher) → Step s (poll_changed s w).0

  pub data Reach (s : Shared T) : Shared T → Type 0 where
    here : Reach s s
    next : {t u : Shared T} → Reach s t → Step t u → Reach s u

  Step-alive : {s t : Shared T} → Step s t → s.alive ≡ true → t.alive ≡ true
  unfolding send subscribe clone_watcher poll_changed
  Step-alive (sends s v) h = h
  Step-alive (subscribes s) h = h
  Step-alive (clones s w) h = h
  Step-alive (polls s w) h = ground arith

  Reach-alive : {s t : Shared T} → Reach s t → s.alive ≡ true → t.alive ≡ true
  Reach-alive here h = h
  Reach-alive (next r st) h = Step-alive st (Reach-alive r h)

  -- No cell is ever closed: whatever was done to a cell since it was made, also when nobody can
  -- write to it any more, a poll of `changed` is ready or pending, and never the `ChangeError` that
  -- its callers wait for.
  never_closed :
      (initial : T) {s : Shared T} (w : Watcher)
      → Reach (new initial).0 s
      → (poll_changed s w).2 ≢ closed
  unfolding new poll_changed
  never_closed initial {s} w r e = ground (arith, Reach-alive r refl)
