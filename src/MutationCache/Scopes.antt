-- ===== src/MutationCache/Scopes.antt =====
-- The scope gate: who may run a mutation of one scope, and how a parked one is woken.
use rs_query.Base.{
  ℕ, suc, ◌-◌, ◌≤◌, ◌<◌, ◌≡◌, refl, ap, sym, subst, ◌∙◌, Bool, true, false, Option, none, some,
  Text, text_eq, text_eq_iff, text_eq_self, ◌==◌, ◌||◌, List, [], ◌∷◌, ◌++◌, arith, if◌then◌else◌,
}
use rs_query.Watch
use rs_query.Watch.{Watcher}
use rs_query.MutationCache.{
  MutationCacheEntry, MutationCache, Scoped, put_scope, new_cache, allot_id, queue_in_scope,
  push_entry, add, update, remove, mark_running, mark_finished, notify_scope, subscribe_scope,
  run_next, can_run,
}

-- `release_scope` of src/mutation.rs, for a mutation that was let in.
abbrev pub leave : Text → MutationCache → MutationCache
leave k c = (run_next k (mark_finished k c)).0

can_run-add :
    (k : Text) (e : MutationCacheEntry) (c : MutationCache) → can_run k (add e c).0 ≡ can_run k c
unfolding can_run add allot_id queue_in_scope push_entry
can_run-add k e c = grind (arith, text_eq_iff)

can_run-update :
    (k : Text) (id : ℕ) (f : MutationCacheEntry → MutationCacheEntry) (c : MutationCache)
    → can_run k (update id f c).0 ≡ can_run k c
unfolding can_run update
can_run-update k id f c = ground arith

can_run-remove : (k : Text) (id : ℕ) (c : MutationCache) → can_run k (remove id c).0 ≡ can_run k c
unfolding can_run remove
can_run-remove k id c = grind (arith, text_eq_iff)

can_run-notify : (k j : Text) (c : MutationCache) → can_run k (notify_scope j c) ≡ can_run k c
unfolding can_run notify_scope
can_run-notify k j c = ground arith

can_run-subscribe :
    (k j : Text) (c : MutationCache) → can_run k (subscribe_scope j c).0 ≡ can_run k c
unfolding can_run subscribe_scope
can_run-subscribe k j c = ground arith

can_run-mark :
    (k j : Text) (c : MutationCache)
    → can_run k (mark_running j c) ≡ (if text_eq j k then false else can_run k c)
unfolding can_run mark_running
can_run-mark k j c = ground arith

pub can_run-finish :
    (k j : Text) (c : MutationCache)
    → can_run k (mark_finished j c) ≡ (if text_eq j k then true else can_run k c)
unfolding can_run mark_finished notify_scope
can_run-finish k j c = ground (arith, text_eq_iff j k)

can_run-next : (k j : Text) (c : MutationCache) → can_run k (run_next j c).0 ≡ can_run k c
unfolding can_run run_next notify_scope
can_run-next k j c = ground (arith, text_eq_iff j k)

pub leave-can_run :
    (k j : Text) (c : MutationCache)
    → can_run k (leave j c) ≡ (if text_eq j k then true else can_run k c)
leave-can_run k j c = can_run-next k j (mark_finished j c) ∙ can_run-finish k j c

-- What happens to a cache with `n` mutations of the scope `k` past its gate, and how many there are
-- then. A mutation passes the gate when it sees that it can run and marks the scope in one go, as it
-- does when no other thread runs between the two calls. The cache is not cleared.
pub data Step (k : Text) : ℕ → MutationCache → ℕ → MutationCache → Type 0 where
  enters : (n : ℕ) (c : MutationCache) → can_run k c ≡ true → Step k n c (suc n) (mark_running k c)
  leaves : (n : ℕ) (c : MutationCache) → 0 < n → Step k n c (n - 1) (leave k c)
  others_enter :
      (n : ℕ) (c : MutationCache) (j : Text) → text_eq j k ≡ false → Step k n c n (mark_running j c)
  others_leave :
      (n : ℕ) (c : MutationCache) (j : Text) → text_eq j k ≡ false → Step k n c n (leave j c)
  adds : (n : ℕ) (c : MutationCache) (e : MutationCacheEntry) → Step k n c n (add e c).0
  updates :
      (n : ℕ) (c : MutationCache) (id : ℕ) (f : MutationCacheEntry → MutationCacheEntry)
      → Step k n c n (update id f c).0
  removes : (n : ℕ) (c : MutationCache) (id : ℕ) → Step k n c n (remove id c).0
  subscribes : (n : ℕ) (c : MutationCache) (j : Text) → Step k n c n (subscribe_scope j c).0

pub data Reach (k : Text) : ℕ → MutationCache → Type 0 where
  start : Reach k 0 new_cache
  then_step : {n m : ℕ} {c d : MutationCache} → Reach k n c → Step k n c m d → Reach k m d

-- One mutation at most is past the gate, and the next one can run just when there is none.
pub record Exclusive (k : Text) (n : ℕ) (c : MutationCache) : Type 0 where
  pub at_most_one : n ≤ 1
  pub open_when_free : can_run k c ≡ (n == 0)

Step-Exclusive :
    {k : Text} {n m : ℕ} {c d : MutationCache} → Step k n c m d → Exclusive k n c → Exclusive k m d
Step-Exclusive {k} (enters n c h) x =
    ground (arith, can_run-mark k k c, text_eq_self k, x.at_most_one, x.open_when_free)
Step-Exclusive {k} (leaves n c h) x =
    ground (arith, leave-can_run k k c, text_eq_self k, x.at_most_one, x.open_when_free)
Step-Exclusive {k} (others_enter n c j e) x =
    ground (arith, can_run-mark k j c, x.at_most_one, x.open_when_free)
Step-Exclusive {k} (others_leave n c j e) x =
    ground (arith, leave-can_run k j c, x.at_most_one, x.open_when_free)
Step-Exclusive {k} (adds n c e) x = record {
  at_most_one = x.at_most_one;
  open_when_free = can_run-add k e c ∙ x.open_when_free;
}
Step-Exclusive {k} (updates n c id f) x = record {
  at_most_one = x.at_most_one;
  open_when_free = can_run-update k id f c ∙ x.open_when_free;
}
Step-Exclusive {k} (removes n c id) x = record {
  at_most_one = x.at_most_one;
  open_when_free = can_run-remove k id c ∙ x.open_when_free;
}
Step-Exclusive {k} (subscribes n c j) x = record {
  at_most_one = x.at_most_one;
  open_when_free = can_run-subscribe k j c ∙ x.open_when_free;
}

-- Whatever is added, updated, removed and let in or out: as long as the look at a scope and its mark
-- are one step and the cache is not cleared, at most one mutation of a scope is past its gate, and
-- the gate is open just when there is none.
pub scope-Exclusive : (k : Text) (n : ℕ) (c : MutationCache) → Reach k n c → Exclusive k n c
unfolding new_cache can_run
scope-Exclusive k n c start = record { at_most_one = omega arith; open_when_free = refl }
scope-Exclusive k n c (then_step r s) = Step-Exclusive s (scope-Exclusive k _ _ r)

-- A watcher of the scope `k` that has seen all its releases, of a living cell.
abbrev pub IsCurrent : Text → MutationCache → Watcher → Type 0
IsCurrent k c w =
    (cell : Watch.Shared Bool) × (c.scope_release k ≡ some cell)
    × (cell.version ≡ w.last_seen)
    × (cell.alive ≡ true)

-- A poll of a mutation's watcher at the gate: what it leaves of the cell, and its answer.
abbrev polled :
    Text
    → MutationCache
    → Watch.Shared Bool × Watcher × Watch.Poll
    → MutationCache × Option Watch.Poll
polled k c (cell, w, answer) =
    (record c { scope_release = put_scope k (some cell) c.scope_release }, some answer)

abbrev wait_at :
    Text → Watcher → MutationCache → Option (Watch.Shared Bool) → MutationCache × Option Watch.Poll
wait_at k w c none = (c, none)
wait_at k w c (some cell) = polled k c (Watch.poll_changed cell w)

abbrev pub wait_at_gate : Text → Watcher → MutationCache → MutationCache × Option Watch.Poll
wait_at_gate k w c = wait_at k w c (c.scope_release k)

put_scope_same : {V : Type 0} (k : Text) (v : Option V) (m : Scoped V) → put_scope k v m k ≡ v
put_scope_same k v m = rw (text_eq_self k) refl

abbrev pub mem : ℕ → List ℕ → Bool
mem i [] = false
mem i (j ∷ js) = j == i || mem i js

mem-middle : (i : ℕ) (xs ys : List ℕ) → mem i (xs ++ i ∷ ys) ≡ true
mem-middle i [] ys = ground arith
mem-middle i (x ∷ xs) ys = ground (arith, mem-middle i xs ys)

-- What `mark_finished` does to the release cell.
finish_release :
    (k : Text) (c : MutationCache) (cell : Watch.Shared Bool)
    → c.scope_release k ≡ some cell
    → ((mark_finished k c).scope_release k ≡ some (Watch.send true cell).0)
      × ((mark_finished k c).woken ≡ c.woken ++ (Watch.send true cell).1)
unfolding mark_finished notify_scope
finish_release k c cell e = (ground (arith, text_eq_self k, e), ground (arith, text_eq_self k, e))

-- What a poll at the gate has come to when the scope is then finished.
abbrev IsWoken : Text → Watcher → MutationCache × Option Watch.Poll → Type 0
IsWoken k w (parked, first) =
    let released = mark_finished k parked in
    (first ≡ some Watch.pending)
    × (mem w.id released.woken ≡ true)
    × ((wait_at_gate k w released).1 ≡ some Watch.ready)
    × (can_run k released ≡ true)

-- Of a cell where the watcher is parked.
parked-IsWoken :
    (k : Text) (c : MutationCache) (w : Watcher) (cell : Watch.Shared Bool)
    → c.scope_release k ≡ some (Watch.park w.id cell)
    → cell.version ≡ w.last_seen
    → IsWoken k w (c, some Watch.pending)
unfolding Watch.send Watch.poll_changed Watch.park
parked-IsWoken k c w cell e v =
    let (release, woken) = finish_release k c (Watch.park w.id cell) e in
    let seen : (suc cell.version == w.last_seen) ≡ false = ground (arith, v) in
    (
      refl,
      ap (mem w.id) woken ∙ mem-middle w.id c.woken _,
      ap (λ x. (wait_at k w (mark_finished k c) x).1) release ∙ rw seen refl,
      ground (arith, can_run-finish k k c, text_eq_self k),
    )

-- A mutation that polls its up-to-date watcher at the gate of a scope parks there, and when the scope is
-- finished, its waker is woken, the next poll of its watcher is ready, and the gate is open.
pub gate_wakes :
    (k : Text) (c : MutationCache) (w : Watcher)
    → IsCurrent k c w
    → let (parked, first) = wait_at_gate k w c in
      let released = mark_finished k parked in
      (first ≡ some Watch.pending)
      × (mem w.id released.woken ≡ true)
      × ((wait_at_gate k w released).1 ≡ some Watch.ready)
      × (can_run k released ≡ true)
unfolding Watch.poll_changed
gate_wakes k c w (cell, e, v, alive) =
    let parked : MutationCache = record c {
      scope_release = put_scope k (some (Watch.park w.id cell)) c.scope_release;
    } in
    let same : (cell.version == w.last_seen) ≡ true = ground (arith, v) in
    let answer : Watch.poll_changed cell w ≡ (Watch.park w.id cell, w, Watch.pending) =
      rw (same, alive) refl in
    let first : wait_at_gate k w c ≡ (parked, some Watch.pending) =
      ap (wait_at k w c) e ∙ ap (polled k c) answer in
    subst (IsWoken k w) (sym first)
      (parked-IsWoken k parked w cell (put_scope_same k _ c.scope_release) v)
