-- ===== src/MutationCache/Steps.antt =====
-- Every method of the mutation cache as a step, additions that do not overlap included, and the order of
-- the ids in each cache they lead to.
use rs_query.Base.{ℕ, ◌≡◌, refl, sym, subst, List, [], ◌∷◌, Text, arith, for_each}
use rs_query.MutationCache.{
  MutationCacheEntry, MutationCache, MutationCacheEvent, new_cache, emit, add, update, remove,
  clear, mark_running, mark_finished, notify_scope, subscribe_scope, run_next, paused_entries,
  resume_paused_mutations, unpause_all,
}
use rs_query.MutationCache.Entries.{
  Rising, IsOrdered, stored, Rising-append, Rising-apply, Rising-drop, Rising-unpause, add_fields,
  remove_fields, update_fields,
}

-- The steps of a mutation cache: every public method that changes it, each in one go, with updates
-- that keep ids.
pub data Step : MutationCache → MutationCache → Type 0 where
  adds : (c : MutationCache) (e : MutationCacheEntry) → Step c (add e c).0
  updates :
      (c : MutationCache) (id : ℕ) (f : MutationCacheEntry → MutationCacheEntry)
      → ((x : MutationCacheEntry) → (f x).id ≡ x.id)
      → Step c (update id f c).0
  removes : (c : MutationCache) (id : ℕ) → Step c (remove id c).0
  clears : (c : MutationCache) → Step c (clear c)
  marks : (c : MutationCache) (k : Text) → Step c (mark_running k c)
  finishes : (c : MutationCache) (k : Text) → Step c (mark_finished k c)
  subscribes : (c : MutationCache) (k : Text) → Step c (subscribe_scope k c).0
  runs_next : (c : MutationCache) (k : Text) → Step c (run_next k c).0
  resumes : (c : MutationCache) → Step c (resume_paused_mutations c).0

pub data Reach : MutationCache → Type 0 where
  start : Reach new_cache
  then_step : {c d : MutationCache} → Reach c → Step c d → Reach d

-- What a step leaves of the entries and of the last id.
abbrev pub key_part : MutationCache → List MutationCacheEntry × ℕ
key_part c = (c.entries, c.next_id)

events_keep :
    (event : MutationCacheEntry → MutationCacheEvent) (es : List MutationCacheEntry)
    (c : MutationCache)
    → key_part (for_each es (λ e. emit (event e)) c) ≡ key_part c
unfolding for_each
events_keep event [] c = refl
events_keep event (e ∷ es) c = events_keep event es (emit (event e) c)

pub clear_part : (c : MutationCache) → key_part (clear c) ≡ ([], c.next_id)
unfolding clear
clear_part c = events_keep _ c.entries _

pub resume_part :
    (c : MutationCache)
    → key_part (resume_paused_mutations c).0 ≡ (unpause_all c.entries, c.next_id)
unfolding resume_paused_mutations
resume_part c = events_keep _ (paused_entries c.entries) _

notify_part : (k : Text) (c : MutationCache) → key_part (notify_scope k c) ≡ key_part c
unfolding notify_scope
notify_part k c = ground arith

pub finished_part : (k : Text) (c : MutationCache) → key_part (mark_finished k c) ≡ key_part c
unfolding mark_finished notify_scope
finished_part k c = ground arith

pub subscribed_part : (k : Text) (c : MutationCache) → key_part (subscribe_scope k c).0 ≡ key_part c
unfolding subscribe_scope
subscribed_part k c = ground arith

pub next_part : (k : Text) (c : MutationCache) → key_part (run_next k c).0 ≡ key_part c
unfolding run_next notify_scope
next_part k c = ground arith

part_is :
    (d : MutationCache) (p : List MutationCacheEntry × ℕ)
    → key_part d ≡ p
    → Rising 0 p.1 p.0
    → IsOrdered d
part_is d p e h = subst (λ q. Rising 0 q.1 q.0) (sym e) h

Step-IsOrdered : {c d : MutationCache} → Step c d → IsOrdered c → IsOrdered d
unfolding mark_running
Step-IsOrdered (adds c e) o =
    rw ((add_fields e c).0, (add_fields e c).1)
      (Rising-append 0 c.next_id c.entries (stored e c) refl o)
Step-IsOrdered (updates c id f k) o =
    rw ((update_fields id f c).0, (update_fields id f c).1)
      (Rising-apply id 0 c.next_id f c.entries k o)
Step-IsOrdered (removes c id) o =
    rw ((remove_fields id c).0, (remove_fields id c).1) (Rising-drop id 0 c.next_id c.entries o)
Step-IsOrdered (clears c) o = part_is (clear c) ([], c.next_id) (clear_part c) (omega arith)
Step-IsOrdered (marks c k) o = o
Step-IsOrdered (finishes c k) o = part_is (mark_finished k c) (key_part c) (finished_part k c) o
Step-IsOrdered (subscribes c k) o =
    part_is (subscribe_scope k c).0 (key_part c) (subscribed_part k c) o
Step-IsOrdered (runs_next c k) o = part_is (run_next k c).0 (key_part c) (next_part k c) o
Step-IsOrdered (resumes c) o =
    part_is (resume_paused_mutations c).0 (unpause_all c.entries, c.next_id) (resume_part c)
      (Rising-unpause 0 c.next_id c.entries o)

-- The ids of every cache that the methods lead to, from a new one, with updates that keep ids and as long
-- as no two additions overlap, rise strictly, and none is above the last one given.
pub reached-IsOrdered : (c : MutationCache) → Reach c → IsOrdered c
unfolding new_cache
reached-IsOrdered c start = omega arith
reached-IsOrdered d (then_step r s) = Step-IsOrdered s (reached-IsOrdered _ r)
