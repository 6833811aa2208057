-- ===== src/MutationCache/Ids.antt =====
-- The ids of the entries of a mutation cache (src/mutation_cache.rs) when additions of several threads
-- interleave: the id, the lock of the scopes and the lock of the entries are steps of their own.
use rs_query.Base.{
  ℕ, suc, ◌+◌, ◌≤◌, ◌<◌, ◌≡◌, refl, ap, List, [], ◌∷◌, ◌++◌, Text, ◌==◌, if◌then◌else◌, arith,
}
use rs_query.MutationCache.{
  MutationCacheEntry, MutationCache, MutationCacheEvent, new_cache, emit, allot_id, queue_in_scope,
  push_entry, update, remove, clear, mark_running, mark_finished, subscribe_scope, run_next,
  resume_paused_mutations, apply_to, drop_id, unpause_all,
}
use rs_query.MutationCache.Entries.{update_fields, remove_fields}
use rs_query.MutationCache.Steps.{
  key_part, clear_part, resume_part, finished_part, subscribed_part, next_part,
}

-- A cache, and the entries with an id that are not in it yet.
pub record Machine : Type 0 where
  pub cache : MutationCache
  pub pending : List MutationCacheEntry

-- What the threads do, in any order.
pub data Step (m : Machine) : Machine → Type 0 where
  allots :
      (e : MutationCacheEntry)
      → Step m (record {
        cache = (allot_id m.cache).0;
        pending = record e { id = (allot_id m.cache).1 } ∷ m.pending;
      })
  queues :
      (before after : List MutationCacheEntry) (e : MutationCacheEntry)
      → m.pending ≡ before ++ e ∷ after
      → Step m (record {
        cache = (queue_in_scope e m.cache).0;
        pending = before ++ (queue_in_scope e m.cache).1 ∷ after;
      })
  pushes :
      (before after : List MutationCacheEntry) (e : MutationCacheEntry)
      → m.pending ≡ before ++ e ∷ after
      → Step m (record { cache = push_entry e m.cache; pending = before ++ after })
  emits : (event : MutationCacheEvent) → Step m (record m { cache = emit event m.cache })
  updates :
      (id : ℕ) (f : MutationCacheEntry → MutationCacheEntry)
      → ((x : MutationCacheEntry) → (f x).id ≡ x.id)
      → Step m (record m { cache = (update id f m.cache).0 })
  removes : (id : ℕ) → Step m (record m { cache = (remove id m.cache).0 })
  clears : Step m (record m { cache = clear m.cache })
  marks : (k : Text) → Step m (record m { cache = mark_running k m.cache })
  finishes : (k : Text) → Step m (record m { cache = mark_finished k m.cache })
  subscribes : (k : Text) → Step m (record m { cache = (subscribe_scope k m.cache).0 })
  runs_next : (k : Text) → Step m (record m { cache = (run_next k m.cache).0 })
  resumes : Step m (record m { cache = (resume_paused_mutations m.cache).0 })

pub data Reach : Machine → Type 0 where
  start : Reach (record { cache = new_cache; pending = [] })
  then_step : {m n : Machine} → Reach m → Step m n → Reach n

-- How many entries have the id.
abbrev pub count : ℕ → List MutationCacheEntry → ℕ
count j [] = 0
count j (e ∷ es) = (if e.id == j then 1 else 0) + count j es

count-append :
    (j : ℕ) (xs ys : List MutationCacheEntry) → count j (xs ++ ys) ≡ count j xs + count j ys
count-append j [] ys = omega arith
count-append j (x ∷ xs) ys = omega (arith, count-append j xs ys)

count-apply :
    (j id : ℕ) (f : MutationCacheEntry → MutationCacheEntry) (es : List MutationCacheEntry)
    → ((x : MutationCacheEntry) → (f x).id ≡ x.id)
    → count j (apply_to id f es) ≡ count j es
count-apply j id f [] keeps = refl
count-apply j id f (e ∷ es) keeps = ground (arith, keeps e, count-apply j id f es keeps)

count-drop : (j id : ℕ) (es : List MutationCacheEntry) → count j (drop_id id es) ≤ count j es
count-drop j id [] = omega arith
count-drop j id (e ∷ es) = ground (arith, count-drop j id es)

count-unpause : (j : ℕ) (es : List MutationCacheEntry) → count j (unpause_all es) ≡ count j es
count-unpause j [] = refl
count-unpause j (e ∷ es) = omega (arith, count-unpause j es)

-- How many entries of the cache or on their way into it have the id.
abbrev pub holders : ℕ → Machine → ℕ
holders j m = count j m.cache.entries + count j m.pending

-- No id is held twice, and none above the last one that was given is held.
pub record HasUniqueIds (m : Machine) : Type 0 where
  pub at_most_one : (j : ℕ) → holders j m ≤ 1
  pub none_above : (j : ℕ) → m.cache.next_id < j → holders j m ≡ 0

-- A step that gives no id and adds no holder.
fewer :
    (m n : Machine)
    → n.cache.next_id ≡ m.cache.next_id
    → ((j : ℕ) → holders j n ≤ holders j m)
    → HasUniqueIds m
    → HasUniqueIds n
fewer m n same less u = record {
  at_most_one = λ j. omega (arith, less j, u.at_most_one j);
  none_above = λ j above. omega (arith, less j, u.none_above j (omega arith));
}

-- A step of the cache alone.
in_cache :
    (m : Machine) (c : MutationCache) (es : List MutationCacheEntry)
    → c.entries ≡ es
    → c.next_id ≡ m.cache.next_id
    → ((j : ℕ) → count j es ≤ count j m.cache.entries)
    → HasUniqueIds m
    → HasUniqueIds (record m { cache = c })
in_cache m c es entries last less u =
    fewer m (record m { cache = c }) last (λ j. omega (arith, less j, ap (count j) entries)) u

by_part :
    (m : Machine) (c : MutationCache) (es : List MutationCacheEntry)
    → key_part c ≡ (es, m.cache.next_id)
    → ((j : ℕ) → count j es ≤ count j m.cache.entries)
    → HasUniqueIds m
    → HasUniqueIds (record m { cache = c })
by_part m c es part less u = in_cache m c es (ap (λ p. p.0) part) (ap (λ p. p.1) part) less u

-- The holders when one entry of the pending ones stands in the middle.
count-middle :
    (j : ℕ) (before after : List MutationCacheEntry) (e : MutationCacheEntry)
    → count j (before ++ e ∷ after) ≡ count j (before ++ after) + count j (e ∷ [])
count-middle j [] after e = omega arith
count-middle j (x ∷ before) after e = omega (arith, count-middle j before after e)

queue_part :
    (e : MutationCacheEntry) (c : MutationCache)
    → (key_part (queue_in_scope e c).0 ≡ key_part c) × ((queue_in_scope e c).1.id ≡ e.id)
unfolding queue_in_scope
queue_part e c = (ground arith, ground arith)

Step-HasUniqueIds : {m n : Machine} → Step m n → HasUniqueIds m → HasUniqueIds n
unfolding allot_id push_entry mark_running
Step-HasUniqueIds {m} (allots e) u = record {
  at_most_one =
      λ j. ground (arith, u.at_most_one j, u.none_above (suc m.cache.next_id) (omega arith));
  none_above = λ j above. ground (arith, above, u.none_above j (omega arith));
}
Step-HasUniqueIds {m} (queues before after e there) u =
    let (part, same) = queue_part e m.cache in
    fewer m _ (ap (λ p. p.1) part)
      (λ j.
        let entries : count j (queue_in_scope e m.cache).0.entries ≡ count j m.cache.entries =
          ap (λ p. count j p.0) part in
        let one : count j ((queue_in_scope e m.cache).1 ∷ []) ≡ count j (e ∷ []) =
          ap (λ i. (if i == j then 1 else 0) + 0) same in
        omega (
          arith,
          entries,
          one,
          ap (count j) there,
          count-middle j before after e,
          count-middle j before after (queue_in_scope e m.cache).1,
        ))
      u
Step-HasUniqueIds {m} (pushes before after e there) u =
    fewer m _ refl
      (λ j. omega (
        arith,
        ap (count j) there,
        count-middle j before after e,
        count-append j m.cache.entries (e ∷ []),
      ))
      u
Step-HasUniqueIds {m} (emits event) u = in_cache m _ m.cache.entries refl refl (λ j. omega arith) u
Step-HasUniqueIds {m} (updates id f keeps) u =
    let (entries, last) = update_fields id f m.cache in
    in_cache m _ (apply_to id f m.cache.entries) entries last
      (λ j. omega (arith, count-apply j id f m.cache.entries keeps)) u
Step-HasUniqueIds {m} (removes id) u =
    let (entries, last) = remove_fields id m.cache in
    in_cache m _ (drop_id id m.cache.entries) entries last (λ j. count-drop j id m.cache.entries) u
Step-HasUniqueIds {m} clears u = by_part m _ [] (clear_part m.cache) (λ j. omega arith) u
Step-HasUniqueIds {m} (marks k) u = in_cache m _ m.cache.entries refl refl (λ j. omega arith) u
Step-HasUniqueIds {m} (finishes k) u =
    by_part m _ m.cache.entries (finished_part k m.cache) (λ j. omega arith) u
Step-HasUniqueIds {m} (subscribes k) u =
    by_part m _ m.cache.entries (subscribed_part k m.cache) (λ j. omega arith) u
Step-HasUniqueIds {m} (runs_next k) u =
    by_part m _ m.cache.entries (next_part k m.cache) (λ j. omega arith) u
Step-HasUniqueIds {m} resumes u =
    by_part m _ (unpause_all m.cache.entries) (resume_part m.cache)
      (λ j. omega (arith, count-unpause j m.cache.entries)) u

-- However the additions of several threads interleave with each other and with all other methods of the
-- cache, with updates that keep ids: no two entries, in the cache or on their way into it, have the same
-- id, and none has an id above the last one given.
pub ids_stay_unique : (m : Machine) → Reach m → HasUniqueIds m
unfolding new_cache
ids_stay_unique m start = record { at_most_one = λ j. omega arith; none_above = λ j h. refl }
ids_stay_unique m (then_step r s) = Step-HasUniqueIds s (ids_stay_unique _ r)
