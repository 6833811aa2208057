-- ===== src/MutationCache/Entries.antt =====
-- The entries of the mutation cache as a map from ids.
use mathlib.Core.Option
use rs_query.Base.{
  ℕ, suc, ◌≤◌, ◌<◌, ◌≡◌, refl, sym, ap, ◌∙◌, Bool, true, false, not, Option, none, some, List, [],
  ◌∷◌, ◌++◌, Text, ◌==◌, arith, if◌then◌else◌, Option-cases, inl, inr,
}
use rs_query.MutationCache.{
  MutationCacheEntry, MutationCache, allot_id, queue_in_scope, push_entry, add, find_id, apply_to,
  drop_id, get, update, remove, unpause_all, can_run,
}

-- The ids rise strictly, from above `low` up to `high`.
abbrev pub Rising : ℕ → ℕ → List MutationCacheEntry → Type 0
Rising low high [] = low ≤ high
Rising low high (e ∷ es) = (low < e.id) × Rising e.id high es

abbrev pub IsOrdered : MutationCache → Type 0
IsOrdered c = Rising 0 c.next_id c.entries

Rising-le : (low high : ℕ) (es : List MutationCacheEntry) → Rising low high es → low ≤ high
Rising-le low high [] h = h
Rising-le low high (e ∷ es) h = omega (arith, Rising-le e.id high es h.1)

Rising-weaken :
    (low low' high : ℕ) (es : List MutationCacheEntry)
    → low' ≤ low
    → Rising low high es
    → Rising low' high es
Rising-weaken low low' high [] l h = omega arith
Rising-weaken low low' high (e ∷ es) l h = (omega arith, h.1)

pub Rising-append :
    (low high : ℕ) (es : List MutationCacheEntry) (e : MutationCacheEntry)
    → e.id ≡ suc high
    → Rising low high es
    → Rising low (suc high) (es ++ e ∷ [])
Rising-append low high [] e i h = (omega arith, omega arith)
Rising-append low high (x ∷ es) e i h = (h.0, Rising-append x.id high es e i h.1)

pub Rising-apply :
    (id low high : ℕ) (f : MutationCacheEntry → MutationCacheEntry) (es : List MutationCacheEntry)
    → ((e : MutationCacheEntry) → (f e).id ≡ e.id)
    → Rising low high es
    → Rising low high (apply_to id f es)
Rising-apply id low high f [] k h = h
Rising-apply id low high f (e ∷ es) k h = ground (arith, k e, Rising-apply id e.id high f es k)

pub Rising-drop :
    (id low high : ℕ) (es : List MutationCacheEntry)
    → Rising low high es
    → Rising low high (drop_id id es)
Rising-drop id low high [] h = h
Rising-drop id low high (e ∷ es) h =
    ground (arith, Rising-drop id e.id high es, Rising-weaken e.id low high es)

pub Rising-unpause :
    (low high : ℕ) (es : List MutationCacheEntry)
    → Rising low high es
    → Rising low high (unpause_all es)
Rising-unpause low high [] h = h
Rising-unpause low high (e ∷ es) h = (h.0, Rising-unpause e.id high es h.1)

find-above :
    (j low high : ℕ) (es : List MutationCacheEntry)
    → j ≤ low
    → Rising low high es
    → find_id j es ≡ none
find-above j low high [] l h = refl
find-above j low high (e ∷ es) l h = ground (arith, find-above j e.id high es)

find-append :
    (j low high : ℕ) (es : List MutationCacheEntry) (e : MutationCacheEntry)
    → e.id ≡ suc high
    → Rising low high es
    → find_id j (es ++ e ∷ []) ≡ (if suc high == j then some e else find_id j es)
find-append j low high [] e i h = ground arith
find-append j low high (x ∷ es) e i h =
    ground (arith, find-append j x.id high es e, Rising-le x.id high es h.1)

pub find-apply :
    (id j : ℕ) (f : MutationCacheEntry → MutationCacheEntry) (es : List MutationCacheEntry)
    → ((e : MutationCacheEntry) → (f e).id ≡ e.id)
    → find_id j (apply_to id f es) ≡ (if id == j then Option.map f (find_id j es) else find_id j es)
find-apply id j f [] k = ground arith
find-apply id j f (e ∷ es) k = ground (arith, k e, find-apply id j f es k)

find-drop :
    (id j low high : ℕ) (es : List MutationCacheEntry)
    → Rising low high es
    → find_id j (drop_id id es) ≡ (if id == j then none else find_id j es)
find-drop id j low high [] h = ground arith
find-drop id j low high (e ∷ es) h =
    ground (arith, find-drop id j e.id high es, find-above j e.id high es)

-- Is there a scope with a running mutation?
abbrev pub busy : Option Text → MutationCache → Bool
busy none c = false
busy (some k) c = not (can_run k c)

-- The entry that `add` stores.
abbrev pub stored : MutationCacheEntry → MutationCache → MutationCacheEntry
stored e c = record e {
  id = suc c.next_id;
  is_paused = if busy e.scope c then true else e.is_paused;
}

pub add_fields :
    (e : MutationCacheEntry) (c : MutationCache)
    → ((add e c).0.entries ≡ c.entries ++ stored e c ∷ [])
      × ((add e c).0.next_id ≡ suc c.next_id)
      × ((add e c).1 ≡ suc c.next_id)
unfolding add allot_id queue_in_scope push_entry can_run
add_fields e c = ground arith

apply-absent :
    (id : ℕ) (f : MutationCacheEntry → MutationCacheEntry) (es : List MutationCacheEntry)
    → find_id id es ≡ none
    → apply_to id f es ≡ es
apply-absent id f [] h = refl
apply-absent id f (e ∷ es) h = ground (arith, apply-absent id f es)

drop-absent : (id : ℕ) (es : List MutationCacheEntry) → find_id id es ≡ none → drop_id id es ≡ es
drop-absent id [] h = refl
drop-absent id (e ∷ es) h = ground (arith, drop-absent id es)

pub update_fields :
    (id : ℕ) (f : MutationCacheEntry → MutationCacheEntry) (c : MutationCache)
    → ((update id f c).0.entries ≡ apply_to id f c.entries)
      × ((update id f c).0.next_id ≡ c.next_id)
unfolding update
update_fields id f c = elim (Option-cases (find_id id c.entries)) [
  | inl e ↦ rw (e, update) (sym (apply-absent id f c.entries e), refl)
  | inr (x, e) ↦ rw (e, update) (refl, refl)
]

pub remove_fields :
    (id : ℕ) (c : MutationCache)
    → ((remove id c).0.entries ≡ drop_id id c.entries) × ((remove id c).0.next_id ≡ c.next_id)
unfolding remove
remove_fields id c = elim (Option-cases (find_id id c.entries)) [
  | inl e ↦ rw (e, remove) (sym (drop-absent id c.entries e), refl)
  | inr (x, e) ↦ rw (e, remove) (refl, refl)
]

get-add :
    (e : MutationCacheEntry) (c : MutationCache)
    → IsOrdered c
    → (j : ℕ) → get j (add e c).0 ≡ (if (add e c).1 == j then some (stored e c) else get j c)
unfolding get
get-add e c o j =
    rw ((add_fields e c).0, (add_fields e c).2)
      (find-append j 0 c.next_id c.entries (stored e c) refl o)

-- In a cache with its ids in order, the entries are a map from ids: a new entry is found under
-- the fresh id that `add` returns, an update changes the entry of its id alone if it keeps the ids,
-- and a removed id is not found; every other id finds what it found before.
pub get_after :
    (c : MutationCache)
    → IsOrdered c
    → (e : MutationCacheEntry) (f : MutationCacheEntry → MutationCacheEntry)
    → ((x : MutationCacheEntry) → (f x).id ≡ x.id)
    → (id j : ℕ)
    → (get j (add e c).0 ≡ (if (add e c).1 == j then some (stored e c) else get j c))
      × (get j (update id f c).0 ≡ (if id == j then Option.map f (get j c) else get j c))
      × (get j (remove id c).0 ≡ (if id == j then none else get j c))
unfolding get
get_after c o e f k id j = (
  get-add e c o j,
  ap (find_id j) (update_fields id f c).0 ∙ find-apply id j f c.entries k,
  ap (find_id j) (remove_fields id c).0 ∙ find-drop id j 0 c.next_id c.entries o,
)
