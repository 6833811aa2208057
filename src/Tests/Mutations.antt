-- ===== src/Tests/Mutations.antt =====
-- The mutation cache and the execution of mutations (src/mutation_cache.rs and src/mutation.rs) at
-- concrete inputs: mutations of one scope that write a number into the program's state.
use mathlib.Core.Option
use rs_query.Base.{
  ℕ, ◌≡◌, refl, ◌⊎◌, inl, inr, true, false, Option, none, some, [], ◌∷◌, Text, ◌==◌, if◌then◌else◌,
  text_eq,
}
use rs_query.State.{QueryError, MutationStatus}
use rs_query.Map.Assoc.{assoc_map}
use rs_query.Watch
use rs_query.Bus
use rs_query.Client.Core
use rs_query.Client.Core.{CacheEntry, Tables, Client, QueryStateUpdate}
use rs_query.MutationCache
use rs_query.MutationCache.{
  MutationCacheEntry, MutationCache, new_cache, new_entry, can_run, mark_running, mark_finished,
  subscribe_scope,
}
use rs_query.MutationCache.Steps
use rs_query.MutationCache.Entries.{stored, get_after}
use rs_query.MutationCache.Steps.{reached-IsOrdered}
use rs_query.MutationCache.Ids
use rs_query.MutationCache.Ids.{ids_stay_unique}
use rs_query.MutationCache.Scopes
use rs_query.MutationCache.Scopes.{Exclusive, scope-Exclusive, wait_at_gate, mem, gate_wakes}
use rs_query.Mutation.Core.{Scene, Mutation, MutationCacheConfig, World, Surroundings, Rollback}
use rs_query.Mutation.Running.{execute_mutation_full}

abbrev scope_text : Text
scope_text = b's' ∷ []

abbrev scoped : MutationCacheEntry
scoped = record {
  id = 0;
  mutation_key = none;
  scope = some scope_text;
  status = MutationStatus.idle;
  is_paused = false;
  submitted_at_ms = none;
  has_result = false;
  error_of = none;
  has_context = false;
}

abbrev unpaused : MutationCacheEntry → MutationCacheEntry
unpaused e = record e { is_paused = false }

abbrev one_added : MutationCache
one_added = (MutationCache.add scoped new_cache).0

reached : Steps.Reach one_added
reached = Steps.then_step Steps.start (Steps.adds new_cache scoped)

get_after_example :
    (MutationCache.get 2 (MutationCache.add scoped one_added).0 ≡ (
      if (MutationCache.add scoped one_added).1 == 2
      then some (stored scoped one_added)
      else MutationCache.get 2 one_added))
    × (MutationCache.get 2 (MutationCache.update 1 unpaused one_added).0 ≡ (
        if 1 == 2
        then Option.map unpaused (MutationCache.get 2 one_added)
        else MutationCache.get 2 one_added))
    × (MutationCache.get 2 (MutationCache.remove 1 one_added).0
        ≡ (if 1 == 2 then none else MutationCache.get 2 one_added))
get_after_example =
    get_after one_added (reached-IsOrdered one_added reached) scoped unpaused (λ e. refl) 1 2

-- Two additions: the second is in the cache first.
abbrev allotted : Ids.Machine → Ids.Machine
allotted m = record {
  cache = (MutationCache.allot_id m.cache).0;
  pending = record scoped { id = (MutationCache.allot_id m.cache).1 } ∷ m.pending;
}

abbrev both : Ids.Machine
both = allotted (allotted (record { cache = new_cache; pending = [] }))

ids_stay_unique_example : Ids.HasUniqueIds (record {
  cache = MutationCache.push_entry (record scoped { id = 2 }) both.cache;
  pending = record scoped { id = 1 } ∷ [];
})
unfolding MutationCache.allot_id new_cache
ids_stay_unique_example = ids_stay_unique _ (
    Ids.then_step (Ids.then_step (Ids.then_step Ids.start (Ids.allots scoped)) (Ids.allots scoped))
      (Ids.pushes [] (record scoped { id = 1 } ∷ []) (record scoped { id = 2 }) refl))

entered : Scopes.Reach scope_text 1 (mark_running scope_text one_added)
unfolding can_run MutationCache.add new_cache text_eq
entered =
    Scopes.then_step (Scopes.then_step Scopes.start (Scopes.adds 0 new_cache scoped))
      (Scopes.enters 0 one_added refl)

scope-Exclusive_example : Exclusive scope_text 1 (mark_running scope_text one_added)
scope-Exclusive_example = scope-Exclusive scope_text 1 (mark_running scope_text one_added) entered

abbrev waiting : MutationCache × Watch.Watcher
waiting = subscribe_scope scope_text (mark_running scope_text one_added)

gate_wakes_example :
    let (parked, first) = wait_at_gate scope_text waiting.1 waiting.0 in
    let released = mark_finished scope_text parked in
    (first ≡ some Watch.pending)
    × (mem 2 released.woken ≡ true)
    × ((wait_at_gate scope_text waiting.1 released).1 ≡ some Watch.ready)
    × (can_run scope_text released ≡ true)
unfolding MutationCache.add new_cache subscribe_scope Watch.subscribe Watch.new text_eq mark_running
gate_wakes_example = gate_wakes scope_text waiting.0 waiting.1 (_, refl, refl, refl)

abbrev tables : Tables ℕ
tables = record {
  cache = assoc_map (CacheEntry ℕ);
  in_flight = assoc_map ℕ;
  subscribers = assoc_map (Bus.Shared QueryStateUpdate);
}

abbrev world : World tables ℕ
world = record { client = Core.new tables; cache = new_cache; program = 0 }

abbrev quiet : Surroundings tables ℕ
quiet = record { parked = λ i w. w; calling = λ i w. w }

abbrev boom : QueryError
boom = QueryError.custom (b'x' ∷ [])

-- The first call fails, the second one succeeds.
abbrev second_try : ℕ → ℕ ⊎ QueryError
second_try i = if i == 0 then inr boom else inl 42

abbrev silent : MutationCacheConfig (Scene tables ℕ)
silent = record { on_mutate = none; on_success = none; on_error = none; on_settled = none }

abbrev optimistic : ℕ → Client tables → Client tables × (Rollback tables ⊎ QueryError)
optimistic n c =
    (record c { mount_count = n }, inl (λ c'. record c' { mount_count = c.mount_count }))

abbrev saving : (ℕ → ℕ ⊎ QueryError) → Mutation tables ℕ ℕ ℕ
saving outcome = record {
  mutate_fn = λ n. outcome;
  invalidates_keys = [];
  on_mutate = some optimistic;
  on_success = some (λ v n w. (w.0, v));
  on_error = some (λ e n w. (w.0, n));
  on_settled = none;
  scope = some scope_text;
  retry = 1;
  mutation_key = none;
}

abbrev failing : ℕ → ℕ ⊎ QueryError
failing i = inr boom

-- What an execution that returns comes to.
abbrev saved :
    World tables ℕ × (ℕ ⊎ QueryError)
    → Option (World tables ℕ × (ℕ ⊎ QueryError))
    → World tables ℕ × (ℕ ⊎ QueryError)
saved r none = r
saved r (some x) = x

abbrev failed_run : Option (World tables ℕ × (ℕ ⊎ QueryError))
failed_run = execute_mutation_full silent quiet 2 9 (saving failing) 7 none world

abbrev after_failure : World tables ℕ
after_failure = (saved (world, inr boom) failed_run).0
