-- ===== src/MutationObserver.antt =====
-- src/mutation_observer.rs: the observer of one mutation and its filtered stream of events. Its
-- executions run in tasks of their own, each with the reset generation that it was submitted under.
pub mod Tracking
pub mod Events
use rs_query.Base.{
  ℕ, zero, suc, ◌+◌, ◌%◌, ◌^◌, ◌⊎◌, inl, inr, Bool, true, false, ◌||◌, Option, none, some, List, [],
  ◌∷◌, ◌++◌, get_last?, ◌==◌, if◌then◌else◌,
}
use rs_query.State.{QueryError, MutationState}
use rs_query.Bus
use rs_query.Bus.{Received, poll_state, ok, empty, closed, lagged}
use rs_query.MutationCache
use rs_query.MutationCache.{MutationCache, MutationCacheEvent}
use rs_query.Client.Core.{Tables}
use rs_query.Mutation.Core.{
  Scene, Mutation, MutateOptions, MutationCacheConfig, Surroundings, World,
}
use rs_query.Mutation.Running.{pending_entry, execute_mutation_full}

-- `MutationObserver<T, P>`, without the cache and the mutation.
pub record MutationObserver (T : Type 0) : Type 0 where
  pub state : MutationState T
  pub entry_ids : List ℕ
  pub generation : ℕ

-- The modulus of `AtomicU64`.
abbrev pub u64 : ℕ
u64 = 2 ^ 64

module _ {T : Type 0} where
  unfoldable pub new : MutationObserver T
  new = record { state = MutationState.idle; entry_ids = []; generation = 0 }

  -- `mutate` up to the spawn, with the generation that the task keeps.
  unfoldable pub submit : MutationObserver T → MutationObserver T × ℕ
  submit o = (record o { state = MutationState.loading }, o.generation)

  -- `on_entry_added`.
  unfoldable pub on_entry_added : ℕ → MutationObserver T → MutationObserver T
  on_entry_added id o = record o { entry_ids = o.entry_ids ++ id ∷ [] }

  abbrev pub told : T ⊎ QueryError → MutationState T
  told (inl d) = MutationState.success d
  told (inr e) = MutationState.error e

  -- The end of a task: the look at the generation, and the write, which is a lock of its own.
  unfoldable pub is_observed : ℕ → MutationObserver T → Bool
  is_observed observed_generation o = o.generation == observed_generation

  unfoldable pub write_result : T ⊎ QueryError → MutationObserver T → MutationObserver T
  write_result result o = record o { state = told result }

  -- The end of a task with nothing between the two.
  unfoldable pub settle : ℕ → T ⊎ QueryError → MutationObserver T → MutationObserver T
  unfolding is_observed write_result
  settle observed_generation result o =
      if is_observed observed_generation o then write_result result o else o

  -- The two writes of `reset`.
  unfoldable pub next_generation : MutationObserver T → MutationObserver T
  next_generation o = record o { generation = (o.generation + 1) % u64 }

  unfoldable pub clear_state : MutationObserver T → MutationObserver T
  clear_state o = record o { state = MutationState.idle }

  unfoldable pub reset : MutationObserver T → MutationObserver T
  unfolding next_generation clear_state
  reset o = clear_state (next_generation o)

  unfoldable pub current_result : MutationObserver T → MutationState T
  current_result o = o.state

  unfoldable pub last_entry_id : MutationObserver T → Option ℕ
  last_entry_id o = get_last? o.entry_ids

module _ {V : Type 0} {M : Tables V} {T W : Type 0} where
  -- The end of the task: `none` while the execution is at its gate.
  unfoldable pub finish_task :
      ℕ
      → MutationObserver T
      → Option (World M W × (T ⊎ QueryError))
      → Option (World M W × MutationObserver T × (T ⊎ QueryError))
  finish_task g o none = none
  finish_task g o (some (w, result)) = some (w, settle g result o, result)

module _ {V : Type 0} {M : Tables V} {T P W : Type 0} where
  -- `mutate` with its task run to its end; `meanwhile` is what happens to the observer from the
  -- addition of the entry to the end of the execution.
  unfoldable pub mutate :
      MutationCacheConfig (Scene M W)
      → Surroundings M W
      → ℕ
      → ℕ
      → Mutation M T P W
      → P
      → Option (MutateOptions T P (Scene M W))
      → (MutationObserver T → MutationObserver T)
      → World M W
      → MutationObserver T
      → Option (World M W × MutationObserver T × (T ⊎ QueryError))
  mutate config around polls now m params per_call meanwhile w o =
      let (o1, g) = submit o in
      let id = (MutationCache.add (pending_entry now m) w.cache).1 in
      finish_task g (meanwhile (on_entry_added id o1))
        (execute_mutation_full config around polls now m params per_call w)

abbrev pub mem : ℕ → List ℕ → Bool
mem id [] = false
mem id (i ∷ is) = i == id || mem id is

-- `relevant` in `MutationEventStream::next`.
unfoldable pub relevant : List ℕ → MutationCacheEvent → Bool
relevant ids (MutationCacheEvent.added id) = mem id ids
relevant ids (MutationCacheEvent.removed id) = mem id ids
relevant ids (MutationCacheEvent.updated id) = mem id ids
relevant ids _ = true

-- A poll of `next`: an event, the end of the stream, or `Pending`.
pub data Next : Type 0 where
  event : MutationCacheEvent → Next
  ended pending : Next

module _ (entry_ids : List ℕ) (id : ℕ) where
  -- The branches of the loop on what the receiver got.
  unfoldable pub on_received :
      (Bus.Shared MutationCacheEvent → Bus.Shared MutationCacheEvent × Option Next)
      → Bus.Shared MutationCacheEvent × Received MutationCacheEvent
      → Bus.Shared MutationCacheEvent × Option Next
  on_received loop (s, ok e) = if relevant entry_ids e then (s, some (event e)) else loop s
  on_received loop (s, lagged n) = loop s
  on_received loop (s, closed) = (s, some ended)
  on_received loop (s, empty) = (s, some pending)

  -- A poll of `MutationEventStream::next`, of at most so many turns; `none` if they are used up.
  unfoldable pub next :
      ℕ → Bus.Shared MutationCacheEvent → Bus.Shared MutationCacheEvent × Option Next
  next zero s = (s, none)
  next (suc fuel) s = on_received (next fuel) (poll_state true id s)
