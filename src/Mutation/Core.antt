-- ===== src/Mutation/Core.antt =====
-- The data of a mutation's execution, its callbacks, its settlement, its gate and its attempts
-- (src/mutation.rs, and the callbacks of src/mutation_cache.rs).
use rs_query.Base.{
  ℕ, zero, suc, Bool, true, false, Option, none, some, ◌⊎◌, inl, inr, List, Text, if◌then◌else◌,
  for_each,
}
use rs_query.Key.{QueryKey}
use rs_query.State.{QueryError, MutationStatus}
use rs_query.Client.Core.{Tables, Client}
use rs_query.Client.Data.{invalidate_queries}
use rs_query.MutationCache
use rs_query.MutationCache.{
  MutationCacheEntry, MutationCache, can_run, mark_running, mark_finished, run_next,
  subscribe_scope,
}

-- What a callback acts on: the client, which it may have captured, and the rest of the program. Callbacks
-- that call the mutation cache are left out.
abbrev pub Scene : {V : Type 0} → Tables V → Type 0 → Type 0
Scene M W = Client M × W

-- An optional callback, with its arguments.
abbrev pub call : {W : Type 0} → Option (W → W) → W → W
call none w = w
call (some f) w = f w

abbrev pub given : {A B : Type 0} → (A → B) → Option A → Option B
given f none = none
given f (some a) = some (f a)

-- `RollbackFn`: it acts on the client.
abbrev pub Rollback : {V : Type 0} → Tables V → Type 0
Rollback M = Client M → Client M

-- `Mutation<T, P>`; the nth call of `mutate_fn` gives the nth outcome. The delay between retries and
-- the network mode, which no execution reads, are left out.
pub record Mutation {V : Type 0} (M : Tables V) (T P W : Type 0) : Type 0 where
  pub mutate_fn : P → ℕ → T ⊎ QueryError
  pub invalidates_keys : List QueryKey
  pub on_mutate : Option (P → Client M → Client M × (Rollback M ⊎ QueryError))
  pub on_success : Option (T → P → Scene M W → Scene M W)
  pub on_error : Option (QueryError → P → Scene M W → Scene M W)
  pub on_settled : Option (T ⊎ QueryError → P → Scene M W → Scene M W)
  pub scope : Option Text
  pub retry : ℕ
  pub mutation_key : Option QueryKey

-- `MutateOptions`.
pub record MutateOptions (T P W : Type 0) : Type 0 where
  pub on_success : Option (T → P → W → W)
  pub on_error : Option (QueryError → P → W → W)
  pub on_settled : Option (T ⊎ QueryError → P → W → W)

-- `MutationCacheConfig`.
pub record MutationCacheConfig (W : Type 0) : Type 0 where
  pub on_mutate : Option (MutationCacheEntry → W → W)
  pub on_success : Option (MutationCacheEntry → W → W)
  pub on_error : Option (MutationCacheEntry → W → W)
  pub on_settled : Option (MutationCacheEntry → W → W)

pub record World {V : Type 0} (M : Tables V) (W : Type 0) : Type 0 where
  pub client : Client M
  pub cache : MutationCache
  pub program : W

-- What the other tasks do during the nth wait at the gate, and during the nth call of `mutate_fn` and
-- the sleep that may follow it.
pub record Surroundings {V : Type 0} (M : Tables V) (W : Type 0) : Type 0 where
  pub parked : ℕ → World M W → World M W
  pub calling : ℕ → World M W → World M W

-- `fire_on_mutate`, `fire_on_success`, `fire_on_error` and `fire_on_settled`, each with its callback.
unfoldable pub fire : {W : Type 0} → Option (MutationCacheEntry → W → W) → ℕ → MutationCache → W → W
fire none id cache w = w
fire (some callback) id cache w = elim (MutationCache.get id cache) [
  | none ↦ w
  | some e ↦ callback e w
]

-- The changes of the entry.
abbrev pub succeed : MutationCacheEntry → MutationCacheEntry
succeed e = record e {
  status = MutationStatus.success;
  has_result = true;
  error_of = none;
  is_paused = false;
}

abbrev pub fail : QueryError → MutationCacheEntry → MutationCacheEntry
fail error e = record e {
  status = MutationStatus.error;
  error_of = some error;
  has_result = false;
  is_paused = false;
}

abbrev pub unpause : MutationCacheEntry → MutationCacheEntry
unpause e = record e { is_paused = false }

abbrev pub with_context : MutationCacheEntry → MutationCacheEntry
with_context e = record e { has_context = true }

abbrev pub update_entry :
    ℕ → (MutationCacheEntry → MutationCacheEntry) → MutationCache → MutationCache
update_entry id f cache = (MutationCache.update id f cache).0

abbrev per_call_success : {T P W : Type 0} → Option (MutateOptions T P W) → T → P → W → W
per_call_success none value params w = w
per_call_success (some o) value params w =
    call (given (λ f. f (inl value) params) o.on_settled)
      (call (given (λ f. f value params) o.on_success) w)

abbrev pub per_call_error : {T P W : Type 0} → Option (MutateOptions T P W) → QueryError → P → W → W
per_call_error none error params w = w
per_call_error (some o) error params w =
    call (given (λ f. f (inr error) params) o.on_settled)
      (call (given (λ f. f error params) o.on_error) w)

module _ {V : Type 0} {M : Tables V} {T P W : Type 0}
    (config : MutationCacheConfig (Scene M W)) where
  unfoldable pub settle_mutation_success :
      Mutation M T P W → P → ℕ → Option (MutateOptions T P (Scene M W)) → T → World M W → World M W
  settle_mutation_success m params id per_call value s =
      let client = for_each m.invalidates_keys (invalidate_queries M) s.client in
      let cache = update_entry id succeed s.cache in
      let w = call (given (λ f. f value params) m.on_success) (client, s.program) in
      let w = fire config.on_success id cache w in
      let w = per_call_success per_call value params w in
      let w = call (given (λ f. f (inl value) params) m.on_settled) w in
      let w = fire config.on_settled id cache w in
      record { client = w.0; cache = cache; program = w.1 }

  unfoldable pub settle_mutation_error :
      Mutation M T P W
      → P
      → ℕ
      → Option (MutateOptions T P (Scene M W))
      → QueryError
      → World M W
      → World M W
  settle_mutation_error m params id per_call error s =
      let cache = update_entry id (fail error) s.cache in
      let w = call (given (λ f. f error params) m.on_error) (s.client, s.program) in
      let w = fire config.on_error id cache w in
      let w = per_call_error per_call error params w in
      let w = call (given (λ f. f (inr error) params) m.on_settled) w in
      let w = fire config.on_settled id cache w in
      record { client = w.0; cache = cache; program = w.1 }

-- `release_scope`; the scope was acquired when it is given.
unfoldable pub release_scope : Option Text → MutationCache → MutationCache
release_scope none cache = cache
release_scope (some k) cache = (run_next k (mark_finished k cache)).0

-- What passing the gate does: the scope is marked and a paused entry unpaused.
abbrev is_paused : Option MutationCacheEntry → Bool
is_paused none = false
is_paused (some e) = e.is_paused

unfoldable pub admit : Text → ℕ → MutationCache → MutationCache
admit k id cache =
    let marked = mark_running k cache in
    if is_paused (MutationCache.get id marked) then update_entry id unpause marked else marked

module _ {V : Type 0} {M : Tables V} {W : Type 0} where
  abbrev pub in_cache : (MutationCache → MutationCache) → World M W → World M W
  in_cache f s = record s { cache = f s.cache }

  -- The loop at the gate: `polls` looks at the scope, with a wait after each but the last.
  unfoldable pub gate : Surroundings M W → ℕ → ℕ → Text → ℕ → World M W → Option (World M W)
  gate around zero i k id s = none
  gate around (suc polls) i k id s =
      let rest = gate around polls (suc i) k id (around.parked i s) in
      if can_run k s.cache then some (in_cache (admit k id) s) else rest

  unfoldable pub scope_gate :
      Surroundings M W → ℕ → Option Text → ℕ → World M W → Option (World M W)
  scope_gate around polls none id s = some s
  scope_gate around polls (some k) id s =
      gate around polls 0 k id (in_cache (λ cache. (subscribe_scope k cache).0) s)

  -- The attempt loop, with `left` retries left after the `used` ones.
  unfoldable pub attempts :
      {T : Type 0}
      → Surroundings M W
      → (ℕ → T ⊎ QueryError)
      → ℕ
      → ℕ
      → World M W
      → World M W × (T ⊎ QueryError)
  attempts around outcome zero used s = (around.calling used s, outcome used)
  attempts around outcome (suc left) used s =
      let rest = attempts around outcome left (suc used) (around.calling used s) in
      elim (outcome used) [ inl value ↦ (around.calling used s, inl value) | inr error ↦ rest ]
