-- ===== src/Mutation/Settling.antt =====
-- How a mutation ends: its entry, its scope and, after a failure, the client.
use mathlib.Core.Option
use mathlib.Core.Option.{some-injective}
use rs_query.Base.{
  ℕ, ◌≡◌, refl, sym, ◌∙◌, Bool, true, false, ◌⊎◌, inl, inr, Option, none, some, Text, Option-cases,
}
use rs_query.State.{QueryError, MutationStatus}
use rs_query.Client.Core.{Tables, Client}
use rs_query.MutationCache
use rs_query.MutationCache.{MutationCacheEntry, MutationCache, can_run, run_next, subscribe_scope}
use rs_query.Mutation.Core.{
  Scene, Mutation, MutateOptions, MutationCacheConfig, World, Surroundings, scope_gate, fire,
}
use rs_query.Mutation.Running.{after_gate, execute_mutation_full, pending_entry}
use rs_query.Mutation.Attempts.{succeeded}

-- What an entry says of the result of its mutation.
abbrev pub error_part : {T : Type 0} → T ⊎ QueryError → Option QueryError
error_part (inl v) = none
error_part (inr e) = some e

abbrev pub status_of : {T : Type 0} → T ⊎ QueryError → MutationStatus
status_of (inl v) = MutationStatus.success
status_of (inr e) = MutationStatus.error

pub record Tells {T : Type 0} (result : T ⊎ QueryError) (e : MutationCacheEntry) : Type 0 where
  pub status : e.status ≡ status_of result
  pub has_result : e.has_result ≡ succeeded result
  pub error_told : e.error_of ≡ error_part result
  pub not_paused : e.is_paused ≡ false

-- The scope is free, if there is one.
abbrev pub is_free : Option Text → MutationCache → Bool
is_free none cache = true
is_free (some k) cache = can_run k cache

-- The entry, if it is still in the cache, tells the result, and the scope is free.
pub record IsSettled {T : Type 0} (id : ℕ) (scope : Option Text) (result : T ⊎ QueryError)
    (cache : MutationCache) : Type 0 where
  pub tells : (e : MutationCacheEntry) → MutationCache.get id cache ≡ some e → Tells result e
  pub free : is_free scope cache ≡ true

absurd_none : {A B : Type 0} {a : A} → none ≡ some a → B
absurd_none h = cc

module _ {V : Type 0} {M : Tables V} {T P W : Type 0} (config : MutationCacheConfig (Scene M W))
    (around : Surroundings M W) (m : Mutation M T P W) (params : P)
    (per_call : Option (MutateOptions T P (Scene M W))) where
  -- The mutation as it is when it comes to the gate.
  abbrev pub submitted : ℕ → World M W → World M W × ℕ
  submitted now s =
      let (cache, id) = MutationCache.add (pending_entry now m) s.cache in
      let w = fire config.on_mutate id cache (s.client, s.program) in
      (record { client = w.0; cache = cache; program = w.1 }, id)

  -- An execution that returns is past the gate.
  pub passed :
      (polls now : ℕ) (s : World M W) (r : World M W × (T ⊎ QueryError))
      → execute_mutation_full config around polls now m params per_call s ≡ some r
      → (s1 : World M W) × (scope_gate around polls m.scope (submitted now s).1 (submitted now s).0
          ≡ some s1)
        × (after_gate config around m params (submitted now s).1 per_call s1 ≡ r)
  unfolding execute_mutation_full
  passed polls now s r h =
      elim (Option-cases
        (scope_gate around polls m.scope (submitted now s).1 (submitted now s).0)) [
          | inl e ↦ absurd_none (sym (rw (e, execute_mutation_full) refl) ∙ h)
          | inr (s1, e) ↦ (s1, e, some-injective _ r (sym (rw (e, execute_mutation_full) refl) ∙ h))
        ]
