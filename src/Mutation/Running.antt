-- ===== src/Mutation/Running.antt =====
-- The execution of a mutation as a whole: `execute_mutation_full` (src/mutation.rs), and
-- `execute_mutation` (src/executor.rs).
use rs_query.Base.{ℕ, false, Option, none, some, ◌⊎◌, inl, inr, for_each}
use rs_query.State.{QueryError, MutationStatus}
use rs_query.Client.Core.{Tables, Client}
use rs_query.Client.Data.{invalidate_queries}
use rs_query.MutationCache
use rs_query.MutationCache.{
  MutationCacheEntry, MutationCache, can_run, mark_running, mark_finished, run_next,
  subscribe_scope,
}
use rs_query.Mutation.Core.{
  Scene, call, given, Rollback, Mutation, MutateOptions, MutationCacheConfig, World, Surroundings,
  fire, with_context, update_entry, settle_mutation_success, settle_mutation_error, release_scope,
  in_cache, scope_gate, attempts,
}

-- The rollback is made by the caller of `settle_mutation_error`.
abbrev pub roll_back : {V : Type 0} {M : Tables V} → Option (Rollback M) → Client M → Client M
roll_back none c = c
roll_back (some f) c = f c

module _ {V : Type 0} {M : Tables V} {T P W : Type 0} where
  -- The entry of a mutation that is submitted at the instant `now`.
  abbrev pub pending_entry : ℕ → Mutation M T P W → MutationCacheEntry
  pending_entry now m = record {
    id = 0;
    mutation_key = m.mutation_key;
    scope = m.scope;
    status = MutationStatus.pending;
    is_paused = false;
    submitted_at_ms = some now;
    has_result = false;
    error_of = none;
    has_context = false;
  }

  -- The match on the result of the attempts.
  unfoldable pub conclude :
      MutationCacheConfig (Scene M W)
      → Mutation M T P W
      → P
      → ℕ
      → Option (MutateOptions T P (Scene M W))
      → Option (Rollback M)
      → T ⊎ QueryError
      → World M W
      → World M W × (T ⊎ QueryError)
  conclude config m params id per_call rollback (inl value) s =
      let s = settle_mutation_success config m params id per_call value s in
      (in_cache (release_scope m.scope) s, inl value)
  conclude config m params id per_call rollback (inr error) s =
      let s = record s { client = roll_back rollback s.client } in
      let s = settle_mutation_error config m params id per_call error s in
      (in_cache (release_scope m.scope) s, inr error)

  -- From the attempts on.
  unfoldable pub run_mutation :
      MutationCacheConfig (Scene M W)
      → Surroundings M W
      → Mutation M T P W
      → P
      → ℕ
      → Option (MutateOptions T P (Scene M W))
      → Option (Rollback M)
      → World M W
      → World M W × (T ⊎ QueryError)
  run_mutation config around m params id per_call rollback s =
      let (s, result) = attempts around (m.mutate_fn params) m.retry 0 s in
      conclude config m params id per_call rollback result s

  -- The match on the answer of `on_mutate`, which left the client `c`.
  unfoldable pub answered :
      MutationCacheConfig (Scene M W)
      → Surroundings M W
      → Mutation M T P W
      → P
      → ℕ
      → Option (MutateOptions T P (Scene M W))
      → World M W
      → Client M
      → Rollback M ⊎ QueryError
      → World M W × (T ⊎ QueryError)
  answered config around m params id per_call s c (inl rollback) =
      run_mutation config around m params id per_call (some rollback)
        (record s { client = c; cache = update_entry id with_context s.cache })
  answered config around m params id per_call s c (inr error) =
      let s = settle_mutation_error config m params id per_call error (record s { client = c }) in
      (in_cache (release_scope m.scope) s, inr error)

  -- The match on `mutation.on_mutate`.
  unfoldable pub prepared :
      MutationCacheConfig (Scene M W)
      → Surroundings M W
      → Mutation M T P W
      → P
      → ℕ
      → Option (MutateOptions T P (Scene M W))
      → World M W
      → Option (P → Client M → Client M × (Rollback M ⊎ QueryError))
      → World M W × (T ⊎ QueryError)
  prepared config around m params id per_call s none =
      run_mutation config around m params id per_call none s
  prepared config around m params id per_call s (some on_mutate) =
      let (c, answer) = on_mutate params s.client in
      answered config around m params id per_call s c answer

  -- From the mutation's own `on_mutate` on.
  unfoldable pub after_gate :
      MutationCacheConfig (Scene M W)
      → Surroundings M W
      → Mutation M T P W
      → P
      → ℕ
      → Option (MutateOptions T P (Scene M W))
      → World M W
      → World M W × (T ⊎ QueryError)
  after_gate config around m params id per_call s =
      prepared config around m params id per_call s m.on_mutate

  -- `execute_mutation_full` and, with the id that `add_with_hook` gives away, the tracked one. The
  -- result is `none` while the mutation is still at the gate after so many polls.
  unfoldable pub execute_mutation_full :
      MutationCacheConfig (Scene M W)
      → Surroundings M W
      → ℕ
      → ℕ
      → Mutation M T P W
      → P
      → Option (MutateOptions T P (Scene M W))
      → World M W
      → Option (World M W × (T ⊎ QueryError))
  execute_mutation_full config around polls now m params per_call s =
      let (cache, id) = MutationCache.add (pending_entry now m) s.cache in
      let w = fire config.on_mutate id cache (s.client, s.program) in
      elim (scope_gate around polls m.scope id
        (record { client = w.0; cache = cache; program = w.1 })) [
          | none ↦ none
          | some s ↦ some (after_gate config around m params id per_call s)
        ]

  -- `execute_mutation` of src/executor.rs: one call of `mutate_fn` and no cache.
  abbrev run_once :
      Surroundings M W
      → Mutation M T P W
      → P
      → Option (Rollback M)
      → World M W
      → World M W × (T ⊎ QueryError)
  run_once around m params rollback s =
      let s = around.calling 0 s in
      elim (m.mutate_fn params 0) [
        | inl value ↦
            let client = for_each m.invalidates_keys (invalidate_queries M) s.client in
            let w = call (given (λ f. f value params) m.on_success) (client, s.program) in
            (record s { client = w.0; program = w.1 }, inl value)
        | inr error ↦
            let client = roll_back rollback s.client in
            let w = call (given (λ f. f error params) m.on_error) (client, s.program) in
            (record s { client = w.0; program = w.1 }, inr error)
      ]

  unfoldable pub execute_mutation :
      Surroundings M W → Mutation M T P W → P → World M W → World M W × (T ⊎ QueryError)
  execute_mutation around m params s = elim m.on_mutate [
    | none ↦ run_once around m params none s
    | some on_mutate ↦
        let (c, answer) = on_mutate params s.client in
        elim answer [
          | inl rollback ↦ run_once around m params (some rollback) (record s { client = c })
          | inr error ↦ (record s { client = c }, inr error)
        ]
  ]
