-- ===== src/Mutation/Spawning.antt =====
-- `spawn_mutation` of src/executor.rs: the count of mutations, the task and what it delivers.
use rs_query.Base.{◌⊎◌, inl, inr, if◌then◌else◌}
use rs_query.State.{QueryError, MutationState}
use rs_query.Client.Core.{Tables}
use rs_query.Client.Lifecycle.{inc_mutating, dec_mutating}
use rs_query.Mutation.Core.{Mutation, Surroundings, World}
use rs_query.Mutation.Running.{execute_mutation}

-- The `match` of the task.
unfoldable pub delivered : {T : Type 0} → T ⊎ QueryError → MutationState T
delivered (inl d) = MutationState.success d
delivered (inr e) = MutationState.error e

module _ {V : Type 0} {M : Tables V} {T W : Type 0} where
  -- The end of the task, which drops the `MutatingGuard`.
  unfoldable pub finish_mutation : World M W × (T ⊎ QueryError) → World M W × MutationState T
  unfolding delivered
  finish_mutation (w, result) = (record w { client = dec_mutating M w.client }, delivered result)

module _ {V : Type 0} {M : Tables V} {T P W : Type 0} where
  -- `spawn_mutation` with its task run to its end.
  unfoldable pub spawn_mutation :
      Surroundings M W → Mutation M T P W → P → World M W → World M W × MutationState T
  unfolding finish_mutation
  spawn_mutation around m params w =
      if w.client.is_restoring
      then (w, MutationState.idle)
      else finish_mutation
          (execute_mutation around m params (record w { client = inc_mutating M w.client }))
