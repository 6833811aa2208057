-- ===== src/Mutation/Restoring.antt =====
-- What a failed mutation leaves of the client.
use rs_query.Base.{ℕ, ◌≡◌, ◌⊎◌, Option}
use rs_query.State.{QueryError}
use rs_query.Client.Core.{Tables, Client}
use rs_query.MutationCache.{MutationCache}
use rs_query.Mutation.Core.{
  Scene, call, given, fire, per_call_error, Mutation, MutateOptions, MutationCacheConfig,
  Surroundings,
}

module _ {V : Type 0} {M : Tables V} {T P W : Type 0} (config : MutationCacheConfig (Scene M W))
    (around : Surroundings M W) (m : Mutation M T P W) (params : P)
    (per_call : Option (MutateOptions T P (Scene M W))) where
  -- The callbacks of a failure, and the one of the submission, leave the client alone.
  pub record KeepsClient : Type 0 where
    pub on_error :
        (x : QueryError) (w : Scene M W) → (call (given (λ f. f x params) m.on_error) w).0 ≡ w.0
    pub on_settled :
        (r : T ⊎ QueryError) (w : Scene M W)
        → (call (given (λ f. f r params) m.on_settled) w).0 ≡ w.0
    pub per_call_options :
        (x : QueryError) (w : Scene M W) → (per_call_error per_call x params w).0 ≡ w.0
    pub cache_on_error :
        (id : ℕ) (cache : MutationCache) (w : Scene M W) → (fire config.on_error id cache w).0 ≡ w.0
    pub cache_on_settled :
        (id : ℕ) (cache : MutationCache) (w : Scene M W)
        → (fire config.on_settled id cache w).0 ≡ w.0
    pub cache_on_mutate :
        (id : ℕ) (cache : MutationCache) (w : Scene M W)
        → (fire config.on_mutate id cache w).0 ≡ w.0
