-- ===== src/Observer/States.antt =====
-- The states of an observer: what it reads from the cache, and what a placeholder does to it.
use rs_query.Base.{ℕ, ◌≡◌, refl, ap, ◌∙◌, Bool, true, false, Option, none, some, arith}
use rs_query.State.{QueryError, QueryState, data_of, has_data, is_error}
use rs_query.Options.{PlaceholderData, resolve}
use rs_query.Client.Core.{Tables, Client}
use rs_query.Observer.{
  QueryObserver, set_loading, set_error, flags, new, update, started, initial, updated,
}

module _ {V : Type 0} (M : Tables V) where
  updated-initial :
      (state : QueryState V) (read : Option V) (stale : Bool)
      → updated M state read stale ≡ initial M read stale
  updated-initial state none stale = refl
  updated-initial state (some d) stale = ground arith

  -- Whatever an observer has gone through, an update leaves it in the state in which an observer of
  -- its key and type is made at the same instant.
  pub update-new :
      (now : ℕ) (o : QueryObserver V) (c : Client M)
      → let (c', fresh) = new M now o.type_id o.key c in (update M now c' o).state ≡ fresh.state
  unfolding new update
  update-new now o c = updated-initial o.state _ _

module _ {V : Type 0} where
  -- A fetch that fails while a placeholder is shown leaves the placeholder as the data of the error: the
  -- failure counts as one of a refetch, although nothing was ever fetched.
  pub placeholder_leaks :
      (start end : ℕ) (e : QueryError) (online : Bool) (o : QueryObserver V) (p : PlaceholderData V)
      → data_of o.state ≡ none
      → o.placeholder_data ≡ some p
      → let shown = set_loading start o in
        let failed = set_error end e shown in
        ((flags online shown).is_placeholder_data ≡ true)
        × (failed.state ≡ QueryState.error e (some (resolve p none)))
        × ((flags online failed).is_loading_error ≡ false)
        × ((flags online failed).is_refetch_error ≡ true)
  unfolding set_loading set_error flags data_of has_data is_error
  placeholder_leaks start end e online o p n h =
      let began : started o.placeholder_data (data_of o.state)
          ≡ QueryState.loading_with_placeholder (resolve p none) =
        ap (λ x. started x (data_of o.state)) h ∙ ap (started (some p)) n in
      rw began (refl, refl, refl, refl)
