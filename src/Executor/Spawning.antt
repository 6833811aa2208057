-- ===== src/Executor/Spawning.antt =====
-- `spawn_query` of src/executor.rs, past its check for a restore: the spawning thread counts the fetch,
-- spawns the task and then registers it; the task runs beside it, and at its end takes its key out of
-- the in-flight table and drops its guard.
use rs_query.Base.{ℕ, ◌^◌, ◌<◌, ◌≡◌, false, arith}
use rs_query.Key.{QueryKey}
use rs_query.Client.Core.{Tables, Client, is_in_flight, set_in_flight, clear_in_flight}
use rs_query.Client.Lifecycle.{inc_fetching, dec_fetching}
use rs_query.Client.Flight.{is_in_flight-clear_in_flight}

module _ {V : Type 0} (M : Tables V) where
  -- The spawning thread before and after `runtime.spawn`.
  unfoldable pub start_fetch : Client M → Client M
  start_fetch c = inc_fetching M c

  unfoldable pub register : QueryKey → ℕ → Client M → Client M
  register key task c = set_in_flight M key.cache_key task c

  -- The end of the task: `clear_in_flight`, then the drop of the `FetchingGuard`.
  unfoldable pub finish_task : QueryKey → Client M → Client M
  finish_task key c = dec_fetching M (clear_in_flight M key.cache_key c)

  -- If the task ends after it was registered, its key is not in flight any more, and the number of
  -- fetches is what it was before the spawn.
  finish_registered :
      (key : QueryKey) (task : ℕ) (c : Client M)
      → c.fetching_count < 2 ^ 64
      → let c' = finish_task key (register key task (start_fetch c)) in
        (is_in_flight M key.cache_key c' ≡ false) × (c'.fetching_count ≡ c.fetching_count)
  unfolding finish_task register start_fetch is_in_flight inc_fetching dec_fetching
  finish_registered key task c b = (
    is_in_flight-clear_in_flight M key.cache_key (register key task (start_fetch c)),
    unfold clear_in_flight in unfold set_in_flight in omega arith,
  )
