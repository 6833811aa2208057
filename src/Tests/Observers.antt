-- ===== src/Tests/Observers.antt =====
-- Observers (src/observer.rs) and batches of notifications (src/notify_manager.rs) at concrete inputs.
use rs_query.Base.{ℕ, ◌+◌, ◌*◌, ◌≡◌, refl, true, false, none, some, [], ◌∷◌, ◌++◌}
use rs_query.Key.{QueryKey}
use rs_query.Key.Join.{joined}
use rs_query.State.{QueryError, QueryState, data_of}
use rs_query.Options.{PlaceholderData, default_options, resolve}
use rs_query.Map.Assoc.{assoc_map}
use rs_query.Bus
use rs_query.Client.Core
use rs_query.Client.Core.{CacheEntry, Tables, Client, QueryStateUpdate}
use rs_query.Observer
use rs_query.Observer.{QueryObserver, mounted, set_loading, set_error, flags, update}
use rs_query.Observer.States.{update-new, placeholder_leaks}
use rs_query.Observer.Bookkeeping.{
  Reach, mounts, then_step, loads, fails, Consistent, observer-Consistent,
}
use rs_query.Notify.{call_all}
use rs_query.Notify.Batches.{Script, done, notify_then, batch_then, run, callbacks, run-callbacks}

abbrev tables : Tables ℕ
tables = record {
  cache = assoc_map (CacheEntry ℕ);
  in_flight = assoc_map ℕ;
  subscribers = assoc_map (Bus.Shared QueryStateUpdate);
}

abbrev user : QueryKey
user = joined ((b'u' ∷ []) ∷ [])

abbrev boom : QueryError
boom = QueryError.custom (b'x' ∷ [])

abbrev guessing : QueryObserver ℕ
guessing = mounted user 1 QueryState.idle 0 default_options (some (PlaceholderData.value 7))

placeholder_leaks_example :
    let shown = set_loading 3 guessing in
    let failed = set_error 4 boom shown in
    ((flags true shown).is_placeholder_data ≡ true)
    × (failed.state ≡ QueryState.error boom (some (resolve (PlaceholderData.value 7) none)))
    × ((flags true failed).is_loading_error ≡ false)
    × ((flags true failed).is_refetch_error ≡ true)
unfolding data_of
placeholder_leaks_example =
    placeholder_leaks 3 4 boom true guessing (PlaceholderData.value 7) refl refl

update-new_example :
    let (c', fresh) = Observer.new tables 5 1 user (Core.new tables) in
    (update tables 5 c' guessing).state ≡ fresh.state
update-new_example = update-new tables 5 guessing (Core.new tables)

abbrev failed_once : QueryObserver ℕ
failed_once = set_error 4 boom (set_loading 3 guessing)

failing : Reach tables failed_once
failing =
    then_step
      (then_step (mounts user 1 QueryState.idle 0 default_options (some (PlaceholderData.value 7)))
        (loads 3 guessing))
      (fails 4 boom (set_loading 3 guessing))

observer-Consistent_example : Consistent failed_once
observer-Consistent_example = observer-Consistent tables failed_once failing

abbrev nested : Script ℕ
nested =
    batch_then (notify_then (λ n. n + 1) (batch_then (notify_then (λ n. n * 2) done) done))
      (notify_then (λ n. n + 5) done)

run-callbacks_example :
    (run nested (record { queue = []; batch_depth = 0; program = 3 })
      ≡ record { queue = []; batch_depth = 0; program = call_all (callbacks nested) 3 })
    × (run nested (record { queue = (λ n. n) ∷ []; batch_depth = 1; program = 3 })
        ≡ record { queue = ((λ n. n) ∷ []) ++ callbacks nested; batch_depth = 1; program = 3 })
run-callbacks_example = run-callbacks nested 0 ((λ n. n) ∷ []) 3
