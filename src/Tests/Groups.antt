-- ===== src/Tests/Groups.antt =====
-- Observers of several queries and of mutations (src/queries_observer.rs, src/mutation_observer.rs) at
-- concrete inputs.
use rs_query.Base.{
  ℕ, ◌≡◌, refl, inl, Bool, true, none, some, List, [], ◌∷◌, ◌++◌, ◌==◌, get_elem?, text_eq, list_eq,
  Text, ap, arith,
}
use rs_query.Base.Table.{get}
use rs_query.Key.Join.{joined}
use rs_query.State.{QueryState, MutationState}
use rs_query.Options.{default_options, is_enabled}
use rs_query.Map.Assoc.{assoc_map}
use rs_query.Bus
use rs_query.Bus.{RecvState}
use rs_query.Client.Core
use rs_query.Client.Core.{CacheEntry, Tables, Client, QueryStateUpdate}
use rs_query.QueriesObserver
use rs_query.QueriesObserver.{
  Spec, Task, World, position, or_empty, set_specs, run_all, run_indices, run_spec, sync, results,
  initial_result,
}
use rs_query.QueriesObserver.Orphans.{deposits, set_specs_orphans}
use rs_query.QueriesObserver.Results.{set_specs_keeps}
use rs_query.MutationCache.{MutationCacheEvent}
use rs_query.MutationObserver
use rs_query.MutationObserver.{
  MutationObserver, submit, is_observed, next_generation, clear_state, current_result,
}
use rs_query.MutationObserver.Events.{delivered, left, next_lem}
use rs_query.MutationObserver.Tracking.{Machine, still, looks, fresh, mutates, reset_stays}

abbrev tables : Tables ℕ
tables = record {
  cache = assoc_map (CacheEntry ℕ);
  in_flight = assoc_map ℕ;
  subscribers = assoc_map (Bus.Shared QueryStateUpdate);
}

abbrev equal_numbers : ℕ → ℕ → ℕ → Bool
equal_numbers t a b = a == b

abbrev spec : ℕ → Spec ℕ
spec c = record {
  key = joined ((c ∷ []) ∷ []);
  type_id = 1;
  options = default_options;
  initial_data = none;
}

abbrev two : World tables
two = QueriesObserver.new tables equal_numbers 5 (spec b'a' ∷ spec b'b' ∷ []) (Core.new tables)

abbrev running : World tables
running = (run_all tables two).0

abbrev finished : List (Task × QueryState ℕ)
finished = (record { buffer = 0; idx = 0 }, QueryState.success 3) ∷ []

set_specs_orphans_example :
    results tables (
      sync tables (
        deposits tables finished
          (set_specs tables equal_numbers 6 running.observer.specs running).0))
    ≡ results tables
        (sync tables (set_specs tables equal_numbers 6 running.observer.specs running).0)
unfolding run_all run_indices run_spec QueriesObserver.new is_enabled default_options
set_specs_orphans_example =
    set_specs_orphans tables equal_numbers 6 running.observer.specs running finished (omega arith)

-- Two queries that are loading.
abbrev ready : World tables
ready = record {
  observer = record {
    specs = spec b'a' ∷ spec b'b' ∷ [];
    results = QueryState.idle ∷ QueryState.loading ∷ [];
    completed = 0;
  };
  buffers = λ b. some (QueryState.success 3) ∷ none ∷ [];
  next_buffer = 1;
  client = Core.new tables;
}

abbrev first_of : Text → ℕ
first_of [] = 0
first_of (x ∷ t) = x

-- The second query stays, behind a new one.
set_specs_keeps_example :
    let w' =
      (set_specs tables equal_numbers 6 (spec b'c' ∷ [] ++ spec b'b' ∷ spec b'a' ∷ []) ready).0 in
    (get_elem? w'.observer.results 1 ≡ some QueryState.loading)
    × (get_elem? (w'.buffers w'.observer.completed) 1 ≡ some none)
unfolding position text_eq list_eq
set_specs_keeps_example =
    set_specs_keeps tables equal_numbers 6 (spec b'c' ∷ []) (spec b'a' ∷ []) (spec b'b') ready 1
      QueryState.loading refl refl ((λ e. absurd (omega (arith, ap first_of e))), tt)

abbrev submitted : Machine ℕ
submitted = record {
  observer = (submit (MutationObserver.new {T = ℕ})).0;
  tasks = 0 ∷ [];
  writers = [];
}

abbrev raised : Machine ℕ
raised = record submitted { observer = next_generation submitted.observer }

abbrev cleared : Machine ℕ
cleared = record raised { observer = clear_state raised.observer }

-- The execution looks at the generation at the end of the reset.
reset_stays_example : current_result (clear_state raised.observer) ≡ MutationState.idle
unfolding MutationObserver.new submit next_generation clear_state is_observed
reset_stays_example =
    reset_stays {m = submitted} {n = raised} (mutates fresh) (omega arith) refl still
      (looks {n = cleared} [] [] 0 (inl 42) still refl)

abbrev deaf : RecvState MutationCacheEvent
deaf = record {
  queue =
      MutationCacheEvent.added 7 ∷ MutationCacheEvent.updated 3 ∷ MutationCacheEvent.removed 3 ∷ [];
  parked = true;
  missed = 4;
  alive = true;
}

abbrev event_bus : Bus.Shared MutationCacheEvent
event_bus = record {
  capacity = 3;
  next_id = 2;
  senders_alive = true;
  sender_count = 1;
  receivers = (1, deaf) ∷ [];
}

next_lem_example :
    let polled = MutationObserver.next (3 ∷ []) 1 5 event_bus in
    (r' : RecvState MutationCacheEvent) × (polled.1 ≡ some (delivered (3 ∷ []) true deaf.queue))
    × (get 1 polled.0.receivers ≡ some r')
    × (r'.queue ≡ left (3 ∷ []) deaf.queue)
    × (r'.missed ≡ 0)
unfolding get
next_lem_example = next_lem (3 ∷ []) 1 5 event_bus deaf refl (omega arith)
