-- ===== src/Tests/Fetches.antt =====
-- The execution of a query (src/executor.rs) at concrete inputs.
use rs_query.Base.{
  ℕ, suc, ◌≤◌, ◌≡◌, refl, ◌≢◌, inl, inr, Bool, true, false, some, List, [], ◌∷◌, arith, ◌==◌,
  length,
}
use rs_query.Key.Join.{joined}
use rs_query.State.{QueryError}
use rs_query.Options.{default_options, new_retry}
use rs_query.Map.Assoc.{assoc_map}
use rs_query.Bus
use rs_query.Client.Core
use rs_query.Client.Core.{CacheEntry, Tables, Client, QueryStateUpdate}
use rs_query.Executor.{Query, Turn, unfinished, fetch_loop}
use rs_query.Executor.Outcomes.{Fits, fetch_loop-Fits}
use rs_query.Executor.Budget.{waits, fetch_loop_budget, fetch_loop_ends}

abbrev cache_tables : Tables ℕ
cache_tables = record {
  cache = assoc_map (CacheEntry ℕ);
  in_flight = assoc_map ℕ;
  subscribers = assoc_map (Bus.Shared QueryStateUpdate);
}

abbrev equal_numbers : ℕ → ℕ → ℕ → Bool
equal_numbers t a b = a == b

abbrev number : Query ℕ
number = record {
  key = joined ((b'n' ∷ []) ∷ []);
  type_id = 1;
  options = record default_options { retry = new_retry 2 };
  select = some suc;
}

abbrev no_network : Turn cache_tables
no_network = record {
  cancelled = false;
  fetched = inr (QueryError.network []);
  online = false;
  cancelled_waiting = false;
  now = 1;
  fetching = λ c. c;
  writing = λ c. c;
  waiting = λ c. record c { is_restoring = true };
  sleeping = λ c. record c { next_address = 77 };
}

abbrev answered : Turn cache_tables
answered = record no_network { fetched = inl 41 }

abbrev turns : List (Turn cache_tables)
turns = no_network ∷ answered ∷ no_network ∷ []

abbrev empty_client : Client cache_tables
empty_client = Core.new cache_tables

fetch_loop-Fits_example :
    Fits cache_tables equal_numbers number
      (fetch_loop cache_tables equal_numbers number turns 0 empty_client).outcome
      turns
      empty_client
      (fetch_loop cache_tables equal_numbers number turns 0 empty_client).client
fetch_loop-Fits_example =
    fetch_loop-Fits cache_tables equal_numbers number turns 0 empty_client
      ((λ c. refl), ((λ c. refl), ((λ c. refl), tt)))

fetch_loop_budget_example :
    let x = fetch_loop cache_tables equal_numbers number turns 0 empty_client in
    (x.attempts ≤ 3)
    × (x.sleeps ≡ waits (new_retry 2) 0 (length x.sleeps))
    × (length x.sleeps ≤ x.attempts)
    × (x.attempts ≤ suc (length x.sleeps))
unfolding new_retry
fetch_loop_budget_example =
    fetch_loop_budget cache_tables equal_numbers number turns 0 empty_client (omega arith)
      (omega arith)

fetch_loop_ends_example :
    (fetch_loop cache_tables equal_numbers number turns 0 empty_client).outcome ≢ unfinished
unfolding new_retry
fetch_loop_ends_example =
    fetch_loop_ends cache_tables equal_numbers number turns 0 empty_client (omega arith)
      (omega arith) (omega arith)
