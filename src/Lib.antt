-- ===== src/Lib.antt =====
-- rs-query is a query cache in the manner of TanStack Query: keyed data are fetched, cached with a
-- staleness, shared between subscribers, invalidated by key or by filter, and collected. This
-- library models its cache and the channels, filters, options and retry logic that the cache stands
-- on, as functions on explicit states.
--
-- How the parts interact: `QueryClient` (src/client.rs) holds three concurrent maps, from cache keys
-- to entries, to tasks in flight and to senders. Keys come from src/key.rs and options from
-- src/options.rs; bulk operations build a snapshot of each entry and match it by src/filters.rs. Each
-- change is told on the broadcast channels of src/bus.rs. Connectivity is src/network.rs over the
-- watch cell of src/watch.rs, which the attempt loop of src/retryer.rs consults before a retry.
-- `execute_query` of src/executor.rs ties them together: it gates a fetch, retries it, writes the
-- result and tells the subscribers. The page loop of src/infinite_executor.rs adds pages to an entry on
-- request; `execute_mutation_full` of src/mutation.rs passes the gate of its scope in
-- src/mutation_cache.rs, changes the client optimistically and rolls back on a failure;
-- src/hydration.rs carries the cache from one client to another, src/persist_client.rs keeps what it
-- carries behind a persister, and src/broadcast.rs sends it over channels. The observers of
-- src/queries_observer.rs and src/mutation_observer.rs follow tasks that run these executions.
--
-- The files and the code they are about:
--   Key         src/key.rs: `QueryKey` as its segments with the cache key, and the way back by
--               `split("::")`; Key/Join and Key/Prefix hold the proofs.
--   State       src/error.rs and src/state.rs: errors, query and mutation states and their views.
--   Filters     src/filters.rs: snapshots, filters, `match_query` and `match_mutation`; the criteria as
--               a conjunction in Filters/Meaning.
--   Watch       src/watch.rs: the cell, its watchers and `Changed::poll`; Watch/Changes.
--   Network     src/network.rs: modes and the online manager.
--   Bus         src/bus.rs: senders and receivers, `poll_state` and the clones and drops; Bus/Receiver
--               (one bounded queue), Bus/Stream (what a reader sees), Bus/Closing (the count of senders),
--               Bus/Cloning (the clone of a receiver).
--   Options     src/options.rs, with `merge_options` of src/client.rs in Options/Merge and the delays of
--               `RetryConfig` in Options/Backoff.
--   Retry       src/retryer.rs and `delay_for` of src/executor.rs; Retry/Delay and Retry/Loop.
--   Infinite    src/infinite.rs, with the page limit of `append_infinite_page` and
--               `prepend_infinite_page` of src/client.rs; Infinite/Pages.
--   Map         the concurrent map of the crate dashmap, as an interface; Map/Keys for loops over keys,
--               and Map/Assoc for a map that meets it.
--   Client      src/client.rs: Client/Core (state, subscriptions, in-flight table; with the notifications
--               of src/observer.rs and the dynamic values of src/sharing.rs), Client/Data (reads, writes,
--               invalidation, collection), Client/Bulk (operations over filters), Client/Lifecycle
--               (mounting, reconnection, counters); the proofs in Client/Reads, Marks, Removal,
--               Selection, Mounting and Flight.
--   Notify      src/notify_manager.rs: the queue of notifications; Notify/Batches.
--   Observer    src/observer.rs: the observer of one key; Observer/Bookkeeping and Observer/States.
--   Executor    src/executor.rs: `execute_query_inner`, `wait_for_dedup` and the registration of
--               `spawn_query`; Executor/Outcomes, Budget and Spawning, and Executor/Imperative for
--               `fetch_query` and its kin of src/client.rs.
--   InfiniteExecutor  src/infinite_executor.rs: the request slot, with `recv` as a machine of phases,
--               and the turns of the page loop; Client/Pages and Client/Paging for the pages in the
--               cache; InfiniteExecutor/Requests and InfiniteExecutor/Serving.
--   MutationCache  src/mutation_cache.rs: entries and scopes; MutationCache/Entries,
--               MutationCache/Steps, MutationCache/Ids and MutationCache/Scopes.
--   Mutation    src/mutation.rs: the execution of a mutation, its parts in Mutation/Core and the whole
--               in Mutation/Running, `spawn_mutation` in Mutation/Spawning; Mutation/Attempts,
--               Settling and Restoring.
--   Hydration   src/hydration.rs: dehydration and hydration of the cache; its parts Hydration/Restoring
--               and Hydration/Whole.
--   Persister   src/persister.rs: queries kept in a storage, in bulk in Persister/Bulk; Persister/Keeping.
--   PersistClient  src/persist_client.rs: a whole client kept behind a persister, and the save loop;
--               PersistClient/Snapshots, Attempts, Saving and Oldest.
--   Broadcast   src/broadcast.rs: the registry of channels and the subscriptions; Broadcast/Registered.
--   QueriesObserver  src/queries_observer.rs: an observer of several queries, with the buffers of its
--               tasks; QueriesObserver/Marks, Results and Orphans.
--   MutationObserver  src/mutation_observer.rs: the tracked state of a mutation and the filtered stream
--               of events; MutationObserver/Tracking and Events.
--   StreamedQuery  src/streamed_query.rs: the fold over a stream; StreamedQuery/Folding.
--   Runtime     src/runtime.rs: the handles of spawned tasks; Runtime/Delivery.
--   Managers    src/focus_manager.rs, src/timeout_manager.rs, src/updater.rs and src/cancellation.rs.
--   Base        Boolean tests, lists and tables over the native numbers, texts.
--   Tests       the theorems at concrete inputs.
--
-- Conventions. A text is the list of its code points, a `Duration` its nanoseconds, an `Instant` too,
-- and the clock is an argument: all reads of the clock in one synchronous call give one instant. A handler that takes a lock for its whole run is one step; each call
-- of a concurrent map is one step, and a client operation is the sequence of its calls, with no other
-- thread between them. A value of any type is a payload with a type id; the equality of each type is a
-- parameter. Machine integers saturate or wrap where the code's do: `usize` counters at 2⁶⁴, `u32`
-- failures at 2³², the backoff at 64 bits; ids and versions (64 bits) do not wrap.
--
-- Code that is not in the repository is a parameter: the concurrent map, the JSON of serde and the
-- storage behind a persister, each with its documented laws; a persister of whole clients, whose calls
-- may fail, and a oneshot channel, of which nothing is assumed.
--
-- Bounds and fuel. `trim_back` runs on fuel, the number of pages, and each turn takes a page. The
-- attempt loops of the retryer and of the executor run over the turns that their surroundings give
-- them (connectivity, wakes of the pause, outcome of the task), so that a run with too few turns is
-- one that is not over. The gate of a mutation runs on fuel, the number of its looks at the scope; its
-- attempts recur on the retries left. `persist_with_retry` runs on fuel, four rounds, and always
-- returns; a poll of the filtered stream of a mutation observer runs on fuel, and two turns more than
-- the queue is long are enough.
--
-- Not modelled: executors and timers, devtools and framework hooks, which are the platform's or glue
-- around it; the errors of the storage behind the persister of queries; the loop around the turns of
-- the page loop and the direction flag of its observer; the abort of a running fetch as a step of its
-- own; `into_task` of handles; plain field builders and `Debug` and `Display` output.
mod Base
pub mod Key
pub mod State
pub mod Filters
pub mod Watch
pub mod Network
pub mod Bus
pub mod Options
pub mod Retry
pub mod Infinite
pub mod Map
pub mod Client
pub mod Notify
pub mod Observer
pub mod QueriesObserver
pub mod Runtime
pub mod Executor
pub mod InfiniteExecutor
pub mod MutationCache
pub mod Managers
pub mod Mutation
pub mod MutationObserver
pub mod Hydration
pub mod StreamedQuery
pub mod Persister
pub mod PersistClient
pub mod Broadcast
pub mod Tests
