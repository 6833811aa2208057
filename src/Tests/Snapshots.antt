-- ===== src/Tests/Snapshots.antt =====
-- Snapshots of clients (src/persist_client.rs) and channels for them (src/broadcast.rs) at concrete
-- inputs.
use rs_query.Base.{
  ℕ, suc, ◌≡◌, ◌≤◌, ◌<◌, refl, inl, inr, Bool, true, false, Option, none, some, [], ◌∷◌, Text,
  text_eq, if◌then◌else◌, arith,
}
use rs_query.Key.Join.{joined}
use rs_query.State.{QueryError}
use rs_query.Options.{default_options}
use rs_query.Map.Assoc.{assoc_map}
use rs_query.Base.Table.{get, put, del}
use rs_query.Bus
use rs_query.Bus.{RecvState}
use rs_query.Client.Core
use rs_query.Client.Core.{CacheEntry, Tables, Client, QueryStateUpdate, sender}
use rs_query.Client.Data.{set_query_data}
use rs_query.Client.Reads.{written}
use rs_query.Hydration.Restoring.{ComesBack}
use rs_query.Client.Pages.{Payload}
use rs_query.Hydration.{
  DehydratedQuery, DehydratedState, default_dehydrate, dehydrate_state, hydrate_state,
}
use rs_query.PersistClient.{
  PersistedClient, ClientPersister, PersistQueryClientOptions, Clock, World, SaveLoop, Outcome,
  in_memory, default_persist_options, default_hydrate, max_restore_retries,
  persist_query_client_save, persist_query_client_restore, persist_with_retry, subscribed,
  unsubscribe, poll_loop,
}
use rs_query.PersistClient.Oldest.{LosesOldest, remove_oldest_query_lem}
use rs_query.PersistClient.Snapshots.{good, restore-save, client_survives}
use rs_query.PersistClient.Attempts.{Declined, Ends, persist_with_retry_lem}
use rs_query.PersistClient.Saving.{Late, here, next, polls, unsubscribe_stops}
use rs_query.Broadcast.{Registry, no_channels, or_insert, channel_entry, publish_begin}
use rs_query.Broadcast.Registered
use rs_query.Broadcast.Registered.{publications_arrive}

abbrev tables : Tables Text
tables = record {
  cache = assoc_map (CacheEntry Text);
  in_flight = assoc_map ℕ;
  subscribers = assoc_map (Bus.Shared QueryStateUpdate);
}

abbrev strings : Payload Text Text
strings = record { type_id = 1; inject = λ t. t; project = λ t. t; project-inject = λ t. refl }

abbrev quoted : Text → Text
quoted t = b'"' ∷ t

abbrev unquoted : Text → Option Text
unquoted [] = none
unquoted (x ∷ t) = some t

abbrev same_text : ℕ → Text → Text → Bool
same_text n s t = text_eq s t

abbrev empty_client : Client tables
empty_client = Core.new tables

abbrev with_ada : Client tables
with_ada =
    set_query_data tables same_text 5 1 (joined ((b'u' ∷ []) ∷ [])) (b'a' ∷ []) default_options
      empty_client

abbrev options : PersistQueryClientOptions
options = default_persist_options

abbrev noon : Clock
noon = record { now = 1_000_000; wall = 500 }

abbrev later : Clock
later = record { now = 9_000_000; wall = 900 }

abbrev saving : World tables in_memory
saving = record { backend = none; client = with_ada }

abbrev saved : World tables in_memory × Outcome
saved = persist_query_client_save tables strings quoted unquoted in_memory options noon saving

abbrev restoring : World tables in_memory
restoring = record { backend = saved.0.backend; client = empty_client }

abbrev state : DehydratedState
state = dehydrate_state tables strings quoted unquoted 1_000_000 500 with_ada default_dehydrate

restore-save_example :
    (saved.1 ≡ inl tt)
    × (persist_query_client_restore tables strings quoted unquoted in_memory options same_text later
          restoring
        ≡ (
          record {
            backend =
                if good options 900 options.buster 500
                then some
                    (record { timestamp_ms = 500; buster = options.buster; client_state = state })
                else none;
            client =
                if good options 900 options.buster 500
                then hydrate_state tables strings quoted unquoted same_text 9_000_000 state
                    default_hydrate empty_client
                else empty_client;
          },
          inl tt,
        ))
restore-save_example =
    restore-save tables strings quoted unquoted same_text options options noon later none with_ada
      empty_client

abbrev user : Text
user = (joined ((b'u' ∷ []) ∷ [])).cache_key

abbrev ada_entry : CacheEntry Text
ada_entry =
    written tables same_text 5 1 (joined ((b'u' ∷ []) ∷ [])) (b'a' ∷ []) default_options
      empty_client

client_survives_example :
    (e' : CacheEntry Text) × (tables.cache.get user
        (persist_query_client_restore tables strings quoted unquoted in_memory options same_text
          later restoring).0.client.cache
      ≡ some e')
    × ComesBack tables strings quoted unquoted same_text 1_000_000 9_000_000 ada_entry e'
unfolding assoc_map text_eq default_persist_options set_query_data written Core.downcast Core.new
client_survives_example =
    client_survives tables strings quoted unquoted same_text options options noon later none
      with_ada empty_client user (b'a' ∷ []) ada_entry refl refl refl (λ x. refl) (omega arith)
      (omega arith) refl refl

abbrev one : DehydratedQuery
one = record {
  query_hash = b'a' ∷ [];
  query_key = (b'a' ∷ []) ∷ [];
  data_json = none;
  error_json = none;
  fetched_at_ms = some 7;
  is_stale = false;
  stale_time_ms = 0;
  gc_time_ms = 0;
  meta = [];
  query_type = [];
}

abbrev three : DehydratedState
three = record {
  dehydrated_at_ms = 9;
  queries = one ∷ record one { fetched_at_ms = none } ∷ record one { fetched_at_ms = some 0 } ∷ [];
  mutations = [];
}

remove_oldest_query_lem_example : LosesOldest three
remove_oldest_query_lem_example = remove_oldest_query_lem three

-- A backend that cannot be read.
abbrev broken : ClientPersister
broken = record {
  Backend = ℕ;
  persist_client = λ p s. (s, inl tt);
  restore_client = λ s. (suc s, inr QueryError.paused);
  remove_client = λ s. (s, inl tt);
}

abbrev ticking : ℕ → Clock
ticking n = record { now = n; wall = n }

-- A replacement for the second failure only.
abbrev second_time : QueryError → ℕ → Option PersistedClient
second_time e (suc (suc n)) = some (record { timestamp_ms = 1; buster = []; client_state = three })
second_time e n = none

abbrev unread : World tables broken
unread = record { backend = 0; client = empty_client }

persist_with_retry_lem_example :
    (k : ℕ) × (r : World tables broken × Outcome) × (k ≤ max_restore_retries)
    × (persist_with_retry tables strings quoted unquoted broken options same_text ticking
          second_time unread
        ≡ some r)
    × ((j : ℕ)
        → j < k
        → Declined tables strings quoted unquoted broken options same_text ticking second_time
            unread j)
    × Ends tables strings quoted unquoted broken options same_text ticking second_time unread k r
persist_with_retry_lem_example =
    persist_with_retry_lem tables strings quoted unquoted broken options same_text ticking
      second_time unread

abbrev saving_loop : SaveLoop tables in_memory
saving_loop = subscribed tables in_memory saving

-- The timer rings, and the flag is not up.
abbrev after_a_tick : SaveLoop tables in_memory
after_a_tick =
    poll_loop tables strings quoted unquoted in_memory options noon true false saving_loop

abbrev stopped : SaveLoop tables in_memory
stopped = unsubscribe tables in_memory after_a_tick

abbrev polled_once : SaveLoop tables in_memory
polled_once = poll_loop tables strings quoted unquoted in_memory options later true false stopped

unsubscribe_stops_example :
    let poll = poll_loop tables strings quoted unquoted in_memory options later true true in
    Late tables strings quoted unquoted in_memory options after_a_tick.world after_a_tick.phase
      polled_once.phase polled_once.world
    × ((poll (poll (poll polled_once))).running ≡ false)
unsubscribe_stops_example =
    unsubscribe_stops tables strings quoted unquoted in_memory options saving
      (next here (polls noon true false saving_loop)) (next here (polls later true false stopped))
      later true

abbrev news : Text
news = b'n' ∷ []

abbrev joined_registry : Registry
joined_registry = (channel_entry news no_channels).0

abbrev listener : RecvState PersistedClient
listener = record { queue = []; parked = false; missed = 0; alive = true }

publications_arrive_example :
    ((publish_begin (joined_registry.name_of 0) joined_registry).1 ≡ 0)
    × ((channel_entry news joined_registry).0.name_of (channel_entry news joined_registry).1 ≡ news)
unfolding channel_entry or_insert sender get put del Bus.channel Bus.drop_receiver no_channels
publications_arrive_example =
    publications_arrive (Registered.next Registered.start (Registered.enters news)) 0 1 listener
      refl refl news
