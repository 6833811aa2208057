-- ===== src/PersistClient.antt =====
-- src/persist_client.rs: the whole client kept as one snapshot behind a persister, whose three calls
-- may fail. `now` is the monotonic instant and `wall` the wall clock, in milliseconds, of a call;
-- `encode` and `decode` stand for serde's JSON of a text, as in src/hydration.rs.
pub mod Oldest
pub mod Snapshots
pub mod Attempts
pub mod Saving
use rs_query.Base.{
  ℕ, zero, suc, ◌+◌, ◌-◌, ◌⊎◌, inl, inr, Bool, true, false, ◌&&◌, ◌||◌, not, Option, none, some,
  List, [], ◌∷◌, Text, text_eq, ltb, ◌==◌, if◌then◌else◌, for_each,
}
use rs_query.State.{QueryError}
use rs_query.Watch
use rs_query.Watch.{Shared, Watcher, Poll, poll_changed}
use rs_query.Client.Core.{Tables, Client}
use rs_query.Client.Pages.{Payload}
use rs_query.Hydration.{
  as_millis, DehydratedQuery, DehydratedState, HydrateOptions, default_dehydrate, dehydrate_state,
  hydrate_state,
}

-- `PERSIST_INTERVAL`, in nanoseconds, `MAX_RESTORE_RETRIES` and `DEFAULT_MAX_AGE`.
abbrev pub persist_interval : ℕ
persist_interval = 1_000_000_000

abbrev pub max_restore_retries : ℕ
max_restore_retries = 3

abbrev pub default_max_age : ℕ
default_max_age = 86_400_000_000_000

-- `PersistedClient`.
pub record PersistedClient : Type 0 where
  pub timestamp_ms : ℕ
  pub buster : Text
  pub client_state : DehydratedState

-- `Result<(), QueryError>`.
abbrev pub Outcome : Type 0
Outcome = Unit {0} ⊎ QueryError

-- The trait `ClientPersister`: what a call leaves of the backend, and its answer.
pub record ClientPersister : Type 1 where
  pub Backend : Type 0
  pub persist_client : PersistedClient → Backend → Backend × Outcome
  pub restore_client : Backend → Backend × (Option PersistedClient ⊎ QueryError)
  pub remove_client : Backend → Backend × Outcome

-- `InMemoryClientPersister`, whose state is its one snapshot.
abbrev pub in_memory : ClientPersister
in_memory = record {
  Backend = Option PersistedClient;
  persist_client = λ p s. (some p, inl tt);
  restore_client = λ s. (s, inl s);
  remove_client = λ s. (none, inl tt);
}

-- `PersistQueryClientOptions`, without the persister.
pub record PersistQueryClientOptions : Type 0 where
  pub max_age : ℕ
  pub buster : Text

unfoldable pub default_persist_options : PersistQueryClientOptions
default_persist_options = record { max_age = default_max_age; buster = [] }

unfoldable pub with_max_age : ℕ → PersistQueryClientOptions → PersistQueryClientOptions
with_max_age n o = record o { max_age = n }

unfoldable pub with_buster : Text → PersistQueryClientOptions → PersistQueryClientOptions
with_buster t o = record o { buster = t }

-- `HydrateOptions::default`.
abbrev pub default_hydrate : HydrateOptions
default_hydrate = record { should_overwrite = true; should_hydrate = none; default_options = none }

-- `busted || missing_timestamp || expired`.
unfoldable pub discards : PersistQueryClientOptions → ℕ → PersistedClient → Bool
discards o wall p =
    let busted = not (text_eq p.buster o.buster) in
    let missing_timestamp = p.timestamp_ms == 0 in
    let expired = not missing_timestamp && ltb (as_millis o.max_age) (wall - p.timestamp_ms) in
    busted || missing_timestamp || expired

-- `query.fetched_at_ms.unwrap_or(0)`.
abbrev pub age_key : DehydratedQuery → ℕ
age_key q = elim q.fetched_at_ms [ none ↦ 0 | some at ↦ at ]

-- The steps of `min_by_key` after the first query: the index and the key of the least so far, and
-- the index of the next.
unfoldable pub least_index : ℕ → ℕ → ℕ → List DehydratedQuery → ℕ
least_index best key i [] = best
least_index best key i (q ∷ qs) =
    let less = ltb (age_key q) key in
    least_index (if less then i else best) (if less then age_key q else key) (suc i) qs

unfoldable pub oldest_index : List DehydratedQuery → Option ℕ
oldest_index [] = none
oldest_index (q ∷ qs) = some (least_index 0 (age_key q) 1 qs)

-- `Vec::remove`.
abbrev pub remove_at {ℓ} : {A : Type ℓ} → ℕ → List A → List A
remove_at i [] = []
remove_at zero (x ∷ xs) = xs
remove_at (suc i) (x ∷ xs) = x ∷ remove_at i xs

-- `remove_oldest_query`.
unfoldable pub remove_index : DehydratedState → Option ℕ → DehydratedState × Bool
remove_index s (some i) = (record s { queries = remove_at i s.queries }, true)
remove_index s none = (s, false)

unfoldable pub remove_oldest_query : DehydratedState → DehydratedState × Bool
unfolding remove_index oldest_index
remove_oldest_query s = remove_index s (oldest_index s.queries)

-- The clock as a call reads it.
pub record Clock : Type 0 where
  pub now : ℕ
  pub wall : ℕ

-- Where the save loop stands: before its `select`, past the look at the flag, or at the `await` of a
-- save.
pub data Phase : Type 0 where
  selecting cleared : Phase
  saving : PersistedClient → Phase

module _ {V : Type 0} (M : Tables V) (P : ClientPersister) where
  -- What the calls change: the backend and the client.
  pub record World : Type 0 where
    pub backend : P.Backend
    pub client : Client M

  -- A result with the answer of `remove_client` or `persist_client`.
  abbrev pub left : World → P.Backend × Outcome → World × Outcome
  left w (b, r) = (record w { backend = b }, r)

  -- The save loop of `persist_query_client` with its handle: the flag, the cell of the stop signal
  -- and the task's watcher of it.
  pub record SaveLoop : Type 0 where
    pub unsubscribed : Bool
    pub stop_signal : Shared Bool
    pub stop_rx : Watcher
    pub running : Bool
    pub phase : Phase
    pub world : World

  -- What `persist_query_client` leaves when the restore succeeds.
  unfoldable pub subscribed : World → SaveLoop
  subscribed w =
      let (cell, rx) = Watch.new false in
      record {
        unsubscribed = false;
        stop_signal = cell;
        stop_rx = rx;
        running = true;
        phase = selecting;
        world = w;
      }

  -- The two writes of `PersistQueryClientHandle::unsubscribe`.
  unfoldable pub raise_flag : SaveLoop → SaveLoop
  raise_flag l = record l { unsubscribed = true }

  unfoldable pub send_stop : SaveLoop → SaveLoop
  send_stop l = record l { stop_signal = (Watch.send true l.stop_signal).0 }

  unfoldable pub unsubscribe : SaveLoop → SaveLoop
  unsubscribe l = send_stop (raise_flag l)

module _ {V : Type 0} (M : Tables V) (S : Payload V Text) (encode : Text → Text)
    (decode : Text → Option Text) (P : ClientPersister) (o : PersistQueryClientOptions) where
  abbrev hydrated : (ℕ → V → V → Bool) → Clock → PersistedClient → World M P → World M P
  hydrated beq at p w = record w {
    client = hydrate_state M S encode decode beq at.now p.client_state default_hydrate w.client;
  }

  -- The branches of `persist_query_client_restore` on the answer of `restore_client`.
  unfoldable pub on_restored :
      (ℕ → V → V → Bool)
      → Clock
      → Option PersistedClient ⊎ QueryError
      → World M P
      → World M P × Outcome
  on_restored beq at (inl none) w = (w, inl tt)
  on_restored beq at (inl (some p)) w =
      if discards o at.wall p
      then left M P w (P.remove_client w.backend)
      else (hydrated beq at p w, inl tt)
  on_restored beq at (inr e) w = ((left M P w (P.remove_client w.backend)).0, inr e)

  -- `persist_query_client_restore`.
  unfoldable pub persist_query_client_restore :
      (ℕ → V → V → Bool) → Clock → World M P → World M P × Outcome
  persist_query_client_restore beq at w =
      let (b, answer) = P.restore_client w.backend in
      on_restored beq at answer (record w { backend = b })

  -- `persist_query_client_save`: the snapshot, and the awaited call.
  abbrev pub client_snapshot : Clock → World M P → PersistedClient
  client_snapshot at w = record {
    timestamp_ms = at.wall;
    buster = o.buster;
    client_state = dehydrate_state M S encode decode at.now at.wall w.client default_dehydrate;
  }

  abbrev pub persisted : PersistedClient → World M P → World M P × Outcome
  persisted snapshot w = left M P w (P.persist_client snapshot w.backend)

  unfoldable pub persist_query_client_save : Clock → World M P → World M P × Outcome
  persist_query_client_save at w = persisted (client_snapshot at w) w

  module _ (beq : ℕ → V → V → Bool) (clock : ℕ → Clock)
      (retry_strategy : QueryError → ℕ → Option PersistedClient) where
    -- A replacement: it is hydrated, and saved as well as can be.
    unfoldable pub replaced : Clock → PersistedClient → World M P → World M P × Outcome
    replaced at p w =
        let w' = hydrated beq at p w in ((left M P w' (P.persist_client p w'.backend)).0, inl tt)

    unfoldable pub consulted :
        (ℕ → World M P → Option (World M P × Outcome))
        → ℕ
        → Option PersistedClient
        → World M P
        → Option (World M P × Outcome)
    consulted loop n none w = loop n w
    consulted loop n (some p) w = some (replaced (clock n) p w)

    -- The body of the loop of `persist_with_retry` after its restore; `loop` is its next round.
    unfoldable pub after_attempt :
        (ℕ → World M P → Option (World M P × Outcome))
        → ℕ
        → World M P × Outcome
        → Option (World M P × Outcome)
    after_attempt loop n (w, inl done) = some (w, inl tt)
    after_attempt loop n (w, inr e) =
        if ltb max_restore_retries (suc n)
        then some (w, inr e)
        else consulted loop (suc n) (retry_strategy e (suc n)) w

    -- The rounds of `persist_with_retry` from an error count on; `none` if the fuel runs out. The
    -- round after `n` errors reads the clock `clock n`.
    unfoldable pub retry_loop : ℕ → ℕ → World M P → Option (World M P × Outcome)
    retry_loop zero n w = none
    retry_loop (suc fuel) n w =
        after_attempt (retry_loop fuel) n (persist_query_client_restore beq (clock n) w)

    unfoldable pub persist_with_retry : World M P → Option (World M P × Outcome)
    persist_with_retry w = retry_loop (suc max_restore_retries) 0 w

  unfoldable pub started : World M P × Outcome → World M P × (SaveLoop M P ⊎ QueryError)
  started (w, inl done) = (w, inl (subscribed M P w))
  started (w, inr e) = (w, inr e)

  unfoldable pub persist_query_client :
      (ℕ → V → V → Bool) → Clock → World M P → World M P × (SaveLoop M P ⊎ QueryError)
  persist_query_client beq at w = started (persist_query_client_restore beq at w)

  -- The branch of a tick up to the look at the flag.
  unfoldable pub ticked : SaveLoop M P → SaveLoop M P
  ticked l = if l.unsubscribed then record l { running = false } else record l { phase = cleared }

  -- The `select`: the stop signal first, then the timer.
  unfoldable pub selected : Bool → Shared Bool × Watcher × Poll → SaveLoop M P → SaveLoop M P
  selected elapsed (cell, rx, Poll.pending) l =
      let l' = record l { stop_signal = cell; stop_rx = rx } in if elapsed then ticked l' else l'
  selected elapsed (cell, rx, p) l = record l { stop_signal = cell; stop_rx = rx; running = false }

  -- What the loop does from where it stands up to the next such place: `elapsed` says that the timer has
  -- rung, and `done` that the call of the persister is over, whose error is only logged.
  unfoldable pub advanced : Clock → Bool → Bool → Phase → SaveLoop M P → SaveLoop M P
  advanced at elapsed done selecting l = selected elapsed (poll_changed l.stop_signal l.stop_rx) l
  advanced at elapsed done cleared l = record l { phase = saving (client_snapshot at l.world) }
  advanced at elapsed done (saving p) l =
      if done then record l { phase = selecting; world = (persisted p l.world).0 } else l

  unfoldable pub poll_loop : Clock → Bool → Bool → SaveLoop M P → SaveLoop M P
  poll_loop at elapsed done l = if l.running then advanced at elapsed done l.phase l else l
