-- ===== src/PersistClient/Snapshots.antt =====
-- What a restore makes of the snapshot that a save has left, and of a backend that fails.
use rs_query.Base.{
  ℕ, ◌-◌, ◌≡◌, refl, ap, ◌≤◌, ◌∙◌, inl, Bool, true, false, ◌&&◌, not, Option, none, some, Text,
  text_eq, leb, ◌==◌, if◌then◌else◌, arith,
}
use rs_query.Client.Core.{CacheEntry, Tables, Client, downcast}
use rs_query.Client.Pages.{Payload}
use rs_query.Options.{millis}
use rs_query.Hydration.Restoring.{ComesBack}
use rs_query.Hydration.Whole.{hydrate_state-dehydrate_state}
use rs_query.Hydration.{
  dehydrate_cache_entry, default_should_dehydrate_query, as_millis, default_dehydrate,
  dehydrate_state, hydrate_state, serialize_entry_data,
}
use rs_query.PersistClient.{
  PersistedClient, PersistQueryClientOptions, Outcome, Clock, World, in_memory, default_hydrate,
  discards, on_restored, persist_query_client_restore, persist_query_client_save,
}

abbrev has_data : Option Text → Bool
has_data o = elim o [ none ↦ false | some t ↦ true ]

-- Is a snapshot of the buster, saved at the time, still good?
abbrev pub good : PersistQueryClientOptions → ℕ → Text → ℕ → Bool
good o wall buster saved =
    text_eq buster o.buster && not (saved == 0) && leb (wall - saved) (as_millis o.max_age)

discards_lem :
    (o : PersistQueryClientOptions) (wall : ℕ) (p : PersistedClient)
    → discards o wall p ≡ not (good o wall p.buster p.timestamp_ms)
unfolding discards
discards_lem o wall p = ground arith

module _ {V : Type 0} (M : Tables V) (S : Payload V Text) (encode : Text → Text)
    (decode : Text → Option Text) (beq : ℕ → V → V → Bool) where
  either :
      (ok : Bool) (p : PersistedClient) (h c : Client M)
      → ◌≡◌ {A = World M in_memory × Outcome}
          (if not ok
            then (record { backend = none; client = c }, inl tt)
            else (record { backend = some p; client = h }, inl tt))
          (record { backend = if ok then some p else none; client = if ok then h else c }, inl tt)
  either true p h c = refl
  either false p h c = refl

  -- A client that is saved in memory and restored into another one is hydrated from just what the first
  -- one was dehydrated to, if the busters agree, the time of the save is not 0 and the snapshot is not
  -- older than the maximal age of the restore; the snapshot stays. Else the other client stays as it
  -- is, and the snapshot is removed. Both calls succeed.
  pub restore-save :
      (o o' : PersistQueryClientOptions) (at later : Clock) (old : Option PersistedClient)
      (c c' : Client M)
      → let saving : World M in_memory = record { backend = old; client = c } in
        let saved = persist_query_client_save M S encode decode in_memory o at saving in
        let restoring : World M in_memory = record { backend = saved.0.backend; client = c' } in
        let state = dehydrate_state M S encode decode at.now at.wall c default_dehydrate in
        let ok = good o' later.wall o.buster at.wall in
        (saved.1 ≡ inl tt)
        × (persist_query_client_restore M S encode decode in_memory o' beq later restoring ≡ (
          record {
            backend =
                if ok
                then some
                    (record { timestamp_ms = at.wall; buster = o.buster; client_state = state })
                else none;
            client =
                if ok
                then hydrate_state M S encode decode beq later.now state default_hydrate c'
                else c';
          },
          inl tt,
        ))
  unfolding persist_query_client_save persist_query_client_restore on_restored
  restore-save o o' at later old c c' =
      let state = dehydrate_state M S encode decode at.now at.wall c default_dehydrate in
      let p : PersistedClient = record {
        timestamp_ms = at.wall;
        buster = o.buster;
        client_state = state;
      } in
      let h = hydrate_state M S encode decode beq later.now state default_hydrate c' in
      (
        refl,
        ap
              (λ d.
                if d
                then (record { backend = none; client = c' }, inl tt)
                else (record { backend = some p; client = h }, inl tt))
              (discards_lem o' later.wall p)
            ∙ either (good o' later.wall o.buster at.wall) p h c',
      )

  abbrev sent : V → Text
  sent v = serialize_entry_data M S encode decode (S.project v) default_dehydrate

  abbrev sent_of : Option V → Option Text
  sent_of none = none
  sent_of (some v) = some (sent v)

  with_data :
      (before wall : ℕ) (k t : Text) (e : CacheEntry V)
      → downcast S.type_id e.data_of ≡ some (S.inject t)
      → default_dehydrate.should_dehydrate_query
          (dehydrate_cache_entry M S encode decode before wall k e none default_dehydrate)
        ≡ true
  unfolding default_dehydrate default_should_dehydrate_query dehydrate_cache_entry
  with_data before wall k t e text = ap (λ o. has_data (sent_of o)) text

  -- A client that is saved in memory and restored, in time and with the same buster, into one that has
  -- no entry of the key and no default options: the entry of the key, if it has a text, is there again
  -- with its value, flag, age and times, whatever else is cached.
  pub client_survives :
      (o o' : PersistQueryClientOptions) (at later : Clock) (old : Option PersistedClient)
      (c c' : Client M) (k t : Text) (e : CacheEntry V)
      → good o' later.wall o.buster at.wall ≡ true
      → M.cache.get k c.cache ≡ some e
      → downcast S.type_id e.data_of ≡ some (S.inject t)
      → ((x : Text) → decode (encode x) ≡ some x)
      → as_millis (at.now - e.fetched_at) ≤ at.wall
      → millis (as_millis (at.now - e.fetched_at)) ≤ later.now
      → M.cache.get k c'.cache ≡ none
      → c'.default_options ≡ none
      → let saving : World M in_memory = record { backend = old; client = c } in
        let saved = persist_query_client_save M S encode decode in_memory o at saving in
        let restoring : World M in_memory = record { backend = saved.0.backend; client = c' } in
        let restored =
          persist_query_client_restore M S encode decode in_memory o' beq later restoring in
        (e' : CacheEntry V) × (M.cache.get k restored.0.client.cache ≡ some e')
        × ComesBack M S encode decode beq at.now later.now e e'
  client_survives o o' at later old c c' k t e fit there text codec past young absent defaults =
      let state = dehydrate_state M S encode decode at.now at.wall c default_dehydrate in
      let h = hydrate_state M S encode decode beq later.now state default_hydrate c' in
      let (e', found, back) =
        hydrate_state-dehydrate_state M S encode decode beq at.now at.wall later.now k t e
          default_dehydrate default_hydrate c c' there text (unfold default_dehydrate in refl)
          (with_data at.now at.wall k t e text) codec past young absent defaults refl in
      let whole = (restore-save o o' at later old c c').1 in
      (
        e',
        ap (λ r. M.cache.get k r.0.client.cache) whole
            ∙ ap (λ b. M.cache.get k (if b then h else c').cache) fit
            ∙ found,
        back,
      )
