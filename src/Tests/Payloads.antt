-- ===== src/Tests/Payloads.antt =====
-- Dehydrated queries (src/hydration.rs) at concrete inputs; the JSON of a text is in quotes here.
use rs_query.Base.{
  ℕ, ◌≡◌, refl, Bool, true, false, Option, none, some, [], ◌∷◌, Text, text_eq, arith,
}
use rs_query.Options.{default_options}
use rs_query.Map.Assoc.{assoc_map}
use rs_query.Bus
use rs_query.Client.Core
use rs_query.Client.Core.{CacheEntry, Tables, Client, QueryStateUpdate, downcast}
use rs_query.Client.Pages.{Payload}
use rs_query.Hydration.{
  DehydratedQuery, DehydrateOptions, HydrateOptions, dehydrate_cache_entry, dehydrate_state,
  hydrate_query, hydrate_state,
}
use rs_query.Hydration.Restoring.{after_hydrating, hydrate_query_effect, ComesBack}
use rs_query.Hydration.Whole.{hydrate_state-dehydrate_state}

abbrev tables : Tables Text
tables = record {
  cache = assoc_map (CacheEntry Text);
  in_flight = assoc_map ℕ;
  subscribers = assoc_map (Bus.Shared QueryStateUpdate);
}

abbrev strings : Payload Text Text
strings = record { type_id = 1; inject = λ t. t; project = λ t. t; project-inject = λ t. refl }

abbrev quoted : Text → Text
quoted t = b'"' ∷ t

abbrev unquoted : Text → Option Text
unquoted [] = none
unquoted (x ∷ t) = some t

abbrev same_text : ℕ → Text → Text → Bool
same_text n s t = text_eq s t

abbrev user : Text
user = b'u' ∷ []

abbrev ada : Text
ada = b'a' ∷ []

abbrev ada_entry : CacheEntry Text
ada_entry = record {
  data_of = record { type_id = 1; address = 0; value = ada };
  type_id = 1;
  fetched_at = 1_000_000;
  last_accessed = 1_000_000;
  options = default_options;
  is_stale = true;
}

abbrev plain : HydrateOptions
plain = record { should_overwrite = true; should_hydrate = none; default_options = none }

abbrev every : DehydrateOptions
every = record {
  should_dehydrate_query = λ d. true;
  should_redact_errors = true;
  serialize_data = none;
}

abbrev blank : Client tables
blank = Core.new tables

abbrev payload : DehydratedQuery
payload =
    dehydrate_cache_entry tables strings quoted unquoted 3_000_000 100 user ada_entry none every

hydrate_query_effect_example :
    tables.cache.get user
      (hydrate_query tables strings quoted unquoted same_text 9_000_000 100 plain payload
        blank).cache
    ≡ after_hydrating tables strings quoted unquoted same_text 9_000_000 100 plain payload blank
        user payload.data_json
hydrate_query_effect_example =
    hydrate_query_effect tables strings quoted unquoted same_text 9_000_000 100 plain payload blank
      user

abbrev with_ada : Client tables
with_ada = record blank {
  cache =
      tables.cache.insert (b'z' ∷ []) (record ada_entry { is_stale = false })
        (tables.cache.insert user ada_entry blank.cache);
}

hydrate_state-dehydrate_state_example :
    (e' : CacheEntry Text) × (tables.cache.get user
        (hydrate_state tables strings quoted unquoted same_text 9_000_000
          (dehydrate_state tables strings quoted unquoted 3_000_000 100 with_ada every)
          plain
          blank).cache
      ≡ some e')
    × ComesBack tables strings quoted unquoted same_text 3_000_000 9_000_000 ada_entry e'
unfolding assoc_map downcast Core.new text_eq
hydrate_state-dehydrate_state_example =
    hydrate_state-dehydrate_state tables strings quoted unquoted same_text 3_000_000 100 9_000_000
      user ada ada_entry every plain with_ada blank refl refl refl refl (λ x. refl) (omega arith)
      (omega arith) refl refl refl
