-- ===== src/Tests/Storages.antt =====
-- The persister (src/persister.rs) at concrete inputs, with a wire format that meets the laws of JSON.
use rs_query.Base.{
  ℕ, zero, suc, ◌-◌, ◌≡◌, refl, ap, ◌∙◌, Bool, true, false, ◌&&◌, Option, none, some, List, [], ◌∷◌,
  Text, text_eq, leb, if◌then◌else◌, length, head?,
}
use rs_query.Key.{QueryKey}
use rs_query.Key.Join.{joined}
use rs_query.Options.{default_options}
use rs_query.Map.{DashMap}
use rs_query.Map.Assoc.{assoc_map}
use rs_query.Bus
use rs_query.Client.Core
use rs_query.Client.Core.{CacheEntry, Tables, Client, QueryStateUpdate, downcast}
use rs_query.Client.Data.{get_query_data}
use rs_query.Client.Pages.{Payload}
use rs_query.Hydration.{as_millis}
use rs_query.Persister.{
  PersistedQuery, Json, QueryPersisterOptions, storage_key, persist_query, retrieve_query,
}
use rs_query.Persister.Keeping.{retrieve_query-persist_query}

-- A text with its characters moved up and a zero at its end.
abbrev write : Text → Text → Text
write [] rest = 0 ∷ rest
write (x ∷ t) rest = suc x ∷ write t rest

abbrev read : Text → Text × Text
read [] = ([], [])
read (zero ∷ r) = ([], r)
read (suc x ∷ r) = let (t, rest) = read r in (x ∷ t, rest)

read-write : (t rest : Text) → read (write t rest) ≡ (t, rest)
read-write [] rest = refl
read-write (x ∷ t) rest = ap (λ p. (x ∷ p.0, p.1)) (read-write t rest)

abbrev write_many : List Text → Text → Text
write_many [] rest = rest
write_many (t ∷ ts) rest = write t (write_many ts rest)

abbrev read_many : ℕ → Text → List Text × Text
read_many zero r = ([], r)
read_many (suc n) r = let (t, r1) = read r in let (ts, r2) = read_many n r1 in (t ∷ ts, r2)

read_many-write_many :
    (ts : List Text) (rest : Text) → read_many (length ts) (write_many ts rest) ≡ (ts, rest)
read_many-write_many [] rest = refl
read_many-write_many (t ∷ ts) rest =
    ap (λ p. (p.0 ∷ (read_many (length ts) p.1).0, (read_many (length ts) p.1).1))
      (read-write t (write_many ts rest))
    ∙ ap (λ p. (t ∷ p.0, p.1)) (read_many-write_many ts rest)

abbrev at_most_one {ℓ} : {A : Type ℓ} → Option A → List A
at_most_one none = []
at_most_one (some x) = x ∷ []

head-at_most_one {ℓ} : {A : Type ℓ} (o : Option A) → head? (at_most_one o) ≡ o
head-at_most_one none = refl
head-at_most_one (some x) = refl

abbrev write_list : List Text → Text → Text
write_list ts rest = length ts ∷ write_many ts rest

abbrev read_list : Text → List Text × Text
read_list [] = ([], [])
read_list (n ∷ r) = read_many n r

-- The parts that are written, in a row.
abbrev Parts : Type 0
Parts = Text × Text × Text × List Text × List Text × List Text

abbrev write_parts : Parts → Text
write_parts (a, b, c, d, e, f) =
    write a (write b (write c (write_list d (write_list e (write_list f [])))))

abbrev read_parts : Text → Parts
read_parts x =
    let (a, x1) = read x in
    let (b, x2) = read x1 in
    let (c, x3) = read x2 in
    let (d, x4) = read_list x3 in
    let (e, x5) = read_list x4 in let (f, x6) = read_list x5 in (a, b, c, d, e, f)

read_parts-write_parts : (p : Parts) → read_parts (write_parts p) ≡ p
read_parts-write_parts (a, b, c, d, e, f) =
    rw
      (
        read-write a (write b (write c (write_list d (write_list e (write_list f []))))),
        read-write b (write c (write_list d (write_list e (write_list f [])))),
        read-write c (write_list d (write_list e (write_list f []))),
        read_many-write_many d (write_list e (write_list f [])),
        read_many-write_many e (write_list f []),
        read_many-write_many f [],
      )
      refl

abbrev parts_of : PersistedQuery → Parts
parts_of q = (
  q.buster,
  q.query_hash,
  at_most_one q.data_updated_at_ms,
  q.query_key,
  at_most_one q.data_json,
  at_most_one q.error_text,
)

abbrev of_parts : Parts → PersistedQuery
of_parts (a, b, c, d, e, f) = record {
  buster = a;
  query_hash = b;
  query_key = d;
  data_json = head? e;
  data_updated_at_ms = head? c;
  error_text = head? f;
}

of_parts-parts_of : (q : PersistedQuery) → of_parts (parts_of q) ≡ q
of_parts-parts_of q = λ i. record q {
  data_json = head-at_most_one q.data_json i;
  data_updated_at_ms = head-at_most_one q.data_updated_at_ms i;
  error_text = head-at_most_one q.error_text i;
}

abbrev wire : Json
wire = record {
  to_text = λ q. write_parts (parts_of q);
  of_text = λ x. some (of_parts (read_parts x));
  encode = λ t. t;
  decode = some;
  of_text-to_text =
      λ q. ap some (ap of_parts (read_parts-write_parts (parts_of q)) ∙ of_parts-parts_of q);
  decode-encode = λ t. refl;
}

abbrev tables : Tables Text
tables = record {
  cache = assoc_map (CacheEntry Text);
  in_flight = assoc_map ℕ;
  subscribers = assoc_map (Bus.Shared QueryStateUpdate);
}

abbrev strings : Payload Text Text
strings = record { type_id = 1; inject = λ t. t; project = λ t. t; project-inject = λ t. refl }

abbrev storage : DashMap Text
storage = assoc_map Text

abbrev same_text : ℕ → Text → Text → Bool
same_text n s t = text_eq s t

abbrev user : QueryKey
user = joined ((b'u' ∷ []) ∷ [])

abbrev ada : Text
ada = b'a' ∷ []

abbrev blank : Client tables
blank = Core.new tables

abbrev holding : Client tables
holding = record blank {
  cache =
      tables.cache.insert (b'u' ∷ [])
        (record {
          data_of = record { type_id = 1; address = 0; value = ada };
          type_id = 1;
          fetched_at = 1;
          last_accessed = 1;
          options = default_options;
          is_stale = false;
        })
        tables.cache.empty;
}

abbrev keeping : QueryPersisterOptions
keeping = record {
  buster = [];
  max_age = 5_000_000;
  prefix = b'p' ∷ [];
  refetch_on_restore = true;
  stale_time = none;
}

-- Another persister, with the prefix `"p-q"`.
abbrev other : QueryPersisterOptions
other = record keeping { buster = b'2' ∷ []; prefix = b'p' ∷ b'-' ∷ b'q' ∷ [] }

retrieve_query-persist_query_example :
    (retrieve_query tables strings storage wire keeping same_text 9 103 user
      (persist_query tables strings storage wire keeping 100 user holding storage.empty)
      blank).answer
    ≡ (if text_eq [] [] && leb (103 - 100) (as_millis 5_000_000) then some ada else none)
unfolding assoc_map text_eq get_query_data downcast
retrieve_query-persist_query_example =
    retrieve_query-persist_query tables strings storage wire same_text keeping keeping 100 9 103
      user ada holding blank storage.empty refl refl

abbrev foreign_entry : PersistedQuery
foreign_entry = record {
  buster = b'2' ∷ [];
  query_hash = b'u' ∷ [];
  query_key = (b'u' ∷ []) ∷ [];
  data_json = some ada;
  data_updated_at_ms = some 99;
  error_text = none;
}

abbrev with_foreign : storage.Map
with_foreign =
    storage.insert (storage_key other (b'u' ∷ [])) (wire.to_text foreign_entry) storage.empty
