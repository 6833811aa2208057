-- ===== src/Persister/Keeping.antt =====
-- What the storage gives back, and what the collection of a storage takes.
use rs_query.Base.{
  ℕ, ◌-◌, ◌≡◌, refl, sym, ap, ◌∙◌, Bool, true, false, ◌&&◌, none, some, List, [], ◌∷◌, ◌++◌, Text,
  text_eq, text_starts_with, append_assoc, text_starts_with-append, leb, if◌then◌else◌, for_each,
  for_each_part, arith, text_eq_self, Bool-cases, inl, inr,
}
use rs_query.Key.{QueryKey}
use rs_query.Map.{DashMap}
use rs_query.Map.Keys.{keys_where, passes, contains-keys_where, get-for_each_remove}
use rs_query.Client.Core.{Tables, Client}
use rs_query.Client.Data.{get_query_data}
use rs_query.Client.Pages.{Payload}
use rs_query.Hydration.{as_millis}
use rs_query.Persister.{
  PersistedQuery, Json, QueryPersisterOptions, owned, storage_key, is_expired_or_busted, dropped,
  payload_of, persist_query, restored_text, parsed, retrieve_query, gc_one, persister_gc,
}

-- The keys of a persister whose prefix goes on with a dash are among those of the shorter prefix.
begins :
    (o foreign : QueryPersisterOptions) (rest hash : Text)
    → foreign.prefix ≡ o.prefix ++ b'-' ∷ rest
    → text_starts_with (owned o) (storage_key foreign hash) ≡ true
unfolding storage_key
begins o foreign rest hash p =
    let tail = rest ++ (b'-' ∷ [] ++ hash) in
    let whole : storage_key foreign hash ≡ owned o ++ tail =
      ap (λ x. (x ++ b'-' ∷ []) ++ hash) p
      ∙ append_assoc (o.prefix ++ b'-' ∷ rest) (b'-' ∷ []) hash
      ∙ append_assoc o.prefix (b'-' ∷ rest) (b'-' ∷ [] ++ hash)
      ∙ sym (append_assoc o.prefix (b'-' ∷ []) tail) in
    ap (text_starts_with (owned o)) whole ∙ text_starts_with-append (owned o) tail

module _ {V : Type 0} (M : Tables V) (S : Payload V Text) (D : DashMap Text) (json : Json) where
  stored_raw :
      (o : QueryPersisterOptions) (wall : ℕ) (key : QueryKey) (t : Text) (c : Client M) (m : D.Map)
      → get_query_data M S.type_id key c ≡ some (S.inject t)
      → D.get (storage_key o key.cache_key) (persist_query M S D json o wall key c m)
        ≡ some (json.to_text (payload_of M S D json o wall key t))
  unfolding persist_query
  stored_raw o wall key t c m h =
      let k = storage_key o key.cache_key in
      let saved : Text → Text = λ x. json.to_text (payload_of M S D json o wall key x) in
      rw (h, persist_query)
        (D.get-insert k k (saved (S.project (S.inject t))) m
          ∙ rw (text_eq_self k) (ap (λ x. some (saved x)) (S.project-inject t)))

  parsed_answer :
      (beq : ℕ → V → V → Bool) (o o' : QueryPersisterOptions) (wall now later : ℕ) (key : QueryKey)
      (t : Text) (c : Client M) (m : D.Map)
      → (parsed M S D json o' beq now later key
          (some (payload_of M S D json o wall key t))
          m
          c).answer
        ≡ (if text_eq o.buster o'.buster && leb (later - wall) (as_millis o'.max_age)
            then some t
            else none)
  unfolding parsed restored_text is_expired_or_busted
  parsed_answer beq o o' wall now later key t c m = ground (arith, json.decode-encode t)

  -- A text that is persisted is retrieved, by a persister with the same prefix and into any client,
  -- just if the busters agree and it was persisted no longer ago than the maximal age; else the answer
  -- is nothing.
  pub retrieve_query-persist_query :
      (beq : ℕ → V → V → Bool) (o o' : QueryPersisterOptions) (wall now later : ℕ) (key : QueryKey)
      (t : Text) (c c' : Client M) (m : D.Map)
      → o.prefix ≡ o'.prefix
      → get_query_data M S.type_id key c ≡ some (S.inject t)
      → (retrieve_query M S D json o' beq now later key
          (persist_query M S D json o wall key c m)
          c').answer
        ≡ (if text_eq o.buster o'.buster && leb (later - wall) (as_millis o'.max_age)
            then some t
            else none)
  unfolding retrieve_query storage_key
  retrieve_query-persist_query beq o o' wall now later key t c c' m p h =
      let m' = persist_query M S D json o wall key c m in
      let saved = payload_of M S D json o wall key t in
      let at : D.get (storage_key o' key.cache_key) m' ≡ some (json.to_text saved) =
        ap (λ x. D.get ((x ++ b'-' ∷ []) ++ key.cache_key) m') (sym p)
        ∙ stored_raw o wall key t c m h in
      rw (at, retrieve_query)
        (ap (λ x. (parsed M S D json o' beq now later key x m' c').answer)
            (json.of_text-to_text saved)
          ∙ parsed_answer beq o o' wall now later key t c' m')

  -- What a turn of the loop does to the storage.
  abbrev storage_turn : QueryPersisterOptions → ℕ → Text × Text → D.Map → D.Map
  storage_turn o wall (k, raw) m = if dropped json o wall k raw then D.remove k m else m

  turn_storage :
      (o : QueryPersisterOptions) (wall : ℕ) (e : Text × Text) (s : D.Map × Client M × ℕ)
      → (gc_one M S D json o wall e s).0 ≡ storage_turn o wall e s.0
  unfolding gc_one
  turn_storage o wall (k, raw) (m, c, n) = elim (Bool-cases (dropped json o wall k raw)) [
    | inl e ↦ rw (e, gc_one) refl
    | inr e ↦ rw (e, gc_one) refl
  ]

  turns_remove :
      (o : QueryPersisterOptions) (wall : ℕ) (es : List (Text × Text)) (m : D.Map)
      → for_each es (storage_turn o wall) m
        ≡ for_each (keys_where (dropped json o wall) es) D.remove m
  unfolding for_each keys_where
  turns_remove o wall [] m = refl
  turns_remove o wall ((k, raw) ∷ es) m = elim (Bool-cases (dropped json o wall k raw)) [
    | inl e ↦ rw e (turns_remove o wall es (D.remove k m))
    | inr e ↦ rw e (turns_remove o wall es m)
  ]

  -- A collection removes from the storage exactly the entries whose key begins with the prefix and a
  -- dash and which cannot be parsed, are expired or have another buster.
  persister_gc_removes :
      (o : QueryPersisterOptions) (wall : ℕ) (m : D.Map) (c : Client M) (k : Text)
      → D.get k (persister_gc M S D json o wall m c).0
        ≡ (if passes (dropped json o wall) k (D.get k m) then none else D.get k m)
  unfolding persister_gc
  persister_gc_removes o wall m c k =
      ap (D.get k) (
        for_each_part (λ s. s.0) (gc_one M S D json o wall) (storage_turn o wall)
          (turn_storage o wall) (D.iter m) (m, c, 0)
        ∙ turns_remove o wall (D.iter m) m)
      ∙ get-for_each_remove D (keys_where (dropped json o wall) (D.iter m)) k m
      ∙ ap (λ b. if b then none else D.get k m) (contains-keys_where D (dropped json o wall) k m)

  -- The collection of one persister takes an entry of another one, whose prefix goes on with a dash,
  -- if their busters differ.
  gc_takes_foreign :
      (o foreign : QueryPersisterOptions) (rest hash raw : Text) (q : PersistedQuery) (wall : ℕ)
      (m : D.Map) (c : Client M)
      → foreign.prefix ≡ o.prefix ++ b'-' ∷ rest
      → D.get (storage_key foreign hash) m ≡ some raw
      → json.of_text raw ≡ some q
      → text_eq q.buster o.buster ≡ false
      → D.get (storage_key foreign hash) (persister_gc M S D json o wall m c).0 ≡ none
  unfolding storage_key is_expired_or_busted
  gc_takes_foreign o foreign rest hash raw q wall m c p at parse other =
      let k = storage_key foreign hash in
      let taken : dropped json o wall k raw ≡ true =
        ground (arith, begins o foreign rest hash p, parse, other) in
      persister_gc_removes o wall m c k ∙ rw (at, taken) refl
