-- ===== src/Executor/Outcomes.antt =====
-- What an execution returns, how often it fetches and when it does not fetch at all.
use rs_query.Base.{
  All, is_some, false, if◌then◌else◌, if_holds, ℕ, ◌+◌, ◌∙◌, ◌≡◌, refl, sym, subst, ◌⊎◌, inl, inr,
  Bool, true, not, ◌&&◌, some, List, [], ◌∷◌,
}
use rs_query.State.{QueryError, QueryState, is_cancelled}
use rs_query.Network.{can_retry}
use rs_query.Retry.{RetryDecision, should_retry, u32}
use rs_query.Client.Core.{Tables, Client, notify_subscribers}
use rs_query.Client.Data.{effective_options, get_query_data}
use rs_query.Client.Reads.{get_query_data-set_query_data}
use rs_query.Executor.{
  Query, Turn, Outcome, returned, panicked, unfinished, Executed, retryable, selected,
  success_or_panic, stored, failed_attempt, fetched, one_turn, fetch_loop,
}

-- What the other tasks can have made of a client while the loop waits in the turns.
pub data Drift {V : Type 0} {M : Tables V} : Client M → List (Turn M) → Client M → Type 0 where
  here : (turns : List (Turn M)) (c : Client M) → Drift c turns c
  fetching :
      (turn : Turn M) (turns : List (Turn M)) (c : Client M)
      → Drift c (turn ∷ turns) (turn.fetching c)
  waiting :
      (turn : Turn M) (turns : List (Turn M)) (c : Client M)
      → Drift c (turn ∷ turns) (turn.waiting (turn.fetching c))
  next :
      (turn : Turn M) (turns : List (Turn M)) (c d : Client M)
      → Drift (turn.sleeping (turn.fetching c)) turns d
      → Drift c (turn ∷ turns) d
  next_online :
      (turn : Turn M) (turns : List (Turn M)) (c d : Client M)
      → Drift (turn.sleeping (turn.waiting (turn.fetching c))) turns d
      → Drift c (turn ∷ turns) d

-- One of the turns fetches the value.
abbrev pub Gave : {V : Type 0} {M : Tables V} → V → List (Turn M) → Type 0
Gave v [] = ⊥
Gave v (turn ∷ turns) = (turn.fetched ≡ inl v) ⊎ Gave v turns

module _ {V : Type 0} (M : Tables V) (beq : ℕ → V → V → Bool) (q : Query V) where
  -- No other task changes the data of the query between the write of a turn and its read.
  abbrev pub Keeps : Turn M → Type 0
  Keeps turn =
      (c : Client M)
      → get_query_data M q.type_id q.key (turn.writing c) ≡ get_query_data M q.type_id q.key c

  -- What an outcome says of the turns and of the client before and after: a success is a value that
  -- a turn gave, and is cached at the end; an error and a loop that is not over leave in the cache what
  -- the other tasks have put there, and an error carries the data that are cached at the end; and
  -- nothing panics.
  abbrev pub Fits : Outcome V → List (Turn M) → Client M → Client M → Type 0
  Fits (returned (QueryState.success d)) turns c c' =
      (get_query_data M q.type_id q.key c' ≡ some d)
      × ((v : V) × Gave v turns
          × ((d ≡ selected q.select v)
              ⊎ ((q.options.structural_sharing ≡ true)
                  × (beq q.type_id d (selected q.select v) ≡ true))))
  Fits (returned (QueryState.error e shown)) turns c c' =
      ((d : Client M) × Drift c turns d × (c'.cache ≡ d.cache))
      × (shown ≡ get_query_data M q.type_id q.key c')
  Fits (returned _) turns c c' = ⊥
  Fits panicked turns c c' = ⊥
  Fits unfinished turns c c' = Drift c turns c'

  -- From a later client on to the first one.
  Fits-more :
      (o : Outcome V) (turn : Turn M) (turns : List (Turn M)) (c c1 c' : Client M)
      → ((d : Client M) → Drift c1 turns d → Drift c (turn ∷ turns) d)
      → Fits o turns c1 c'
      → Fits o (turn ∷ turns) c c'
  Fits-more (returned QueryState.idle) turn turns c c1 c' on h = h
  Fits-more (returned QueryState.loading) turn turns c c1 c' on h = h
  Fits-more (returned (QueryState.loading_with_placeholder d)) turn turns c c1 c' on h = h
  Fits-more (returned (QueryState.refetching d)) turn turns c c1 c' on h = h
  Fits-more (returned (QueryState.success d)) turn turns c c1 c' on h =
      (h.0, (h.1.0, inr h.1.1, h.1.2))
  Fits-more (returned (QueryState.stale d)) turn turns c c1 c' on h = h
  Fits-more (returned (QueryState.error e o)) turn turns c c1 c' on h =
      let (d, drift, same) = h.0 in ((d, on d drift, same), h.1)
  Fits-more panicked turn turns c c1 c' on h = h
  Fits-more unfinished turn turns c c1 c' on h = on c' h

  abbrev Ends : List (Turn M) → Client M → Executed M → Type 0
  Ends turns c x = Fits x.outcome turns c x.client

  stored-Fits :
      (turn : Turn M) (turns : List (Turn M)) (c c1 : Client M) (v : V)
      → Keeps turn
      → turn.fetched ≡ inl v
      → let c' = turn.writing (stored M beq q turn.now v c1) in
        Fits (success_or_panic (get_query_data M q.type_id q.key c')) (turn ∷ turns) c c'
  stored-Fits turn turns c c1 v keeps e =
      let c2 = stored M beq q turn.now v c1 in
      let c' = turn.writing c2 in
      let (w, read, stands) =
        (get_query_data-set_query_data M beq turn.now q.type_id q.key (selected q.select v)
          q.options c1).0 in
      let found : get_query_data M q.type_id q.key c' ≡ some w = keeps c2 ∙ read in
      let same : (w ≡ selected q.select v)
          ⊎ ((q.options.structural_sharing ≡ true)
              × (beq q.type_id w (selected q.select v) ≡ true)) =
        elim stands [
          | inl s ↦ inl s
          | inr (shares, e, old, typed, kept, equal) ↦ inr (
            subst
                (λ o.
                  (effective_options (not (is_some o)) c1.default_options
                    q.options).structural_sharing
                  ≡ true)
                old shares,
            equal,
          )
        ] in
      subst (λ o. Fits (success_or_panic o) (turn ∷ turns) c c') (sym found)
        (found, (v, inl e, same))

  -- The client after `wait_for_online`, if the loop calls it.
  abbrev online_again : Bool → Turn M → Client M → Client M
  online_again waits turn c = if waits then turn.waiting c else c

  waited :
      (waits : Bool) (turn : Turn M) (turns : List (Turn M)) (c : Client M)
      → Drift c (turn ∷ turns) (online_again waits turn (turn.fetching c))
  waited true turn turns c = waiting turn turns c
  waited false turn turns c = fetching turn turns c

  slept_on :
      (waits : Bool) (turn : Turn M) (turns : List (Turn M)) (c d : Client M)
      → Drift (turn.sleeping (online_again waits turn (turn.fetching c))) turns d
      → Drift c (turn ∷ turns) d
  slept_on true turn turns c d h = next_online turn turns c d h
  slept_on false turn turns c d h = next turn turns c d h

  failed-Ends :
      (more : Client M → Executed M) (turn : Turn M) (turns : List (Turn M)) (e : QueryError)
      (k : ℕ) (c : Client M)
      → ((d : Client M) → Ends turns d (more d))
      → Ends (turn ∷ turns) c (failed_attempt M beq q more turn e k (turn.fetching c))
  unfolding failed_attempt notify_subscribers get_query_data
  failed-Ends more turn turns e k c h =
      let P : Executed M → Type 0 = Ends (turn ∷ turns) c in
      let waits = not (can_retry q.options.network_mode turn.online) in
      let c1 = online_again waits turn (turn.fetching c) in
      if_holds P (is_cancelled e) _ _ (λ x. ((turn.fetching c, fetching turn turns c, refl), refl))
        (λ x.
          if_holds P
            (should_retry (RetryDecision.count q.options.retry.max_retries) e k && retryable e) _ _
            (λ y.
              if_holds P (waits && turn.cancelled_waiting) _ _
                (λ z. ((c1, waited waits turn turns c, refl), refl))
                (λ z.
                  Fits-more (more (turn.sleeping c1)).outcome turn turns c (turn.sleeping c1) _
                    (λ d. slept_on waits turn turns c d) (h (turn.sleeping c1))))
            (λ y. ((turn.fetching c, fetching turn turns c, refl), refl)))

  fetched-Ends :
      (more : Client M → Executed M) (turn : Turn M) (turns : List (Turn M)) (k : ℕ) (c : Client M)
      (o : V ⊎ QueryError)
      → Keeps turn
      → turn.fetched ≡ o
      → ((d : Client M) → Ends turns d (more d))
      → Ends (turn ∷ turns) c (fetched M beq q more turn k (turn.fetching c) o)
  unfolding fetched
  fetched-Ends more turn turns k c (inl v) keeps e h =
      stored-Fits turn turns c (turn.fetching c) v keeps e
  fetched-Ends more turn turns k c (inr x) keeps e h = failed-Ends more turn turns x k c h

  -- If no other task changes the data of the query between a write and the read after it, and whatever
  -- they do while the loop waits: the loop never panics; a success is a value that a turn gave (or, only
  -- under structural sharing, one that equals it) and is cached at the end; an error leaves in the cache what
  -- the other tasks have put there and carries the data that are cached at the end; and a loop that
  -- is not over has written nothing.
  pub fetch_loop-Fits :
      (turns : List (Turn M)) (k : ℕ) (c : Client M)
      → All Keeps turns
      → Fits (fetch_loop M beq q turns k c).outcome turns c (fetch_loop M beq q turns k c).client
  unfolding fetch_loop one_turn
  fetch_loop-Fits [] k c keeps = here [] c
  fetch_loop-Fits (turn ∷ turns) k c keeps =
      let more = fetch_loop M beq q turns (u32 (k + 1)) in
      if_holds (Ends (turn ∷ turns) c) turn.cancelled _ _
        (λ x. ((c, here (turn ∷ turns) c, refl), refl))
        (λ x.
          fetched-Ends more turn turns k c turn.fetched keeps.0 refl
            (λ d. fetch_loop-Fits turns (u32 (k + 1)) d keeps.1))
