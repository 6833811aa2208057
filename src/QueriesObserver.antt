-- ===== src/QueriesObserver.antt =====
-- src/queries_observer.rs: an observer of a list of queries. The `Arc` of the buffer `completed` is an
-- address: a task keeps the one that it was spawned with. What `execute_query` comes to is an
-- argument of the end of a task (src/executor.rs has its model). `now` is the instant of a call.
pub mod Marks
pub mod Orphans
pub mod Results
use rs_query.Base.{
  ℕ, zero, suc, ◌≡◌, Bool, true, false, not, Option, none, some, List, [], ◌∷◌, ◌++◌, Text, text_eq,
  length, get_elem?, set, ◌==◌, ltb, leb, if◌then◌else◌,
}
use rs_query.Key.{QueryKey}
use rs_query.State.{QueryState, data_of}
use rs_query.Options.{QueryOptions, is_enabled}
use rs_query.Client.Core.{Tables, Client, is_in_flight}
use rs_query.Client.Data.{get_query_data, is_stale, set_query_data}

-- `Query<T>`, without its fetch function; `T` is the type with the id `type_id`.
pub record Spec (V : Type 0) : Type 0 where
  pub key : QueryKey
  pub type_id : ℕ
  pub options : QueryOptions
  pub initial_data : Option V

-- The slots of a buffer of completed executions.
abbrev pub Slots : Type 0 → Type 0
Slots V = List (Option (QueryState V))

-- `QueriesObserver<T>`, without its client.
pub record QueriesObserver (V : Type 0) : Type 0 where
  pub specs : List (Spec V)
  pub results : List (QueryState V)
  pub completed : ℕ

-- A spawned execution: its buffer and its index there.
pub record Task : Type 0 where
  pub buffer : ℕ
  pub idx : ℕ

module _ {V : Type 0} where
  -- `initial_result` on what the cache says.
  unfoldable pub materialised : Option V → (in_flight stale : Bool) → QueryState V
  materialised (some d) in_flight stale =
      if in_flight
      then QueryState.refetching d
      else if stale
      then QueryState.stale d
      else QueryState.success d
  materialised none in_flight stale = if in_flight then QueryState.loading else QueryState.idle

  -- The optimistic mark of `run_indices`.
  abbrev pub optimistic : Option V → QueryState V
  optimistic (some d) = QueryState.refetching d
  optimistic none = QueryState.loading

  unfoldable pub mark_loading : QueryState V → QueryState V
  mark_loading s = optimistic (data_of s)

  -- `if let Some(result) = results.get_mut(idx)`.
  abbrev pub mark_at : ℕ → List (QueryState V) → List (QueryState V)
  mark_at i [] = []
  mark_at zero (s ∷ ss) = mark_loading s ∷ ss
  mark_at (suc i) (s ∷ ss) = s ∷ mark_at i ss

  -- `previous.iter().position(|q| q.key.cache_key() == cache_key)`.
  abbrev pub position_from : ℕ → Text → List (Spec V) → Option ℕ
  position_from i k [] = none
  position_from i k (q ∷ qs) =
      let rest = position_from (suc i) k qs in if text_eq q.key.cache_key k then some i else rest

  unfoldable pub position : Text → List (Spec V) → Option ℕ
  position = position_from 0

  -- `unwrap_or_default` of a result and of a slot.
  abbrev pub or_idle : Option (Option (QueryState V)) → QueryState V
  or_idle (some (some s)) = s
  or_idle _ = QueryState.idle

  abbrev pub or_empty : Option (Option (QueryState V)) → Option (QueryState V)
  or_empty none = none
  or_empty (some s) = s

  abbrev pub all_some : List (QueryState V) → Slots V
  all_some [] = []
  all_some (s ∷ ss) = some s ∷ all_some ss

  abbrev pub all_empty : List (Spec V) → Slots V
  all_empty [] = []
  all_empty (q ∷ qs) = none ∷ all_empty qs

  -- The writes of `sync`: a full slot replaces the result of its index.
  unfoldable pub fold_slots : Slots V → List (QueryState V) → List (QueryState V)
  fold_slots [] ss = ss
  fold_slots (slot ∷ slots) [] = []
  fold_slots (none ∷ slots) (s ∷ ss) = s ∷ fold_slots slots ss
  fold_slots (some s' ∷ slots) (s ∷ ss) = s' ∷ fold_slots slots ss

  -- `Some(old_idx) if old_idx < old_results.len()`.
  abbrev pub in_range : Slots V → Option ℕ → Option ℕ
  in_range old none = none
  in_range old (some i) = if ltb i (length old) then some i else none

module _ {V : Type 0} (M : Tables V) where
  -- The observer with the buffers that its tasks and it have, and the client.
  pub record World : Type 0 where
    pub observer : QueriesObserver V
    pub buffers : ℕ → Slots V
    pub next_buffer : ℕ
    pub client : Client M

  -- The seeding of `initial_result`.
  unfoldable pub seeded :
      (ℕ → V → V → Bool) → ℕ → Spec V → Option V → Option V → Client M → Client M
  seeded beq now q none (some initial) c =
      set_query_data M beq now q.type_id q.key initial q.options c
  seeded beq now q _ _ c = c

  unfoldable pub initial_result :
      (ℕ → V → V → Bool) → ℕ → Spec V → Client M → Client M × QueryState V
  initial_result beq now q c =
      let c' = seeded beq now q (get_query_data M q.type_id q.key c) q.initial_data c in
      (
        c',
        materialised (get_query_data M q.type_id q.key c') (is_in_flight M q.key.cache_key c')
            (is_stale M now q.key c'),
      )

  abbrev initial_results :
      (ℕ → V → V → Bool) → ℕ → List (Spec V) → Client M → Client M × List (QueryState V)
  initial_results beq now [] c = (c, [])
  initial_results beq now (q ∷ qs) c =
      let (c1, s) = initial_result beq now q c in
      let (c2, ss) = initial_results beq now qs c1 in (c2, s ∷ ss)

  abbrev put_buffer : ℕ → Slots V → (ℕ → Slots V) → ℕ → Slots V
  put_buffer a slots buffers b = if b == a then slots else buffers b

  -- `QueriesObserver::new`.
  unfoldable pub new : (ℕ → V → V → Bool) → ℕ → List (Spec V) → Client M → World
  new beq now specs c =
      let (c', results) = initial_results beq now specs c in
      record {
        observer = record { specs = specs; results = results; completed = 0 };
        buffers = put_buffer 0 (all_empty specs) (λ b. []);
        next_buffer = 1;
        client = c';
      }

  abbrev pub with_results : List (QueryState V) → World → World
  with_results ss w = record w { observer = record (w.observer) { results = ss } }

  -- The body of the loop of `run_indices`, and the loop; the tasks come in their order.
  unfoldable pub run_spec : ℕ → Option (Spec V) → World → World × List Task
  run_spec idx none w = (w, [])
  run_spec idx (some q) w = if not (is_enabled q.options) then (w, []) else (
    with_results (mark_at idx w.observer.results) w,
    record { buffer = w.observer.completed; idx = idx } ∷ [],
  )

  unfoldable pub run_indices : List ℕ → World → World × List Task
  run_indices [] w = (w, [])
  run_indices (idx ∷ indices) w =
      let (w1, t) = run_spec idx (get_elem? w.observer.specs idx) w in
      let (w2, ts) = run_indices indices w1 in (w2, t ++ ts)

  -- What the loop of `set_specs` makes, from an index on: the client, the results, the slots and the
  -- indices that are new.
  pub record Rebuilt : Type 0 where
    pub client : Client M
    pub results : List (QueryState V)
    pub slots : Slots V
    pub new_indices : List ℕ

  -- One turn of the loop; `rest` is the loop from the next index on, `old` what is left of the old
  -- results.
  unfoldable pub rebuilt_at :
      (ℕ → V → V → Bool)
      → ℕ
      → Slots V
      → (Slots V → Client M → Rebuilt)
      → ℕ
      → Spec V
      → Slots V
      → Client M
      → Option ℕ
      → Rebuilt
  rebuilt_at beq now old_completed rest idx q old c (some i) =
      let r = rest (set old i none) c in
      record r {
        results = or_idle (get_elem? old i) ∷ r.results;
        slots = or_empty (get_elem? old_completed i) ∷ r.slots;
      }
  rebuilt_at beq now old_completed rest idx q old c none =
      let (c', s) = initial_result beq now q c in
      let r = rest old c' in
      record r {
        results = s ∷ r.results;
        slots = none ∷ r.slots;
        new_indices = idx ∷ r.new_indices;
      }

  unfoldable pub rebuilt :
      (ℕ → V → V → Bool)
      → ℕ
      → List (Spec V)
      → Slots V
      → ℕ
      → List (Spec V)
      → Slots V
      → Client M
      → Rebuilt
  rebuilt beq now previous old_completed idx [] old c = record {
    client = c;
    results = [];
    slots = [];
    new_indices = [];
  }
  rebuilt beq now previous old_completed idx (q ∷ qs) old c =
      rebuilt_at beq now old_completed (rebuilt beq now previous old_completed (suc idx) qs) idx q
        old c (in_range old (position q.key.cache_key previous))

  -- The world after the loop: a new buffer with the slots.
  abbrev pub replaced : List (Spec V) → Rebuilt → World → World
  replaced specs r w = record w {
    observer = record { specs = specs; results = r.results; completed = w.next_buffer };
    buffers = put_buffer w.next_buffer r.slots w.buffers;
    next_buffer = suc w.next_buffer;
    client = r.client;
  }

  -- `set_specs`.
  unfoldable pub set_specs : (ℕ → V → V → Bool) → ℕ → List (Spec V) → World → World × List Task
  set_specs beq now specs w =
      let r =
        rebuilt beq now w.observer.specs (w.buffers w.observer.completed) 0 specs
          (all_some w.observer.results) w.client in
      run_indices r.new_indices (replaced specs r w)

  abbrev indices_from : ℕ → List (Spec V) → List ℕ
  indices_from i [] = []
  indices_from i (q ∷ qs) = i ∷ indices_from (suc i) qs

  unfoldable pub run_all : World → World × List Task
  run_all w = run_indices (indices_from 0 w.observer.specs) w

  abbrev first_task : List Task → Option Task
  first_task [] = none
  first_task (t ∷ ts) = some t

  unfoldable pub refresh : ℕ → World → World × Option Task
  refresh idx w =
      if leb (length w.observer.specs) idx
      then (w, none)
      else let (w', ts) = run_indices (idx ∷ []) w in (w', first_task ts)

  -- The end of a task, with the state that `execute_query` came to.
  unfoldable pub deposit : Task → QueryState V → World → World
  deposit t s w = record w {
    buffers = put_buffer t.buffer (set (w.buffers t.buffer) t.idx (some s)) w.buffers;
  }

  unfoldable pub sync : World → World
  sync w = with_results (fold_slots (w.buffers w.observer.completed) w.observer.results) w

  -- `results`, `specs`, `len` and `is_empty`.
  unfoldable pub results : World → List (QueryState V)
  results w = w.observer.results

  unfoldable pub len : World → ℕ
  len w = length w.observer.specs

  unfoldable pub is_empty : World → Bool
  is_empty w = len w == 0

  unfoldable pub combine : {R : Type 0} → (List (QueryState V) → R) → World → R
  combine f w = f w.observer.results
