-- ===== src/MutationCache.antt =====
-- src/mutation_cache.rs: the entries of submitted mutations, their events and their scopes. A table of
-- scopes is a function from ids; each method of the cache is one step, except `add_with_hook`, whose steps
-- stand alone as well, and the look at a scope and its mark, which are two calls.
pub mod Entries
pub mod Steps
pub mod Scopes
pub mod Ids
use rs_query.Base.{
  ℕ, suc, ◌+◌, Bool, true, false, not, Option, none, some, List, [], ◌∷◌, ◌++◌, Text, ◌==◌, text_eq,
  if◌then◌else◌, select, length, for_each,
}
use rs_query.Key.{QueryKey}
use rs_query.State.{QueryError, MutationStatus}
use rs_query.Filters.{MutationSnapshot, MutationFilters, match_mutation}
use rs_query.Watch
use rs_query.Watch.{Watcher}
use rs_query.Bus
use rs_query.Client.Core.{sender}

-- A scope is its id.
pub record MutationCacheEntry : Type 0 where
  pub id : ℕ
  pub mutation_key : Option QueryKey
  pub scope : Option Text
  pub status : MutationStatus
  pub is_paused : Bool
  pub submitted_at_ms : Option ℕ
  pub has_result : Bool
  pub error_of : Option QueryError
  pub has_context : Bool

-- `MutationCacheEntry::new`.
unfoldable pub new_entry : Option QueryKey → Option Text → MutationCacheEntry
new_entry mutation_key scope = record {
  id = 0;
  mutation_key = mutation_key;
  scope = scope;
  status = MutationStatus.idle;
  is_paused = false;
  submitted_at_ms = none;
  has_result = false;
  error_of = none;
  has_context = false;
}

abbrev pub snapshot : MutationCacheEntry → MutationSnapshot
snapshot e = record { mutation_key = e.mutation_key; status = e.status; is_paused = e.is_paused }

-- `MutationCacheEvent`.
pub data MutationCacheEvent : Type 0 where
  added removed updated : ℕ → MutationCacheEvent
  scope_resumed : Text → MutationCacheEvent
  cleared : MutationCacheEvent

-- `ScopeState`.
pub record ScopeState : Type 0 where
  pub running : Bool
  pub queue : List ℕ

abbrev pub no_state : ScopeState
no_state = record { running = false; queue = [] }

-- A hash map from scope ids, and the change of one of its keys.
abbrev pub Scoped : Type 0 → Type 0
Scoped V = Text → Option V

abbrev pub put_scope : {V : Type 0} → Text → Option V → Scoped V → Scoped V
put_scope k v m j = if text_eq k j then v else m j

abbrev pub state_or_default : Option ScopeState → ScopeState
state_or_default none = no_state
state_or_default (some s) = s

-- `MutationCache`, without its callbacks. A release cell holds `()`, here `true`; `woken` are the ids of
-- the watchers that its sends have woken, in their order.
pub record MutationCache : Type 0 where
  pub entries : List MutationCacheEntry
  pub scopes : Scoped ScopeState
  pub next_id : ℕ
  pub tx : Bus.Shared MutationCacheEvent
  pub scope_release : Scoped (Watch.Shared Bool)
  pub woken : List ℕ

unfoldable pub new_cache : MutationCache
unfolding sender
new_cache = record {
  entries = [];
  scopes = λ k. none;
  next_id = 0;
  tx = sender 256;
  scope_release = λ k. none;
  woken = [];
}

abbrev pub emit : MutationCacheEvent → MutationCache → MutationCache
emit event c = record c { tx = Bus.send event c.tx }

abbrev is_running : Option ScopeState → Bool
is_running none = false
is_running (some s) = s.running

abbrev enqueue : ℕ → ScopeState → ScopeState
enqueue id s = if s.running then record s { queue = s.queue ++ id ∷ [] } else s

-- `add_with_hook` step by step: the id, the lock of the scopes, where a mutation whose scope is busy is
-- paused and queued, and the lock of the entries. Other threads can run between these.
unfoldable pub allot_id : MutationCache → MutationCache × ℕ
allot_id c = (record c { next_id = suc c.next_id }, suc c.next_id)

unfoldable pub queue_in_scope :
    MutationCacheEntry → MutationCache → MutationCache × MutationCacheEntry
queue_in_scope e c = elim e.scope [
  | none ↦ (c, e)
  | some k ↦
      let state = state_or_default (c.scopes k) in
      (
        record c { scopes = put_scope k (some (enqueue e.id state)) c.scopes },
        if state.running then record e { is_paused = true } else e,
      )
]

unfoldable pub push_entry : MutationCacheEntry → MutationCache → MutationCache
push_entry e c = record c { entries = c.entries ++ e ∷ [] }

-- `add_with_hook` with no other thread in between.
unfoldable pub add : MutationCacheEntry → MutationCache → MutationCache × ℕ
unfolding allot_id queue_in_scope push_entry
add entry c =
    let (c1, id) = allot_id c in
    let (c2, e) = queue_in_scope (record entry { id = id }) c1 in
    (emit (added id) (push_entry e c2), id)

abbrev pub find_id : ℕ → List MutationCacheEntry → Option MutationCacheEntry
find_id id [] = none
find_id id (e ∷ es) = let rest = find_id id es in if e.id == id then some e else rest

abbrev pub apply_to :
    ℕ
    → (MutationCacheEntry → MutationCacheEntry)
    → List MutationCacheEntry
    → List MutationCacheEntry
apply_to id f [] = []
apply_to id f (e ∷ es) = let rest = apply_to id f es in if e.id == id then f e ∷ es else e ∷ rest

abbrev pub drop_id : ℕ → List MutationCacheEntry → List MutationCacheEntry
drop_id id [] = []
drop_id id (e ∷ es) = let rest = drop_id id es in if e.id == id then es else e ∷ rest

unfoldable pub get : ℕ → MutationCache → Option MutationCacheEntry
get id c = find_id id c.entries

unfoldable pub update :
    ℕ → (MutationCacheEntry → MutationCacheEntry) → MutationCache → MutationCache × Bool
update id f c = elim (find_id id c.entries) [
  | none ↦ (c, false)
  | some e ↦ (emit (updated id) (record c { entries = apply_to id f c.entries }), true)
]

-- `state.queue.retain(|queued| queued != id)`, if the scope has a state.
abbrev unqueue : ℕ → Option Text → Scoped ScopeState → Scoped ScopeState
unqueue id none m = m
unqueue id (some k) m = elim (m k) [
  | none ↦ m
  | some s ↦ put_scope k (some (record s { queue = select (λ j. not (j == id)) s.queue })) m
]

-- `remove`: `Removed` is sent whether or not there was an entry.
unfoldable pub remove : ℕ → MutationCache → MutationCache × Bool
remove id c = elim (find_id id c.entries) [
  | none ↦ (emit (removed id) c, false)
  | some e ↦ (
    emit (removed id)
        (record c { entries = drop_id id c.entries; scopes = unqueue id e.scope c.scopes }),
    true,
  )
]

unfoldable pub clear : MutationCache → MutationCache
clear c =
    emit cleared (
      for_each c.entries (λ e. emit (removed e.id)) (record c { entries = []; scopes = λ k. none }))

abbrev first_match : MutationFilters → List MutationCacheEntry → Option MutationCacheEntry
first_match f [] = none
first_match f (e ∷ es) =
    let rest = first_match f es in if match_mutation (snapshot e) f then some e else rest

unfoldable pub find : MutationFilters → MutationCache → Option MutationCacheEntry
find f c = first_match f c.entries

unfoldable pub find_all : MutationFilters → MutationCache → List MutationCacheEntry
find_all f c = select (λ e. match_mutation (snapshot e) f) c.entries

unfoldable pub can_run : Text → MutationCache → Bool
can_run k c = not (is_running (c.scopes k))

unfoldable pub mark_running : Text → MutationCache → MutationCache
mark_running k c = record c {
  scopes = put_scope k (some (record (state_or_default (c.scopes k)) { running = true })) c.scopes;
}

-- `notify_scope`.
unfoldable pub notify_scope : Text → MutationCache → MutationCache
notify_scope k c = elim (c.scope_release k) [
  | none ↦ c
  | some w ↦ record c {
    scope_release = put_scope k (some (Watch.send true w).0) c.scope_release;
    woken = c.woken ++ (Watch.send true w).1;
  }
]

abbrev finished : ScopeState → Option ScopeState
finished s = elim s.queue [ [] ↦ none | x ∷ q ↦ some (record s { running = false }) ]

unfoldable pub mark_finished : Text → MutationCache → MutationCache
unfolding notify_scope
mark_finished k c = elim (c.scopes k) [
  | none ↦ notify_scope k c
  | some s ↦ notify_scope k (record c { scopes = put_scope k (finished s) c.scopes })
]

-- `subscribe_scope`: the cell of the scope is made when it is first asked for.
unfoldable pub subscribe_scope : Text → MutationCache → MutationCache × Watcher
unfolding Watch.subscribe Watch.new
subscribe_scope k c = elim (c.scope_release k) [
  | some w ↦
      let (w', watcher) = Watch.subscribe w in
      (record c { scope_release = put_scope k (some w') c.scope_release }, watcher)
  | none ↦
      let (w', watcher) = Watch.subscribe (Watch.new true).0 in
      (record c { scope_release = put_scope k (some w') c.scope_release }, watcher)
]

unfoldable pub run_next : Text → MutationCache → MutationCache × Option ℕ
unfolding notify_scope
run_next k c = elim (c.scopes k) [
  | none ↦ (c, none)
  | some s ↦ elim s.queue [
    | [] ↦ (c, none)
    | x ∷ q ↦ (
      notify_scope k (
          emit (scope_resumed k)
            (record c { scopes = put_scope k (some (record s { queue = q })) c.scopes })),
      some x,
    )
  ]
]

abbrev unpause_all : List MutationCacheEntry → List MutationCacheEntry
unpause_all [] = []
unpause_all (e ∷ es) = record e { is_paused = false } ∷ unpause_all es

abbrev pub paused_entries : List MutationCacheEntry → List MutationCacheEntry
paused_entries = select (λ e. e.is_paused)

unfoldable pub resume_paused_mutations : MutationCache → MutationCache × ℕ
resume_paused_mutations c = (
  for_each (paused_entries c.entries) (λ e. emit (updated e.id))
      (record c { entries = unpause_all c.entries }),
  length (paused_entries c.entries),
)
