-- ===== src/Client/Pages.antt =====
-- The pages of an infinite query in the cache (src/client.rs). Its data are values of one type among
-- those of the cache: `Payload` says how such a value stands in it.
use mathlib.Core.Option
use rs_query.Base.{ℕ, suc, ◌≡◌, Bool, Option, none, some}
use rs_query.Key.{QueryKey}
use rs_query.Options.{QueryOptions}
use rs_query.Infinite.{InfiniteData, append_page, prepend_page}
use rs_query.Client.Core.{
  Dynamic, downcast, CacheEntry, QueryStateVariant, Tables, Client, notify_subscribers,
}
use rs_query.Client.Data.{get_query_data, set_query_data}

-- The values of the type with the id `type_id` are the elements of `A`.
pub record Payload (V A : Type 0) : Type 0 where
  pub type_id : ℕ
  pub inject : A → V
  pub project : V → A
  pub project-inject : (a : A) → project (inject a) ≡ a

module _ {V T P : Type 0} (M : Tables V) (I : Payload V (InfiniteData T P)) where
  unfoldable pub get_infinite_data : QueryKey → Client M → Option (InfiniteData T P)
  unfolding get_query_data
  get_infinite_data key c = Option.map I.project (get_query_data M I.type_id key c)

  unfoldable pub set_infinite_data :
      (ℕ → V → V → Bool) → ℕ → QueryKey → InfiniteData T P → QueryOptions → Client M → Client M
  unfolding set_query_data
  set_infinite_data beq now key data_of options c =
      set_query_data M beq now I.type_id key (I.inject data_of) options c

  -- The writes through the entry's guard, and the notification after them.
  unfoldable pub write_pages : ℕ → QueryKey → CacheEntry V → InfiniteData T P → Client M → Client M
  unfolding notify_subscribers
  write_pages now key e new c =
      let fresh : Dynamic V = record {
        type_id = I.type_id;
        address = c.next_address;
        value = I.inject new;
      } in
      let entry : CacheEntry V = record e {
        data_of = fresh;
        fetched_at = now;
        last_accessed = now;
      } in
      notify_subscribers M key.cache_key QueryStateVariant.success (record c {
        cache = M.cache.insert key.cache_key entry c.cache;
        next_address = suc c.next_address;
      })

  abbrev written_pages :
      ℕ
      → QueryKey
      → CacheEntry V
      → Client M
      → Option (InfiniteData T P)
      → Option (Client M × Option (InfiniteData T P))
  written_pages now key e c none = none
  written_pages now key e c (some new) = some (write_pages now key e new c, some new)

  -- `append_infinite_page`; an outer `none` is the panic of `Vec::remove`.
  unfoldable pub append_infinite_page :
      ℕ → QueryKey → T → P → Option ℕ → Client M → Option (Client M × Option (InfiniteData T P))
  unfolding append_page downcast
  append_infinite_page now key page param max_pages c = elim (M.cache.get key.cache_key c.cache) [
    | none ↦ some (c, none)
    | some e ↦ elim (downcast I.type_id e.data_of) [
      | none ↦ some (c, none)
      | some v ↦ written_pages now key e c (append_page max_pages page param (I.project v))
    ]
  ]

  unfoldable pub prepend_infinite_page :
      ℕ → QueryKey → T → P → Option ℕ → Client M → Client M × Option (InfiniteData T P)
  unfolding prepend_page downcast
  prepend_infinite_page now key page param max_pages c = elim (M.cache.get key.cache_key c.cache) [
    | none ↦ (c, none)
    | some e ↦ elim (downcast I.type_id e.data_of) [
      | none ↦ (c, none)
      | some v ↦
          let new = prepend_page max_pages page param (I.project v) in
          (write_pages now key e new c, some new)
    ]
  ]
