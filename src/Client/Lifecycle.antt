-- ===== src/Client/Lifecycle.antt =====
-- Mounting, reconnection and the activity counters of the client (src/client.rs). `usize` counters
-- have 64 bits and wrap, as the atomic operations do.
use rs_query.Base.{
  ℕ, ◌+◌, ◌-◌, ◌%◌, ◌^◌, Bool, true, false, none, some, Text, ltb, ◌==◌, if◌then◌else◌, for_each,
}
use rs_query.Bus.{send}
use rs_query.Options.{allows_refetch}
use rs_query.Map.Keys.{keys_where, get_mut}
use rs_query.Client.Core.{
  Tables, Client, fetching_count_changed, mutating_count_changed, stale, notify_subscribers,
}
use rs_query.Client.Data.{entry_is_stale, mark_stale}

abbrev pub usize_mod : ℕ
usize_mod = 2 ^ 64

-- `fetch_add(1)` and `fetch_sub(1)`: what is stored.
abbrev pub wrapping_inc : ℕ → ℕ
wrapping_inc n = (n + 1) % usize_mod

abbrev pub wrapping_dec : ℕ → ℕ
wrapping_dec n = (n + (usize_mod - 1)) % usize_mod

module _ {V : Type 0} (M : Tables V) where
  -- `mount`: the first mount starts the reconnect watcher.
  unfoldable pub mount : Client M → Client M
  mount c =
      let count = wrapping_inc c.mount_count in
      if count == 1
      then record c { mount_count = count; reconnect_watcher = true }
      else record c { mount_count = count }

  -- `unmount`: the last one takes the watcher and stops it.
  unfoldable pub unmount : Client M → Client M
  unmount c =
      if c.mount_count == 1
      then record c { mount_count = wrapping_dec c.mount_count; reconnect_watcher = false }
      else record c { mount_count = wrapping_dec c.mount_count }

  -- The body of the loop of `handle_reconnect`.
  unfoldable pub reconnect_entry : ℕ → Text → Client M → Client M
  unfolding entry_is_stale allows_refetch get_mut notify_subscribers
  reconnect_entry now key c = elim (M.cache.get key c.cache) [
    | none ↦ c
    | some e ↦
        if allows_refetch e.options.refetch_on_reconnect (entry_is_stale now e)
        then notify_subscribers M key stale
            (record c { cache = get_mut M.cache mark_stale key c.cache })
        else c
  ]

  unfoldable pub handle_reconnect : ℕ → Client M → Client M
  unfolding reconnect_entry
  handle_reconnect now c =
      for_each (keys_where (λ key e. true) (M.cache.iter c.cache)) (reconnect_entry now) c

  unfoldable pub is_fetching : Client M → Bool
  is_fetching c = ltb 0 c.fetching_count

  unfoldable pub is_mutating : Client M → Bool
  is_mutating c = ltb 0 c.mutating_count

  unfoldable pub inc_fetching : Client M → Client M
  inc_fetching c =
      let n = wrapping_inc c.fetching_count in
      record c { fetching_count = n; activity = send (fetching_count_changed n) c.activity }

  unfoldable pub dec_fetching : Client M → Client M
  dec_fetching c =
      let n = wrapping_dec c.fetching_count in
      record c { fetching_count = n; activity = send (fetching_count_changed n) c.activity }

  unfoldable pub inc_mutating : Client M → Client M
  inc_mutating c =
      let n = wrapping_inc c.mutating_count in
      record c { mutating_count = n; activity = send (mutating_count_changed n) c.activity }

  unfoldable pub dec_mutating : Client M → Client M
  dec_mutating c =
      let n = wrapping_dec c.mutating_count in
      record c { mutating_count = n; activity = send (mutating_count_changed n) c.activity }
