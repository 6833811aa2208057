-- ===== src/Client/Mounting.antt =====
-- The reference count of mounts.
use rs_query.Base.{ℕ, suc, ◌^◌, ◌<◌, ◌≡◌, false, arith, ltb}
use rs_query.Client.Core.{Tables, Client}
use rs_query.Client.Lifecycle.{mount, unmount}

module _ {V : Type 0} (M : Tables V) where
  -- A history of mounts and unmounts that is `n` mounts deep at its end and is never below zero.
  pub data History (c : Client M) : ℕ → Client M → Type 0 where
    start : History c 0 c
    mounts : {n : ℕ} {d : Client M} → suc n < 2 ^ 64 → History c n d → History c (suc n) (mount M d)
    unmounts : {n : ℕ} {d : Client M} → History c (suc n) d → History c n (unmount M d)

  -- The watcher runs exactly while the client is mounted.
  pub record Watches (n : ℕ) (c : Client M) : Type 0 where
    pub count : c.mount_count ≡ n
    pub bound : n < 2 ^ 64
    pub watcher : c.reconnect_watcher ≡ ltb 0 n

  -- After any history from an unmounted client that is never below zero mounts (nor reaches 2⁶⁴), the
  -- count is the number of mounts without an unmount, and the reconnect watcher runs exactly while that
  -- number is positive.
  History-Watches :
      {c : Client M} {n : ℕ} {d : Client M} → Watches 0 c → History c n d → Watches n d
  unfolding mount unmount
  History-Watches w start = w
  History-Watches w (mounts b h) =
      let v = History-Watches w h in
      record { count = ground arith; bound = b; watcher = ground arith }
  History-Watches w (unmounts h) =
      let v = History-Watches w h in
      record { count = ground arith; bound = omega (arith, v.bound); watcher = ground arith }

  -- One `unmount` too many, at a count of zero without a watcher, wraps the count round, and the next
  -- `mount` starts no watcher.
  unmount_wraps :
      (c : Client M)
      → c.mount_count ≡ 0
      → c.reconnect_watcher ≡ false
      → let d = mount M (unmount M c) in (d.mount_count ≡ 0) × (d.reconnect_watcher ≡ false)
  unfolding mount unmount
  unmount_wraps c z w = ground arith
