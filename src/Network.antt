-- ===== src/Network.antt =====
-- src/network.rs: network modes, and the online manager over its watch cell.
use rs_query.Base.{ℕ, suc, ◌+◌, ◌≡◌, refl, Bool, true, not, List, [], ◌∷◌, arith, if◌then◌else◌}
use rs_query.Watch.{Shared, Watcher, send, subscribe}
use rs_query.Watch
use rs_query.Filters.{bool_eq}

pub data NetworkMode : Type 0 where
  online always offline_first : NetworkMode

unfoldable pub can_fetch : NetworkMode → Bool → Bool
can_fetch NetworkMode.online is_online = is_online
can_fetch always is_online = true
can_fetch offline_first is_online = true

unfoldable pub can_retry : NetworkMode → Bool → Bool
can_retry NetworkMode.online is_online = is_online
can_retry offline_first is_online = is_online
can_retry always is_online = true

-- `OnlineManager`: the atomic flag and the cell that tells subscribers.
pub record OnlineManager : Type 0 where
  pub online : Bool
  pub tx : Shared Bool

unfoldable pub new : OnlineManager
unfolding Watch.new
new = record { online = true; tx = (Watch.new true).0 }

unfoldable pub is_online : OnlineManager → Bool
is_online m = m.online

-- The two writes of `set_online`, and both with no other thread in between.
unfoldable store_online : Bool → OnlineManager → OnlineManager
store_online b m = record m { online = b }

unfoldable tell_online : Bool → OnlineManager → OnlineManager
unfolding send
tell_online b m = record m { tx = (send b m.tx).0 }

unfoldable pub set_online : Bool → OnlineManager → OnlineManager
unfolding is_online store_online tell_online
set_online b m = if not (bool_eq (is_online m) b) then tell_online b (store_online b m) else m

unfoldable pub set_all : List Bool → OnlineManager → OnlineManager
set_all [] m = m
set_all (b ∷ bs) m = set_all bs (set_online b m)

-- How often the connectivity changes along the updates.
abbrev pub changes : Bool → List Bool → ℕ
changes now [] = 0
changes now (b ∷ bs) = let rest = changes b bs in if bool_eq now b then rest else suc rest

abbrev pub final : Bool → List Bool → Bool
final now [] = now
final now (b ∷ bs) = final b bs

set_online_fields :
    (b : Bool) (m : OnlineManager)
    → (m.tx.value ≡ m.online)
    → ((set_online b m).online ≡ b)
      × ((set_online b m).tx.value ≡ b)
      × ((set_online b m).tx.version
          ≡ (if bool_eq m.online b then m.tx.version else suc m.tx.version))
unfolding set_online
set_online_fields b m e = ground arith

-- If the flag and the cell agree, then after any updates the manager reports the last one, its cell holds the same value, and the cell
-- was written exactly as often as the connectivity changed: subscribers hear of changes only.
set_all_notifies :
    (bs : List Bool) (m : OnlineManager)
    → m.tx.value ≡ m.online
    → (is_online (set_all bs m) ≡ final m.online bs)
      × ((set_all bs m).tx.value ≡ final m.online bs)
      × ((set_all bs m).tx.version ≡ m.tx.version + changes m.online bs)
unfolding set_all is_online
set_all_notifies [] m e = (refl, e, omega arith)
set_all_notifies (b ∷ bs) m e =
    ground (arith, set_online_fields b m e, set_all_notifies bs (set_online b m))
