-- ===== src/Managers.antt =====
-- src/focus_manager.rs, src/timeout_manager.rs, src/updater.rs and src/cancellation.rs: the flag of the
-- focus, the provider of sleeps, updates by value or function, and a fetch under a token.
use rs_query.Base.{◌⊎◌, inr, Bool, true, Option, none, some, if◌then◌else◌}
use rs_query.State.{QueryError}
use rs_query.Retry.{plain_cancel}

-- `FocusManager`, whose clones share the flag: what is set through one is read through all.
pub record FocusManager : Type 0 where
  pub focused : Bool

unfoldable pub new_focus : FocusManager
new_focus = record { focused = true }

unfoldable pub is_focused : FocusManager → Bool
is_focused f = f.focused

unfoldable pub set_focused : Bool → FocusManager → FocusManager
set_focused b f = record f { focused = b }

-- `TimeoutManager`, whose clones share the provider; a provider is what a sleep of it does.
pub record TimeoutManager (Sleep : Type 0) : Type 0 where
  pub provider : Sleep

module _ {Sleep : Type 0} where
  unfoldable pub with_provider : Sleep → TimeoutManager Sleep
  with_provider p = record { provider = p }

  unfoldable pub set_provider : Sleep → TimeoutManager Sleep → TimeoutManager Sleep
  set_provider p m = record m { provider = p }

  -- `sleep` takes the provider out of the lock first; a change during the sleep does not touch it.
  unfoldable pub provider_of : TimeoutManager Sleep → Sleep
  provider_of m = m.provider

-- `Updater<T>`.
pub data Updater (T : Type 0) : Type 0 where
  value : T → Updater T
  function : (Option T → Option T) → Updater T

module _ {T : Type 0} where
  -- `Updater::apply` and `functional_update`.
  unfoldable pub apply : Updater T → Option T → Option T
  apply (value v) previous = some v
  apply (function f) previous = f previous

  unfoldable pub functional_update : Updater T → Option T → Option T
  unfolding apply
  functional_update u previous = apply u previous

  -- `cancellable_fetch`: the token before the call, and what `run_until_cancelled` gives.
  abbrev or_cancelled : Option (T ⊎ QueryError) → T ⊎ QueryError
  or_cancelled (some result) = result
  or_cancelled none = inr plain_cancel

  unfoldable pub cancellable_fetch : Bool → Option (T ⊎ QueryError) → T ⊎ QueryError
  cancellable_fetch cancelled run = if cancelled then inr plain_cancel else or_cancelled run
