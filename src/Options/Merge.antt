-- ===== src/Options/Merge.antt =====
-- `QueryClient::merge_options` of src/client.rs: the client's default options under the options
-- that a call provides.
use rs_query.Base.{
  ℕ, ◌≡◌, refl, Bool, true, not, Option, none, some, List, [], ◌∷◌, arith, ◌==◌, if◌then◌else◌,
}
use rs_query.Network.{NetworkMode}
use rs_query.Filters.{bool_eq}
use rs_query.Options.{
  RetryConfig, QueryOptions, RefetchTrigger, default_options, retry_eq, trigger_eq, mode_eq,
}

-- `if provided.f != d.f { merged.f = provided.f }`, where `merged.f` is that of the defaults.
abbrev pick {ℓ} : {A : Type ℓ} → (A → A → Bool) → A → A → A → A
pick eq d defaults provided = if not (eq provided d) then provided else defaults

-- `if provided.f.is_some() { merged.f.clone_from(&provided.f) }`.
abbrev pick_some {ℓ} : {A : Type ℓ} → Option A → Option A → Option A
pick_some defaults none = defaults
pick_some defaults (some a) = some a

-- `if !provided.meta.is_empty() { merged.meta = provided.meta.clone() }`.
abbrev pick_meta {ℓ} : {A : Type ℓ} → List A → List A → List A
pick_meta defaults [] = defaults
pick_meta defaults (x ∷ xs) = x ∷ xs

unfoldable pub merge_options : QueryOptions → QueryOptions → QueryOptions
unfolding default_options
merge_options o p =
    let d = default_options in
    record {
      stale_time = pick ◌==◌ d.stale_time o.stale_time p.stale_time;
      stale_time_static = pick bool_eq d.stale_time_static o.stale_time_static p.stale_time_static;
      gc_time = pick ◌==◌ d.gc_time o.gc_time p.gc_time;
      retry = pick retry_eq d.retry o.retry p.retry;
      enabled = pick bool_eq d.enabled o.enabled p.enabled;
      enabled_fn = pick_some o.enabled_fn p.enabled_fn;
      refetch_on_window_focus =
          pick trigger_eq d.refetch_on_window_focus o.refetch_on_window_focus
            p.refetch_on_window_focus;
      refetch_on_reconnect =
          pick trigger_eq d.refetch_on_reconnect o.refetch_on_reconnect p.refetch_on_reconnect;
      refetch_on_mount = pick trigger_eq d.refetch_on_mount o.refetch_on_mount p.refetch_on_mount;
      refetch_interval = pick ◌==◌ d.refetch_interval o.refetch_interval p.refetch_interval;
      refetch_interval_in_background =
          pick bool_eq d.refetch_interval_in_background o.refetch_interval_in_background
            p.refetch_interval_in_background;
      structural_sharing =
          pick bool_eq d.structural_sharing o.structural_sharing p.structural_sharing;
      network_mode = pick mode_eq d.network_mode o.network_mode p.network_mode;
      retry_on_mount = pick bool_eq d.retry_on_mount o.retry_on_mount p.retry_on_mount;
      throw_on_error = pick bool_eq d.throw_on_error o.throw_on_error p.throw_on_error;
      notify_on_change_props = pick_some o.notify_on_change_props p.notify_on_change_props;
      meta = pick_meta o.meta p.meta;
    }

-- `◌⊕◌` with the unit `d` makes `A` a monoid.
pub record IsMonoid {ℓ} (A : Type ℓ) (join : A → A → A) (d : A) : Type ℓ where
  pub left : (a : A) → join d a ≡ a
  pub right : (a : A) → join a d ≡ a
  pub assoc : (a b c : A) → join (join a b) c ≡ join a (join b c)

module _ {ℓ} {A : Type ℓ} (eq : A → A → Bool) (sound : (a b : A) → eq a b ≡ true → a ≡ b)
    (same : (a : A) → eq a a ≡ true) where
  pick-IsMonoid : (d : A) → IsMonoid A (pick eq d) d
  pick-IsMonoid d = record {
    left = λ a. ground (arith, sound a d);
    right = λ a. rw (same d);
    assoc = λ a b c. ground (arith, same d, sound c d);
  }

module _ {ℓ} {A : Type ℓ} where
  pick_some-IsMonoid : IsMonoid (Option A) pick_some none
  pick_some-IsMonoid = record {
    left = λ a. ground arith;
    right = λ a. refl;
    assoc = λ a b c. ground arith;
  }

  pick_meta-IsMonoid : IsMonoid (List A) pick_meta []
  pick_meta-IsMonoid = record {
    left = λ a. ground arith;
    right = λ a. refl;
    assoc = λ a b c. ground arith;
  }

nat-IsMonoid : (d : ℕ) → IsMonoid ℕ (pick ◌==◌ d) d
nat-IsMonoid = pick-IsMonoid ◌==◌ (λ a b h. ground arith) (λ a. ground arith)

bool-IsMonoid : (d : Bool) → IsMonoid Bool (pick bool_eq d) d
bool-IsMonoid = pick-IsMonoid bool_eq (λ a b h. ground arith) (λ a. ground arith)

trigger-IsMonoid : (d : RefetchTrigger) → IsMonoid RefetchTrigger (pick trigger_eq d) d
trigger-IsMonoid = pick-IsMonoid trigger_eq (λ a b h. ground arith) (λ a. ground arith)

mode-IsMonoid : (d : NetworkMode) → IsMonoid NetworkMode (pick mode_eq d) d
mode-IsMonoid = pick-IsMonoid mode_eq (λ a b h. ground arith) (λ a. ground arith)

retry_eq_sound : (a b : RetryConfig) → retry_eq a b ≡ true → a ≡ b
unfolding retry_eq
retry_eq_sound a b h = ground arith

retry_eq_self : (a : RetryConfig) → retry_eq a a ≡ true
unfolding retry_eq
retry_eq_self a = ground arith

retry-IsMonoid : (d : RetryConfig) → IsMonoid RetryConfig (pick retry_eq d) d
retry-IsMonoid = pick-IsMonoid retry_eq retry_eq_sound retry_eq_self

merge_options_left : (p : QueryOptions) → merge_options default_options p ≡ p
unfolding merge_options
merge_options_left p = λ i. record {
  stale_time = (nat-IsMonoid default_options.stale_time).left p.stale_time i;
  stale_time_static = (bool-IsMonoid default_options.stale_time_static).left p.stale_time_static i;
  gc_time = (nat-IsMonoid default_options.gc_time).left p.gc_time i;
  retry = (retry-IsMonoid default_options.retry).left p.retry i;
  enabled = (bool-IsMonoid default_options.enabled).left p.enabled i;
  enabled_fn = pick_some-IsMonoid.left p.enabled_fn i;
  refetch_on_window_focus =
      (trigger-IsMonoid default_options.refetch_on_window_focus).left p.refetch_on_window_focus i;
  refetch_on_reconnect =
      (trigger-IsMonoid default_options.refetch_on_reconnect).left p.refetch_on_reconnect i;
  refetch_on_mount = (trigger-IsMonoid default_options.refetch_on_mount).left p.refetch_on_mount i;
  refetch_interval = (nat-IsMonoid default_options.refetch_interval).left p.refetch_interval i;
  refetch_interval_in_background =
      (bool-IsMonoid default_options.refetch_interval_in_background).left
        p.refetch_interval_in_background i;
  structural_sharing =
      (bool-IsMonoid default_options.structural_sharing).left p.structural_sharing i;
  network_mode = (mode-IsMonoid default_options.network_mode).left p.network_mode i;
  retry_on_mount = (bool-IsMonoid default_options.retry_on_mount).left p.retry_on_mount i;
  throw_on_error = (bool-IsMonoid default_options.throw_on_error).left p.throw_on_error i;
  notify_on_change_props = pick_some-IsMonoid.left p.notify_on_change_props i;
  meta = pick_meta-IsMonoid.left p.meta i;
}

merge_options_right : (p : QueryOptions) → merge_options p default_options ≡ p
unfolding merge_options
merge_options_right p = λ i. record {
  stale_time = (nat-IsMonoid default_options.stale_time).right p.stale_time i;
  stale_time_static = (bool-IsMonoid default_options.stale_time_static).right p.stale_time_static i;
  gc_time = (nat-IsMonoid default_options.gc_time).right p.gc_time i;
  retry = (retry-IsMonoid default_options.retry).right p.retry i;
  enabled = (bool-IsMonoid default_options.enabled).right p.enabled i;
  enabled_fn = pick_some-IsMonoid.right p.enabled_fn i;
  refetch_on_window_focus =
      (trigger-IsMonoid default_options.refetch_on_window_focus).right p.refetch_on_window_focus i;
  refetch_on_reconnect =
      (trigger-IsMonoid default_options.refetch_on_reconnect).right p.refetch_on_reconnect i;
  refetch_on_mount = (trigger-IsMonoid default_options.refetch_on_mount).right p.refetch_on_mount i;
  refetch_interval = (nat-IsMonoid default_options.refetch_interval).right p.refetch_interval i;
  refetch_interval_in_background =
      (bool-IsMonoid default_options.refetch_interval_in_background).right
        p.refetch_interval_in_background i;
  structural_sharing =
      (bool-IsMonoid default_options.structural_sharing).right p.structural_sharing i;
  network_mode = (mode-IsMonoid default_options.network_mode).right p.network_mode i;
  retry_on_mount = (bool-IsMonoid default_options.retry_on_mount).right p.retry_on_mount i;
  throw_on_error = (bool-IsMonoid default_options.throw_on_error).right p.throw_on_error i;
  notify_on_change_props = pick_some-IsMonoid.right p.notify_on_change_props i;
  meta = pick_meta-IsMonoid.right p.meta i;
}

merge_options_assoc :
    (a b c : QueryOptions)
    → merge_options (merge_options a b) c ≡ merge_options a (merge_options b c)
unfolding merge_options
merge_options_assoc a b c = λ i. record {
  stale_time =
      (nat-IsMonoid default_options.stale_time).assoc a.stale_time b.stale_time c.stale_time i;
  stale_time_static =
      (bool-IsMonoid default_options.stale_time_static).assoc a.stale_time_static
        b.stale_time_static c.stale_time_static i;
  gc_time = (nat-IsMonoid default_options.gc_time).assoc a.gc_time b.gc_time c.gc_time i;
  retry = (retry-IsMonoid default_options.retry).assoc a.retry b.retry c.retry i;
  enabled = (bool-IsMonoid default_options.enabled).assoc a.enabled b.enabled c.enabled i;
  enabled_fn = pick_some-IsMonoid.assoc a.enabled_fn b.enabled_fn c.enabled_fn i;
  refetch_on_window_focus =
      (trigger-IsMonoid default_options.refetch_on_window_focus).assoc a.refetch_on_window_focus
        b.refetch_on_window_focus c.refetch_on_window_focus i;
  refetch_on_reconnect =
      (trigger-IsMonoid default_options.refetch_on_reconnect).assoc a.refetch_on_reconnect
        b.refetch_on_reconnect c.refetch_on_reconnect i;
  refetch_on_mount =
      (trigger-IsMonoid default_options.refetch_on_mount).assoc a.refetch_on_mount
        b.refetch_on_mount c.refetch_on_mount i;
  refetch_interval =
      (nat-IsMonoid default_options.refetch_interval).assoc a.refetch_interval b.refetch_interval
        c.refetch_interval i;
  refetch_interval_in_background =
      (bool-IsMonoid default_options.refetch_interval_in_background).assoc
        a.refetch_interval_in_background b.refetch_interval_in_background
        c.refetch_interval_in_background i;
  structural_sharing =
      (bool-IsMonoid default_options.structural_sharing).assoc a.structural_sharing
        b.structural_sharing c.structural_sharing i;
  network_mode =
      (mode-IsMonoid default_options.network_mode).assoc a.network_mode b.network_mode
        c.network_mode i;
  retry_on_mount =
      (bool-IsMonoid default_options.retry_on_mount).assoc a.retry_on_mount b.retry_on_mount
        c.retry_on_mount i;
  throw_on_error =
      (bool-IsMonoid default_options.throw_on_error).assoc a.throw_on_error b.throw_on_error
        c.throw_on_error i;
  notify_on_change_props =
      pick_some-IsMonoid.assoc a.notify_on_change_props b.notify_on_change_props
        c.notify_on_change_props i;
  meta = pick_meta-IsMonoid.assoc a.meta b.meta c.meta i;
}

-- Merging is associative, and the crate's default options are its unit on both sides: options that
-- a call leaves at the crate's defaults are the client's, and layers of defaults compose.
merge_options-IsMonoid : IsMonoid QueryOptions merge_options default_options
merge_options-IsMonoid = record {
  left = merge_options_left;
  right = merge_options_right;
  assoc = merge_options_assoc;
}
