-- ===== src/Options.antt =====
-- src/options.rs: retry configuration, refetch triggers, placeholder data and query options. A
-- `Duration` is its number of nanoseconds; an `Instant` too, and `elapsed` is the subtraction of ℕ
-- from the present (the standard library's saturates at zero).
pub mod Backoff
pub mod Merge
use rs_query.Base.{
  ℕ, suc, ◌+◌, ◌-◌, ◌*◌, ◌^◌, ◌≡◌, Bool, true, false, ◌&&◌, not, Option, none, some, List, [], ◌∷◌,
  Text, text_eq, texts_eq, ltb, ◌==◌, min, if◌then◌else◌,
}
use rs_query.Network.{NetworkMode}
use rs_query.Filters.{bool_eq}

abbrev pub u32_max : ℕ
u32_max = 2 ^ 32 - 1

abbrev pub u64_max : ℕ
u64_max = 2 ^ 64 - 1

-- `Duration::MAX`: 2⁶⁴ - 1 seconds and 999 999 999 nanoseconds.
abbrev pub duration_max : ℕ
duration_max = 2 ^ 64 * 1_000_000_000 - 1

-- `Duration::from_millis` and `from_secs`.
abbrev pub millis : ℕ → ℕ
millis n = n * 1_000_000

abbrev pub secs : ℕ → ℕ
secs n = n * 1_000_000_000

-- `DEFAULT_GC_TIME`, `MAX_RETRY_DELAY` and `BASE_RETRY_DELAY`.
abbrev pub default_gc_time : ℕ
default_gc_time = secs 300

abbrev pub max_retry_delay : ℕ
max_retry_delay = secs 30

abbrev pub base_retry_delay : ℕ
base_retry_delay = millis 1000

pub record RetryConfig : Type 0 where
  pub max_retries : ℕ  -- u32
  pub base_delay : ℕ
  pub exponential_backoff : Bool
  pub max_delay : ℕ

-- `RetryConfig::new`; the default has three retries.
unfoldable pub new_retry : ℕ → RetryConfig
new_retry max_retries = record {
  max_retries = max_retries;
  base_delay = base_retry_delay;
  exponential_backoff = true;
  max_delay = max_retry_delay;
}

unfoldable pub default_retry : RetryConfig
unfolding new_retry
default_retry = new_retry 3

-- The derived `PartialEq`.
unfoldable pub retry_eq : RetryConfig → RetryConfig → Bool
retry_eq a b =
    a.max_retries == b.max_retries
    && a.base_delay == b.base_delay
    && bool_eq a.exponential_backoff b.exponential_backoff
    && a.max_delay == b.max_delay

-- `2u32.saturating_pow(attempt)`.
unfoldable pub pow2_u32 : ℕ → ℕ
pow2_u32 attempt = min (2 ^ attempt) u32_max

-- `Duration::saturating_mul`.
unfoldable pub duration_mul : ℕ → ℕ → ℕ
duration_mul d n = min (d * n) duration_max

-- `RetryConfig::delay_for_attempt`.
unfoldable pub delay_for_attempt : RetryConfig → ℕ → ℕ
unfolding pow2_u32 duration_mul
delay_for_attempt c attempt =
    if c.exponential_backoff
    then min (duration_mul c.base_delay (pow2_u32 attempt)) c.max_delay
    else min c.base_delay c.max_delay

-- `RetryConfig::should_retry`.
unfoldable pub config_should_retry : RetryConfig → ℕ → Bool
config_should_retry c attempt = ltb attempt c.max_retries

-- `PlaceholderData<T>`.
pub data PlaceholderData (T : Type 0) : Type 0 where
  value : T → PlaceholderData T
  function : (Option T → T) → PlaceholderData T

-- `PlaceholderData::keep_previous`, over the type's default.
unfoldable pub keep_previous : {T : Type 0} → T → PlaceholderData T
keep_previous default = function (elim [ none ↦ default | some t ↦ t ])

unfoldable pub resolve : {T : Type 0} → PlaceholderData T → Option T → T
resolve (value v) previous = v
resolve (function f) previous = f previous

pub data RefetchTrigger : Type 0 where
  enabled disabled always : RefetchTrigger

abbrev pub trigger_eq : RefetchTrigger → RefetchTrigger → Bool
trigger_eq RefetchTrigger.enabled RefetchTrigger.enabled = true
trigger_eq RefetchTrigger.disabled RefetchTrigger.disabled = true
trigger_eq RefetchTrigger.always RefetchTrigger.always = true
trigger_eq _ _ = false

abbrev pub mode_eq : NetworkMode → NetworkMode → Bool
mode_eq NetworkMode.online NetworkMode.online = true
mode_eq NetworkMode.always NetworkMode.always = true
mode_eq NetworkMode.offline_first NetworkMode.offline_first = true
mode_eq _ _ = false

-- `RefetchTrigger::allows_refetch` and `is_enabled`.
unfoldable pub allows_refetch : RefetchTrigger → Bool → Bool
allows_refetch RefetchTrigger.enabled is_stale = is_stale
allows_refetch RefetchTrigger.disabled is_stale = false
allows_refetch RefetchTrigger.always is_stale = true

unfoldable pub trigger_is_enabled : RefetchTrigger → Bool
trigger_is_enabled RefetchTrigger.disabled = false
trigger_is_enabled _ = true

-- `enabled_fn` is the value that the callback returns when it is asked.
pub record QueryOptions : Type 0 where
  pub stale_time : ℕ
  pub stale_time_static : Bool
  pub gc_time : ℕ
  pub retry : RetryConfig
  pub enabled : Bool
  pub enabled_fn : Option Bool
  pub refetch_on_window_focus : RefetchTrigger
  pub refetch_on_reconnect : RefetchTrigger
  pub refetch_on_mount : RefetchTrigger
  pub refetch_interval : ℕ
  pub refetch_interval_in_background : Bool
  pub structural_sharing : Bool
  pub network_mode : NetworkMode
  pub retry_on_mount : Bool
  pub throw_on_error : Bool
  pub notify_on_change_props : Option (List Text)
  pub meta : List (Text × Text)

-- `QueryOptions::default`.
unfoldable pub default_options : QueryOptions
unfolding default_retry
default_options = record {
  stale_time = 0;
  stale_time_static = false;
  gc_time = default_gc_time;
  retry = default_retry;
  enabled = true;
  enabled_fn = none;
  refetch_on_window_focus = RefetchTrigger.enabled;
  refetch_on_reconnect = RefetchTrigger.enabled;
  refetch_on_mount = RefetchTrigger.enabled;
  refetch_interval = 0;
  refetch_interval_in_background = false;
  structural_sharing = true;
  network_mode = NetworkMode.online;
  retry_on_mount = true;
  throw_on_error = false;
  notify_on_change_props = none;
  meta = [];
}

-- `QueryOptions::stale_time` and `stale_time_static`, the two builders that share a field.
unfoldable pub with_stale_time : ℕ → QueryOptions → QueryOptions
with_stale_time d o = record o { stale_time = d; stale_time_static = false }

unfoldable pub with_stale_time_static : QueryOptions → QueryOptions
with_stale_time_static o = record o { stale_time_static = true }

abbrev none_or : Option Bool → Bool
none_or none = true
none_or (some b) = b

-- `QueryOptions::is_enabled`.
unfoldable pub is_enabled : QueryOptions → Bool
is_enabled o = o.enabled && none_or o.enabled_fn

-- `QueryOptions::is_stale_by_time` at the instant `now`.
unfoldable pub is_stale_by_time : QueryOptions → (now fetched_at : ℕ) → Bool
is_stale_by_time o now fetched_at =
    if o.stale_time_static
    then false
    else if o.stale_time == 0
    then false
    else ltb o.stale_time (now - fetched_at)
