-- ===== src/Observer/Bookkeeping.antt =====
-- The counters and instants of an observer, in every state that its methods lead to.
use rs_query.Base.{ℕ, ◌≤◌, ◌≡◌, refl, false, Option, arith, ltb, is_some, Option-cases, inl, inr}
use rs_query.Key.{QueryKey}
use rs_query.State.{QueryError, QueryState, data_of}
use rs_query.Options.{QueryOptions, PlaceholderData, u32_max}
use rs_query.Client.Core.{Tables, Client}
use rs_query.Observer.{
  QueryObserver, is_some_instant, mounted, set_loading, set_success, set_error, set_stale, update,
}

-- What happens to an observer.
pub data Step {V : Type 0} (M : Tables V) : QueryObserver V → QueryObserver V → Type 0 where
  loads : (now : ℕ) (o : QueryObserver V) → Step M o (set_loading now o)
  succeeds : (now : ℕ) (d : V) (o : QueryObserver V) → Step M o (set_success now d o)
  fails : (now : ℕ) (e : QueryError) (o : QueryObserver V) → Step M o (set_error now e o)
  goes_stale : (now : ℕ) (o : QueryObserver V) → Step M o (set_stale now o)
  updates : (now : ℕ) (c : Client M) (o : QueryObserver V) → Step M o (update M now c o)

pub data Reach {V : Type 0} (M : Tables V) : QueryObserver V → Type 0 where
  mounts :
      (key : QueryKey) (t : ℕ) (state : QueryState V) (receiver : ℕ) (options : QueryOptions)
      (placeholder : Option (PlaceholderData V))
      → Reach M (mounted key t state receiver options placeholder)
  then_step : {o p : QueryObserver V} → Reach M o → Step M o p → Reach M p

-- A reason is kept exactly while failures are counted; these are among the errors, the last of which
-- has its instant; an observer with an error, or fetched after it was mounted, has fetched.
pub record Consistent {V : Type 0} (o : QueryObserver V) : Type 0 where
  pub reason : is_some o.failure_reason ≡ ltb 0 o.failure_count
  pub among : o.failure_count ≤ o.error_update_count
  pub counted : o.error_update_count ≤ u32_max
  pub told : is_some_instant o.error_updated_at ≡ ltb 0 o.error_update_count
  pub fetched : o.is_fetched ≡ false → o.error_update_count ≡ 0
  pub mounted_first : o.is_fetched ≡ false → o.is_fetched_after_mount ≡ false

stale_holds :
    {V : Type 0} (now : ℕ) (o : QueryObserver V) → Consistent o → Consistent (set_stale now o)
unfolding set_stale
stale_holds now o c = elim (Option-cases (data_of o.state)) [
  | inl e ↦ rw (e, set_stale) c
  | inr (d, e) ↦
      rw (e, set_stale)
        (record {
          reason = c.reason;
          among = c.among;
          counted = c.counted;
          told = c.told;
          fetched = c.fetched;
          mounted_first = c.mounted_first;
        })
]

Step-Consistent :
    {V : Type 0} {M : Tables V} {o p : QueryObserver V} → Step M o p → Consistent o → Consistent p
unfolding set_loading set_success set_error set_stale update
Step-Consistent (loads now o) c = record {
  reason = refl;
  among = omega arith;
  counted = c.counted;
  told = c.told;
  fetched = c.fetched;
  mounted_first = c.mounted_first;
}
Step-Consistent (succeeds now d o) c = record {
  reason = refl;
  among = omega arith;
  counted = c.counted;
  told = c.told;
  fetched = λ h. cc;
  mounted_first = λ h. cc;
}
Step-Consistent (fails now e o) c = record {
  reason = ground arith;
  among = omega (arith, c.among);
  counted = omega arith;
  told = ground arith;
  fetched = λ h. cc;
  mounted_first = λ h. cc;
}
Step-Consistent (goes_stale now o) c = stale_holds now o c
Step-Consistent (updates now client o) c = record {
  reason = c.reason;
  among = c.among;
  counted = c.counted;
  told = c.told;
  fetched = c.fetched;
  mounted_first = c.mounted_first;
}

-- The bookkeeping of an observer is consistent in every state that its methods lead to.
pub observer-Consistent :
    {V : Type 0} (M : Tables V) (o : QueryObserver V) → Reach M o → Consistent o
observer-Consistent M o (mounts key t state receiver options placeholder) = record {
  reason = refl;
  among = omega arith;
  counted = omega arith;
  told = refl;
  fetched = λ h. refl;
  mounted_first = λ h. refl;
}
observer-Consistent M o (then_step r s) = Step-Consistent s (observer-Consistent M _ r)
