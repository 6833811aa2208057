-- ===== src/QueriesObserver/Orphans.antt =====
-- Tasks that were spawned before the specs of an observer were replaced.
use rs_query.Base.{
  ℕ, ◌<◌, ◌≡◌, refl, sym, ap, ◌∙◌, Bool, false, List, [], ◌∷◌, ◌==◌, for_each, All, arith,
}
use rs_query.State.{QueryState}
use rs_query.Client.Core.{Tables}
use rs_query.QueriesObserver.{
  Spec, Slots, Task, QueriesObserver, World, rebuilt, replaced, set_specs, deposit, sync, results,
  fold_slots, all_some,
}
use rs_query.QueriesObserver.Marks.{run_indices-marks}

module _ {V : Type 0} (M : Tables V) where
  -- The ends of tasks, in their order.
  abbrev pub deposits : List (Task × QueryState V) → World M → World M
  deposits ends = for_each ends (λ p. deposit M p.0 p.1)

  abbrev Elsewhere : ℕ → List (Task × QueryState V) → Type 0
  Elsewhere a ends = All (λ p. (a == p.0.buffer) ≡ false) ends

  deposits_elsewhere :
      (a : ℕ) (ends : List (Task × QueryState V)) (w : World M)
      → Elsewhere a ends
      → ((deposits ends w).observer ≡ w.observer) × ((deposits ends w).buffers a ≡ w.buffers a)
  unfolding for_each deposit
  deposits_elsewhere a [] w h = (refl, refl)
  deposits_elsewhere a ((t, s) ∷ ends) w h =
      let (o, b) = deposits_elsewhere a ends (deposit M t s w) h.1 in (o, b ∙ rw h.0)

  sync_elsewhere :
      (a : ℕ) (ends : List (Task × QueryState V)) (w : World M)
      → w.observer.completed ≡ a
      → Elsewhere a ends
      → results M (sync M (deposits ends w)) ≡ results M (sync M w)
  unfolding sync results
  sync_elsewhere a ends w e h =
      let (o, b) = deposits_elsewhere a ends w h in
      let at : QueriesObserver V → (ℕ → Slots V) → List (QueryState V) =
        λ q buffers. fold_slots (buffers q.completed) q.results in
      ap (λ q. at q (deposits ends w).buffers) o
      ∙ ap (λ x. fold_slots ((deposits ends w).buffers x) w.observer.results) e
      ∙ ap (λ slots. fold_slots slots w.observer.results) b
      ∙ ap (λ x. fold_slots (w.buffers x) w.observer.results) (sym e)

  older :
      (n : ℕ) (ends : List (Task × QueryState V))
      → All (λ p. p.0.buffer < n) ends
      → Elsewhere n ends
  older n [] h = tt
  older n ((t, s) ∷ ends) h = (ground (arith, h.0), older n ends h.1)

  set_specs_address :
      (beq : ℕ → V → V → Bool) (now : ℕ) (specs : List (Spec V)) (w : World M)
      → (set_specs M beq now specs w).0.observer.completed ≡ w.next_buffer
  unfolding set_specs
  set_specs_address beq now specs w =
      let r =
        rebuilt M beq now w.observer.specs (w.buffers w.observer.completed) 0 specs
          (all_some w.observer.results) w.client in
      ap (λ v. v.observer.completed) (run_indices-marks M r.new_indices (replaced M specs r w))

  -- Once the specs have been replaced, be it by the same ones, whatever the tasks spawned before come to
  -- never reaches the results: a `sync` after the ends of any of them gives what it gives without them,
  -- also for the queries that were kept and are marked as loading.
  pub set_specs_orphans :
      (beq : ℕ → V → V → Bool) (now : ℕ) (specs : List (Spec V)) (w : World M)
      (ends : List (Task × QueryState V))
      → All (λ p. p.0.buffer < w.next_buffer) ends
      → results M (sync M (deposits ends (set_specs M beq now specs w).0))
        ≡ results M (sync M (set_specs M beq now specs w).0)
  set_specs_orphans beq now specs w ends h =
      sync_elsewhere w.next_buffer ends (set_specs M beq now specs w).0
        (set_specs_address beq now specs w) (older w.next_buffer ends h)
