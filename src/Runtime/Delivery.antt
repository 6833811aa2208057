-- ===== src/Runtime/Delivery.antt =====
-- When the handle of a task aborts it, and what it gives.
use rs_query.Base.{ℕ, zero, suc, ◌≡◌, refl, ◌∙◌, Bool, true, false, not, ◌||◌, List, [], ◌∷◌, arith}
use rs_query.Runtime.{
  Answer, SpawnedTask, waiting, canceled, sent, ready, new_task, abort_task, detach_task, poll,
  drop_task, abort, detach, is_detached,
}

-- What the owner of a handle does with it before it is dropped.
pub data Action (O : Type 0) : Type 0 where
  polls : Answer O → Action O
  aborts detaches : Action O

module _ {O : Type 0} where
  abbrev pub acted : Action O → SpawnedTask O → SpawnedTask O
  acted (polls a) t = (poll a t).0
  acted aborts t = abort_task t
  acted detaches t = detach_task t

  abbrev pub run : List (Action O) → SpawnedTask O → SpawnedTask O
  run [] t = t
  run (a ∷ rest) t = run rest (acted a t)

  -- Does an action abort the task, and does one keep the drop from aborting it?
  abbrev pub any_abort : List (Action O) → Bool
  any_abort [] = false
  any_abort (aborts ∷ rest) = true
  any_abort (polls a ∷ rest) = any_abort rest
  any_abort (detaches ∷ rest) = any_abort rest

  abbrev pub any_hold : List (Action O) → Bool
  any_hold [] = false
  any_hold (aborts ∷ rest) = any_hold rest
  any_hold (polls a ∷ rest) = true
  any_hold (detaches ∷ rest) = true

  poll_marks :
      (a : Answer O) (t : SpawnedTask O)
      → ((poll a t).0.handle.aborted ≡ t.handle.aborted)
        × ((poll a t).0.handle.detached ≡ true)
        × ((poll a t).0.fallback ≡ t.fallback)
  unfolding poll
  poll_marks waiting t = ground arith
  poll_marks canceled t = ground arith
  poll_marks (sent v) t = ground arith

  dropped :
      (actions : List (Action O)) (t : SpawnedTask O)
      → (drop_task (run actions t)).aborted
        ≡ (t.handle.aborted || any_abort actions || not (t.handle.detached || any_hold actions))
  unfolding drop_task abort_task detach_task abort detach is_detached
  dropped [] t = ground arith
  dropped (polls a ∷ rest) t =
      ground (arith, dropped rest (poll a t).0, (poll_marks a t).0, (poll_marks a t).1)
  dropped (aborts ∷ rest) t = dropped rest (abort_task t) ∙ ground arith
  dropped (detaches ∷ rest) t = dropped rest (detach_task t) ∙ ground arith

  -- The polls of a task that answer with nothing.
  abbrev pub waits : ℕ → SpawnedTask O → SpawnedTask O
  waits zero t = t
  waits (suc n) t = waits n (poll waiting t).0

  waits-rx :
      (n : ℕ) (t : SpawnedTask O)
      → t.rx ≡ true
      → ((waits n t).rx ≡ true) × ((waits n t).fallback ≡ t.fallback)
  unfolding poll
  waits-rx zero t h = (h, refl)
  waits-rx (suc n) t h =
      let rest = waits-rx n (poll waiting t).0 (ground arith) in
      (rest.0, rest.1 ∙ (poll_marks waiting t).2)

  -- Dropping the handle of a spawned task leaves it aborted just if it was aborted before, or was never
  -- polled nor detached, whatever else was done with it.
  drop_aborts :
      (fallback : O) (actions : List (Action O))
      → (drop_task (run actions (new_task fallback))).aborted
        ≡ (any_abort actions || not (any_hold actions))
  unfolding new_task
  drop_aborts fallback actions = dropped actions (new_task fallback)

  -- However often it waited, a handle gives the value of its task; if the task is dropped without one,
  -- it gives the fallback, then and at every later poll.
  task_delivers :
      (fallback v : O) (n : ℕ) (later : Answer O)
      → let t = waits n (new_task fallback) in
        ((poll (sent v) t).1 ≡ ready v)
        × ((poll canceled t).1 ≡ ready fallback)
        × ((poll later (poll canceled t).0).1 ≡ ready fallback)
  unfolding new_task poll
  task_delivers fallback v n later =
      let (there, same) = waits-rx n (new_task fallback) refl in ground (arith, there, same)
