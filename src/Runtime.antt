-- ===== src/Runtime.antt =====
-- src/runtime.rs: the handles of spawned tasks. The oneshot channels and the executors are not code of
-- the repository: what a poll of a receiver answers is an argument.
pub mod Delivery
use rs_query.Base.{Bool, true, false, Option, none, some, if◌then◌else◌}

-- `SpawnHandle` with its inner state, without the receiver; `aborted` tells whether its abort function
-- has been called.
pub record SpawnHandle : Type 0 where
  pub aborted : Bool
  pub detached : Bool
  pub finished : Bool

unfoldable pub new_handle : SpawnHandle
new_handle = record { aborted = false; detached = false; finished = false }

unfoldable pub abort : SpawnHandle → SpawnHandle
abort h = record h { aborted = true }

unfoldable pub detach : SpawnHandle → SpawnHandle
detach h = record h { detached = true }

unfoldable pub is_detached : SpawnHandle → Bool
is_detached h = h.detached

-- `is_finished`; `sent` tells whether `try_recv` gives a value.
unfoldable pub is_finished : (sent : Bool) → SpawnHandle → SpawnHandle × Bool
is_finished sent h =
    if h.finished
    then (h, true)
    else if sent
    then (record h { finished = true }, true)
    else (h, false)

-- `Poll<Result<O, Canceled>>` of a receiver, and `Poll<O>`.
pub data Answer (O : Type 0) : Type 0 where
  waiting canceled : Answer O
  sent : O → Answer O

pub data Poll (O : Type 0) : Type 0 where
  pending : Poll O
  ready : O → Poll O

-- `SpawnedTask<O>`; `rx` tells whether it still has its receiver.
pub record SpawnedTask (O : Type 0) : Type 0 where
  pub handle : SpawnHandle
  pub rx : Bool
  pub fallback : O

module _ {O : Type 0} where
  unfoldable pub new_task : O → SpawnedTask O
  unfolding new_handle
  new_task fallback = record { handle = new_handle; rx = true; fallback = fallback }

  -- `SpawnedTask::abort` and `detach`.
  unfoldable pub abort_task : SpawnedTask O → SpawnedTask O
  unfolding abort
  abort_task t = record t { handle = abort t.handle }

  unfoldable pub detach_task : SpawnedTask O → SpawnedTask O
  unfolding detach
  detach_task t = record t { handle = detach t.handle }

  -- The branches of `poll` on the answer of its receiver.
  unfoldable pub answered : SpawnedTask O → Answer O → SpawnedTask O × Poll O
  answered t (sent v) = (t, ready v)
  answered t canceled = (record t { rx = false }, ready t.fallback)
  answered t waiting = (t, pending)

  unfoldable pub poll : Answer O → SpawnedTask O → SpawnedTask O × Poll O
  unfolding answered detach
  poll answer t =
      let t' = record t { handle = detach t.handle } in
      if t.rx then answered t' answer else (t', ready t.fallback)

  -- `Drop`.
  unfoldable pub drop_task : SpawnedTask O → SpawnHandle
  unfolding abort is_detached
  drop_task t = if is_detached t.handle then t.handle else abort t.handle
