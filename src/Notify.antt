-- ===== src/Notify.antt =====
-- src/notify_manager.rs: the queue of notifications and its batches. A callback acts on a state `W` of
-- the program, and does not notify or batch itself; the depth does not wrap.
pub mod Batches
use rs_query.Base.{ℕ, suc, ◌-◌, List, [], ◌∷◌, ◌++◌, ◌==◌, if◌then◌else◌, length}

-- `NotifyManager`, with the state that its callbacks act on.
pub record NotifyManager (W : Type 0) : Type 0 where
  pub queue : List (W → W)
  pub batch_depth : ℕ
  pub program : W

-- `for callback in pending { callback() }`.
abbrev pub call_all : {W : Type 0} → List (W → W) → W → W
call_all [] w = w
call_all (f ∷ fs) w = call_all fs (f w)

unfoldable pub flush : {W : Type 0} → NotifyManager W → NotifyManager W
flush m = record m { queue = []; program = call_all m.queue m.program }

unfoldable pub notify : {W : Type 0} → (W → W) → NotifyManager W → NotifyManager W
unfolding flush
notify callback m =
    let queued = record m { queue = m.queue ++ callback ∷ [] } in
    if queued.batch_depth == 0 then flush queued else queued

-- The end of `batch`.
abbrev pub close : {W : Type 0} → NotifyManager W → NotifyManager W
close after =
    let closed = record after { batch_depth = after.batch_depth - 1 } in
    if after.batch_depth == 1 then flush closed else closed

unfoldable pub batch :
    {W : Type 0} → (NotifyManager W → NotifyManager W) → NotifyManager W → NotifyManager W
batch body m = close (body (record m { batch_depth = suc m.batch_depth }))

unfoldable pub pending : {W : Type 0} → NotifyManager W → ℕ
pending m = length m.queue
