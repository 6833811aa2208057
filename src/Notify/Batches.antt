-- ===== src/Notify/Batches.antt =====
-- When the callbacks of nested batches run.
use rs_query.Base.{
  ℕ, suc, ◌≡◌, false, refl, sym, ap, ◌∙◌, List, [], ◌∷◌, ◌++◌, ◌==◌, arith, append_assoc,
  append-nil,
}
use rs_query.Notify.{NotifyManager, call_all, flush, notify, close, batch}

-- What a program does with the manager: it notifies, runs batches, and goes on.
pub data Script (W : Type 0) : Type 0 where
  done : Script W
  notify_then : (W → W) → Script W → Script W
  batch_then : Script W → Script W → Script W

abbrev pub run : {W : Type 0} → Script W → NotifyManager W → NotifyManager W
run done m = m
run (notify_then f rest) m = run rest (notify f m)
run (batch_then inner rest) m = run rest (batch (run inner) m)

-- The callbacks of a script in the order in which they are submitted.
abbrev pub callbacks : {W : Type 0} → Script W → List (W → W)
callbacks done = []
callbacks (notify_then f rest) = f ∷ callbacks rest
callbacks (batch_then inner rest) = callbacks inner ++ callbacks rest

abbrev at_depth : {W : Type 0} → ℕ → List (W → W) → W → NotifyManager W
at_depth depth queue w = record { queue = queue; batch_depth = depth; program = w }

notify_inside :
    {W : Type 0} (f : W → W) (depth : ℕ) (q : List (W → W)) (w : W)
    → notify f (at_depth (suc depth) q w) ≡ at_depth (suc depth) (q ++ f ∷ []) w
unfolding notify
notify_inside f depth q w =
    let inner : (suc depth == 0) ≡ false = ground arith in rw (inner, notify)

close_inside :
    {W : Type 0} (depth : ℕ) (q : List (W → W)) (w : W)
    → close (at_depth (suc (suc depth)) q w) ≡ at_depth (suc depth) q w
close_inside depth q w =
    let inner : (suc (suc depth) == 1) ≡ false = ground arith in
    rw inner (ap (λ d. at_depth d q w) (omega arith))

-- Inside a batch callbacks are queued only.
run_inside :
    {W : Type 0} (s : Script W) (depth : ℕ) (q : List (W → W)) (w : W)
    → run s (at_depth (suc depth) q w) ≡ at_depth (suc depth) (q ++ callbacks s) w
unfolding notify batch
run_inside done depth q w = ap (λ l. at_depth (suc depth) l w) (sym (append-nil q))
run_inside (notify_then f rest) depth q w =
    ap (run rest) (notify_inside f depth q w)
    ∙ run_inside rest depth (q ++ f ∷ []) w
    ∙ ap (λ l. at_depth (suc depth) l w) (append_assoc q (f ∷ []) (callbacks rest))
run_inside (batch_then inner rest) depth q w =
    ap (λ a. run rest (close a)) (run_inside inner (suc depth) q w)
    ∙ ap (run rest) (close_inside depth (q ++ callbacks inner) w)
    ∙ run_inside rest depth (q ++ callbacks inner) w
    ∙ ap (λ l. at_depth (suc depth) l w) (append_assoc q (callbacks inner) (callbacks rest))

call_all-append :
    {W : Type 0} (fs gs : List (W → W)) (w : W)
    → call_all (fs ++ gs) w ≡ call_all gs (call_all fs w)
call_all-append [] gs w = refl
call_all-append (f ∷ fs) gs w = call_all-append fs gs (f w)

run_outside :
    {W : Type 0} (s : Script W) (w : W)
    → run s (at_depth 0 [] w) ≡ at_depth 0 [] (call_all (callbacks s) w)
unfolding notify batch flush
run_outside done w = refl
run_outside (notify_then f rest) w = run_outside rest (f w)
run_outside (batch_then inner rest) w =
    ap (λ a. run rest (close a)) (run_inside inner 0 [] w)
    ∙ run_outside rest (call_all (callbacks inner) w)
    ∙ ap (at_depth 0 []) (sym (call_all-append (callbacks inner) (callbacks rest) w))

-- Outside any batch, with nothing queued, every callback has run when a script is over, each once
-- and in the order in which they were submitted, however the batches are nested; inside a batch none
-- of them has run, and they are queued in that order.
pub run-callbacks :
    {W : Type 0} (s : Script W) (depth : ℕ) (q : List (W → W)) (w : W)
    → (run s (record { queue = []; batch_depth = 0; program = w })
        ≡ record { queue = []; batch_depth = 0; program = call_all (callbacks s) w })
      × (run s (record { queue = q; batch_depth = suc depth; program = w })
          ≡ record { queue = q ++ callbacks s; batch_depth = suc depth; program = w })
run-callbacks s depth q w = (run_outside s w, run_inside s depth q w)
