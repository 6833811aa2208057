-- ===== src/Tests/Loops.antt =====
-- The attempt loop (src/retryer.rs) at concrete inputs.
use rs_query.Base.{ℕ, ◌≡◌, ◌≢◌, refl, inl, inr, true, false, none, List, [], ◌∷◌, arith, map}
use rs_query.State.{QueryError}
use rs_query.Network.{NetworkMode}
use rs_query.Retry.{RetryDecision, Retryer, Round, run, pause, waiting}
use rs_query.Retry.Loop.{first_settled, run-first_settled}

abbrev two_retries : Retryer
two_retries = record {
  decision = RetryDecision.count 2;
  failure_count = 0;
  failure_reason = none;
  is_paused = false;
}

abbrev fails : Round ℕ
fails = record { online = true; wakes = []; outcome = inr QueryError.paused }

-- The retry starts offline, sleeps through one wake and goes on at the next.
abbrev paused_success : Round ℕ
paused_success = record {
  online = false;
  wakes =
      record { token_cancelled = false; changed_ok = true; online = false }
      ∷ record { token_cancelled = false; changed_ok = true; online = true }
      ∷ [];
  outcome = inl 7;
}

abbrev rounds : List (Round ℕ)
rounds = fails ∷ paused_success ∷ fails ∷ []

run-first_settled_example :
    (run NetworkMode.always two_retries rounds).result
    ≡ first_settled 2 (map (λ x. x.outcome) rounds)
run-first_settled_example = run-first_settled 2 2 two_retries rounds (omega arith) refl refl

-- A turn that fails, and whose pause, if there is one, is over at the second wake.
abbrev fails_again : Round ℕ
fails_again = record {
  online = false;
  wakes = paused_success.wakes;
  outcome = inr QueryError.paused;
}

pause_ends : pause fails_again.wakes ≢ waiting
unfolding pause
pause_ends e = cc
