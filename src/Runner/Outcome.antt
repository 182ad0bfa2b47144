-- ===== src/Runner/Outcome.antt =====
-- What a run reports of the process.
use yex_judge.Common.{
  ◌≡◌, ◌≢◌, ◌⊎◌, ◌<◌, ℤ, ◌||◌, none, some, List, [], ok, Text, All, length, take, ltb, lt→ltb,
  arith, inl, inr, ◌∙◌, true,
}
use yex_judge.Output.{written}
use yex_judge.Output.Capture.{limited_write-capture}
use yex_judge.Runner.{
  RunResult, Execution, default_output_limit_bytes, exit_error, is_deadline, captured, finished,
  gives_up, run,
}

captured-exceeded :
    (ps : List Text)
    → All (λ p. p ≢ []) ps
    → ((captured ps).buffer ≡ take default_output_limit_bytes (written ps))
      × ((captured ps).exceeded ≡ ltb default_output_limit_bytes (length (written ps)))
unfolding captured
captured-exceeded ps ne =
    let v = limited_write-capture default_output_limit_bytes ps ne in (v.0, v.1)

is_exceeded :
    (ps : List Text)
    → All (λ p. p ≢ []) ps
    → default_output_limit_bytes < length (written ps)
    → (captured ps).exceeded ≡ true
is_exceeded ps ne long =
    (captured-exceeded ps ne).1 ∙ lt→ltb default_output_limit_bytes (length (written ps)) long

eq_finished : (x : Execution) (r : RunResult) → run x ≡ ok r → r ≡ finished x
unfolding run
eq_finished x r h = ground arith

-- A run that returns a result reports the first 64 KiB of each stream, flags the output limit
-- exactly when a stream was longer, and flags a timeout exactly when the caller's deadline passed.
pub run-reports :
    (x : Execution) (r : RunResult)
    → All (λ p. p ≢ []) x.stdout_chunks
    → All (λ p. p ≢ []) x.stderr_chunks
    → run x ≡ ok r
    → (r.stdout ≡ take default_output_limit_bytes (written x.stdout_chunks))
      × (r.stderr ≡ take default_output_limit_bytes (written x.stderr_chunks))
      × (r.output_limit_exceeded ≡ (
          ltb default_output_limit_bytes (length (written x.stdout_chunks))
          || ltb default_output_limit_bytes (length (written x.stderr_chunks))))
      × (r.timed_out ≡ is_deadline x.ctx_error)
unfolding finished
run-reports x r ho he h =
    let e = eq_finished x r h in
    let o = captured-exceeded x.stdout_chunks ho in
    let s = captured-exceeded x.stderr_chunks he in (cc, cc, cc, cc)

-- A command that started yields a result whenever the caller's context ended the run or one of its
-- streams was longer than 64 KiB, however `Wait` ended, and whenever `Wait` reported an exit status.
pub run-returns :
    (x : Execution)
    → All (λ p. p ≢ []) x.stdout_chunks
    → All (λ p. p ≢ []) x.stderr_chunks
    → x.start_error ≡ none
    → (x.ctx_error ≢ none)
      ⊎ (default_output_limit_bytes < length (written x.stdout_chunks))
      ⊎ (default_output_limit_bytes < length (written x.stderr_chunks))
      ⊎ ((c : ℤ) × (x.wait_error ≡ some (exit_error c)))
    → (r : RunResult) × (run x ≡ ok r)
unfolding run gives_up
run-returns x ho he started (inl ended) = (finished x, ground arith)
run-returns x ho he started (inr (inl long)) =
    let full = is_exceeded x.stdout_chunks ho long in (finished x, ground arith)
run-returns x ho he started (inr (inr (inl long))) =
    let full = is_exceeded x.stderr_chunks he long in (finished x, ground arith)
run-returns x ho he started (inr (inr (inr (c, e)))) = (finished x, ground arith)
