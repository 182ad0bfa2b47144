-- ===== src/Runner/Tests.antt =====
-- A run that is killed for printing, and one that exits by itself.
use yex_judge.Common.{
  ◌≡◌, refl, inr, ◌||◌, none, some, [], ◌∷◌, ok, negsuc, codes, length, take, ltb,
}
use yex_judge.Output.{written}
use yex_judge.Runner.{
  RunResult, exit_error, deadline_exceeded, Execution, default_output_limit_bytes, is_deadline,
  finished, run,
}
use yex_judge.Runner.Outcome.{run-reports, run-returns}

-- The exit status is -1 for a process that a signal killed.
abbrev timed_out_run : Execution
timed_out_run = record {
  start_error = none;
  stdout_chunks = codes "7" ∷ [];
  stderr_chunks = [];
  wait_error = some (exit_error (negsuc 0));
  ctx_error = some deadline_exceeded;
  elapsed = 1000;
}

run_killed : run timed_out_run ≡ ok (finished timed_out_run)
unfolding run
run_killed = refl

run-reports_example :
    let r = finished timed_out_run in
    (r.stdout ≡ take default_output_limit_bytes (written (codes "7" ∷ [])))
    × (r.stderr ≡ take default_output_limit_bytes (written []))
    × (r.output_limit_exceeded ≡ (
        ltb default_output_limit_bytes (length (written (codes "7" ∷ [])))
        || ltb default_output_limit_bytes (length (written []))))
    × (r.timed_out ≡ is_deadline (some deadline_exceeded))
run-reports_example = run-reports timed_out_run (finished timed_out_run) (λ e. cc, tt) tt run_killed

run-returns_example : (r : RunResult) × (run timed_out_run ≡ ok r)
run-returns_example =
    run-returns timed_out_run (λ e. cc, tt) tt refl (inr (inr (inr (negsuc 0, refl))))
