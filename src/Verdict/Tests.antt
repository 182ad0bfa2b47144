-- ===== src/Verdict/Tests.antt =====
-- Two test cases: a program that passes both, and one that crashes on the second.
use yex_judge.Common.{
  ℕ, zero, suc, pos, true, false, none, some, [], ◌∷◌, map, Text, codes, ok, err, ◌≡◌, ◌≢◌, refl,
  ◌⊎◌, inl, inr, arith, get_elem?, text_eq, is_space, skip_space, drop_trailing, trim_space,
}
use yex_judge.Types.{TestCase, Job, JudgeResult, accepted, runtime_error}
use yex_judge.Runner.{RunResult}
use yex_judge.Verdict.{
  Sandbox, Canonical, CaseRun, restage_error, test_case_input, failed_test_case, stop_status, fetch,
  clean_up, expected_output, outputs_equal, judge_run, judge_case, compare_output, decided,
  case_round, run_cases, run_test_cases,
}
use yex_judge.Verdict.Supervisor.{
  eof, next, Document, IsComplete, ends_output, decode_supervisor_results, decode_loop, decode_one,
  check_result, to_run_result, decode_supervisor_results-IsComplete,
}
use yex_judge.Verdict.Agreement.{supervisor-agrees}
use yex_judge.Verdict.FirstFailure.{Stops, Accepts, verdict-first_failure, AllPass-accepted}

abbrev pub no_json : Canonical
no_json = record { expected_of = λ job tc. err []; unordered = λ f s. none }

abbrev pub sample_case : Text → Text → TestCase
sample_case input output = record {
  id = pos 1;
  input = input;
  expected_output = output;
  actual_output = [];
  args = [];
  expected = [];
  constructor_args = [];
  operations = [];
}

abbrev pub two_cases : Job
two_cases = record {
  language = codes "python";
  mode = [];
  source_code = codes "print(7)";
  function = none;
  class = none;
  test_cases = sample_case (codes "a") (codes "7") ∷ sample_case (codes "b") (codes "7") ∷ [];
  limits = record { time_limit_ms = pos 1000; memory_limit_mb = pos 64 };
}

abbrev pub good_run : RunResult
good_run = record {
  stdout = codes "7 ";
  stderr = [];
  exit_code = pos 0;
  timed_out = false;
  output_limit_exceeded = false;
  time_used = 3_000_000;
  memory_used = 4096;
}

abbrev crash : RunResult
crash = record good_run { exit_code = pos 1; stderr = codes "boom" }

abbrev pub runs_as : RunResult → CaseRun
runs_as r = record {
  run = ok (some r);
  reset_error = none;
  prepare_error = none;
  is_canceled = false;
}

-- The first case runs well, the others crash.
abbrev crashing : ℕ → Text → CaseRun
crashing zero input = runs_as good_run
crashing (suc i) input = runs_as crash

abbrev pub idle : Sandbox
idle = record { container_name = codes "box"; restarted = false; needs_replace = false }

abbrev crash_verdict : JudgeResult
crash_verdict = record {
  status = runtime_error;
  passed_test_cases = 1;
  total_test_cases = 2;
  runtime_ms = 3;
  memory_bytes = 4096;
  failed_test_case =
      some (record (sample_case (codes "b") (codes "7")) { actual_output = codes "7" });
  error_message = codes "boom";
}

crashing_verdict :
    run_test_cases no_json two_cases none crashing idle
    ≡ (ok crash_verdict, record idle { restarted = true })
unfolding run_test_cases run_cases case_round fetch clean_up judge_case judge_run compare_output
    stop_status expected_output outputs_equal decided restage_error test_case_input failed_test_case
    text_eq trim_space skip_space drop_trailing is_space
crashing_verdict = refl

verdict-first_failure_example :
    ((crash_verdict.status ≡ accepted)
      × Accepts no_json true two_cases none crashing 0 0 two_cases.test_cases crash_verdict)
    ⊎ ((crash_verdict.status ≢ accepted)
        × Stops no_json true two_cases none crashing 0 0 two_cases.test_cases crash_verdict)
verdict-first_failure_example =
    verdict-first_failure no_json two_cases none crashing idle (record idle { restarted = true })
      crash_verdict crashing_verdict

output_matches :
    outputs_equal no_json two_cases (trim_space (codes "7 ")) (trim_space (codes "7")) ≡ true
unfolding outputs_equal text_eq trim_space skip_space drop_trailing is_space
output_matches = refl

expected_here :
    (input : Text)
    → expected_output no_json two_cases (sample_case input (codes "7")) ≡ ok (codes "7")
unfolding expected_output
expected_here input = refl

abbrev pub working : ℕ → Text → CaseRun
working i input = runs_as good_run

no_restage_error : restage_error (runs_as good_run) ≡ none
unfolding restage_error
no_restage_error = refl

fetched : (i : ℕ) (tc : TestCase) → fetch none i tc (runs_as good_run) ≡ ok (ok (some good_run))
unfolding fetch
fetched i tc = refl

AllPass-accepted_example :
    (x : JudgeResult) × (t : Sandbox) × (run_test_cases no_json two_cases none working idle
      ≡ (ok x, t))
    × (x.status ≡ accepted)
AllPass-accepted_example =
    AllPass-accepted no_json two_cases none working idle (λ e q. absurd (ground arith))
      (
        (
          good_run,
          fetched 0 (sample_case (codes "a") (codes "7")),
          λ _. no_restage_error,
          refl,
          refl,
          refl,
          refl,
          (codes "7", expected_here (codes "a"), output_matches),
        ),
        (
          (
            good_run,
            fetched 1 (sample_case (codes "b") (codes "7")),
            λ _. no_restage_error,
            refl,
            refl,
            refl,
            refl,
            (codes "7", expected_here (codes "b"), output_matches),
          ),
          tt,
        ),
      )

abbrev printed : RunResult → Document
printed r = record {
  is_object = true;
  has_field = λ f. true;
  decoded = ok (record {
    stdout = r.stdout;
    stderr = r.stderr;
    exit_code = r.exit_code;
    cpu_ms = pos 3;
    max_rss_kb = pos 4;
    timed_out = false;
    output_limit = false;
  });
}

crash_decoded :
    decode_supervisor_results 2 (next (printed good_run) (next (printed crash) eof))
    ≡ ok (good_run ∷ crash ∷ [])
unfolding decode_supervisor_results decode_loop decode_one check_result to_run_result ends_output
crash_decoded = refl

decode_supervisor_results-IsComplete_example : IsComplete 2 (good_run ∷ crash ∷ [])
decode_supervisor_results-IsComplete_example =
    decode_supervisor_results-IsComplete 2 (next (printed good_run) (next (printed crash) eof))
      (good_run ∷ crash ∷ []) crash_decoded

crashing_run :
    (i : ℕ) (r : RunResult) (input : Text)
    → get_elem? (good_run ∷ crash ∷ []) i ≡ some r
    → (crashing i input).run ≡ ok (some r)
crashing_run zero r input h = ground arith
crashing_run (suc zero) r input h = ground arith
crashing_run (suc (suc i)) r input h = absurd (ground arith)

crashing_clean : (i : ℕ) (input : Text) → restage_error (crashing i input) ≡ none
unfolding restage_error
crashing_clean zero input = refl
crashing_clean (suc i) input = refl

crash-IsComplete : IsComplete 2 (good_run ∷ crash ∷ [])
unfolding ends_output
crash-IsComplete = inr (refl, inl (refl, refl))

supervisor-agrees_example :
    (run_test_cases no_json two_cases
      (some (ok (some (map some (good_run ∷ crash ∷ [])))))
      crashing
      idle).0
    ≡ (run_test_cases no_json two_cases none crashing idle).0
supervisor-agrees_example =
    supervisor-agrees no_json two_cases (good_run ∷ crash ∷ []) crashing idle crash-IsComplete
      crashing_run crashing_clean
