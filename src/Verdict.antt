-- ===== src/Verdict.antt =====
-- The judging of one submission's test cases: `runTestCases` and `runTestCasesWithSandboxReset`
-- (internal/judge/testcases.go). What the sandbox does with a test case is an argument: the result
-- of the run on its input, the errors of the cleanup behind it, and whether the submission's context
-- had ended when the result came. A string here is the list of its runes.
pub mod Supervisor
pub mod Rounds
pub mod Passing
pub mod FirstFailure
pub mod Agreement
pub mod Containers
pub mod Tests
use yex_judge.Common.{
  ℕ, ◌+◌, ◌*◌, ◌/◌, ℤ, pos, negsuc, eq_ℤ, ltb_ℤ, is_nonpos, to_nat, Bool, true, false, not, ◌&&◌,
  ◌||◌, Option, none, some, List, [], ◌∷◌, Text, codes, text_eq, trim_space, Result, ok, err, leb,
  ltb, if◌then◌else◌, length, get_elem?, itoa,
}
use yex_judge.Types.{
  TestCase, FunctionSpec, Limits, Job, Status, JudgeResult, accepted, wrong_answer,
  time_limit_exceeded, runtime_error, memory_limit_exceeded, output_limit_exceeded,
  infrastructure_error,
}
use yex_judge.Types.Mode.{is_some}
use yex_judge.Runner.{RunResult}

-- `Sandbox` (internal/judge/types.go).
pub record Sandbox : Type 0 where
  pub container_name : Text
  pub restarted : Bool
  pub needs_replace : Bool

-- The JSON of the function and class harness: the expected output of a case with such metadata,
-- and an output with the returned array sorted.
pub record Canonical : Type 0 where
  pub expected_of : Job → TestCase → Result Text Text
  pub unordered : FunctionSpec → Text → Option Text

pub data RestageError : Type 0 where
  restart_failed restage_failed : Text → RestageError

pub data JudgeError : Type 0 where
  supervisor_failed run_failed no_expected : Text → JudgeError
  missing_result no_run_result : ℤ → JudgeError
  cleanup_failed : ℤ → RestageError → JudgeError
  run_and_cleanup_failed : ℤ → Text → RestageError → JudgeError

-- What one test case meets: `RunTestCase`, `ResetSandbox`, `PrepareSandbox`, `ctx.Err() != nil`.
pub record CaseRun : Type 0 where
  pub run : Result Text (Option RunResult)
  pub reset_error : Option Text
  pub prepare_error : Option Text
  pub is_canceled : Bool

-- resetAndRestageSandbox.
unfoldable pub restage_error : CaseRun → Option RestageError
restage_error w = elim w.reset_error [
  | some e ↦ some (restart_failed e)
  | none ↦ elim w.prepare_error [ some e ↦ some (restage_failed e) | none ↦ none ]
]

-- testCaseInput: a harness reads the id, another program the input.
unfoldable pub test_case_input : Job → TestCase → Text
test_case_input job tc = if is_some job.function || is_some job.class then itoa tc.id else tc.input

-- failedTestCase.
unfoldable pub failed_test_case : TestCase → Text → TestCase
failed_test_case tc output = record tc { actual_output = trim_space output }

-- The early returns for a run result before its output is compared: a status and a message.
unfoldable pub stop_status : Bool → Limits → RunResult → Option (Status × Text)
stop_status is_canceled limits r =
    if is_canceled
    then some (infrastructure_error, codes "program execution was canceled")
    else if r.output_limit_exceeded
    then some (output_limit_exceeded, codes "program output exceeded the allowed limit")
    else if r.timed_out
    then some (time_limit_exceeded, [])
    else if eq_ℤ r.exit_code (negsuc 0)
        && (not (is_nonpos limits.memory_limit_mb)
            && leb (to_nat limits.memory_limit_mb * 1024 * 1024 * 9 / 10) r.memory_used)
    then some (memory_limit_exceeded, [])
    else if eq_ℤ r.exit_code (pos 0)
    then none
    else some (runtime_error, r.stderr)

abbrev pub larger : ℕ → ℕ → ℕ
larger a b = if ltb b a then a else b

-- The loop's variables.
pub record Progress : Type 0 where
  pub passed : ℕ
  pub max_runtime_ms : ℕ
  pub max_memory_bytes : ℕ

abbrev pub no_progress : Progress
no_progress = record { passed = 0; max_runtime_ms = 0; max_memory_bytes = 0 }

pub data CaseOutcome : Type 0 where
  breaks : JudgeError → CaseOutcome
  decides : JudgeResult → CaseOutcome
  passes : Progress → CaseOutcome

abbrev pub milliseconds : ℕ → ℕ
milliseconds t = t / 1_000_000

-- The run result of case `i`, when the supervisor ran all of them and when the case runs now.
unfoldable pub fetch :
    Option (List (Option RunResult))
    → ℕ
    → TestCase
    → CaseRun
    → Result JudgeError (Result Text (Option RunResult))
fetch none i tc w = ok w.run
fetch (some rs) i tc w = elim (get_elem? rs i) [
  | none ↦ err (missing_result tc.id)
  | some r ↦ ok (ok r)
]

-- The cleanup behind a case, and what it leaves in the sandbox's flags.
unfoldable pub clean_up :
    Bool
    → TestCase
    → CaseRun
    → Result Text (Option RunResult)
    → Sandbox
    → Option JudgeError × Sandbox
clean_up false tc w run s = (none, s)
clean_up true tc w run s = elim (restage_error w) [
  | none ↦ (none, record s { restarted = true })
  | some e ↦ (
    some (elim run [ err x ↦ run_and_cleanup_failed tc.id x e | ok r ↦ cleanup_failed tc.id e ]),
    record s { needs_replace = true },
  )
]

-- The result of a case that ends the loop.
unfoldable pub decided : ℕ → ℕ → ℕ → RunResult → Option TestCase → Status → Text → JudgeResult
decided total passed memory r failed status message = record {
  status = status;
  passed_test_cases = passed;
  total_test_cases = total;
  runtime_ms = milliseconds r.time_used;
  memory_bytes = memory;
  failed_test_case = failed;
  error_message = message;
}

module _ (canon : Canonical) where
  -- testCaseExpectedOutput.
  unfoldable pub expected_output : Job → TestCase → Result Text Text
  expected_output job tc =
      if is_some job.function || is_some job.class
      then canon.expected_of job tc
      else ok tc.expected_output

  abbrev both_equal : Option Text → Option Text → Bool
  both_equal (some a) (some e) = text_eq a e
  both_equal _ _ = false

  abbrev is_unordered : FunctionSpec → Bool
  is_unordered f = elim f.comparison [
    | none ↦ false
    | some c ↦ text_eq c.return_array_order (codes "unordered")
  ]

  -- functionOutputsEqual.
  unfoldable pub outputs_equal : Job → Text → Text → Bool
  outputs_equal job actual expected = elim job.function [
    | none ↦ text_eq actual expected
    | some f ↦
        if is_unordered f
        then both_equal (canon.unordered f actual) (canon.unordered f expected)
        else text_eq actual expected
  ]

  -- The comparison of a run that ended well.
  unfoldable pub compare_output : Job → ℕ → TestCase → RunResult → ℕ → Progress → Text → CaseOutcome
  compare_output job total tc r memory p expected =
      if outputs_equal job (trim_space r.stdout) (trim_space expected)
      then passes (record {
        passed = p.passed + 1;
        max_runtime_ms = larger (milliseconds r.time_used) p.max_runtime_ms;
        max_memory_bytes = memory;
      })
      else decides (
          decided total p.passed memory r (some (failed_test_case tc (trim_space r.stdout)))
            wrong_answer [])

  -- The verdict on a run result.
  unfoldable pub judge_run : Job → ℕ → TestCase → Bool → RunResult → Progress → CaseOutcome
  judge_run job total tc is_canceled r p =
      let memory = larger r.memory_used p.max_memory_bytes in
      elim (stop_status is_canceled job.limits r) [
        | some (status, message) ↦
            decides
              (decided total p.passed memory r (some (failed_test_case tc r.stdout)) status message)
        | none ↦ elim (expected_output job tc) [
          | err e ↦ breaks (no_expected e)
          | ok expected ↦ compare_output job total tc r memory p expected
        ]
      ]

  -- The rest of a case behind its cleanup.
  unfoldable pub judge_case :
      Job → ℕ → TestCase → Bool → Result Text (Option RunResult) → Progress → CaseOutcome
  judge_case job total tc is_canceled (err e) p = breaks (run_failed e)
  judge_case job total tc is_canceled (ok none) p = breaks (no_run_result tc.id)
  judge_case job total tc is_canceled (ok (some r)) p = judge_run job total tc is_canceled r p

  -- One round of the loop.
  unfoldable pub case_round :
      Bool
      → Job
      → ℕ
      → TestCase
      → CaseRun
      → Result JudgeError (Result Text (Option RunResult))
      → Sandbox
      → Progress
      → CaseOutcome × Sandbox
  case_round reset job total tc w (err e) s p = (breaks e, s)
  case_round reset job total tc w (ok run) s p =
      let c = clean_up reset tc w run s in
      elim c.0 [
        | some e ↦ (breaks e, c.1)
        | none ↦ (judge_case job total tc w.is_canceled run p, c.1)
      ]

  unfoldable pub accept : ℕ → Progress → JudgeResult
  accept total p = record {
    status = accepted;
    passed_test_cases = p.passed;
    total_test_cases = total;
    runtime_ms = p.max_runtime_ms;
    memory_bytes = p.max_memory_bytes;
    failed_test_case = none;
    error_message = [];
  }

  -- The loop from case `i` on.
  unfoldable pub run_cases :
      Bool
      → Job
      → ℕ
      → Option (List (Option RunResult))
      → (ℕ → Text → CaseRun)
      → ℕ
      → List TestCase
      → Sandbox
      → Progress
      → Result JudgeError JudgeResult × Sandbox
  run_cases reset job total rs world i [] s p = (ok (accept total p), s)
  run_cases reset job total rs world i (tc ∷ tcs) s p =
      let w = world i (test_case_input job tc) in
      let round = case_round reset job total tc w (fetch rs i tc w) s p in
      elim round.0 [
        | breaks e ↦ (err e, round.1)
        | decides r ↦ (ok r, round.1)
        | passes q ↦ run_cases reset job total rs world (i + 1) tcs round.1 q
      ]

  -- runTestCases: `some` is an executor with a supervisor and what its RunTestCases returns, where
  -- a nil slice is `none`; an executor without one has its sandbox reset behind every case.
  unfoldable pub run_test_cases :
      Job
      → Option (Result Text (Option (List (Option RunResult))))
      → (ℕ → Text → CaseRun)
      → Sandbox
      → Result JudgeError JudgeResult × Sandbox
  run_test_cases job none world s =
      run_cases true job (length job.test_cases) none world 0 job.test_cases s no_progress
  run_test_cases job (some (err e)) world s = (err (supervisor_failed e), s)
  run_test_cases job (some (ok rs)) world s =
      run_cases false job (length job.test_cases) rs world 0 job.test_cases s no_progress
