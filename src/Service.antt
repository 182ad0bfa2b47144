-- ===== src/Service.antt =====
-- `Service.ProcessSubmission` (internal/judge/service.go): one worker's processing of a claimed
-- submission, over the validation, the store and the judging of test cases. What the file system,
-- the compiler and the sandbox pool answer is the argument `World`, and so is what other
-- transactions make of the table before each of this one's updates.
pub mod Releases
pub mod Reports
pub mod Updates
pub mod Tests
use yex_judge.Common.{
  ℕ, ◌+◌, pos, eq_ℤ, Bool, true, false, ◌||◌, Option, none, some, List, [], ◌∷◌, ◌++◌, Text, codes,
  Result, ok, err, length, if◌then◌else◌,
}
use yex_judge.Types.{
  Job, Status, JudgeResult, Submission, running, finished, failed, validation_error,
  compilation_error, output_limit_exceeded, infrastructure_error,
}
use yex_judge.Languages.{Spec, get_spec}
use yex_judge.Job.{Metadata, JobError, validate_job}
use yex_judge.Runner.{RunResult}
use yex_judge.Store.{Table}
use yex_judge.Store.Queue.{StoreError, Fault, update}
use yex_judge.Verdict.{Sandbox, Canonical, CaseRun, run_test_cases}

pub record World : Type 0 where
  -- Of the store: the fault and the time of the k-th update, and what happened before it.
  pub fault : ℕ → Fault
  pub time : ℕ → ℕ
  pub others : ℕ → Table → Table
  -- createWorkspace.
  pub workspace_error : Option Text
  -- The compile pool, and whether the context had ended when it answered.
  pub compile : Result Text RunResult
  pub compile_canceled : Bool
  -- Acquire, PrepareSandbox and the runs of the test cases.
  pub acquire : Result Text Sandbox
  pub prepare_error : Option Text
  pub supervisor : Option (Result Text (Option (List (Option RunResult))))
  pub cases : ℕ → Text → CaseRun

-- What the service was built with.
pub record Setup : Type 0 where
  pub registry : List Spec
  pub metadata : Metadata
  pub canonical : Canonical
  -- The text of a validation error.
  pub error_text : JobError → Text

-- What processing leaves: the value returned, the table, the submissions given to `Update`, and the
-- sandboxes that `Acquire` gave and that were given to `Release`, in order.
pub record Processed : Type 0 where
  pub outcome : Result StoreError JudgeResult
  pub table : Table
  pub updates : List Submission
  pub acquired : List Sandbox
  pub released : List Sandbox

-- A verdict that ran no test case.
unfoldable pub unjudged : Submission → Status → Text → JudgeResult
unjudged sub status message = record {
  status = status;
  passed_test_cases = 0;
  total_test_cases = length sub.job.test_cases;
  runtime_ms = 0;
  memory_bytes = 0;
  failed_test_case = none;
  error_message = message;
}

abbrev pub internal_message : Text
internal_message = codes "An internal error occurred while judging this submission. Please retry."

abbrev pub is_infrastructure : Status → Bool
is_infrastructure infrastructure_error = true
is_infrastructure _ = false

abbrev pub forget_error {ℓ κ} : {E : Type ℓ} {A : Type κ} → Result E A → Result Text A
forget_error (ok a) = ok a
forget_error (err e) = err []

module _ (setup : Setup) (w : World) where
  -- The k-th call of `Update`, at the end of processing: its error, or the result.
  unfoldable pub last_update :
      ℕ → Submission → JudgeResult → List Submission → List Sandbox → Table → Processed
  last_update k sub result before released t = record {
    outcome = elim (update (w.fault k) (w.time k) sub (w.others k t)) [
      | ok u ↦ ok result
      | err e ↦ err e
    ];
    table = elim (update (w.fault k) (w.time k) sub (w.others k t)) [
      | ok u ↦ u
      | err e ↦ w.others k t
    ];
    updates = before ++ sub ∷ [];
    acquired = [];
    released = released;
  }

  -- A verdict ends the submission.
  unfoldable pub finish :
      ℕ → Submission → JudgeResult → List Submission → List Sandbox → Table → Processed
  finish k sub result before released t =
      last_update k (record sub { status = finished; result = some result }) result before released
        t

  -- infrastructureFailure.
  unfoldable pub infrastructure_failure :
      ℕ → Submission → List Submission → List Sandbox → Table → Processed
  infrastructure_failure k sub before released t =
      let result = unjudged sub infrastructure_error internal_message in
      last_update k
        (record sub { status = failed; result = some result; failure_message = internal_message })
        result before released t

  -- From the judged test cases on.
  unfoldable pub conclude :
      Submission → Result Text JudgeResult → List Submission → List Sandbox → Table → Processed
  conclude sub (err e) before released t = infrastructure_failure 1 sub before released t
  conclude sub (ok r) before released t =
      if is_infrastructure r.status
      then infrastructure_failure 1 sub before released t
      else finish 1 sub r before released t

  -- From the acquired sandbox on: its release is deferred.
  unfoldable pub judge_in : Submission → List Submission → Sandbox → Table → Processed
  judge_in sub before s t = elim w.prepare_error [
    | some e ↦ infrastructure_failure 1 sub before (s ∷ []) t
    | none ↦
        let r = run_test_cases setup.canonical sub.job w.supervisor w.cases s in
        conclude sub (forget_error r.0) before (r.1 ∷ []) t
  ]

  unfoldable pub acquire_and_judge : Submission → List Submission → Table → Processed
  acquire_and_judge sub before t = elim w.acquire [
    | err e ↦ infrastructure_failure 1 sub before [] t
    | ok s ↦ record (judge_in sub before s t) { acquired = s ∷ [] }
  ]

  -- The compiler's answer.
  unfoldable pub after_compile : Submission → RunResult → List Submission → Table → Processed
  after_compile sub r before t =
      if w.compile_canceled || r.timed_out
      then infrastructure_failure 1 sub before [] t
      else if r.output_limit_exceeded
      then finish 1 sub
          (unjudged sub output_limit_exceeded (codes "compiler output exceeded the allowed limit"))
          before [] t
      else if eq_ℤ r.exit_code (pos 125)
      then infrastructure_failure 1 sub before [] t
      else if eq_ℤ r.exit_code (pos 0)
      then acquire_and_judge sub before t
      else finish 1 sub (unjudged sub compilation_error r.stderr) before [] t

  unfoldable pub compile_and_judge : Submission → Spec → List Submission → Table → Processed
  compile_and_judge sub spec before t =
      if spec.needs_compile
      then elim w.compile [
        | err e ↦ infrastructure_failure 1 sub before [] t
        | ok r ↦ after_compile sub r before t
      ]
      else acquire_and_judge sub before t

  -- From the submission marked running on.
  unfoldable pub process_running : Submission → Spec → Table → Processed
  process_running sub spec t =
      let update_result = update (w.fault 0) (w.time 0) sub (w.others 0 t) in
      elim update_result [
        | err e ↦ record {
          outcome = err e;
          table = w.others 0 t;
          updates = sub ∷ [];
          acquired = [];
          released = [];
        }
        | ok u ↦ elim w.workspace_error [
          | some e ↦ infrastructure_failure 1 sub (sub ∷ []) [] u
          | none ↦ compile_and_judge sub spec (sub ∷ []) u
        ]
      ]

  unfoldable pub process_submission : Submission → Table → Processed
  process_submission sub t = elim (validate_job setup.metadata sub.job) [
    | err e ↦ finish 0 sub (unjudged sub validation_error (setup.error_text e)) [] [] t
    | ok _ ↦ elim (get_spec setup.registry sub.job.language) [
      | none ↦ finish 0 sub (unjudged sub validation_error (codes "unsupported language")) [] [] t
      | some spec ↦ process_running (record sub { status = running }) spec t
    ]
  ]
