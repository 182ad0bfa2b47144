-- ===== src/Job.antt =====
-- `ValidateJob` (internal/judge/validate.go) on the bounds, the mode and the limits of a job. What
-- the harness generators say of function and class metadata is the parameter `Metadata`.
pub mod Accepted
pub mod Tests
use yex_judge.Common.{
  ℕ, ◌+◌, ℤ, is_nonpos, ltb_ℤ, pos, Bool, true, false, not, ◌&&◌, Option, none, some, List, [], ◌∷◌,
  Text, codes, text_eq, Result, ok, err, ◌>>=◌, ◌>>◌, reject_if, ltb, ◌==◌, length, if◌then◌else◌,
}
use yex_judge.Types.{Job, TestCase}
use yex_judge.Types.Mode.{
  mode_stdin, mode_function, mode_class, is_some, execution_mode, valid_mode,
}
use yex_judge.Languages.{get_spec, default_registry}

-- The errors of `generateModeProgram`, of `buildCppClassHarness`, and of validateFunctionJob's
-- checks of C++ metadata.
pub record Metadata : Type 0 where
  pub generator_error : Job → Option Text
  pub class_harness_error : Job → Option Text
  pub function_error : Job → Option Text

pub data JobError : Type 0 where
  language_required function_required function_forbidden class_required class_forbidden : JobError
  source_required no_test_cases time_limit_low time_limit_high : JobError
  memory_limit_low memory_limit_high source_too_large too_many_test_cases : JobError
  function_language class_language : JobError
  unsupported_language unsupported_mode mode_not_implemented : Text → JobError
  metadata_error : Text → JobError
  input_too_large expected_output_too_large : ℕ → JobError

abbrev pub max_time_limit_ms : ℕ
max_time_limit_ms = 10_000

abbrev pub max_memory_limit_mb : ℕ
max_memory_limit_mb = 512

abbrev pub max_test_cases : ℕ
max_test_cases = 500

abbrev pub max_text_bytes : ℕ
max_text_bytes = 100_000

abbrev metadata_result : Option Text → Result JobError (Unit {0})
metadata_result none = ok tt
metadata_result (some e) = err (metadata_error e)

-- The loop over the test cases of a job without metadata, from case `i` on.
unfoldable pub validate_cases : ℕ → List TestCase → Result JobError (Unit {0})
validate_cases i [] = ok tt
validate_cases i (tc ∷ tcs) = do
  reject_if (ltb max_text_bytes (length tc.input)) (input_too_large i)
  reject_if (ltb max_text_bytes (length tc.expected_output)) (expected_output_too_large i)
  validate_cases (i + 1) tcs

module _ (metadata : Metadata) where
  -- The language's part of validateFunctionJob and of the class branch.
  unfoldable pub validate_function_job : Job → Result JobError (Unit {0})
  validate_function_job job =
      if text_eq job.language (codes "python")
      then metadata_result (metadata.generator_error job)
      else if text_eq job.language (codes "cpp")
      then metadata_result (metadata.function_error job)
      else err function_language

  unfoldable pub validate_class_job : Job → Result JobError (Unit {0})
  validate_class_job job =
      if text_eq job.language (codes "python")
      then metadata_result (metadata.generator_error job)
      else if text_eq job.language (codes "cpp")
      then metadata_result (metadata.class_harness_error job)
      else err class_language

  unfoldable pub validate_details : Job → Result JobError (Unit {0})
  validate_details job =
      if is_some job.function
      then validate_function_job job
      else if is_some job.class
      then validate_class_job job
      else validate_cases 0 job.test_cases

  unfoldable pub validate_mode : Job → Result JobError (Unit {0})
  validate_mode job = do
    let mode = execution_mode job
    reject_if (not (valid_mode mode)) (unsupported_mode mode)
    reject_if
        (not (text_eq mode mode_stdin)
          && (not (text_eq mode mode_function) && not (text_eq mode mode_class)))
        (mode_not_implemented mode)
    reject_if (text_eq mode mode_function && not (is_some job.function)) function_required
    reject_if (not (text_eq mode mode_function) && is_some job.function) function_forbidden
    reject_if (text_eq mode mode_class && not (is_some job.class)) class_required
    reject_if (not (text_eq mode mode_class) && is_some job.class) class_forbidden

  unfoldable pub validate_bounds : Job → Result JobError (Unit {0})
  validate_bounds job = do
    reject_if (text_eq job.source_code []) source_required
    reject_if (length job.test_cases == 0) no_test_cases
    reject_if (is_nonpos job.limits.time_limit_ms) time_limit_low
    reject_if (ltb_ℤ (pos max_time_limit_ms) job.limits.time_limit_ms) time_limit_high
    reject_if (is_nonpos job.limits.memory_limit_mb) memory_limit_low
    reject_if (ltb_ℤ (pos max_memory_limit_mb) job.limits.memory_limit_mb) memory_limit_high
    reject_if (ltb max_text_bytes (length job.source_code)) source_too_large
    reject_if (ltb max_test_cases (length job.test_cases)) too_many_test_cases

  unfoldable pub validate_job : Job → Result JobError (Unit {0})
  validate_job job = do
    reject_if (text_eq job.language []) language_required
    reject_if (not (is_some (get_spec default_registry job.language)))
        (unsupported_language job.language)
    validate_mode job
    validate_bounds job
    validate_details job
