-- ===== src/Job/Tests.antt =====
-- A small job that passes validation.
use yex_judge.Common.{none, some, ok, ◌≡◌, ◌≤◌, refl, ◌⊎◌, length, All, text_eq}
use yex_judge.Types.Mode.{
  mode_stdin, mode_function, mode_class, execution_mode, valid_mode, validate_contract,
}
use yex_judge.Languages.{Spec, get_spec, default_registry, c_spec, cpp_spec, python_spec, fields}
use yex_judge.Job.{
  Metadata, validate_job, validate_mode, validate_bounds, validate_details, validate_cases,
  max_text_bytes,
}
use yex_judge.Job.Accepted.{
  IsWithinBounds, contract_of, validate_job-IsWithinBounds, validate_job-sizes,
}
use yex_judge.Verdict.Tests.{two_cases}

abbrev pub no_metadata : Metadata
no_metadata = record {
  generator_error = λ j. none;
  class_harness_error = λ j. none;
  function_error = λ j. none;
}

two_cases_valid : validate_job no_metadata two_cases ≡ ok tt
unfolding validate_job validate_mode validate_bounds validate_details validate_cases execution_mode
    valid_mode get_spec default_registry c_spec cpp_spec python_spec fields text_eq
two_cases_valid = refl

validate_job-IsWithinBounds_example :
    ((spec : Spec) × (get_spec default_registry two_cases.language ≡ some spec))
    × (validate_contract (contract_of two_cases) ≡ ok tt)
    × ((execution_mode two_cases ≡ mode_stdin)
        ⊎ ((execution_mode two_cases ≡ mode_function) ⊎ (execution_mode two_cases ≡ mode_class)))
    × IsWithinBounds two_cases
validate_job-IsWithinBounds_example =
    validate_job-IsWithinBounds no_metadata two_cases two_cases_valid

validate_job-sizes_example :
    All
      (λ tc. (length tc.input ≤ max_text_bytes) × (length tc.expected_output ≤ max_text_bytes))
      two_cases.test_cases
validate_job-sizes_example = validate_job-sizes no_metadata two_cases two_cases_valid refl refl
