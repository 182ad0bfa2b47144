-- ===== src/FunctionJob/Cases.antt =====
-- The loop of validateFunctionJob over the test cases of a C++ function job
-- (internal/judge/validate.go), and the whole of its checks.
use yex_judge.Common.{
  ℕ, ◌+◌, ℤ, eq_ℤ, Bool, false, not, ◌||◌, none, some, List, [], ◌∷◌, Text, Result, ok, err, ◌>>◌,
  reject_if, ltb, ◌==◌, length,
}
use yex_judge.Types.{TestCase, FunctionSpec}
use yex_judge.CppType.{Unicode}
use yex_judge.Json.Parse.{parse_json}
use yex_judge.Adapters.{Adapter, ValueError}
use yex_judge.Adapters.Scalars.{Floats}
use yex_judge.Adapters.Values.{validate_json}
use yex_judge.Adapters.Registry.{Registry}
use yex_judge.FunctionJob.{FunctionError, Checked, check_function}
use yex_judge.FunctionJob.Expected.{ExpectedError, validate_expected}

pub data CaseError : Type 0 where
  function_error : FunctionError → CaseError
  duplicate_id : ℤ → CaseError
  args_count expected_required expected_invalid case_too_large : ℕ → CaseError
  bad_expected : ℕ → ExpectedError → CaseError
  argument_invalid : ℕ → ℕ → CaseError
  wrong_argument_type : ℕ → ℕ → ValueError → CaseError

unfoldable pub is_seen_id : ℤ → List ℤ → Bool
is_seen_id i [] = false
is_seen_id i (j ∷ seen) = eq_ℤ j i || is_seen_id i seen

-- The bytes of a case beside its expected value.
unfoldable pub args_size : List Text → ℕ
args_size [] = 0
args_size (a ∷ as') = length a + args_size as'

module _ (fl : Floats) where
  -- The loop over the arguments of case `i`, from argument `j` on; as many types as arguments.
  unfoldable pub check_args : ℕ → ℕ → List Adapter → List Text → Result CaseError (Unit {0})
  unfolding validate_json
  check_args i j (t ∷ ts) (a ∷ as') = elim (parse_json a) [
    | none ↦ err (argument_invalid i j)
    | some v ↦ elim (validate_json fl t v) [
      | err e ↦ err (wrong_argument_type i j e)
      | ok u ↦ check_args i (j + 1) ts as'
    ]
  ]
  check_args i j _ _ = ok tt

  -- A case with the ids seen before it.
  unfoldable pub check_case :
      FunctionSpec → Checked → ℕ → TestCase → List ℤ → Result CaseError (Unit {0})
  unfolding validate_expected check_args args_size is_seen_id
  check_case f c i tc seen = do
    reject_if (is_seen_id tc.id seen) (duplicate_id tc.id)
    reject_if (not (length tc.args == length c.params)) (args_count i)
    reject_if (length tc.expected == 0) (expected_required i)
    elim (parse_json tc.expected) [
      | none ↦ err (expected_invalid i)
      | some v ↦ elim (validate_expected fl f c v) [
        | err e ↦ err (bad_expected i e)
        | ok u ↦ do
          check_args i 0 c.params tc.args
          reject_if (ltb 100_000 (length tc.expected + args_size tc.args)) (case_too_large i)
      ]
    ]

  unfoldable pub check_cases :
      FunctionSpec → Checked → ℕ → List TestCase → List ℤ → Result CaseError (Unit {0})
  unfolding check_case
  check_cases f c i [] seen = ok tt
  check_cases f c i (tc ∷ tcs) seen = do
    check_case f c i tc seen
    check_cases f c (i + 1) tcs (tc.id ∷ seen)

  -- validateFunctionJob behind its test of the language.
  unfoldable pub validate_function :
      Unicode → Registry → FunctionSpec → List TestCase → Result CaseError (Unit {0})
  unfolding check_function check_cases
  validate_function u r f tcs = elim (check_function u r f) [
    | err e ↦ err (function_error e)
    | ok c ↦ check_cases f c 0 tcs []
  ]
