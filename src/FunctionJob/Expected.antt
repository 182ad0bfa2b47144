-- ===== src/FunctionJob/Expected.antt =====
-- The test cases of a C++ function job: the loop of validateFunctionJob and
-- validateFunctionExpected (internal/judge/validate.go).
use yex_judge.Common.{
  ℕ, suc, ◌+◌, ℤ, pos, negsuc, Bool, true, false, not, ◌&&◌, ◌||◌, Option, none, some, List, [],
  ◌∷◌, Text, codes, text_eq, Result, ok, err, ◌>>=◌, ◌>>◌, reject_if, ◌==◌, length, if◌then◌else◌,
  decimal, parse_int,
}
use yex_judge.Types.{FunctionSpec, ObservationSpec, PostconditionSpec}
use yex_judge.Json.{Json, bool, as_object, last_value}
use yex_judge.Adapters.{Adapter, ValueError}
use yex_judge.Adapters.Scalars.{Floats}
use yex_judge.Adapters.Values.{validate_json}
use yex_judge.FunctionJob.{observation_of, Checked, adapter_at, is_found}

pub data ExpectedError : Type 0 where
  wrong_return_type : ValueError → ExpectedError
  not_an_object return_missing return_unexpected : ExpectedError
  parameters_unexpected parameters_missing parameters_not_object : ExpectedError
  parameter_missing : ℕ → ExpectedError
  wrong_parameter_type : ℕ → ValueError → ExpectedError
  parameter_key_invalid : Text → ExpectedError
  parameter_unexpected : ℤ → ExpectedError
  postconditions_not_object postconditions_count : ExpectedError
  postcondition_not_true : ℕ → ExpectedError
  observation_unexpected : Text → ExpectedError

abbrev pub as_map : ExpectedError → Json → Result ExpectedError (List (Text × Json))
as_map e v = elim (as_object v) [ none ↦ err e | some m ↦ ok m ]

abbrev pub with_type :
    (ValueError → ExpectedError) → Result ValueError (Unit {0}) → Result ExpectedError (Unit {0})
with_type f (ok u) = ok u
with_type f (err e) = err (f e)

-- Whether a key stands further on: the pairs that do not count for the length of a map.
unfoldable pub has_key : Text → List (Text × Json) → Bool
has_key k [] = false
has_key k ((j, v) ∷ m) = text_eq j k || has_key k m

unfoldable pub count_keys : List (Text × Json) → ℕ
unfolding has_key
count_keys [] = 0
count_keys ((k, v) ∷ m) = if has_key k m then count_keys m else suc (count_keys m)

-- Every key is the index of an observed parameter.
unfoldable pub check_parameter_keys :
    List (ℕ × ObservationSpec) → List (Text × Json) → Result ExpectedError (Unit {0})
unfolding observation_of parse_int
check_parameter_keys os [] = ok tt
check_parameter_keys os ((k, v) ∷ values) = elim (parse_int 64 k) [
  | none ↦ err (parameter_key_invalid k)
  | some (negsuc i) ↦ err (parameter_unexpected (negsuc i))
  | some (pos i) ↦
      if is_found (observation_of i os)
      then check_parameter_keys os values
      else err (parameter_unexpected (pos i))
]

abbrev is_true : Option Json → Bool
is_true (some (bool true)) = true
is_true _ = false

unfoldable pub check_all_true :
    ℕ → List PostconditionSpec → List (Text × Json) → Result ExpectedError (Unit {0})
unfolding last_value
check_all_true i [] values = ok tt
check_all_true i (p ∷ ps) values = do
  reject_if (not (is_true (last_value (decimal i) values))) (postcondition_not_true i)
  check_all_true (i + 1) ps values

unfoldable pub check_expected_postconditions :
    List PostconditionSpec → Option Json → Result ExpectedError (Unit {0})
unfolding check_all_true count_keys as_object
check_expected_postconditions ps none = ok tt
check_expected_postconditions ps (some v) = do
  values ← as_map postconditions_not_object v
  reject_if (not (count_keys values == length ps)) postconditions_count
  check_all_true 0 ps values

unfoldable pub check_expected_keys : List (Text × Json) → Result ExpectedError (Unit {0})
check_expected_keys [] = ok tt
check_expected_keys ((k, v) ∷ m) = do
  reject_if
      (not (text_eq k (codes "return"))
        && (not (text_eq k (codes "parameter")) && not (text_eq k (codes "postconditions"))))
      (observation_unexpected k)
  check_expected_keys m

abbrev pub is_empty {ℓ} : {A : Type ℓ} → List A → Bool
is_empty [] = true
is_empty (x ∷ xs) = false

module _ (fl : Floats) where
  -- Every observed parameter has a value of its type.
  unfoldable pub check_values :
      List Adapter
      → List (ℕ × ObservationSpec)
      → List (Text × Json)
      → Result ExpectedError (Unit {0})
  unfolding last_value validate_json
  check_values params [] values = ok tt
  check_values params ((i, o) ∷ os) values = elim (last_value (decimal i) values) [
    | none ↦ err (parameter_missing i)
    | some v ↦ do
      with_type (wrong_parameter_type i) (validate_json fl (adapter_at params i) v)
      check_values params os values
  ]

  unfoldable pub check_expected_return :
      Adapter → Bool → Option Json → Result ExpectedError (Unit {0})
  unfolding validate_json
  check_expected_return returns true none = err return_missing
  check_expected_return returns true (some v) =
      with_type wrong_return_type (validate_json fl returns v)
  check_expected_return returns false none = ok tt
  check_expected_return returns false (some v) = err return_unexpected

  unfoldable pub check_expected_parameters :
      List Adapter → List (ℕ × ObservationSpec) → Option Json → Result ExpectedError (Unit {0})
  unfolding check_values check_parameter_keys as_object
  check_expected_parameters params [] none = ok tt
  check_expected_parameters params [] (some v) = err parameters_unexpected
  check_expected_parameters params (o ∷ os) none = err parameters_missing
  check_expected_parameters params (o ∷ os) (some v) = do
    values ← as_map parameters_not_object v
    check_values params (o ∷ os) values
    check_parameter_keys (o ∷ os) values

  -- validateFunctionExpected on a case with an observation object.
  unfoldable pub check_expected_object :
      Checked → List PostconditionSpec → Json → Result ExpectedError (Unit {0})
  unfolding as_object last_value check_expected_return check_expected_parameters
      check_expected_postconditions check_expected_keys
  check_expected_object c ps v = do
    m ← as_map not_an_object v
    check_expected_return c.returns c.observed.returned (last_value (codes "return") m)
    check_expected_parameters c.params c.observed.parameters (last_value (codes "parameter") m)
    check_expected_postconditions ps (last_value (codes "postconditions") m)
    check_expected_keys m

  -- validateFunctionExpected.
  unfoldable pub validate_expected : FunctionSpec → Checked → Json → Result ExpectedError (Unit {0})
  unfolding validate_json check_expected_object
  validate_expected f c v =
      if is_empty f.observations
        && ((is_empty f.postconditions && c.observed.returned) || not (is_empty f.postconditions))
      then with_type wrong_return_type (validate_json fl c.returns v)
      else check_expected_object c f.postconditions v
