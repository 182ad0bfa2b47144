-- ===== src/FunctionJob/Output.antt =====
-- The expected output of a case of a function job, as the C++ harness prints it:
-- testCaseExpectedOutput and canonicalReturnWithPostconditions (internal/judge/testcases.go), for a
-- job with function metadata.
use yex_judge.Common.{
  ℕ, ◌+◌, ℤ, to_nat, Option, none, some, List, [], ◌∷◌, ◌++◌, Text, codes, text_eq, join, Result,
  ok, err, ◌>>=◌, if◌then◌else◌, decimal, itoa,
}
use yex_judge.Types.{TestCase, FunctionSpec, FunctionParam, ObservationSpec, PostconditionSpec}
use yex_judge.CppType.{Unicode}
use yex_judge.Json.{Json, as_object, last_value}
use yex_judge.Json.Parse.{parse_json}
use yex_judge.Adapters.{Adapter, ValueError}
use yex_judge.Adapters.Scalars.{Floats}
use yex_judge.Adapters.Values.{canonical_json}
use yex_judge.Adapters.Registry.{Registry, RegistryError, resolve}
use yex_judge.FunctionJob.{param_type}
use yex_judge.FunctionJob.Expected.{is_empty}

pub data OutputError : Type 0 where
  return_type : RegistryError → OutputError
  parameter_type : RegistryError → OutputError
  not_json not_an_object return_missing parameters_missing parameters_not_object : OutputError
  bad_expected bad_return : ValueError → OutputError
  parameter_missing : ℤ → OutputError
  bad_parameter : ℤ → ValueError → OutputError

abbrev canonical_or : (ValueError → OutputError) → Result ValueError Text → Result OutputError Text
canonical_or f (ok t) = ok t
canonical_or f (err e) = err (f e)

abbrev resolved_or :
    (RegistryError → OutputError) → Result RegistryError Adapter → Result OutputError Adapter
resolved_or f (ok a) = ok a
resolved_or f (err e) = err (f e)

abbrev found_or {ℓ} : {A : Type ℓ} → OutputError → Option A → Result OutputError A
found_or e none = err e
found_or e (some v) = ok v

abbrev pub quoted : Text → Text
quoted s = b'"' ∷ (s ++ codes "\"")

-- `"0":true,"1":true` and so on, from index `i`.
unfoldable pub all_true : ℕ → List PostconditionSpec → List Text
unfolding decimal
all_true i [] = []
all_true i (p ∷ ps) = (quoted (decimal i) ++ codes ":true") ∷ all_true (i + 1) ps

abbrev pub postconditions_field : List PostconditionSpec → Text
postconditions_field ps =
    codes "\"postconditions\":{" ++ (join (all_true 0 ps) (codes ",") ++ codes "}")

-- The observed parameters, in the order of the observations.
unfoldable pub parameter_observations : List ObservationSpec → List ObservationSpec
parameter_observations [] = []
parameter_observations (o ∷ os) =
    let rest = parameter_observations os in
    if text_eq o.kind (codes "return")
    then rest
    else if text_eq o.kind (codes "parameter")
    then o ∷ rest
    else rest

abbrev pub field_of : Text → List Text
field_of [] = []
field_of (c ∷ s) = (c ∷ s) ∷ []

abbrev pub postconditions_fields : List PostconditionSpec → List Text
postconditions_fields [] = []
postconditions_fields (p ∷ ps) = postconditions_field (p ∷ ps) ∷ []

module _ (fl : Floats) (u : Unicode) (r : Registry) where
  unfoldable pub return_with_postconditions :
      Json → Adapter → List PostconditionSpec → Result OutputError Text
  unfolding canonical_json all_true
  return_with_postconditions v a ps = do
    t ← canonical_or bad_expected (canonical_json fl a v)
    ok (codes "{\"return\":" ++ (t ++ (codes "," ++ (postconditions_field ps ++ codes "}"))))

  -- The field of each observed return value.
  unfoldable pub return_fields :
      Adapter → List ObservationSpec → List (Text × Json) → Result OutputError Text
  unfolding last_value canonical_json
  return_fields a [] m = ok []
  return_fields a (o ∷ os) m =
      let rest = return_fields a os m in
      if text_eq o.kind (codes "return")
      then (do
        v ← found_or return_missing (last_value (codes "return") m)
        t ← canonical_or bad_return (canonical_json fl a v)
        more ← rest
        ok (codes "\"return\":" ++ (t ++ more)))
      else rest

  -- The value of each observed parameter.
  unfoldable pub parameter_values :
      List FunctionParam
      → List ObservationSpec
      → List (Text × Json)
      → Result OutputError (List Text)
  unfolding last_value canonical_json resolve itoa
  parameter_values ps [] m = ok []
  parameter_values ps (o ∷ os) m = do
    v ← found_or (parameter_missing o.parameter) (last_value (itoa o.parameter) m)
    a ← resolved_or parameter_type (resolve r u (param_type ps (to_nat o.parameter)))
    t ← canonical_or (bad_parameter o.parameter) (canonical_json fl a v)
    rest ← parameter_values ps os m
    ok ((quoted (itoa o.parameter) ++ (codes ":" ++ t)) ∷ rest)

  unfoldable pub parameter_fields :
      List FunctionParam
      → List ObservationSpec
      → List (Text × Json)
      → Result OutputError (List Text)
  unfolding last_value as_object parameter_values
  parameter_fields ps [] m = ok []
  parameter_fields ps (o ∷ os) m = do
    v ← found_or parameters_missing (last_value (codes "parameter") m)
    values ← found_or parameters_not_object (as_object v)
    items ← parameter_values ps (o ∷ os) values
    ok ((codes "\"parameter\":{" ++ (join items (codes ",") ++ codes "}")) ∷ [])

  -- The observation object, its fields joined by commas.
  unfoldable pub observed_output :
      FunctionSpec → Adapter → List (Text × Json) → Result OutputError Text
  unfolding return_fields parameter_observations parameter_fields all_true
  observed_output f a m = do
    returned ← return_fields a f.observations m
    parameters ← parameter_fields f.params (parameter_observations f.observations) m
    ok (
        codes "{"
        ++ (join (field_of returned ++ (parameters ++ postconditions_fields f.postconditions))
              (codes ",")
            ++ codes "}"))

  unfoldable pub function_output : FunctionSpec → TestCase → Result OutputError Text
  unfolding resolve canonical_json return_with_postconditions observed_output as_object
  function_output f tc = do
    a ← resolved_or return_type (resolve r u f.return_type)
    v ← found_or not_json (parse_json tc.expected)
    if is_empty f.observations
        then (if is_empty f.postconditions
            then canonical_or bad_expected (canonical_json fl a v)
            else return_with_postconditions v a f.postconditions)
        else (do m ← found_or not_an_object (as_object v); observed_output f a m)
