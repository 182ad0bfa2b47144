-- ===== src/Program/Requests.antt =====
-- The checks that the C++ function generator makes on its own: validateRequest,
-- validateObservations and validatePostconditions of internal/judge/harness/cpp/function.go.
use yex_judge.Common.{
  ℕ, ◌+◌, ℤ, to_nat, Bool, true, false, not, ◌&&◌, ◌||◌, none, some, List, [], ◌∷◌, Text, codes,
  text_eq, Result, ok, err, ◌>>=◌, ◌>>◌, reject_if, ◌==◌, length, if◌then◌else◌,
}
use yex_judge.Types.{FunctionParam, FunctionSpec, ObservationSpec, PostconditionSpec, TestCase}
use yex_judge.CppType.{Unicode}
use yex_judge.Json.Parse.{parse_json}
use yex_judge.Adapters.{Adapter, canonical_name, cpp_type, has_postconditions}
use yex_judge.Adapters.Registry.{Registry, RegistryError, resolve}
use yex_judge.FunctionJob.{
  FunctionError, duplicate_return, void_return, parameter_invalid, duplicate_parameter,
  kind_unsupported, void_unobserved, void_postconditions, type_without_postconditions,
  postcondition_kind, postcondition_subject, postcondition_parameter, postcondition_types,
  postcondition_duplicate, is_void, is_below, check_view, adapter_at, is_seen,
}
use yex_judge.Program.{resolved}

pub data RequestError : Type 0 where
  source_required name_required return_type_required : RequestError
  return_type : RegistryError → RequestError
  param_name_required param_void : ℕ → RequestError
  param_type : ℕ → RegistryError → RequestError
  bad_observation bad_postcondition : FunctionError → RequestError
  kind_required : ℕ → RequestError
  args_count : ℕ → RequestError
  argument_invalid : ℤ → ℕ → RequestError
  expected_invalid : ℤ → RequestError

-- `returnSeen` and `parameterSeen`.
pub record Seen : Type 0 where
  pub return_seen : Bool
  pub parameter_seen : List ℕ

unfoldable pub is_among : ℕ → List ℕ → Bool
is_among i [] = false
is_among i (j ∷ js) = j == i || is_among i js

module _ (u : Unicode) (ps : List FunctionParam) (returns : Adapter) where
  unfoldable pub observe_return : ℕ → Seen → Result FunctionError Seen
  unfolding canonical_name
  observe_return i seen = do
    reject_if seen.return_seen (duplicate_return i)
    reject_if (is_void returns) (void_return i)
    ok (record seen { return_seen = true })

  unfoldable pub observe_parameter : ℕ → ObservationSpec → Seen → Result FunctionError Seen
  unfolding is_among check_view
  observe_parameter i o seen = do
    reject_if (not (is_below o.parameter (length ps))) (parameter_invalid i)
    reject_if (is_among (to_nat o.parameter) seen.parameter_seen) (duplicate_parameter i)
    check_view u ps returns i o
    ok (record seen { parameter_seen = to_nat o.parameter ∷ seen.parameter_seen })

  unfoldable pub observe_one : ℕ → ObservationSpec → Seen → Result FunctionError Seen
  unfolding observe_return observe_parameter
  observe_one i o seen =
      if text_eq o.kind (codes "return")
      then observe_return i seen
      else if text_eq o.kind (codes "parameter")
      then observe_parameter i o seen
      else err (kind_unsupported i)

  unfoldable pub observe_all : ℕ → List ObservationSpec → Seen → Result FunctionError (Unit {0})
  unfolding observe_one
  observe_all i [] seen = ok tt
  observe_all i (o ∷ os) seen = do next ← observe_one i o seen; observe_all (i + 1) os next

  -- validateObservations.
  unfoldable pub request_observations : List ObservationSpec → Result FunctionError (Unit {0})
  unfolding observe_all canonical_name
  request_observations [] = if is_void returns then err void_unobserved else ok tt
  request_observations (o ∷ os) =
      observe_all 0 (o ∷ os) (record { return_seen = false; parameter_seen = [] })

-- The loop of validatePostconditions.
unfoldable pub request_conditions :
    Adapter
    → List Adapter
    → ℕ
    → List PostconditionSpec
    → List (Text × ℤ)
    → Result RequestError (Unit {0})
unfolding canonical_name is_seen
request_conditions returns as' i [] seen = ok tt
request_conditions returns as' i (p ∷ ps) seen = do
  reject_if (text_eq p.kind []) (kind_required i)
  reject_if (not (text_eq p.kind (codes "disjoint")) && not (text_eq p.kind (codes "same_as")))
      (bad_postcondition (postcondition_kind i))
  reject_if (not (text_eq p.subject (codes "return"))) (bad_postcondition (postcondition_subject i))
  reject_if (not (is_below p.from_parameter (length as')))
      (bad_postcondition (postcondition_parameter i))
  reject_if (not (text_eq (cpp_type (adapter_at as' (to_nat p.from_parameter))) (cpp_type returns)))
      (bad_postcondition (postcondition_types i))
  reject_if (is_seen p.kind p.from_parameter seen) (bad_postcondition (postcondition_duplicate i))
  request_conditions returns as' (i + 1) ps ((p.kind, p.from_parameter) ∷ seen)

-- validatePostconditions.
unfoldable pub request_postconditions :
    List PostconditionSpec → Adapter → List Adapter → Result RequestError (Unit {0})
unfolding request_conditions canonical_name has_postconditions
request_postconditions [] returns as' = ok tt
request_postconditions (p ∷ ps) returns as' = do
  reject_if (is_void returns) (bad_postcondition void_postconditions)
  reject_if (not (has_postconditions returns)) (bad_postcondition type_without_postconditions)
  request_conditions returns as' 0 (p ∷ ps) []

abbrev is_valid : Text → Bool
is_valid t = elim (parse_json t) [ none ↦ false | some v ↦ true ]

unfoldable pub request_args : ℤ → ℕ → List Text → Result RequestError (Unit {0})
request_args id j [] = ok tt
request_args id j (a ∷ as') = do
  reject_if (not (is_valid a)) (argument_invalid id j)
  request_args id (j + 1) as'

unfoldable pub request_cases : ℕ → ℕ → List TestCase → Result RequestError (Unit {0})
unfolding request_args
request_cases params i [] = ok tt
request_cases params i (tc ∷ tcs) = do
  reject_if (not (length tc.args == params)) (args_count i)
  request_args tc.id 0 tc.args
  reject_if (length tc.expected == 0 || not (is_valid tc.expected)) (expected_invalid tc.id)
  request_cases params (i + 1) tcs

abbrev with_observation : Result FunctionError (Unit {0}) → Result RequestError (Unit {0})
with_observation (ok u) = ok u
with_observation (err e) = err (bad_observation e)

module _ (u : Unicode) (r : Registry) where
  unfoldable pub request_params : ℕ → List FunctionParam → Result RequestError (List Adapter)
  unfolding resolve canonical_name
  request_params i [] = ok []
  request_params i (p ∷ ps) = do
    reject_if (text_eq p.name []) (param_name_required i)
    a ← resolved (param_type i) (resolve r u p.type)
    reject_if (is_void a) (param_void i)
    as' ← request_params (i + 1) ps
    ok (a ∷ as')

  -- validateRequest.
  unfoldable pub validate_request :
      Text → FunctionSpec → List TestCase → Result RequestError (Unit {0})
  unfolding resolve request_observations request_params request_postconditions request_cases
  validate_request source f tcs = do
    reject_if (text_eq source []) source_required
    reject_if (text_eq f.name []) name_required
    reject_if (text_eq f.return_type []) return_type_required
    returns ← resolved return_type (resolve r u f.return_type)
    with_observation (request_observations u f.params returns f.observations)
    params ← request_params 0 f.params
    request_postconditions f.postconditions returns params
    request_cases (length f.params) 0 tcs
