-- ===== src/ClassJob.antt =====
-- The checks of a C++ class job, validateClassRequest (internal/judge/harness/cpp/class.go). A Go
-- map of operations is the list of them, where the last of a name counts.
pub mod Output
pub mod Judged
use yex_judge.Common.{
  ℕ, suc, ◌+◌, ℤ, eq_ℤ, Bool, true, false, not, ◌&&◌, ◌||◌, Option, none, some, List, [], ◌∷◌, Text,
  codes, text_eq, Result, ok, err, ◌>>=◌, ◌>>◌, reject_if, ◌==◌, length, if◌then◌else◌,
}
use yex_judge.Types.{FunctionParam, ClassSpec, ClassOperationSpec, OperationCall, TestCase}
use yex_judge.CppType.{Unicode}
use yex_judge.Json.{Json, is_null, as_array}
use yex_judge.Json.Parse.{parse_json}
use yex_judge.Adapters.{Adapter, canonical_name, cpp_type, ValueError}
use yex_judge.Adapters.Scalars.{Floats}
use yex_judge.Adapters.Values.{validate_json}
use yex_judge.Adapters.Registry.{Registry, RegistryError, resolve}
use yex_judge.FunctionJob.{is_void}
use yex_judge.FunctionJob.Cases.{is_seen_id}

pub data ClassError : Type 0 where
  source_required class_name_invalid no_operations : ClassError
  operation_name_invalid : ℕ → ClassError
  duplicate_operation return_type_required : Text → ClassError
  return_type : Text → RegistryError → ClassError
  param_name_invalid param_type_required param_void : Text → ℕ → ClassError
  param_type : Text → ℕ → RegistryError → ClassError
  unresolved : RegistryError → ClassError
  duplicate_id : ℤ → ClassError
  constructor_args_count : ℕ → ClassError
  argument_invalid : ℕ → ClassError
  wrong_argument_type : ℕ → ValueError → ClassError
  no_calls expected_not_array expected_count : ℤ → ClassError
  call_undeclared call_args_count : ℤ → Text → ClassError
  expected_not_null : ℤ → Text → ClassError
  wrong_expected_type : ℤ → Text → ValueError → ClassError

-- The last operation of a name.
unfoldable pub operation_of : Text → List ClassOperationSpec → Option ClassOperationSpec
operation_of k [] = none
operation_of k (o ∷ os) = elim (operation_of k os) [
  | some p ↦ some p
  | none ↦ if text_eq o.name k then some o else none
]

unfoldable pub is_seen_name : Text → List Text → Bool
is_seen_name k [] = false
is_seen_name k (j ∷ seen) = text_eq j k || is_seen_name k seen

-- The expected array of a case.
unfoldable pub expected_array : TestCase → Option (List Json)
unfolding as_array
expected_array tc = elim (parse_json tc.expected) [ none ↦ none | some v ↦ as_array v ]

abbrev resolved_or :
    (RegistryError → ClassError) → Result RegistryError Adapter → Result ClassError Adapter
resolved_or f (ok a) = ok a
resolved_or f (err e) = err (f e)

module _ (u : Unicode) where
  -- isCxxIdentifier.
  unfoldable pub cxx_identifier_from : Bool → Text → Bool
  cxx_identifier_from first [] = true
  cxx_identifier_from first (c ∷ s) =
      (u.is_letter c || (c == b'_' || (not first && u.is_digit c))) && cxx_identifier_from false s

  unfoldable pub is_cxx_identifier : Text → Bool
  unfolding cxx_identifier_from
  is_cxx_identifier s = not (text_eq s []) && cxx_identifier_from true s

  module _ (r : Registry) where
    -- validateClassParameters, from parameter `i` on.
    unfoldable pub check_params : Text → ℕ → List FunctionParam → Result ClassError (Unit {0})
    unfolding is_cxx_identifier resolve canonical_name
    check_params owner i [] = ok tt
    check_params owner i (p ∷ ps) = do
      reject_if (not (text_eq p.name []) && not (is_cxx_identifier p.name))
          (param_name_invalid owner i)
      reject_if (text_eq p.type []) (param_type_required owner i)
      a ← resolved_or (param_type owner i) (resolve r u p.type)
      reject_if (is_void a) (param_void owner i)
      check_params owner (i + 1) ps

    -- The loop over the operations, from operation `i` on.
    unfoldable pub check_operations :
        ℕ → List ClassOperationSpec → List Text → Result ClassError (Unit {0})
    unfolding is_cxx_identifier is_seen_name resolve check_params
    check_operations i [] seen = ok tt
    check_operations i (o ∷ os) seen = do
      reject_if (not (is_cxx_identifier o.name)) (operation_name_invalid i)
      reject_if (is_seen_name o.name seen) (duplicate_operation o.name)
      reject_if (text_eq o.return_type []) (return_type_required o.name)
      a ← resolved_or (return_type o.name) (resolve r u o.return_type)
      check_params o.name 0 o.params
      check_operations (i + 1) os (o.name ∷ seen)

    module _ (fl : Floats) where
      -- The arguments of a constructor or a call against its parameters; there are as many.
      unfoldable pub check_arguments :
          ℕ → List FunctionParam → List Text → Result ClassError (Unit {0})
      unfolding resolve validate_json
      check_arguments j (p ∷ ps) (a ∷ as') = elim (parse_json a) [
        | none ↦ err (argument_invalid j)
        | some v ↦ elim (resolve r u p.type) [
          | err e ↦ err (unresolved e)
          | ok t ↦ elim (validate_json fl t v) [
            | err e ↦ err (wrong_argument_type j e)
            | ok _ ↦ check_arguments (j + 1) ps as'
          ]
        ]
      ]
      check_arguments j _ _ = ok tt

      -- The expected result of a call: null of a void operation.
      unfoldable pub check_result : ℤ → Text → Adapter → Json → Result ClassError (Unit {0})
      unfolding validate_json canonical_name
      check_result id name a v =
          if is_void a
          then reject_if (not (is_null v)) (expected_not_null id name)
          else elim (validate_json fl a v) [
            | err e ↦ err (wrong_expected_type id name e)
            | ok _ ↦ ok tt
          ]

      unfoldable pub check_call :
          ℤ → List ClassOperationSpec → OperationCall → Json → Result ClassError (Unit {0})
      unfolding operation_of resolve check_arguments check_result
      check_call id ops call v = elim (operation_of call.name ops) [
        | none ↦ err (call_undeclared id call.name)
        | some o ↦ do
          reject_if (not (length call.args == length o.params)) (call_args_count id call.name)
          check_arguments 0 o.params call.args
          a ← resolved_or unresolved (resolve r u o.return_type)
          check_result id call.name a v
      ]

      -- The calls of a case with their expected results; there are as many.
      unfoldable pub check_calls :
          ℤ
          → List ClassOperationSpec
          → List OperationCall
          → List Json
          → Result ClassError (Unit {0})
      unfolding check_call
      check_calls id ops (c ∷ cs) (v ∷ vs) = do check_call id ops c v; check_calls id ops cs vs
      check_calls id ops _ _ = ok tt

      unfoldable pub check_class_case :
          ClassSpec → ℕ → TestCase → List ℤ → Result ClassError (Unit {0})
      unfolding is_seen_id check_arguments check_calls
      check_class_case c i tc seen = do
        reject_if (is_seen_id tc.id seen) (duplicate_id tc.id)
        reject_if (not (length tc.constructor_args == length c.constructor.params))
            (constructor_args_count i)
        check_arguments 0 c.constructor.params tc.constructor_args
        reject_if (length tc.operations == 0) (no_calls tc.id)
        elim (expected_array tc) [
          | none ↦ err (expected_not_array tc.id)
          | some vs ↦ do
            reject_if (not (length vs == length tc.operations)) (expected_count tc.id)
            check_calls tc.id c.operations tc.operations vs
        ]

      unfoldable pub check_class_cases :
          ClassSpec → ℕ → List TestCase → List ℤ → Result ClassError (Unit {0})
      unfolding check_class_case
      check_class_cases c i [] seen = ok tt
      check_class_cases c i (tc ∷ tcs) seen = do
        check_class_case c i tc seen
        check_class_cases c (i + 1) tcs (tc.id ∷ seen)

      unfoldable pub validate_class :
          Text → ClassSpec → List TestCase → Result ClassError (Unit {0})
      unfolding is_cxx_identifier check_operations check_params check_class_cases
      validate_class source c tcs = do
        reject_if (text_eq source []) source_required
        reject_if (not (is_cxx_identifier c.name)) class_name_invalid
        reject_if (length c.operations == 0) no_operations
        check_operations 0 c.operations []
        check_params (codes "constructor") 0 c.constructor.params
        check_class_cases c 0 tcs []
