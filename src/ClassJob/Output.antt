-- ===== src/ClassJob/Output.antt =====
-- canonicalClassExpectedOutput (internal/judge/testcases.go): the expected output of a case of a
-- class job.
use yex_judge.Common.{
  ℤ, Option, none, some, List, [], ◌∷◌, Text, codes, Result, ok, err, ◌>>=◌, ◌>>◌, reject_if, not,
  ◌==◌, length, if◌then◌else◌,
}
use yex_judge.Types.{ClassSpec, ClassOperationSpec, OperationCall, TestCase}
use yex_judge.CppType.{Unicode}
use yex_judge.Json.{Json}
use yex_judge.Adapters.{ValueError}
use yex_judge.Adapters.Scalars.{Floats, bracketed}
use yex_judge.Adapters.Values.{canonical_json}
use yex_judge.Adapters.Registry.{Registry, RegistryError, resolve}
use yex_judge.FunctionJob.{is_void}
use yex_judge.ClassJob.{operation_of, expected_array}

pub data ClassOutputError : Type 0 where
  expected_not_array expected_count : ℤ → ClassOutputError
  unresolved : RegistryError → ClassOutputError
  bad_expected : Text → ValueError → ClassOutputError

-- `operations[call.Name].ReturnType`, empty where there is no such operation.
abbrev pub return_type_of : Option ClassOperationSpec → Text
return_type_of none = []
return_type_of (some o) = o.return_type

module _ (u : Unicode) (r : Registry) (fl : Floats) where
  unfoldable pub class_results :
      List ClassOperationSpec → List OperationCall → List Json → Result ClassOutputError (List Text)
  unfolding operation_of resolve canonical_json
  class_results ops (c ∷ cs) (v ∷ vs) =
      elim (resolve r u (return_type_of (operation_of c.name ops))) [
        | err e ↦ err (unresolved e)
        | ok a ↦
            if is_void a
            then (do rest ← class_results ops cs vs; ok (codes "null" ∷ rest))
            else elim (canonical_json fl a v) [
              | err e ↦ err (bad_expected c.name e)
              | ok t ↦ do rest ← class_results ops cs vs; ok (t ∷ rest)
            ]
      ]
  class_results ops _ _ = ok []

  unfoldable pub class_output : ClassSpec → TestCase → Result ClassOutputError Text
  unfolding class_results
  class_output c tc = elim (expected_array tc) [
    | none ↦ err (expected_not_array tc.id)
    | some vs ↦ do
      reject_if (not (length vs == length tc.operations)) (expected_count tc.id)
      items ← class_results c.operations tc.operations vs
      ok (bracketed items)
  ]
