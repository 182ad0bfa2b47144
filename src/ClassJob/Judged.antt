-- ===== src/ClassJob/Judged.antt =====
-- A class job that passes validateClassRequest (internal/judge/harness/cpp/class.go) can be judged:
-- canonicalClassExpectedOutput (internal/judge/testcases.go) gives the expected output of each case.
use yex_judge.Common.{
  ℕ, ◌+◌, ◌≡◌, refl, ℤ, Bool-cases, Option-cases, List, [], ◌∷◌, inl, inr, Text, codes, ok,
  Result-cases, All, arith,
}
use yex_judge.Types.{ClassSpec, ClassOperationSpec, OperationCall, TestCase}
use yex_judge.CppType.{Unicode}
use yex_judge.Json.{Json}
use yex_judge.Adapters.Scalars.{Floats, bracketed}
use yex_judge.Adapters.Values.{validate_json}
use yex_judge.Adapters.Registry.{Registry, resolve}
use yex_judge.Adapters.Loops.{Succeeds}
use yex_judge.Adapters.Agreement.{valid-canonical}
use yex_judge.FunctionJob.{is_void}
use yex_judge.ClassJob.{
  operation_of, check_result, check_call, check_calls, expected_array, check_class_case,
  check_class_cases, validate_class,
}
use yex_judge.ClassJob.Output.{class_results, class_output}

module _ (u : Unicode) (r : Registry) (fl : Floats) where
  -- A checked call has a canonical result.
  call_result :
      (id : ℤ) (ops : List ClassOperationSpec) (c : OperationCall) (v : Json)
      → check_call u r fl id ops c v ≡ ok tt
      → (cs : List OperationCall) (vs : List Json) → Succeeds (class_results u r fl ops cs vs)
      → Succeeds (class_results u r fl ops (c ∷ cs) (v ∷ vs))
  unfolding check_call check_result class_results
  call_result id ops c v h cs vs (rest, more) = elim (Option-cases (operation_of c.name ops)) [
    | inl x ↦ absurd (ground arith)
    | inr (o, x) ↦ elim (Result-cases (resolve r u o.return_type)) [
      | inr (e, y) ↦ absurd (ground arith)
      | inl (a, y) ↦ elim (Bool-cases (is_void a)) [
        | inl z ↦ (codes "null" ∷ rest, ground arith)
        | inr z ↦ elim (Result-cases (validate_json fl a v)) [
          | inr (e, w) ↦ absurd (ground arith)
          | inl (_, w) ↦ let (t, k) = valid-canonical fl a v w in (t ∷ rest, ground arith)
        ]
      ]
    ]
  ]

  first_call :
      (id : ℤ) (ops : List ClassOperationSpec) (c : OperationCall) (v : Json)
      (cs : List OperationCall) (vs : List Json)
      → check_calls u r fl id ops (c ∷ cs) (v ∷ vs) ≡ ok tt
      → (check_call u r fl id ops c v ≡ ok tt) × (check_calls u r fl id ops cs vs ≡ ok tt)
  unfolding check_calls
  first_call id ops c v cs vs h = elim (Result-cases (check_call u r fl id ops c v)) [
    | inr (e, x) ↦ absurd (ground arith)
    | inl (_, x) ↦ (x, ground arith)
  ]

  results_total :
      (id : ℤ) (ops : List ClassOperationSpec) (cs : List OperationCall) (vs : List Json)
      → check_calls u r fl id ops cs vs ≡ ok tt
      → Succeeds (class_results u r fl ops cs vs)
  results_total id ops [] vs h = unfold class_results in ([], refl)
  results_total id ops (c ∷ cs) [] h = unfold class_results in ([], refl)
  results_total id ops (c ∷ cs) (v ∷ vs) h =
      let (here, later) = first_call id ops c v cs vs h in
      call_result id ops c v here cs vs (results_total id ops cs vs later)

  case_output :
      (c : ClassSpec) (i : ℕ) (tc : TestCase) (seen : List ℤ)
      → check_class_case u r fl c i tc seen ≡ ok tt
      → Succeeds (class_output u r fl c tc)
  unfolding check_class_case class_output
  case_output c i tc seen h = elim (Option-cases (expected_array tc)) [
    | inl x ↦ absurd (ground arith)
    | inr (vs, x) ↦ elim (Result-cases (check_calls u r fl tc.id c.operations tc.operations vs)) [
      | inr (e, y) ↦ absurd (ground arith)
      | inl (_, y) ↦
          let (items, z) = results_total tc.id c.operations tc.operations vs y in
          (bracketed items, ground arith)
    ]
  ]

  cases_output :
      (c : ClassSpec) (i : ℕ) (tcs : List TestCase) (seen : List ℤ)
      → check_class_cases u r fl c i tcs seen ≡ ok tt
      → All (λ tc. Succeeds (class_output u r fl c tc)) tcs
  unfolding check_class_cases
  cases_output c i [] seen h = tt
  cases_output c i (tc ∷ tcs) seen h = elim (Result-cases (check_class_case u r fl c i tc seen)) [
    | inr (e, x) ↦ absurd (ground arith)
    | inl (_, x) ↦
        (case_output c i tc seen x, cases_output c (i + 1) tcs (tc.id ∷ seen) (ground arith))
  ]

  -- Every case of a C++ class job that passes validation has an expected output.
  pub validate_class-output :
      (source : Text) (c : ClassSpec) (tcs : List TestCase)
      → validate_class u r fl source c tcs ≡ ok tt
      → All (λ tc. Succeeds (class_output u r fl c tc)) tcs
  unfolding validate_class
  validate_class-output source c tcs h = cases_output c 0 tcs [] (ground arith)
