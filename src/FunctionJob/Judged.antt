-- ===== src/FunctionJob/Judged.antt =====
-- A function job that passes validateFunctionJob (internal/judge/validate.go) can be judged:
-- testCaseExpectedOutput (internal/judge/testcases.go) gives the expected output of each case.
use yex_judge.Common.{
  ℕ, ◌+◌, ◌<◌, ◌≡◌, refl, subst, ℤ, pos, negsuc, to_nat, Bool, true, Bool-cases, List-cases,
  Option-cases, some, List, [], ◌∷◌, ◌++◌, join, Text, codes, text_eq, ok, Result-cases, length,
  map, inl, inr, All, arith, decimal, itoa,
}
use yex_judge.Types.{TestCase, FunctionParam, FunctionSpec, ObservationSpec}
use yex_judge.CppType.{Unicode}
use yex_judge.Json.{Json, as_object, last_value}
use yex_judge.Json.Parse.{parse_json}
use yex_judge.Adapters.{Adapter}
use yex_judge.Adapters.Scalars.{Floats}
use yex_judge.Adapters.Values.{validate_json}
use yex_judge.Adapters.Registry.{Registry}
use yex_judge.Adapters.Loops.{Succeeds}
use yex_judge.Adapters.Agreement.{valid-canonical}
use yex_judge.FunctionJob.{is_below, adapter_at, Checked, check_function}
use yex_judge.FunctionJob.Expected.{
  wrong_return_type, with_type, check_values, check_expected_return, check_expected_parameters,
  check_expected_object, validate_expected,
}
use yex_judge.FunctionJob.Cases.{check_case, check_cases, validate_function}
use yex_judge.FunctionJob.Output.{
  quoted, field_of, postconditions_field, postconditions_fields, parameter_observations,
  return_with_postconditions, return_fields, parameter_values, parameter_fields, observed_output,
  function_output,
}
use yex_judge.FunctionJob.Metadata.{
  AreResolved, AreResolved-get, paired, IsReturn, IsChecked, check_function-IsChecked,
  observed-Sees, observed_default,
}

-- A decimal index is printed alike as a natural number and as an integer.
below-itoa : (i : ℤ) (n : ℕ) → is_below i n ≡ true → (itoa i ≡ decimal (to_nat i)) × (to_nat i < n)
unfolding itoa
below-itoa (pos k) n h = (refl, ground arith)
below-itoa (negsuc k) n h = cc

module _ (fl : Floats) (u : Unicode) (r : Registry) where
  -- The return value is there and valid, if it is observed.
  return_fields_total :
      (a : Adapter) (os : List ObservationSpec) (m : List (Text × Json)) (returned : Bool)
      → All (λ o. IsReturn o → returned ≡ true) os
      → check_expected_return fl a returned (last_value (codes "return") m) ≡ ok tt
      → Succeeds (return_fields fl u r a os m)
  unfolding return_fields check_expected_return
  return_fields_total a [] m returned k h = ([], refl)
  return_fields_total a (o ∷ os) m returned (k, ks) h =
      let (rest, e) = return_fields_total a os m returned ks h in
      elim (Bool-cases (text_eq o.kind (codes "return"))) [
        | inr other ↦ (rest, ground arith)
        | inl is_return ↦ elim (Option-cases (last_value (codes "return") m)) [
          | inl x ↦ let y = k is_return in absurd (ground arith)
          | inr (v, x) ↦
              let y = k is_return in
              let valid : Succeeds (validate_json fl a v) =
                elim (Result-cases (validate_json fl a v)) [
                  | inl z ↦ z
                  | inr (x2, z) ↦ absurd (ground arith)
                ] in
              let (t, c) = valid-canonical fl a v valid.1 in
              (codes "\"return\":" ++ (t ++ rest), ground arith)
        ]
      ]

  parameter_values_total :
      (ps : List FunctionParam) (as' : List Adapter)
      → AreResolved u r ps as'
      → (os : List ObservationSpec) (m : List (Text × Json))
      → All (λ o. is_below o.parameter (length ps) ≡ true) os
      → check_values fl as' (map paired os) m ≡ ok tt
      → Succeeds (parameter_values fl u r ps os m)
  unfolding parameter_values check_values
  parameter_values_total ps as' res [] m b h = ([], refl)
  parameter_values_total ps as' res (o ∷ os) m (b, bs) h =
      let (same, lt) = below-itoa o.parameter (length ps) b in
      let (a, at, type_ok) = AreResolved-get u r ps as' (to_nat o.parameter) res lt in
      elim (Option-cases (last_value (decimal (to_nat o.parameter)) m)) [
        | inl x ↦ absurd (ground arith)
        | inr (v, x) ↦
            elim (Result-cases (validate_json fl (adapter_at as' (to_nat o.parameter)) v)) [
              | inr (e, y) ↦ absurd (ground arith)
              | inl (_, y) ↦
                  let typed : adapter_at as' (to_nat o.parameter) ≡ a = ground arith in
                  let (t, c) =
                    valid-canonical fl a v (subst (λ z. validate_json fl z v ≡ ok tt) typed y) in
                  let (rest, k) = parameter_values_total ps as' res os m bs (ground arith) in
                  ((quoted (itoa o.parameter) ++ (codes ":" ++ t)) ∷ rest, ground arith)
            ]
      ]

  parameter_fields_total :
      (ps : List FunctionParam) (as' : List Adapter)
      → AreResolved u r ps as'
      → (os : List ObservationSpec) (m : List (Text × Json))
      → All (λ o. is_below o.parameter (length ps) ≡ true) os
      → check_expected_parameters fl as' (map paired os) (last_value (codes "parameter") m) ≡ ok tt
      → Succeeds (parameter_fields fl u r ps os m)
  unfolding parameter_fields check_expected_parameters
  parameter_fields_total ps as' res [] m b h = ([], refl)
  parameter_fields_total ps as' res (o ∷ os) m b h =
      elim (Option-cases (last_value (codes "parameter") m)) [
        | inl x ↦ absurd (ground arith)
        | inr (v, x) ↦ elim (Option-cases (as_object v)) [
          | inl y ↦ absurd (ground arith)
          | inr (values, y) ↦
              elim (Result-cases (check_values fl as' (map paired (o ∷ os)) values)) [
                | inr (e, z) ↦ absurd (ground arith)
                | inl (_, z) ↦
                    let (items, k) = parameter_values_total ps as' res (o ∷ os) values b z in
                    (
                      (codes "\"parameter\":{" ++ (join items (codes ",") ++ codes "}")) ∷ [],
                      ground arith,
                    )
              ]
        ]
      ]

  module _ (f : FunctionSpec) (c : Checked) (i : IsChecked u r f c) where
    observed_output_total :
        (o : ObservationSpec) (os : List ObservationSpec) (m : List (Text × Json))
        → f.observations ≡ o ∷ os
        → check_expected_return fl c.returns c.observed.returned (last_value (codes "return") m)
          ≡ ok tt
        → check_expected_parameters fl c.params c.observed.parameters
            (last_value (codes "parameter") m)
          ≡ ok tt
        → Succeeds (observed_output fl u r f c.returns m)
    unfolding observed_output
    observed_output_total o os m e returned parameters =
        let s = observed-Sees u r f c i o os e in
        let seen = parameter_observations f.observations in
        let (rest, x) =
          return_fields_total c.returns f.observations m c.observed.returned s.returned returned in
        let (items, y) = parameter_fields_total f.params c.params i.param_types seen m s.below (
          subst
            (λ z.
              check_expected_parameters fl c.params z (last_value (codes "parameter") m) ≡ ok tt)
            s.parameters parameters) in
        (
          codes "{"
              ++ (join (field_of rest ++ (items ++ postconditions_fields f.postconditions))
                    (codes ",")
                  ++ codes "}"),
          ground arith,
        )

    plain_output_total :
        (v : Json) (tc : TestCase)
        → parse_json tc.expected ≡ some v
        → f.observations ≡ []
        → validate_json fl c.returns v ≡ ok tt
        → Succeeds (function_output fl u r f tc)
    unfolding function_output return_with_postconditions
    plain_output_total v tc p e h =
        let (t, canonical) = valid-canonical fl c.returns v h in
        let resolved = i.return_type in
        elim (List-cases f.postconditions) [
          | inl none_given ↦ (t, ground arith)
          | inr (q, qs, given) ↦ (
            codes "{\"return\":"
                ++ (t ++ (codes "," ++ (postconditions_field (q ∷ qs) ++ codes "}"))),
            ground arith,
          )
        ]

    object_output_total :
        (v : Json) (tc : TestCase) (o : ObservationSpec) (os : List ObservationSpec)
        → parse_json tc.expected ≡ some v
        → f.observations ≡ o ∷ os
        → check_expected_object fl c f.postconditions v ≡ ok tt
        → Succeeds (function_output fl u r f tc)
    unfolding function_output check_expected_object
    object_output_total v tc o os p e h = elim (Option-cases (as_object v)) [
      | inl x ↦ absurd (ground arith)
      | inr (m, x) ↦
          elim (Result-cases (
            check_expected_return fl c.returns c.observed.returned
              (last_value (codes "return") m))) [
                | inr (z, y) ↦ absurd (ground arith)
                | inl (_, y) ↦
                    elim (Result-cases (
                      check_expected_parameters fl c.params c.observed.parameters
                        (last_value (codes "parameter") m))) [
                          | inr (z, w) ↦ absurd (ground arith)
                          | inl (_, w) ↦
                              let (t, done) = observed_output_total o os m e y w in
                              let resolved = i.return_type in (t, ground arith)
                        ]
              ]
    ]

    plain_valid :
        (v : Json)
        → f.observations ≡ []
        → validate_expected fl f c v ≡ ok tt
        → validate_json fl c.returns v ≡ ok tt
    unfolding validate_expected
    plain_valid v e h =
        let returned = (observed_default u r f c i e).0 in
        let same : validate_expected fl f c v
            ≡ with_type wrong_return_type (validate_json fl c.returns v) =
          elim (List-cases f.postconditions) [
            | inl none_given ↦ ground arith
            | inr (q, qs, given) ↦ ground arith
          ] in
        elim (Result-cases (validate_json fl c.returns v)) [
          | inl (_, x) ↦ x
          | inr (z, x) ↦ absurd (ground arith)
        ]

    object_valid :
        (v : Json) (o : ObservationSpec) (os : List ObservationSpec)
        → f.observations ≡ o ∷ os
        → validate_expected fl f c v ≡ ok tt
        → check_expected_object fl c f.postconditions v ≡ ok tt
    unfolding validate_expected
    object_valid v o os e h = ground arith

    -- A case that passed its checks has an expected output.
    case_output :
        (k : ℕ) (tc : TestCase) (seen : List ℤ)
        → check_case fl f c k tc seen ≡ ok tt
        → Succeeds (function_output fl u r f tc)
    unfolding check_case validate_expected
    case_output k tc seen h = elim (Option-cases (parse_json tc.expected)) [
      | inl x ↦ absurd (ground arith)
      | inr (v, x) ↦ elim (Result-cases (validate_expected fl f c v)) [
        | inr (e, y) ↦ absurd (ground arith)
        | inl (_, y) ↦ elim (List-cases f.observations) [
          | inl none_seen ↦ plain_output_total v tc x none_seen (plain_valid v none_seen y)
          | inr (o, os, e) ↦ object_output_total v tc o os x e (object_valid v o os e y)
        ]
      ]
    ]

    cases_output :
        (k : ℕ) (tcs : List TestCase) (seen : List ℤ)
        → check_cases fl f c k tcs seen ≡ ok tt
        → All (λ tc. Succeeds (function_output fl u r f tc)) tcs
    unfolding check_cases
    cases_output k [] seen h = tt
    cases_output k (tc ∷ tcs) seen h = elim (Result-cases (check_case fl f c k tc seen)) [
      | inr (e, x) ↦ absurd (ground arith)
      | inl (_, x) ↦
          (case_output k tc seen x, cases_output (k + 1) tcs (tc.id ∷ seen) (ground arith))
    ]

  -- Every case of a C++ function job that passes validation has an expected output: judging it
  -- never stops at metadata or at a value that cannot be made canonical.
  pub validate_function-output :
      (f : FunctionSpec) (tcs : List TestCase)
      → validate_function fl u r f tcs ≡ ok tt
      → All (λ tc. Succeeds (function_output fl u r f tc)) tcs
  unfolding validate_function
  validate_function-output f tcs h = elim (Result-cases (check_function u r f)) [
    | inr (e, x) ↦ absurd (ground arith)
    | inl (c, x) ↦ cases_output f c (check_function-IsChecked u r f c x) 0 tcs [] (ground arith)
  ]
