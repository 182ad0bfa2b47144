-- ===== src/FunctionJob/Metadata.antt =====
-- What the checks of function metadata (internal/judge/validate.go) establish: the types that the
-- declared ones resolve to, and the observations that were seen.
use yex_judge.Common.{
  ℕ, zero, suc, ◌+◌, ◌<◌, ◌≡◌, refl, sym, ap, ◌∙◌, to_nat, true, false, Bool-cases, some, List, [],
  ◌∷◌, ◌++◌, append_assoc, append-nil, codes, text_eq, ok, Result-cases, length, get_elem?, map,
  subst, inl, inr, All, arith,
}
use yex_judge.Types.{FunctionParam, FunctionSpec, ObservationSpec}
use yex_judge.CppType.{Unicode}
use yex_judge.Adapters.{Adapter}
use yex_judge.Adapters.Registry.{Registry, resolve}
use yex_judge.FunctionJob.{
  is_cpp_identifier, is_below, resolve_params, Observed, param_type, check_view, check_parameter,
  check_return, check_observation, check_observations, validate_observations,
  validate_postconditions, Checked, check_function,
}
use yex_judge.FunctionJob.Output.{parameter_observations}

-- The parameter types are those that the parameters' declared types resolve to, in order.
abbrev pub AreResolved : Unicode → Registry → List FunctionParam → List Adapter → Type 0
AreResolved u r [] [] = Unit {0}
AreResolved u r [] (a ∷ as') = ⊥
AreResolved u r (p ∷ ps) [] = ⊥
AreResolved u r (p ∷ ps) (a ∷ as') = (resolve r u p.type ≡ ok a) × AreResolved u r ps as'

resolve_params-AreResolved :
    (u : Unicode) (r : Registry) (i : ℕ) (ps : List FunctionParam) (as' : List Adapter)
    → resolve_params u r i ps ≡ ok as'
    → AreResolved u r ps as'
unfolding resolve_params
resolve_params-AreResolved u r i [] [] h = tt
resolve_params-AreResolved u r i [] (a ∷ as') h = cc
resolve_params-AreResolved u r i (p ∷ ps) as' h = elim (Result-cases (resolve r u p.type)) [
  | inr (e, x) ↦ absurd (ground arith)
  | inl (a, x) ↦ elim (Result-cases (resolve_params u r (i + 1) ps)) [
    | inr (e, y) ↦ absurd (ground arith)
    | inl (bs, y) ↦
        let same : a ∷ bs ≡ as' = ground arith in
        subst (AreResolved u r (p ∷ ps)) same (x, resolve_params-AreResolved u r (i + 1) ps bs y)
  ]
]

pub AreResolved-length :
    (u : Unicode) (r : Registry) (ps : List FunctionParam) (as' : List Adapter)
    → AreResolved u r ps as'
    → length ps ≡ length as'
AreResolved-length u r [] [] h = refl
AreResolved-length u r [] (a ∷ as') h = absurd h
AreResolved-length u r (p ∷ ps) [] h = absurd h
AreResolved-length u r (p ∷ ps) (a ∷ as') (x, h) = ap suc (AreResolved-length u r ps as' h)

pub AreResolved-get :
    (u : Unicode) (r : Registry) (ps : List FunctionParam) (as' : List Adapter) (i : ℕ)
    → AreResolved u r ps as'
    → i < length ps
    → (a : Adapter) × (get_elem? as' i ≡ some a) × (resolve r u (param_type ps i) ≡ ok a)
AreResolved-get u r [] as' i h lt = absurd (omega arith)
AreResolved-get u r (p ∷ ps) [] i h lt = absurd h
AreResolved-get u r (p ∷ ps) (a ∷ as') zero (x, h) lt = (a, refl, x)
AreResolved-get u r (p ∷ ps) (a ∷ as') (suc i) (x, h) lt =
    AreResolved-get u r ps as' i h (omega arith)

abbrev pub paired : ObservationSpec → ℕ × ObservationSpec
paired o = (to_nat o.parameter, o)

abbrev pub IsReturn : ObservationSpec → Type 0
IsReturn o = text_eq o.kind (codes "return") ≡ true

-- What the loop over observations has seen: their parameters in order, all of them parameters of
-- the function, and a returned value where one is observed.
pub record Sees (ps : List FunctionParam) (os : List ObservationSpec) (before after : Observed)
    : Type 0 where
  pub parameters : after.parameters ≡ before.parameters ++ map paired (parameter_observations os)
  pub below : All (λ o. is_below o.parameter (length ps) ≡ true) (parameter_observations os)
  pub keeps : before.returned ≡ true → after.returned ≡ true
  pub returned : All (λ o. IsReturn o → after.returned ≡ true) os

module _ (u : Unicode) (ps : List FunctionParam) (a : Adapter) where
  pub check_parameter_ok :
      (i : ℕ) (o : ObservationSpec) (seen next : Observed)
      → check_parameter u ps a i o seen ≡ ok next
      → (next ≡ record seen { parameters = seen.parameters ++ paired o ∷ [] })
        × (is_below o.parameter (length ps) ≡ true)
  unfolding check_parameter
  check_parameter_ok i o seen next h = elim (Result-cases (check_view u ps a i o)) [
    | inl (_, e) ↦ (ground arith, ground arith)
    | inr (x, e) ↦ absurd (ground arith)
  ]

  pub check_return_ok :
      (i : ℕ) (seen next : Observed)
      → check_return u ps a i seen ≡ ok next
      → next ≡ record seen { returned = true }
  unfolding check_return
  check_return_ok i seen next h = ground arith

  nothing_Sees : (seen : Observed) → Sees ps [] seen seen
  unfolding parameter_observations
  nothing_Sees seen = record {
    parameters = sym (append-nil seen.parameters);
    below = tt;
    keeps = λ h. h;
    returned = tt;
  }

  module _ (o : ObservationSpec) (os : List ObservationSpec) (seen after : Observed) where
    return_Sees :
        text_eq o.kind (codes "return") ≡ true
        → Sees ps os (record seen { returned = true }) after
        → Sees ps (o ∷ os) seen after
    unfolding parameter_observations
    return_Sees k s =
        let same : parameter_observations (o ∷ os) ≡ parameter_observations os =
          rw (k, parameter_observations) refl in
        record {
          parameters = rw same s.parameters;
          below = rw same s.below;
          keeps = λ h. s.keeps refl;
          returned = (λ h. s.keeps refl, s.returned);
        }

    parameter_Sees :
        text_eq o.kind (codes "return") ≡ false
        → text_eq o.kind (codes "parameter") ≡ true
        → is_below o.parameter (length ps) ≡ true
        → Sees ps os (record seen { parameters = seen.parameters ++ paired o ∷ [] }) after
        → Sees ps (o ∷ os) seen after
    unfolding parameter_observations
    parameter_Sees k l b s =
        let same : parameter_observations (o ∷ os) ≡ o ∷ parameter_observations os =
          rw (k, parameter_observations) (rw l refl) in
        record {
          parameters = rw same (
              s.parameters
              ∙ append_assoc seen.parameters (paired o ∷ [])
                  (map paired (parameter_observations os)));
          below = rw same (b, s.below);
          keeps = s.keeps;
          returned = (λ h. absurd (ground arith), s.returned);
        }

  check_observations-Sees :
      (i : ℕ) (os : List ObservationSpec) (seen after : Observed)
      → check_observations u ps a i os seen ≡ ok after
      → Sees ps os seen after
  unfolding check_observations check_observation
  check_observations-Sees i [] seen after h =
      let same : seen ≡ after = cc in subst (Sees ps [] seen) same (nothing_Sees seen)
  check_observations-Sees i (o ∷ os) seen after h =
      elim (Bool-cases (text_eq o.kind (codes "return"))) [
        | inl k ↦ elim (Result-cases (check_return u ps a i seen)) [
          | inr (x, e) ↦ absurd (ground arith)
          | inl (next, e) ↦
              let rest = check_observations-Sees (i + 1) os next after (ground arith) in
              return_Sees o os seen after k
                (subst (λ z. Sees ps os z after) (check_return_ok i seen next e) rest)
        ]
        | inr k ↦ elim (Bool-cases (text_eq o.kind (codes "parameter"))) [
          | inr l ↦ absurd (ground arith)
          | inl l ↦ elim (Result-cases (check_parameter u ps a i o seen)) [
            | inr (x, e) ↦ absurd (ground arith)
            | inl (next, e) ↦
                let (same, b) = check_parameter_ok i o seen next e in
                let rest = check_observations-Sees (i + 1) os next after (ground arith) in
                parameter_Sees o os seen after k l b (subst (λ z. Sees ps os z after) same rest)
          ]
        ]
      ]

-- What is known of metadata that passed the checks.
pub record IsChecked (u : Unicode) (r : Registry) (f : FunctionSpec) (c : Checked) : Type 0 where
  pub return_type : resolve r u f.return_type ≡ ok c.returns
  pub param_types : AreResolved u r f.params c.params
  pub resolved_params : resolve_params u r 0 f.params ≡ ok c.params
  pub observations : validate_observations u f.params c.returns f.observations ≡ ok c.observed
  pub postconditions : validate_postconditions f.postconditions c.returns c.params ≡ ok tt
  pub named : is_cpp_identifier f.name ≡ true
  pub typed : text_eq f.return_type [] ≡ false

pub check_function-IsChecked :
    (u : Unicode) (r : Registry) (f : FunctionSpec) (c : Checked)
    → check_function u r f ≡ ok c
    → IsChecked u r f c
unfolding check_function
check_function-IsChecked u r f c h = elim (Result-cases (resolve r u f.return_type)) [
  | inr (e, x) ↦ absurd (ground arith)
  | inl (a, x) ↦ elim (Result-cases (resolve_params u r 0 f.params)) [
    | inr (e, y) ↦ absurd (ground arith)
    | inl (as', y) ↦ elim (Result-cases (validate_observations u f.params a f.observations)) [
      | inr (e, z) ↦ absurd (ground arith)
      | inl (seen, z) ↦
          let same : (record { returns = a; params = as'; observed = seen }) ≡ c = ground arith in
          subst (IsChecked u r f) same (record {
            return_type = x;
            resolved_params = y;
            named = ground arith;
            typed = ground arith;
            postconditions = elim (Result-cases (validate_postconditions f.postconditions a as')) [
              | inl (_, w) ↦ w
              | inr (e, w) ↦ absurd (ground arith)
            ];
            param_types = resolve_params-AreResolved u r 0 f.params as' y;
            observations = z;
          })
    ]
  ]
]

module _ (u : Unicode) (r : Registry) (f : FunctionSpec) (c : Checked) (i : IsChecked u r f c) where
  -- Without observations the return value is the only one observed; with some, they are seen.
  pub observed_default :
      f.observations ≡ [] → (c.observed.returned ≡ true) × (c.observed.parameters ≡ [])
  unfolding validate_observations
  observed_default e =
      let h : validate_observations u f.params c.returns [] ≡ ok c.observed =
        subst (λ z. validate_observations u f.params c.returns z ≡ ok c.observed) e
          i.observations in
      let seen = c.observed in
      let at_start : (record { returned = true; parameters = [] }) ≡ seen = ground arith in
      (
        ap (λ (z : Observed). z.returned) (sym at_start),
        ap (λ (z : Observed). z.parameters) (sym at_start),
      )

  pub observed-Sees :
      (o : ObservationSpec) (os : List ObservationSpec)
      → f.observations ≡ o ∷ os
      → Sees f.params f.observations (record { returned = false; parameters = [] }) c.observed
  unfolding validate_observations
  observed-Sees o os e =
      let h : validate_observations u f.params c.returns (o ∷ os) ≡ ok c.observed =
        subst (λ z. validate_observations u f.params c.returns z ≡ ok c.observed) e
          i.observations in
      subst (λ z. Sees f.params z (record { returned = false; parameters = [] }) c.observed) (sym e)
        (check_observations-Sees u f.params c.returns 0 (o ∷ os)
          (record { returned = false; parameters = [] }) c.observed h)
