-- ===== src/Program/Generated.antt =====
-- The C++ program of a function job that passes validateFunctionJob (internal/judge/validate.go):
-- Generate of internal/judge/harness/cpp/function.go succeeds.
use yex_judge.Common.{
  ℕ, ◌+◌, ◌≡◌, refl, ℤ, to_nat, true, false, not, ◌&&◌, Bool-cases, Option-cases, List, [], ◌∷◌,
  inl, inr, Text, codes, text_eq, ok, Result-cases, ◌>>=◌, length, All, arith,
}
use yex_judge.Types.{FunctionParam, FunctionSpec, PostconditionSpec, TestCase}
use yex_judge.CppType.{Unicode}
use yex_judge.Json.Parse.{parse_json}
use yex_judge.Adapters.{
  Adapter, int_type, runtime, RuntimeType, has_postconditions, postcondition_expression,
}
use yex_judge.Adapters.Scalars.{Floats}
use yex_judge.Adapters.Values.{validate_json, generate_literal}
use yex_judge.Adapters.Registry.{Registry}
use yex_judge.Adapters.Loops.{Succeeds}
use yex_judge.Adapters.Agreement.{valid-literal}
use yex_judge.FunctionJob.{Checked, check_function, check_postconditions, validate_postconditions}
use yex_judge.FunctionJob.Expected.{is_empty}
use yex_judge.FunctionJob.Cases.{check_args, validate_function}
use yex_judge.FunctionJob.Metadata.{
  AreResolved, AreResolved-length, IsChecked, check_function-IsChecked,
}
use yex_judge.Program.{Sources, param_adapters}
use yex_judge.Program.Requests.{validate_request}
use yex_judge.Program.Functions.{
  argument, param_name, condition_of, checked_conditions, observation_source, generate_observations,
  declare_params, generate_case, generate_cases, generate_main, function_program, generate_function,
}
use yex_judge.Program.Generates.{
  name_nonempty, request_observations_ok, request_postconditions_ok, request_params_ok,
  IsCheckedCase, check_cases-All, request_cases_ok,
}

runtime_condition :
    (r : RuntimeType) (kind value other : Text)
    → (not (text_eq kind (codes "disjoint")) && not (text_eq kind (codes "same_as"))) ≡ false
    → Succeeds (postcondition_expression r kind value other)
unfolding postcondition_expression
runtime_condition r kind value other h = elim (Bool-cases (text_eq kind (codes "disjoint"))) [
  | inl e ↦ rw e (_, refl)
  | inr e ↦ elim (Bool-cases (text_eq kind (codes "same_as"))) [
    | inl e2 ↦ rw e (rw e2 (_, refl))
    | inr e2 ↦ absurd (ground arith)
  ]
]

condition_total :
    (a : Adapter) (kind value other : Text)
    → has_postconditions a ≡ true
    → (not (text_eq kind (codes "disjoint")) && not (text_eq kind (codes "same_as"))) ≡ false
    → Succeeds (condition_of a kind value other)
unfolding has_postconditions condition_of
condition_total (runtime r) kind value other h k =
    let (t, e) = runtime_condition r kind value other k in (t, ground arith)
condition_total int_type kind value other h k = cc
condition_total _ kind value other h k = cc

conditions_total :
    (ps : List FunctionParam) (returns : Adapter) (as' : List Adapter) (i : ℕ)
    (qs : List PostconditionSpec) (seen : List (Text × ℤ))
    → has_postconditions returns ≡ true
    → check_postconditions returns as' i qs seen ≡ ok tt
    → Succeeds (checked_conditions ps returns i qs)
unfolding check_postconditions checked_conditions
conditions_total ps returns as' i [] seen h k = ([], refl)
conditions_total ps returns as' i (q ∷ qs) seen h k =
    let (t, e) =
      condition_total returns q.kind (codes "__result") (param_name ps (to_nat q.from_parameter)) h
        (ground arith) in
    let (ts, e2) =
      conditions_total ps returns as' (i + 1) qs ((q.kind, q.from_parameter) ∷ seen) h
        (ground arith) in
    rw (e, ◌>>=◌) (rw (e2, ◌>>=◌) (_, refl))

all_conditions_total :
    (ps : List FunctionParam) (returns : Adapter) (as' : List Adapter) (qs : List PostconditionSpec)
    → validate_postconditions qs returns as' ≡ ok tt
    → Succeeds (checked_conditions ps returns 0 qs)
unfolding validate_postconditions
all_conditions_total ps returns as' [] h = unfold checked_conditions in ([], refl)
all_conditions_total ps returns as' (q ∷ qs) h =
    conditions_total ps returns as' 0 (q ∷ qs) [] (ground arith) (ground arith)

source_total :
    (f : FunctionSpec) (as' : List Adapter) (returns : Adapter)
    → Succeeds (checked_conditions f.params returns 0 f.postconditions)
    → Succeeds (observation_source f as' returns)
unfolding observation_source
source_total f as' returns (ts, e) = rw (e, ◌>>=◌) (_, refl)

observations_total :
    (f : FunctionSpec) (as' : List Adapter) (returns : Adapter)
    → Succeeds (checked_conditions f.params returns 0 f.postconditions)
    → Succeeds (generate_observations f as' returns)
unfolding generate_observations
observations_total f as' returns s =
    elim (Bool-cases (is_empty f.observations && is_empty f.postconditions)) [
      | inl b ↦ rw (b, generate_observations) (_, refl)
      | inr b ↦ rw (b, generate_observations) (source_total f as' returns s)
    ]

module _ (fl : Floats) (u : Unicode) (r : Registry) where
  declare_params_total :
      (id : ℤ) (i j k : ℕ) (ps : List FunctionParam) (as' : List Adapter) (ts : List Text)
      → AreResolved u r ps as'
      → check_args fl j k as' ts ≡ ok tt
      → Succeeds (declare_params fl u r id i ps ts)
  unfolding check_args declare_params
  declare_params_total id i j k [] as' ts res h = (([], []), refl)
  declare_params_total id i j k (p ∷ ps) as' [] res h = (([], []), refl)
  declare_params_total id i j k (p ∷ ps) [] (t ∷ ts) res h = absurd res
  declare_params_total id i j k (p ∷ ps) (a ∷ as') (t ∷ ts) (here, res) h =
      elim (Option-cases (parse_json t)) [
        | inl x ↦ absurd (ground arith)
        | inr (v, x) ↦ elim (Result-cases (validate_json fl a v)) [
          | inr (e, y) ↦ absurd (ground arith)
          | inl (_, y) ↦
              let (s, l) = valid-literal fl a v y in
              let arg : argument t ≡ v = ground arith in
              let l' : generate_literal fl a (argument t) ≡ ok s = rw arg l in
              let (more, e) =
                declare_params_total id (i + 1) j (k + 1) ps as' ts res (ground arith) in
              rw (here, ◌>>=◌) (rw (l', ◌>>=◌) (rw (e, ◌>>=◌) (_, refl)))
        ]
      ]

  params_resolve :
      (ps : List FunctionParam) (as' : List Adapter)
      → AreResolved u r ps as'
      → param_adapters u r ps ≡ ok as'
  unfolding param_adapters
  params_resolve [] [] h = refl
  params_resolve [] (a ∷ as') h = absurd h
  params_resolve (p ∷ ps) [] h = absurd h
  params_resolve (p ∷ ps) (a ∷ as') (here, h) =
      rw (here, ◌>>=◌) (rw (params_resolve ps as' h, ◌>>=◌) refl)

  module _ (f : FunctionSpec) (c : Checked) (i : IsChecked u r f c) where
    case_total : (tc : TestCase) → IsCheckedCase fl f c tc → Succeeds (generate_case fl u r f tc)
    unfolding generate_case
    case_total tc k =
        let (d, e) =
          declare_params_total tc.id 0 k.index 0 f.params c.params tc.args i.param_types
            k.args_ok in
        let (o, e2) =
          observations_total f d.1 c.returns
            (all_conditions_total f.params c.returns c.params f.postconditions i.postconditions) in
        rw (e, ◌>>=◌) (rw (i.return_type, ◌>>=◌) (rw (e2, ◌>>=◌) (_, refl)))

    cases_total :
        (tcs : List TestCase)
        → All (IsCheckedCase fl f c) tcs
        → Succeeds (generate_cases fl u r f tcs)
    unfolding generate_cases
    cases_total [] h = ([], refl)
    cases_total (tc ∷ tcs) (k, h) =
        let (t, e) = case_total tc k in
        let (ts, e2) = cases_total tcs h in rw (e, ◌>>=◌) (rw (e2, ◌>>=◌) (_, refl))

    program_total :
        (s : Sources) (source : Text) (tcs : List TestCase)
        → All (IsCheckedCase fl f c) tcs
        → Succeeds (function_program fl u r s source f tcs)
    unfolding function_program generate_main
    program_total s source tcs h =
        let (t, e) = cases_total tcs h in
        let ps = params_resolve f.params c.params i.param_types in
        rw (i.return_type, ◌>>=◌) (rw (ps, ◌>>=◌) (rw (e, ◌>>=◌) (_, refl)))

    request_ok :
        (source : Text) (tcs : List TestCase)
        → text_eq source [] ≡ false
        → All (IsCheckedCase fl f c) tcs
        → validate_request u r source f tcs ≡ ok tt
    unfolding validate_request
    request_ok source tcs nonempty h =
        let returns = i.return_type in
        let named = name_nonempty f.name i.named in
        let typed = i.typed in
        let seen =
          request_observations_ok u f.params c.returns f.observations c.observed i.observations in
        let params = request_params_ok u r 0 f.params c.params i.resolved_params in
        let conditions =
          request_postconditions_ok f.postconditions c.returns c.params i.postconditions in
        let cases =
          request_cases_ok fl f c 0 (length f.params) tcs
            (AreResolved-length u r f.params c.params i.param_types) h in
        ground arith

  -- A function job with a solution that passes validation has a program: the generator's own checks
  -- accept it, and every argument has a literal.
  pub validate_function-generates :
      (s : Sources) (source : Text) (f : FunctionSpec) (tcs : List TestCase)
      → text_eq source [] ≡ false
      → validate_function fl u r f tcs ≡ ok tt
      → Succeeds (generate_function fl u r s source f tcs)
  unfolding validate_function generate_function
  validate_function-generates s source f tcs nonempty h =
      elim (Result-cases (check_function u r f)) [
        | inr (e, x) ↦ absurd (ground arith)
        | inl (c, x) ↦
            let i = check_function-IsChecked u r f c x in
            let cases = check_cases-All fl f c 0 tcs [] (ground arith) in
            let accepted = request_ok f c i source tcs nonempty cases in
            let (t, e) = program_total f c i s source tcs cases in (t, ground arith)
      ]
