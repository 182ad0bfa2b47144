-- ===== src/Program/Generates.antt =====
-- A function job that passes validateFunctionJob (internal/judge/validate.go) also passes the
-- checks of the generator (internal/judge/harness/cpp/function.go).
use yex_judge.Common.{
  ℕ, ◌+◌, ◌≡◌, refl, sym, ap, ◌∙◌, subst, ℤ, to_nat, true, false, not, ◌&&◌, ◌||◌, Bool-cases,
  Option-cases, some, List, [], ◌∷◌, ◌++◌, inl, inr, Text, codes, text_eq, ok, Result-cases, ◌==◌,
  length, All, arith,
}
use yex_judge.Types.{FunctionParam, FunctionSpec, ObservationSpec, PostconditionSpec, TestCase}
use yex_judge.CppType.{Unicode}
use yex_judge.Json.{Json}
use yex_judge.Json.Parse.{parse_json}
use yex_judge.Adapters.{Adapter}
use yex_judge.Adapters.Scalars.{Floats}
use yex_judge.Adapters.Values.{validate_json}
use yex_judge.Adapters.Registry.{Registry, resolve}
use yex_judge.FunctionJob.{
  is_cpp_identifier, is_found, resolve_params, Observed, observation_of, check_view,
  check_parameter, check_return, check_observation, check_observations, validate_observations,
  Checked, check_postconditions, validate_postconditions,
}
use yex_judge.FunctionJob.Expected.{validate_expected}
use yex_judge.FunctionJob.Cases.{check_args, check_case, check_cases}
use yex_judge.FunctionJob.Metadata.{check_parameter_ok, check_return_ok}
use yex_judge.Program.Requests.{
  Seen, is_among, observe_return, observe_parameter, observe_one, observe_all, request_observations,
  request_conditions, request_postconditions, request_args, request_cases, request_params,
}

found-append :
    (k p : ℕ) (o : ObservationSpec) (m : List (ℕ × ObservationSpec))
    → is_found (observation_of k (m ++ (p, o) ∷ [])) ≡ (p == k || is_found (observation_of k m))
unfolding observation_of
found-append k p o [] = ground arith
found-append k p o ((j, q) ∷ m) = ground (arith, found-append k p o m)

-- The two loops over the observations have seen the same.
record Agrees (a : Observed) (b : Seen) : Type 0 where
  returned : b.return_seen ≡ a.returned
  parameters : (k : ℕ) → is_among k b.parameter_seen ≡ is_found (observation_of k a.parameters)

module _ (u : Unicode) (ps : List FunctionParam) (returns : Adapter) where
  observe_return_ok :
      (i : ℕ) (a next : Observed) (b : Seen)
      → Agrees a b
      → check_return u ps returns i a ≡ ok next
      → (c : Seen) × (observe_return u ps returns i b ≡ ok c) × Agrees next c
  unfolding check_return observe_return
  observe_return_ok i a next b g h =
      let r = g.returned in
      let same = check_return_ok u ps returns i a next h in
      (
        record b { return_seen = true },
        ground arith,
        subst (λ z. Agrees z (record b { return_seen = true })) (sym same)
            (record { returned = refl; parameters = g.parameters }),
      )

  observe_parameter_ok :
      (i : ℕ) (o : ObservationSpec) (a next : Observed) (b : Seen)
      → Agrees a b
      → check_parameter u ps returns i o a ≡ ok next
      → (c : Seen) × (observe_parameter u ps returns i o b ≡ ok c) × Agrees next c
  unfolding check_parameter observe_parameter is_among
  observe_parameter_ok i o a next b g h =
      let k = to_nat o.parameter in
      let c : Seen = record b { parameter_seen = k ∷ b.parameter_seen } in
      let here = g.parameters k in
      let (same, below) = check_parameter_ok u ps returns i o a next h in
      elim (Result-cases (check_view u ps returns i o)) [
        | inr (e, x) ↦ absurd (ground arith)
        | inl (_, x) ↦ (
          c,
          ground arith,
          subst (λ z. Agrees z c) (sym same)
              (record {
                returned = g.returned;
                parameters = λ j.
                    ap (λ z. k == j || z) (g.parameters j) ∙ sym (found-append j k o a.parameters);
              }),
        )
      ]

  observe_all_ok :
      (i : ℕ) (os : List ObservationSpec) (a after : Observed) (b : Seen)
      → Agrees a b
      → check_observations u ps returns i os a ≡ ok after
      → observe_all u ps returns i os b ≡ ok tt
  unfolding check_observations check_observation observe_all observe_one
  observe_all_ok i [] a after b g h = refl
  observe_all_ok i (o ∷ os) a after b g h = elim (Bool-cases (text_eq o.kind (codes "return"))) [
    | inl k ↦ elim (Result-cases (check_return u ps returns i a)) [
      | inr (e, x) ↦ absurd (ground arith)
      | inl (next, x) ↦
          let (c, y, g') = observe_return_ok i a next b g x in
          let rest = observe_all_ok (i + 1) os next after c g' (ground arith) in ground arith
    ]
    | inr k ↦ elim (Bool-cases (text_eq o.kind (codes "parameter"))) [
      | inr l ↦ absurd (ground arith)
      | inl l ↦ elim (Result-cases (check_parameter u ps returns i o a)) [
        | inr (e, x) ↦ absurd (ground arith)
        | inl (next, x) ↦
            let (c, y, g') = observe_parameter_ok i o a next b g x in
            let rest = observe_all_ok (i + 1) os next after c g' (ground arith) in ground arith
      ]
    ]
  ]

  pub request_observations_ok :
      (os : List ObservationSpec) (after : Observed)
      → validate_observations u ps returns os ≡ ok after
      → request_observations u ps returns os ≡ ok tt
  unfolding validate_observations request_observations observation_of is_among
  request_observations_ok [] after h = ground arith
  request_observations_ok (o ∷ os) after h =
      observe_all_ok 0 (o ∷ os) (record { returned = false; parameters = [] }) after
        (record { return_seen = false; parameter_seen = [] })
        (record { returned = refl; parameters = λ k. refl }) h

kind_nonempty :
    (k : Text)
    → (not (text_eq k (codes "disjoint")) && not (text_eq k (codes "same_as"))) ≡ false
    → text_eq k [] ≡ false
unfolding text_eq
kind_nonempty [] h = cc
kind_nonempty (c ∷ s) h = refl

request_conditions_ok :
    (returns : Adapter) (as' : List Adapter) (i : ℕ) (ps : List PostconditionSpec)
    (seen : List (Text × ℤ))
    → check_postconditions returns as' i ps seen ≡ ok tt
    → request_conditions returns as' i ps seen ≡ ok tt
unfolding check_postconditions request_conditions
request_conditions_ok returns as' i [] seen h = refl
request_conditions_ok returns as' i (p ∷ ps) seen h = ground (
  arith,
  kind_nonempty p.kind,
  request_conditions_ok returns as' (i + 1) ps ((p.kind, p.from_parameter) ∷ seen),
)

pub request_postconditions_ok :
    (ps : List PostconditionSpec) (returns : Adapter) (as' : List Adapter)
    → validate_postconditions ps returns as' ≡ ok tt
    → request_postconditions ps returns as' ≡ ok tt
unfolding validate_postconditions request_postconditions
request_postconditions_ok [] returns as' h = refl
request_postconditions_ok (p ∷ ps) returns as' h =
    ground (arith, request_conditions_ok returns as' 0 (p ∷ ps) [])

pub name_nonempty : (s : Text) → is_cpp_identifier s ≡ true → text_eq s [] ≡ false
unfolding is_cpp_identifier
name_nonempty s h = ground arith

pub request_params_ok :
    (u : Unicode) (r : Registry) (i : ℕ) (ps : List FunctionParam) (as' : List Adapter)
    → resolve_params u r i ps ≡ ok as'
    → request_params u r i ps ≡ ok as'
unfolding resolve_params request_params
request_params_ok u r i [] as' h = ground arith
request_params_ok u r i (p ∷ ps) as' h = elim (Result-cases (resolve r u p.type)) [
  | inr (e, x) ↦ absurd (ground arith)
  | inl (a, x) ↦ elim (Result-cases (resolve_params u r (i + 1) ps)) [
    | inr (e, y) ↦ absurd (ground arith)
    | inl (bs, y) ↦ ground (arith, name_nonempty p.name, request_params_ok u r (i + 1) ps bs y)
  ]
]

args_valid :
    (fl : Floats) (i j k : ℕ) (id : ℤ) (as' : List Adapter) (ts : List Text)
    → length ts ≡ length as'
    → check_args fl i j as' ts ≡ ok tt
    → request_args id k ts ≡ ok tt
unfolding check_args request_args
args_valid fl i j k id as' [] l h = refl
args_valid fl i j k id [] (t ∷ ts) l h = absurd (omega arith)
args_valid fl i j k id (a ∷ as') (t ∷ ts) l h = elim (Option-cases (parse_json t)) [
  | inl x ↦ absurd (ground arith)
  | inr (v, x) ↦ elim (Result-cases (validate_json fl a v)) [
    | inr (e, y) ↦ absurd (ground arith)
    | inl (_, y) ↦
        let rest = args_valid fl i (j + 1) (k + 1) id as' ts (omega arith) (ground arith) in
        ground arith
  ]
]

-- What is known of a case that passed its checks.
pub record IsCheckedCase (fl : Floats) (f : FunctionSpec) (c : Checked) (tc : TestCase)
    : Type 0 where
  pub index : ℕ
  pub as_many : length tc.args ≡ length c.params
  pub args_ok : check_args fl index 0 c.params tc.args ≡ ok tt
  pub some_expected : (length tc.expected == 0) ≡ false
  pub value : Json
  pub parsed : parse_json tc.expected ≡ some value

module _ (fl : Floats) (f : FunctionSpec) (c : Checked) where
  check_case-IsCheckedCase :
      (i : ℕ) (tc : TestCase) (seen : List ℤ)
      → check_case fl f c i tc seen ≡ ok tt
      → IsCheckedCase fl f c tc
  unfolding check_case
  check_case-IsCheckedCase i tc seen h = elim (Option-cases (parse_json tc.expected)) [
    | inl x ↦ absurd (ground arith)
    | inr (v, x) ↦ elim (Result-cases (validate_expected fl f c v)) [
      | inr (e, y) ↦ absurd (ground arith)
      | inl (_, y) ↦ elim (Result-cases (check_args fl i 0 c.params tc.args)) [
        | inr (e, z) ↦ absurd (ground arith)
        | inl (_, z) ↦ record {
          index = i;
          as_many = ground arith;
          args_ok = z;
          some_expected = ground arith;
          value = v;
          parsed = x;
        }
      ]
    ]
  ]

  pub check_cases-All :
      (i : ℕ) (tcs : List TestCase) (seen : List ℤ)
      → check_cases fl f c i tcs seen ≡ ok tt
      → All (IsCheckedCase fl f c) tcs
  unfolding check_cases
  check_cases-All i [] seen h = tt
  check_cases-All i (tc ∷ tcs) seen h = elim (Result-cases (check_case fl f c i tc seen)) [
    | inr (e, x) ↦ absurd (ground arith)
    | inl (_, x) ↦ (
      check_case-IsCheckedCase i tc seen x,
      check_cases-All (i + 1) tcs (tc.id ∷ seen) (ground arith),
    )
  ]

  pub request_cases_ok :
      (i n : ℕ) (tcs : List TestCase)
      → n ≡ length c.params
      → All (IsCheckedCase fl f c) tcs
      → request_cases n i tcs ≡ ok tt
  unfolding request_cases
  request_cases_ok i n [] l h = refl
  request_cases_ok i n (tc ∷ tcs) l (k, h) =
      let many = k.as_many in
      let args = args_valid fl k.index 0 0 tc.id c.params tc.args k.as_many k.args_ok in
      let nonempty = k.some_expected in
      let parsed = k.parsed in let rest = request_cases_ok (i + 1) n tcs l h in ground arith
