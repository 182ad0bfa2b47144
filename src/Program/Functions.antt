-- ===== src/Program/Functions.antt =====
-- The program around a C++ function solution: generateMain, generateCase, generateObservations and
-- Generate of internal/judge/harness/cpp/function.go.
use yex_judge.Common.{
  ℕ, ◌+◌, ℤ, to_nat, Bool, false, not, ◌&&◌, ◌||◌, none, some, List, [], ◌∷◌, ◌++◌, Text, codes,
  text_eq, join, Result, ok, err, ◌>>=◌, get_elem?, if◌then◌else◌, itoa, decimal,
}
use yex_judge.Types.{FunctionParam, FunctionSpec, ObservationSpec, PostconditionSpec, TestCase}
use yex_judge.CppType.{Unicode}
use yex_judge.Json.{Json, null}
use yex_judge.Json.Parse.{parse_json}
use yex_judge.Adapters.{
  Adapter, runtime, ValueError, canonical_name, cpp_type, serialize_expression,
  postcondition_expression,
}
use yex_judge.Adapters.Scalars.{Floats}
use yex_judge.Adapters.Values.{generate_literal}
use yex_judge.Adapters.Registry.{Registry, resolve}
use yex_judge.FunctionJob.{is_void, adapter_at}
use yex_judge.FunctionJob.Expected.{is_empty}
use yex_judge.Program.{
  Sources, concat, line, lines, headers, ProgramError, unresolved, bad_argument, no_postconditions,
  bad_postcondition, resolved, support_source, param_adapters,
}
use yex_judge.Program.Requests.{RequestError, validate_request}

-- The value of an argument that json.Valid has accepted.
abbrev pub argument : Text → Json
argument t = elim (parse_json t) [ none ↦ null | some v ↦ v ]

abbrev pub literal_or : ℤ → ℕ → Result ValueError Text → Result ProgramError Text
literal_or id i (ok t) = ok t
literal_or id i (err e) = err (bad_argument id i e)

abbrev pub param_name : List FunctionParam → ℕ → Text
param_name ps i = elim (get_elem? ps i) [ none ↦ [] | some p ↦ p.name ]

abbrev main_head : Text
main_head = lines (
    codes "int main() {"
    ∷ codes "    ios::sync_with_stdio(false);"
    ∷ codes "    cin.tie(nullptr);"
    ∷ codes "    int __case_id;"
    ∷ codes "    if (!(cin >> __case_id)) return 1;"
    ∷ codes "    Solution __solution;"
    ∷ codes "    switch (__case_id) {"
    ∷ [])

abbrev main_tail : Text
main_tail = lines (
    codes "    default:"
    ∷ codes "        return 1;"
    ∷ codes "    }"
    ∷ codes "    return 0;"
    ∷ codes "}"
    ∷ [])

-- The observed parameters: all observations but those of the return value.
unfoldable pub other_observations : List ObservationSpec → List ObservationSpec
other_observations [] = []
other_observations (o ∷ os) =
    let rest = other_observations os in if text_eq o.kind (codes "return") then rest else o ∷ rest

unfoldable pub has_return : List ObservationSpec → Bool
has_return [] = false
has_return (o ∷ os) = text_eq o.kind (codes "return") || has_return os

abbrev key : Text → Text
key k = concat (codes " << \"\\\"" ∷ k ∷ codes "\\\":\" << " ∷ [])

-- The printed value of each observed parameter.
unfoldable pub observed_values :
    List FunctionParam → List Adapter → List ObservationSpec → List Text
unfolding serialize_expression
observed_values ps as' [] = []
observed_values ps as' (o ∷ os) =
    let name = param_name ps (to_nat o.parameter) in
    let value =
      if text_eq o.view (codes "prefix")
      then concat (codes "__serialize_prefix(" ∷ name ∷ codes ", __result)" ∷ [])
      else serialize_expression (adapter_at as' (to_nat o.parameter)) name in
    (key (itoa o.parameter) ++ value) ∷ observed_values ps as' os

abbrev condition_or : Result ValueError Text → Result ProgramError Text
condition_or (ok t) = ok t
condition_or (err e) = err (bad_postcondition e)

-- PostconditionExpression of a PostconditionAdapter.
unfoldable pub condition_of : Adapter → Text → Text → Text → Result ProgramError Text
unfolding postcondition_expression
condition_of (runtime r) kind value other =
    condition_or (postcondition_expression r kind value other)
condition_of _ kind value other = err no_postconditions

unfoldable pub checked_conditions :
    List FunctionParam → Adapter → ℕ → List PostconditionSpec → Result ProgramError (List Text)
unfolding condition_of
checked_conditions ps returns i [] = ok []
checked_conditions ps returns i (p ∷ rest) = do
  t ← condition_of returns p.kind (codes "__result") (param_name ps (to_nat p.from_parameter))
  more ← checked_conditions ps returns (i + 1) rest
  ok (concat (key (decimal i) ∷ codes "__serialize(" ∷ t ∷ codes ")" ∷ []) ∷ more)

abbrev comma : Text
comma = codes " << \",\""

abbrev if_some {ℓ} : {A : Type ℓ} → List A → Text → Text
if_some [] t = []
if_some (x ∷ xs) t = t

-- The printing of the observation object.
unfoldable pub observation_source : FunctionSpec → List Adapter → Adapter → Result ProgramError Text
unfolding other_observations has_return observed_values checked_conditions serialize_expression
observation_source f as' returns =
    let returned = is_empty f.observations || has_return f.observations in
    let others = other_observations f.observations in
    let return_part =
      if returned
      then key (codes "return") ++ serialize_expression returns (codes "__result")
      else [] in
    let parameter_part = concat (
      (if returned then comma else [])
      ∷ codes " << \"\\\"parameter\\\":{\""
      ∷ join (observed_values f.params as' others) comma
      ∷ codes " << \"}\""
      ∷ []) in
    do
      conditions ← checked_conditions f.params returns 0 f.postconditions
      ok (
          line (
            codes "        cout << \"{\""
            ∷ return_part
            ∷ if_some others parameter_part
            ∷ if_some f.postconditions (
                concat (
                  (if returned || not (is_empty others) then comma else [])
                  ∷ codes " << \"\\\"postconditions\\\":{\""
                  ∷ join conditions comma
                  ∷ codes " << \"}\""
                  ∷ []))
            ∷ codes " << \"}\";"
            ∷ []))

-- generateObservations.
unfoldable pub generate_observations :
    FunctionSpec → List Adapter → Adapter → Result ProgramError Text
unfolding observation_source serialize_expression
generate_observations f as' returns =
    if is_empty f.observations && is_empty f.postconditions
    then ok (
        line (
          codes "        cout << "
          ∷ serialize_expression returns (codes "__result")
          ∷ codes ";"
          ∷ []))
    else observation_source f as' returns

abbrev names_of : List FunctionParam → List Text
names_of [] = []
names_of (p ∷ ps) = p.name ∷ names_of ps

pub data GenerateError : Type 0 where
  request : RequestError → GenerateError
  program : ProgramError → GenerateError

module _ (fl : Floats) (u : Unicode) (r : Registry) where
  -- The declarations of the parameters of a case, from parameter `i` on, and their types.
  unfoldable pub declare_params :
      ℤ → ℕ → List FunctionParam → List Text → Result ProgramError (Text × List Adapter)
  unfolding resolve generate_literal canonical_name
  declare_params id i (p ∷ ps) (t ∷ ts) = do
    a ← resolved unresolved (resolve r u p.type)
    literal ← literal_or id i (generate_literal fl a (argument t))
    more ← declare_params id (i + 1) ps ts
    ok (
      line (
            codes "        "
            ∷ cpp_type a
            ∷ codes " "
            ∷ p.name
            ∷ codes " = "
            ∷ literal
            ∷ codes ";"
            ∷ [])
          ++ more.0,
      a ∷ more.1,
    )
  declare_params id i _ _ = ok ([], [])

  -- generateCase.
  unfoldable pub generate_case : FunctionSpec → TestCase → Result ProgramError Text
  unfolding declare_params resolve generate_observations canonical_name itoa
  generate_case f tc = do
    declared ← declare_params tc.id 0 f.params tc.args
    returns ← resolved unresolved (resolve r u f.return_type)
    observations ← generate_observations f declared.1 returns
    let invocation = concat (
        codes "__solution."
        ∷ f.name
        ∷ codes "("
        ∷ join (names_of f.params) (codes ", ")
        ∷ codes ")"
        ∷ [])
    ok (
        concat (
          line (codes "    case " ∷ itoa tc.id ∷ codes ": {" ∷ [])
          ∷ declared.0
          ∷ (if is_void returns
              then line (codes "        " ∷ invocation ∷ codes ";" ∷ [])
              else line (codes "        auto __result = " ∷ invocation ∷ codes ";" ∷ []))
          ∷ observations
          ∷ lines (codes "        break;" ∷ codes "    }" ∷ [])
          ∷ []))

  unfoldable pub generate_cases : FunctionSpec → List TestCase → Result ProgramError Text
  unfolding generate_case
  generate_cases f [] = ok []
  generate_cases f (tc ∷ tcs) = do
    t ← generate_case f tc
    more ← generate_cases f tcs
    ok (t ++ more)

  -- generateMain.
  unfoldable pub generate_main : FunctionSpec → List TestCase → Result ProgramError Text
  unfolding generate_cases
  generate_main f tcs = do cases ← generate_cases f tcs; ok (main_head ++ (cases ++ main_tail))

  -- The program behind the checks: headers, helpers, the solution and main.
  unfoldable pub function_program :
      Sources → Text → FunctionSpec → List TestCase → Result ProgramError Text
  unfolding resolve param_adapters support_source generate_main
  function_program s source f tcs = do
    returns ← resolved unresolved (resolve r u f.return_type)
    params ← elim (param_adapters u r f.params) [ err e ↦ err (unresolved e) | ok as' ↦ ok as' ]
    main ← generate_main f tcs
    ok (
        concat (
          headers
          ∷ line (s.serializer ∷ [])
          ∷ line (support_source s (returns ∷ params) ∷ [])
          ∷ lines (source ∷ [] ∷ [])
          ∷ main
          ∷ []))

  -- FunctionGenerator.Generate.
  unfoldable pub generate_function :
      Sources → Text → FunctionSpec → List TestCase → Result GenerateError Text
  unfolding validate_request function_program
  generate_function s source f tcs = elim (validate_request u r source f tcs) [
    | err e ↦ err (request e)
    | ok _ ↦ elim (function_program s source f tcs) [ err e ↦ err (program e) | ok t ↦ ok t ]
  ]
