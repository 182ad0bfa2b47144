-- ===== src/Program/Classes.antt =====
-- The program around a C++ class solution: generateClassMain, generateClassCase and Generate of
-- internal/judge/harness/cpp/class.go.
use yex_judge.Common.{
  ℕ, ◌+◌, ℤ, List, [], ◌∷◌, ◌++◌, Text, codes, text_eq, join, Result, ok, err, ◌>>=◌, if◌then◌else◌,
  itoa, decimal, ◌==◌,
}
use yex_judge.Types.{FunctionParam, ClassSpec, ClassOperationSpec, OperationCall, TestCase}
use yex_judge.CppType.{Unicode}
use yex_judge.Adapters.{Adapter, canonical_name, cpp_type, serialize_expression}
use yex_judge.Adapters.Scalars.{Floats}
use yex_judge.Adapters.Values.{generate_literal}
use yex_judge.Adapters.Registry.{Registry, RegistryError, resolve}
use yex_judge.FunctionJob.{is_void}
use yex_judge.Program.{
  Sources, concat, line, lines, headers, ProgramError, unresolved, resolved, support_source,
  param_adapters,
}
use yex_judge.Program.Functions.{argument, literal_or}

-- findClassOperation: the first of a name, or one whose fields are empty.
unfoldable pub find_operation : Text → List ClassOperationSpec → ClassOperationSpec
find_operation k [] = record { name = []; return_type = []; params = [] }
find_operation k (o ∷ os) = if text_eq o.name k then o else find_operation k os

abbrev class_head : Text
class_head = lines (
    codes "int main() {"
    ∷ codes "    ios::sync_with_stdio(false);"
    ∷ codes "    cin.tie(nullptr);"
    ∷ codes "    int __case_id;"
    ∷ codes "    if (!(cin >> __case_id)) return 1;"
    ∷ codes "    switch (__case_id) {"
    ∷ [])

abbrev class_tail : Text
class_tail =
    lines (codes "    default: return 1;" ∷ codes "    }" ∷ codes "    return 0;" ∷ codes "}" ∷ [])

-- The name of the argument for a parameter of the constructor.
unfoldable pub constructor_arg : ℕ → FunctionParam → Text
unfolding decimal
constructor_arg i p = if text_eq p.name [] then codes "__constructor_arg_" ++ decimal i else p.name

unfoldable pub operation_arg : ℕ → ℕ → FunctionParam → Text
unfolding decimal
operation_arg k i p = concat (codes "__operation_" ∷ decimal k ∷ codes "_arg_" ∷ decimal i ∷ [])

module _ (fl : Floats) (u : Unicode) (r : Registry) where
  -- The declarations of arguments, which `name_of` names, and their names.
  unfoldable pub declare_args :
      (ℕ → FunctionParam → Text)
      → ℤ
      → ℕ
      → List FunctionParam
      → List Text
      → Result ProgramError (Text × List Text)
  unfolding resolve generate_literal canonical_name
  declare_args name_of id i (p ∷ ps) (t ∷ ts) = do
    a ← resolved unresolved (resolve r u p.type)
    literal ← literal_or id i (generate_literal fl a (argument t))
    more ← declare_args name_of id (i + 1) ps ts
    ok (
      line (
            codes "        "
            ∷ cpp_type a
            ∷ codes " "
            ∷ name_of i p
            ∷ codes " = "
            ∷ literal
            ∷ codes ";"
            ∷ [])
          ++ more.0,
      name_of i p ∷ more.1,
    )
  declare_args name_of id i _ _ = ok ([], [])

  abbrev separator : ℕ → Text
  separator k = if k == 0 then [] else line (codes "        cout << \",\";" ∷ [])

  -- One call and the printing of its result.
  unfoldable pub generate_call :
      ℤ → List ClassOperationSpec → ℕ → OperationCall → Result ProgramError Text
  unfolding find_operation declare_args operation_arg resolve canonical_name serialize_expression
      decimal
  generate_call id ops k call = do
    let o = find_operation call.name ops
    args ← declare_args (operation_arg k) id 0 o.params call.args
    returns ← resolved unresolved (resolve r u o.return_type)
    let invocation =
        concat (codes "__object." ∷ o.name ∷ codes "(" ∷ join args.1 (codes ", ") ∷ codes ")" ∷ [])
    let result = codes "__operation_result_" ++ decimal k
    ok (
        concat (
          separator k
          ∷ args.0
          ∷ (if is_void returns
              then lines (
                  concat (codes "        " ∷ invocation ∷ codes ";" ∷ [])
                  ∷ codes "        cout << \"null\";"
                  ∷ [])
              else lines (
                  concat
                    (codes "        auto " ∷ result ∷ codes " = " ∷ invocation ∷ codes ";" ∷ [])
                  ∷ concat (
                      codes "        cout << "
                      ∷ serialize_expression returns result
                      ∷ codes ";"
                      ∷ [])
                  ∷ []))
          ∷ []))

  unfoldable pub generate_calls :
      ℤ → List ClassOperationSpec → ℕ → List OperationCall → Result ProgramError Text
  unfolding generate_call
  generate_calls id ops k [] = ok []
  generate_calls id ops k (c ∷ cs) = do
    t ← generate_call id ops k c
    more ← generate_calls id ops (k + 1) cs
    ok (t ++ more)

  abbrev construction : Text → List Text → Text
  construction name [] = line (codes "        " ∷ name ∷ codes " __object{};" ∷ [])
  construction name (a ∷ as') =
      line (
        codes "        "
        ∷ name
        ∷ codes " __object("
        ∷ join (a ∷ as') (codes ", ")
        ∷ codes ");"
        ∷ [])

  -- generateClassCase.
  unfoldable pub generate_class_case : ClassSpec → TestCase → Result ProgramError Text
  unfolding declare_args constructor_arg generate_calls itoa
  generate_class_case c tc = do
    args ← declare_args constructor_arg tc.id 0 c.constructor.params tc.constructor_args
    calls ← generate_calls tc.id c.operations 0 tc.operations
    ok (
        concat (
          line (codes "    case " ∷ itoa tc.id ∷ codes ": {" ∷ [])
          ∷ args.0
          ∷ construction c.name args.1
          ∷ line (codes "        cout << \"[\";" ∷ [])
          ∷ calls
          ∷ lines (codes "        cout << \"]\";" ∷ codes "        break;" ∷ codes "    }" ∷ [])
          ∷ []))

  unfoldable pub generate_class_cases : ClassSpec → List TestCase → Result ProgramError Text
  unfolding generate_class_case
  generate_class_cases c [] = ok []
  generate_class_cases c (tc ∷ tcs) = do
    t ← generate_class_case c tc
    more ← generate_class_cases c tcs
    ok (t ++ more)

  -- generateClassMain.
  unfoldable pub generate_class_main : ClassSpec → List TestCase → Result ProgramError Text
  unfolding generate_class_cases
  generate_class_main c tcs = do
    cases ← generate_class_cases c tcs
    ok (class_head ++ (cases ++ class_tail))

  -- The types of the operations: of each its result, then its parameters.
  unfoldable pub operation_adapters : List ClassOperationSpec → Result RegistryError (List Adapter)
  unfolding resolve param_adapters
  operation_adapters [] = ok []
  operation_adapters (o ∷ os) = do
    returns ← resolve r u o.return_type
    params ← param_adapters u r o.params
    more ← operation_adapters os
    ok (returns ∷ (params ++ more))

  -- resolveClassAdapters.
  unfoldable pub class_adapters : ClassSpec → Result RegistryError (List Adapter)
  unfolding param_adapters operation_adapters
  class_adapters c = do
    params ← param_adapters u r c.constructor.params
    more ← operation_adapters c.operations
    ok (params ++ more)

  unfoldable pub class_program :
      Sources → Text → ClassSpec → List TestCase → Result ProgramError Text
  unfolding class_adapters support_source generate_class_main
  class_program s source c tcs = do
    adapters ← elim (class_adapters c) [ err e ↦ err (unresolved e) | ok as' ↦ ok as' ]
    main ← generate_class_main c tcs
    ok (
        concat (
          headers
          ∷ line (s.serializer ∷ [])
          ∷ line (support_source s adapters ∷ [])
          ∷ lines (source ∷ [] ∷ [])
          ∷ main
          ∷ []))
