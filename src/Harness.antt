-- ===== src/Harness.antt =====
-- The C++ harness as the judge uses it (internal/judge: cpp_function_harness.go, validate.go,
-- testcases.go, and the source of workspace.go): it fills the parameters of Job and Verdict. The
-- generators for Python and the texts of errors stay parameters.
pub mod Accepted
pub mod Generators
pub mod Kinds
pub mod Compiled
pub mod AnyOrder
pub mod Tests
use yex_judge.Common.{
  ◌&&◌, Option, none, some, List, [], Text, codes, text_eq, Result, ok, err, ◌>>=◌, ◌>>◌, reject_if,
  not, ◌||◌, if◌then◌else◌,
}
use yex_judge.Types.{Job, TestCase, FunctionSpec, ClassSpec}
use yex_judge.Types.Mode.{
  is_some, execution_mode, mode_function, mode_class, ContractError, validate_contract,
}
use yex_judge.CppType.{Unicode}
use yex_judge.Adapters.Scalars.{Floats}
use yex_judge.Json.{Json, last_value, as_object}
use yex_judge.Json.Parse.{parse_json}
use yex_judge.Adapters.Unordered.{canonical_unordered_array}
use yex_judge.FunctionJob.Expected.{is_empty}
use yex_judge.Adapters.Registry.{Registry, RegistryError}
use yex_judge.FunctionJob.Cases.{CaseError, validate_function}
use yex_judge.FunctionJob.Output.{OutputError, function_output}
use yex_judge.ClassJob.{ClassError, validate_class}
use yex_judge.ClassJob.Output.{ClassOutputError, class_output}
use yex_judge.Program.{Sources, ProgramError}
use yex_judge.Program.Functions.{GenerateError, generate_function}
use yex_judge.Program.Classes.{class_program}
use yex_judge.Program.Modes.{
  ModeGenerator, cpp_function_generator, cpp_class_generator, ModeRequest, GeneratedProgram,
  get_generator, execution_mode_registry, request_of,
}
use yex_judge.Languages.{Spec}
use yex_judge.Job.{Metadata}
use yex_judge.Verdict.{Canonical}

pub data HarnessError : Type 0 where
  bad_case : CaseError → HarnessError
  bad_class : ClassError → HarnessError
  bad_program : ProgramError → HarnessError
  bad_function : GenerateError → HarnessError
  bad_contract : ContractError → HarnessError
  unsupported : Text → Text → HarnessError
  wrong_mode : Text → HarnessError
  no_metadata : HarnessError
  wrong_source_file : Text → Text → HarnessError
  python_error : Text → HarnessError
  no_output : OutputError → HarnessError
  no_class_output : ClassOutputError → HarnessError

-- `python` is GenerateMode of the generators for Python, and `marshal_fields` is json.Marshal of the
-- fields of an object with another text for its `return`.
pub record Harness : Type 0 where
  pub floats : Floats
  pub unicode : Unicode
  pub registry : Registry
  pub sources : Sources
  pub error_text : HarnessError → Text
  pub python : ModeGenerator → ModeRequest → Result Text GeneratedProgram
  pub marshal_fields : Text → Text → Text

abbrev pub main_program : Text → GeneratedProgram
main_program t = record { source_code = t; source_file = codes "main.cpp" }

module _ (h : Harness) where
  -- validateFunctionJob of a C++ job.
  unfoldable pub function_error : Job → Option Text
  function_error job = elim job.function [
    | none ↦ none
    | some f ↦ elim (validate_function h.floats h.unicode h.registry f job.test_cases) [
      | ok _ ↦ none
      | err e ↦ some (h.error_text (bad_case e))
    ]
  ]

  -- ClassGenerator.Generate.
  unfoldable pub generate_class : Text → ClassSpec → List TestCase → Result HarnessError Text
  generate_class source c tcs = elim (validate_class h.unicode h.registry h.floats source c tcs) [
    | err e ↦ err (bad_class e)
    | ok _ ↦ elim (class_program h.floats h.unicode h.registry h.sources source c tcs) [
      | err e ↦ err (bad_program e)
      | ok t ↦ ok t
    ]
  ]

  abbrev with_contract : Result ContractError (Unit {0}) → Result HarnessError (Unit {0})
  with_contract (ok _) = ok tt
  with_contract (err e) = err (bad_contract e)

  -- GenerateMode of FunctionGenerator and of ClassGenerator behind the check of the contract, which
  -- leaves no request without the metadata of its mode.
  abbrev function_mode : ModeRequest → Result HarnessError GeneratedProgram
  function_mode q = elim q.contract.function [
    | none ↦ err no_metadata
    | some f ↦
        elim (generate_function h.floats h.unicode h.registry h.sources q.source_code f
          q.test_cases) [ err e ↦ err (bad_function e) | ok t ↦ ok (main_program t) ]
  ]

  abbrev class_mode : ModeRequest → Result HarnessError GeneratedProgram
  class_mode q = elim q.contract.class [
    | none ↦ err no_metadata
    | some c ↦ elim (generate_class q.source_code c q.test_cases) [
      | err e ↦ err e
      | ok t ↦ ok (main_program t)
    ]
  ]

  abbrev from_python : Result Text GeneratedProgram → Result HarnessError GeneratedProgram
  from_python (ok p) = ok p
  from_python (err t) = err (python_error t)

  unfoldable pub generate_mode : ModeGenerator → ModeRequest → Result HarnessError GeneratedProgram
  unfolding generate_class
  generate_mode cpp_function_generator q = do
    with_contract (validate_contract q.contract)
    reject_if (not (text_eq q.contract.mode mode_function)) (wrong_mode q.contract.mode)
    function_mode q
  generate_mode cpp_class_generator q = do
    with_contract (validate_contract q.contract)
    reject_if (not (text_eq q.contract.mode mode_class)) (wrong_mode q.contract.mode)
    class_mode q
  generate_mode g q = from_python (h.python g q)

  -- generateModeProgram.
  unfoldable pub generate_mode_program : Job → Result HarnessError GeneratedProgram
  unfolding generate_mode get_generator execution_mode_registry request_of
  generate_mode_program job =
      elim (get_generator execution_mode_registry job.language (execution_mode job)) [
        | none ↦ err (unsupported job.language (execution_mode job))
        | some g ↦ generate_mode g (request_of job)
      ]

  -- The error of buildCppClassHarness, and of generateModeProgram for a Python job.
  unfoldable pub program_error : Job → Option Text
  program_error job = elim (generate_mode_program job) [
    | ok _ ↦ none
    | err e ↦ some (h.error_text e)
  ]

  unfoldable pub generated_source : Job → Spec → Result HarnessError Text
  unfolding generate_mode_program
  generated_source job spec = do
    program ← generate_mode_program job
    reject_if (not (text_eq program.source_file spec.source_file_name))
        (wrong_source_file program.source_file spec.source_file_name)
    ok program.source_code

  -- The source that createWorkspace writes for a job.
  unfoldable pub workspace_source : Job → Spec → Result HarnessError Text
  unfolding generated_source
  workspace_source job spec =
      if is_some job.function || is_some job.class
      then generated_source job spec
      else ok job.source_code

  unfoldable pub metadata : Metadata
  metadata = record {
    generator_error = program_error;
    class_harness_error = program_error;
    function_error = function_error;
  }

  abbrev function_text : Result OutputError Text → Result Text Text
  function_text (ok t) = ok t
  function_text (err e) = err (h.error_text (no_output e))

  abbrev class_text : Result ClassOutputError Text → Result Text Text
  class_text (ok t) = ok t
  class_text (err e) = err (h.error_text (no_class_output e))

  -- testCaseExpectedOutput: a class goes first.
  unfoldable pub expected_of : Job → TestCase → Result Text Text
  expected_of job tc = elim job.class [
    | some c ↦ class_text (class_output h.unicode h.registry h.floats c tc)
    | none ↦ elim job.function [
      | some f ↦ function_text (function_output h.floats h.unicode h.registry f tc)
      | none ↦ ok tc.expected_output
    ]
  ]

  abbrev some_text : Result RegistryError Text → Option Text
  some_text (ok t) = some t
  some_text (err e) = none

  abbrev with_return : Text → Result RegistryError Text → Option Text
  with_return output (ok t) = some (h.marshal_fields output t)
  with_return output (err e) = none

  -- The branch of an observation object.
  abbrev unordered_fields : FunctionSpec → Text → Option (List (Text × Json)) → Option Text
  unordered_fields f output none = none
  unordered_fields f output (some fields) = elim (last_value (codes "return") fields) [
    | none ↦ none
    | some v ↦
        with_return output (canonical_unordered_array h.floats h.unicode h.registry f.return_type v)
  ]

  -- canonicalizeUnorderedFunctionOutput, where an error is none.
  unfoldable pub unordered_output : FunctionSpec → Text → Option Text
  unfolding canonical_unordered_array parse_json
  unordered_output f output = elim (parse_json output) [
    | none ↦ none
    | some v ↦
        if is_empty f.observations && is_empty f.postconditions
        then some_text (canonical_unordered_array h.floats h.unicode h.registry f.return_type v)
        else unordered_fields f output (as_object v)
  ]

  unfoldable pub canonical : Canonical
  canonical = record { expected_of = expected_of; unordered = unordered_output }
