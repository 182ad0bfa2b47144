-- ===== src/Program/Modes.antt =====
-- The registry of mode generators (internal/judge/harness/mode.go) with those that
-- internal/judge/cpp_function_harness.go registers. A generator is known by its language and mode.
use yex_judge.Common.{
  Bool, ◌&&◌, Option, none, some, List, [], ◌∷◌, Text, codes, text_eq, if◌then◌else◌,
}
use yex_judge.Types.{Job, TestCase}
use yex_judge.Types.Mode.{ExecutionContract, execution_mode, mode_function, mode_class}

pub data ModeGenerator : Type 0 where
  cpp_function_generator cpp_class_generator : ModeGenerator
  python_function_generator python_class_generator : ModeGenerator

pub record ModeRequest : Type 0 where
  pub source_code : Text
  pub contract : ExecutionContract
  pub test_cases : List TestCase

pub record GeneratedProgram : Type 0 where
  pub source_code : Text
  pub source_file : Text

-- Language and Mode of a generator.
unfoldable pub language_of : ModeGenerator → Text
language_of cpp_function_generator = codes "cpp"
language_of cpp_class_generator = codes "cpp"
language_of python_function_generator = codes "python"
language_of python_class_generator = codes "python"

unfoldable pub mode_of : ModeGenerator → Text
mode_of cpp_function_generator = mode_function
mode_of cpp_class_generator = mode_class
mode_of python_function_generator = mode_function
mode_of python_class_generator = mode_class

abbrev pub ModeRegistry : Type 0
ModeRegistry = List (Text × Text × ModeGenerator)

abbrev is_key : Text → Text → Text → Text → Bool
is_key language mode l m = text_eq l language && text_eq m mode

unfoldable pub put_generator : ModeGenerator → ModeRegistry → ModeRegistry
unfolding language_of mode_of
put_generator g [] = (language_of g, mode_of g, g) ∷ []
put_generator g ((l, m, h) ∷ r) =
    if is_key (language_of g) (mode_of g) l m then (l, m, g) ∷ r else (l, m, h) ∷ put_generator g r

unfoldable pub put_generators : List ModeGenerator → ModeRegistry → ModeRegistry
unfolding put_generator
put_generators [] r = r
put_generators (g ∷ gs) r = put_generators gs (put_generator g r)

unfoldable pub new_mode_registry : List ModeGenerator → ModeRegistry
unfolding put_generators
new_mode_registry gs = put_generators gs []

unfoldable pub get_generator : ModeRegistry → Text → Text → Option ModeGenerator
get_generator [] language mode = none
get_generator ((l, m, g) ∷ r) language mode =
    if is_key language mode l m then some g else get_generator r language mode

unfoldable pub execution_mode_registry : ModeRegistry
unfolding new_mode_registry
execution_mode_registry = new_mode_registry (
    cpp_function_generator ∷ cpp_class_generator ∷ python_function_generator
    ∷ python_class_generator ∷ [])

-- The request that generateModeProgram makes of a job.
unfoldable pub request_of : Job → ModeRequest
unfolding execution_mode
request_of job = record {
  source_code = job.source_code;
  contract = record { mode = execution_mode job; function = job.function; class = job.class };
  test_cases = job.test_cases;
}
