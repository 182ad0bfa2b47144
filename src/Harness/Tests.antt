-- ===== src/Harness/Tests.antt =====
-- A small C++ function job through ValidateJob and testCaseExpectedOutput.
use yex_judge.Common.{
  join, Text, true, ◌≡◌, refl, [], ◌∷◌, All, ok, err, none, some, pos, codes, text_eq, trim_space,
  drop_trailing, skip_space, is_space,
}
use mathlib.Core.List.{Permᴰ}
use yex_judge.Types.{Job, FunctionSpec, FunctionComparisonSpec}
use yex_judge.Json.{Elems, arr, elem, num, no_elems}
use yex_judge.Adapters.{int_type}
use yex_judge.Adapters.Registry.{resolve}
use yex_judge.Adapters.Unordered.{canonical_unordered}
use yex_judge.Harness.AnyOrder.{ReturnsVector, outputs_equal-perm}
use yex_judge.CppType.Tests.{ascii}
use yex_judge.Adapters.Tests.{plain_floats}
use yex_judge.Adapters.Loops.{Succeeds}
use yex_judge.Program.Tests.{builtin, no_sources, sum_spec, sum_case}
use yex_judge.Job.{validate_job}
use yex_judge.Verdict.{expected_output, outputs_equal}
use yex_judge.Harness.{Harness, metadata, canonical, workspace_source}
use yex_judge.Harness.Accepted.{validate_job-judgeable}
use yex_judge.Harness.Compiled.{validate_job-has_source}
use yex_judge.CppType.{
  parse, parse_type, finish_named, parse_arguments, finish_type, take_suffix, take_const,
  after_long, after_std, parse_name, span_name, consume_word, is_name_char, consume_byte,
  consume_string, byte_length, rune_bytes,
}
use yex_judge.Adapters.Registry.{default_registry}
use yex_judge.FunctionJob.Cases.{validate_function}
use yex_judge.Json.Parse.{parse_json}
use yex_judge.Harness.{function_error}
use yex_judge.Job.{validate_details, validate_mode, validate_bounds, validate_function_job}
use yex_judge.Types.Mode.{execution_mode, valid_mode}
use yex_judge.Languages.{python_spec, cpp_spec, get_spec}

abbrev harness : Harness
harness = record {
  floats = plain_floats;
  unicode = ascii;
  registry = builtin;
  sources = no_sources;
  error_text = λ e. [];
  python = λ g q. err [];
  marshal_fields = λ output t. t;
}

abbrev sum_job : Job
sum_job = record {
  language = codes "cpp";
  mode = codes "function";
  source_code = codes "x";
  function = some sum_spec;
  class = none;
  test_cases = sum_case ∷ [];
  limits = record { time_limit_ms = pos 1000; memory_limit_mb = pos 64 };
}

sum_job_valid : validate_job (metadata harness) sum_job ≡ ok tt
unfolding validate_job validate_function parse parse_type finish_named parse_arguments finish_type
    take_suffix take_const after_long after_std parse_name span_name consume_word is_name_char
    consume_byte consume_string byte_length rune_bytes text_eq trim_space drop_trailing skip_space
    is_space default_registry parse_json cpp_spec execution_mode function_error get_spec metadata
    python_spec valid_mode validate_bounds validate_details validate_function_job validate_mode
    yex_judge.Languages.default_registry
sum_job_valid = refl

validate_job-judgeable_example :
    All (λ tc. Succeeds (expected_output (canonical harness) sum_job tc)) sum_job.test_cases
validate_job-judgeable_example = validate_job-judgeable harness sum_job sum_job_valid refl

validate_job-has_source_example : Succeeds (workspace_source harness sum_job cpp_spec)
validate_job-has_source_example = validate_job-has_source harness sum_job sum_job_valid refl

abbrev any_order : FunctionComparisonSpec
any_order = record { return_array_order = codes "unordered" }

abbrev pair_spec : FunctionSpec
pair_spec = record sum_spec { return_type = codes "vector<int>"; comparison = some any_order }

abbrev pair_job : Job
pair_job = record sum_job { function = some pair_spec }

returns_pair : ReturnsVector harness pair_job int_type
unfolding parse parse_type finish_named parse_arguments finish_type take_suffix take_const
    after_long after_std parse_name span_name consume_word is_name_char consume_byte consume_string
    byte_length rune_bytes text_eq trim_space drop_trailing skip_space is_space resolve
    yex_judge.Adapters.Registry.default_registry
returns_pair = record {
  function = pair_spec;
  comparison = any_order;
  has_function = refl;
  compares = refl;
  any_order = refl;
  resolved = refl;
  only_return = refl;
}

abbrev pair : Text → Text → Elems
pair s t = elem (num s) (elem (num t) no_elems)

one_two_text :
    canonical_unordered plain_floats int_type (arr (pair (codes "2") (codes "1")))
    ≡ ok (codes "[1,2]")
unfolding canonical_unordered join
one_two_text = refl

outputs_equal-perm_example :
    outputs_equal (canonical harness) pair_job (codes "[2,1]") (codes "[1, 2]") ≡ true
unfolding parse_json text_eq
outputs_equal-perm_example =
    outputs_equal-perm harness pair_job int_type returns_pair (codes "[2,1]") (codes "[1, 2]")
      (pair (codes "2") (codes "1")) (pair (codes "1") (codes "2")) (codes "[1,2]") refl refl
      (Permᴰ.swap refl refl) one_two_text
