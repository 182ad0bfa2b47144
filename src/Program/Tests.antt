-- ===== src/Program/Tests.antt =====
-- A small C++ function job: the sum of some numbers, observed by its return value.
use yex_judge.Common.{
  ◌≡◌, refl, [], ◌∷◌, ok, err, none, pos, codes, text_eq, trim_space, drop_trailing, skip_space,
  is_space,
}
use yex_judge.Types.{FunctionSpec, TestCase}
use yex_judge.CppType.{
  parse, parse_type, finish_named, parse_arguments, finish_type, take_suffix, take_const,
  after_long, after_std, parse_name, span_name, consume_word, is_name_char, consume_byte,
  consume_string, byte_length, rune_bytes,
}
use yex_judge.CppType.Tests.{ascii}
use yex_judge.Adapters.Tests.{plain_floats}
use yex_judge.Adapters.Registry.{Registry, new_registry, default_registry}
use yex_judge.FunctionJob.Cases.{validate_function}
use yex_judge.Program.{Sources}
use yex_judge.Json.Parse.{parse_json}

abbrev pub builtin : Registry
builtin = elim default_registry [ ok r ↦ r | err e ↦ new_registry [] ]

abbrev pub no_sources : Sources
no_sources = record { serializer = []; runtime_source = λ r. [] }

abbrev pub sum_spec : FunctionSpec
sum_spec = record {
  name = codes "sum";
  return_type = codes "long long";
  params = record { name = codes "values"; type = codes "const vector<int>&" } ∷ [];
  observations = [];
  postconditions = [];
  comparison = none;
}

abbrev pub sum_case : TestCase
sum_case = record {
  id = pos 1;
  input = [];
  expected_output = [];
  actual_output = [];
  args = codes "[1, 2]" ∷ [];
  expected = codes "3";
  constructor_args = [];
  operations = [];
}

sum_valid : validate_function plain_floats ascii builtin sum_spec (sum_case ∷ []) ≡ ok tt
unfolding validate_function parse parse_type finish_named parse_arguments finish_type take_suffix
    take_const after_long after_std parse_name span_name consume_word is_name_char consume_byte
    consume_string byte_length rune_bytes text_eq trim_space drop_trailing skip_space is_space
    default_registry parse_json
sum_valid = refl
