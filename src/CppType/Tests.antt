-- ===== src/CppType/Tests.antt =====
-- The parser at small types, with the letters and digits of ASCII.
use yex_judge.Common.{
  ◌≡◌, ◌≢◌, ◌⊎◌, ◌≤◌, arith, inl, inr, true, ◌&&◌, ◌||◌, leb, Bool, false, codes, refl, ok, err,
  text_eq, skip_space, trim_space, drop_trailing, is_space,
}
use yex_judge.CppType.{
  TypeRef, type_ref, nil, cons, l_value_reference, no_reference, TypeError, out_of_fuel, Unicode,
  consume_string, consume_byte, is_name_char, consume_word, span_name, parse_name, after_std,
  after_long, take_const, take_suffix, parse_arguments, finish_type, finish_named, parse_type,
  parse, byte_length, rune_bytes, value_name, more_names, max_type_length,
}
use yex_judge.CppType.Total.{parse_total}
use yex_judge.CppType.Words.{IsSensible, IsName}
use yex_judge.CppType.Reading.{IsPlain, ArePlain}
use yex_judge.CppType.RoundTrip.{parse-value_name}

abbrev pub ascii : Unicode
ascii = record {
  is_letter = λ c. (leb b'a' c && leb c b'z') || (leb b'A' c && leb c b'Z');
  is_digit = λ c. leb b'0' c && leb c b'9';
}

parse_reference :
    parse ascii (codes "const std::vector<long  long> &")
    ≡ ok (
        type_ref
          (codes "vector")
          (cons (type_ref (codes "long long") nil false no_reference false) nil)
          Bool.true
          l_value_reference
          false)
unfolding parse parse_type finish_named parse_arguments finish_type take_suffix take_const
    after_long after_std parse_name span_name consume_word is_name_char consume_byte consume_string
    text_eq trim_space drop_trailing skip_space is_space byte_length rune_bytes
parse_reference = refl

parse_total_example :
    ((r : TypeRef) × (parse ascii (codes "vector<int") ≡ ok r))
    ⊎ ((e : TypeError) × (parse ascii (codes "vector<int") ≡ err e) × (e ≢ out_of_fuel))
parse_total_example = parse_total ascii (codes "vector<int")

ascii-IsSensible : IsSensible ascii
unfolding is_name_char is_space
ascii-IsSensible = record {
  letters = (refl, (refl, (refl, (refl, (refl, (refl, (refl, (refl, tt))))))));
  marks = (refl, (refl, (refl, (refl, (refl, tt)))));
  no_space = λ c h. ground arith;
}

abbrev long_vector : TypeRef
long_vector =
    type_ref (codes "vector") (cons (type_ref (codes "long long") nil false no_reference true) nil)
      false no_reference false

vector-IsName : IsName ascii ascii-IsSensible (codes "vector")
unfolding is_name_char
vector-IsName = inr (
  (refl, (refl, (refl, (refl, (refl, (refl, tt)))))),
  λ e. absurd (ground arith),
  λ e. absurd (ground arith),
  λ e. absurd (ground arith),
  λ e. absurd (ground arith),
)

long_vector-IsPlain : IsPlain ascii ascii-IsSensible 65 long_vector
unfolding IsPlain ArePlain
long_vector-IsPlain = (vector-IsName, refl, refl, ((inl refl, refl, refl, tt), tt))

long_vector_fits : byte_length (value_name long_vector) ≤ max_type_length
unfolding byte_length rune_bytes value_name more_names
long_vector_fits = omega arith

parse-value_name_example : parse ascii (value_name long_vector) ≡ ok long_vector
parse-value_name_example =
    parse-value_name ascii ascii-IsSensible long_vector long_vector-IsPlain long_vector_fits
