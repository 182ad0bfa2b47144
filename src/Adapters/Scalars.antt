-- ===== src/Adapters/Scalars.antt =====
-- The scalar values of internal/judge/harness/cpp/types/scalar.go, and the loops over arrays that
-- the other types share. Floating point is the parameter `Floats`: the shortest text of the double
-- that a number's text stands for, where it is finite.
use yex_judge.Common.{
  ◌-◌, ℕ, ◌+◌, ◌/◌, ◌%◌, ℤ, ◌&&◌, ◌||◌, Option, none, some, List, [], ◌∷◌, ◌++◌, Text, codes, join,
  Result, ok, err, ◌>>=◌, ltb, leb, ◌==◌, length, if◌then◌else◌, parse_int, itoa, decimal,
}
use yex_judge.Json.{Json, as_number, as_bool, as_string, as_array}
use yex_judge.Adapters.{
  ValueError, expected_integer, integer_range, expected_number, not_finite, expected_boolean,
  expected_string, expected_array, at_element,
}

pub record Floats : Type 0 where
  pub shortest : Text → Option Text

unfoldable pub parse_integer : ℕ → Json → Result ValueError ℤ
unfolding as_number parse_int
parse_integer bits v = elim (as_number v) [
  | none ↦ err expected_integer
  | some t ↦ elim (parse_int bits t) [ none ↦ err (integer_range bits) | some n ↦ ok n ]
]

-- integerLiteral and integerCanonical.
unfoldable pub integer_canonical : ℕ → Json → Result ValueError Text
unfolding parse_integer itoa
integer_canonical bits v = do n ← parse_integer bits v; ok (itoa n)

-- floatingLiteral and floatingCanonical, with parseFloat.
unfoldable pub floating_canonical : Floats → Json → Result ValueError Text
unfolding as_number
floating_canonical fl v = elim (as_number v) [
  | none ↦ err expected_number
  | some t ↦ elim (fl.shortest t) [ none ↦ err not_finite | some s ↦ ok s ]
]

-- booleanLiteral and booleanCanonical.
unfoldable pub boolean_canonical : Json → Result ValueError Text
unfolding as_bool
boolean_canonical v = elim (as_bool v) [
  | none ↦ err expected_boolean
  | some b ↦ ok (if b then codes "true" else codes "false")
]

-- The bytes of a string between the quotes of a C++ literal.
unfoldable pub cpp_escape : Text → Text
cpp_escape [] = []
cpp_escape (c ∷ s) =
    (if c == b'"'
      then codes "\\\""
      else if c == 92
      then codes "\\\\"
      else if leb 0x20 c && leb c 0x7e
      then c ∷ []
      else 92 ∷ (b'0' + c / 64) ∷ (b'0' + c / 8 % 8) ∷ (b'0' + c % 8) ∷ [])
    ++ cpp_escape s

unfoldable pub string_literal : Json → Result ValueError Text
unfolding as_string cpp_escape decimal
string_literal v = elim (as_string v) [
  | none ↦ err expected_string
  | some s ↦ ok (
      codes "std::string(\""
      ++ (cpp_escape s ++ (codes "\", " ++ (decimal (length s) ++ codes ")"))))
]

unfoldable pub hex_char : ℕ → ℕ
hex_char d = if ltb d 10 then b'0' + d else b'a' + (d - 10)

-- A byte of a string as json.Encoder writes it without HTML escapes.
unfoldable pub json_escape_byte : ℕ → Text
unfolding hex_char
json_escape_byte c =
    if c == b'"'
    then codes "\\\""
    else if c == 92
    then codes "\\\\"
    else if c == 8
    then codes "\\b"
    else if c == 12
    then codes "\\f"
    else if c == 10
    then codes "\\n"
    else if c == 13
    then codes "\\r"
    else if c == 9
    then codes "\\t"
    else if ltb c 0x20
    then codes "\\u00" ++ (hex_char (c / 16) ∷ hex_char (c % 16) ∷ [])
    else c ∷ []

-- U+2028 and U+2029, the bytes E2 80 A8 and E2 80 A9, are escaped too.
unfoldable pub json_escape : Text → Text
unfolding json_escape_byte
json_escape [] = []
json_escape (c ∷ []) = json_escape_byte c
json_escape (c ∷ d ∷ []) = json_escape_byte c ++ json_escape (d ∷ [])
json_escape (c ∷ d ∷ e ∷ s) =
    let separator = codes "\\u202" ++ ((e - 0xA8 + b'8') ∷ json_escape s) in
    let plain = json_escape_byte c ++ json_escape (d ∷ e ∷ s) in
    if c == 0xE2 && (d == 0x80 && (e == 0xA8 || e == 0xA9)) then separator else plain

unfoldable pub string_canonical : Json → Result ValueError Text
unfolding as_string json_escape
string_canonical v = elim (as_string v) [
  | none ↦ err expected_string
  | some s ↦ ok (b'"' ∷ (json_escape s ++ codes "\""))
]

-- arrayValues.
unfoldable pub array_values : Json → Result ValueError (List Json)
unfolding as_array
array_values v = elim (as_array v) [ none ↦ err expected_array | some vs ↦ ok vs ]

-- A loop over values, from index `i` on, that stops at the first error.
unfoldable pub each_value {ℓ} :
    {A : Type ℓ} → (Json → Result ValueError A) → ℕ → List Json → Result ValueError (List A)
each_value f i [] = ok []
each_value f i (v ∷ vs) = elim (f v) [
  | err e ↦ err (at_element i e)
  | ok a ↦ do as' ← each_value f (i + 1) vs; ok (a ∷ as')
]

-- `"[" + strings.Join(items, ",") + "]"`.
abbrev pub bracketed : List Text → Text
bracketed items = codes "[" ++ (join items (codes ",") ++ codes "]")
