-- ===== src/Adapters/RandomList.antt =====
-- Lists with random pointers as JSON: parseRandomListJSON, randomListLiteral and
-- canonicalRandomListJSON of internal/judge/harness/cpp/types/runtime.go.
use yex_judge.Common.{
  ◌&&◌, ℕ, ◌+◌, ℤ, pos, ltb_ℤ, Bool, false, not, ◌||◌, Option, none, some, List, [], ◌∷◌, ◌++◌,
  Text, codes, text_eq, join, map, Result, ok, err, ◌>>=◌, ◌>>◌, reject_if, ◌==◌, length,
  if◌then◌else◌, itoa,
}
use yex_judge.Json.{Json, is_null, as_array, as_object, last_value}
use yex_judge.Adapters.{
  ValueError, expected_object, values_required, random_required, values_not_array, random_not_array,
  lengths_differ, random_out_of_range,
}
use yex_judge.Adapters.Scalars.{parse_integer, integer_canonical, each_value, bracketed}

pub record RandomListJson : Type 0 where
  pub values : List Json
  pub random : List Json

abbrev pub required : ValueError → Option Json → Result ValueError Json
required e none = err e
required e (some v) = ok v

abbrev pub array_or : ValueError → Json → Result ValueError (List Json)
array_or e v = elim (as_array v) [ none ↦ err e | some vs ↦ ok vs ]

-- Whether a value is an integer of 32 bits from 0 to below `n`.
unfoldable pub is_index : ℕ → Json → Bool
unfolding parse_integer
is_index n v = elim (parse_integer 32 v) [
  | err e ↦ false
  | ok k ↦ not (ltb_ℤ k (pos 0)) && ltb_ℤ k (pos n)
]

unfoldable pub check_random : ℕ → ℕ → List Json → Result ValueError (Unit {0})
unfolding is_index
check_random n i [] = ok tt
check_random n i (v ∷ vs) = do
  reject_if (not (is_null v || is_index n v)) (random_out_of_range i)
  check_random n (i + 1) vs

-- parseRandomListJSON behind its test for null.
unfoldable pub parse_random_object : Json → Result ValueError RandomListJson
unfolding check_random integer_canonical each_value last_value as_array as_object
parse_random_object v = elim (as_object v) [
  | none ↦ err expected_object
  | some object ↦ do
    values_raw ← required values_required (last_value (codes "values") object)
    random_raw ← required random_required (last_value (codes "random") object)
    values ← array_or values_not_array values_raw
    random ← array_or random_not_array random_raw
    reject_if (not (length values == length random)) lengths_differ
    each_value (integer_canonical 32) 0 values
    check_random (length values) 0 random
    ok (record { values = values; random = random })
]

unfoldable pub parse_random_list : Json → Result ValueError RandomListJson
unfolding parse_random_object
parse_random_list v =
    if is_null v then ok (record { values = []; random = [] }) else parse_random_object v

-- `canonical, _ := …` and `index, _ := …`: the zero value where there was an error.
abbrev pub text_or_empty : Result ValueError Text → Text
text_or_empty (ok t) = t
text_or_empty (err e) = []

abbrev pub integer_or_zero : Result ValueError ℤ → ℤ
integer_or_zero (ok n) = n
integer_or_zero (err e) = pos 0

unfoldable pub integer_text : Json → Text
unfolding integer_canonical
integer_text v = text_or_empty (integer_canonical 32 v)

unfoldable pub index_text : Text → Json → Text
unfolding parse_integer itoa
index_text missing v = if is_null v then missing else itoa (integer_or_zero (parse_integer 32 v))

unfoldable pub random_list_literal : Json → Text → Result ValueError Text
unfolding parse_random_list integer_text index_text
random_list_literal v node_type = if is_null v then ok (codes "nullptr") else do
  l ← parse_random_list v
  ok (
      (if text_eq node_type (codes "Node*")
        then codes "__build_random_list_node"
        else codes "__build_random_list")
      ++ (codes "(vector<int>{"
          ++ (join (map integer_text l.values) (codes ",")
              ++ (codes "}, vector<int>{"
                  ++ (join (map (index_text (codes "-1")) l.random) (codes ",") ++ codes "})")))))

unfoldable pub canonical_random_list : Json → Result ValueError Text
unfolding parse_random_list integer_text index_text
canonical_random_list v = if is_null v then ok (codes "null") else do
  l ← parse_random_list v
  if length l.values == 0
      then ok (codes "null")
      else ok (
          codes "{\"values\":"
          ++ (bracketed (map integer_text l.values)
              ++ (codes ",\"random\":"
                  ++ (bracketed (map (index_text (codes "null")) l.random) ++ codes "}"))))
