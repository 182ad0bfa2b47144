-- ===== src/Json.antt =====
-- What encoding/json makes of a `json.RawMessage`. A valid raw message is the value that it
-- holds: `strings.TrimSpace(string(raw)) == "null"` is then the test for null, and a number keeps
-- its text. `Json/Parse` reads the value from a text. Each function here is one use of
-- json.Unmarshal: null leaves the target at its zero value without an error.
pub mod Parse
pub mod Tests
use yex_judge.Common.{
  ℕ, Bool, true, false, ◌&&◌, ◌||◌, not, Option, none, some, List, [], ◌∷◌, Text, codes, text_eq,
  leb, ◌==◌, if◌then◌else◌,
}

mutual
  pub data Json : Type 0 where
    null : Json
    bool : Bool → Json
    num : Text → Json
    str : Text → Json
    arr : Elems → Json
    obj : Members → Json

  pub data Elems : Type 0 where
    no_elems : Elems
    elem : Json → Elems → Elems

  pub data Members : Type 0 where
    no_members : Members
    member : Text → Json → Members → Members

abbrev pub elems : Elems → List Json
elems no_elems = []
elems (elem v vs) = v ∷ elems vs

abbrev pub members : Members → List (Text × Json)
members no_members = []
members (member k v ms) = (k, v) ∷ members ms

abbrev pub is_null : Json → Bool
is_null null = true
is_null _ = false

-- The value of a key in a decoded map: a repeated key keeps its last value.
unfoldable pub last_value : Text → List (Text × Json) → Option Json
last_value k [] = none
last_value k ((j, v) ∷ ms) = elim (last_value k ms) [
  | some w ↦ some w
  | none ↦ if text_eq j k then some v else none
]

-- isValidNumber, the grammar of JSON numbers.
abbrev pub is_digit : ℕ → Bool
is_digit c = leb b'0' c && leb c b'9'

unfoldable pub skip_digits : Text → Text
skip_digits [] = []
skip_digits (c ∷ s) = if is_digit c then skip_digits s else c ∷ s

-- At least one digit.
unfoldable pub after_digits : Text → Option Text
after_digits [] = none
after_digits (c ∷ s) = if is_digit c then some (skip_digits s) else none

unfoldable pub after_sign : Text → Text
after_sign [] = []
after_sign (c ∷ s) = if c == b'+' || c == b'-' then s else c ∷ s

-- A leading zero stands alone.
unfoldable pub after_integer : Text → Option Text
after_integer [] = none
after_integer (c ∷ s) = if c == b'0' then some s else after_digits (c ∷ s)

unfoldable pub after_fraction : Text → Option Text
after_fraction [] = some []
after_fraction (c ∷ s) = if c == b'.' then after_digits s else some (c ∷ s)

unfoldable pub after_exponent : Text → Option Text
after_exponent [] = some []
after_exponent (c ∷ s) =
    if c == b'e' || c == b'E' then after_digits (after_sign s) else some (c ∷ s)

abbrev pub after_minus : Text → Text
after_minus [] = []
after_minus (c ∷ s) = if c == b'-' then s else c ∷ s

-- What follows the longest number at the front.
unfoldable pub after_number : Text → Option Text
unfolding skip_digits after_digits after_sign after_integer after_fraction after_exponent
after_number s = elim (after_integer (after_minus s)) [
  | none ↦ none
  | some r ↦ elim (after_fraction r) [ none ↦ none | some q ↦ after_exponent q ]
]

unfoldable pub is_number : Text → Bool
unfolding after_number
is_number s = elim (after_number s) [ none ↦ false | some r ↦ text_eq r [] ]

-- Into a json.Number: a string that spells a number is one.
unfoldable pub as_number : Json → Option Text
unfolding is_number
as_number null = some []
as_number (num t) = some t
as_number (str t) = if is_number t then some t else none
as_number _ = none

-- Into a bool, and into a string.
unfoldable pub as_bool : Json → Option Bool
as_bool null = some false
as_bool (bool b) = some b
as_bool _ = none

unfoldable pub as_string : Json → Option Text
as_string null = some []
as_string (str t) = some t
as_string _ = none

-- Into a []json.RawMessage.
unfoldable pub as_array : Json → Option (List Json)
as_array null = some []
as_array (arr vs) = some (elems vs)
as_array _ = none

-- Into a [][]json.RawMessage.
unfoldable pub as_arrays : List Json → Option (List (List Json))
as_arrays [] = some []
as_arrays (v ∷ vs) = elim (as_array v) [
  | none ↦ none
  | some row ↦ elim (as_arrays vs) [ none ↦ none | some rows ↦ some (row ∷ rows) ]
]

-- Into a map[string]json.RawMessage that must not be nil.
unfoldable pub as_object : Json → Option (List (Text × Json))
as_object (obj ms) = some (members ms)
as_object _ = none
