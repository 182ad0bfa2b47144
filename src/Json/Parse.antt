-- ===== src/Json/Parse.antt =====
-- The value of a JSON text as encoding/json reads it, or none where json.Valid refuses the text.
-- Texts are bytes of valid UTF-8. Each reader returns what it leaves unread; the fuel is one more
-- than the length of the text, and each value, member and string character takes a byte.
use yex_judge.Common.{
  ℕ, zero, suc, ◌+◌, ◌-◌, ◌*◌, ◌/◌, ◌%◌, Bool, true, false, ◌&&◌, ◌||◌, not, Option, none, some, [],
  ◌∷◌, ◌++◌, Text, codes, text_eq, ltb, leb, ◌==◌, length, take, if◌then◌else◌,
}
use yex_judge.Json.{
  Json, null, bool, num, str, arr, obj, Elems, no_elems, elem, Members, no_members, member,
  after_number, is_digit,
}

-- Space, tab, line feed and carriage return.
unfoldable pub skip_blank : Text → Text
skip_blank [] = []
skip_blank (c ∷ s) = if c == b' ' || (c == 9 || (c == 10 || c == 13)) then skip_blank s else c ∷ s

unfoldable pub after_text : Text → Text → Option Text
after_text [] s = some s
after_text (c ∷ t) [] = none
after_text (c ∷ t) (d ∷ s) = if c == d then after_text t s else none

unfoldable pub hex_digit : ℕ → Option ℕ
hex_digit c =
    if is_digit c
    then some (c - b'0')
    else if leb b'a' c && leb c b'f'
    then some (c - b'a' + 10)
    else if leb b'A' c && leb c b'F'
    then some (c - b'A' + 10)
    else none

-- The four digits behind `\u`.
unfoldable pub hex4 : ℕ → ℕ → Text → Option (ℕ × Text)
unfolding hex_digit
hex4 zero n s = some (n, s)
hex4 (suc k) n [] = none
hex4 (suc k) n (c ∷ s) = elim (hex_digit c) [ none ↦ none | some d ↦ hex4 k (n * 16 + d) s ]

-- utf8.AppendRune.
unfoldable pub encode_rune : ℕ → Text
encode_rune r =
    if ltb r 0x80
    then r ∷ []
    else if ltb r 0x800
    then (0xC0 + r / 64) ∷ (0x80 + r % 64) ∷ []
    else if ltb r 0x10000
    then (0xE0 + r / 4096) ∷ (0x80 + r / 64 % 64) ∷ (0x80 + r % 64) ∷ []
    else (0xF0 + r / 262144) ∷ (0x80 + r / 4096 % 64) ∷ (0x80 + r / 64 % 64) ∷ (0x80 + r % 64) ∷ []

abbrev is_high : ℕ → Bool
is_high r = leb 0xD800 r && ltb r 0xDC00

abbrev is_low : ℕ → Bool
is_low r = leb 0xDC00 r && ltb r 0xE000

abbrev replacement : ℕ
replacement = 0xFFFD

-- The low half of a surrogate pair behind the high half `r`; a half alone is U+FFFD.
unfoldable pub rune_after : ℕ → Text → ℕ × Text
unfolding hex4 after_text
rune_after r s =
    if is_high r
    then elim (after_text (codes "\\u") s) [
      | none ↦ (replacement, s)
      | some t ↦ elim (hex4 4 0 t) [
        | none ↦ (replacement, s)
        | some (q, rest) ↦
            if is_low q
            then (0x10000 + (r - 0xD800) * 1024 + (q - 0xDC00), rest)
            else (replacement, s)
      ]
    ]
    else if is_low r
    then (replacement, s)
    else (r, s)

-- The character that an escape letter stands for.
unfoldable pub escaped_char : ℕ → Option ℕ
escaped_char c =
    if c == b'"' || (c == 92 || c == b'/')
    then some c
    else if c == b'b'
    then some 8
    else if c == b'f'
    then some 12
    else if c == b'n'
    then some 10
    else if c == b'r'
    then some 13
    else if c == b't'
    then some 9
    else none

abbrev pub put_front : Text → Option (Text × Text) → Option (Text × Text)
put_front t none = none
put_front t (some (s, rest)) = some (t ++ s, rest)

-- An escape behind its backslash, and the rest of the string, which `go` reads.
unfoldable pub read_escape : (Text → Option (Text × Text)) → Text → Option (Text × Text)
unfolding escaped_char hex4 rune_after encode_rune
read_escape go [] = none
read_escape go (c ∷ s) = elim (escaped_char c) [
  | some d ↦ put_front (d ∷ []) (go s)
  | none ↦ if not (c == b'u') then none else elim (hex4 4 0 s) [
    | none ↦ none
    | some (q, behind) ↦ let one = rune_after q behind in put_front (encode_rune one.0) (go one.1)
  ]
]

-- The rest of a string behind its opening quote.
unfoldable pub read_string : ℕ → Text → Option (Text × Text)
unfolding read_escape
read_string zero s = none
read_string (suc f) [] = none
read_string (suc f) (c ∷ s) =
    let escape = read_escape (read_string f) s in
    let plain = put_front (c ∷ []) (read_string f s) in
    if c == b'"' then some ([], s) else if c == 92 then escape else if ltb c 32 then none else plain

unfoldable pub read_literal : Text → Json → Text → Option (Json × Text)
unfolding after_text
read_literal t v s = elim (after_text t s) [ none ↦ none | some rest ↦ some (v, rest) ]

unfoldable pub read_number : Text → Option (Json × Text)
unfolding after_number
read_number s = elim (after_number s) [
  | none ↦ none
  | some rest ↦ some (num (take (length s - length rest) s), rest)
]

-- The elements behind `[` and the members behind `{`, given a reader of values; `first` says that
-- none was read yet, so that the closing bracket may stand.
unfoldable pub read_elems : (Text → Option (Json × Text)) → ℕ → Bool → Text → Option (Elems × Text)
unfolding skip_blank
read_elems value zero first s = none
read_elems value (suc f) first s =
    let next = λ (t : Text). elim (value t) as (λ _. Option (Elems × Text)) [
      | none ↦ none
      | some (v, rest) ↦ elim (read_elems value f false rest) as (λ _. Option (Elems × Text)) [
        | none ↦ none
        | some (vs, behind) ↦ some (elem v vs, behind)
      ]
    ] in
    elim (skip_blank s) [
      | [] ↦ none
      | c ∷ r ↦
          if c == b']'
          then some (no_elems, r)
          else if first
          then next (c ∷ r)
          else if c == b','
          then next r
          else none
    ]

-- The name of a member, its colon and the value.
unfoldable pub read_member : (Text → Option (Json × Text)) → Text → Option (Text × Json × Text)
unfolding skip_blank read_string
read_member value s = elim (skip_blank s) [
  | [] ↦ none
  | c ∷ r ↦ if not (c == b'"') then none else elim (read_string (length r + 1) r) [
    | none ↦ none
    | some (k, behind) ↦ elim (skip_blank behind) [
      | [] ↦ none
      | d ∷ q ↦
          if not (d == b':')
          then none
          else elim (value q) [ none ↦ none | some (v, rest) ↦ some (k, v, rest) ]
    ]
  ]
]

unfoldable pub read_members :
    (Text → Option (Json × Text)) → ℕ → Bool → Text → Option (Members × Text)
unfolding skip_blank read_member
read_members value zero first s = none
read_members value (suc f) first s =
    let next = λ (t : Text). elim (read_member value t) as (λ _. Option (Members × Text)) [
      | none ↦ none
      | some (k, v, rest) ↦
          elim (read_members value f false rest) as (λ _. Option (Members × Text)) [
            | none ↦ none
            | some (ms, behind) ↦ some (member k v ms, behind)
          ]
    ] in
    elim (skip_blank s) [
      | [] ↦ none
      | c ∷ r ↦
          if c == b'}'
          then some (no_members, r)
          else if first
          then next (c ∷ r)
          else if c == b','
          then next r
          else none
    ]

-- One value; `levels` arrays and objects may still open.
unfoldable pub read_value : ℕ → Text → Option (Json × Text)
unfolding skip_blank read_literal read_number read_string read_elems read_members
read_value zero s = none
read_value (suc levels) s = elim (skip_blank s) [
  | [] ↦ none
  | c ∷ r ↦
      let string = elim (read_string (length r + 1) r) as (λ _. Option (Json × Text)) [
        | none ↦ none
        | some (t, rest) ↦ some (str t, rest)
      ] in
      let array =
        elim (read_elems (read_value levels) (length r + 1) true r) as (λ _. Option (Json × Text)) [
          | none ↦ none
          | some (vs, rest) ↦ some (arr vs, rest)
        ] in
      let object =
        elim (read_members (read_value levels) (length r + 1) true r)
          as (λ _. Option (Json × Text)) [ none ↦ none | some (ms, rest) ↦ some (obj ms, rest) ] in
      if c == b'"'
      then string
      else if c == b'['
      then array
      else if c == b'{'
      then object
      else if c == b't'
      then read_literal (codes "true") (bool true) (c ∷ r)
      else if c == b'f'
      then read_literal (codes "false") (bool false) (c ∷ r)
      else if c == b'n'
      then read_literal (codes "null") null (c ∷ r)
      else read_number (c ∷ r)
]

-- The nesting that encoding/json allows.
abbrev pub max_depth : ℕ
max_depth = 10_000

unfoldable pub parse_json : Text → Option Json
unfolding read_value skip_blank
parse_json s = elim (read_value (max_depth + 1) s) [
  | none ↦ none
  | some (v, rest) ↦ if text_eq (skip_blank rest) [] then some v else none
]
