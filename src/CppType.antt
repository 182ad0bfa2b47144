-- ===== src/CppType.antt =====
-- The C++ type syntax of the function harness: `TypeRef` and `ValueName`
-- (internal/judge/harness/cpp/types/ref.go), and the parser of
-- internal/judge/harness/cpp/types/parser.go. A declared type is the list of its runes. The parser
-- keeps the unread input in place of a position, since a position only moves on, and counts the
-- nesting levels left in place of the depth: `levels` is 65 - depth. The tables of package unicode
-- are the parameter `Unicode`.
pub mod Lengths
pub mod Total
pub mod Words
pub mod Reading
pub mod RoundTrip
pub mod Tests
use yex_judge.Common.{
  ℕ, zero, suc, ◌+◌, Bool, true, false, ◌||◌, Option, none, some, [], ◌∷◌, ◌++◌, Text, codes,
  text_eq, Result, ok, err, ◌>>=◌, ltb, ◌==◌, if◌then◌else◌, length, skip_space, trim_space,
}

pub data ReferenceKind : Type 0 where
  no_reference l_value_reference r_value_reference : ReferenceKind

mutual
  -- Name, Arguments, Const, Reference, Pointer.
  pub data TypeRef : Type 0 where
    type_ref : Text → TypeRefs → Bool → ReferenceKind → Bool → TypeRef

  pub data TypeRefs : Type 0 where
    nil : TypeRefs
    cons : TypeRef → TypeRefs → TypeRefs

abbrev pub star : Bool → Text
star true = codes "*"
star false = []

-- ValueName and CanonicalName. The arguments are joined by a comma without a space.
unfoldable mutual
  pub value_name : TypeRef → Text
  value_name (type_ref name nil c r p) = name ++ star p
  value_name (type_ref name (cons a as') c r p) =
      name ++ (b'<' ∷ (value_name a ++ (more_names as' ++ (b'>' ∷ star p))))

  pub more_names : TypeRefs → Text
  more_names nil = []
  more_names (cons a as') = b',' ∷ (value_name a ++ more_names as')

abbrev pub snoc : TypeRefs → TypeRef → TypeRefs
snoc nil a = cons a nil
snoc (cons b bs) a = cons b (snoc bs a)

-- A type with nothing but a name and arguments.
abbrev pub plain_ref : Text → TypeRefs → TypeRef
plain_ref name args = type_ref name args false no_reference false

pub record Unicode : Type 0 where
  pub is_letter : ℕ → Bool
  pub is_digit : ℕ → Bool

pub data TypeError : Type 0 where
  too_long empty too_deep expected_colons out_of_fuel : TypeError
  unexpected_suffix : Text → TypeError
  expected_name : Text → TypeError
  expected_comma : Text → TypeError

abbrev pub max_type_length : ℕ
max_type_length = 4096

abbrev pub max_type_depth : ℕ
max_type_depth = 64

-- len of a string: the bytes of its runes in UTF-8.
unfoldable pub rune_bytes : ℕ → ℕ
rune_bytes c = if ltb c 0x80 then 1 else if ltb c 0x800 then 2 else if ltb c 0x10000 then 3 else 4

unfoldable pub byte_length : Text → ℕ
unfolding rune_bytes
byte_length [] = 0
byte_length (c ∷ s) = rune_bytes c + byte_length s

-- consumeString.
unfoldable pub consume_string : Text → Text → Option Text
consume_string [] s = some s
consume_string (c ∷ v) [] = none
consume_string (c ∷ v) (d ∷ s) = let rest = consume_string v s in if d == c then rest else none

-- consumeByte.
unfoldable pub consume_byte : ℕ → Text → Option Text
consume_byte c [] = none
consume_byte c (d ∷ s) = if d == c then some s else none

module _ (u : Unicode) where
  unfoldable pub is_name_char : ℕ → Bool
  is_name_char c = u.is_letter c || (u.is_digit c || c == b'_')

  -- consumeWord: the string, unless a name goes on behind it.
  abbrev pub starts_name : Text → Bool
  starts_name [] = false
  starts_name (c ∷ s) = is_name_char c

  unfoldable pub consume_word : Text → Text → Option Text
  consume_word w s = elim (consume_string w s) [
    | none ↦ none
    | some rest ↦ if starts_name rest then none else some rest
  ]

  -- The longest run of name characters, and what follows it.
  unfoldable pub span_name : Text → Text × Text
  span_name [] = ([], [])
  span_name (c ∷ s) =
      let rest = span_name s in if is_name_char c then (c ∷ rest.0, rest.1) else ([], c ∷ s)

  unfoldable pub parse_name : Text → Result TypeError (Text × Text)
  parse_name s =
      let r = span_name (skip_space s) in
      if text_eq r.0 [] then err (expected_name (skip_space s)) else ok r

  -- `std` must be followed by `::` and the name proper.
  unfoldable pub after_std : Text → Text → Result TypeError (Text × Text)
  after_std name s =
      if text_eq name (codes "std")
      then elim (consume_string (codes "::") (skip_space s)) [
        | none ↦ err expected_colons
        | some rest ↦ parse_name rest
      ]
      else ok (name, s)

  -- `long` takes a second `long` in.
  unfoldable pub after_long : Text → Text → Text × Text
  after_long name s =
      if text_eq name (codes "long")
      then elim (consume_word (codes "long") (skip_space s)) [
        | none ↦ (name, skip_space s)
        | some rest ↦ (codes "long long", rest)
      ]
      else (name, s)

  -- An optional `const`, with the space behind it.
  unfoldable pub take_const : Text → Bool × Text
  take_const s = elim (consume_word (codes "const") s) [
    | none ↦ (false, s)
    | some rest ↦ (true, skip_space rest)
  ]

  -- `&&`, `&` or `*` at the end.
  unfoldable pub take_suffix : Text → ReferenceKind × Bool × Text
  take_suffix s = elim (consume_string (codes "&&") s) [
    | some rest ↦ (r_value_reference, false, rest)
    | none ↦ elim (consume_byte b'&' s) [
      | some rest ↦ (l_value_reference, false, rest)
      | none ↦ elim (consume_byte b'*' s) [
        | some rest ↦ (no_reference, true, rest)
        | none ↦ (no_reference, false, s)
      ]
    ]
  ]

  -- The loop over the template arguments, behind `<`, with the name and the arguments before.
  unfoldable pub parse_arguments :
      (Text → Result TypeError (TypeRef × Text))
      → Text
      → TypeRefs
      → ℕ
      → Text
      → Result TypeError (TypeRefs × Text)
  parse_arguments parse_one name before zero s = err out_of_fuel
  parse_arguments parse_one name before (suc fuel) s = do
    one ← parse_one s
    let rest = skip_space one.1
    elim (consume_byte b'>' rest) [
      | some after ↦ ok (cons one.0 nil, after)
      | none ↦ elim (consume_byte b',' rest) [
        | some after ↦ do
          more ← parse_arguments parse_one name (snoc before one.0) fuel after
          ok (cons one.0 more.0, more.1)
        | none ↦ err (expected_comma (value_name (plain_ref name (snoc before one.0))))
      ]
    ]

  -- Qualifiers behind the name and its arguments.
  unfoldable pub finish_type : Text → TypeRefs → Bool → Text → TypeRef × Text
  finish_type name args c s =
      let behind = take_const (skip_space s) in
      let suffix = take_suffix behind.1 in
      (type_ref name args (c || behind.0) suffix.0 suffix.1, suffix.2)

  -- From the name on: template arguments, parsed by `parse_one`, or none.
  unfoldable pub finish_named :
      (Text → Result TypeError (TypeRef × Text))
      → ℕ
      → Text
      → Bool
      → Text
      → Result TypeError (TypeRef × Text)
  finish_named parse_one levels name c s = elim (consume_byte b'<' (skip_space s)) [
    | none ↦ ok (finish_type name nil c (skip_space s))
    | some inside ↦ if levels == 0 then err too_deep else do
      args ← parse_arguments parse_one name nil (length inside + 1) inside
      ok (finish_type name args.0 c args.1)
  ]

  unfoldable pub parse_type : ℕ → Text → Result TypeError (TypeRef × Text)
  parse_type zero s = err too_deep
  parse_type (suc levels) s = do
    let front = take_const (skip_space s)
    first ← parse_name front.1
    proper ← after_std first.0 first.1
    let named = after_long proper.0 proper.1
    finish_named (parse_type levels) levels named.0 front.0 named.1

  unfoldable pub parse : Text → Result TypeError TypeRef
  parse declared =
      let input = trim_space declared in
      if ltb max_type_length (byte_length declared)
      then err too_long
      else if text_eq input []
      then err empty
      else do
        r ← parse_type (suc max_type_depth) input
        elim (skip_space r.1) [ [] ↦ ok r.0 | c ∷ rest ↦ err (unexpected_suffix (c ∷ rest)) ]
