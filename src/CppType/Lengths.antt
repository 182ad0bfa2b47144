-- ===== src/CppType/Lengths.antt =====
-- What each step of the parser of internal/judge/harness/cpp/types/parser.go leaves unread.
use yex_judge.Common.{
  ℕ, ◌+◌, ◌≤◌, ◌<◌, Bool, false, some, [], ◌∷◌, Text, codes, text_eq, skip_space, ok, length, ◌≡◌,
  subst, arith, Bool-cases, Option-cases, inl, inr,
}
use yex_judge.CppType.{
  TypeRefs, Unicode, consume_string, consume_byte, consume_word, span_name, parse_name, after_std,
  after_long, take_const, take_suffix, finish_type,
}

pub skip_space-le : (s : Text) → length (skip_space s) ≤ length s
unfolding skip_space
skip_space-le [] = omega arith
skip_space-le (c ∷ s) = ground (arith, skip_space-le s)

pub consume_string-le : (v s rest : Text) → consume_string v s ≡ some rest → length rest ≤ length s
unfolding consume_string
consume_string-le [] s rest h = ground arith
consume_string-le (c ∷ v) [] rest h = absurd (ground arith)
consume_string-le (c ∷ v) (d ∷ s) rest h = ground (arith, consume_string-le v s rest)

pub consume_byte-lt :
    (c : ℕ) (s rest : Text) → consume_byte c s ≡ some rest → length rest < length s
unfolding consume_byte
consume_byte-lt c [] rest h = absurd (ground arith)
consume_byte-lt c (d ∷ s) rest h = ground arith

pub nonempty-length : (s : Text) → text_eq s [] ≡ false → 0 < length s
unfolding text_eq
nonempty-length [] h = absurd (ground arith)
nonempty-length (c ∷ s) h = omega arith

module _ (u : Unicode) where
  pub consume_word-le : (w s rest : Text) → consume_word u w s ≡ some rest → length rest ≤ length s
  unfolding consume_word
  consume_word-le w s rest h = elim (Option-cases (consume_string w s)) [
    | inl e ↦ absurd (ground arith)
    | inr (x, e) ↦ ground (arith, consume_string-le w s rest)
  ]

  pub span_name-length : (s : Text) → length (span_name u s).0 + length (span_name u s).1 ≡ length s
  unfolding span_name
  span_name-length [] = omega arith
  span_name-length (c ∷ s) = ground (arith, span_name-length s)

  pub parse_name-lt : (s : Text) (r : Text × Text) → parse_name u s ≡ ok r → length r.1 < length s
  unfolding parse_name
  parse_name-lt s r h =
      let x = span_name u (skip_space s) in
      let a = span_name-length (skip_space s) in
      let b = skip_space-le s in
      elim (Bool-cases (text_eq x.0 [])) [
        | inl e ↦ absurd (ground arith)
        | inr e ↦
            let c = nonempty-length x.0 e in
            let same : x ≡ r = ground arith in subst (λ y. length y.1 < length s) same (omega arith)
      ]

  pub after_std-le :
      (name s : Text) (r : Text × Text) → after_std u name s ≡ ok r → length r.1 ≤ length s
  unfolding after_std
  after_std-le name s r h = elim (Bool-cases (text_eq name (codes "std"))) [
    | inr e ↦ ground arith
    | inl e ↦ elim (Option-cases (consume_string (codes "::") (skip_space s))) [
      | inl e2 ↦ absurd (ground arith)
      | inr (rest, e2) ↦ ground (
        arith,
        skip_space-le s,
        consume_string-le (codes "::") (skip_space s) rest e2,
        parse_name-lt rest r,
      )
    ]
  ]

  pub after_long-le : (name s : Text) → length (after_long u name s).1 ≤ length s
  unfolding after_long
  after_long-le name s = elim (Bool-cases (text_eq name (codes "long"))) [
    | inr e ↦ ground arith
    | inl e ↦ elim (Option-cases (consume_word u (codes "long") (skip_space s))) [
      | inl e2 ↦ ground (arith, skip_space-le s)
      | inr (rest, e2) ↦
          ground (arith, skip_space-le s, consume_word-le (codes "long") (skip_space s) rest e2)
    ]
  ]

  pub take_const-le : (s : Text) → length (take_const u s).1 ≤ length s
  unfolding take_const
  take_const-le s = elim (Option-cases (consume_word u (codes "const") s)) [
    | inl e ↦ ground arith
    | inr (rest, e) ↦ ground (arith, skip_space-le rest, consume_word-le (codes "const") s rest e)
  ]

  pub take_suffix-le : (s : Text) → length (take_suffix u s).2 ≤ length s
  unfolding take_suffix
  take_suffix-le s = elim (Option-cases (consume_string (codes "&&") s)) [
    | inr (rest, e) ↦ ground (arith, consume_string-le (codes "&&") s rest e)
    | inl e ↦ elim (Option-cases (consume_byte b'&' s)) [
      | inr (rest, e2) ↦ ground (arith, consume_byte-lt b'&' s rest e2)
      | inl e2 ↦ elim (Option-cases (consume_byte b'*' s)) [
        | inr (rest, e3) ↦ ground (arith, consume_byte-lt b'*' s rest e3)
        | inl e3 ↦ ground arith
      ]
    ]
  ]

  pub finish_type-le :
      (name : Text) (args : TypeRefs) (c : Bool) (s : Text)
      → length (finish_type u name args c s).1 ≤ length s
  unfolding finish_type
  finish_type-le name args c s =
      let a = skip_space-le s in
      let b = take_const-le (skip_space s) in
      let d = take_suffix-le (take_const u (skip_space s)).1 in omega arith
