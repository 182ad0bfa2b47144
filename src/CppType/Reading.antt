-- ===== src/CppType/Reading.antt =====
-- The parser of internal/judge/harness/cpp/types/parser.go on the printed form of a type.
use yex_judge.Common.{
  ℕ, zero, suc, ◌+◌, ◌≤◌, ◌<◌, ◌≡◌, refl, sym, ap, ◌∙◌, subst, Bool, true, false, none, ◌∷◌, ◌++◌,
  append_assoc, Text, is_space, skip_space, ok, ◌==◌, length, length-append, arith, inl, inr,
}
use yex_judge.CppType.{
  TypeRef, TypeRefs, type_ref, nil, cons, snoc, no_reference, star, value_name, more_names, Unicode,
  consume_byte, starts_name, parse_arguments, finish_named, parse_type,
}
use yex_judge.CppType.Words.{IsSensible, IsName, IsEnd, finish_type-plain, parse_type-name}

module _ (u : Unicode) (sensible : IsSensible u) where
  -- A type without qualifiers, nested at most so deep, whose names are names.
  unfoldable mutual
    pub IsPlain : ℕ → TypeRef → Type 0
    IsPlain zero r = ⊥
    IsPlain (suc levels) (type_ref name args c k p) =
        IsName u sensible name × (c ≡ false) × (k ≡ no_reference) × ArePlain levels args

    pub ArePlain : ℕ → TypeRefs → Type 0
    ArePlain levels nil = Unit
    ArePlain levels (cons a as') = IsPlain levels a × ArePlain levels as'

  end_starts : (rest : Text) → IsEnd u sensible rest → starts_name u rest ≡ false
  end_starts rest (inl e) = ground arith
  end_starts rest (inr (inl (tail, e))) = let (_, (_, (gt, _))) = sensible.marks in ground arith
  end_starts rest (inr (inr (tail, e))) =
      let (_, (_, (_, (comma, _)))) = sensible.marks in ground arith

  star_starts :
      (p : Bool) (rest : Text) → IsEnd u sensible rest → starts_name u (star p ++ rest) ≡ false
  star_starts true rest e = let (_, (_, (_, (_, (a, _))))) = sensible.marks in a
  star_starts false rest e = end_starts rest e

  -- No argument list opens behind a type.
  no_angle :
      (p : Bool) (rest : Text)
      → IsEnd u sensible rest
      → (skip_space (star p ++ rest) ≡ star p ++ rest) × (consume_byte b'<' (star p ++ rest) ≡ none)
  unfolding skip_space is_space consume_byte
  no_angle true rest e = (refl, refl)
  no_angle false rest (inl e) = (ground arith, ground arith)
  no_angle false rest (inr (inl (tail, e))) = (ground arith, ground arith)
  no_angle false rest (inr (inr (tail, e))) = (ground arith, ground arith)

  finish_named-plain :
      (levels : ℕ) (name : Text) (p : Bool) (rest : Text)
      → IsEnd u sensible rest
      → finish_named u (parse_type u levels) levels name false (star p ++ rest)
        ≡ ok (type_ref name nil false no_reference p, rest)
  unfolding finish_named
  finish_named-plain levels name p rest e =
      let (sk, no_arguments) = no_angle p rest e in
      let f = finish_type-plain u sensible name nil p rest e in
      rw (finish_named, sk, no_arguments, sk, f) refl

  count : TypeRefs → ℕ
  count nil = 0
  count (cons a as') = suc (count as')

  count_le : (as' : TypeRefs) → count as' ≤ length (more_names as')
  unfolding count more_names
  count_le nil = omega arith
  count_le (cons a as') = omega (arith, count_le as', length-append (value_name a) (more_names as'))

  -- Plain types nested so deep are read back.
  unfoldable pub Reads : ℕ → Type 0
  Reads levels =
      (r : TypeRef) (rest : Text)
      → IsPlain levels r
      → IsEnd u sensible rest
      → parse_type u levels (value_name r ++ rest) ≡ ok (r, rest)

  more-IsEnd : (as' : TypeRefs) (rest : Text) → IsEnd u sensible (more_names as' ++ (b'>' ∷ rest))
  unfolding more_names
  more-IsEnd nil rest = inr (inl (rest, refl))
  more-IsEnd (cons a as') rest = inr (inr ((value_name a ++ more_names as') ++ (b'>' ∷ rest), refl))

  last_argument :
      (levels : ℕ) (name : Text) (before : TypeRefs) (fuel : ℕ) (s rest : Text) (a : TypeRef)
      → parse_type u levels s ≡ ok (a, b'>' ∷ rest)
      → parse_arguments u (parse_type u levels) name before (suc fuel) s ≡ ok (cons a nil, rest)
  unfolding parse_arguments consume_byte skip_space is_space
  last_argument levels name before fuel s rest a h = ground arith

  next_argument :
      (levels : ℕ) (name : Text) (before : TypeRefs) (fuel : ℕ) (s more rest : Text) (a : TypeRef)
      (as' : TypeRefs)
      → parse_type u levels s ≡ ok (a, b',' ∷ more)
      → parse_arguments u (parse_type u levels) name (snoc before a) fuel more ≡ ok (as', rest)
      → parse_arguments u (parse_type u levels) name before (suc fuel) s ≡ ok (cons a as', rest)
  unfolding parse_arguments consume_byte skip_space is_space
  next_argument levels name before fuel s more rest a as' h k = ground arith

  parse_arguments-plain :
      (levels : ℕ) (reads : Reads levels) (name : Text) (before : TypeRefs) (fuel : ℕ) (a : TypeRef)
      (as' : TypeRefs) (rest : Text)
      → IsPlain levels a
      → ArePlain levels as'
      → count as' < fuel
      → parse_arguments u
          (parse_type u levels)
          name
          before
          fuel
          (value_name a ++ (more_names as' ++ (b'>' ∷ rest)))
        ≡ ok (cons a as', rest)
  unfolding count more_names Reads ArePlain
  parse_arguments-plain levels reads name before zero a as' rest pa ps lt = absurd (omega arith)
  parse_arguments-plain levels reads name before (suc fuel) a nil rest pa ps lt =
      last_argument levels name before fuel (value_name a ++ (b'>' ∷ rest)) rest a
        (reads a (b'>' ∷ rest) pa (inr (inl (rest, refl))))
  parse_arguments-plain levels reads name before (suc fuel) a (cons b bs) rest pa (pb, ps) lt =
      let more = value_name b ++ (more_names bs ++ (b'>' ∷ rest)) in
      let flat : (value_name b ++ more_names bs) ++ (b'>' ∷ rest) ≡ more =
        append_assoc (value_name b) (more_names bs) (b'>' ∷ rest) in
      let here : parse_type u levels (value_name a ++ (b',' ∷ more)) ≡ ok (a, b',' ∷ more) =
        reads a (b',' ∷ more) pa (inr (inr (more, refl))) in
      subst
        (λ z.
          parse_arguments u (parse_type u levels) name before (suc fuel)
            (value_name a ++ (b',' ∷ z))
          ≡ ok (cons a (cons b bs), rest))
        (sym flat)
        (next_argument levels name before fuel (value_name a ++ (b',' ∷ more)) more rest a
          (cons b bs) here
          (parse_arguments-plain levels reads name (snoc before a) fuel b bs rest pb ps
            (omega arith)))

  -- The parts of a printed type with arguments, brought to the right.
  spread :
      (n x y z r : Text) (lt gt : ℕ)
      → (n ++ (lt ∷ (x ++ (y ++ (gt ∷ z))))) ++ r ≡ n ++ (lt ∷ (x ++ (y ++ (gt ∷ (z ++ r)))))
  spread n x y z r lt gt =
      append_assoc n (lt ∷ (x ++ (y ++ (gt ∷ z)))) r
      ∙ ap (λ v. n ++ (lt ∷ v))
          (append_assoc x (y ++ (gt ∷ z)) r ∙ ap (λ v. x ++ v) (append_assoc y (gt ∷ z) r))

  plain_levels : (levels : ℕ) (a : TypeRef) → IsPlain levels a → (levels == 0) ≡ false
  unfolding IsPlain
  plain_levels zero a p = absurd p
  plain_levels (suc levels) a p = ground arith

  finish_named-arguments :
      (levels : ℕ) (reads : Reads levels) (name : Text) (a : TypeRef) (as' : TypeRefs) (p : Bool)
      (rest : Text)
      → IsPlain levels a
      → ArePlain levels as'
      → IsEnd u sensible rest
      → finish_named u
          (parse_type u levels)
          levels
          name
          false
          (b'<' ∷ (value_name a ++ (more_names as' ++ (b'>' ∷ (star p ++ rest)))))
        ≡ ok (type_ref name (cons a as') false no_reference p, rest)
  unfolding finish_named consume_byte skip_space is_space
  finish_named-arguments levels reads name a as' p rest pa ps e =
      let inside = value_name a ++ (more_names as' ++ (b'>' ∷ (star p ++ rest))) in
      let deep = plain_levels levels a pa in
      let l1 = length-append (value_name a) (more_names as' ++ (b'>' ∷ (star p ++ rest))) in
      let l2 = length-append (more_names as') (b'>' ∷ (star p ++ rest)) in
      let args =
        parse_arguments-plain levels reads name nil (length inside + 1) a as' (star p ++ rest) pa ps
          (omega (arith, count_le as')) in
      let f = finish_type-plain u sensible name (cons a as') p rest e in ground arith

  Reads-type :
      (levels : ℕ)
      → Reads levels
      → (name : Text) (args : TypeRefs) (p : Bool) (rest : Text) → IsName u sensible name
      → ArePlain levels args
      → IsEnd u sensible rest
      → parse_type u (suc levels) (value_name (type_ref name args false no_reference p) ++ rest)
        ≡ ok (type_ref name args false no_reference p, rest)
  unfolding value_name ArePlain
  Reads-type levels reads name nil p rest n ps e =
      ap (parse_type u (suc levels)) (append_assoc name (star p) rest)
      ∙ (parse_type-name u sensible levels name (star p ++ rest) n (star_starts p rest e)
          ∙ finish_named-plain levels name p rest e)
  Reads-type levels reads name (cons a as') p rest n (pa, ps) e =
      let (_, (lt, _)) = sensible.marks in
      ap (parse_type u (suc levels))
        (spread name (value_name a) (more_names as') (star p) rest b'<' b'>')
      ∙ (parse_type-name u sensible levels name _ n lt
          ∙ finish_named-arguments levels reads name a as' p rest pa ps e)

  pub all_read : (levels : ℕ) → Reads levels
  unfolding Reads IsPlain
  all_read zero r rest p e = absurd p
  all_read (suc levels) (type_ref name args c k p) rest (n, ec, ek, ps) e =
      rw (ec, ek) (Reads-type levels (all_read levels) name args p rest n ps e)
