-- ===== src/CppType/Words.antt =====
-- The parser of internal/judge/harness/cpp/types/parser.go on a name and what stands behind it.
use yex_judge.Common.{
  ℕ, suc, ◌≡◌, ◌≢◌, refl, sym, ap, ◌∙◌, subst, Bool, true, false, none, some, [], ◌∷◌, ◌++◌, Text,
  codes, text_eq, text_eq_iff, is_space, skip_space, ok, ◌==◌, ==_iff, All, arith, Bool-cases, ◌⊎◌,
  inl, inr,
}
use yex_judge.CppType.{
  TypeRefs, type_ref, no_reference, star, Unicode, consume_string, consume_byte, is_name_char,
  starts_name, consume_word, span_name, parse_name, after_std, after_long, take_const, take_suffix,
  finish_type, finish_named, parse_type,
}

-- What the round trip asks of the Unicode tables: the letters of the keywords are letters, the
-- punctuation of types and the space are neither letters nor digits, and no name has a space.
pub record IsSensible (u : Unicode) : Type 0 where
  pub letters : All (λ c. is_name_char u c ≡ true) (codes "constdlg")
  pub marks : All (λ c. is_name_char u c ≡ false) (codes " <>,*")
  pub no_space : (c : ℕ) → is_name_char u c ≡ true → is_space c ≡ false

module _ (u : Unicode) (sensible : IsSensible u) where
  abbrev pub IsWord : Text → Type 0
  IsWord w = All (λ c. is_name_char u c ≡ true) w

  pub skip_space-word : (c : ℕ) (s : Text) → is_name_char u c ≡ true → skip_space (c ∷ s) ≡ c ∷ s
  unfolding skip_space
  skip_space-word c s h = let n = sensible.no_space c h in ground arith

  pub span_name-word :
      (w rest : Text) → IsWord w → starts_name u rest ≡ false → span_name u (w ++ rest) ≡ (w, rest)
  unfolding span_name
  span_name-word [] [] all h = refl
  span_name-word [] (c ∷ rest) all h = ground arith
  span_name-word (c ∷ w) rest (a, all) h = ground (arith, span_name-word w rest all h)

  pub consume_string-word :
      (v w rest : Text)
      → IsWord v
      → IsWord w
      → v ≢ w
      → starts_name u rest ≡ false
      → (consume_string v (w ++ rest) ≡ none)
        ⊎ ((s : Text) × (consume_string v (w ++ rest) ≡ some s) × (starts_name u s ≡ true))
  unfolding consume_string
  consume_string-word [] [] rest av aw ne h = absurd (ne refl)
  consume_string-word [] (c ∷ w) rest av (a, aw) ne h = inr (c ∷ (w ++ rest), refl, a)
  consume_string-word (c ∷ v) [] [] av aw ne h = inl refl
  consume_string-word (c ∷ v) [] (d ∷ rest) (a, av) aw ne h = elim (Bool-cases (d == c)) [
    | inr e ↦ inl (ground arith)
    | inl e ↦
        let x = subst (λ x. is_name_char u x ≡ false) ((==_iff d c).0 e) h in absurd (ground arith)
  ]
  consume_string-word (c ∷ v) (d ∷ w) rest (a, av) (b, aw) ne h = elim (Bool-cases (d == c)) [
    | inr e ↦ inl (ground arith)
    | inl e ↦
        elim (consume_string-word v w rest av aw
          (λ q. ne (ap (λ x. x ∷ v) (sym ((==_iff d c).0 e)) ∙ ap (◌∷◌ d) q)) h) [
            | inl q ↦ inl (ground arith)
            | inr (s, q, t) ↦ inr (s, ground arith, t)
          ]
  ]

  pub consume_word-word :
      (v w rest : Text)
      → IsWord v
      → IsWord w
      → v ≢ w
      → starts_name u rest ≡ false
      → consume_word u v (w ++ rest) ≡ none
  unfolding consume_word
  consume_word-word v w rest av aw ne h = elim (consume_string-word v w rest av aw ne h) [
    | inl q ↦ ground arith
    | inr (s, q, t) ↦ ground arith
  ]

  pub take_const-word :
      (w rest : Text)
      → IsWord w
      → codes "const" ≢ w
      → starts_name u rest ≡ false
      → take_const u (w ++ rest) ≡ (false, w ++ rest)
  unfolding take_const
  take_const-word w rest aw ne h =
      let (c, (o, (n, (s, (t, _))))) = sensible.letters in
      let none_here =
        consume_word-word (codes "const") w rest (c, (o, (n, (s, (t, tt))))) aw ne h in
      ground arith

  pub parse_name-word :
      (c : ℕ) (w rest : Text)
      → IsWord (c ∷ w)
      → starts_name u rest ≡ false
      → parse_name u (c ∷ (w ++ rest)) ≡ ok (c ∷ w, rest)
  unfolding parse_name text_eq
  parse_name-word c w rest (a, aw) h =
      let e = skip_space-word c (w ++ rest) a in
      let n = span_name-word (c ∷ w) rest (a, aw) h in ground arith

  -- What may stand behind a type: nothing, `>` or `,`.
  abbrev pub IsEnd : Text → Type 0
  IsEnd rest =
      (rest ≡ [])
      ⊎ (((tail : Text) × (rest ≡ b'>' ∷ tail)) ⊎ ((tail : Text) × (rest ≡ b',' ∷ tail)))

  pub finish_type-plain :
      (name : Text) (args : TypeRefs) (p : Bool) (rest : Text)
      → IsEnd rest
      → finish_type u name args false (star p ++ rest)
        ≡ (type_ref name args false no_reference p, rest)
  unfolding finish_type take_const take_suffix consume_word consume_string consume_byte skip_space
      is_space
  finish_type-plain name args true rest e = refl
  finish_type-plain name args false rest (inl e) =
      subst
        (λ r. finish_type u name args false r ≡ (type_ref name args false no_reference false, r))
        (sym e) refl
  finish_type-plain name args false rest (inr (inl (tail, e))) =
      subst
        (λ r. finish_type u name args false r ≡ (type_ref name args false no_reference false, r))
        (sym e) refl
  finish_type-plain name args false rest (inr (inr (tail, e))) =
      subst
        (λ r. finish_type u name args false r ≡ (type_ref name args false no_reference false, r))
        (sym e) refl

  -- A name: two longs, or a word that is no keyword of the syntax.
  abbrev pub IsName : Text → Type 0
  IsName w =
      (w ≡ codes "long long")
      ⊎ (IsWord w × (w ≢ []) × (codes "const" ≢ w) × (w ≢ codes "std") × (w ≢ codes "long"))

  text_eq-false : (v w : Text) → v ≢ w → text_eq v w ≡ false
  text_eq-false v w ne = elim (Bool-cases (text_eq v w)) [
    | inl e ↦ absurd (ne ((text_eq_iff v w).0 e))
    | inr e ↦ e
  ]

  after_std-word : (w t : Text) → w ≢ codes "std" → after_std u w t ≡ ok (w, t)
  unfolding after_std
  after_std-word w t ne = let e = text_eq-false w (codes "std") ne in ground arith

  after_long-word : (w t : Text) → w ≢ codes "long" → after_long u w t ≡ (w, t)
  unfolding after_long
  after_long-word w t ne = let e = text_eq-false w (codes "long") ne in ground arith

  after_long-long :
      (t : Text)
      → starts_name u t ≡ false
      → after_long u (codes "long") (codes " long" ++ t) ≡ (codes "long long", t)
  unfolding after_long consume_word consume_string skip_space is_space text_eq
  after_long-long t h = ground arith

  after_std-long : (t : Text) → after_std u (codes "long") t ≡ ok (codes "long", t)
  unfolding after_std text_eq
  after_std-long t = refl

  -- The head of a type from its three parts.
  head_of :
      (levels : ℕ) (s first t t' name : Text)
      → skip_space s ≡ s
      → take_const u s ≡ (false, s)
      → parse_name u s ≡ ok (first, t)
      → after_std u first t ≡ ok (first, t)
      → after_long u first t ≡ (name, t')
      → parse_type u (suc levels) s ≡ finish_named u (parse_type u levels) levels name false t'
  unfolding parse_type
  head_of levels s first t t' name sk co pa st lo = rw (parse_type, sk, co, pa, st, lo) refl

  const_not_long : codes "const" ≢ codes "long"
  const_not_long e = absurd (ground arith)

  two_longs :
      (levels : ℕ) (t : Text)
      → starts_name u t ≡ false
      → parse_type u (suc levels) (codes "long long" ++ t)
        ≡ finish_named u (parse_type u levels) levels (codes "long long") false t
  two_longs levels t h =
      let (_, (o, (n, (_, (_, (_, (l, (g, _)))))))) = sensible.letters in
      let (space, _) = sensible.marks in
      let behind = codes " long" ++ t in
      head_of levels (codes "long long" ++ t) (codes "long") behind t (codes "long long")
        (skip_space-word b'l' (codes "ong" ++ behind) l)
        (take_const-word (codes "long") behind (l, (o, (n, (g, tt)))) const_not_long space)
        (parse_name-word b'l' (codes "ong") behind (l, (o, (n, (g, tt)))) space)
        (after_std-long behind) (after_long-long t h)

  pub parse_type-name :
      (levels : ℕ) (w t : Text)
      → IsName w
      → starts_name u t ≡ false
      → parse_type u (suc levels) (w ++ t) ≡ finish_named u (parse_type u levels) levels w false t
  parse_type-name levels [] t (inr (_, ne, _, _, _)) h = absurd (ne refl)
  parse_type-name levels (c ∷ w) t (inr ((a, aw), _, nc, ns, nl)) h =
      head_of levels (c ∷ (w ++ t)) (c ∷ w) t t (c ∷ w) (skip_space-word c (w ++ t) a)
        (take_const-word (c ∷ w) t (a, aw) nc h) (parse_name-word c w t (a, aw) h)
        (after_std-word (c ∷ w) t ns) (after_long-word (c ∷ w) t nl)
  parse_type-name levels w t (inl e) h =
      subst
        (λ v.
          parse_type u (suc levels) (v ++ t)
          ≡ finish_named u (parse_type u levels) levels v false t)
        (sym e) (two_longs levels t h)
