-- ===== src/CppType/RoundTrip.antt =====
-- `Parse` (internal/judge/harness/cpp/types/parser.go) reads back what `ValueName` (ref.go) prints.
use yex_judge.Common.{
  ℕ, zero, suc, ◌≤◌, ◌≡◌, refl, sym, ap, ◌∙◌, subst, true, false, [], ◌∷◌, ◌++◌, append_assoc,
  append-nil, Text, codes, text_eq, is_space, skip_space, drop_trailing, trim_space, ok, arith, inl,
  inr,
}
use yex_judge.CppType.{
  TypeRef, type_ref, nil, cons, value_name, more_names, Unicode, is_name_char, parse_type, parse,
  byte_length, max_type_length, max_type_depth,
}
use yex_judge.CppType.Words.{IsSensible, IsWord, IsName, skip_space-word}
use yex_judge.CppType.Reading.{IsPlain, Reads, all_read}

nonempty-end : (s : Text) (c : ℕ) → text_eq (s ++ c ∷ []) [] ≡ false
unfolding text_eq
nonempty-end [] c = refl
nonempty-end (d ∷ s) c = refl

drop_trailing-end :
    (s : Text) (c : ℕ) → is_space c ≡ false → drop_trailing (s ++ c ∷ []) ≡ s ++ c ∷ []
unfolding drop_trailing text_eq
drop_trailing-end [] c h = ground arith
drop_trailing-end (d ∷ s) c h =
    let e = nonempty-end s c in let more = drop_trailing-end s c h in ground arith

module _ (u : Unicode) (sensible : IsSensible u) where
  -- A text that no white space surrounds.
  record IsTrim (s : Text) : Type 0 where
    first : ℕ
    behind : Text
    starts : s ≡ first ∷ behind
    first_name : is_name_char u first ≡ true
    front : Text
    last : ℕ
    ends : s ≡ front ++ last ∷ []
    last_ok : is_space last ≡ false

  IsTrim-trim_space : (s : Text) → IsTrim s → trim_space s ≡ s
  unfolding trim_space
  IsTrim-trim_space s t =
      let a : skip_space s ≡ s =
        subst (λ z. skip_space z ≡ z) (sym t.starts)
          (skip_space-word u sensible t.first t.behind t.first_name) in
      let b : drop_trailing s ≡ s =
        subst (λ z. drop_trailing z ≡ z) (sym t.ends)
          (drop_trailing-end t.front t.last t.last_ok) in
      ap drop_trailing a ∙ b

  last_of_word :
      (c : ℕ) (w : Text)
      → IsWord u sensible (c ∷ w)
      → (front : Text) × (last : ℕ) × (c ∷ w ≡ front ++ last ∷ []) × (is_name_char u last ≡ true)
  last_of_word c [] (a, _) = ([], c, refl, a)
  last_of_word c (d ∷ w) (a, aw) =
      let (front, last, e, n) = last_of_word d w aw in (c ∷ front, last, ap (◌∷◌ c) e, n)

  IsName-IsTrim : (w : Text) → IsName u sensible w → IsTrim w
  unfolding is_space
  IsName-IsTrim w (inl e) =
      let (_, (_, (_, (_, (_, (_, (l, _))))))) = sensible.letters in
      record {
        first = b'l';
        behind = codes "ong long";
        starts = e;
        first_name = l;
        front = codes "long lon";
        last = b'g';
        ends = e;
        last_ok = refl;
      }
  IsName-IsTrim [] (inr (_, ne, _, _, _)) = absurd (ne refl)
  IsName-IsTrim (c ∷ w) (inr ((a, aw), _, _, _, _)) =
      let (front, last, e, n) = last_of_word c w (a, aw) in
      record {
        first = c;
        behind = w;
        starts = refl;
        first_name = a;
        front = front;
        last = last;
        ends = e;
        last_ok = sensible.no_space last n;
      }

  -- What follows a name may end it otherwise.
  longer :
      (w t front : Text) (c : ℕ)
      → t ≡ front ++ c ∷ []
      → is_space c ≡ false
      → IsTrim w
      → IsTrim (w ++ t)
  longer w t front c e ok_end i = record {
    first = i.first;
    behind = i.behind ++ t;
    starts = ap (λ z. z ++ t) i.starts;
    first_name = i.first_name;
    front = w ++ front;
    last = c;
    ends = ap (λ z. w ++ z) e ∙ sym (append_assoc w front (c ∷ []));
    last_ok = ok_end;
  }

  value_name-IsTrim :
      (levels : ℕ) (r : TypeRef) → IsPlain u sensible levels r → IsTrim (value_name r)
  unfolding IsPlain value_name is_space
  value_name-IsTrim zero r p = absurd p
  value_name-IsTrim (suc levels) (type_ref name nil c k false) (n, _, _, _) =
      subst IsTrim (sym (append-nil name)) (IsName-IsTrim name n)
  value_name-IsTrim (suc levels) (type_ref name nil c k true) (n, _, _, _) =
      longer name (codes "*") [] b'*' refl refl (IsName-IsTrim name n)
  value_name-IsTrim (suc levels) (type_ref name (cons a as') c k false) (n, _, _, _) =
      let x = value_name a in
      let y = more_names as' in
      longer name (b'<' ∷ (x ++ (y ++ (b'>' ∷ [])))) (b'<' ∷ (x ++ y)) b'>'
        (ap (◌∷◌ b'<') (sym (append_assoc x y (b'>' ∷ [])))) refl (IsName-IsTrim name n)
  value_name-IsTrim (suc levels) (type_ref name (cons a as') c k true) (n, _, _, _) =
      let x = value_name a in
      let y = more_names as' in
      longer name (b'<' ∷ (x ++ (y ++ (b'>' ∷ codes "*")))) (b'<' ∷ (x ++ (y ++ (b'>' ∷ [])))) b'*'
        (ap (◌∷◌ b'<') (
          sym (
            append_assoc x (y ++ (b'>' ∷ [])) (codes "*")
            ∙ ap (λ v. x ++ v) (append_assoc y (b'>' ∷ []) (codes "*")))))
        refl (IsName-IsTrim name n)

  -- A type without qualifiers, whose names are names and no keywords and whose arguments nest at
  -- most 64 deep, is read back from its printed form when that has at most 4096 bytes.
  pub parse-value_name :
      (r : TypeRef)
      → IsPlain u sensible (suc max_type_depth) r
      → byte_length (value_name r) ≤ max_type_length
      → parse u (value_name r) ≡ ok r
  unfolding parse skip_space Reads
  parse-value_name r p short =
      let i = value_name-IsTrim (suc max_type_depth) r p in
      let trimmed = IsTrim-trim_space (value_name r) i in
      let whole : parse_type u (suc max_type_depth) (value_name r) ≡ ok (r, []) =
        subst (λ z. parse_type u (suc max_type_depth) z ≡ ok (r, [])) (append-nil (value_name r))
          (all_read u sensible (suc max_type_depth) r [] p (inl refl)) in
      let nonempty : text_eq (value_name r) [] ≡ false =
        subst (λ z. text_eq z [] ≡ false) (sym i.ends) (nonempty-end i.front i.last) in
      ground arith
