-- ===== src/Artifacts/Parts.antt =====
-- The parts of a path that path.Clean returns (safeArchivePath, internal/judge/workspace.go): joined
-- by slashes and split again they are the same, since no part has a slash.
use yex_judge.Common.{
  ◌≡◌, refl, ap, ◌∙◌, subst, Bool, false, ◌||◌, List, [], ◌∷◌, ◌++◌, Text, codes, text_eq, join,
  All, ◌==◌, arith, Bool-cases, List-cases, inl, inr,
}
use yex_judge.Artifacts.{
  dot_dot, is_dot_dot_first, pop, clean_part, clean_parts, reversed, is_rooted, kept_parts,
  split_slash,
}

abbrev pub NoSlash : Text → Type 0
NoSlash s = All (λ c. (c == b'/') ≡ false) s

abbrev pub NoSlashes : List Text → Type 0
NoSlashes ps = All NoSlash ps

split_slash-NoSlashes : (s : Text) → NoSlashes (split_slash s)
unfolding split_slash
split_slash-NoSlashes [] = (tt, tt)
split_slash-NoSlashes (c ∷ s) = elim (Bool-cases (c == b'/')) [
  | inl e ↦
      let same : [] ∷ split_slash s ≡ split_slash (c ∷ s) = ground arith in
      subst NoSlashes same (tt, split_slash-NoSlashes s)
  | inr e ↦ elim (List-cases (split_slash s)) [
    | inl n ↦
        let same : (c ∷ []) ∷ [] ≡ split_slash (c ∷ s) = ground arith in
        subst NoSlashes same ((e, tt), tt)
    | inr (p, ps, n) ↦
        let rest : NoSlashes (p ∷ ps) = subst NoSlashes n (split_slash-NoSlashes s) in
        let same : (c ∷ p) ∷ ps ≡ split_slash (c ∷ s) = ground arith in
        subst NoSlashes same ((e, rest.0), rest.1)
  ]
]

pop-NoSlashes : (ps : List Text) → NoSlashes ps → NoSlashes (pop ps)
pop-NoSlashes [] h = tt
pop-NoSlashes (p ∷ ps) h = h.1

clean_part-NoSlashes :
    (rooted : Bool) (stack : List Text) (p : Text)
    → NoSlash p
    → NoSlashes stack
    → NoSlashes (clean_part rooted stack p)
unfolding clean_part
clean_part-NoSlashes rooted stack p here h =
    elim (Bool-cases (text_eq p [] || text_eq p (codes "."))) [
      | inl e ↦
          let same : stack ≡ clean_part rooted stack p = ground arith in subst NoSlashes same h
      | inr e ↦ elim (Bool-cases (text_eq p dot_dot)) [
        | inr e2 ↦
            let pushed : p ∷ stack ≡ clean_part rooted stack p = ground arith in
            subst NoSlashes pushed (here, h)
        | inl e2 ↦ elim (Bool-cases (is_dot_dot_first stack)) [
          | inr e3 ↦
              let same : pop stack ≡ clean_part rooted stack p = ground arith in
              subst NoSlashes same (pop-NoSlashes stack h)
          | inl e3 ↦ elim (Bool-cases rooted) [
            | inl r ↦
                let same : stack ≡ clean_part rooted stack p = ground arith in
                subst NoSlashes same h
            | inr r ↦
                let pushed : p ∷ stack ≡ clean_part rooted stack p = ground arith in
                subst NoSlashes pushed (here, h)
          ]
        ]
      ]
    ]

clean_parts-NoSlashes :
    (rooted : Bool) (stack ps : List Text)
    → NoSlashes ps
    → NoSlashes stack
    → NoSlashes (clean_parts rooted stack ps)
unfolding clean_parts
clean_parts-NoSlashes rooted stack [] a h = h
clean_parts-NoSlashes rooted stack (p ∷ ps) (here, a) h =
    clean_parts-NoSlashes rooted (clean_part rooted stack p) ps a
      (clean_part-NoSlashes rooted stack p here h)

reversed-NoSlashes :
    (ps done : List Text) → NoSlashes ps → NoSlashes done → NoSlashes (reversed ps done)
unfolding reversed
reversed-NoSlashes [] done a b = b
reversed-NoSlashes (p ∷ ps) done (n, a) b = reversed-NoSlashes ps (p ∷ done) a (n, b)

pub kept_parts-NoSlashes : (s : Text) → NoSlashes (kept_parts s)
unfolding kept_parts
kept_parts-NoSlashes s =
    reversed-NoSlashes _ []
      (clean_parts-NoSlashes (is_rooted s) [] (split_slash s) (split_slash-NoSlashes s) tt) tt

split_slash-one : (p : Text) → NoSlash p → split_slash p ≡ p ∷ []
unfolding split_slash
split_slash-one [] h = refl
split_slash-one (c ∷ p) (e, h) = let rest = split_slash-one p h in ground arith

split_slash-front : (p s : Text) → NoSlash p → split_slash (p ++ b'/' ∷ s) ≡ p ∷ split_slash s
unfolding split_slash
split_slash-front [] s h = refl
split_slash-front (c ∷ p) s (e, h) = let rest = split_slash-front p s h in ground arith

-- A list of parts, joined and split again; none is one empty part.
pub split_slash-join :
    (p : Text) (ps : List Text)
    → NoSlashes (p ∷ ps)
    → split_slash (join (p ∷ ps) (codes "/")) ≡ p ∷ ps
unfolding join
split_slash-join p [] (h, _) = split_slash-one p h
split_slash-join p (q ∷ ps) (h, more) =
    split_slash-front p (join (q ∷ ps) (codes "/")) h ∙ ap (◌∷◌ p) (split_slash-join q ps more)
