-- ===== src/Artifacts/Paths.antt =====
-- `safeArchivePath` (internal/judge/workspace.go) lets no path out of the directory it is put in.
use yex_judge.Common.{
  ◌≡◌, ◌≢◌, refl, sym, ap, ◌∙◌, subst, Bool, true, false, ◌||◌, List, [], ◌∷◌, ◌++◌, Text, codes,
  text_eq, text_eq_iff, has_prefix, join, ok, All, arith, Bool-cases, ◌⊎◌, inl, inr,
}
use yex_judge.Artifacts.Parts.{NoSlashes, kept_parts-NoSlashes, split_slash-join}
use yex_judge.Artifacts.{
  dot_dot, is_dot_dot_first, pop, clean_part, clean_parts, reversed, is_rooted, kept_parts,
  split_slash, path_clean, without_dot_slash, safe_archive_path,
}

abbrev NoDots : List Text → Type 0
NoDots ps = All (λ p. p ≢ dot_dot) ps

-- The part at the bottom of the stack, which is the path's first, is `..`.
abbrev EndsDots : List Text → Type 0
EndsDots [] = ⊥
EndsDots (p ∷ []) = p ≡ dot_dot
EndsDots (p ∷ q ∷ ps) = EndsDots (q ∷ ps)

abbrev Tidy : Bool → List Text → Type 0
Tidy true stack = NoDots stack
Tidy false stack = NoDots stack ⊎ EndsDots stack

not_dots : (p : Text) → text_eq p dot_dot ≡ false → p ≢ dot_dot
not_dots p h e = let t = (text_eq_iff p dot_dot).1 e in absurd (ground arith)

push-Tidy :
    (rooted : Bool) (p : Text) (stack : List Text)
    → p ≢ dot_dot
    → Tidy rooted stack
    → Tidy rooted (p ∷ stack)
push-Tidy true p stack ne t = (ne, t)
push-Tidy false p stack ne (inl t) = inl (ne, t)
push-Tidy false p (q ∷ qs) ne (inr t) = inr t
push-Tidy false p [] ne (inr t) = absurd t

pop-Tidy :
    (rooted : Bool) (stack : List Text)
    → is_dot_dot_first stack ≡ false
    → Tidy rooted stack
    → Tidy rooted (pop stack)
pop-Tidy rooted [] h t = absurd (ground arith)
pop-Tidy true (p ∷ ps) h (_, t) = t
pop-Tidy false (p ∷ ps) h (inl (_, t)) = inl t
pop-Tidy false (p ∷ []) h (inr t) = absurd (not_dots p h t)
pop-Tidy false (p ∷ q ∷ qs) h (inr t) = inr t

dots-Tidy :
    (stack : List Text) (p : Text)
    → p ≡ dot_dot
    → is_dot_dot_first stack ≡ true
    → Tidy false stack
    → Tidy false (p ∷ stack)
dots-Tidy [] p e h t = inr e
dots-Tidy (q ∷ qs) p e h (inr t) = inr t
dots-Tidy (q ∷ qs) p e h (inl (ne, t)) = absurd (ne ((text_eq_iff q dot_dot).0 h))

clean_part-Tidy :
    (rooted : Bool) (stack : List Text) (p : Text)
    → Tidy rooted stack
    → Tidy rooted (clean_part rooted stack p)
unfolding clean_part
clean_part-Tidy rooted stack p t = elim (Bool-cases (text_eq p [] || text_eq p (codes "."))) [
  | inl e ↦ subst (Tidy rooted) (ground arith) t
  | inr e ↦ elim (Bool-cases (text_eq p dot_dot)) [
    | inr e2 ↦ subst (Tidy rooted) (ground arith) (push-Tidy rooted p stack (not_dots p e2) t)
    | inl e2 ↦ elim (Bool-cases (is_dot_dot_first stack)) [
      | inr e3 ↦ subst (Tidy rooted) (ground arith) (pop-Tidy rooted stack e3 t)
      | inl e3 ↦ elim (Bool-cases rooted) [
        | inl r ↦ subst (Tidy rooted) (ground arith) t
        | inr r ↦
            let u : Tidy false stack = subst (λ b. Tidy b stack) r t in
            let v : Tidy rooted (p ∷ stack) =
              subst (λ b. Tidy b (p ∷ stack)) (sym r)
                (dots-Tidy stack p ((text_eq_iff p dot_dot).0 e2) e3 u) in
            subst (Tidy rooted) (ground arith) v
      ]
    ]
  ]
]

clean_parts-Tidy :
    (rooted : Bool) (stack ps : List Text)
    → Tidy rooted stack
    → Tidy rooted (clean_parts rooted stack ps)
unfolding clean_parts
clean_parts-Tidy rooted stack [] t = t
clean_parts-Tidy rooted stack (p ∷ ps) t =
    clean_parts-Tidy rooted (clean_part rooted stack p) ps (clean_part-Tidy rooted stack p t)

reversed-NoDots : (ps done : List Text) → NoDots ps → NoDots done → NoDots (reversed ps done)
unfolding reversed
reversed-NoDots [] done a b = b
reversed-NoDots (p ∷ ps) done (n, a) b = reversed-NoDots ps (p ∷ done) a (n, b)

reversed-EndsDots :
    (ps done : List Text) → EndsDots ps → (rest : List Text) × (reversed ps done ≡ dot_dot ∷ rest)
unfolding reversed
reversed-EndsDots [] done e = absurd e
reversed-EndsDots (p ∷ []) done e = (done, ap (λ x. x ∷ done) e)
reversed-EndsDots (p ∷ q ∷ ps) done e = reversed-EndsDots (q ∷ ps) (p ∷ done) e

-- The parts that path.Clean keeps: no `..` among them, or one in front of a relative path.
kept_parts_lem :
    (s : Text)
    → NoDots (kept_parts s)
      ⊎ ((is_rooted s ≡ false) × ((rest : List Text) × (kept_parts s ≡ dot_dot ∷ rest)))
unfolding kept_parts
kept_parts_lem s = elim (Bool-cases (is_rooted s)) [
  | inl r ↦
      let t =
        subst (λ b. Tidy b (clean_parts b [] (split_slash s))) r
          (clean_parts-Tidy (is_rooted s) [] (split_slash s) (subst (λ b. Tidy b []) (sym r) tt)) in
      inl (
        subst (λ b. NoDots (reversed (clean_parts b [] (split_slash s)) [])) (sym r)
          (reversed-NoDots _ [] t tt))
  | inr r ↦ elim (clean_parts-Tidy false [] (split_slash s) (inl tt)) [
    | inl t ↦ inl (
        subst (λ b. NoDots (reversed (clean_parts b [] (split_slash s)) [])) (sym r)
          (reversed-NoDots _ [] t tt))
    | inr t ↦
        let (rest, e) = reversed-EndsDots _ [] t in
        inr (
          r,
          (
            rest,
            subst (λ b. reversed (clean_parts b [] (split_slash s)) [] ≡ dot_dot ∷ rest) (sym r) e,
          ),
        )
  ]
]

climbs_out :
    (rest : List Text)
    → (text_eq (join (dot_dot ∷ rest) (codes "/")) dot_dot
        || has_prefix (join (dot_dot ∷ rest) (codes "/")) (codes "../"))
      ≡ true
unfolding join text_eq has_prefix
climbs_out [] = refl
climbs_out (p ∷ ps) = refl

dots_some : (rest : List Text) → text_eq (join (dot_dot ∷ rest) (codes "/")) [] ≡ false
unfolding join text_eq
dots_some [] = refl
dots_some (p ∷ ps) = refl

path_clean-dots :
    (s : Text) (rest : List Text)
    → is_rooted s ≡ false
    → kept_parts s ≡ dot_dot ∷ rest
    → (text_eq (path_clean s) dot_dot || has_prefix (path_clean s) (codes "../")) ≡ true
unfolding path_clean
path_clean-dots s rest r e =
    let first = join (dot_dot ∷ rest) (codes "/") in
    let j : join (kept_parts s) (codes "/") ≡ first = ap (λ z. join z (codes "/")) e in
    let some_text = dots_some rest in
    let here : text_eq (join (kept_parts s) (codes "/")) [] ≡ false =
      subst (λ z. text_eq z [] ≡ false) (sym j) some_text in
    let same : path_clean s ≡ join (kept_parts s) (codes "/") = ground arith in
    subst (λ z. (text_eq z dot_dot || has_prefix z (codes "../")) ≡ true) (sym (same ∙ j))
      (climbs_out rest)

join-NoDots :
    (ps : List Text) → NoSlashes ps → NoDots ps → NoDots (split_slash (join ps (codes "/")))
unfolding split_slash join
join-NoDots [] h n = ((λ e. cc), tt)
join-NoDots (p ∷ ps) h n = subst NoDots (sym (split_slash-join p ps h)) n

-- A clean path without `..` among its kept parts has none between its slashes.
path_clean-NoDots : (s : Text) → NoDots (kept_parts s) → NoDots (split_slash (path_clean s))
unfolding path_clean split_slash
path_clean-NoDots s n =
    let joined = join-NoDots (kept_parts s) (kept_parts-NoSlashes s) n in
    elim (Bool-cases (is_rooted s)) [
      | inl r ↦
          let same : path_clean s ≡ b'/' ∷ join (kept_parts s) (codes "/") = ground arith in
          subst (λ z. NoDots (split_slash z)) (sym same) ((λ e. cc), joined)
      | inr r ↦ elim (Bool-cases (text_eq (join (kept_parts s) (codes "/")) [])) [
        | inl e ↦
            let same : path_clean s ≡ codes "." = ground arith in
            subst (λ z. NoDots (split_slash z)) (sym same) ((λ q. cc), tt)
        | inr e ↦
            let same : path_clean s ≡ join (kept_parts s) (codes "/") = ground arith in
            subst (λ z. NoDots (split_slash z)) (sym same) joined
      ]
    ]

dot_slash-front :
    (name rest : Text)
    → name ≡ codes "./" ++ rest
    → path_clean (without_dot_slash name) ≡ path_clean rest
unfolding without_dot_slash has_prefix
dot_slash-front name rest e = ap (λ z. path_clean (without_dot_slash z)) e

no_dot_slash : (name : Text) → has_prefix name (codes "./") ≡ false → without_dot_slash name ≡ name
unfolding without_dot_slash
no_dot_slash name h = ground arith

-- A path that is accepted is returned as path.Clean of what follows its first `./`, if it begins
-- with one, and of the whole otherwise; none of the parts between the slashes of the returned path
-- is `..`.
pub safe_archive_path-NoDots :
    (name clean : Text)
    → safe_archive_path name ≡ ok clean
    → ((rest : Text) → name ≡ codes "./" ++ rest → clean ≡ path_clean rest)
      × (has_prefix name (codes "./") ≡ false → clean ≡ path_clean name)
      × All (λ p. p ≢ dot_dot) (split_slash clean)
unfolding safe_archive_path
safe_archive_path-NoDots name clean h =
    let same : clean ≡ path_clean (without_dot_slash name) = ground arith in
    (
      λ rest e. same ∙ dot_slash-front name rest e,
      λ e. same ∙ ap path_clean (no_dot_slash name e),
      elim (kept_parts_lem (without_dot_slash name)) [
        | inl n ↦
            subst (λ z. NoDots (split_slash z)) (sym same)
              (path_clean-NoDots (without_dot_slash name) n)
        | inr (r, (rest, e)) ↦
            let d = path_clean-dots (without_dot_slash name) rest r e in absurd (ground arith)
      ],
    )
