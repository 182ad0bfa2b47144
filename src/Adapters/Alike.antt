-- ===== src/Adapters/Alike.antt =====
-- GenerateLiteral and CanonicalJSON of strings, lists and trees (scalar.go and runtime.go of
-- internal/judge/harness/cpp/types) accept the same values.
use yex_judge.Common.{
  ℕ, ◌+◌, ◌≡◌, refl, sym, ap, ◌∙◌, true, false, ◌&&◌, Bool-cases, List-cases, Option-cases, List,
  [], ◌∷◌, ◌++◌, inl, inr, Text, codes, Result, ok, err, Result-cases, length, arith, ◌==◌,
}
use yex_judge.Json.{Json, is_null, as_string}
use yex_judge.Adapters.{ValueError}
use yex_judge.Adapters.Scalars.{
  integer_canonical, string_literal, string_canonical, array_values, each_value,
}
use yex_judge.Adapters.Values.{
  forget, list_literal, canonical_list, tree_value, tree_literal, drop_nulls, canonical_tree,
}
use yex_judge.Adapters.Loops.{is_ok, each_value-is_ok, each_value-same}

-- Two computations that end alike.
abbrev pub Alike : {A B : Type 0} → Result ValueError A → Result ValueError B → Type 0
Alike x y = is_ok x ≡ is_ok y

pub Alike-forget : {A : Type 0} (x : Result ValueError A) → Alike x (forget x)
Alike-forget (ok a) = refl
Alike-forget (err e) = refl

pub string-Alike : (v : Json) → Alike (string_literal v) (string_canonical v)
unfolding string_literal string_canonical
string-Alike v = elim (Option-cases (as_string v)) [
  | inl e ↦ ground arith
  | inr (s, e) ↦ ground arith
]

-- A loop over no values ends.
each_value-empty :
    {A : Type 0} (f : Json → Result ValueError A) (vs : List Json)
    → (length vs == 0) ≡ true
    → is_ok (each_value f 0 vs) ≡ true
unfolding each_value
each_value-empty f [] h = refl
each_value-empty f (v ∷ vs) h = absurd (ground arith)

pub list-Alike : (v : Json) → Alike (list_literal v) (canonical_list v)
unfolding list_literal canonical_list
list-Alike v = elim (Bool-cases (is_null v)) [
  | inl e ↦ ground arith
  | inr e ↦ elim (Result-cases (array_values v)) [
    | inr (x, f) ↦ ground arith
    | inl (vs, f) ↦ elim (Result-cases (each_value (integer_canonical 32) 0 vs)) [
      | inl (ts, g) ↦ ground arith
      | inr (x, g) ↦ ground (arith, each_value-empty (integer_canonical 32) vs)
    ]
  ]
]

each_value-nil :
    {A : Type 0} (f : Json → Result ValueError A) (i : ℕ) → is_ok (each_value f i []) ≡ true
unfolding each_value
each_value-nil f i = refl

-- A loop that accepts null ends alike without the nulls at the end.
dropped :
    {A : Type 0} (f : Json → Result ValueError A)
    → ((v : Json) → is_null v ≡ true → is_ok (f v) ≡ true)
    → (i j : ℕ) (vs : List Json)
    → is_ok (each_value f i vs) ≡ is_ok (each_value f j (drop_nulls vs))
unfolding drop_nulls
dropped f nulls i j [] = each_value-nil f i ∙ sym (each_value-nil f j)
dropped f nulls i j (v ∷ vs) = elim (List-cases (drop_nulls vs)) [
  | inr (w, ws, e) ↦
      rw (e, drop_nulls)
        (each_value-is_ok f i v vs
          ∙ (ap (λ b. is_ok (f v) && b) (dropped f nulls (i + 1) (j + 1) vs ∙ (rw e refl))
              ∙ sym (each_value-is_ok f j v (w ∷ ws))))
  | inl e ↦
      let rest : is_ok (each_value f (i + 1) vs) ≡ true =
        dropped f nulls (i + 1) (j + 1) vs ∙ (rw e (each_value-nil f (j + 1))) in
      elim (Bool-cases (is_null v)) [
        | inl n ↦ ground (arith, each_value-is_ok f i v vs, nulls v n, each_value-nil f j)
        | inr n ↦
            ground (
              arith,
              each_value-is_ok f i v vs,
              each_value-is_ok f j v [],
              each_value-nil f (j + 1),
            )
      ]
]

tree_value-null :
    (m : Text) (p : Text → Text) (v : Json) → is_null v ≡ true → is_ok (tree_value m p v) ≡ true
tree_value-null m p v h = ground arith

tree_value-Alike :
    (m n : Text) (p q : Text → Text) (v : Json) → Alike (tree_value m p v) (tree_value n q v)
tree_value-Alike m n p q v = elim (Bool-cases (is_null v)) [
  | inl e ↦ ground arith
  | inr e ↦ elim (Result-cases (integer_canonical 32 v)) [
    | inl (t, f) ↦ ground arith
    | inr (x, f) ↦ ground arith
  ]
]

abbrev in_literal : Json → Result ValueError Text
in_literal = tree_value (codes "nullopt") (λ t. codes "optional<int>(" ++ (t ++ codes ")"))

abbrev in_canonical : Json → Result ValueError Text
in_canonical = tree_value (codes "null") (λ t. t)

module _ (v : Json) (vs : List Json) (some_tree : is_null v ≡ false)
    (values : array_values v ≡ ok vs) where
  tree_literal-is_ok : is_ok (tree_literal v) ≡ is_ok (each_value in_literal 0 vs)
  unfolding tree_literal
  tree_literal-is_ok = elim (Result-cases (each_value in_literal 0 vs)) [
    | inl (ts, e) ↦ ground arith
    | inr (x, e) ↦ ground arith
  ]

  canonical_tree-is_ok :
      is_ok (canonical_tree v) ≡ is_ok (each_value in_canonical 0 (drop_nulls vs))
  unfolding canonical_tree
  canonical_tree-is_ok = elim (Result-cases (each_value in_canonical 0 (drop_nulls vs))) [
    | inl (ts, e) ↦ ground arith
    | inr (x, e) ↦ ground (arith, each_value-empty in_canonical (drop_nulls vs))
  ]

  some_tree-Alike : Alike (tree_literal v) (canonical_tree v)
  some_tree-Alike =
      tree_literal-is_ok
      ∙ (dropped in_literal (tree_value-null _ _) 0 0 vs
          ∙ (each_value-same in_literal in_canonical (tree_value-Alike _ _ _ _) 0 0 (drop_nulls vs)
              ∙ sym canonical_tree-is_ok))

pub tree-Alike : (v : Json) → Alike (tree_literal v) (canonical_tree v)
unfolding tree_literal canonical_tree
tree-Alike v = elim (Bool-cases (is_null v)) [
  | inl e ↦ ground arith
  | inr e ↦ elim (Result-cases (array_values v)) [
    | inr (x, f) ↦ ground arith
    | inl (vs, f) ↦ some_tree-Alike v vs e f
  ]
]
