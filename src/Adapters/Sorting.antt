-- ===== src/Adapters/Sorting.antt =====
-- The canonical text of an unordered vector (CanonicalUnorderedJSON in
-- internal/judge/harness/cpp/types/vector.go) and the order of its elements.
use yex_judge.Common.{
  subst, ◌≡◌, refl, sym, ap, ◌∙◌, true, false, inl, inr, List, [], ◌∷◌, Text, Result, ok, ◌>>=◌,
  Result-cases, arith, ℕ, ◌+◌,
}
use mathlib.Core.List.{Permᴰ}
use yex_judge.Json.{Json, Elems, arr, elems}
use yex_judge.Adapters.{Adapter, ValueError}
use yex_judge.Adapters.Scalars.{Floats, array_values, each_value, bracketed}
use yex_judge.Adapters.Values.{canonical_json}
use yex_judge.Adapters.Unordered.{leb_text, insert_text, sort_texts, canonical_unordered}

leb_text_total : (s t : Text) → leb_text s t ≡ false → leb_text t s ≡ true
unfolding leb_text
leb_text_total [] t h = absurd (ground arith)
leb_text_total (c ∷ s) [] h = refl
leb_text_total (c ∷ s) (d ∷ t) h = ground (arith, leb_text_total s t)

leb_text_trans : (s t u : Text) → leb_text s t ≡ true → leb_text t u ≡ true → leb_text s u ≡ true
unfolding leb_text
leb_text_trans [] t u h k = refl
leb_text_trans (c ∷ s) [] u h k = absurd (ground arith)
leb_text_trans (c ∷ s) (d ∷ t) [] h k = absurd (ground arith)
leb_text_trans (c ∷ s) (d ∷ t) (e ∷ u) h k = ground (arith, leb_text_trans s t u)

leb_text_antisym : (s t : Text) → leb_text s t ≡ true → leb_text t s ≡ true → s ≡ t
unfolding leb_text
leb_text_antisym [] [] h k = refl
leb_text_antisym [] (d ∷ t) h k = absurd (ground arith)
leb_text_antisym (c ∷ s) [] h k = absurd (ground arith)
leb_text_antisym (c ∷ s) (d ∷ t) h k =
    let same : c ≡ d = ground arith in
    let rest = leb_text_antisym s t (ground arith) (ground arith) in cc

insert_text_comm :
    (s t : Text) (us : List Text)
    → insert_text s (insert_text t us) ≡ insert_text t (insert_text s us)
unfolding insert_text
insert_text_comm s t [] = ground (arith, leb_text_total s t, leb_text_antisym s t)
insert_text_comm s t (u ∷ us) = ground (
  arith,
  insert_text_comm s t us,
  leb_text_total s t,
  leb_text_antisym s t,
  leb_text_trans s t u,
  leb_text_trans t s u,
)

-- The texts that a conversion yields for some values.
abbrev Yields : (Json → Result ValueError Text) → List Json → List Text → Type 0
Yields f [] [] = Unit {0}
Yields f (v ∷ vs) (t ∷ ts) = (f v ≡ ok t) × Yields f vs ts
Yields f _ _ = ⊥

module _ (f : Json → Result ValueError Text) where
  each_value-Yields :
      (i : ℕ) (vs : List Json) (ts : List Text) → each_value f i vs ≡ ok ts → Yields f vs ts
  unfolding each_value
  each_value-Yields i [] [] h = tt
  each_value-Yields i [] (t ∷ ts) h = absurd (ground arith)
  each_value-Yields i (v ∷ vs) ts h = elim (Result-cases (f v)) [
    | inr (e, x) ↦ absurd (ground arith)
    | inl (t, x) ↦ elim (Result-cases (each_value f (i + 1) vs)) [
      | inr (e, y) ↦ absurd (ground arith)
      | inl (us, y) ↦
          let same : t ∷ us ≡ ts = ground arith in
          subst (Yields f (v ∷ vs)) same (x, each_value-Yields (i + 1) vs us y)
    ]
  ]

  Yields-each_value :
      (i : ℕ) (vs : List Json) (ts : List Text) → Yields f vs ts → each_value f i vs ≡ ok ts
  unfolding each_value
  Yields-each_value i [] [] y = refl
  Yields-each_value i [] (t ∷ ts) y = absurd y
  Yields-each_value i (v ∷ vs) [] y = absurd y
  Yields-each_value i (v ∷ vs) (t ∷ ts) (here, y) =
      let rest = Yields-each_value (i + 1) vs ts y in ground arith

  permuted-Yields :
      {vs ws : List Json}
      → Permᴰ vs ws
      → (ts : List Text) → Yields f vs ts
      → (us : List Text) × Yields f ws us × (sort_texts ts ≡ sort_texts us)
  unfolding sort_texts
  permuted-Yields Permᴰ.nil [] y = ([], tt, refl)
  permuted-Yields Permᴰ.nil (t ∷ ts) y = absurd y
  permuted-Yields (Permᴰ.cons e p) [] y = absurd y
  permuted-Yields (Permᴰ.cons e p) (t ∷ ts) (here, y) =
      let (us, z, same) = permuted-Yields p ts y in
      (t ∷ us, (ap f (sym e) ∙ here, z), ap (insert_text t) same)
  permuted-Yields (Permᴰ.swap e k) [] y = absurd y
  permuted-Yields (Permᴰ.swap e k) (t ∷ []) (here, y) = absurd y
  permuted-Yields (Permᴰ.swap e k) (t ∷ u ∷ ts) (here, (next, y)) = (
    u ∷ t ∷ ts,
    (ap f (sym k) ∙ next, (ap f (sym e) ∙ here, y)),
    insert_text_comm t u (sort_texts ts),
  )
  permuted-Yields (Permᴰ.trans p q) ts y =
      let (us, z, same) = permuted-Yields p ts y in
      let (ws, z2, same2) = permuted-Yields q us z in (ws, z2, same ∙ same2)

-- The order of the elements of an unordered vector does not count: when one array is a permutation
-- of another that has a canonical text, it has the same text.
pub canonical_unordered-perm :
    (fl : Floats) (a : Adapter) (vs ws : Elems) (t : Text)
    → Permᴰ (elems vs) (elems ws)
    → canonical_unordered fl a (arr vs) ≡ ok t
    → canonical_unordered fl a (arr ws) ≡ ok t
unfolding canonical_unordered array_values
canonical_unordered-perm fl a vs ws t p h =
    elim (Result-cases (each_value (canonical_json fl a) 0 (elems vs))) [
      | inr (e, x) ↦ absurd (ground arith)
      | inl (ts, x) ↦
          let y = each_value-Yields (canonical_json fl a) 0 (elems vs) ts x in
          let (us, z, same) = permuted-Yields (canonical_json fl a) p ts y in
          let k = Yields-each_value (canonical_json fl a) 0 (elems ws) us z in
          let first : bracketed (sort_texts ts) ≡ t = ground arith in
          rw (k, ◌>>=◌) (ap ok (ap bracketed (sym same) ∙ first))
    ]
