-- ===== src/Adapters/Loops.antt =====
-- When the loops over JSON values (internal/judge/harness/cpp/types) come to their end.
use yex_judge.Common.{
  ℕ, ◌+◌, ◌≡◌, refl, Bool, true, false, List, [], ◌∷◌, inl, inr, ok, err, Result, ◌&&◌,
  Result-cases, All, arith,
}
use yex_judge.Json.{Json}
use yex_judge.Adapters.{ValueError}
use yex_judge.Adapters.Scalars.{each_value}

-- A computation has a result.
abbrev pub Succeeds {ℓ κ} : {E : Type ℓ} {A : Type κ} → Result E A → Type (ℓ ⊔ κ)
Succeeds {A} r = (a : A) × (r ≡ ok a)

abbrev pub is_ok {ℓ κ} : {E : Type ℓ} {A : Type κ} → Result E A → Bool
is_ok (ok a) = true
is_ok (err e) = false

module _ {ℓ} {A : Type ℓ} (f : Json → Result ValueError A) where
  pub each_value-All :
      (i : ℕ) (vs : List Json) (as' : List A)
      → each_value f i vs ≡ ok as'
      → All (λ v. Succeeds (f v)) vs
  unfolding each_value
  each_value-All i [] as' h = tt
  each_value-All i (v ∷ vs) as' h = elim (Result-cases (f v)) [
    | inr (e, x) ↦ absurd (ground arith)
    | inl (a, x) ↦ elim (Result-cases (each_value f (i + 1) vs)) [
      | inr (e, y) ↦ absurd (ground arith)
      | inl (bs, y) ↦ ((a, x), each_value-All (i + 1) vs bs y)
    ]
  ]

  pub All-each_value :
      (i : ℕ) (vs : List Json) → All (λ v. Succeeds (f v)) vs → Succeeds (each_value f i vs)
  unfolding each_value
  All-each_value i [] h = ([], refl)
  All-each_value i (v ∷ vs) ((a, x), h) =
      let (bs, y) = All-each_value (i + 1) vs h in (a ∷ bs, ground arith)

  pub each_value-is_ok :
      (i : ℕ) (v : Json) (vs : List Json)
      → is_ok (each_value f i (v ∷ vs)) ≡ (is_ok (f v) && is_ok (each_value f (i + 1) vs))
  unfolding each_value
  each_value-is_ok i v vs = elim (Result-cases (f v)) [
    | inr (e, x) ↦ ground arith
    | inl (a, x) ↦ elim (Result-cases (each_value f (i + 1) vs)) [
      | inr (e, y) ↦ ground arith
      | inl (bs, y) ↦ ground arith
    ]
  ]

-- Two loops over the same values end alike when their steps do.
pub each_value-same {ℓ κ} :
    {A : Type ℓ} {B : Type κ} (f : Json → Result ValueError A) (g : Json → Result ValueError B)
    → ((v : Json) → is_ok (f v) ≡ is_ok (g v))
    → (i j : ℕ) (vs : List Json) → is_ok (each_value f i vs) ≡ is_ok (each_value g j vs)
unfolding each_value
each_value-same f g same i j [] = refl
each_value-same f g same i j (v ∷ vs) =
    rw
      (
        each_value-is_ok f i v vs,
        each_value-is_ok g j v vs,
        same v,
        each_value-same f g same (i + 1) (j + 1) vs,
      )
      refl
