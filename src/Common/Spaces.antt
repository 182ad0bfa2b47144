-- ===== src/Common/Spaces.antt =====
-- White space, as `unicode.IsSpace` and `strings.TrimSpace` of Go's library see it, on the runes
-- of a string.
use Prim.Native.Nat.{ℕ}
use mathlib.Core.Bool.{Bool, false, ◌||◌, ◌&&◌}
use mathlib.Core.List.{[], ◌∷◌}
use mathlib.Core.Logic.{◌⊎◌, inl, inr}
use mathlib.Core.Path.{◌≡◌, refl}
use native.Mathlib.Omega.{arith}
use yex_judge.Common.Tests.{leb, ◌==◌, if◌then◌else◌, Bool-cases}
use yex_judge.Common.Texts.{Text, text_eq}

-- The characters with the property White_Space.
unfoldable pub is_space : ℕ → Bool
is_space c =
    (leb 9 c && leb c 13)
    || (c == 32
        || (c == 0x85
            || (c == 0xA0
                || (c == 0x1680
                    || ((leb 0x2000 c && leb c 0x200a)
                        || (c == 0x2028
                            || (c == 0x2029 || (c == 0x202f || (c == 0x205f || c == 0x3000)))))))))

unfoldable pub skip_space : Text → Text
skip_space [] = []
skip_space (c ∷ s) = let rest = skip_space s in if is_space c then rest else c ∷ s

unfoldable pub drop_trailing : Text → Text
drop_trailing [] = []
drop_trailing (c ∷ s) =
    let rest = drop_trailing s in
    if text_eq rest [] then (if is_space c then [] else c ∷ []) else c ∷ rest

-- strings.TrimSpace.
unfoldable pub trim_space : Text → Text
trim_space s = drop_trailing (skip_space s)

skip_space-first :
    (s : Text)
    → (skip_space s ≡ []) ⊎ ((c : ℕ) × (t : Text) × (skip_space s ≡ c ∷ t) × (is_space c ≡ false))
unfolding skip_space
skip_space-first [] = inl refl
skip_space-first (c ∷ s) = elim (Bool-cases (is_space c)) [
  | inr e ↦ inr (c, s, ground arith, e)
  | inl e ↦ elim (skip_space-first s) [
    | inl n ↦ inl (ground arith)
    | inr (d, t, n, k) ↦ inr (d, t, ground arith, k)
  ]
]

drop_trailing_idem : (s : Text) → drop_trailing (drop_trailing s) ≡ drop_trailing s
unfolding drop_trailing text_eq
drop_trailing_idem [] = refl
drop_trailing_idem (c ∷ s) = ground (arith, drop_trailing_idem s)

skip_space-drop_trailing :
    (c : ℕ) (s : Text)
    → is_space c ≡ false
    → skip_space (drop_trailing (c ∷ s)) ≡ drop_trailing (c ∷ s)
unfolding skip_space drop_trailing
skip_space-drop_trailing c s h = ground arith

-- A trimmed text stays as it is.
pub trim_space_idem : (s : Text) → trim_space (trim_space s) ≡ trim_space s
unfolding trim_space skip_space drop_trailing
trim_space_idem s = elim (skip_space-first s) [
  | inl e ↦ rw e refl
  | inr (c, t, e, k) ↦ rw e (rw (skip_space-drop_trailing c t k) (drop_trailing_idem (c ∷ t)))
]
