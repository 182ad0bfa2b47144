-- ===== src/Adapters/Numbering.antt =====
-- canonicalGraphJSON (internal/judge/harness/cpp/types/runtime.go) numbers the nodes of a checked
-- graph within its fuel.
use yex_judge.Common.{
  ℕ, zero, suc, ◌+◌, ◌≤◌, ◌<◌, ◌≡◌, refl, ap, true, not, ◌&&◌, Bool-cases, Option-cases, none, some,
  List, [], ◌∷◌, ◌++◌, inl, inr, ok, Result-cases, ℤ, map, length, length-append, get_elem?, ltb_ℤ,
  pos, negsuc, to_nat, All, arith, ◌==◌,
}
use yex_judge.Json.{Json}
use yex_judge.Adapters.Scalars.{parse_integer}
use yex_judge.Adapters.RandomList.{is_index}
use yex_judge.Adapters.Graph.{
  index_of, check_row, check_rows, row_at, index_in, Order, number_row, number_nodes, numbered,
}

-- Every entry of every row is the index of a node.
abbrev pub InRange : ℕ → List (List ℕ) → Type 0
InRange n rows = All (All (λ j. j < n)) rows

small_index : (n : ℕ) (k : ℤ) → (not (ltb_ℤ k (pos 0)) && ltb_ℤ k (pos n)) ≡ true → to_nat k < n
small_index n (pos k) h = ground arith
small_index n (negsuc k) h = cc

is_index-index_of : (n : ℕ) (v : Json) → is_index n v ≡ true → index_of v < n
unfolding is_index index_of
is_index-index_of n v h = elim (Result-cases (parse_integer 32 v)) [
  | inl (k, e) ↦ ground (arith, small_index n k)
  | inr (x, e) ↦ absurd (ground arith)
]

check_row-All :
    (n i j : ℕ) (vs : List Json) → check_row n i j vs ≡ ok tt → All (λ j. j < n) (map index_of vs)
unfolding check_row
check_row-All n i j [] h = tt
check_row-All n i j (v ∷ vs) h =
    (is_index-index_of n v (ground arith), check_row-All n i (j + 1) vs (ground arith))

pub check_rows-InRange :
    (n i : ℕ) (rows : List (List Json))
    → check_rows n i rows ≡ ok tt
    → InRange n (map (map index_of) rows)
unfolding check_rows
check_rows-InRange n i [] h = tt
check_rows-InRange n i (row ∷ rows) h =
    (check_row-All n i 0 row (ground arith), check_rows-InRange n (i + 1) rows (ground arith))

pub row_at-All :
    (n : ℕ) (rows : List (List ℕ)) (i : ℕ) → InRange n rows → All (λ j. j < n) (row_at rows i)
row_at-All n [] i h = tt
row_at-All n (row ∷ rows) zero h = h.0
row_at-All n (row ∷ rows) (suc i) h = row_at-All n rows i h.1

-- The nodes below `n` without a new index.
unfoldable unnumbered : ℕ → List (ℕ × ℕ) → ℕ
unfolding index_in
unnumbered zero m = 0
unnumbered (suc n) m = elim (index_in n m) [ none ↦ suc (unnumbered n m) | some k ↦ unnumbered n m ]

unnumbered-above :
    (n j k : ℕ) (m : List (ℕ × ℕ)) → n ≤ j → unnumbered n ((j, k) ∷ m) ≡ unnumbered n m
unfolding unnumbered index_in
unnumbered-above zero j k m h = refl
unnumbered-above (suc n) j k m h = ground (arith, unnumbered-above n j k m)

unnumbered-add :
    (n j k : ℕ) (m : List (ℕ × ℕ))
    → j < n
    → index_in j m ≡ none
    → unnumbered n ((j, k) ∷ m) + 1 ≡ unnumbered n m
unfolding unnumbered index_in
unnumbered-add zero j k m lt h = absurd (omega arith)
unnumbered-add (suc n) j k m lt h = elim (Bool-cases (j == n)) [
  | inl e ↦ let same : j ≡ n = ground arith in ground (arith, same, unnumbered-above n j k m)
  | inr ne ↦ ground (arith, unnumbered-add n j k m)
]

-- Every node has an index or is counted.
abbrev IsCounted : ℕ → Order → Type 0
IsCounted n o = length o.order + unnumbered n o.indexes ≡ n

number_row-IsCounted :
    (n : ℕ) (row : List ℕ) (o : Order)
    → All (λ j. j < n) row
    → IsCounted n o
    → IsCounted n (number_row row o)
unfolding number_row
number_row-IsCounted n [] o a c = c
number_row-IsCounted n (j ∷ row) o (lt, a) c = elim (Option-cases (index_in j o.indexes)) [
  | inr (k, e) ↦ rw (e, number_row) (number_row-IsCounted n row o a c)
  | inl e ↦
      let next : Order = record {
        order = o.order ++ j ∷ [];
        indexes = (j, length o.order) ∷ o.indexes;
      } in
      rw (e, number_row)
        (number_row-IsCounted n row next a (
          omega (
            arith,
            length-append o.order (j ∷ []),
            unnumbered-add n j (length o.order) o.indexes lt e,
          )))
]

get_elem?-lt {ℓ} :
    {A : Type ℓ} (xs : List A) (i : ℕ) (x : A) → get_elem? xs i ≡ some x → i < length xs
get_elem?-lt [] i x h = cc
get_elem?-lt (y ∷ ys) zero x h = omega arith
get_elem?-lt (y ∷ ys) (suc i) x h = omega (arith, get_elem?-lt ys i x h)

number_nodes_total :
    (n : ℕ) (rows : List (List ℕ))
    → InRange n rows
    → (fuel cursor : ℕ) (o : Order) → IsCounted n o
    → cursor ≤ n
    → n < cursor + fuel
    → (p : Order) × (number_nodes fuel rows cursor o ≡ some p)
unfolding number_nodes
number_nodes_total n rows r zero cursor o c le lt = absurd (omega arith)
number_nodes_total n rows r (suc fuel) cursor o c le lt =
    elim (Option-cases (get_elem? o.order cursor)) [
      | inl e ↦ (o, rw (e, number_nodes))
      | inr (i, e) ↦
          let small = get_elem?-lt o.order cursor i e in
          rw (e, number_nodes)
            (number_nodes_total n rows r fuel (cursor + 1) (number_row (row_at rows i) o)
              (number_row-IsCounted n (row_at rows i) o (row_at-All n rows i r) c) (omega arith)
              (omega arith))
    ]

unnumbered-nil : (n : ℕ) → unnumbered n [] ≡ n
unfolding unnumbered index_in
unnumbered-nil zero = refl
unnumbered-nil (suc n) = ap suc (unnumbered-nil n)

-- The walk that numbers the nodes of a graph ends within its fuel.
pub numbered_total :
    (rows : List (List ℕ))
    → 0 < length rows
    → InRange (length rows) rows
    → (o : Order) × (numbered rows ≡ some o)
unfolding numbered
numbered_total rows nonempty r =
    let n = length rows in
    number_nodes_total n rows r (n + 1) 0 (record { order = 0 ∷ []; indexes = (0, 0) ∷ [] })
      (omega (arith, unnumbered-add n 0 0 [] nonempty refl, unnumbered-nil n)) (omega arith)
      (omega arith)
