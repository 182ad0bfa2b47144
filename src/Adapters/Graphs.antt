-- ===== src/Adapters/Graphs.antt =====
-- parseGraphJSON (internal/judge/harness/cpp/types/runtime.go) against what a graph is.
use yex_judge.Common.{
  sym, subst, itoa, ℕ, ◌+◌, ◌<◌, ◌≡◌, ◌↔◌, refl, true, not, ◌&&◌, ltb_ℤ, Bool-cases, List, [], ◌∷◌,
  inl, inr, ok, Result-cases, ℤ, pos, negsuc, length, map, All, arith, ◌==◌,
}
use yex_judge.Json.{Json}
use yex_judge.Adapters.Scalars.{parse_integer, integer_canonical, each_value}
use yex_judge.Adapters.RandomList.{is_index}
use yex_judge.Adapters.Graph.{
  GraphJson, index_of, rows_of, check_reachable, check_row, check_rows, check_graph,
}
use yex_judge.Adapters.Numbering.{InRange, check_rows-InRange}
use yex_judge.Adapters.Reaching.{Reaches}
use yex_judge.Adapters.Decides.{check_reachable-decides}
use yex_judge.Adapters.Loops.{Succeeds, each_value-All, All-each_value}

-- A value is an integer of 32 bits, or the index of one of `n` nodes.
abbrev pub IsInteger : Json → Type 0
IsInteger v = (k : ℤ) × (parse_integer 32 v ≡ ok k)

abbrev pub IsNode : ℕ → Json → Type 0
IsNode n v = (k : ℕ) × (parse_integer 32 v ≡ ok (pos k)) × (k < n)

-- As many rows of neighbors as values; the values are integers, the neighbors nodes, and each node
-- can be reached from the first.
pub record IsGraph (g : GraphJson) : Type 0 where
  pub same_length : length g.values ≡ length g.neighbors
  pub integers : All IsInteger g.values
  pub nodes : All (All (IsNode (length g.values))) g.neighbors
  pub reachable : (i : ℕ) → i < length g.values → Reaches (rows_of g) i

small :
    (n : ℕ) (k : ℤ)
    → (not (ltb_ℤ k (pos 0)) && ltb_ℤ k (pos n)) ≡ true
    → (j : ℕ) × (k ≡ pos j) × (j < n)
small n (pos k) h = (k, refl, ground arith)
small n (negsuc k) h = cc

is_index-IsNode : (n : ℕ) (v : Json) → is_index n v ≡ true → IsNode n v
unfolding is_index
is_index-IsNode n v h = elim (Result-cases (parse_integer 32 v)) [
  | inr (x, e) ↦ absurd (ground arith)
  | inl (k, e) ↦ let (j, same, lt) = small n k (ground arith) in (j, rw (← same) e, lt)
]

IsNode-is_index : (n : ℕ) (v : Json) → IsNode n v → is_index n v ≡ true
unfolding is_index
IsNode-is_index n v (k, e, lt) = ground arith

check_row-IsNode : (n i j : ℕ) (vs : List Json) → check_row n i j vs ≡ ok tt → All (IsNode n) vs
unfolding check_row
check_row-IsNode n i j [] h = tt
check_row-IsNode n i j (v ∷ vs) h =
    (is_index-IsNode n v (ground arith), check_row-IsNode n i (j + 1) vs (ground arith))

check_rows-IsNode :
    (n i : ℕ) (rows : List (List Json)) → check_rows n i rows ≡ ok tt → All (All (IsNode n)) rows
unfolding check_rows
check_rows-IsNode n i [] h = tt
check_rows-IsNode n i (row ∷ rows) h =
    (check_row-IsNode n i 0 row (ground arith), check_rows-IsNode n (i + 1) rows (ground arith))

IsNode-check_row : (n i j : ℕ) (vs : List Json) → All (IsNode n) vs → check_row n i j vs ≡ ok tt
unfolding check_row
IsNode-check_row n i j [] h = refl
IsNode-check_row n i j (v ∷ vs) (x, h) =
    ground (arith, IsNode-is_index n v x, IsNode-check_row n i (j + 1) vs h)

IsNode-check_rows :
    (n i : ℕ) (rows : List (List Json)) → All (All (IsNode n)) rows → check_rows n i rows ≡ ok tt
unfolding check_rows
IsNode-check_rows n i [] h = refl
IsNode-check_rows n i (row ∷ rows) (x, h) =
    ground (arith, IsNode-check_row n i 0 row x, IsNode-check_rows n (i + 1) rows h)

length-map {ℓ κ} :
    {A : Type ℓ} {B : Type κ} (f : A → B) (xs : List A) → length (map f xs) ≡ length xs
length-map f [] = refl
length-map f (x ∷ xs) = omega (arith, length-map f xs)

IsNode-integers :
    (vs : List Json) → All IsInteger vs → All (λ v. Succeeds (integer_canonical 32 v)) vs
unfolding integer_canonical
IsNode-integers [] h = tt
IsNode-integers (v ∷ vs) ((k, e), h) = ((itoa k, ground arith), IsNode-integers vs h)

integers_of : (vs : List Json) → All (λ v. Succeeds (integer_canonical 32 v)) vs → All IsInteger vs
unfolding integer_canonical
integers_of [] h = tt
integers_of (v ∷ vs) ((a, e), h) = elim (Result-cases (parse_integer 32 v)) [
  | inl (k, x) ↦ ((k, x), integers_of vs h)
  | inr (y, x) ↦ absurd (ground arith)
]

pub graph_rows :
    (g : GraphJson) → length g.values ≡ length g.neighbors → length (rows_of g) ≡ length g.values
graph_rows g l = omega (arith, length-map (map index_of) g.neighbors)

module _ (g : GraphJson) where
  all_reachable :
      length g.values ≡ length g.neighbors
      → check_rows (length g.values) 0 g.neighbors ≡ ok tt
      → 0 < length g.values
      → check_reachable (rows_of g) ≡ ok tt
      → (i : ℕ) → i < length g.values
      → Reaches (rows_of g) i
  all_reachable l rows nonempty h i lt =
      let n : length (rows_of g) ≡ length g.values = graph_rows g l in
      let r : InRange (length (rows_of g)) (rows_of g) =
        subst (λ k. InRange k (rows_of g)) (sym n)
          (check_rows-InRange (length g.values) 0 g.neighbors rows) in
      elim (check_reachable-decides (rows_of g) r (omega arith)) [
        | inl (e, all) ↦ all i (omega arith)
        | inr (q, e, small, not_q) ↦ absurd (ground arith)
      ]

  accepted : IsGraph g → 0 < length g.values → check_reachable (rows_of g) ≡ ok tt
  accepted s nonempty =
      let l = s.same_length in
      let rows = IsNode-check_rows (length g.values) 0 g.neighbors s.nodes in
      let n : length (rows_of g) ≡ length g.values = graph_rows g l in
      let r : InRange (length (rows_of g)) (rows_of g) =
        subst (λ k. InRange k (rows_of g)) (sym n)
          (check_rows-InRange (length g.values) 0 g.neighbors rows) in
      elim (check_reachable-decides (rows_of g) r (omega arith)) [
        | inl (e, all) ↦ e
        | inr (q, e, small, not_q) ↦ absurd (not_q (s.reachable q (omega arith)))
      ]

  check_graph_sound : check_graph g ≡ ok tt → IsGraph g
  unfolding check_graph
  check_graph_sound h = elim (Bool-cases (length g.values == length g.neighbors)) [
    | inr ne ↦ absurd (ground arith)
    | inl same ↦ elim (Result-cases (each_value (integer_canonical 32) 0 g.values)) [
      | inr (x, e) ↦ absurd (ground arith)
      | inl (ts, e) ↦ elim (Result-cases (check_rows (length g.values) 0 g.neighbors)) [
        | inr (x, y) ↦ absurd (ground arith)
        | inl (_, rows) ↦ record {
          same_length = ground arith;
          integers = integers_of g.values (each_value-All (integer_canonical 32) 0 g.values ts e);
          nodes = check_rows-IsNode (length g.values) 0 g.neighbors rows;
          reachable = λ i lt. all_reachable (ground arith) rows (omega arith) (ground arith) i lt;
        }
      ]
    ]
  ]

  check_graph_complete : IsGraph g → check_graph g ≡ ok tt
  unfolding check_graph
  check_graph_complete s =
      let l = s.same_length in
      let (ts, e) =
        All-each_value (integer_canonical 32) 0 g.values (IsNode-integers g.values s.integers) in
      let rows = IsNode-check_rows (length g.values) 0 g.neighbors s.nodes in
      elim (Bool-cases (length g.values == 0)) [
        | inl empty ↦ ground arith
        | inr some_node ↦ let x = accepted s (ground arith) in ground arith
      ]

  -- The checks accept exactly the graphs: as many rows of neighbors as values, the values integers
  -- of 32 bits, the neighbors indices of nodes, and every node reached from the first one.
  pub check_graph-IsGraph : (check_graph g ≡ ok tt) ↔ IsGraph g
  check_graph-IsGraph = (check_graph_sound, check_graph_complete)

  pub nodes-InRange : IsGraph g → InRange (length g.values) (rows_of g)
  nodes-InRange s =
      check_rows-InRange (length g.values) 0 g.neighbors
        (IsNode-check_rows (length g.values) 0 g.neighbors s.nodes)
