-- ===== src/Adapters/Graph.antt =====
-- Graphs as JSON: parseGraphJSON, graphLiteral and canonicalGraphJSON of
-- internal/judge/harness/cpp/types/runtime.go. The neighbors of the nodes are rows of indices, the
-- integers that the checked JSON values stand for. Both walks over a graph take fuel.
use yex_judge.Common.{
  ℕ, zero, suc, ◌+◌, to_nat, Bool, true, false, not, Option, none, some, List, [], ◌∷◌, ◌++◌, Text,
  codes, text_eq, join, map, Result, ok, err, ◌>>=◌, ◌>>◌, reject_if, ◌==◌, length, get_elem?,
  if◌then◌else◌, decimal,
}
use yex_judge.Json.{Json, null, is_null, as_array, as_arrays, as_object, last_value}
use yex_judge.Adapters.{
  ValueError, expected_object, values_required, neighbors_required, values_not_array,
  neighbors_not_array, lengths_differ, neighbor_out_of_range, unreachable, out_of_fuel,
}
use yex_judge.Adapters.Scalars.{parse_integer, integer_canonical, each_value, bracketed}
use yex_judge.Adapters.RandomList.{required, array_or, is_index, integer_text, integer_or_zero}

pub record GraphJson : Type 0 where
  pub values : List Json
  pub neighbors : List (List Json)

-- `neighborIndex, _ := parseInteger(neighbor, 32)`.
unfoldable pub index_of : Json → ℕ
unfolding parse_integer
index_of v = to_nat (integer_or_zero (parse_integer 32 v))

abbrev pub rows_of : GraphJson → List (List ℕ)
rows_of g = map (map index_of) g.neighbors

unfoldable pub check_row : ℕ → ℕ → ℕ → List Json → Result ValueError (Unit {0})
unfolding is_index
check_row n i j [] = ok tt
check_row n i j (v ∷ vs) = do
  reject_if (not (is_index n v)) (neighbor_out_of_range i j)
  check_row n i (j + 1) vs

unfoldable pub check_rows : ℕ → ℕ → List (List Json) → Result ValueError (Unit {0})
unfolding check_row
check_rows n i [] = ok tt
check_rows n i (row ∷ rows) = do check_row n i 0 row; check_rows n (i + 1) rows

-- `reachable[i]`, false out of range, and `reachable[i] = true`.
unfoldable pub is_marked : List Bool → ℕ → Bool
is_marked [] i = false
is_marked (b ∷ bs) zero = b
is_marked (b ∷ bs) (suc i) = is_marked bs i

unfoldable pub mark : List Bool → ℕ → List Bool
mark [] i = []
mark (b ∷ bs) zero = true ∷ bs
mark (b ∷ bs) (suc i) = b ∷ mark bs i

abbrev pub row_at : List (List ℕ) → ℕ → List ℕ
row_at rows i = elim (get_elem? rows i) [ none ↦ [] | some row ↦ row ]

-- The stack `pending`, its top first: a row is pushed from its front on.
unfoldable pub push_all : List ℕ → List ℕ → List ℕ
push_all [] pending = pending
push_all (j ∷ row) pending = push_all row (j ∷ pending)

-- `for len(pending) > 0`.
unfoldable pub reach : ℕ → List (List ℕ) → List Bool → List ℕ → Option (List Bool)
unfolding is_marked mark push_all
reach fuel rows marked [] = some marked
reach zero rows marked (i ∷ pending) = none
reach (suc fuel) rows marked (i ∷ pending) =
    let seen = reach fuel rows marked pending in
    let new = reach fuel rows (mark marked i) (push_all (row_at rows i) pending) in
    if is_marked marked i then seen else new

unfoldable pub all_false : ℕ → List Bool
all_false zero = []
all_false (suc n) = false ∷ all_false n

unfoldable pub edges : List (List ℕ) → ℕ
edges [] = 0
edges (row ∷ rows) = length row + edges rows

-- The fuel: each round takes an index off the stack, which gets one for the root and one for each
-- entry of the row of a node that is marked.
unfoldable pub reached : List (List ℕ) → Option (List Bool)
unfolding reach all_false edges
reached rows = reach (edges rows + 1) rows (all_false (length rows)) (0 ∷ [])

unfoldable pub first_unreached : ℕ → List Bool → Option ℕ
first_unreached i [] = none
first_unreached i (b ∷ bs) = if b then first_unreached (i + 1) bs else some i

unfoldable pub check_reachable : List (List ℕ) → Result ValueError (Unit {0})
unfolding reached first_unreached
check_reachable rows = elim (reached rows) [
  | none ↦ err out_of_fuel
  | some marked ↦ elim (first_unreached 0 marked) [ none ↦ ok tt | some i ↦ err (unreachable i) ]
]

abbrev arrays_or : ValueError → Json → Result ValueError (List (List Json))
arrays_or e v = elim (as_array v) [
  | none ↦ err e
  | some vs ↦ elim (as_arrays vs) [ none ↦ err e | some rows ↦ ok rows ]
]

-- The checks of parseGraphJSON on the two arrays.
unfoldable pub check_graph : GraphJson → Result ValueError (Unit {0})
unfolding integer_canonical each_value check_rows
check_graph g = do
  reject_if (not (length g.values == length g.neighbors)) lengths_differ
  each_value (integer_canonical 32) 0 g.values
  check_rows (length g.values) 0 g.neighbors
  if length g.values == 0 then ok tt else check_reachable (rows_of g)

abbrev pub checked_graph : GraphJson → Result ValueError GraphJson
checked_graph g = do check_graph g; ok g

-- The two arrays of an object, checked.
unfoldable pub graph_of : List (Text × Json) → Result ValueError GraphJson
unfolding last_value as_array as_arrays
graph_of object = do
  values_raw ← required values_required (last_value (codes "values") object)
  neighbors_raw ← required neighbors_required (last_value (codes "neighbors") object)
  values ← array_or values_not_array values_raw
  neighbors ← arrays_or neighbors_not_array neighbors_raw
  checked_graph (record { values = values; neighbors = neighbors })

-- parseGraphJSON behind its test for null.
unfoldable pub parse_graph_object : Json → Result ValueError GraphJson
unfolding graph_of as_object
parse_graph_object v = elim (as_object v) [
  | none ↦ err expected_object
  | some object ↦ graph_of object
]

unfoldable pub parse_graph : Json → Result ValueError GraphJson
unfolding parse_graph_object
parse_graph v =
    if is_null v then ok (record { values = []; neighbors = [] }) else parse_graph_object v

-- `fmt.Sprintf("%d", index)`.
abbrev int_row : List ℕ → Text
int_row row = codes "vector<int>{" ++ (join (map decimal row) (codes ",") ++ codes "}")

-- strings.TrimSuffix of a `*`.
unfoldable pub without_star : Text → Text
without_star [] = []
without_star (c ∷ []) = if c == b'*' then [] else c ∷ []
without_star (c ∷ d ∷ s) = c ∷ without_star (d ∷ s)

unfoldable pub graph_literal : Json → Text → Result ValueError Text
unfolding parse_graph integer_text index_of decimal
graph_literal v node_type = if is_null v then ok (codes "nullptr") else do
  g ← parse_graph v
  ok (
      (if text_eq node_type (codes "GraphNode*")
        then codes "__build_graph"
        else codes "__build_graph_" ++ without_star node_type)
      ++ (codes "(vector<int>{"
          ++ (join (map integer_text g.values) (codes ",")
              ++ (codes "}, vector<vector<int>>{"
                  ++ (join (map int_row (rows_of g)) (codes ",") ++ codes "})")))))

-- `canonicalIndexes`: the new index of an old one.
unfoldable pub index_in : ℕ → List (ℕ × ℕ) → Option ℕ
index_in i [] = none
index_in i ((j, k) ∷ m) = if j == i then some k else index_in i m

pub record Order : Type 0 where
  pub order : List ℕ
  pub indexes : List (ℕ × ℕ)

-- The inner loop: a neighbor that has no index yet gets the next one.
unfoldable pub number_row : List ℕ → Order → Order
unfolding index_in
number_row [] o = o
number_row (j ∷ row) o = number_row row (elim (index_in j o.indexes) [
  | some k ↦ o
  | none ↦ record { order = o.order ++ j ∷ []; indexes = (j, length o.order) ∷ o.indexes }
])

-- `for cursor := 0; cursor < len(order); cursor++`.
unfoldable pub number_nodes : ℕ → List (List ℕ) → ℕ → Order → Option Order
unfolding number_row
number_nodes zero rows cursor o = none
number_nodes (suc fuel) rows cursor o = elim (get_elem? o.order cursor) [
  | none ↦ some o
  | some i ↦ number_nodes fuel rows (cursor + 1) (number_row (row_at rows i) o)
]

-- The fuel: each round is about one node, and the last ends the loop.
unfoldable pub numbered : List (List ℕ) → Option Order
unfolding number_nodes
numbered rows =
    number_nodes (length rows + 1) rows 0 (record { order = 0 ∷ []; indexes = (0, 0) ∷ [] })

abbrev pub new_index : Order → ℕ → Text
new_index o i = elim (index_in i o.indexes) [ none ↦ decimal 0 | some k ↦ decimal k ]

abbrev pub value_at : List Json → ℕ → Json
value_at vs i = elim (get_elem? vs i) [ none ↦ null | some v ↦ v ]

unfoldable pub canonical_graph : Json → Result ValueError Text
unfolding parse_graph numbered integer_text index_in index_of
canonical_graph v = if is_null v then ok (codes "null") else do
  g ← parse_graph v
  if length g.values == 0 then ok (codes "null") else elim (numbered (rows_of g)) [
    | none ↦ err out_of_fuel
    | some o ↦ ok (
        codes "{\"values\":"
        ++ (bracketed (map (λ i. integer_text (value_at g.values i)) o.order)
            ++ (codes ",\"neighbors\":"
                ++ (bracketed
                      (map (λ i. bracketed (map (new_index o) (row_at (rows_of g) i))) o.order)
                    ++ codes "}"))))
  ]
