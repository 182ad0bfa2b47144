-- ===== src/Adapters/Values.antt =====
-- GenerateLiteral, ValidateJSON and CanonicalJSON of every adapter
-- (internal/judge/harness/cpp/types: scalar.go, vector.go, optional.go, runtime.go).
use yex_judge.Common.{
  List, [], ◌∷◌, ◌++◌, Text, codes, join, Result, ok, err, ◌>>=◌, ◌==◌, length, if◌then◌else◌,
}
use yex_judge.Json.{Json, is_null}
use yex_judge.Adapters.{
  RuntimeType, list_node, tree_node, random_list_node, graph_node, Adapter, int_type,
  long_long_type, double_type, bool_type, string_type, void_type, runtime, vector, optional,
  canonical_name, cpp_type, ValueError, void_parameter, void_value,
}
use yex_judge.Adapters.Scalars.{
  Floats, integer_canonical, floating_canonical, boolean_canonical, string_literal,
  string_canonical, array_values, each_value, bracketed,
}
use yex_judge.Adapters.RandomList.{parse_random_list, random_list_literal, canonical_random_list}
use yex_judge.Adapters.Graph.{parse_graph, graph_literal, canonical_graph}

abbrev pub forget {ℓ κ} : {E : Type ℓ} {A : Type κ} → Result E A → Result E (Unit {0})
forget (ok a) = ok tt
forget (err e) = err e

-- listLiteral.
unfoldable pub list_literal : Json → Result ValueError Text
unfolding array_values each_value integer_canonical
list_literal v = if is_null v then ok (codes "nullptr") else do
  vs ← array_values v
  items ← each_value (integer_canonical 32) 0 vs
  ok (codes "__build_list(vector<int>{" ++ (join items (codes ",") ++ codes "})"))

unfoldable pub canonical_list : Json → Result ValueError Text
unfolding array_values each_value integer_canonical
canonical_list v = if is_null v then ok (codes "null") else do
  vs ← array_values v
  if length vs == 0
      then ok (codes "null")
      else do items ← each_value (integer_canonical 32) 0 vs; ok (bracketed items)

-- A value of a tree: null stands for a missing child.
abbrev pub tree_value : Text → (Text → Text) → Json → Result ValueError Text
tree_value missing present v =
    if is_null v then ok missing else do t ← integer_canonical 32 v; ok (present t)

unfoldable pub tree_literal : Json → Result ValueError Text
unfolding array_values each_value integer_canonical
tree_literal v = if is_null v then ok (codes "nullptr") else do
  vs ← array_values v
  items ←
      each_value (tree_value (codes "nullopt") (λ t. codes "optional<int>(" ++ (t ++ codes ")"))) 0
        vs
  ok (codes "__build_tree(vector<optional<int>>{" ++ (join items (codes ",") ++ codes "})"))

-- The values up to the last that is not null.
unfoldable pub drop_nulls : List Json → List Json
drop_nulls [] = []
drop_nulls (v ∷ vs) = elim (drop_nulls vs) [
  | [] ↦ if is_null v then [] else v ∷ []
  | w ∷ ws ↦ v ∷ w ∷ ws
]

unfoldable pub canonical_tree : Json → Result ValueError Text
unfolding array_values each_value integer_canonical drop_nulls
canonical_tree v = if is_null v then ok (codes "null") else do
  vs ← array_values v
  let kept = drop_nulls vs
  if length kept == 0
      then ok (codes "null")
      else do items ← each_value (tree_value (codes "null") (λ t. t)) 0 kept; ok (bracketed items)

unfoldable pub runtime_literal : RuntimeType → Json → Result ValueError Text
unfolding list_literal tree_literal random_list_literal graph_literal
runtime_literal list_node v = list_literal v
runtime_literal tree_node v = tree_literal v
runtime_literal (random_list_node name) v = random_list_literal v name
runtime_literal (graph_node name) v = graph_literal v name

unfoldable pub canonical_runtime : RuntimeType → Json → Result ValueError Text
unfolding canonical_list canonical_tree canonical_random_list canonical_graph
canonical_runtime list_node v = canonical_list v
canonical_runtime tree_node v = canonical_tree v
canonical_runtime (random_list_node name) v = canonical_random_list v
canonical_runtime (graph_node name) v = canonical_graph v

-- validateListJSON, validateTreeJSON, validateRandomListJSON and validateGraphJSON.
unfoldable pub validate_runtime : RuntimeType → Json → Result ValueError (Unit {0})
unfolding canonical_list canonical_tree parse_random_list parse_graph
validate_runtime list_node v = forget (canonical_list v)
validate_runtime tree_node v = forget (canonical_tree v)
validate_runtime (random_list_node name) v = forget (parse_random_list v)
validate_runtime (graph_node name) v = forget (parse_graph v)

module _ (fl : Floats) where
  unfoldable pub generate_literal : Adapter → Json → Result ValueError Text
  unfolding integer_canonical floating_canonical boolean_canonical string_literal array_values
      each_value runtime_literal canonical_name
  generate_literal int_type v = integer_canonical 32 v
  generate_literal long_long_type v = integer_canonical 64 v
  generate_literal double_type v = floating_canonical fl v
  generate_literal bool_type v = boolean_canonical v
  generate_literal string_type v = string_literal v
  generate_literal void_type v = err void_parameter
  generate_literal (runtime r) v = runtime_literal r v
  generate_literal (vector a) v = do
    vs ← array_values v
    items ← each_value (generate_literal a) 0 vs
    ok (cpp_type (vector a) ++ (codes "{" ++ (join items (codes ", ") ++ codes "}")))
  generate_literal (optional a) v =
      if is_null v then ok (cpp_type (optional a) ++ codes "{}") else do
        t ← generate_literal a v
        ok (cpp_type (optional a) ++ (codes "{" ++ (t ++ codes "}")))

  unfoldable pub canonical_json : Adapter → Json → Result ValueError Text
  unfolding integer_canonical floating_canonical boolean_canonical string_canonical array_values
      each_value canonical_runtime
  canonical_json int_type v = integer_canonical 32 v
  canonical_json long_long_type v = integer_canonical 64 v
  canonical_json double_type v = floating_canonical fl v
  canonical_json bool_type v = boolean_canonical v
  canonical_json string_type v = string_canonical v
  canonical_json void_type v = err void_value
  canonical_json (runtime r) v = canonical_runtime r v
  canonical_json (vector a) v = do
    vs ← array_values v
    items ← each_value (canonical_json a) 0 vs
    ok (bracketed items)
  canonical_json (optional a) v =
      let inner = canonical_json a v in if is_null v then ok (codes "null") else inner

  unfoldable pub validate_json : Adapter → Json → Result ValueError (Unit {0})
  unfolding canonical_json validate_runtime
  validate_json (runtime r) v = validate_runtime r v
  validate_json (optional a) v = let inner = validate_json a v in if is_null v then ok tt else inner
  validate_json a v = forget (canonical_json a v)
