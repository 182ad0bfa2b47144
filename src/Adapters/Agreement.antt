-- ===== src/Adapters/Agreement.antt =====
-- GenerateLiteral, ValidateJSON and CanonicalJSON (internal/judge/harness/cpp/types) accept the
-- same values.
use yex_judge.Common.{
  ◌<◌, ◌≡◌, refl, sym, ap, ◌∙◌, subst, true, Bool-cases, Option-cases, some, List, inl, inr, Text,
  Result, ok, err, ◌>>=◌, Result-cases, >>=-is_ok, length, arith, ◌==◌,
}
use yex_judge.Json.{Json, is_null, as_object}
use yex_judge.Adapters.{
  RuntimeType, list_node, tree_node, random_list_node, graph_node, Adapter, string_type, void_type,
  runtime, vector, optional, ValueError,
}
use yex_judge.Adapters.Scalars.{Floats, array_values, each_value}
use yex_judge.Adapters.RandomList.{
  parse_random_list, parse_random_object, random_list_literal, canonical_random_list,
}
use yex_judge.Adapters.Graph.{
  GraphJson, rows_of, parse_graph, parse_graph_object, graph_of, checked_graph, check_graph, Order,
  graph_literal, numbered, canonical_graph,
}
use yex_judge.Adapters.Values.{
  canonical_list, canonical_tree, runtime_literal, canonical_runtime, validate_runtime,
  generate_literal, canonical_json, validate_json,
}
use yex_judge.Adapters.Numbering.{InRange, numbered_total}
use yex_judge.Adapters.Loops.{Succeeds, is_ok, each_value-same}
use yex_judge.Adapters.Graphs.{graph_rows, nodes-InRange, check_graph-IsGraph}
use yex_judge.Adapters.Alike.{Alike, Alike-forget, string-Alike, list-Alike, tree-Alike}

random_list-Alike : (v : Json) (t : Text) → Alike (random_list_literal v t) (parse_random_list v)
unfolding random_list_literal parse_random_list
random_list-Alike v t = elim (Bool-cases (is_null v)) [
  | inl e ↦ ground arith
  | inr e ↦ elim (Result-cases (parse_random_object v)) [
    | inl (l, f) ↦ ground arith
    | inr (x, f) ↦ ground arith
  ]
]

canonical_random_list-Alike : (v : Json) → Alike (canonical_random_list v) (parse_random_list v)
unfolding canonical_random_list parse_random_list
canonical_random_list-Alike v = elim (Bool-cases (is_null v)) [
  | inl e ↦ ground arith
  | inr e ↦ elim (Result-cases (parse_random_object v)) [
    | inl (l, f) ↦ ground arith
    | inr (x, f) ↦ ground arith
  ]
]

graph-Alike : (v : Json) (t : Text) → Alike (graph_literal v t) (parse_graph v)
unfolding graph_literal parse_graph
graph-Alike v t = elim (Bool-cases (is_null v)) [
  | inl e ↦ ground arith
  | inr e ↦ elim (Result-cases (parse_graph_object v)) [
    | inl (l, f) ↦ ground arith
    | inr (x, f) ↦ ground arith
  ]
]

-- A graph that was read has numbers for its nodes.
numbered_graph :
    (g : GraphJson)
    → check_graph g ≡ ok tt
    → 0 < length g.values
    → (o : Order) × (numbered (rows_of g) ≡ some o)
numbered_graph g h nonempty =
    let s = (check_graph-IsGraph g).0 h in
    let n = graph_rows g s.same_length in
    numbered_total (rows_of g) (omega arith)
      (subst (λ k. InRange k (rows_of g)) (sym n) (nodes-InRange g s))

checked_graph-checked : (f g : GraphJson) → checked_graph f ≡ ok g → check_graph g ≡ ok tt
checked_graph-checked f g h =
    let (_, same, e) = >>=-is_ok (check_graph f) h in let f_is_g : f ≡ g = cc in rw (← f_is_g) e

graph_of-checked :
    (o : List (Text × Json)) (g : GraphJson) → graph_of o ≡ ok g → check_graph g ≡ ok tt
unfolding graph_of
graph_of-checked o g h = ground arith

parse_graph_object-checked :
    (v : Json) (g : GraphJson) → parse_graph_object v ≡ ok g → check_graph g ≡ ok tt
unfolding parse_graph_object
parse_graph_object-checked v g h = elim (Option-cases (as_object v)) [
  | inl e ↦ absurd (ground arith)
  | inr (o, e) ↦ graph_of-checked o g (ground arith)
]

canonical_graph-Alike : (v : Json) → Alike (canonical_graph v) (parse_graph v)
unfolding canonical_graph parse_graph
canonical_graph-Alike v = elim (Bool-cases (is_null v)) [
  | inl e ↦ ground arith
  | inr e ↦ elim (Result-cases (parse_graph_object v)) [
    | inr (x, f) ↦ ground arith
    | inl (g, f) ↦ elim (Bool-cases (length g.values == 0)) [
      | inl z ↦ ground arith
      | inr z ↦
          let (o, n) = numbered_graph g (parse_graph_object-checked v g f) (ground arith) in
          ground arith
    ]
  ]
]

runtime_literal-Alike :
    (r : RuntimeType) (v : Json) → Alike (runtime_literal r v) (validate_runtime r v)
unfolding runtime_literal validate_runtime
runtime_literal-Alike list_node v = list-Alike v ∙ Alike-forget (canonical_list v)
runtime_literal-Alike tree_node v = tree-Alike v ∙ Alike-forget (canonical_tree v)
runtime_literal-Alike (random_list_node name) v =
    random_list-Alike v name ∙ Alike-forget (parse_random_list v)
runtime_literal-Alike (graph_node name) v = graph-Alike v name ∙ Alike-forget (parse_graph v)

canonical_runtime-Alike :
    (r : RuntimeType) (v : Json) → Alike (canonical_runtime r v) (validate_runtime r v)
unfolding canonical_runtime validate_runtime
canonical_runtime-Alike list_node v = Alike-forget (canonical_list v)
canonical_runtime-Alike tree_node v = Alike-forget (canonical_tree v)
canonical_runtime-Alike (random_list_node name) v =
    canonical_random_list-Alike v ∙ Alike-forget (parse_random_list v)
canonical_runtime-Alike (graph_node name) v = canonical_graph-Alike v ∙ Alike-forget (parse_graph v)

is_ok-Succeeds {ℓ κ} : {E : Type ℓ} {A : Type κ} (x : Result E A) → is_ok x ≡ true → Succeeds x
is_ok-Succeeds (ok a) h = (a, refl)
is_ok-Succeeds (err e) h = cc

module _ (fl : Floats) where
  array-Alike :
      {A B : Type 0} (f g : Json → Result ValueError Text) (p : List Text → A) (q : List Text → B)
      → ((v : Json) → Alike (f v) (g v))
      → (v : Json)
      → Alike
          (array_values v >>= λ vs. each_value f 0 vs >>= λ items. ok (p items))
          (array_values v >>= λ vs. each_value g 0 vs >>= λ items. ok (q items))
  array-Alike f g p q same v = elim (Result-cases (array_values v)) [
    | inr (x, e) ↦ ground arith
    | inl (vs, e) ↦
        let loops = each_value-same f g same 0 0 vs in
        elim (Result-cases (each_value f 0 vs)) [
          | inr (x, h) ↦ elim (Result-cases (each_value g 0 vs)) [
            | inl (us, k) ↦ absurd (ground arith)
            | inr (y, k) ↦ ground arith
          ]
          | inl (ts, h) ↦ elim (Result-cases (each_value g 0 vs)) [
            | inl (us, k) ↦ ground arith
            | inr (y, k) ↦ absurd (ground arith)
          ]
        ]
  ]

  canonical-Alike : (a : Adapter) (v : Json) → Alike (canonical_json fl a v) (validate_json fl a v)
  unfolding canonical_json validate_json
  canonical-Alike (runtime r) v = canonical_runtime-Alike r v
  canonical-Alike (optional a) v = ground (arith, canonical-Alike a v)
  canonical-Alike a v = Alike-forget (canonical_json fl a v)

  literal-Alike : (a : Adapter) (v : Json) → Alike (generate_literal fl a v) (canonical_json fl a v)
  unfolding generate_literal canonical_json
  literal-Alike string_type v = string-Alike v
  literal-Alike void_type v = refl
  literal-Alike (runtime r) v = runtime_literal-Alike r v ∙ sym (canonical_runtime-Alike r v)
  literal-Alike (vector a) v = array-Alike _ _ _ _ (literal-Alike a) v
  literal-Alike (optional a) v =
      let ih = literal-Alike a v in
      elim (Bool-cases (is_null v)) [
        | inl e ↦ ground arith
        | inr e ↦ elim (Result-cases (generate_literal fl a v)) [
          | inl (t, h) ↦ ground arith
          | inr (x, h) ↦ ground arith
        ]
      ]
  literal-Alike a v = refl

  -- For every type of the registry and every JSON value, the canonical text is given, and a C++
  -- literal is generated, exactly when the value is valid for the type.
  pub values-agree :
      (a : Adapter) (v : Json)
      → (is_ok (canonical_json fl a v) ≡ is_ok (validate_json fl a v))
        × (is_ok (generate_literal fl a v) ≡ is_ok (validate_json fl a v))
  values-agree a v = (canonical-Alike a v, literal-Alike a v ∙ canonical-Alike a v)

  pub valid-canonical :
      (a : Adapter) (v : Json) → validate_json fl a v ≡ ok tt → Succeeds (canonical_json fl a v)
  valid-canonical a v h = is_ok-Succeeds (canonical_json fl a v) ((values-agree a v).0 ∙ ap is_ok h)

  pub valid-literal :
      (a : Adapter) (v : Json) → validate_json fl a v ≡ ok tt → Succeeds (generate_literal fl a v)
  valid-literal a v h = is_ok-Succeeds (generate_literal fl a v) ((values-agree a v).1 ∙ ap is_ok h)
