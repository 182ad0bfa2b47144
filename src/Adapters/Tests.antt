-- ===== src/Adapters/Tests.antt =====
-- Types and values of the C++ registry at small inputs.
use yex_judge.Common.{◌≡◌, ◌↔◌, refl, codes, [], ◌∷◌, ok, some}
use yex_judge.Json.{Json, null, num, arr, elem, no_elems}
use yex_judge.Adapters.{bool_type, int_type, vector, optional}
use yex_judge.Adapters.Scalars.{Floats}
use yex_judge.Adapters.Values.{canonical_json, generate_literal, validate_json}
use yex_judge.Adapters.Graph.{GraphJson, check_graph}
use yex_judge.Adapters.Graphs.{IsGraph, check_graph-IsGraph}
use yex_judge.Adapters.Loops.{is_ok}
use yex_judge.Adapters.Agreement.{values-agree}
use yex_judge.Adapters.Graph.{index_of, check_reachable}

abbrev pub plain_floats : Floats
plain_floats = record { shortest = λ t. some t }

-- A graph of two nodes, each the neighbor of the other.
abbrev pair_graph : GraphJson
pair_graph = record {
  values = num (codes "7") ∷ num (codes "8") ∷ [];
  neighbors = (num (codes "1") ∷ []) ∷ (num (codes "0") ∷ []) ∷ [];
}

null_boolean : canonical_json plain_floats bool_type null ≡ ok (codes "false")
unfolding canonical_json
null_boolean = refl

pair_accepted : check_graph pair_graph ≡ ok tt
unfolding check_graph check_reachable index_of
pair_accepted = refl

check_graph-IsGraph_example : (check_graph pair_graph ≡ ok tt) ↔ IsGraph pair_graph
check_graph-IsGraph_example = check_graph-IsGraph pair_graph

abbrev some_numbers : Json
some_numbers = arr (elem (num (codes "7")) (elem null no_elems))

values-agree_example :
    (is_ok (canonical_json plain_floats (vector (optional int_type)) some_numbers)
      ≡ is_ok (validate_json plain_floats (vector (optional int_type)) some_numbers))
    × (is_ok (generate_literal plain_floats (vector (optional int_type)) some_numbers)
        ≡ is_ok (validate_json plain_floats (vector (optional int_type)) some_numbers))
values-agree_example = values-agree plain_floats (vector (optional int_type)) some_numbers
