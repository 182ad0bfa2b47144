-- ===== src/Adapters.antt =====
-- The value types of the C++ harness (internal/judge/harness/cpp/types): `Adapter` has a
-- constructor for each type of registry.go that implements the interface, with the runtime types
-- of runtime.go as one. Here are the names and the expressions; the children have the JSON values
-- and the registry. C++ helper source (SupportSource) is not modelled.
pub mod Scalars
pub mod RandomList
pub mod Graph
pub mod Numbering
pub mod Reaching
pub mod Decides
pub mod Loops
pub mod Graphs
pub mod Alike
pub mod Agreement
pub mod Values
pub mod Registry
pub mod Unordered
pub mod Sorting
pub mod Tests
use yex_judge.Common.{
  ℕ, ℤ, Bool, true, false, List, [], ◌∷◌, ◌++◌, Text, codes, Result, ok, err, text_eq,
  if◌then◌else◌, ◌||◌,
}

-- The adapters of listNodeAdapter, randomListNodeAdapter, treeNodeAdapter and graphNodeAdapter.
pub data RuntimeType : Type 0 where
  list_node tree_node : RuntimeType
  random_list_node graph_node : Text → RuntimeType

pub data Adapter : Type 0 where
  int_type long_long_type double_type bool_type string_type void_type : Adapter
  runtime : RuntimeType → Adapter
  vector optional : Adapter → Adapter

unfoldable pub runtime_name : RuntimeType → Text
runtime_name list_node = codes "ListNode*"
runtime_name tree_node = codes "TreeNode*"
runtime_name (random_list_node name) = name
runtime_name (graph_node name) = name

-- CanonicalName.
unfoldable pub canonical_name : Adapter → Text
unfolding runtime_name
canonical_name int_type = codes "int"
canonical_name long_long_type = codes "long long"
canonical_name double_type = codes "double"
canonical_name bool_type = codes "bool"
canonical_name string_type = codes "string"
canonical_name void_type = codes "void"
canonical_name (runtime r) = runtime_name r
canonical_name (vector a) = codes "vector<" ++ (canonical_name a ++ codes ">")
canonical_name (optional a) = codes "optional<" ++ (canonical_name a ++ codes ">")

-- CppType: each type's C++ name is its canonical name.
abbrev pub cpp_type : Adapter → Text
cpp_type a = canonical_name a

unfoldable pub serialize_expression : Adapter → Text → Text
serialize_expression void_type e = []
serialize_expression a e = codes "__serialize(" ++ (e ++ codes ")")

unfoldable pub deserialize_expression : Adapter → Text → Text
deserialize_expression a e = e

-- Whether a type is a PostconditionAdapter: the runtime types are.
unfoldable pub has_postconditions : Adapter → Bool
has_postconditions (runtime r) = true
has_postconditions _ = false

pub data ValueError : Type 0 where
  void_parameter void_value expected_number not_finite expected_boolean : ValueError
  expected_string expected_array : ValueError
  expected_integer : ValueError
  integer_range : ℕ → ValueError
  expected_object values_required random_required neighbors_required : ValueError
  values_not_array random_not_array neighbors_not_array lengths_differ : ValueError
  random_out_of_range unreachable : ℕ → ValueError
  neighbor_out_of_range : ℕ → ℕ → ValueError
  unsupported_postcondition : Text → ValueError
  out_of_fuel : ValueError
  at_element : ℕ → ValueError → ValueError

-- PostconditionExpression with identityPostcondition.
unfoldable pub postcondition_expression : RuntimeType → Text → Text → Text → Result ValueError Text
postcondition_expression r kind value other =
    if text_eq kind (codes "disjoint")
    then ok (codes "__disjoint(" ++ (value ++ (codes ", " ++ (other ++ codes ")"))))
    else if text_eq kind (codes "same_as")
    then ok (codes "(" ++ (value ++ (codes " == " ++ (other ++ codes ")"))))
    else err (unsupported_postcondition kind)
