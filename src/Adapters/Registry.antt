-- ===== src/Adapters/Registry.antt =====
-- The registry of value types (internal/judge/harness/cpp/types/registry.go): adapters and
-- factories by name, and the resolution of a declared type, which CppType parses.
use yex_judge.Common.{
  Bool, true, false, Option, none, some, List, [], ◌∷◌, Text, codes, text_eq, Result, ok, err,
  ◌>>=◌, ◌>>◌, reject_if, if◌then◌else◌,
}
use yex_judge.CppType.{
  TypeRef, type_ref, TypeRefs, nil, cons, TypeError, Unicode, value_name, parse,
}
use yex_judge.Adapters.{
  list_node, tree_node, random_list_node, graph_node, Adapter, int_type, long_long_type,
  double_type, bool_type, string_type, void_type, runtime, vector, optional, canonical_name,
  ValueError,
}

pub data RegistryError : Type 0 where
  adapter_required factory_required : RegistryError
  already_registered unsupported one_argument not_a_vector : Text → RegistryError
  invalid_type : Text → TypeError → RegistryError
  bad_value : ValueError → RegistryError

abbrev pub Factory : Type 0
Factory = List Adapter → Result RegistryError Adapter

pub record Registry : Type 0 where
  pub adapters : List (Text × Adapter)
  pub factories : List (Text × Factory)

module _ {ℓ} {V : Type ℓ} where
  unfoldable pub find : Text → List (Text × V) → Option V
  find k [] = none
  find k ((j, v) ∷ m) = if text_eq j k then some v else find k m

  -- `m[k] = v`.
  unfoldable pub put : Text → V → List (Text × V) → List (Text × V)
  put k v [] = (k, v) ∷ []
  put k v ((j, w) ∷ m) = if text_eq j k then (k, v) ∷ m else (j, w) ∷ put k v m

abbrev is_found {ℓ} : {V : Type ℓ} → Option V → Bool
is_found none = false
is_found (some v) = true

unfoldable pub put_adapters : List Adapter → List (Text × Adapter) → List (Text × Adapter)
unfolding put canonical_name
put_adapters [] m = m
put_adapters (a ∷ as') m = put_adapters as' (put (canonical_name a) a m)

unfoldable pub new_registry : List Adapter → Registry
unfolding put_adapters
new_registry as' = record { adapters = put_adapters as' []; factories = [] }

unfoldable pub register_adapter : Registry → Option Adapter → Result RegistryError Registry
unfolding find put canonical_name
register_adapter r none = err adapter_required
register_adapter r (some a) = do
  reject_if (text_eq (canonical_name a) []) adapter_required
  reject_if (is_found (find (canonical_name a) r.adapters)) (already_registered (canonical_name a))
  ok (record r { adapters = put (canonical_name a) a r.adapters })

unfoldable pub register_factory : Registry → Text → Option Factory → Result RegistryError Registry
unfolding find put
register_factory r name none = err factory_required
register_factory r name (some f) = do
  reject_if (text_eq name []) factory_required
  reject_if (is_found (find name r.factories)) (already_registered name)
  ok (record r { factories = put name f r.factories })

abbrev vector_factory : Factory
vector_factory (a ∷ []) = ok (vector a)
vector_factory _ = err (one_argument (codes "vector"))

-- optionalFactory.
abbrev optional_factory : Factory
optional_factory (a ∷ []) = ok (optional a)
optional_factory _ = err (one_argument (codes "optional"))

abbrev builtin_types : List Adapter
builtin_types =
    int_type
    ∷ long_long_type
    ∷ double_type
    ∷ bool_type
    ∷ string_type
    ∷ void_type
    ∷ runtime list_node
    ∷ runtime (random_list_node (codes "RandomListNode*"))
    ∷ runtime (random_list_node (codes "Node*"))
    ∷ runtime tree_node
    ∷ runtime (graph_node (codes "GraphNode*"))
    ∷ []

-- DefaultRegistry; an error of a registration panics.
unfoldable pub default_registry : Result RegistryError Registry
unfolding new_registry register_factory
default_registry = do
  r ← register_factory (new_registry builtin_types) (codes "vector") (some vector_factory)
  register_factory r (codes "optional") (some optional_factory)

module _ (r : Registry) where
  -- resolveRef: without arguments the name with its `*` counts, with arguments the factory of the
  -- name alone. Qualifiers do not count.
  unfoldable mutual
    unfolding find value_name

    pub resolve_ref : TypeRef → Result RegistryError Adapter
    resolve_ref (type_ref name nil c k p) =
        elim (find (value_name (type_ref name nil c k p)) r.adapters) [
          | none ↦ err (unsupported (value_name (type_ref name nil c k p)))
          | some a ↦ ok a
        ]
    resolve_ref (type_ref name (cons a as') c k p) = elim (find name r.factories) [
      | none ↦ err (unsupported (value_name (type_ref name (cons a as') c k p)))
      | some f ↦ do first ← resolve_ref a; rest ← resolve_refs as'; f (first ∷ rest)
    ]

    pub resolve_refs : TypeRefs → Result RegistryError (List Adapter)
    resolve_refs nil = ok []
    resolve_refs (cons a as') = do first ← resolve_ref a; rest ← resolve_refs as'; ok (first ∷ rest)

  unfoldable pub resolve : Unicode → Text → Result RegistryError Adapter
  unfolding parse resolve_ref
  resolve u declared = elim (parse u declared) [
    | err e ↦ err (invalid_type declared e)
    | ok ref ↦ resolve_ref ref
  ]

-- Normalize.
unfoldable pub normalize : Unicode → Text → Text
unfolding parse value_name
normalize u declared = elim (parse u declared) [ err e ↦ declared | ok ref ↦ value_name ref ]
