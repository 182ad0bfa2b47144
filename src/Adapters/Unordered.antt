-- ===== src/Adapters/Unordered.antt =====
-- Vectors whose order does not count: CanonicalUnorderedJSON (internal/judge/harness/cpp/types,
-- vector.go) and CanonicalUnorderedArrayJSON (registry.go).
use yex_judge.Common.{
  Bool, true, false, ◌&&◌, ◌||◌, List, [], ◌∷◌, Text, Result, ok, err, ◌>>=◌, ltb, ◌==◌,
  if◌then◌else◌,
}
use yex_judge.Json.{Json}
use yex_judge.CppType.{Unicode}
use yex_judge.Adapters.{Adapter, vector, ValueError}
use yex_judge.Adapters.Scalars.{Floats, array_values, each_value, bracketed}
use yex_judge.Adapters.Values.{canonical_json}
use yex_judge.Adapters.Registry.{Registry, RegistryError, not_a_vector, bad_value, resolve}

-- The order of Go strings, and sort.Strings, which leaves one order of equal strings only.
unfoldable pub leb_text : Text → Text → Bool
leb_text [] t = true
leb_text (c ∷ s) [] = false
leb_text (c ∷ s) (d ∷ t) = ltb c d || (c == d && leb_text s t)

unfoldable pub insert_text : Text → List Text → List Text
unfolding leb_text
insert_text s [] = s ∷ []
insert_text s (t ∷ ts) = if leb_text s t then s ∷ t ∷ ts else t ∷ insert_text s ts

unfoldable pub sort_texts : List Text → List Text
unfolding insert_text
sort_texts [] = []
sort_texts (t ∷ ts) = insert_text t (sort_texts ts)

module _ (fl : Floats) where
  unfoldable pub canonical_unordered : Adapter → Json → Result ValueError Text
  unfolding canonical_json array_values each_value sort_texts
  canonical_unordered element v = do
    vs ← array_values v
    items ← each_value (canonical_json fl element) 0 vs
    ok (bracketed (sort_texts items))

  unfoldable pub canonical_unordered_array :
      Unicode → Registry → Text → Json → Result RegistryError Text
  unfolding resolve canonical_unordered
  canonical_unordered_array u r declared v = elim (resolve r u declared) [
    | err e ↦ err e
    | ok (vector a) ↦ elim (canonical_unordered a v) [ ok t ↦ ok t | err e ↦ err (bad_value e) ]
    | ok _ ↦ err (not_a_vector declared)
  ]
