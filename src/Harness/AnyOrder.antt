-- ===== src/Harness/AnyOrder.antt =====
-- The comparison of vectors whose order does not count: functionOutputsEqual
-- (internal/judge/testcases.go) over the texts of the C++ registry.
use yex_judge.Common.{◌≡◌, refl, true, ◌&&◌, some, Text, codes, text_eq_iff, ok, arith}
use mathlib.Core.List.{Permᴰ}
use yex_judge.Types.{Job, FunctionSpec, FunctionComparisonSpec}
use yex_judge.Json.{Elems, arr, elems}
use yex_judge.Json.Parse.{parse_json}
use yex_judge.Adapters.{Adapter, vector}
use yex_judge.Adapters.Registry.{resolve}
use yex_judge.Adapters.Unordered.{canonical_unordered, canonical_unordered_array}
use yex_judge.Adapters.Sorting.{canonical_unordered-perm}
use yex_judge.FunctionJob.Expected.{is_empty}
use yex_judge.Verdict.{outputs_equal}
use yex_judge.Harness.{Harness, canonical, unordered_output}

-- A job whose function returns a vector of some type, in any order, and observes nothing else.
pub record ReturnsVector (h : Harness) (job : Job) (a : Adapter) : Type 0 where
  pub function : FunctionSpec
  pub comparison : FunctionComparisonSpec
  pub has_function : job.function ≡ some function
  pub compares : function.comparison ≡ some comparison
  pub any_order : comparison.return_array_order ≡ codes "unordered"
  pub resolved : resolve h.registry h.unicode function.return_type ≡ ok (vector a)
  pub only_return : (is_empty function.observations && is_empty function.postconditions) ≡ true

module _ (h : Harness) (job : Job) (a : Adapter) (r : ReturnsVector h job a) where
  returned_text :
      (output : Text) (vs : Elems) (t : Text)
      → parse_json output ≡ some (arr vs)
      → canonical_unordered h.floats a (arr vs) ≡ ok t
      → unordered_output h r.function output ≡ some t
  unfolding unordered_output canonical_unordered_array
  returned_text output vs t e c = let found = r.resolved in let only = r.only_return in ground arith

  -- When a function returns a vector whose order does not count, an output whose elements are those
  -- of the expected text in another order is as expected, provided the elements have canonical texts.
  pub outputs_equal-perm :
      (actual expected : Text) (vs ws : Elems) (t : Text)
      → parse_json actual ≡ some (arr vs)
      → parse_json expected ≡ some (arr ws)
      → Permᴰ (elems vs) (elems ws)
      → canonical_unordered h.floats a (arr vs) ≡ ok t
      → outputs_equal (canonical h) job actual expected ≡ true
  unfolding outputs_equal canonical
  outputs_equal-perm actual expected vs ws t e k p c =
      let first = returned_text actual vs t e c in
      let second =
        returned_text expected ws t k (canonical_unordered-perm h.floats a vs ws t p c) in
      let f = r.has_function in
      let compares = r.compares in
      let unordered =
        (text_eq_iff r.comparison.return_array_order (codes "unordered")).1 r.any_order in
      let same = (text_eq_iff t t).1 refl in ground arith
