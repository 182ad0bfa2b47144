-- ===== src/FunctionJob.antt =====
-- The checks of a C++ function job, validateFunctionJob and what it calls
-- (internal/judge/validate.go), behind its test of the language. A Go map is a list of pairs: the
-- order in which the code meets its keys only chooses the error that it reports.
pub mod Expected
pub mod Cases
pub mod Output
pub mod Metadata
pub mod Judged
use yex_judge.Common.{
  ℕ, suc, ◌+◌, ℤ, pos, negsuc, ltb_ℤ, eq_ℤ, to_nat, Bool, true, false, not, ◌&&◌, ◌||◌, Option,
  none, some, List, [], ◌∷◌, ◌++◌, Text, codes, text_eq, has_prefix, Result, ok, err, ◌>>=◌, ◌>>◌,
  reject_if, ltb, leb, ◌==◌, length, get_elem?, if◌then◌else◌,
}
use yex_judge.Types.{
  FunctionParam, FunctionSpec, FunctionComparisonSpec, ObservationSpec, PostconditionSpec,
}
use yex_judge.CppType.{Unicode}
use yex_judge.Adapters.{Adapter, canonical_name, cpp_type, has_postconditions, void_type}
use yex_judge.Adapters.Registry.{Registry, resolve, normalize}

pub data FunctionError : Type 0 where
  name_invalid return_type_required return_type_unsupported too_many_params : FunctionError
  param_name_invalid param_type_required param_unsupported : ℕ → FunctionError
  void_unobserved : FunctionError
  duplicate_return void_return parameter_invalid duplicate_parameter view_unsupported :
      ℕ → FunctionError
  prefix_without_length prefix_without_vector prefix_without_integer : ℕ → FunctionError
  length_without_prefix kind_unsupported : ℕ → FunctionError
  order_unsupported order_unobserved order_without_vector : FunctionError
  void_postconditions type_without_postconditions : FunctionError
  postcondition_kind postcondition_subject postcondition_parameter : ℕ → FunctionError
  postcondition_types postcondition_duplicate : ℕ → FunctionError

-- isCppIdentifier, on the bytes of a name: no other character is allowed.
unfoldable pub identifier_from : Bool → Text → Bool
identifier_from first [] = true
identifier_from first (c ∷ s) =
    ((leb b'a' c && leb c b'z')
      || ((leb b'A' c && leb c b'Z') || ((not first && (leb b'0' c && leb c b'9')) || c == b'_')))
    && identifier_from false s

unfoldable pub is_cpp_identifier : Text → Bool
unfolding identifier_from
is_cpp_identifier s = not (text_eq s []) && identifier_from true s

abbrev pub is_void : Adapter → Bool
is_void a = text_eq (cpp_type a) (codes "void")

-- `index >= 0 && index < n`.
abbrev pub is_below : ℤ → ℕ → Bool
is_below i n = not (ltb_ℤ i (pos 0)) && ltb_ℤ i (pos n)

module _ (u : Unicode) (r : Registry) where
  -- The loop over the parameters, from parameter `i` on.
  unfoldable pub resolve_params : ℕ → List FunctionParam → Result FunctionError (List Adapter)
  unfolding is_cpp_identifier resolve canonical_name
  resolve_params i [] = ok []
  resolve_params i (p ∷ ps) = do
    reject_if (not (is_cpp_identifier p.name)) (param_name_invalid i)
    reject_if (text_eq p.type []) (param_type_required i)
    elim (resolve r u p.type) [
      | err e ↦ err (param_unsupported i)
      | ok a ↦
          if is_void a
          then err (param_unsupported i)
          else do as' ← resolve_params (i + 1) ps; ok (a ∷ as')
    ]

-- `returnObserved` and `parameterObservations`.
pub record Observed : Type 0 where
  pub returned : Bool
  pub parameters : List (ℕ × ObservationSpec)

unfoldable pub observation_of : ℕ → List (ℕ × ObservationSpec) → Option ObservationSpec
observation_of i [] = none
observation_of i ((j, o) ∷ m) = if j == i then some o else observation_of i m

abbrev pub is_found {ℓ} : {A : Type ℓ} → Option A → Bool
is_found none = false
is_found (some a) = true

abbrev pub param_type : List FunctionParam → ℕ → Text
param_type ps i = elim (get_elem? ps i) [ none ↦ [] | some p ↦ p.type ]

module _ (u : Unicode) (ps : List FunctionParam) (returns : Adapter) where
  -- The view of an observed parameter; an empty one is `full`.
  unfoldable pub check_view : ℕ → ObservationSpec → Result FunctionError (Unit {0})
  unfolding normalize canonical_name has_prefix
  check_view i o =
      let view = if text_eq o.view [] then codes "full" else o.view in
      do
        reject_if (not (text_eq view (codes "full")) && not (text_eq view (codes "prefix")))
            (view_unsupported i)
        if text_eq view (codes "prefix")
            then (do
              reject_if (not o.length_from_return) (prefix_without_length i)
              reject_if
                  (not (
                    has_prefix (normalize u (param_type ps (to_nat o.parameter)))
                      (codes "vector<")))
                  (prefix_without_vector i)
              reject_if
                  (not (text_eq (cpp_type returns) (codes "int"))
                    && not (text_eq (cpp_type returns) (codes "long long")))
                  (prefix_without_integer i))
            else reject_if o.length_from_return (length_without_prefix i)

  unfoldable pub check_parameter : ℕ → ObservationSpec → Observed → Result FunctionError Observed
  unfolding check_view observation_of
  check_parameter i o seen = do
    reject_if (not (is_below o.parameter (length ps))) (parameter_invalid i)
    reject_if (is_found (observation_of (to_nat o.parameter) seen.parameters))
        (duplicate_parameter i)
    check_view i o
    ok (record seen { parameters = seen.parameters ++ (to_nat o.parameter, o) ∷ [] })

  unfoldable pub check_return : ℕ → Observed → Result FunctionError Observed
  unfolding canonical_name
  check_return i seen = do
    reject_if seen.returned (duplicate_return i)
    reject_if (is_void returns) (void_return i)
    ok (record seen { returned = true })

  unfoldable pub check_observation : ℕ → ObservationSpec → Observed → Result FunctionError Observed
  unfolding check_return check_parameter
  check_observation i o seen =
      if text_eq o.kind (codes "return")
      then check_return i seen
      else if text_eq o.kind (codes "parameter")
      then check_parameter i o seen
      else err (kind_unsupported i)

  -- The loop over the observations, from observation `i` on.
  unfoldable pub check_observations :
      ℕ → List ObservationSpec → Observed → Result FunctionError Observed
  unfolding check_observation
  check_observations i [] seen = ok seen
  check_observations i (o ∷ os) seen = do
    next ← check_observation i o seen
    check_observations (i + 1) os next

  -- validateFunctionObservations.
  unfoldable pub validate_observations : List ObservationSpec → Result FunctionError Observed
  unfolding check_observations canonical_name
  validate_observations [] =
      if is_void returns
      then err void_unobserved
      else ok (record { returned = true; parameters = [] })
  validate_observations (o ∷ os) =
      check_observations 0 (o ∷ os) (record { returned = false; parameters = [] })

-- validateFunctionComparison.
unfoldable pub validate_comparison :
    Option FunctionComparisonSpec → Adapter → Bool → Result FunctionError (Unit {0})
unfolding canonical_name has_prefix
validate_comparison none returns returned = ok tt
validate_comparison (some c) returns returned =
    if text_eq c.return_array_order [] then ok tt else do
      reject_if (not (text_eq c.return_array_order (codes "unordered"))) order_unsupported
      reject_if (not returned) order_unobserved
      reject_if (not (has_prefix (canonical_name returns) (codes "vector<"))) order_without_vector

abbrev pub adapter_at : List Adapter → ℕ → Adapter
adapter_at as' i = elim (get_elem? as' i) [ none ↦ void_type | some a ↦ a ]

-- `seen[key]`, the key being the kind and the parameter.
unfoldable pub is_seen : Text → ℤ → List (Text × ℤ) → Bool
is_seen kind p [] = false
is_seen kind p ((k, q) ∷ seen) = (text_eq k kind && eq_ℤ q p) || is_seen kind p seen

unfoldable pub check_postconditions :
    Adapter
    → List Adapter
    → ℕ
    → List PostconditionSpec
    → List (Text × ℤ)
    → Result FunctionError (Unit {0})
unfolding canonical_name is_seen
check_postconditions returns as' i [] seen = ok tt
check_postconditions returns as' i (p ∷ ps) seen = do
  reject_if (not (text_eq p.kind (codes "disjoint")) && not (text_eq p.kind (codes "same_as")))
      (postcondition_kind i)
  reject_if (not (text_eq p.subject (codes "return"))) (postcondition_subject i)
  reject_if (not (is_below p.from_parameter (length as'))) (postcondition_parameter i)
  reject_if (not (text_eq (cpp_type (adapter_at as' (to_nat p.from_parameter))) (cpp_type returns)))
      (postcondition_types i)
  reject_if (is_seen p.kind p.from_parameter seen) (postcondition_duplicate i)
  check_postconditions returns as' (i + 1) ps ((p.kind, p.from_parameter) ∷ seen)

-- validateFunctionPostconditions.
unfoldable pub validate_postconditions :
    List PostconditionSpec → Adapter → List Adapter → Result FunctionError (Unit {0})
unfolding check_postconditions canonical_name has_postconditions
validate_postconditions [] returns as' = ok tt
validate_postconditions (p ∷ ps) returns as' = do
  reject_if (is_void returns) void_postconditions
  reject_if (not (has_postconditions returns)) type_without_postconditions
  check_postconditions returns as' 0 (p ∷ ps) []

-- What validateFunctionJob knows of the metadata once it has checked them.
pub record Checked : Type 0 where
  pub returns : Adapter
  pub params : List Adapter
  pub observed : Observed

unfoldable pub check_function : Unicode → Registry → FunctionSpec → Result FunctionError Checked
unfolding is_cpp_identifier resolve resolve_params validate_observations validate_comparison
    validate_postconditions
check_function u r f = do
  reject_if (not (is_cpp_identifier f.name)) name_invalid
  reject_if (text_eq f.return_type []) return_type_required
  elim (resolve r u f.return_type) [
    | err e ↦ err return_type_unsupported
    | ok returns ↦ do
      reject_if (ltb 10 (length f.params)) too_many_params
      params ← resolve_params u r 0 f.params
      observed ← validate_observations u f.params returns f.observations
      validate_comparison f.comparison returns observed.returned
      validate_postconditions f.postconditions returns params
      ok (record { returns = returns; params = params; observed = observed })
  ]
