-- ===== src/Adapters/Decides.antt =====
-- The checks of parseGraphJSON (internal/judge/harness/cpp/types/runtime.go) against what a graph
-- is.
use yex_judge.Common.{
  ℕ, zero, suc, ◌+◌, ◌<◌, ◌≡◌, ◌⊎◌, ◌↔◌, refl, ap, subst, Bool, true, false, Option, Option-cases,
  none, some, List, [], ◌∷◌, inl, inr, length, arith, ok, err, Result,
}
use yex_judge.Adapters.{ValueError, unreachable}
use yex_judge.Adapters.Graph.{
  is_marked, all_false, edges, reached, first_unreached, check_reachable,
}
use yex_judge.Adapters.Numbering.{InRange}
use yex_judge.Adapters.Reaching.{Reaches, root, IsWalk, reach-IsWalk, marked-Reaches, weight}

length-all_false : (n : ℕ) → length (all_false n) ≡ n
unfolding all_false
length-all_false zero = refl
length-all_false (suc n) = ap suc (length-all_false n)

none_marked : (n i : ℕ) → is_marked (all_false n) i ≡ false
unfolding all_false is_marked
none_marked zero i = refl
none_marked (suc n) zero = refl
none_marked (suc n) (suc i) = none_marked n i

weight-all_false : (rows : List (List ℕ)) → weight rows (all_false (length rows)) ≡ edges rows
unfolding weight all_false edges
weight-all_false [] = refl
weight-all_false (row ∷ rows) = omega (arith, weight-all_false rows)

first_unreached-none :
    (k : ℕ) (m : List Bool)
    → first_unreached k m ≡ none
    → (i : ℕ) → i < length m
    → is_marked m i ≡ true
unfolding first_unreached is_marked
first_unreached-none k [] h i lt = absurd (omega arith)
first_unreached-none k (false ∷ bs) h i lt = cc
first_unreached-none k (true ∷ bs) h zero lt = refl
first_unreached-none k (true ∷ bs) h (suc i) lt = first_unreached-none (k + 1) bs h i (omega arith)

first_unreached-some :
    (k : ℕ) (m : List Bool) (q : ℕ)
    → first_unreached k m ≡ some q
    → (i : ℕ) × (q ≡ k + i) × (i < length m) × (is_marked m i ≡ false)
unfolding first_unreached is_marked
first_unreached-some k [] q h = cc
first_unreached-some k (true ∷ bs) q h =
    let (i, e, lt, x) = first_unreached-some (k + 1) bs q h in (suc i, omega arith, omega arith, x)
first_unreached-some k (false ∷ bs) q h = (0, ground arith, omega arith, refl)

start-IsWalk :
    (rows : List (List ℕ)) (in_range : InRange (length rows) rows)
    → 0 < length rows
    → IsWalk rows in_range (all_false (length rows)) (0 ∷ [])
start-IsWalk rows in_range nonempty = record {
  same_length = length-all_false (length rows);
  sound = λ i h. let n = none_marked (length rows) i in absurd (ground arith);
  pending_reached = (root, tt);
  pending_small = (nonempty, tt);
  from_root = inr (inl refl);
  closed = λ i j h e. let n = none_marked (length rows) i in absurd (ground arith);
}

-- The walk ends within its fuel; it marks the nodes that can be reached and no others.
pub reached_lem :
    (rows : List (List ℕ))
    → InRange (length rows) rows
    → 0 < length rows
    → (m : List Bool) × (reached rows ≡ some m)
      × (length m ≡ length rows)
      × ((i : ℕ) → (is_marked m i ≡ true) ↔ Reaches rows i)
unfolding reached
reached_lem rows r nonempty =
    let (m, e, w) =
      reach-IsWalk rows r (edges rows + 1) (all_false (length rows)) (0 ∷ [])
        (omega (arith, weight-all_false rows)) (start-IsWalk rows r nonempty) in
    (m, e, w.same_length, λ i. (w.sound i, marked-Reaches rows r m w i))

verdict : Option ℕ → Result ValueError (Unit {0})
verdict none = ok tt
verdict (some i) = err (unreachable i)

decided :
    (rows : List (List ℕ)) (m : List Bool) (o : Option ℕ)
    → reached rows ≡ some m
    → first_unreached 0 m ≡ o
    → check_reachable rows ≡ verdict o
unfolding check_reachable verdict
decided rows m none e h = ground arith
decided rows m (some i) e h = ground arith

-- Of a graph that has a node and whose neighbors are nodes, the walk accepts exactly those whose
-- nodes can all be reached from the first; else it names one that cannot. It does not run out of
-- fuel.
pub check_reachable-decides :
    (rows : List (List ℕ))
    → InRange (length rows) rows
    → 0 < length rows
    → ((check_reachable rows ≡ ok tt) × ((i : ℕ) → i < length rows → Reaches rows i))
      ⊎ ((i : ℕ) × (check_reachable rows ≡ err (unreachable i))
          × (i < length rows)
          × ¬ Reaches rows i)
unfolding verdict
check_reachable-decides rows r nonempty =
    let (m, e, l, marks) = reached_lem rows r nonempty in
    elim (Option-cases (first_unreached 0 m)) [
      | inl h ↦
          inl
            (decided rows m _ e h, λ i lt. (marks i).0 (first_unreached-none 0 m h i (omega arith)))
      | inr (q, h) ↦
          let (i, same, lt, x) = first_unreached-some 0 m q h in
          let here : q ≡ i = omega arith in
          inr (
            q,
            decided rows m _ e h,
            omega arith,
            λ y. let z = (marks i).1 (subst (Reaches rows) here y) in cc,
          )
    ]
