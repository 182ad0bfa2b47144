-- ===== src/Adapters/Reaching.antt =====
-- The walk of parseGraphJSON (internal/judge/harness/cpp/types/runtime.go) over the nodes that it
-- reaches from the first: its fuel, its invariant and what it marks.
use yex_judge.Common.{
  ℕ, zero, suc, ◌+◌, ◌≤◌, ◌<◌, ◌≡◌, ◌⊎◌, refl, ap, sym, subst, Bool, true, false, Bool-cases, some,
  List, [], ◌∷◌, inl, inr, length, All, arith, if◌then◌else◌,
}
use yex_judge.Adapters.Graph.{is_marked, mark, row_at, push_all, reach}
use yex_judge.Adapters.Numbering.{InRange, row_at-All}

abbrev pub In : ℕ → List ℕ → Type 0
In j [] = ⊥
In j (x ∷ xs) = (x ≡ j) ⊎ In j xs

-- The nodes that can be reached from the first.
pub data Reaches (rows : List (List ℕ)) : ℕ → Type 0 where
  root : Reaches rows 0
  edge : {i j : ℕ} → Reaches rows i → In j (row_at rows i) → Reaches rows j

-- What the rows of the unmarked nodes may still push.
unfoldable pub weight : List (List ℕ) → List Bool → ℕ
weight [] bs = 0
weight (row ∷ rows) [] = 0
weight (row ∷ rows) (b ∷ bs) = (if b then 0 else length row) + weight rows bs

length-mark : (m : List Bool) (i : ℕ) → length (mark m i) ≡ length m
unfolding mark
length-mark [] i = refl
length-mark (b ∷ bs) zero = refl
length-mark (b ∷ bs) (suc i) = ap suc (length-mark bs i)

weight-mark :
    (rows : List (List ℕ)) (m : List Bool) (i : ℕ)
    → length m ≡ length rows
    → is_marked m i ≡ false
    → weight rows (mark m i) + length (row_at rows i) ≡ weight rows m
unfolding weight mark is_marked
weight-mark [] [] i l h = refl
weight-mark [] (b ∷ bs) i l h = absurd (omega arith)
weight-mark (row ∷ rows) [] i l h = absurd (omega arith)
weight-mark (row ∷ rows) (b ∷ bs) zero l h = ground arith
weight-mark (row ∷ rows) (b ∷ bs) (suc i) l h =
    let ih = weight-mark rows bs i (omega arith) h in omega arith

length-push_all :
    (row pending : List ℕ) → length (push_all row pending) ≡ length row + length pending
unfolding push_all
length-push_all [] pending = omega arith
length-push_all (j ∷ row) pending = omega (arith, length-push_all row (j ∷ pending))

push_all-All {ℓ} :
    (P : ℕ → Type ℓ) (row pending : List ℕ)
    → All P row
    → All P pending
    → All P (push_all row pending)
unfolding push_all
push_all-All P [] pending a p = p
push_all-All P (j ∷ row) pending (x, a) p = push_all-All P row (j ∷ pending) a (x, p)

In-push_all_below : (j : ℕ) (row pending : List ℕ) → In j pending → In j (push_all row pending)
unfolding push_all
In-push_all_below j [] pending h = h
In-push_all_below j (x ∷ row) pending h = In-push_all_below j row (x ∷ pending) (inr h)

In-push_all : (j : ℕ) (row pending : List ℕ) → In j row → In j (push_all row pending)
unfolding push_all
In-push_all j [] pending h = absurd h
In-push_all j (x ∷ row) pending (inl e) = In-push_all_below j row (x ∷ pending) (inl e)
In-push_all j (x ∷ row) pending (inr h) = In-push_all j row (x ∷ pending) h

All-In {ℓ} : {P : ℕ → Type ℓ} (row : List ℕ) → ((j : ℕ) → In j row → P j) → All P row
All-In [] f = tt
All-In (x ∷ xs) f = (f x (inl refl), All-In xs (λ j h. f j (inr h)))

mark_cases :
    (m : List Bool) (i k : ℕ) → is_marked (mark m i) k ≡ true → (k ≡ i) ⊎ (is_marked m k ≡ true)
unfolding mark is_marked
mark_cases [] i k h = inr h
mark_cases (b ∷ bs) zero zero h = inl refl
mark_cases (b ∷ bs) zero (suc k) h = inr h
mark_cases (b ∷ bs) (suc i) zero h = inr h
mark_cases (b ∷ bs) (suc i) (suc k) h = elim (mark_cases bs i k h) [
  | inl e ↦ inl (ap suc e)
  | inr x ↦ inr x
]

mark_keeps : (m : List Bool) (i k : ℕ) → is_marked m k ≡ true → is_marked (mark m i) k ≡ true
unfolding mark is_marked
mark_keeps [] i k h = h
mark_keeps (b ∷ bs) zero zero h = refl
mark_keeps (b ∷ bs) zero (suc k) h = h
mark_keeps (b ∷ bs) (suc i) zero h = h
mark_keeps (b ∷ bs) (suc i) (suc k) h = mark_keeps bs i k h

mark_self : (m : List Bool) (i : ℕ) → i < length m → is_marked (mark m i) i ≡ true
unfolding mark is_marked
mark_self [] i lt = absurd (omega arith)
mark_self (b ∷ bs) zero lt = refl
mark_self (b ∷ bs) (suc i) lt = mark_self bs i (omega arith)

module _ (rows : List (List ℕ)) (in_range : InRange (length rows) rows) where
  -- Marked nodes are reached, and so are those on the stack; what a marked node leads to is marked
  -- or on the stack.
  pub record IsWalk (m : List Bool) (pending : List ℕ) : Type 0 where
    pub same_length : length m ≡ length rows
    pub sound : (i : ℕ) → is_marked m i ≡ true → Reaches rows i
    pub pending_reached : All (Reaches rows) pending
    pub pending_small : All (λ j. j < length rows) pending
    pub from_root : (is_marked m 0 ≡ true) ⊎ In 0 pending
    pub closed :
        (i j : ℕ)
        → is_marked m i ≡ true
        → In j (row_at rows i)
        → (is_marked m j ≡ true) ⊎ In j pending

  popped :
      (m : List Bool) (i j : ℕ) (pending : List ℕ)
      → is_marked m i ≡ true
      → (is_marked m j ≡ true) ⊎ In j (i ∷ pending)
      → (is_marked m j ≡ true) ⊎ In j pending
  popped m i j pending h (inl x) = inl x
  popped m i j pending h (inr (inl e)) = inl (subst (λ k. is_marked m k ≡ true) e h)
  popped m i j pending h (inr (inr x)) = inr x

  seen-IsWalk :
      (m : List Bool) (i : ℕ) (pending : List ℕ)
      → is_marked m i ≡ true
      → IsWalk m (i ∷ pending)
      → IsWalk m pending
  seen-IsWalk m i pending h w = record {
    same_length = w.same_length;
    sound = w.sound;
    pending_reached = w.pending_reached.1;
    pending_small = w.pending_small.1;
    from_root = popped m i 0 pending h w.from_root;
    closed = λ k j mk e. popped m i j pending h (w.closed k j mk e);
  }

  -- Once `i` is marked and its row pushed.
  moved :
      (m : List Bool) (i j : ℕ) (pending : List ℕ)
      → i < length m
      → (is_marked m j ≡ true) ⊎ In j (i ∷ pending)
      → (is_marked (mark m i) j ≡ true) ⊎ In j (push_all (row_at rows i) pending)
  moved m i j pending lt (inl x) = inl (mark_keeps m i j x)
  moved m i j pending lt (inr (inl e)) =
      inl (subst (λ k. is_marked (mark m i) k ≡ true) e (mark_self m i lt))
  moved m i j pending lt (inr (inr x)) = inr (In-push_all_below j (row_at rows i) pending x)

  new-IsWalk :
      (m : List Bool) (i : ℕ) (pending : List ℕ)
      → IsWalk m (i ∷ pending)
      → IsWalk (mark m i) (push_all (row_at rows i) pending)
  new-IsWalk m i pending w =
      let row = row_at rows i in
      let here = w.pending_reached.0 in
      let lt : i < length m = let s = w.pending_small.0 in let l = w.same_length in omega arith in
      record {
        same_length = let l = w.same_length in omega (arith, length-mark m i);
        sound = λ k h. elim (mark_cases m i k h) [
          | inl e ↦ subst (Reaches rows) (sym e) here
          | inr x ↦ w.sound k x
        ];
        pending_reached =
            push_all-All _ row pending (All-In row (λ j h. edge here h)) w.pending_reached.1;
        pending_small =
            push_all-All _ row pending (row_at-All (length rows) rows i in_range) w.pending_small.1;
        from_root = moved m i 0 pending lt w.from_root;
        closed = λ k j mk e. elim (mark_cases m i k mk) [
          | inl same ↦ inr (In-push_all j row pending (subst (λ z. In j (row_at rows z)) same e))
          | inr x ↦ moved m i j pending lt (w.closed k j x e)
        ];
      }

  pub reach-IsWalk :
      (fuel : ℕ) (m : List Bool) (pending : List ℕ)
      → weight rows m + length pending ≤ fuel
      → IsWalk m pending
      → (end : List Bool) × (reach fuel rows m pending ≡ some end) × IsWalk end []
  unfolding reach
  reach-IsWalk zero m [] le w = (m, refl, w)
  reach-IsWalk (suc fuel) m [] le w = (m, refl, w)
  reach-IsWalk zero m (i ∷ pending) le w = absurd (omega arith)
  reach-IsWalk (suc fuel) m (i ∷ pending) le w = elim (Bool-cases (is_marked m i)) [
    | inl h ↦ rw h (reach-IsWalk fuel m pending (omega arith) (seen-IsWalk m i pending h w))
    | inr h ↦
        let lighter = weight-mark rows m i w.same_length h in
        let longer = length-push_all (row_at rows i) pending in
        rw h (
          reach-IsWalk fuel (mark m i) (push_all (row_at rows i) pending) (omega arith)
            (new-IsWalk m i pending w))
  ]

  -- All that can be reached is marked once the stack is empty.
  pub marked-Reaches :
      (m : List Bool) → IsWalk m [] → (i : ℕ) → Reaches rows i → is_marked m i ≡ true
  marked-Reaches m w i root = elim w.from_root [ inl h ↦ h | inr h ↦ absurd h ]
  marked-Reaches m w i (edge {i = k} r e) = elim (w.closed k i (marked-Reaches m w k r) e) [
    | inl h ↦ h
    | inr h ↦ absurd h
  ]
