-- ===== src/Metrics/Buckets.antt =====
-- The bucket counts of a histogram against the list of values that it has observed
-- (internal/observability/metrics.go).
use yex_judge.Common.{
  ℕ, suc, ◌+◌, ◌≡◌, refl, true, false, Option-cases, Bool-cases, inl, inr, List, [], ◌∷◌, length,
  if◌then◌else◌, ℤ, pos, negsuc, All, arith, subst, sym,
}
use yex_judge.Metrics.{
  Histogram, leb_ℤ, default_buckets, zeros, init, bucket_of, increment, count_in, observe,
}

-- The number of values that are at most a bound.
unfoldable pub within : ℤ → List ℤ → ℕ
within b [] = 0
within b (v ∷ vs) = if leb_ℤ v b then suc (within b vs) else within b vs

-- The histogram after some values, the latest of them first.
unfoldable pub observed : List ℤ → Histogram
observed [] = init
observed (v ∷ vs) = observe v (observed vs)

-- The counts up to a bucket add up to `f` of its bound, and all of them, one more than there are
-- buckets, to `n`.
abbrev pub IsCumulative : (ℤ → ℕ) → ℕ → ℕ → List ℤ → List ℕ → Type 0
IsCumulative f n s [] [] = ⊥
IsCumulative f n s [] (c ∷ []) = s + c ≡ n
IsCumulative f n s [] (c ∷ (d ∷ ds)) = ⊥
IsCumulative f n s (b ∷ bs) [] = ⊥
IsCumulative f n s (b ∷ bs) (c ∷ cs) = (s + c ≡ f b) × IsCumulative f n (s + c) bs cs

abbrev IsSorted : List ℤ → Type 0
IsSorted [] = Unit {0}
IsSorted (b ∷ bs) = All (λ x. leb_ℤ b x ≡ true) bs × IsSorted bs

leb_ℤ-trans : (a b c : ℤ) → leb_ℤ a b ≡ true → leb_ℤ b c ≡ true → leb_ℤ a c ≡ true
unfolding leb_ℤ
leb_ℤ-trans (pos a) (pos b) (pos c) h k = ground arith
leb_ℤ-trans (pos a) (pos b) (negsuc c) h k = ground arith
leb_ℤ-trans (pos a) (negsuc b) (pos c) h k = ground arith
leb_ℤ-trans (pos a) (negsuc b) (negsuc c) h k = ground arith
leb_ℤ-trans (negsuc a) (pos b) (pos c) h k = ground arith
leb_ℤ-trans (negsuc a) (pos b) (negsuc c) h k = ground arith
leb_ℤ-trans (negsuc a) (negsuc b) (pos c) h k = ground arith
leb_ℤ-trans (negsuc a) (negsuc b) (negsuc c) h k = ground arith

module _ (v : ℤ) (vs : List ℤ) where
  abbrev Before : ℕ → List ℤ → List ℕ → Type 0
  Before = IsCumulative (λ b. within b vs) (length vs)

  abbrev After : ℕ → List ℤ → List ℕ → Type 0
  After = IsCumulative (λ b. within b (v ∷ vs)) (suc (length vs))

  -- Above the bucket of the value every sum is one more.
  shifted :
      (s : ℕ) (bs : List ℤ) (cs : List ℕ)
      → All (λ x. leb_ℤ v x ≡ true) bs
      → Before s bs cs
      → After (suc s) bs cs
  unfolding within
  shifted s [] [] a h = h
  shifted s [] (c ∷ []) a h = omega arith
  shifted s [] (c ∷ (d ∷ ds)) a h = h
  shifted s (b ∷ bs) [] a h = h
  shifted s (b ∷ bs) (c ∷ cs) (le, a) (e, h) =
      let moved : suc (s + c) ≡ suc s + c = omega arith in
      (ground arith, subst (λ k. After k bs cs) moved (shifted (s + c) bs cs a h))

  weaker :
      (b : ℤ) (bs : List ℤ)
      → leb_ℤ v b ≡ true
      → All (λ x. leb_ℤ b x ≡ true) bs
      → All (λ x. leb_ℤ v x ≡ true) bs
  weaker b [] le a = tt
  weaker b (x ∷ xs) le (y, a) = (leb_ℤ-trans v b x le y, weaker b xs le a)

  count_in-here :
      (b : ℤ) (bs : List ℤ) (c : ℕ) (cs : List ℕ)
      → leb_ℤ v b ≡ true
      → suc c ∷ cs ≡ count_in v (b ∷ bs) (c ∷ cs)
  unfolding count_in bucket_of increment
  count_in-here b bs c cs le = ground arith

  count_in-later :
      (b : ℤ) (bs : List ℤ) (c d : ℕ) (ds : List ℕ)
      → leb_ℤ v b ≡ false
      → c ∷ count_in v bs (d ∷ ds) ≡ count_in v (b ∷ bs) (c ∷ (d ∷ ds))
  unfolding count_in bucket_of increment
  count_in-later b bs c d ds le = elim (Option-cases (bucket_of v bs)) [
    | inl e ↦ ground arith
    | inr (i, e) ↦ ground arith
  ]

  within_here :
      (s : ℕ) (b : ℤ) (c : ℕ)
      → s + c ≡ within b vs
      → leb_ℤ v b ≡ true
      → s + suc c ≡ within b (v ∷ vs)
  unfolding within
  within_here s b c e le = ground arith

  within_later :
      (s : ℕ) (b : ℤ) (c : ℕ) → s + c ≡ within b vs → leb_ℤ v b ≡ false → s + c ≡ within b (v ∷ vs)
  unfolding within
  within_later s b c e gt = ground arith

  -- There is a count beyond the last bucket.
  no_counts : (s : ℕ) (bs : List ℤ) → Before s bs [] → ⊥
  no_counts s [] h = h
  no_counts s (b ∷ bs) h = h

  count_in-IsCumulative :
      (s : ℕ) (bs : List ℤ) (cs : List ℕ)
      → IsSorted bs
      → Before s bs cs
      → After s bs (count_in v bs cs)
  unfolding count_in bucket_of increment
  count_in-IsCumulative s [] [] o h = absurd h
  count_in-IsCumulative s [] (c ∷ []) o h = omega arith
  count_in-IsCumulative s [] (c ∷ (d ∷ ds)) o h = absurd h
  count_in-IsCumulative s (b ∷ bs) [] o h = absurd h
  count_in-IsCumulative s (b ∷ bs) (c ∷ []) (o, os) (e, h) = absurd (no_counts (s + c) bs h)
  count_in-IsCumulative s (b ∷ bs) (c ∷ (d ∷ ds)) (o, os) (e, h) = elim (Bool-cases (leb_ℤ v b)) [
    | inl le ↦
        let moved : suc (s + c) ≡ s + suc c = omega arith in
        subst (After s (b ∷ bs)) (count_in-here b bs c (d ∷ ds) le) (
          within_here s b c e le,
          subst (λ k. After k bs (d ∷ ds)) moved (shifted (s + c) bs (d ∷ ds) (weaker b bs le o) h),
        )
    | inr gt ↦
        subst (After s (b ∷ bs)) (count_in-later b bs c d ds gt)
          (within_later s b c e gt, count_in-IsCumulative (s + c) bs (d ∷ ds) os h)
  ]

default_buckets-IsSorted : IsSorted default_buckets
unfolding default_buckets leb_ℤ
default_buckets-IsSorted = (
  (refl, (refl, (refl, (refl, (refl, (refl, (refl, tt))))))),
  (
    (refl, (refl, (refl, (refl, (refl, (refl, tt)))))),
    (
      (refl, (refl, (refl, (refl, (refl, tt))))),
      (
        (refl, (refl, (refl, (refl, tt)))),
        ((refl, (refl, (refl, tt))), ((refl, (refl, tt)), ((refl, tt), (tt, tt)))),
      ),
    ),
  ),
)

-- The histogram keeps its bounds, has counted the values, and its counts are cumulative.
pub record Counts (vs : List ℤ) (h : Histogram) : Type 0 where
  pub same_buckets : h.buckets ≡ default_buckets
  pub all_values : h.count ≡ length vs
  pub cumulative : IsCumulative (λ b. within b vs) (length vs) 0 default_buckets h.counts

-- After any values, whatever their order and sign, the count is their number, the counts of the
-- buckets up to a bound add up to the number of values that are at most this bound, and all
-- counts, the one beyond the last bound included, add up to the number of values.
pub observed-Counts : (vs : List ℤ) → Counts vs (observed vs)
unfolding observed observe init default_buckets zeros within
observed-Counts [] = record {
  same_buckets = refl;
  all_values = refl;
  cumulative = (refl, (refl, (refl, (refl, (refl, (refl, (refl, (refl, refl))))))));
}
observed-Counts (v ∷ vs) =
    let i = observed-Counts vs in
    record {
      same_buckets = i.same_buckets;
      all_values = let n = i.all_values in omega arith;
      cumulative =
          subst
            (λ bs.
              IsCumulative (λ b. within b (v ∷ vs)) (suc (length vs)) 0 default_buckets
                (count_in v bs (observed vs).counts))
            (sym i.same_buckets)
            (count_in-IsCumulative v vs 0 default_buckets (observed vs).counts
              default_buckets-IsSorted i.cumulative);
    }
