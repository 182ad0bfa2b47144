-- ===== src/Metrics.antt =====
-- The histogram of internal/observability/metrics.go. Values and bounds are durations, signed
-- nanoseconds. Counters are int64 in Go and natural numbers here: the two agree below 2^63
-- observations. The sum of the values, which only a float in a snapshot reads, is left out.
pub mod Buckets
pub mod Tests
use yex_judge.Common.{
  ℕ, zero, suc, ◌+◌, ◌-◌, Bool, not, Option, none, some, List, [], ◌∷◌, length, if◌then◌else◌, ℤ,
  pos, ltb_ℤ,
}

pub record Histogram : Type 0 where
  pub count : ℕ
  pub buckets : List ℤ
  pub counts : List ℕ

-- `value <= bucket`.
unfoldable pub leb_ℤ : ℤ → ℤ → Bool
leb_ℤ a b = not (ltb_ℤ b a)

unfoldable pub default_buckets : List ℤ
default_buckets =
    pos 10_000_000
    ∷ pos 50_000_000
    ∷ pos 100_000_000
    ∷ pos 250_000_000
    ∷ pos 500_000_000
    ∷ pos 1_000_000_000
    ∷ pos 5_000_000_000
    ∷ pos 10_000_000_000
    ∷ []

-- `make([]int64, n)`.
unfoldable pub zeros : ℕ → List ℕ
zeros zero = []
zeros (suc n) = 0 ∷ zeros n

unfoldable pub init : Histogram
unfolding default_buckets zeros
init = record { count = 0; buckets = default_buckets; counts = zeros (length default_buckets + 1) }

-- The loop over the buckets: the index of the first one that the value is not above.
unfoldable pub bucket_of : ℤ → List ℤ → Option ℕ
bucket_of v [] = none
bucket_of v (b ∷ bs) =
    if leb_ℤ v b then some 0 else elim (bucket_of v bs) [ none ↦ none | some i ↦ some (suc i) ]

-- `counts[i]++`; the callers' indices are in range.
unfoldable pub increment : ℕ → List ℕ → List ℕ
increment i [] = []
increment zero (c ∷ cs) = suc c ∷ cs
increment (suc i) (c ∷ cs) = c ∷ increment i cs

unfoldable pub count_in : ℤ → List ℤ → List ℕ → List ℕ
count_in v bs cs = elim (bucket_of v bs) [
  | none ↦ increment (length cs - 1) cs
  | some i ↦ increment i cs
]

unfoldable pub observe : ℤ → Histogram → Histogram
observe v h = record h { count = h.count + 1; counts = count_in v h.buckets h.counts }
