-- ===== src/Metrics/Tests.antt =====
-- A histogram of four durations.
use yex_judge.Common.{◌≡◌, refl, List, [], ◌∷◌, ℤ, pos, negsuc}
use yex_judge.Metrics.{leb_ℤ, default_buckets, zeros, init, bucket_of, increment, count_in, observe}
use yex_judge.Metrics.Buckets.{observed, Counts, observed-Counts}

abbrev durations : List ℤ
durations = pos 10_000_000 ∷ pos 20_000_000_000 ∷ negsuc 4 ∷ pos 60_000_000 ∷ []

durations_counted : (observed durations).counts ≡ 2 ∷ 0 ∷ 1 ∷ 0 ∷ 0 ∷ 0 ∷ 0 ∷ 0 ∷ 1 ∷ []
unfolding observed observe init default_buckets zeros count_in bucket_of increment leb_ℤ
durations_counted = refl

observed-Counts_example : Counts durations (observed durations)
observed-Counts_example = observed-Counts durations
