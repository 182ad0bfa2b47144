-- ===== src/Job/Accepted.antt =====
-- What a job that `ValidateJob` (internal/judge/validate.go) lets through is like.
use yex_judge.Common.{
  ℕ, ◌+◌, ◌≤◌, ◌<◌, pos, negsuc, ℤ, is_nonpos, ltb_ℤ, false, none, some, List, [], ◌∷◌, Text,
  text_eq, ok, length, All, ◌≡◌, refl, arith, Bool-cases, Option-cases, text_eq_iff, Result-cases,
  inl, inr, ◌⊎◌,
}
use yex_judge.Types.{Job, TestCase}
use yex_judge.Types.Mode.{
  mode_stdin, mode_function, mode_class, execution_mode, ExecutionContract, validate_contract,
}
use yex_judge.Job.{
  Metadata, validate_cases, validate_details, validate_mode, validate_bounds, validate_job,
  max_time_limit_ms, max_memory_limit_mb, max_test_cases, max_text_bytes,
}
use yex_judge.Languages.{Spec, get_spec, default_registry}

pub record IsWithinBounds (job : Job) : Type 0 where
  pub time : (n : ℕ) × (job.limits.time_limit_ms ≡ pos n) × (0 < n) × (n ≤ max_time_limit_ms)
  pub memory : (n : ℕ) × (job.limits.memory_limit_mb ≡ pos n) × (0 < n) × (n ≤ max_memory_limit_mb)
  pub has_cases : 0 < length job.test_cases
  pub few_cases : length job.test_cases ≤ max_test_cases
  pub has_source : 0 < length job.source_code
  pub small_source : length job.source_code ≤ max_text_bytes

-- The contract that a job's mode and metadata make.
abbrev pub contract_of : Job → ExecutionContract
contract_of job = record { mode = execution_mode job; function = job.function; class = job.class }

in_range :
    (z : ℤ) (m : ℕ)
    → is_nonpos z ≡ false
    → ltb_ℤ (pos m) z ≡ false
    → (n : ℕ) × (z ≡ pos n) × (0 < n) × (n ≤ m)
in_range (pos n) m h k = (n, refl, ground arith, ground arith)
in_range (negsuc n) m h k = absurd (ground arith)

not_empty : (s : Text) → text_eq s [] ≡ false → 0 < length s
unfolding text_eq
not_empty [] h = absurd (ground arith)
not_empty (c ∷ s) h = omega arith

module _ (metadata : Metadata) where
  pub validate_mode-contract :
      (job : Job) → validate_mode metadata job ≡ ok tt → validate_contract (contract_of job) ≡ ok tt
  unfolding validate_mode validate_contract
  validate_mode-contract job h = ground arith

  validate_bounds-IsWithinBounds :
      (job : Job) → validate_bounds metadata job ≡ ok tt → IsWithinBounds job
  unfolding validate_bounds
  validate_bounds-IsWithinBounds job h = record {
    time = in_range job.limits.time_limit_ms max_time_limit_ms (ground arith) (ground arith);
    memory = in_range job.limits.memory_limit_mb max_memory_limit_mb (ground arith) (ground arith);
    has_cases = ground arith;
    few_cases = ground arith;
    has_source = not_empty job.source_code (ground arith);
    small_source = ground arith;
  }

  pub record Parts (job : Job) : Type 0 where
    pub language : (spec : Spec) × (get_spec default_registry job.language ≡ some spec)
    pub mode_ok : validate_mode metadata job ≡ ok tt
    pub bounds_ok : validate_bounds metadata job ≡ ok tt
    pub details_ok : validate_details metadata job ≡ ok tt

  pub validate_job-Parts : (job : Job) → validate_job metadata job ≡ ok tt → Parts job
  unfolding validate_job
  validate_job-Parts job h = elim (Option-cases (get_spec default_registry job.language)) [
    | inl e ↦ absurd (ground arith)
    | inr l ↦ elim (Result-cases (validate_mode metadata job)) [
      | inr (e, q) ↦ absurd (ground arith)
      | inl (x, q) ↦ elim (Result-cases (validate_bounds metadata job)) [
        | inr (e, q2) ↦ absurd (ground arith)
        | inl (y, q2) ↦ record {
          language = l;
          mode_ok = q;
          bounds_ok = q2;
          details_ok = ground arith;
        }
      ]
    ]
  ]

  three_modes :
      (job : Job)
      → validate_mode metadata job ≡ ok tt
      → (execution_mode job ≡ mode_stdin)
        ⊎ ((execution_mode job ≡ mode_function) ⊎ (execution_mode job ≡ mode_class))
  unfolding validate_mode
  three_modes job h = elim (Bool-cases (text_eq (execution_mode job) mode_stdin)) [
    | inl e ↦ inl ((text_eq_iff _ _).0 e)
    | inr e ↦ elim (Bool-cases (text_eq (execution_mode job) mode_function)) [
      | inl e2 ↦ inr (inl ((text_eq_iff _ _).0 e2))
      | inr e2 ↦ elim (Bool-cases (text_eq (execution_mode job) mode_class)) [
        | inl e3 ↦ inr (inr ((text_eq_iff _ _).0 e3))
        | inr e3 ↦ absurd (ground arith)
      ]
    ]
  ]

  validate_cases-sizes :
      (i : ℕ) (tcs : List TestCase)
      → validate_cases i tcs ≡ ok tt
      → All
          (λ tc. (length tc.input ≤ max_text_bytes) × (length tc.expected_output ≤ max_text_bytes))
          tcs
  unfolding validate_cases
  validate_cases-sizes i [] h = tt
  validate_cases-sizes i (tc ∷ tcs) h =
      ((ground arith, ground arith), validate_cases-sizes (i + 1) tcs (ground arith))

  -- A job that passes validation names a registered language, meets the execution contract of its
  -- mode, which is stdin, function or class, and is within the bounds on its limits, its source and
  -- its number of test cases.
  pub validate_job-IsWithinBounds :
      (job : Job)
      → validate_job metadata job ≡ ok tt
      → ((spec : Spec) × (get_spec default_registry job.language ≡ some spec))
        × (validate_contract (contract_of job) ≡ ok tt)
        × ((execution_mode job ≡ mode_stdin)
            ⊎ ((execution_mode job ≡ mode_function) ⊎ (execution_mode job ≡ mode_class)))
        × IsWithinBounds job
  validate_job-IsWithinBounds job h =
      let p = validate_job-Parts job h in
      (
        p.language,
        validate_mode-contract job p.mode_ok,
        three_modes job p.mode_ok,
        validate_bounds-IsWithinBounds job p.bounds_ok,
      )

  -- In a job without function and class metadata that passes validation, every input and every
  -- expected output is at most 100000 bytes.
  pub validate_job-sizes :
      (job : Job)
      → validate_job metadata job ≡ ok tt
      → job.function ≡ none
      → job.class ≡ none
      → All
          (λ tc. (length tc.input ≤ max_text_bytes) × (length tc.expected_output ≤ max_text_bytes))
          job.test_cases
  unfolding validate_details
  validate_job-sizes job h f c =
      let p = validate_job-Parts job h in
      let d = p.details_ok in validate_cases-sizes 0 job.test_cases (ground arith)
