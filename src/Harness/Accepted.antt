-- ===== src/Harness/Accepted.antt =====
-- C++ jobs that ValidateJob (internal/judge/validate.go) accepts can be judged: the expected output
-- of each case is there (testCaseExpectedOutput, internal/judge/testcases.go).
use yex_judge.Common.{◌≡◌, Option-cases, none, some, List, [], ◌∷◌, inl, inr, codes, ok, All, arith}
use yex_judge.Types.{Job, TestCase, FunctionSpec, ClassSpec}
use yex_judge.Adapters.Loops.{Succeeds}
use yex_judge.FunctionJob.Cases.{validate_function}
use yex_judge.FunctionJob.Output.{function_output}
use yex_judge.FunctionJob.Judged.{validate_function-output}
use yex_judge.ClassJob.{validate_class}
use yex_judge.ClassJob.Output.{class_output}
use yex_judge.ClassJob.Judged.{validate_class-output}
use yex_judge.Job.{validate_job}
use yex_judge.Verdict.{expected_output}
use yex_judge.Harness.Kinds.{plain, with_function, with_class, kind_of}
use yex_judge.Harness.Generators.{class_validated}
use yex_judge.Harness.{Harness, metadata, expected_of, canonical}

All-map {ℓ κ μ} :
    {A : Type ℓ} (P : A → Type κ) (Q : A → Type μ) (xs : List A)
    → ((a : A) → P a → Q a)
    → All P xs
    → All Q xs
All-map P Q [] f a = tt
All-map P Q (x ∷ xs) f (h, a) = (f x h, All-map P Q xs f a)

module _ (h : Harness) (job : Job) where
  function_case :
      (f : FunctionSpec) (tc : TestCase)
      → job.function ≡ some f
      → job.class ≡ none
      → Succeeds (function_output h.floats h.unicode h.registry f tc)
      → Succeeds (expected_output (canonical h) job tc)
  unfolding expected_output expected_of canonical
  function_case f tc e c (t, s) = (t, ground arith)

  class_case :
      (k : ClassSpec) (tc : TestCase)
      → job.class ≡ some k
      → Succeeds (class_output h.unicode h.registry h.floats k tc)
      → Succeeds (expected_output (canonical h) job tc)
  unfolding expected_output expected_of canonical
  class_case k tc c (t, s) = elim (Option-cases job.function) [
    | inl e ↦ (t, ground arith)
    | inr (f, e) ↦ (t, ground arith)
  ]

  plain_case :
      (tc : TestCase)
      → job.function ≡ none
      → job.class ≡ none
      → Succeeds (expected_output (canonical h) job tc)
  unfolding expected_output
  plain_case tc e c = (tc.expected_output, ground arith)

  abbrev Judgeable : TestCase → Type 0
  Judgeable tc = Succeeds (expected_output (canonical h) job tc)

  function_outputs :
      (f : FunctionSpec)
      → job.function ≡ some f
      → job.class ≡ none
      → validate_function h.floats h.unicode h.registry f job.test_cases ≡ ok tt
      → All Judgeable job.test_cases
  function_outputs f e c y =
      All-map _ Judgeable job.test_cases (λ tc s. function_case f tc e c s)
        (validate_function-output h.floats h.unicode h.registry f job.test_cases y)

  class_outputs :
      (k : ClassSpec)
      → job.class ≡ some k
      → validate_class h.unicode h.registry h.floats job.source_code k job.test_cases ≡ ok tt
      → All Judgeable job.test_cases
  class_outputs k c y =
      All-map _ Judgeable job.test_cases (λ tc s. class_case k tc c s)
        (validate_class-output h.unicode h.registry h.floats job.source_code k job.test_cases y)

  plain_outputs : (tcs : List TestCase) → job.function ≡ none → job.class ≡ none → All Judgeable tcs
  plain_outputs [] e c = tt
  plain_outputs (tc ∷ tcs) e c = (plain_case tc e c, plain_outputs tcs e c)

  -- Every case of a C++ job that passes validation has an expected output, in each mode:
  -- testCaseExpectedOutput meets no error in the metadata or in an expected value.
  pub validate_job-judgeable :
      validate_job (metadata h) job ≡ ok tt
      → job.language ≡ codes "cpp"
      → All (λ tc. Succeeds (expected_output (canonical h) job tc)) job.test_cases
  validate_job-judgeable v l = elim (kind_of h job v l) [
    | plain e c ↦ plain_outputs job.test_cases e c
    | with_function f e c m y ↦ function_outputs f e c y
    | with_class k c m x ↦ class_outputs k c (class_validated h job k l m c x)
  ]
