-- ===== src/Harness/Kinds.antt =====
-- What a C++ job that ValidateJob (internal/judge/validate.go) accepts is like: a plain job, or one
-- with metadata that have passed the checks of their mode.
use yex_judge.Common.{
  ◌≡◌, refl, ap, sym, ◌∙◌, true, false, Bool-cases, Option-cases, none, some, inl, inr, codes,
  text_eq, text_eq_iff, ok, Result-cases, arith,
}
use yex_judge.Types.{Job, FunctionSpec, ClassSpec}
use yex_judge.Types.Mode.{is_some, execution_mode, mode_function, mode_class}
use yex_judge.FunctionJob.Cases.{validate_function}
use yex_judge.Job.{
  validate_job, validate_mode, validate_details, validate_function_job, validate_class_job,
}
use yex_judge.Job.Accepted.{validate_job-Parts}
use yex_judge.Harness.{Harness, function_error, program_error, metadata}

module _ (h : Harness) (job : Job) where
  -- A job that has both kinds of metadata does not pass the checks of its mode.
  one_kind :
      validate_mode (metadata h) job ≡ ok tt
      → is_some job.class ≡ true
      → is_some job.function ≡ false
  unfolding validate_mode
  one_kind m c = elim (Bool-cases (is_some job.function)) [
    | inr e ↦ e
    | inl e ↦
        let in_function : text_eq (execution_mode job) mode_function ≡ true = ground arith in
        let in_class : text_eq (execution_mode job) mode_class ≡ true = ground arith in
        let same : mode_function ≡ mode_class =
          sym ((text_eq_iff (execution_mode job) mode_function).0 in_function)
          ∙ (text_eq_iff (execution_mode job) mode_class).0 in_class in
        cc
  ]

  function_validated :
      (f : FunctionSpec)
      → job.function ≡ some f
      → function_error h job ≡ none
      → validate_function h.floats h.unicode h.registry f job.test_cases ≡ ok tt
  unfolding function_error
  function_validated f e k =
      elim (Result-cases (validate_function h.floats h.unicode h.registry f job.test_cases)) [
        | inr (x, y) ↦ absurd (ground arith)
        | inl (_, y) ↦ y
      ]

  not_python :
      job.language ≡ codes "cpp"
      → (text_eq job.language (codes "cpp") ≡ true)
        × (text_eq job.language (codes "python") ≡ false)
  unfolding text_eq
  not_python l = (rw l refl, rw l refl)

  details_function :
      (f : FunctionSpec)
      → job.function ≡ some f
      → job.language ≡ codes "cpp"
      → validate_details (metadata h) job ≡ ok tt
      → function_error h job ≡ none
  unfolding validate_details validate_function_job metadata
  details_function f e l d =
      let (cpp, python) = not_python l in
      elim (Option-cases (function_error h job)) [ inl x ↦ x | inr (t, x) ↦ absurd (ground arith) ]

  details_class :
      job.function ≡ none
      → is_some job.class ≡ true
      → job.language ≡ codes "cpp"
      → validate_details (metadata h) job ≡ ok tt
      → program_error h job ≡ none
  unfolding validate_details validate_class_job metadata
  details_class e c l d =
      let (cpp, python) = not_python l in
      elim (Option-cases (program_error h job)) [ inl x ↦ x | inr (t, x) ↦ absurd (ground arith) ]

  in_mode_function :
      (f : FunctionSpec)
      → job.function ≡ some f
      → validate_mode (metadata h) job ≡ ok tt
      → execution_mode job ≡ mode_function
  unfolding validate_mode
  in_mode_function f e m = (text_eq_iff (execution_mode job) mode_function).0 (ground arith)

  in_mode_class :
      (k : ClassSpec)
      → job.class ≡ some k
      → validate_mode (metadata h) job ≡ ok tt
      → execution_mode job ≡ mode_class
  unfolding validate_mode
  in_mode_class k e m = (text_eq_iff (execution_mode job) mode_class).0 (ground arith)

  pub data IsKind : Type 0 where
    plain : job.function ≡ none → job.class ≡ none → IsKind
    with_function :
        (f : FunctionSpec)
        → job.function ≡ some f
        → job.class ≡ none
        → execution_mode job ≡ mode_function
        → validate_function h.floats h.unicode h.registry f job.test_cases ≡ ok tt
        → IsKind
    with_class :
        (k : ClassSpec)
        → job.class ≡ some k
        → execution_mode job ≡ mode_class
        → program_error h job ≡ none
        → IsKind

  pub kind_of : validate_job (metadata h) job ≡ ok tt → job.language ≡ codes "cpp" → IsKind
  kind_of v l =
      let p = validate_job-Parts (metadata h) job v in
      elim (Option-cases job.function) [
        | inr (f, e) ↦ elim (Option-cases job.class) [
          | inl c ↦
              with_function f e c (in_mode_function f e p.mode_ok)
                (function_validated f e (details_function f e l p.details_ok))
          | inr (k, c) ↦ let x = one_kind p.mode_ok (ap is_some c) in absurd (ground arith)
        ]
        | inl e ↦ elim (Option-cases job.class) [
          | inl c ↦ plain e c
          | inr (k, c) ↦
              with_class k c (in_mode_class k c p.mode_ok)
                (details_class e (ap is_some c) l p.details_ok)
        ]
      ]
