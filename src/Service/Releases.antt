-- ===== src/Service/Releases.antt =====
-- The sandbox of a submission in `ProcessSubmission` (internal/judge/service.go).
use yex_judge.Common.{
  ℕ, ◌≤◌, pos, eq_ℤ, ◌||◌, List, [], ◌∷◌, map, Text, codes, Result, ok, err, length, ◌≡◌, refl, sym,
  subst, inl, inr, arith, Bool-cases, Option-cases, Result-cases,
}
use yex_judge.Types.{
  JudgeResult, Submission, running, validation_error, output_limit_exceeded, compilation_error,
}
use yex_judge.Languages.{Spec, get_spec}
use yex_judge.Job.{validate_job}
use yex_judge.Runner.{RunResult}
use yex_judge.Store.{Table}
use yex_judge.Store.Queue.{update}
use yex_judge.Verdict.{Sandbox, run_test_cases}
use yex_judge.Verdict.Containers.{run_test_cases-container}
use yex_judge.Service.{
  World, Setup, Processed, unjudged, last_update, finish, infrastructure_failure, conclude,
  judge_in, acquire_and_judge, after_compile, compile_and_judge, process_running,
  process_submission, forget_error,
}

-- At most one sandbox was acquired, and what was released are the same containers.
pub record IsBalanced (p : Processed) : Type 0 where
  pub one : length p.acquired ≤ 1
  pub balanced : map (λ s. s.container_name) p.acquired ≡ map (λ s. s.container_name) p.released

module _ (setup : Setup) (w : World) where
  conclude-released :
      (sub : Submission) (x : Result Text JudgeResult) (before : List Submission)
      (released : List Sandbox) (t : Table)
      → (conclude setup w sub x before released t).released ≡ released
  unfolding conclude finish infrastructure_failure last_update
  conclude-released sub (err e) before released t = refl
  conclude-released sub (ok r) before released t = ground arith

  finish-IsBalanced :
      (k : ℕ) (sub : Submission) (r : JudgeResult) (before : List Submission) (t : Table)
      → IsBalanced (finish setup w k sub r before [] t)
  unfolding finish last_update
  finish-IsBalanced k sub r before t = record { one = omega arith; balanced = refl }

  infrastructure_failure-IsBalanced :
      (k : ℕ) (sub : Submission) (before : List Submission) (t : Table)
      → IsBalanced (infrastructure_failure setup w k sub before [] t)
  unfolding infrastructure_failure last_update
  infrastructure_failure-IsBalanced k sub before t = record { one = omega arith; balanced = refl }

  judge_in-released :
      (sub : Submission) (before : List Submission) (s : Sandbox) (t : Table)
      → map (λ s'. s'.container_name) (judge_in setup w sub before s t).released
        ≡ s.container_name ∷ []
  unfolding judge_in infrastructure_failure last_update
  judge_in-released sub before s t = elim (Option-cases w.prepare_error) [
    | inr (e, q) ↦ ground arith
    | inl q ↦
        let r = run_test_cases setup.canonical sub.job w.supervisor w.cases s in
        let here = conclude-released sub (forget_error r.0) before (r.1 ∷ []) t in
        let same = run_test_cases-container setup.canonical sub.job w.supervisor w.cases s in
        ground arith
  ]

  acquire_and_judge-IsBalanced :
      (sub : Submission) (before : List Submission) (t : Table)
      → IsBalanced (acquire_and_judge setup w sub before t)
  unfolding acquire_and_judge
  acquire_and_judge-IsBalanced sub before t = elim (Result-cases w.acquire) [
    | inr (e, q) ↦
        let same : acquire_and_judge setup w sub before t
            ≡ infrastructure_failure setup w 1 sub before [] t =
          ground arith in
        subst IsBalanced (sym same) (infrastructure_failure-IsBalanced 1 sub before t)
    | inl (s, q) ↦
        let same : acquire_and_judge setup w sub before t
            ≡ record (judge_in setup w sub before s t) { acquired = s ∷ [] } =
          ground arith in
        subst IsBalanced (sym same)
          (record { one = omega arith; balanced = sym (judge_in-released sub before s t) })
  ]

  after_compile-IsBalanced :
      (sub : Submission) (r : RunResult) (before : List Submission) (t : Table)
      → IsBalanced (after_compile setup w sub r before t)
  unfolding after_compile
  after_compile-IsBalanced sub r before t = elim (Bool-cases (w.compile_canceled || r.timed_out)) [
    | inl q ↦ subst IsBalanced (ground arith) (infrastructure_failure-IsBalanced 1 sub before t)
    | inr q ↦ elim (Bool-cases r.output_limit_exceeded) [
      | inl q2 ↦ subst IsBalanced (ground arith) (
          finish-IsBalanced 1 sub
            (unjudged sub output_limit_exceeded
              (codes "compiler output exceeded the allowed limit"))
            before t)
      | inr q2 ↦ elim (Bool-cases (eq_ℤ r.exit_code (pos 125))) [
        | inl q3 ↦
            subst IsBalanced (ground arith) (infrastructure_failure-IsBalanced 1 sub before t)
        | inr q3 ↦ elim (Bool-cases (eq_ℤ r.exit_code (pos 0))) [
          | inl q4 ↦ subst IsBalanced (ground arith) (acquire_and_judge-IsBalanced sub before t)
          | inr q4 ↦
              subst IsBalanced (ground arith)
                (finish-IsBalanced 1 sub (unjudged sub compilation_error r.stderr) before t)
        ]
      ]
    ]
  ]

  compile_and_judge-IsBalanced :
      (sub : Submission) (spec : Spec) (before : List Submission) (t : Table)
      → IsBalanced (compile_and_judge setup w sub spec before t)
  unfolding compile_and_judge
  compile_and_judge-IsBalanced sub spec before t = elim (Bool-cases spec.needs_compile) [
    | inr q ↦ subst IsBalanced (ground arith) (acquire_and_judge-IsBalanced sub before t)
    | inl q ↦ elim (Result-cases w.compile) [
      | inr (e, q2) ↦
          subst IsBalanced (ground arith) (infrastructure_failure-IsBalanced 1 sub before t)
      | inl (r, q2) ↦ subst IsBalanced (ground arith) (after_compile-IsBalanced sub r before t)
    ]
  ]

  process_running-IsBalanced :
      (sub : Submission) (spec : Spec) (t : Table) → IsBalanced (process_running setup w sub spec t)
  unfolding process_running
  process_running-IsBalanced sub spec t =
      elim (Result-cases (update (w.fault 0) (w.time 0) sub (w.others 0 t))) [
        | inr (e, q) ↦ record { one = ground arith; balanced = ground arith }
        | inl (u, q) ↦ elim (Option-cases w.workspace_error) [
          | inr (e, q2) ↦
              subst IsBalanced (ground arith) (infrastructure_failure-IsBalanced 1 sub (sub ∷ []) u)
          | inl q2 ↦
              subst IsBalanced (ground arith) (compile_and_judge-IsBalanced sub spec (sub ∷ []) u)
        ]
      ]

  -- On every path, errors included, processing acquires at most one sandbox and releases exactly
  -- the containers that it acquired.
  pub process_submission-IsBalanced :
      (sub : Submission) (t : Table) → IsBalanced (process_submission setup w sub t)
  unfolding process_submission
  process_submission-IsBalanced sub t = elim (Result-cases (validate_job setup.metadata sub.job)) [
    | inr (e, q) ↦
        subst IsBalanced (ground arith)
          (finish-IsBalanced 0 sub (unjudged sub validation_error (setup.error_text e)) [] t)
    | inl (_, q) ↦ elim (Option-cases (get_spec setup.registry sub.job.language)) [
      | inl q2 ↦ subst IsBalanced (ground arith) (
          finish-IsBalanced 0 sub (unjudged sub validation_error (codes "unsupported language")) []
            t)
      | inr (spec, q2) ↦
          subst IsBalanced (ground arith)
            (process_running-IsBalanced (record sub { status = running }) spec t)
    ]
  ]
