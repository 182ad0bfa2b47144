-- ===== src/Service/Updates.antt =====
-- What `ProcessSubmission` (internal/judge/service.go) writes to the store, and what it returns.
use yex_judge.Common.{
  ◌≤◌, pos, eq_ℤ, ◌||◌, List, [], ◌∷◌, Text, codes, Result, ok, err, length, All, ◌≡◌, ◌≢◌, refl,
  sym, subst, inl, inr, arith, Bool-cases, Option-cases, Result-cases,
}
use yex_judge.Types.{
  JudgeResult, Submission, running, infrastructure_error, validation_error, output_limit_exceeded,
  compilation_error,
}
use yex_judge.Languages.{Spec, get_spec}
use yex_judge.Job.{validate_job}
use yex_judge.Runner.{RunResult}
use yex_judge.Store.{Table}
use yex_judge.Store.Queue.{update}
use yex_judge.Verdict.{Sandbox, run_test_cases}
use yex_judge.Service.{
  World, Setup, Processed, unjudged, finish, infrastructure_failure, conclude, judge_in,
  acquire_and_judge, after_compile, compile_and_judge, process_running, process_submission,
  forget_error,
}
use yex_judge.Service.Reports.{
  IsSame, IsOwnUpdate, IsReported, status_cases, finish-IsReported,
  infrastructure_failure-IsReported,
}

module _ (setup : Setup) (w : World) where
  -- Processing that adds nothing but an acquired sandbox is reported alike.
  acquired-IsReported :
      (sub : Submission) (p : Processed) (ss : List Sandbox)
      → IsReported w sub p
      → IsReported w sub (record p { acquired = ss })
  acquired-IsReported sub p ss i = record {
    own = i.own;
    some_update = i.some_update;
    two_updates = i.two_updates;
    returned = i.returned;
  }

  module _ (sub sub' : Submission) (mine : IsSame sub sub') (before : List Submission)
      (own : All (IsOwnUpdate sub) before) (few : length before ≤ 1) where
    fails_in :
        (released : List Sandbox) (t : Table) (p : Processed)
        → p ≡ infrastructure_failure setup w 1 sub' before released t
        → IsReported w sub p
    fails_in released t p e =
        subst (IsReported w sub) (sym e)
          (infrastructure_failure-IsReported setup w sub before released 1 own few sub' t mine)

    ends_in :
        (r : JudgeResult) (released : List Sandbox) (t : Table) (p : Processed)
        → r.status ≢ infrastructure_error
        → p ≡ finish setup w 1 sub' r before released t
        → IsReported w sub p
    ends_in r released t p ne e =
        subst (IsReported w sub) (sym e)
          (finish-IsReported setup w sub before released 1 own few sub' r t mine ne)

    conclude-IsReported :
        (x : Result Text JudgeResult) (released : List Sandbox) (t : Table)
        → IsReported w sub (conclude setup w sub' x before released t)
    unfolding conclude
    conclude-IsReported (err e) released t = fails_in released t _ refl
    conclude-IsReported (ok r) released t = elim (status_cases r.status) [
      | inl e ↦ fails_in released t _ (ground arith)
      | inr ne ↦ ends_in r released t _ ne (ground arith)
    ]

    judge_in-IsReported :
        (s : Sandbox) (t : Table) → IsReported w sub (judge_in setup w sub' before s t)
    unfolding judge_in
    judge_in-IsReported s t = elim (Option-cases w.prepare_error) [
      | inr (e, q) ↦ fails_in (s ∷ []) t _ (ground arith)
      | inl q ↦
          let r = run_test_cases setup.canonical sub'.job w.supervisor w.cases s in
          let same : judge_in setup w sub' before s t
              ≡ conclude setup w sub' (forget_error r.0) before (r.1 ∷ []) t =
            ground arith in
          subst (IsReported w sub) (sym same) (conclude-IsReported (forget_error r.0) (r.1 ∷ []) t)
    ]

    acquire_and_judge-IsReported :
        (t : Table) → IsReported w sub (acquire_and_judge setup w sub' before t)
    unfolding acquire_and_judge
    acquire_and_judge-IsReported t = elim (Result-cases w.acquire) [
      | inr (e, q) ↦ fails_in [] t _ (ground arith)
      | inl (s, q) ↦
          let same : acquire_and_judge setup w sub' before t
              ≡ record (judge_in setup w sub' before s t) { acquired = s ∷ [] } =
            ground arith in
          subst (IsReported w sub) (sym same)
            (acquired-IsReported sub _ (s ∷ []) (judge_in-IsReported s t))
    ]

    after_compile-IsReported :
        (r : RunResult) (t : Table) → IsReported w sub (after_compile setup w sub' r before t)
    unfolding after_compile unjudged
    after_compile-IsReported r t = elim (Bool-cases (w.compile_canceled || r.timed_out)) [
      | inl q ↦ fails_in [] t _ (ground arith)
      | inr q ↦ elim (Bool-cases r.output_limit_exceeded) [
        | inl q2 ↦
            ends_in
              (unjudged sub' output_limit_exceeded
                (codes "compiler output exceeded the allowed limit"))
              [] t _ (λ e. absurd (ground arith)) (ground arith)
        | inr q2 ↦ elim (Bool-cases (eq_ℤ r.exit_code (pos 125))) [
          | inl q3 ↦ fails_in [] t _ (ground arith)
          | inr q3 ↦ elim (Bool-cases (eq_ℤ r.exit_code (pos 0))) [
            | inl q4 ↦
                let same : after_compile setup w sub' r before t
                    ≡ acquire_and_judge setup w sub' before t =
                  ground arith in
                subst (IsReported w sub) (sym same) (acquire_and_judge-IsReported t)
            | inr q4 ↦
                ends_in (unjudged sub' compilation_error r.stderr) [] t _
                  (λ e. absurd (ground arith)) (ground arith)
          ]
        ]
      ]
    ]

    compile_and_judge-IsReported :
        (spec : Spec) (t : Table) → IsReported w sub (compile_and_judge setup w sub' spec before t)
    unfolding compile_and_judge
    compile_and_judge-IsReported spec t = elim (Bool-cases spec.needs_compile) [
      | inr q ↦
          let same : compile_and_judge setup w sub' spec before t
              ≡ acquire_and_judge setup w sub' before t =
            ground arith in
          subst (IsReported w sub) (sym same) (acquire_and_judge-IsReported t)
      | inl q ↦ elim (Result-cases w.compile) [
        | inr (e, q2) ↦ fails_in [] t _ (ground arith)
        | inl (r, q2) ↦
            let same : compile_and_judge setup w sub' spec before t
                ≡ after_compile setup w sub' r before t =
              ground arith in
            subst (IsReported w sub) (sym same) (after_compile-IsReported r t)
      ]
    ]

  process_running-IsReported :
      (sub sub' : Submission) (spec : Spec) (t : Table)
      → IsOwnUpdate sub sub'
      → IsReported w sub (process_running setup w sub' spec t)
  unfolding process_running
  process_running-IsReported sub sub' spec t mine =
      elim (Result-cases (update (w.fault 0) (w.time 0) sub' (w.others 0 t))) [
        | inr (e, q) ↦
            let same : process_running setup w sub' spec t ≡ record {
              outcome = err e;
              table = w.others 0 t;
              updates = sub' ∷ [];
              acquired = [];
              released = [];
            } =
              ground arith in
            subst (IsReported w sub) (sym same) (record {
              own = (mine, tt);
              some_update = omega arith;
              two_updates = omega arith;
              returned = λ r h. absurd (ground arith);
            })
        | inl (u, q) ↦ elim (Option-cases w.workspace_error) [
          | inr (e, q2) ↦
              fails_in sub sub' mine.same (sub' ∷ []) (mine, tt) (omega arith) [] u _ (ground arith)
          | inl q2 ↦
              let same : process_running setup w sub' spec t
                  ≡ compile_and_judge setup w sub' spec (sub' ∷ []) u =
                ground arith in
              subst (IsReported w sub) (sym same) (
                compile_and_judge-IsReported sub sub' mine.same (sub' ∷ []) (mine, tt) (omega arith)
                  spec u)
        ]
      ]

  -- Whatever happens, processing makes one or two updates, all of the same submission, job and
  -- attempt and none of them to queued; and a verdict that it returns is what its last update
  -- stored, which the store accepted and whose table is what is left, as finished, or as failed with
  -- the generic message if it is an infrastructure error.
  pub process_submission-IsReported :
      (sub : Submission) (t : Table) → IsReported w sub (process_submission setup w sub t)
  unfolding process_submission unjudged
  process_submission-IsReported sub t = elim (Result-cases (validate_job setup.metadata sub.job)) [
    | inr (e, q) ↦
        let same : process_submission setup w sub t
            ≡ finish setup w 0 sub (unjudged sub validation_error (setup.error_text e)) [] [] t =
          ground arith in
        subst (IsReported w sub) (sym same) (
          finish-IsReported setup w sub [] [] 0 tt (omega arith) sub
            (unjudged sub validation_error (setup.error_text e)) t
            (record { id = refl; attempt = refl; job = refl }) (λ x. absurd (ground arith)))
    | inl (_, q) ↦ elim (Option-cases (get_spec setup.registry sub.job.language)) [
      | inl q2 ↦
          let same : process_submission setup w sub t
              ≡ finish setup w 0 sub (unjudged sub validation_error (codes "unsupported language"))
                  [] [] t =
            ground arith in
          subst (IsReported w sub) (sym same) (
            finish-IsReported setup w sub [] [] 0 tt (omega arith) sub
              (unjudged sub validation_error (codes "unsupported language")) t
              (record { id = refl; attempt = refl; job = refl }) (λ x. absurd (ground arith)))
      | inr (spec, q2) ↦
          let same : process_submission setup w sub t
              ≡ process_running setup w (record sub { status = running }) spec t =
            ground arith in
          subst (IsReported w sub) (sym same) (
            process_running-IsReported sub (record sub { status = running }) spec t
              (record {
                same = record { id = refl; attempt = refl; job = refl };
                not_queued = λ e. absurd (ground arith);
              }))
    ]
  ]
