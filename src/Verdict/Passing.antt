-- ===== src/Verdict/Passing.antt =====
-- A test case that passes (internal/judge/testcases.go), described without following the loop, and
-- the rounds of the loop that go on.
use yex_judge.Common.{
  ℕ, ◌+◌, pos, Bool, true, false, Option, none, some, List, [], ◌∷◌, Text, Result, ok, err,
  trim_space, trim_space_idem, ◌≡◌, ◌≢◌, refl, ap, ◌∙◌, inl, inr, arith, Bool-cases, Option-cases,
  Result-cases,
}
use yex_judge.Types.{TestCase, Job, Limits, Status, JudgeResult, accepted}
use yex_judge.Runner.{RunResult}
use yex_judge.Verdict.{
  Sandbox, Canonical, JudgeError, CaseRun, restage_error, test_case_input, failed_test_case,
  stop_status, Progress, decides, passes, fetch, clean_up, expected_output, outputs_equal,
  judge_run, judge_case, compare_output, decided, case_round, larger, milliseconds,
}
use yex_judge.Verdict.Rounds.{round}

stop_status-none :
    (c : Bool) (l : Limits) (r : RunResult)
    → stop_status c l r ≡ none
    → (c ≡ false)
      × (r.output_limit_exceeded ≡ false)
      × (r.timed_out ≡ false)
      × (r.exit_code ≡ pos 0)
unfolding stop_status
stop_status-none c l r h = (ground arith, ground arith, ground arith, ground arith)

stop_status-some :
    (c : Bool) (l : Limits) (r : RunResult) (x : Status × Text)
    → stop_status c l r ≡ some x
    → x.0 ≢ accepted
unfolding stop_status
stop_status-some c l r x h = λ e. absurd (ground arith)

stop_status-clean :
    (c : Bool) (l : Limits) (r : RunResult)
    → c ≡ false
    → r.output_limit_exceeded ≡ false
    → r.timed_out ≡ false
    → r.exit_code ≡ pos 0
    → stop_status c l r ≡ none
unfolding stop_status
stop_status-clean c l r hc ho ht he = ground arith

-- A failed case is reported with its output trimmed, however often it was trimmed before.
failed_test_case-trim_space :
    (tc : TestCase) (s : Text) → failed_test_case tc (trim_space s) ≡ failed_test_case tc s
unfolding failed_test_case
failed_test_case-trim_space tc s = rw (trim_space_idem s) refl

module _ (canon : Canonical) (reset : Bool) (job : Job) (rs : Option (List (Option RunResult)))
    (world : ℕ → Text → CaseRun) where
  -- Case `i` passes: its run gave a result within the limits, in time, with exit code 0, whose
  -- output equals the expected one; where sandboxes are reset, the cleanup worked.
  abbrev pub Passes : ℕ → TestCase → Type 0
  Passes i tc =
      let w = world i (test_case_input job tc) in
      (r : RunResult) × (fetch rs i tc w ≡ ok (ok (some r)))
      × (reset ≡ true → restage_error w ≡ none)
      × (w.is_canceled ≡ false)
      × (r.output_limit_exceeded ≡ false)
      × (r.timed_out ≡ false)
      × (r.exit_code ≡ pos 0)
      × ((e : Text) × (expected_output canon job tc ≡ ok e)
          × (outputs_equal canon job (trim_space r.stdout) (trim_space e) ≡ true))

  abbrev pub AllPass : ℕ → List TestCase → Type 0
  AllPass i [] = Unit
  AllPass i (tc ∷ tcs) = Passes i tc × AllPass (i + 1) tcs

  -- Case `i` is the verdict's failed case, with the trimmed standard output of its run.
  abbrev pub Reported : ℕ → TestCase → JudgeResult → Type 0
  Reported i tc x =
      (r : RunResult) × (fetch rs i tc (world i (test_case_input job tc)) ≡ ok (ok (some r)))
      × (x.failed_test_case ≡ some (record tc { actual_output = trim_space r.stdout }))

  judge_run-passes :
      (total : ℕ) (tc : TestCase) (c : Bool) (r : RunResult) (p q : Progress)
      → judge_run canon job total tc c r p ≡ passes q
      → (stop_status c job.limits r ≡ none)
        × (q.passed ≡ p.passed + 1)
        × ((e : Text) × (expected_output canon job tc ≡ ok e)
            × (outputs_equal canon job (trim_space r.stdout) (trim_space e) ≡ true))
  unfolding judge_run compare_output
  judge_run-passes total tc c r p q h = elim (Option-cases (stop_status c job.limits r)) [
    | inr (x, e) ↦ absurd (ground arith)
    | inl e ↦ elim (Result-cases (expected_output canon job tc)) [
      | inr (m, e2) ↦ absurd (ground arith)
      | inl (expected, e2) ↦
          elim (Bool-cases (outputs_equal canon job (trim_space r.stdout) (trim_space expected))) [
            | inr e3 ↦ absurd (ground arith)
            | inl e3 ↦ (e, ground arith, (expected, e2, e3))
          ]
    ]
  ]

  judge_run-decides :
      (total : ℕ) (tc : TestCase) (c : Bool) (r : RunResult) (p : Progress) (x : JudgeResult)
      → judge_run canon job total tc c r p ≡ decides x
      → (x.status ≢ accepted)
        × (x.passed_test_cases ≡ p.passed)
        × (x.failed_test_case ≡ some (failed_test_case tc r.stdout))
  unfolding judge_run compare_output decided
  judge_run-decides total tc c r p x h = elim (Option-cases (stop_status c job.limits r)) [
    | inr (y, e) ↦
        let no = stop_status-some c job.limits r y e in
        (λ q. no (ground arith), ground arith, ground arith)
    | inl e ↦ elim (Result-cases (expected_output canon job tc)) [
      | inr (m, e2) ↦ absurd (ground arith)
      | inl (expected, e2) ↦
          elim (Bool-cases (outputs_equal canon job (trim_space r.stdout) (trim_space expected))) [
            | inl e3 ↦ absurd (ground arith)
            | inr e3 ↦
                let same = failed_test_case-trim_space tc r.stdout in
                (λ q. absurd (ground arith), ground arith, ground arith)
          ]
    ]
  ]

  case_round-passes :
      (total : ℕ) (tc : TestCase) (w : CaseRun)
      (f : Result JudgeError (Result Text (Option RunResult))) (s t : Sandbox) (p q : Progress)
      → case_round canon reset job total tc w f s p ≡ (passes q, t)
      → (r : RunResult) × (f ≡ ok (ok (some r)))
        × (reset ≡ true → restage_error w ≡ none)
        × (judge_run canon job total tc w.is_canceled r p ≡ passes q)
  unfolding case_round judge_case clean_up
  case_round-passes total tc w (err e) s t p q h = absurd (ground arith)
  case_round-passes total tc w (ok (err e)) s t p q h = absurd (ground arith)
  case_round-passes total tc w (ok (ok none)) s t p q h = absurd (ground arith)
  case_round-passes total tc w (ok (ok (some r))) s t p q h =
      (r, refl, λ e. ground arith, ground arith)

  case_round-decides :
      (total : ℕ) (tc : TestCase) (w : CaseRun)
      (f : Result JudgeError (Result Text (Option RunResult))) (s t : Sandbox) (p : Progress)
      (x : JudgeResult)
      → case_round canon reset job total tc w f s p ≡ (decides x, t)
      → (r : RunResult) × (f ≡ ok (ok (some r)))
        × (judge_run canon job total tc w.is_canceled r p ≡ decides x)
  unfolding case_round judge_case clean_up
  case_round-decides total tc w (err e) s t p x h = absurd (ground arith)
  case_round-decides total tc w (ok (err e)) s t p x h = absurd (ground arith)
  case_round-decides total tc w (ok (ok none)) s t p x h = absurd (ground arith)
  case_round-decides total tc w (ok (ok (some r))) s t p x h = (r, refl, ground arith)

  judge_run_good :
      (total : ℕ) (tc : TestCase) (c : Bool) (r : RunResult) (p : Progress) (e : Text)
      → stop_status c job.limits r ≡ none
      → expected_output canon job tc ≡ ok e
      → outputs_equal canon job (trim_space r.stdout) (trim_space e) ≡ true
      → (q : Progress) × (judge_run canon job total tc c r p ≡ passes q) × (q.passed ≡ p.passed + 1)
  unfolding judge_run compare_output
  judge_run_good total tc c r p e h1 h2 h3 = (
    record {
      passed = p.passed + 1;
      max_runtime_ms = larger (milliseconds r.time_used) p.max_runtime_ms;
      max_memory_bytes = larger r.memory_used p.max_memory_bytes;
    },
    ground arith,
    refl,
  )

  case_round_good :
      (total : ℕ) (tc : TestCase) (w : CaseRun)
      (f : Result JudgeError (Result Text (Option RunResult))) (r : RunResult) (s : Sandbox)
      (p : Progress)
      → f ≡ ok (ok (some r))
      → (reset ≡ true → restage_error w ≡ none)
      → (t : Sandbox) × (case_round canon reset job total tc w f s p
          ≡ (judge_run canon job total tc w.is_canceled r p, t))
  unfolding case_round judge_case clean_up
  case_round_good total tc w f r s p h clean = elim (Bool-cases reset) [
    | inl e ↦ let z = clean e in (record s { restarted = true }, ground arith)
    | inr e ↦ (s, ground arith)
  ]

  module _ (total i : ℕ) (tc : TestCase) (tcs : List TestCase) (s t : Sandbox) (p : Progress) where
    pub round-Passes :
        (q : Progress)
        → round canon reset job total rs world i tc tcs s t p ≡ (passes q, t)
        → Passes i tc × (q.passed ≡ p.passed + 1)
    round-Passes q h =
        let w = world i (test_case_input job tc) in
        let (r, fetched, clean, j) = case_round-passes total tc w _ s t p q h in
        let (stop, more, equal) = judge_run-passes total tc w.is_canceled r p q j in
        let (a, b, c, d) = stop_status-none w.is_canceled job.limits r stop in
        ((r, fetched, clean, a, b, c, d, equal), more)

    pub Passes-round :
        Passes i tc
        → (q : Progress) × (u : Sandbox) × (round canon reset job total rs world i tc tcs s u p
            ≡ (passes q, u))
          × (q.passed ≡ p.passed + 1)
    Passes-round (r, fetched, clean, a, b, c, d, (e, is_e, equal)) =
        let w = world i (test_case_input job tc) in
        let (q, j, more) =
          judge_run_good total tc w.is_canceled r p e
            (stop_status-clean w.is_canceled job.limits r a b c d) is_e equal in
        let (u, k) = case_round_good total tc w (fetch rs i tc w) r s p fetched clean in
        (q, u, k ∙ ap (λ z. (z, u)) j, more)

    pub round-decides :
        (x : JudgeResult)
        → round canon reset job total rs world i tc tcs s t p ≡ (decides x, t)
        → (x.status ≢ accepted)
          × (x.passed_test_cases ≡ p.passed)
          × Reported i tc x
          × (¬ Passes i tc)
    unfolding failed_test_case
    round-decides x h =
        let w = world i (test_case_input job tc) in
        let (r, fetched, j) = case_round-decides total tc w _ s t p x h in
        let (a, b, c) = judge_run-decides total tc w.is_canceled r p x j in
        (
          a,
          b,
          (r, fetched, c),
          λ pass. let (q, u, k, _) = Passes-round pass in absurd (ground arith),
        )
