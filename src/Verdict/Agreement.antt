-- ===== src/Verdict/Agreement.antt =====
-- The two ways to run test cases (internal/judge/testcases.go): all at once by the supervisor in
-- the sandbox, or one by one with the sandbox reset behind each.
use yex_judge.Common.{
  ℕ, suc, ◌+◌, Bool, true, false, Option, none, some, List, [], ◌∷◌, map, Text, ok, length,
  get_elem?, subst, ◌≡◌, refl, sym, ap, ◌∙◌, inl, inr, arith, Option-cases,
}
use yex_judge.Types.{TestCase, Job, Limits, Status, JudgeResult}
use yex_judge.Runner.{RunResult}
use yex_judge.Verdict.{
  Sandbox, Canonical, CaseRun, restage_error, test_case_input, stop_status, Progress, decides,
  fetch, clean_up, judge_run, judge_case, case_round, run_cases, no_progress, decided, larger,
  failed_test_case, run_test_cases,
}
use yex_judge.Verdict.Rounds.{
  outcome_cases, run_cases-nil, run_cases-breaks, run_cases-decides, run_cases-passes,
}
use yex_judge.Verdict.Supervisor.{ends_output, IsComplete}

-- A result that ends the supervisor's output ends the judging, whatever the limits.
pub stop_status-ends_output :
    (c : Bool) (l : Limits) (r : RunResult)
    → ends_output r ≡ true
    → (x : Status × Text) × (stop_status c l r ≡ some x)
unfolding stop_status ends_output
stop_status-ends_output c l r h = elim (Option-cases (stop_status c l r)) [
  | inr x ↦ x
  | inl e ↦ absurd (ground arith)
]

zero_plus : (i : ℕ) → 0 + i ≡ i
zero_plus i = omega arith

plus_zero : (i : ℕ) → i + 0 ≡ i
plus_zero i = omega arith

plus_suc : (i j : ℕ) → i + suc j ≡ i + 1 + j
plus_suc i j = omega arith

module _ (canon : Canonical) where
  judge_run-ends :
      (job : Job) (total : ℕ) (tc : TestCase) (c : Bool) (r : RunResult) (p : Progress)
      → ends_output r ≡ true
      → (x : JudgeResult) × (judge_run canon job total tc c r p ≡ decides x)
  unfolding judge_run
  judge_run-ends job total tc c r p h =
      let (x, e) = stop_status-ends_output c job.limits r h in
      (
        decided total p.passed (larger r.memory_used p.max_memory_bytes) r
            (some (failed_test_case tc r.stdout)) x.0 x.1,
        ground arith,
      )

  round_supervised :
      (job : Job) (total : ℕ) (all : List (Option RunResult)) (i : ℕ) (tc : TestCase) (w : CaseRun)
      (s : Sandbox) (p : Progress) (r : RunResult)
      → get_elem? all i ≡ some (some r)
      → case_round canon false job total tc w (fetch (some all) i tc w) s p
        ≡ (judge_run canon job total tc w.is_canceled r p, s)
  unfolding case_round fetch clean_up judge_case
  round_supervised job total all i tc w s p r h = ground arith

  round_alone :
      (job : Job) (total i : ℕ) (tc : TestCase) (w : CaseRun) (s : Sandbox) (p : Progress)
      (r : RunResult)
      → w.run ≡ ok (some r)
      → restage_error w ≡ none
      → case_round canon true job total tc w (fetch none i tc w) s p
        ≡ (judge_run canon job total tc w.is_canceled r p, record s { restarted = true })
  unfolding case_round fetch clean_up judge_case
  round_alone job total i tc w s p r h c = ground arith

  cases_agree :
      (job : Job) (total : ℕ) (all : List (Option RunResult)) (world : ℕ → Text → CaseRun) (i : ℕ)
      (tcs : List TestCase) (rest : List RunResult) (s t : Sandbox) (p : Progress)
      → IsComplete (length tcs) rest
      → ((j : ℕ) → get_elem? all (i + j) ≡ get_elem? (map some rest) j)
      → ((j : ℕ) (r : RunResult) (input : Text)
          → get_elem? rest j ≡ some r
          → (world (i + j) input).run ≡ ok (some r))
      → ((j : ℕ) (input : Text) → restage_error (world j input) ≡ none)
      → (run_cases canon false job total (some all) world i tcs s p).0
        ≡ (run_cases canon true job total none world i tcs t p).0
  cases_agree job total all world i [] rest s t p c a m clean =
      let l = run_cases-nil canon false job total (some all) world i s p in
      let k = run_cases-nil canon true job total none world i t p in cc
  cases_agree job total all world i (tc ∷ tcs) [] s t p c a m clean = absurd c
  cases_agree job total all world i (tc ∷ tcs) (r ∷ rest) s t p c a m clean =
      let input = test_case_input job tc in
      let here : (world i input).run ≡ ok (some r) =
        subst (λ k. (world k input).run ≡ ok (some r)) (plus_zero i) (m 0 r input refl) in
      let found : get_elem? all i ≡ some (some r) =
        subst (λ k. get_elem? all k ≡ some (some r)) (plus_zero i) (a 0) in
      let round1 = round_supervised job total all i tc (world i input) s p r found in
      let round2 = round_alone job total i tc (world i input) t p r here (clean i input) in
      let x = judge_run canon job total tc (world i input).is_canceled r p in
      let u = record t { restarted = true } in
      elim (outcome_cases x) [
        | inl (e, q) ↦
            let l =
              run_cases-breaks canon false job total (some all) world i tc tcs s s p e
                (round1 ∙ ap (λ z. (z, s)) q) in
            let k =
              run_cases-breaks canon true job total none world i tc tcs t u p e
                (round2 ∙ ap (λ z. (z, u)) q) in
            cc
        | inr (inl (y, q)) ↦
            let l =
              run_cases-decides canon false job total (some all) world i tc tcs s s p y
                (round1 ∙ ap (λ z. (z, s)) q) in
            let k =
              run_cases-decides canon true job total none world i tc tcs t u p y
                (round2 ∙ ap (λ z. (z, u)) q) in
            cc
        | inr (inr (y, q)) ↦
            let l =
              run_cases-passes canon false job total (some all) world i tc tcs s s p y
                (round1 ∙ ap (λ z. (z, s)) q) in
            let k =
              run_cases-passes canon true job total none world i tc tcs t u p y
                (round2 ∙ ap (λ z. (z, u)) q) in
            elim c [
              | inl (b, _) ↦
                  let z = judge_run-ends job total tc (world i input).is_canceled r p b in
                  absurd (ground arith)
              | inr (_, c') ↦
                  let more =
                    cases_agree job total all world (i + 1) tcs rest s u y c'
                      (λ j.
                        subst (λ k. get_elem? all k ≡ get_elem? (map some rest) j) (plus_suc i j)
                          (a (suc j)))
                      (λ j r' input' h.
                        subst (λ k. (world k input').run ≡ ok (some r')) (plus_suc i j)
                          (m (suc j) r' input' h))
                      clean in
                  cc
            ]
      ]

  -- Where the supervisor's complete results are what each case's own run would give, and no
  -- cleanup fails, the supervisor's path and the resetting path return the same verdict or error.
  pub supervisor-agrees :
      (job : Job) (rs : List RunResult) (world : ℕ → Text → CaseRun) (s : Sandbox)
      → IsComplete (length job.test_cases) rs
      → ((i : ℕ) (r : RunResult) (input : Text)
          → get_elem? rs i ≡ some r
          → (world i input).run ≡ ok (some r))
      → ((i : ℕ) (input : Text) → restage_error (world i input) ≡ none)
      → (run_test_cases canon job (some (ok (some (map some rs)))) world s).0
        ≡ (run_test_cases canon job none world s).0
  unfolding run_test_cases
  supervisor-agrees job rs world s c m clean =
      cases_agree job (length job.test_cases) (map some rs) world 0 job.test_cases rs s s
        no_progress c (λ j. ap (get_elem? (map some rs)) (zero_plus j))
        (λ j r input h.
          subst (λ k. (world k input).run ≡ ok (some r)) (sym (zero_plus j)) (m j r input h))
        clean
