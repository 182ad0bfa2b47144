-- ===== src/Verdict/Containers.antt =====
-- Judging (internal/judge/testcases.go) only sets flags of its sandbox: it stays the same container.
use yex_judge.Common.{
  ℕ, ◌+◌, Bool, true, false, Option, none, some, List, [], ◌∷◌, Text, Result, ok, err, length, ◌≡◌,
  refl, ap, ◌∙◌, arith, inl, inr,
}
use yex_judge.Types.{TestCase, Job, JudgeResult}
use yex_judge.Runner.{RunResult}
use yex_judge.Verdict.{
  Sandbox, Canonical, JudgeError, CaseRun, Progress, no_progress, clean_up, case_round, run_cases,
  run_test_cases,
}
use yex_judge.Verdict.Rounds.{
  round, outcome_cases, run_cases-nil, run_cases-breaks, run_cases-decides, run_cases-passes,
}

module _ (canon : Canonical) (reset : Bool) (job : Job) where
  case_round-container :
      (total : ℕ) (tc : TestCase) (w : CaseRun)
      (f : Result JudgeError (Result Text (Option RunResult))) (s : Sandbox) (p : Progress)
      → (case_round canon reset job total tc w f s p).1.container_name ≡ s.container_name
  unfolding case_round clean_up
  case_round-container total tc w (err e) s p = refl
  case_round-container total tc w (ok run) s p = ground arith

  run_cases-container :
      (total : ℕ) (rs : Option (List (Option RunResult))) (world : ℕ → Text → CaseRun) (i : ℕ)
      (tcs : List TestCase) (s : Sandbox) (p : Progress)
      → (run_cases canon reset job total rs world i tcs s p).1.container_name ≡ s.container_name
  run_cases-container total rs world i [] s p =
      let n = run_cases-nil canon reset job total rs world i s p in cc
  run_cases-container total rs world i (tc ∷ tcs) s p =
      let o = round canon reset job total rs world i tc tcs s s p in
      let same = case_round-container total tc _ _ s p in
      elim (outcome_cases o.0) [
        | inl (e, q) ↦
            let k =
              run_cases-breaks canon reset job total rs world i tc tcs s o.1 p e
                (ap (λ z. (z, o.1)) q) in
            ap {A = Result JudgeError JudgeResult × Sandbox} (λ z. z.1.container_name) k ∙ same
        | inr (inl (y, q)) ↦
            let k =
              run_cases-decides canon reset job total rs world i tc tcs s o.1 p y
                (ap (λ z. (z, o.1)) q) in
            ap {A = Result JudgeError JudgeResult × Sandbox} (λ z. z.1.container_name) k ∙ same
        | inr (inr (y, q)) ↦
            let k =
              run_cases-passes canon reset job total rs world i tc tcs s o.1 p y
                (ap (λ z. (z, o.1)) q) in
            let more = run_cases-container total rs world (i + 1) tcs o.1 y in
            ap {A = Result JudgeError JudgeResult × Sandbox} (λ z. z.1.container_name) k
            ∙ (more ∙ same)
      ]

pub run_test_cases-container :
    (canon : Canonical) (job : Job)
    (supervisor : Option (Result Text (Option (List (Option RunResult)))))
    (world : ℕ → Text → CaseRun) (s : Sandbox)
    → (run_test_cases canon job supervisor world s).1.container_name ≡ s.container_name
unfolding run_test_cases
run_test_cases-container canon job none world s =
    run_cases-container canon true job (length job.test_cases) none world 0 job.test_cases s
      no_progress
run_test_cases-container canon job (some (ok rs)) world s =
    run_cases-container canon false job (length job.test_cases) rs world 0 job.test_cases s
      no_progress
run_test_cases-container canon job (some (err e)) world s = refl
