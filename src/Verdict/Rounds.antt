-- ===== src/Verdict/Rounds.antt =====
-- One round of the loop over the test cases (internal/judge/testcases.go) and the rest of the loop.
use yex_judge.Common.{
  ℕ, ◌+◌, Bool, Option, List, [], ◌∷◌, Text, ok, err, ◌≡◌, refl, ◌⊎◌, inl, inr, arith,
}
use yex_judge.Types.{TestCase, Job, JudgeResult}
use yex_judge.Runner.{RunResult}
use yex_judge.Verdict.{
  Sandbox, Canonical, JudgeError, CaseRun, test_case_input, Progress, CaseOutcome, breaks, decides,
  passes, fetch, case_round, accept, run_cases,
}

pub outcome_cases :
    (x : CaseOutcome)
    → ((e : JudgeError) × (x ≡ breaks e))
      ⊎ (((r : JudgeResult) × (x ≡ decides r)) ⊎ ((p : Progress) × (x ≡ passes p)))
outcome_cases (breaks e) = inl (e, refl)
outcome_cases (decides r) = inr (inl (r, refl))
outcome_cases (passes p) = inr (inr (p, refl))

pub run_cases-nil :
    (canon : Canonical) (reset : Bool) (job : Job) (total : ℕ)
    (rs : Option (List (Option RunResult))) (world : ℕ → Text → CaseRun) (i : ℕ) (s : Sandbox)
    (p : Progress)
    → run_cases canon reset job total rs world i [] s p ≡ (ok (accept canon total p), s)
unfolding run_cases
run_cases-nil canon reset job total rs world i s p = refl

module _ (canon : Canonical) (reset : Bool) (job : Job) (total : ℕ)
    (rs : Option (List (Option RunResult))) (world : ℕ → Text → CaseRun) (i : ℕ) (tc : TestCase)
    (tcs : List TestCase) (s t : Sandbox) (p : Progress) where
  abbrev pub round : CaseOutcome × Sandbox
  round =
      let w = world i (test_case_input job tc) in
      case_round canon reset job total tc w (fetch rs i tc w) s p

  pub run_cases-breaks :
      (e : JudgeError)
      → round ≡ (breaks e, t)
      → run_cases canon reset job total rs world i (tc ∷ tcs) s p ≡ (err e, t)
  unfolding run_cases
  run_cases-breaks e h = ground arith

  pub run_cases-decides :
      (r : JudgeResult)
      → round ≡ (decides r, t)
      → run_cases canon reset job total rs world i (tc ∷ tcs) s p ≡ (ok r, t)
  unfolding run_cases
  run_cases-decides r h = ground arith

  pub run_cases-passes :
      (q : Progress)
      → round ≡ (passes q, t)
      → run_cases canon reset job total rs world i (tc ∷ tcs) s p
        ≡ run_cases canon reset job total rs world (i + 1) tcs t q
  unfolding run_cases
  run_cases-passes q h = ground arith
