-- ===== src/Verdict/FirstFailure.antt =====
-- What the verdict of internal/judge/testcases.go means: which cases passed, and which case it is
-- about.
use yex_judge.Common.{
  ℕ, suc, ◌+◌, Bool, true, false, Option, none, some, List, [], ◌∷◌, ◌++◌, Text, Result, ok, err,
  length, ◌≡◌, ◌≢◌, refl, ap, sym, ◌∙◌, subst, ◌⊎◌, inl, inr, arith,
}
use yex_judge.Types.{TestCase, Job, JudgeResult, accepted}
use yex_judge.Runner.{RunResult}
use yex_judge.Verdict.{
  Sandbox, Canonical, CaseRun, Progress, no_progress, accept, run_cases, run_test_cases,
}
use yex_judge.Verdict.Rounds.{
  round, outcome_cases, run_cases-nil, run_cases-breaks, run_cases-decides, run_cases-passes,
}
use yex_judge.Verdict.Passing.{Passes, AllPass, Reported, round-Passes, Passes-round, round-decides}

plus_zero : (i : ℕ) → i + 0 ≡ i
plus_zero i = omega arith

plus_one : (i j : ℕ) → i + suc j ≡ i + 1 + j
plus_one i j = omega arith

module _ (canon : Canonical) (reset : Bool) (job : Job) (rs : Option (List (Option RunResult)))
    (world : ℕ → Text → CaseRun) where
  -- The case at which the verdict `x` stops the loop: those before it passed, and it did not; it is
  -- reported with the output of its run.
  pub record Stops (i passed : ℕ) (tcs : List TestCase) (x : JudgeResult) : Type 0 where
    pub front : List TestCase
    pub failing : TestCase
    pub rest : List TestCase
    pub split : tcs ≡ front ++ failing ∷ rest
    pub front_passes : AllPass canon reset job rs world i front
    pub fails : ¬ Passes canon reset job rs world (i + length front) failing
    pub counted : x.passed_test_cases ≡ passed + length front
    pub reported : Reported canon reset job rs world (i + length front) failing x

  one_more :
      (i passed passed' : ℕ) (tc : TestCase) (tcs : List TestCase) (x : JudgeResult)
      → passed' ≡ passed + 1
      → Passes canon reset job rs world i tc
      → Stops (i + 1) passed' tcs x
      → Stops i passed (tc ∷ tcs) x
  one_more i passed passed' tc tcs x one pass stop = record {
    front = tc ∷ stop.front;
    failing = stop.failing;
    rest = stop.rest;
    split = ap (◌∷◌ tc) stop.split;
    front_passes = (pass, stop.front_passes);
    fails =
        subst (λ j. ¬ Passes canon reset job rs world j stop.failing)
          (sym (plus_one i (length stop.front))) stop.fails;
    counted = omega (arith, stop.counted);
    reported =
        subst (λ j. Reported canon reset job rs world j stop.failing x)
          (sym (plus_one i (length stop.front))) stop.reported;
  }

  -- Every case passed, and all are counted.
  abbrev pub Accepts : ℕ → ℕ → List TestCase → JudgeResult → Type 0
  Accepts i passed tcs x =
      AllPass canon reset job rs world i tcs
      × (x.passed_test_cases ≡ passed + length tcs)
      × (x.failed_test_case ≡ none)

  run_cases_means :
      (total i : ℕ) (tcs : List TestCase) (s t : Sandbox) (p : Progress) (x : JudgeResult)
      → run_cases canon reset job total rs world i tcs s p ≡ (ok x, t)
      → ((x.status ≡ accepted) × Accepts i p.passed tcs x)
        ⊎ ((x.status ≢ accepted) × Stops i p.passed tcs x)
  unfolding accept
  run_cases_means total i [] s t p x h =
      let n = run_cases-nil canon reset job total rs world i s p in
      inl (ground arith, (tt, ground arith, ground arith))
  run_cases_means total i (tc ∷ tcs) s t p x h =
      let o = round canon reset job total rs world i tc tcs s t p in
      elim (outcome_cases o.0) [
        | inl (e, q) ↦
            let k =
              run_cases-breaks canon reset job total rs world i tc tcs s o.1 p e
                (ap (λ z. (z, o.1)) q) in
            absurd (ground arith)
        | inr (inl (y, q)) ↦
            let k =
              run_cases-decides canon reset job total rs world i tc tcs s o.1 p y
                (ap (λ z. (z, o.1)) q) in
            let same : y ≡ x = ground arith in
            let (bad, counted, reported, fails) =
              round-decides canon reset job rs world total i tc tcs s o.1 p y
                (ap (λ z. (z, o.1)) q) in
            inr (
              λ e. bad (ap {A = JudgeResult} (λ z. z.status) same ∙ e),
              record {
                front = [];
                failing = tc;
                rest = tcs;
                split = refl;
                front_passes = tt;
                fails =
                    subst (λ j. ¬ Passes canon reset job rs world j tc) (sym (plus_zero i)) fails;
                counted = ground arith;
                reported =
                    subst (λ z. Reported canon reset job rs world (i + 0) tc z) same
                      (subst (λ j. Reported canon reset job rs world j tc y) (sym (plus_zero i))
                        reported);
              },
            )
        | inr (inr (y, q)) ↦
            let k =
              run_cases-passes canon reset job total rs world i tc tcs s o.1 p y
                (ap (λ z. (z, o.1)) q) in
            let (pass, one) =
              round-Passes canon reset job rs world total i tc tcs s o.1 p y
                (ap (λ z. (z, o.1)) q) in
            elim (run_cases_means total (i + 1) tcs o.1 t y x (sym k ∙ h)) [
              | inl (acc, (all, count, nothing)) ↦ inl (acc, ((pass, all), ground arith, nothing))
              | inr (bad, stop) ↦ inr (bad, one_more i p.passed y.passed tc tcs x one pass stop)
            ]
      ]

  run_cases_passing :
      (total i : ℕ) (tcs : List TestCase) (s : Sandbox) (p : Progress)
      → AllPass canon reset job rs world i tcs
      → (x : JudgeResult) × (t : Sandbox) × (run_cases canon reset job total rs world i tcs s p
          ≡ (ok x, t))
        × (x.status ≡ accepted)
  unfolding accept
  run_cases_passing total i [] s p a =
      (accept canon total p, s, run_cases-nil canon reset job total rs world i s p, refl)
  run_cases_passing total i (tc ∷ tcs) s p (a, more) =
      let (q, u, k, _) = Passes-round canon reset job rs world total i tc tcs s s p a in
      let (x, t, h, acc) = run_cases_passing total (i + 1) tcs u q more in
      (x, t, run_cases-passes canon reset job total rs world i tc tcs s u p q k ∙ h, acc)

-- Whether the sandbox is reset behind every case, and the results that are there beforehand.
abbrev pub resets : Option (Result Text (Option (List (Option RunResult)))) → Bool
resets none = true
resets (some r) = false

abbrev pub results_of :
    Option (Result Text (Option (List (Option RunResult)))) → Option (List (Option RunResult))
results_of (some (ok rs)) = rs
results_of _ = none

-- A verdict is accepted with every case passed and counted, or it is about the first case that did
-- not pass: the cases before that one passed, their number is reported, and that case is reported
-- with the trimmed standard output of its run.
pub verdict-first_failure :
    (canon : Canonical) (job : Job)
    (supervisor : Option (Result Text (Option (List (Option RunResult)))))
    (world : ℕ → Text → CaseRun) (s t : Sandbox) (x : JudgeResult)
    → run_test_cases canon job supervisor world s ≡ (ok x, t)
    → ((x.status ≡ accepted)
        × Accepts canon (resets supervisor) job (results_of supervisor) world 0 0 job.test_cases x)
      ⊎ ((x.status ≢ accepted)
          × Stops canon (resets supervisor) job (results_of supervisor) world 0 0 job.test_cases x)
unfolding run_test_cases
verdict-first_failure canon job none world s t x h =
    run_cases_means canon true job none world (length job.test_cases) 0 job.test_cases s t
      no_progress x h
verdict-first_failure canon job (some (ok rs)) world s t x h =
    run_cases_means canon false job rs world (length job.test_cases) 0 job.test_cases s t
      no_progress x h
verdict-first_failure canon job (some (err e)) world s t x h = absurd (ground arith)

-- Unless the supervisor itself failed, a submission whose cases all pass is accepted.
pub AllPass-accepted :
    (canon : Canonical) (job : Job)
    (supervisor : Option (Result Text (Option (List (Option RunResult)))))
    (world : ℕ → Text → CaseRun) (s : Sandbox)
    → ((e : Text) → supervisor ≢ some (err e))
    → AllPass canon (resets supervisor) job (results_of supervisor) world 0 job.test_cases
    → (x : JudgeResult) × (t : Sandbox) × (run_test_cases canon job supervisor world s ≡ (ok x, t))
      × (x.status ≡ accepted)
unfolding run_test_cases
AllPass-accepted canon job none world s no_error all =
    run_cases_passing canon true job none world (length job.test_cases) 0 job.test_cases s
      no_progress all
AllPass-accepted canon job (some (ok rs)) world s no_error all =
    run_cases_passing canon false job rs world (length job.test_cases) 0 job.test_cases s
      no_progress all
AllPass-accepted canon job (some (err e)) world s no_error all = absurd (no_error e refl)
