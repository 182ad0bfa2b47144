-- ===== src/Service/Reports.antt =====
-- What it means that `ProcessSubmission` (internal/judge/service.go) reports a submission, and that
-- its two ways to end do so.
use yex_judge.Common.{
  ℕ, ◌≤◌, ◌<◌, some, List, [], ◌∷◌, ◌++◌, ok, length, All, All-append, length-append, ◌≡◌, ◌≢◌,
  refl, subst, ◌⊎◌, inl, inr, arith, Bool-cases, Result-cases,
}
use yex_judge.Types.{
  Status, JudgeResult, Submission, queued, finished, failed, infrastructure_error,
}
use yex_judge.Store.{Table}
use yex_judge.Store.Queue.{update}
use yex_judge.Verdict.{Sandbox}
use yex_judge.Service.{
  World, Setup, Processed, unjudged, internal_message, last_update, finish, infrastructure_failure,
  is_infrastructure,
}

-- The same submission, on the same attempt.
pub record IsSame (sub u : Submission) : Type 0 where
  pub id : u.id ≡ sub.id
  pub attempt : u.attempt_count ≡ sub.attempt_count
  pub job : u.job ≡ sub.job

-- An update of the submission itself, on the same attempt, that does not queue it.
pub record IsOwnUpdate (sub u : Submission) : Type 0 where
  pub same : IsSame sub u
  pub not_queued : u.status ≢ queued

-- The last update stores the verdict, as finished, or as failed with the generic message; the store
-- has accepted it, and its table is what processing leaves.
pub record IsStored (w : World) (r : JudgeResult) (updates : List Submission) (t : Table)
    : Type 0 where
  pub front : List Submission
  pub last : Submission
  pub split : updates ≡ front ++ last ∷ []
  pub stored : last.result ≡ some r
  pub number : ℕ
  pub earlier : Table
  pub accepted : update (w.fault number) (w.time number) last (w.others number earlier) ≡ ok t
  pub status :
      ((last.status ≡ finished) × (r.status ≢ infrastructure_error))
      ⊎ ((last.status ≡ failed)
          × (r.status ≡ infrastructure_error)
          × (r.error_message ≡ internal_message))

pub record IsReported (w : World) (sub : Submission) (p : Processed) : Type 0 where
  pub own : All (IsOwnUpdate sub) p.updates
  pub some_update : 0 < length p.updates
  pub two_updates : length p.updates ≤ 2
  pub returned : (r : JudgeResult) → p.outcome ≡ ok r → IsStored w r p.updates p.table

pub status_cases : (s : Status) → (s ≡ infrastructure_error) ⊎ (s ≢ infrastructure_error)
status_cases s = elim (Bool-cases (is_infrastructure s)) [
  | inl e ↦ inl (ground arith)
  | inr e ↦ inr (λ q. absurd (ground arith))
]

module _ (setup : Setup) (w : World) where
  last_update_stored :
      (k : ℕ) (sub u : Submission) (r : JudgeResult) (before : List Submission)
      (released : List Sandbox) (t : Table)
      → u.result ≡ some r
      → ((u.status ≡ finished) × (r.status ≢ infrastructure_error))
        ⊎ ((u.status ≡ failed)
            × (r.status ≡ infrastructure_error)
            × (r.error_message ≡ internal_message))
      → (x : JudgeResult) → (last_update setup w k u r before released t).outcome ≡ ok x
      → IsStored w x (before ++ u ∷ []) (last_update setup w k u r before released t).table
  unfolding last_update
  last_update_stored k sub u r before released t stored status x h =
      elim (Result-cases (update (w.fault k) (w.time k) u (w.others k t))) [
        | inr (e, q) ↦ absurd (ground arith)
        | inl (v, q) ↦
            let same : r ≡ x = ground arith in
            subst
              (λ y.
                IsStored w y (before ++ u ∷ []) (last_update setup w k u r before released t).table)
              same
              (record {
                front = before;
                last = u;
                split = refl;
                stored = stored;
                number = k;
                earlier = t;
                accepted = ground arith;
                status = status;
              })
      ]

  last_update-IsReported :
      (k : ℕ) (sub u : Submission) (r : JudgeResult) (before : List Submission)
      (released : List Sandbox) (t : Table)
      → All (IsOwnUpdate sub) before
      → length before ≤ 1
      → IsOwnUpdate sub u
      → u.result ≡ some r
      → ((u.status ≡ finished) × (r.status ≢ infrastructure_error))
        ⊎ ((u.status ≡ failed)
            × (r.status ≡ infrastructure_error)
            × (r.error_message ≡ internal_message))
      → IsReported w sub (last_update setup w k u r before released t)
  unfolding last_update
  last_update-IsReported k sub u r before released t own few mine stored status = record {
    own = All-append (IsOwnUpdate sub) before (u ∷ []) own (mine, tt);
    some_update = omega (arith, length-append before (u ∷ []));
    two_updates = omega (arith, length-append before (u ∷ []));
    returned = λ x h. last_update_stored k sub u r before released t stored status x h;
  }

  module _ (sub : Submission) (before : List Submission) (released : List Sandbox) (k : ℕ)
      (own : All (IsOwnUpdate sub) before) (few : length before ≤ 1) where
    pub finish-IsReported :
        (sub' : Submission) (r : JudgeResult) (t : Table)
        → IsSame sub sub'
        → r.status ≢ infrastructure_error
        → IsReported w sub (finish setup w k sub' r before released t)
    unfolding finish
    finish-IsReported sub' r t mine ne =
        last_update-IsReported k sub (record sub' { status = finished; result = some r }) r before
          released t own few
          (record {
            same = record { id = mine.id; attempt = mine.attempt; job = mine.job };
            not_queued = λ e. absurd (ground arith);
          })
          refl (inl (refl, ne))

    pub infrastructure_failure-IsReported :
        (sub' : Submission) (t : Table)
        → IsSame sub sub'
        → IsReported w sub (infrastructure_failure setup w k sub' before released t)
    unfolding infrastructure_failure unjudged
    infrastructure_failure-IsReported sub' t mine =
        last_update-IsReported k sub _ _ before released t own few
          (record {
            same = record { id = mine.id; attempt = mine.attempt; job = mine.job };
            not_queued = λ e. absurd (ground arith);
          })
          refl (inr (refl, refl, refl))
