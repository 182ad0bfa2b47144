-- ===== src/Store/Tests.antt =====
-- A small history of the submissions table, and the theorems at it.
use Prim.Native.Nat.{max}
use yex_judge.Common.{
  ℕ, ◌+◌, ◌≤◌, ◌<◌, ◌≡◌, ◌≢◌, refl, ◌⊎◌, Bool, true, false, none, some, List, [], ◌∷◌, ◌++◌, Text,
  codes, text_eq, All, arith, ok, err, pos,
}
use yex_judge.Types.{Job, Submission, queued, running, finished}
use yex_judge.Store.{
  Row, Table, update_where, count_where, count_status, find_row, has_id, oldest, claimable, new_row,
  claimed_row, requeued_row, lock_expired, is_expired, may_renew, renewed_row,
}
use yex_judge.Store.Queue.{
  StoreError, Config, Claim, queue_full, duplicate_id, save_admitted, update, claim_next,
  renew_lease, recover_expired, insert_submission, recover_rows, recover_row,
}
use yex_judge.Store.History.{
  Event, Call, submits, claims, recovers, new_submission, step, history, call_step, handed_out,
}
use yex_judge.Store.Invariant.{IsSoundTable, step-IsSoundTable}
use yex_judge.Store.Attempts.{history-final, history-keeps}
use yex_judge.Store.Fencing.{claim_next-fences}
use yex_judge.Store.Claims.{handed_out-IsIncreasing, IsIncreasing}
use yex_judge.Store.Recovery.{no_fault, after_recovery, recover_expired-rows}
use yex_judge.Store.Admission.{save_admitted-decides, claim_next-oldest, renew_lease-extends}

abbrev settings : Config
settings = record { lease_duration = 60; max_attempts = 2; max_queued = 2 }

abbrev sample_job : Job
sample_job = record {
  language = codes "c";
  mode = [];
  source_code = codes "int main(){}";
  function = none;
  class = none;
  test_cases = [];
  limits = record { time_limit_ms = pos 1000; memory_limit_mb = pos 64 };
}

abbrev unlocked : Text → Bool
unlocked k = false

abbrev at_time : ℕ → Call → Event
at_time now call = record { now = now; fault = no_fault; locked = unlocked; call = call }

-- Submission "1" is claimed at 10, its lease runs out at 70, and it is claimed again at 80.
abbrev retried : List Event
retried =
    at_time 0 (submits (codes "1") sample_job)
    ∷ at_time 10 claims
    ∷ at_time 75 recovers
    ∷ at_time 80 claims
    ∷ []

retried_claims :
    handed_out settings retried []
    ≡ record { id = codes "1"; attempt = 1 } ∷ record { id = codes "1"; attempt = 2 } ∷ []
unfolding handed_out step call_step save_admitted insert_submission claim_next recover_expired
    recover_rows recover_row requeued_row lock_expired oldest claimable is_expired update_where
    count_where count_status new_row new_submission claimed_row text_eq
retried_claims = refl

handed_out-IsIncreasing_example : IsIncreasing (handed_out settings retried [])
handed_out-IsIncreasing_example =
    handed_out-IsIncreasing settings retried [] (omega arith) (tt, (tt, (tt, (tt, tt))))
      (record { unique = tt; rows = tt })

abbrev waiting : Row
waiting = record {
  id = codes "1";
  status = queued;
  job = sample_job;
  result = none;
  started_at = none;
  attempt_count = 1;
  lease_expires_at = none;
  failure_message = none;
  created_at = 5;
  updated_at = 5;
}

abbrev working : Row
working = record {
  id = codes "2";
  status = running;
  job = sample_job;
  result = none;
  started_at = some 10;
  attempt_count = 1;
  lease_expires_at = some 70;
  failure_message = none;
  created_at = 6;
  updated_at = 10;
}

abbrev done : Row
done = record {
  id = codes "3";
  status = finished;
  job = sample_job;
  result = none;
  started_at = some 1;
  attempt_count = 1;
  lease_expires_at = none;
  failure_message = none;
  created_at = 1;
  updated_at = 4;
}

abbrev rows : Table
rows = waiting ∷ working ∷ done ∷ []

rows-IsSoundTable : IsSoundTable settings rows
rows-IsSoundTable = ground arith

abbrev claim_of_waiting : Claim
claim_of_waiting = record { id = codes "1"; attempt = 2 }

abbrev reclaimed : Table
reclaimed = update_where (has_id (codes "1")) (claimed_row 100 60) rows

reclaims : claim_next settings no_fault unlocked 100 rows ≡ ok (some claim_of_waiting, reclaimed)
unfolding claim_next oldest claimable
reclaims = refl

abbrev late_report : Submission
late_report = record (new_submission (codes "1") sample_job) {
  status = finished;
  attempt_count = 1;
}

claim_next-fences_example :
    let v = history settings (at_time 110 recovers ∷ []) reclaimed in
    ((e : StoreError) × (update no_fault 120 late_report v ≡ err e))
    × ((e : StoreError) × (renew_lease settings no_fault 120
            (record { id = codes "1"; attempt = 1 })
            v
          ≡ err e))
unfolding new_submission
claim_next-fences_example =
    claim_next-fences settings no_fault no_fault unlocked 100 120 rows reclaimed claim_of_waiting
      (at_time 110 recovers ∷ []) (record { id = codes "1"; attempt = 1 }) late_report (omega arith)
      rows-IsSoundTable (tt, tt) reclaims refl (omega arith) refl refl

recover_expired-rows_example :
    (u : Table) × (recover_expired settings no_fault unlocked 75 rows
      ≡ ok (count_where (is_expired unlocked 75) rows, u))
    × ((k : Text)
        → find_row k u ≡ elim (find_row k rows) [
          | none ↦ none
          | some r ↦ some (after_recovery settings unlocked 75 r)
        ])
recover_expired-rows_example = recover_expired-rows settings unlocked 75 rows rows-IsSoundTable

step-IsSoundTable_example : IsSoundTable settings (step settings (at_time 75 recovers) rows)
step-IsSoundTable_example =
    step-IsSoundTable settings (at_time 75 recovers) rows (omega arith) tt rows-IsSoundTable

finds_done : find_row (codes "3") rows ≡ some done
unfolding find_row text_eq
finds_done = refl

history-final_example : find_row (codes "3") (history settings retried rows) ≡ some done
history-final_example =
    history-final settings retried rows (codes "3") done (omega arith) (tt, (tt, (tt, (tt, tt))))
      rows-IsSoundTable finds_done tt

history-keeps_example :
    (q : Row) × (find_row (codes "3") (history settings retried rows) ≡ some q)
    × (q.job ≡ sample_job)
    × (1 ≤ q.attempt_count)
history-keeps_example =
    history-keeps settings retried rows (codes "3") done (omega arith) (tt, (tt, (tt, (tt, tt))))
      rows-IsSoundTable finds_done

save_admitted-decides_example :
    ((2 ≤ count_status queued rows)
      × (save_admitted settings no_fault 90 (new_submission (codes "4") sample_job) rows
          ≡ err queue_full))
    ⊎ ((count_status queued rows < 2)
        × (0 < count_where (has_id (codes "4")) rows)
        × (save_admitted settings no_fault 90 (new_submission (codes "4") sample_job) rows
            ≡ err (duplicate_id (codes "4"))))
    ⊎ ((count_where (has_id (codes "4")) rows ≡ 0)
        × (save_admitted settings no_fault 90 (new_submission (codes "4") sample_job) rows
            ≡ ok (rows ++ new_row 90 (new_submission (codes "4") sample_job) ∷ []))
        × (count_status queued (rows ++ new_row 90 (new_submission (codes "4") sample_job) ∷ [])
            ≡ count_status queued rows + 1)
        × (count_status queued rows + 1 ≤ 2))
save_admitted-decides_example = save_admitted-decides settings 90 (codes "4") sample_job rows

claim_next-oldest_example :
    ((some claim_of_waiting ≡ none)
      × (reclaimed ≡ rows)
      × All (λ q. claimable unlocked q ≡ false) rows)
    ⊎ ((r : Row) × (some claim_of_waiting
          ≡ some (record { id = r.id; attempt = r.attempt_count + 1 }))
        × (find_row r.id rows ≡ some r)
        × (claimable unlocked r ≡ true)
        × All (λ q. claimable unlocked q ≡ true → r.created_at ≤ q.created_at) rows
        × (find_row r.id reclaimed ≡ some (claimed_row 100 60 r))
        × ((k : Text) → k ≢ r.id → find_row k reclaimed ≡ find_row k rows))
claim_next-oldest_example =
    claim_next-oldest settings no_fault unlocked 100 rows reclaimed (some claim_of_waiting)
      rows-IsSoundTable reclaims

abbrev claim_of_working : Claim
claim_of_working = record { id = codes "2"; attempt = 1 }

abbrev extended : Table
extended = update_where (may_renew 50 (codes "2") 1) (renewed_row 50 60) rows

extends : renew_lease settings no_fault 50 claim_of_working rows ≡ ok extended
unfolding renew_lease count_where may_renew text_eq
extends = refl

renew_lease-extends_example :
    (r : Row) × (l : ℕ) × (find_row (codes "2") rows ≡ some r)
    × (r.status ≡ running)
    × (r.attempt_count ≡ 1)
    × (r.lease_expires_at ≡ some l)
    × (50 < l)
    × (find_row (codes "2") extended
        ≡ some (record r { lease_expires_at = some (max l 110); updated_at = 50 }))
    × ((k : Text) → k ≢ codes "2" → find_row k extended ≡ find_row k rows)
renew_lease-extends_example =
    renew_lease-extends settings no_fault 50 claim_of_working rows extended rows-IsSoundTable
      extends
