-- ===== src/Store.antt =====
-- The submissions table and its queries: internal/dbquery/submissions.sql.go, whose SQL the file
-- holds as text. A table is a list of rows; `NOW()` is the argument `now`, one value for all
-- statements of a transaction, and times are nanoseconds. `locked` says which rows another
-- transaction holds locked, which `SKIP LOCKED` passes over. A `job` or `result` column is the
-- value that its JSON decodes to.
pub mod Queue
pub mod History
pub mod Admission
pub mod Rows
pub mod Members
pub mod Outcomes
pub mod Invariant
pub mod Writes
pub mod Attempts
pub mod Fencing
pub mod Claims
pub mod Recovery
pub mod Tests
use yex_judge.Common.{
  ℕ, zero, suc, ◌+◌, Bool, true, false, not, ◌&&◌, ◌||◌, Option, none, some, List, [], ◌∷◌, ◌++◌,
  Text, text_eq, ltb, leb, ◌==◌, if◌then◌else◌, length,
}
use yex_judge.Types.{
  Job, JudgeResult, Submission, SubmissionStatus, queued, running, finished, failed, status_eq,
}

pub record Row : Type 0 where
  pub id : Text
  pub status : SubmissionStatus
  pub job : Job
  pub result : Option JudgeResult
  pub started_at : Option ℕ
  pub attempt_count : ℕ
  pub lease_expires_at : Option ℕ
  pub failure_message : Option Text
  pub created_at : ℕ
  pub updated_at : ℕ

abbrev pub Table : Type 0
Table = List Row

-- `UPDATE … WHERE` and the rows that it affects.
unfoldable pub update_where : (Row → Bool) → (Row → Row) → Table → Table
update_where p f [] = []
update_where p f (r ∷ rs) = (if p r then f r else r) ∷ update_where p f rs

unfoldable pub count_where : (Row → Bool) → Table → ℕ
count_where p [] = 0
count_where p (r ∷ rs) = if p r then suc (count_where p rs) else count_where p rs

unfoldable pub find_row : Text → Table → Option Row
find_row k [] = none
find_row k (r ∷ rs) = if text_eq r.id k then some r else find_row k rs

-- A comparison with a NULL lease is not true.
abbrev pub lease_after : Option ℕ → ℕ → Bool
lease_after none now = false
lease_after (some l) now = ltb now l

abbrev pub lease_reached : Option ℕ → ℕ → Bool
lease_reached none now = false
lease_reached (some l) now = leb l now

-- InsertSubmission.
unfoldable pub new_row : ℕ → Submission → Row
new_row now sub = record {
  id = sub.id;
  status = sub.status;
  job = sub.job;
  result = sub.result;
  started_at = sub.started_at;
  attempt_count = sub.attempt_count;
  lease_expires_at = sub.lease_expires_at;
  failure_message = some sub.failure_message;
  created_at = now;
  updated_at = now;
}

-- UpdateSubmission: the rows it may write, and what it writes.
unfoldable pub may_update : ℕ → Submission → Row → Bool
may_update now sub r =
    text_eq r.id sub.id
    && (r.attempt_count == sub.attempt_count
        && ((status_eq r.status running && lease_after r.lease_expires_at now)
            || (status_eq r.status queued
                && (status_eq sub.status failed && r.attempt_count == 0))))

unfoldable pub updated_row : ℕ → Submission → Row → Row
updated_row now sub r = record r {
  status = sub.status;
  result = sub.result;
  started_at = sub.started_at;
  lease_expires_at =
      if status_eq sub.status finished || status_eq sub.status failed
      then none
      else if status_eq sub.status running
      then r.lease_expires_at
      else sub.lease_expires_at;
  failure_message = some sub.failure_message;
  updated_at = now;
}

-- RenewSubmissionLease. `GREATEST` takes the later time.
unfoldable pub may_renew : ℕ → Text → ℕ → Row → Bool
may_renew now k attempt r =
    text_eq r.id k
    && (status_eq r.status running
        && (r.attempt_count == attempt && lease_after r.lease_expires_at now))

abbrev greatest : Option ℕ → ℕ → ℕ
greatest none t = t
greatest (some l) t = if ltb l t then t else l

unfoldable pub renewed_row : ℕ → ℕ → Row → Row
renewed_row now lease r = record r {
  lease_expires_at = some (greatest r.lease_expires_at (now + lease));
  updated_at = now;
}

-- ClaimNextSubmission: the oldest queued row that is not locked, the first of those in a tie.
unfoldable pub older : Row → Option Row → Row
older r none = r
older r (some q) = if leb r.created_at q.created_at then r else q

unfoldable pub oldest : (Row → Bool) → Table → Option Row
unfolding older
oldest p [] = none
oldest p (r ∷ rs) = if p r then some (older r (oldest p rs)) else oldest p rs

unfoldable pub claimable : (Text → Bool) → Row → Bool
claimable locked r = status_eq r.status queued && not (locked r.id)

unfoldable pub claimed_row : ℕ → ℕ → Row → Row
claimed_row now lease r = record r {
  status = running;
  attempt_count = r.attempt_count + 1;
  started_at = some now;
  lease_expires_at = some (now + lease);
  updated_at = now;
}

-- LockExpiredSubmissions, in the order of the lease and then of creation.
unfoldable pub is_expired : (Text → Bool) → ℕ → Row → Bool
is_expired locked now r =
    status_eq r.status running && (lease_reached r.lease_expires_at now && not (locked r.id))

abbrev lease_of : Row → ℕ
lease_of r = elim r.lease_expires_at [ none ↦ 0 | some l ↦ l ]

expires_before : Row → Row → Bool
expires_before r q =
    ltb (lease_of r) (lease_of q) || (lease_of r == lease_of q && leb r.created_at q.created_at)

insert_by_lease : Row → List Row → List Row
insert_by_lease r [] = r ∷ []
insert_by_lease r (q ∷ qs) = if expires_before r q then r ∷ q ∷ qs else q ∷ insert_by_lease r qs

unfoldable pub lock_expired : (Text → Bool) → ℕ → Table → List Row
unfolding insert_by_lease expires_before
lock_expired locked now [] = []
lock_expired locked now (r ∷ rs) =
    if is_expired locked now r
    then insert_by_lease r (lock_expired locked now rs)
    else lock_expired locked now rs

abbrev pub has_id : Text → Row → Bool
has_id k r = text_eq r.id k

-- RequeueExpiredSubmission and FailExpiredSubmission.
unfoldable pub requeued_row : ℕ → Text → Row → Row
requeued_row now message r = record r {
  status = queued;
  result = none;
  started_at = none;
  lease_expires_at = none;
  failure_message = some message;
  updated_at = now;
}

unfoldable pub failed_row : ℕ → JudgeResult → Text → Row → Row
failed_row now result message r = record r {
  status = failed;
  result = some result;
  lease_expires_at = none;
  failure_message = some message;
  updated_at = now;
}

-- CountQueuedSubmissions and CountSubmissionsByStatus.
unfoldable pub count_status : SubmissionStatus → Table → ℕ
unfolding count_where
count_status s t = count_where (λ r. status_eq r.status s) t
