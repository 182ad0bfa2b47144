-- ===== src/Store/Queue.antt =====
-- `PostgresSubmissionQueue` (internal/judge/postgres_queue.go) and `PostgresSubmissionStore`
-- (internal/judge/postgres_store.go) over the table. The database may refuse any statement:
-- `fault k` is the error of a method's k-th statement, if it has one. A method that fails rolls
-- its transaction back, so it returns no table.
use yex_judge.Common.{
  ℕ, ◌+◌, Bool, not, Option, none, some, List, [], ◌∷◌, ◌++◌, Text, codes, decimal, Result, ok, err,
  ◌>>=◌, ◌>>◌, reject_if, ltb, leb, ◌==◌, length, if◌then◌else◌, ℤ, is_nonpos, to_nat,
}
use yex_judge.Types.{JudgeResult, infrastructure_error, Submission, queued, running, failed}
use yex_judge.Store.{
  Row, Table, update_where, count_where, find_row, new_row, may_update, updated_row, may_renew,
  renewed_row, oldest, claimable, claimed_row, lock_expired, has_id, requeued_row, failed_row,
  count_status,
}

pub data StoreError : Type 0 where
  db_error : Text → StoreError
  duplicate_id : Text → StoreError
  -- ErrQueueFull.
  queue_full : StoreError
  -- "lease or attempt is no longer owned".
  not_owned : Text → StoreError
  -- "lease renewal lost attempt".
  lost_attempt : Text → ℕ → StoreError
  -- "locked expired submission was not updated".
  not_updated : Text → StoreError
  closed canceled : StoreError

abbrev pub Fault : Type 0
Fault = ℕ → Option Text

abbrev pub statement : Option Text → Result StoreError (Unit {0})
statement none = ok tt
statement (some e) = err (db_error e)

pub record Config : Type 0 where
  pub lease_duration : ℕ
  pub max_attempts : ℕ
  pub max_queued : ℕ

-- The defaults of the constructors: a value that is not positive is replaced.
or_default : ℤ → ℕ → ℕ
or_default v d = if is_nonpos v then d else to_nat v

unfoldable pub new_config : ℤ → ℤ → ℤ → Config
unfolding or_default
new_config lease attempts queue_limit = record {
  lease_duration = or_default lease 60_000_000_000;
  max_attempts = or_default attempts 3;
  max_queued = or_default queue_limit 100;
}

-- insertSubmission: the id is the table's primary key.
unfoldable pub insert_submission : Option Text → ℕ → Submission → Table → Result StoreError Table
insert_submission fault now sub t = do
  statement fault
  reject_if (ltb 0 (count_where (has_id sub.id) t)) (duplicate_id sub.id)
  ok (t ++ new_row now sub ∷ [])

-- SaveAdmitted: begin, advisory lock, count, insert, commit.
unfoldable pub save_admitted : Config → Fault → ℕ → Submission → Table → Result StoreError Table
save_admitted c fault now sub t = do
  statement (fault 0)
  statement (fault 1)
  statement (fault 2)
  reject_if (leb c.max_queued (count_status queued t)) queue_full
  t' ← insert_submission (fault 3) now sub t
  statement (fault 4)
  ok t'

-- UpdateContext.
unfoldable pub update : Fault → ℕ → Submission → Table → Result StoreError Table
update fault now sub t = do
  statement (fault 0)
  reject_if (not (count_where (may_update now sub) t == 1)) (not_owned sub.id)
  ok (update_where (may_update now sub) (updated_row now sub) t)

-- GetContext: the row as a submission.
unfoldable pub to_submission : Row → Submission
to_submission r = record {
  created_at = some r.created_at;
  id = r.id;
  job = r.job;
  status = r.status;
  result = r.result;
  started_at = r.started_at;
  attempt_count = r.attempt_count;
  lease_expires_at = r.lease_expires_at;
  failure_message = elim r.failure_message [ none ↦ [] | some m ↦ m ];
}

unfoldable pub get : Fault → Text → Table → Result StoreError (Option Submission)
unfolding to_submission
get fault k t = do
  statement (fault 0)
  ok (elim (find_row k t) [ none ↦ none | some r ↦ some (to_submission r) ])

pub record Claim : Type 0 where
  pub id : Text
  pub attempt : ℕ

-- claimNextSubmission: `none` is pgx.ErrNoRows.
unfoldable pub claim_next :
    Config → Fault → (Text → Bool) → ℕ → Table → Result StoreError (Option Claim × Table)
claim_next c fault locked now t = do
  statement (fault 0)
  ok (elim (oldest (claimable locked) t) [
    | none ↦ (none, t)
    | some r ↦ (
      some (record { id = r.id; attempt = r.attempt_count + 1 }),
      update_where (has_id r.id) (claimed_row now c.lease_duration) t,
    )
  ])

-- RenewLease.
unfoldable pub renew_lease : Config → Fault → ℕ → Claim → Table → Result StoreError Table
renew_lease c fault now claim t = do
  statement (fault 0)
  reject_if (not (count_where (may_renew now claim.id claim.attempt) t == 1))
      (lost_attempt claim.id claim.attempt)
  ok (update_where (may_renew now claim.id claim.attempt) (renewed_row now c.lease_duration) t)

abbrev pub timed_out_message : Text
timed_out_message = codes "The judge timed out while processing this submission. Please retry."

unfoldable pub lease_expired_result : JudgeResult
lease_expired_result = record {
  status = infrastructure_error;
  passed_test_cases = 0;
  total_test_cases = 0;
  runtime_ms = 0;
  memory_bytes = 0;
  failed_test_case = none;
  error_message = timed_out_message;
}

-- "worker lease expired on attempt A; retrying attempt A+1 of M".
unfoldable pub retry_message : ℕ → ℕ → Text
retry_message attempt max =
    codes "worker lease expired on attempt "
    ++ (decimal attempt
        ++ (codes "; retrying attempt "
            ++ (decimal (attempt + 1) ++ (codes " of " ++ decimal max))))

-- One round of RecoverExpired's loop over the locked rows.
unfoldable pub recover_row : Config → ℕ → Row → Table → Table
recover_row c now item t =
    if ltb item.attempt_count c.max_attempts
    then update_where (has_id item.id)
        (requeued_row now (retry_message item.attempt_count c.max_attempts)) t
    else update_where (has_id item.id) (failed_row now lease_expired_result timed_out_message) t

unfoldable pub recover_rows : Config → Fault → ℕ → ℕ → List Row → Table → Result StoreError Table
recover_rows c fault k now [] t = ok t
recover_rows c fault k now (item ∷ items) t = do
  statement (fault k)
  reject_if (not (count_where (has_id item.id) t == 1)) (not_updated item.id)
  recover_rows c fault (k + 1) now items (recover_row c now item t)

-- RecoverExpired: begin, lock, one update for each row, commit.
unfoldable pub recover_expired :
    Config → Fault → (Text → Bool) → ℕ → Table → Result StoreError (ℕ × Table)
recover_expired c fault locked now t = do
  statement (fault 0)
  statement (fault 1)
  let expired = lock_expired locked now t
  t' ← recover_rows c fault 2 now expired t
  statement (fault (2 + length expired))
  ok (length expired, t')

-- Enqueue only tests that the queue is open: the row is already stored.
unfoldable pub enqueue : Bool → Text → Result StoreError (Unit {0})
enqueue is_closed id = reject_if is_closed closed

pub record Counts : Type 0 where
  pub queued_count : ℕ
  pub running_count : ℕ
  pub failed_count : ℕ

unfoldable pub counts : Fault → Table → Result StoreError Counts
counts fault t = do
  statement (fault 0)
  ok (record {
    queued_count = count_status queued t;
    running_count = count_status running t;
    failed_count = count_status failed t;
  })
