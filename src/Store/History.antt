-- ===== src/Store/History.antt =====
-- Histories of the submissions table: the calls that the server, its workers and the recovery
-- loop make, one after the other, as PostgreSQL serialises their transactions.
use yex_judge.Common.{ℕ, Bool, Option, none, some, List, [], ◌∷◌, ◌++◌, Text, Result, ok, err, ◌≢◌}
use yex_judge.Types.{Job, Submission, queued}
use yex_judge.Store.{Table}
use yex_judge.Store.Queue.{
  StoreError, Fault, Config, Claim, save_admitted, update, claim_next, renew_lease, recover_expired,
}

-- The submission that `createAndQueueSubmission` (cmd/server/main.go) makes of a job.
unfoldable pub new_submission : Text → Job → Submission
new_submission id job = record {
  created_at = none;
  id = id;
  job = job;
  status = queued;
  result = none;
  started_at = none;
  attempt_count = 0;
  lease_expires_at = none;
  failure_message = [];
}

pub data Call : Type 0 where
  submits : Text → Job → Call
  claims recovers : Call
  renews : Claim → Call
  updates : Submission → Call

-- A call with the time, the faults and the foreign locks that it meets.
pub record Event : Type 0 where
  pub now : ℕ
  pub fault : Fault
  pub locked : Text → Bool
  pub call : Call

-- A method that fails leaves the table as it was.
abbrev pub after : Table → Result StoreError Table → Table
after t (ok u) = u
after t (err e) = t

abbrev pub table_of {ℓ} : {A : Type ℓ} → Result StoreError (A × Table) → Result StoreError Table
table_of (ok r) = ok r.1
table_of (err e) = err e

abbrev pub claim_of : Result StoreError (Option Claim × Table) → List Claim
claim_of (ok (some claim, t)) = claim ∷ []
claim_of _ = []

unfoldable pub call_step : Config → Event → Call → Table → Table
call_step c e (submits id job) t = after t (save_admitted c e.fault e.now (new_submission id job) t)
call_step c e claims t = after t (table_of (claim_next c e.fault e.locked e.now t))
call_step c e recovers t = after t (table_of (recover_expired c e.fault e.locked e.now t))
call_step c e (renews claim) t = after t (renew_lease c e.fault e.now claim t)
call_step c e (updates sub) t = after t (update e.fault e.now sub t)

unfoldable pub step : Config → Event → Table → Table
unfolding call_step
step c e t = call_step c e e.call t

unfoldable pub history : Config → List Event → Table → Table
history c [] t = t
history c (e ∷ es) t = history c es (step c e t)

-- The claims that a history hands to workers.
unfoldable pub claims_by : Config → Event → Call → Table → List Claim
claims_by c e claims t = claim_of (claim_next c e.fault e.locked e.now t)
claims_by c e (submits id job) t = []
claims_by c e recovers t = []
claims_by c e (renews claim) t = []
claims_by c e (updates sub) t = []

unfoldable pub handed_out : Config → List Event → Table → List Claim
unfolding claims_by
handed_out c [] t = []
handed_out c (e ∷ es) t = claims_by c e e.call t ++ handed_out c es (step c e t)

-- No caller of `Update` writes the status queued.
abbrev pub IsProperCall : Call → Type 0
IsProperCall (updates sub) = sub.status ≢ queued
IsProperCall _ = Unit {0}

abbrev pub IsProper : Event → Type 0
IsProper e = IsProperCall e.call
