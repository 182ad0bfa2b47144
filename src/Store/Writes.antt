-- ===== src/Store/Writes.antt =====
-- Every call is a sequence of writes that a row's life allows: rows are added under fresh ids and
-- never removed, and a row that is written keeps its id, its job and its creation time, starts no
-- fewer attempts, and moves along the state machine of a submission.
use yex_judge.Common.{
  ℕ, ◌+◌, ◌≤◌, ◌<◌, ◌≡◌, refl, sym, Bool, true, ◌≢◌, inl, inr, Option, List, [], ◌∷◌, ◌++◌, Text,
  text_eq, text_eq_iff, All, arith, Bool-cases, ok, subst, ltb,
}
use yex_judge.Types.{Submission, SubmissionStatus, queued, running, finished, failed}
use yex_judge.Store.{
  Row, Table, update_where, count_where, claimable, claimed_row, has_id, lock_expired, is_expired,
  new_row, updated_row, may_update, renewed_row, may_renew, requeued_row, failed_row,
}
use yex_judge.Store.Queue.{
  Fault, Config, Claim, claim_next, recover_expired, recover_rows, recover_row, retry_message,
  lease_expired_result, timed_out_message,
}
use yex_judge.Store.History.{
  Call, submits, claims, recovers, renews, updates, Event, new_submission, step, history, call_step,
  IsProperCall, IsProper,
}
use yex_judge.Store.Outcomes.{
  after_inv, save_admitted_ok, claim_next_ok, recover_expired_ok, update_ok, renew_lease_ok,
  table_of_ok,
}
use yex_judge.Store.Members.{In, Only, In-Only, oldest_lem, lock_expired_lem, lock_expired-Unique}
use yex_judge.Store.Invariant.{IsSoundTable, others_In, recover_row-Unique, call_step-IsSoundTable}
use yex_judge.Store.Rows.{All-mono, Unique}

-- The state machine of a submission. Finished and failed are final.
abbrev pub IsMove : SubmissionStatus → SubmissionStatus → Type 0
IsMove queued running = Unit {0}
IsMove queued failed = Unit {0}
IsMove running running = Unit {0}
IsMove running queued = Unit {0}
IsMove running finished = Unit {0}
IsMove running failed = Unit {0}
IsMove _ _ = ⊥

abbrev pub MayBecome : Row → Row → Type 0
MayBecome r q =
    (q.id ≡ r.id)
    × (q.job ≡ r.job)
    × (q.created_at ≡ r.created_at)
    × (r.attempt_count ≤ q.attempt_count)
    × IsMove r.status q.status

pub data Writes : Table → Table → Type 0 where
  still : {t u : Table} → u ≡ t → Writes t u
  add : {t u : Table} (r : Row) → count_where (has_id r.id) t ≡ 0 → u ≡ t ++ r ∷ [] → Writes t u
  write :
      {t u : Table} (p : Row → Bool) (f : Row → Row)
      → ((r : Row) → (f r).id ≡ r.id)
      → All (λ r. p r ≡ true → MayBecome r (f r)) t
      → u ≡ update_where p f t
      → Writes t u
  chain : {t u v : Table} → Writes t u → Writes u v → Writes t v

updated-MayBecome :
    (now : ℕ) (sub : Submission) (r : Row)
    → sub.status ≢ queued
    → may_update now sub r ≡ true
    → MayBecome r (updated_row now sub r)
unfolding may_update updated_row
updated-MayBecome now sub r proper m = ground arith

renewed-MayBecome :
    (now lease a : ℕ) (k : Text) (r : Row)
    → may_renew now k a r ≡ true
    → MayBecome r (renewed_row now lease r)
unfolding may_renew renewed_row
renewed-MayBecome now lease a k r m = ground arith

claimed-MayBecome :
    (locked : Text → Bool) (now lease : ℕ) (r : Row)
    → claimable locked r ≡ true
    → MayBecome r (claimed_row now lease r)
unfolding claimable claimed_row
claimed-MayBecome locked now lease r m = ground arith

-- A condition on the id alone selects one row.
Only-by_id :
    (Q : Row → Type 0) (r : Row) (t : Table)
    → Only r t
    → Q r
    → All (λ q. text_eq q.id r.id ≡ true → Q q) t
Only-by_id Q r t o h =
    All-mono t (λ q same e. subst Q (sym (same ((text_eq_iff q.id r.id).0 e))) h) o

recover_row-Writes :
    (c : Config) (locked : Text → Bool) (now : ℕ) (r : Row) (t : Table)
    → is_expired locked now r ≡ true
    → In r t
    → Unique t
    → Writes t (recover_row c now r t)
unfolding recover_row is_expired requeued_row failed_row
recover_row-Writes c locked now r t e i u =
    let retried = requeued_row now (retry_message r.attempt_count c.max_attempts) in
    let given_up = failed_row now lease_expired_result timed_out_message in
    let o = In-Only t r u i in
    elim (Bool-cases (ltb r.attempt_count c.max_attempts)) [
      | inl m ↦ rw m (
          write _ _ (λ q. refl) (Only-by_id (λ q. MayBecome q (retried q)) r t o (ground arith))
            refl)
      | inr m ↦ rw m (
          write _ _ (λ q. refl) (Only-by_id (λ q. MayBecome q (given_up q)) r t o (ground arith))
            refl)
    ]

recover_rows-Writes :
    (locked : Text → Bool) (c : Config) (fault : Fault) (k now : ℕ) (items : List Row) (t u : Table)
    → Unique items
    → All (λ r. In r t × (is_expired locked now r ≡ true)) items
    → Unique t
    → recover_rows c fault k now items t ≡ ok u
    → Writes t u
unfolding recover_rows
recover_rows-Writes locked c fault k now [] t u d a s h = still (cc)
recover_rows-Writes locked c fault k now (item ∷ items) t u (l, d) ((i, e), a) s h =
    chain (recover_row-Writes c locked now item t e i s) (
      recover_rows-Writes locked c fault (k + 1) now items (recover_row c now item t) u d
        (others_In locked c now item items t l a) (recover_row-Unique c now item t s)
        (ground arith))

claim_next-Writes :
    (c : Config) (fault : Fault) (locked : Text → Bool) (now : ℕ) (t u : Table) (o : Option Claim)
    → Unique t
    → claim_next c fault locked now t ≡ ok (o, u)
    → Writes t u
unfolding claimed_row
claim_next-Writes c fault locked now t u o s h = elim (claim_next_ok c fault locked now t u o h) [
  | inl (_, _, e) ↦ still e
  | inr (r, found, _, e) ↦
      let (i, may, _) = oldest_lem (claimable locked) t r found in
      write _ _ (λ q. refl)
        (Only-by_id (λ q. MayBecome q (claimed_row now c.lease_duration q)) r t (In-Only t r s i)
          (claimed-MayBecome locked now c.lease_duration r may))
        e
]

all_rows {ℓ} : {P : Row → Type ℓ} (t : Table) → ((r : Row) → P r) → All P t
all_rows [] h = tt
all_rows (r ∷ rs) h = (h r, all_rows rs h)

pub call_step-Writes :
    (c : Config) (e : Event) (call : Call) (t : Table)
    → IsProperCall call
    → Unique t
    → Writes t (call_step c e call t)
unfolding call_step updated_row renewed_row new_row new_submission
call_step-Writes c e (submits id job) t p s = after_inv (Writes t) t _ (still refl) λ u h.
    let (_, fresh, same) = save_admitted_ok c e.fault e.now (new_submission id job) t u h in
    add _ fresh same
call_step-Writes c e claims t p s = after_inv (Writes t) t _ (still refl) λ u h.
    let (o, h') = table_of_ok (claim_next c e.fault e.locked e.now t) u h in
    claim_next-Writes c e.fault e.locked e.now t u o s h'
call_step-Writes c e recovers t p s = after_inv (Writes t) t _ (still refl) λ u h.
    let (n, h') = table_of_ok (recover_expired c e.fault e.locked e.now t) u h in
    recover_rows-Writes e.locked c e.fault 2 e.now (lock_expired e.locked e.now t) t u
      (lock_expired-Unique e.locked e.now t s) (lock_expired_lem e.locked e.now t) s
      (recover_expired_ok c e.fault e.locked e.now n t u h').0
call_step-Writes c e (renews claim) t p s = after_inv (Writes t) t _ (still refl) λ u h.
    write _ _ (λ q. refl)
      (all_rows t (λ r. renewed-MayBecome e.now c.lease_duration claim.attempt claim.id r))
      (renew_lease_ok c e.fault e.now claim t u h).1
call_step-Writes c e (updates sub) t p s = after_inv (Writes t) t _ (still refl) λ u h.
    write _ _ (λ q. refl) (all_rows t (λ r. updated-MayBecome e.now sub r p))
      (update_ok e.fault e.now sub t u h).1

-- A history of proper calls over a table with distinct ids is a sequence of allowed writes.
pub history-Writes :
    (c : Config) (es : List Event) (t : Table)
    → 0 < c.max_attempts
    → All IsProper es
    → IsSoundTable c t
    → Writes t (history c es t)
unfolding history step
history-Writes c [] t pos p s = still refl
history-Writes c (e ∷ es) t pos (p, ps) s = chain (call_step-Writes c e e.call t p s.unique) (
    history-Writes c es (call_step c e e.call t) pos ps
      (call_step-IsSoundTable c e e.call t pos p s))
