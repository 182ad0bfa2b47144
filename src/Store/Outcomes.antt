-- ===== src/Store/Outcomes.antt =====
-- What a method that succeeds has found in the table and done to it.
use yex_judge.Common.{
  ℕ, ◌<◌, ◌≡◌, refl, ◌⊎◌, inl, inr, Option, none, some, [], ◌∷◌, ◌++◌, Text, arith, Option-cases,
  Result, ok, err, length, Bool, ◌+◌,
}
use yex_judge.Types.{Submission, queued}
use yex_judge.Store.{
  Row, Table, update_where, count_where, count_status, oldest, claimable, claimed_row, has_id,
  lock_expired, new_row, updated_row, may_update, renewed_row, may_renew,
}
use yex_judge.Store.Queue.{
  StoreError, Fault, Config, Claim, insert_submission, save_admitted, update, claim_next,
  renew_lease, recover_expired, recover_rows,
}
use yex_judge.Store.History.{after, table_of}

pub after_inv {ℓ} :
    (P : Table → Type ℓ) (t : Table) (m : Result StoreError Table)
    → P t
    → ((u : Table) → m ≡ ok u → P u)
    → P (after t m)
after_inv P t (ok u) h k = k u refl
after_inv P t (err e) h k = h

-- What an admission that succeeds has found and done.
pub save_admitted_ok :
    (c : Config) (fault : Fault) (now : ℕ) (sub : Submission) (t u : Table)
    → save_admitted c fault now sub t ≡ ok u
    → (count_status queued t < c.max_queued)
      × (count_where (has_id sub.id) t ≡ 0)
      × (u ≡ t ++ new_row now sub ∷ [])
unfolding save_admitted insert_submission
save_admitted_ok c fault now sub t u h = ground arith

-- A claim that succeeds has found no row, or has written the oldest claimable one.
pub claim_next_ok :
    (c : Config) (fault : Fault) (locked : Text → Bool) (now : ℕ) (t u : Table) (o : Option Claim)
    → claim_next c fault locked now t ≡ ok (o, u)
    → ((oldest (claimable locked) t ≡ none) × (o ≡ none) × (u ≡ t))
      ⊎ ((r : Row) × (oldest (claimable locked) t ≡ some r)
          × (o ≡ some (record { id = r.id; attempt = r.attempt_count + 1 }))
          × (u ≡ update_where (has_id r.id) (claimed_row now c.lease_duration) t))
unfolding claim_next
claim_next_ok c fault locked now t u o h = elim (Option-cases (oldest (claimable locked) t)) [
  | inl e ↦ inl (e, ground arith, ground arith)
  | inr (r, e) ↦ inr (r, e, ground arith, ground arith)
]

pub recover_expired_ok :
    (c : Config) (fault : Fault) (locked : Text → Bool) (now n : ℕ) (t u : Table)
    → recover_expired c fault locked now t ≡ ok (n, u)
    → (recover_rows c fault 2 now (lock_expired locked now t) t ≡ ok u)
      × (n ≡ length (lock_expired locked now t))
unfolding recover_expired
recover_expired_ok c fault locked now n t u h = ground arith

pub update_ok :
    (fault : Fault) (now : ℕ) (sub : Submission) (t u : Table)
    → update fault now sub t ≡ ok u
    → (count_where (may_update now sub) t ≡ 1)
      × (u ≡ update_where (may_update now sub) (updated_row now sub) t)
unfolding update
update_ok fault now sub t u h = ground arith

pub renew_lease_ok :
    (c : Config) (fault : Fault) (now : ℕ) (claim : Claim) (t u : Table)
    → renew_lease c fault now claim t ≡ ok u
    → (count_where (may_renew now claim.id claim.attempt) t ≡ 1)
      × (u
          ≡ update_where
              (may_renew now claim.id claim.attempt)
              (renewed_row now c.lease_duration)
              t)
unfolding renew_lease
renew_lease_ok c fault now claim t u h = ground arith

-- The table of a result that carries a value too.
pub table_of_ok {ℓ} :
    {A : Type ℓ} (m : Result StoreError (A × Table)) (u : Table)
    → table_of m ≡ ok u
    → (a : A) × (m ≡ ok (a, u))
table_of_ok (ok (a, v)) u h = let e : v ≡ u = cc in (a, rw e)
table_of_ok (err e) u h = cc
