-- ===== src/Store/Admission.antt =====
-- Admission to the queue, the order of claims, and the renewal of a lease.
use Prim.Native.Nat.{max}
use yex_judge.Common.{
  ℕ, ◌+◌, ◌≤◌, ◌<◌, ◌≡◌, refl, sym, Bool, true, false, ◌≢◌, ◌⊎◌, inl, inr, Option, none, some, [],
  ◌∷◌, ◌++◌, Text, text_eq_iff, All, arith, Bool-cases, Option-cases, ok, err,
}
use yex_judge.Types.{Job, queued, running, status_eq}
use yex_judge.Store.{
  Row, Table, update_where, count_where, count_status, find_row, has_id, claimable, claimed_row,
  new_row, may_renew, renewed_row,
}
use yex_judge.Store.Queue.{
  Fault, Config, Claim, queue_full, duplicate_id, insert_submission, save_admitted, claim_next,
  renew_lease,
}
use yex_judge.Store.History.{new_submission}
use yex_judge.Store.Outcomes.{claim_next_ok, renew_lease_ok}
use yex_judge.Store.Members.{In, In-find_row, oldest_lem, oldest-none}
use yex_judge.Store.Invariant.{IsSoundTable}
use yex_judge.Store.Rows.{find_row-update_where, find_row-id}
use yex_judge.Store.Recovery.{no_fault, others_kept}

count_where-append :
    (p : Row → Bool) (t s : Table) → count_where p (t ++ s) ≡ count_where p t + count_where p s
unfolding count_where
count_where-append p [] s = omega arith
count_where-append p (r ∷ rs) s = ground (arith, count_where-append p rs s)

-- With no database fault an admission is refused exactly when the queue already holds the limit or
-- the id is taken, the full queue being reported first; otherwise the submission is added at the
-- end, queued, and the queue still holds no more than the limit.
pub save_admitted-decides :
    (c : Config) (now : ℕ) (id : Text) (job : Job) (t : Table)
    → ((c.max_queued ≤ count_status queued t)
        × (save_admitted c no_fault now (new_submission id job) t ≡ err queue_full))
      ⊎ ((count_status queued t < c.max_queued)
          × (0 < count_where (has_id id) t)
          × (save_admitted c no_fault now (new_submission id job) t ≡ err (duplicate_id id)))
      ⊎ ((count_where (has_id id) t ≡ 0)
          × (save_admitted c no_fault now (new_submission id job) t
              ≡ ok (t ++ new_row now (new_submission id job) ∷ []))
          × (count_status queued (t ++ new_row now (new_submission id job) ∷ [])
              ≡ count_status queued t + 1)
          × (count_status queued t + 1 ≤ c.max_queued))
unfolding save_admitted insert_submission count_status count_where new_submission new_row
save_admitted-decides c now id job t = ground (
  arith,
  count_where-append (λ r. status_eq r.status queued) t (new_row now (new_submission id job) ∷ []),
)

-- A claim that meets no database fault finds nothing only when no row can be claimed. Otherwise it
-- takes a claimable row that no claimable row is older than, hands out its next attempt, and makes it
-- running with a lease from now on; the rows of other ids stay as they were.
pub claim_next-oldest :
    (c : Config) (fault : Fault) (locked : Text → Bool) (now : ℕ) (t u : Table) (o : Option Claim)
    → IsSoundTable c t
    → claim_next c fault locked now t ≡ ok (o, u)
    → ((o ≡ none) × (u ≡ t) × All (λ q. claimable locked q ≡ false) t)
      ⊎ ((r : Row) × (o ≡ some (record { id = r.id; attempt = r.attempt_count + 1 }))
          × (find_row r.id t ≡ some r)
          × (claimable locked r ≡ true)
          × All (λ q. claimable locked q ≡ true → r.created_at ≤ q.created_at) t
          × (find_row r.id u ≡ some (claimed_row now c.lease_duration r))
          × ((k : Text) → k ≢ r.id → find_row k u ≡ find_row k t))
unfolding claimed_row
claim_next-oldest c fault locked now t u o s h = elim (claim_next_ok c fault locked now t u o h) [
  | inl (nothing, e, same) ↦ inl (e, same, oldest-none (claimable locked) t nothing)
  | inr (r, found, e, same) ↦
      let (i, may, first) = oldest_lem (claimable locked) t r found in
      let here = In-find_row t r s.unique i in
      let after =
        find_row-update_where (has_id r.id) (claimed_row now c.lease_duration) (λ q. refl) in
      inr (
        r,
        e,
        here,
        may,
        first,
        ground (arith, after r.id t, text_eq_iff r.id r.id),
        λ k ne. rw same (others_kept _ (λ q. refl) r k t (λ e. ne (sym e))),
      )
]

count_where-In :
    (p : Row → Bool) (t : Table) → 0 < count_where p t → (r : Row) × In r t × (p r ≡ true)
unfolding count_where
count_where-In p [] h = absurd (omega arith)
count_where-In p (q ∷ qs) h = elim (Bool-cases (p q)) [
  | inl e ↦ (q, inl refl, e)
  | inr e ↦ let (r, i, m) = count_where-In p qs (ground arith) in (r, inr i, m)
]

may_renew_lem :
    (now : ℕ) (k : Text) (a : ℕ) (r : Row)
    → may_renew now k a r ≡ true
    → (l : ℕ) × (r.id ≡ k)
      × (r.status ≡ running)
      × (r.attempt_count ≡ a)
      × (r.lease_expires_at ≡ some l)
      × (now < l)
unfolding may_renew
may_renew_lem now k a r m = elim (Option-cases r.lease_expires_at) [
  | inl e ↦ absurd (ground arith)
  | inr (l, e) ↦
      (l, ground (arith, text_eq_iff r.id k), ground arith, ground arith, e, ground arith)
]

renewed_found :
    (c : Config) (now : ℕ) (claim : Claim) (t : Table) (r : Row) (l : ℕ)
    → find_row claim.id t ≡ some r
    → may_renew now claim.id claim.attempt r ≡ true
    → r.lease_expires_at ≡ some l
    → find_row claim.id
        (update_where (may_renew now claim.id claim.attempt) (renewed_row now c.lease_duration) t)
      ≡ some
          (record r { lease_expires_at = some (max l (now + c.lease_duration)); updated_at = now })
unfolding renewed_row
renewed_found c now claim t r l here may lease = ground (
  arith,
  find_row-update_where (may_renew now claim.id claim.attempt) (renewed_row now c.lease_duration)
      (λ q. refl) claim.id t,
)

renew_others :
    (c : Config) (now : ℕ) (claim : Claim) (t : Table) (k : Text)
    → k ≢ claim.id
    → find_row k
        (update_where (may_renew now claim.id claim.attempt) (renewed_row now c.lease_duration) t)
      ≡ find_row k t
unfolding renewed_row may_renew
renew_others c now claim t k ne = elim (Option-cases (find_row k t)) [
  | inl e ↦ ground (
    arith,
    find_row-update_where (may_renew now claim.id claim.attempt) (renewed_row now c.lease_duration)
        (λ q. refl) k t,
  )
  | inr (q, e) ↦ ground (
    arith,
    find_row-id k t q e,
    text_eq_iff q.id claim.id,
    find_row-update_where (may_renew now claim.id claim.attempt) (renewed_row now c.lease_duration)
        (λ x. refl) k t,
  )
]

-- A renewal that succeeds finds the claim's row running on the claim's attempt with a live lease,
-- and moves the lease to the later of its old end and one full lease from now, so that the row is
-- not expired before either; the rows of other ids stay as they were.
pub renew_lease-extends :
    (c : Config) (fault : Fault) (now : ℕ) (claim : Claim) (t u : Table)
    → IsSoundTable c t
    → renew_lease c fault now claim t ≡ ok u
    → (r : Row) × (l : ℕ) × (find_row claim.id t ≡ some r)
      × (r.status ≡ running)
      × (r.attempt_count ≡ claim.attempt)
      × (r.lease_expires_at ≡ some l)
      × (now < l)
      × (find_row claim.id u
          ≡ some (record r {
            lease_expires_at = some (max l (now + c.lease_duration));
            updated_at = now;
          }))
      × ((k : Text) → k ≢ claim.id → find_row k u ≡ find_row k t)
renew_lease-extends c fault now claim t u s h =
    let (one, same) = renew_lease_ok c fault now claim t u h in
    let (r, i, may) = count_where-In (may_renew now claim.id claim.attempt) t (omega arith) in
    let (l, is_k, runs, at, lease, live) = may_renew_lem now claim.id claim.attempt r may in
    let here : find_row claim.id t ≡ some r = rw (← is_k) (In-find_row t r s.unique i) in
    (
      r,
      l,
      here,
      runs,
      at,
      lease,
      live,
      rw same (renewed_found c now claim t r l here may lease),
      λ k ne. rw same (renew_others c now claim t k ne),
    )
