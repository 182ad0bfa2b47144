-- ===== src/Store/Invariant.antt =====
-- What holds of every row of the submissions table, and that each call keeps it.
use yex_judge.Common.{
  ℕ, ◌+◌, ◌≤◌, ◌<◌, ◌≡◌, refl, Bool, true, ◌≢◌, inl, inr, Option, none, List, [], ◌∷◌, ◌++◌, Text,
  text_eq, text_eq_iff, All, All-append, arith, Bool-cases, ok, subst, sym, ltb,
}
use yex_judge.Types.{Job, Submission, SubmissionStatus, queued, running, finished, failed}
use yex_judge.Store.{
  Row, Table, count_where, claimable, claimed_row, has_id, lock_expired, is_expired, new_row,
  updated_row, may_update, renewed_row, may_renew, requeued_row, failed_row,
}
use yex_judge.Store.Queue.{
  Fault, Config, Claim, save_admitted, update, claim_next, renew_lease, recover_expired,
  recover_rows, recover_row,
}
use yex_judge.Store.History.{
  Call, submits, claims, recovers, renews, updates, Event, new_submission, step, history, call_step,
  IsProperCall, IsProper,
}
use yex_judge.Store.Members.{
  In, In-Only, All-update_id, oldest_lem, lock_expired_lem, lock_expired-Unique,
  Unique-update_where, In-update_id,
}
use yex_judge.Store.Outcomes.{
  after_inv, save_admitted_ok, claim_next_ok, recover_expired_ok, update_ok, renew_lease_ok,
  table_of_ok,
}
use yex_judge.Store.Rows.{All-update_where, Unique, Lacks}

-- A queued row has an attempt left; a running row is on an attempt, within the limit, and has a
-- lease; only running rows have one.
abbrev pub IsSoundAt : Config → SubmissionStatus → ℕ → Option ℕ → Type 0
IsSoundAt c queued attempts lease = (attempts < c.max_attempts) × (lease ≡ none)
IsSoundAt c running attempts lease = (1 ≤ attempts) × (attempts ≤ c.max_attempts) × (lease ≢ none)
IsSoundAt c finished attempts lease = (attempts ≤ c.max_attempts) × (lease ≡ none)
IsSoundAt c failed attempts lease = (attempts ≤ c.max_attempts) × (lease ≡ none)

abbrev pub IsSound : Config → Row → Type 0
IsSound c r = IsSoundAt c r.status r.attempt_count r.lease_expires_at

module _ (c : Config) where
  updated-IsSound :
      (now : ℕ) (sub : Submission) (r : Row)
      → sub.status ≢ queued
      → IsSound c r
      → may_update now sub r ≡ true
      → IsSound c (updated_row now sub r)
  unfolding may_update updated_row
  updated-IsSound now sub r proper s m = ground arith

  renewed-IsSound :
      (now lease : ℕ) (claim : Claim) (r : Row)
      → IsSound c r
      → may_renew now claim.id claim.attempt r ≡ true
      → IsSound c (renewed_row now lease r)
  unfolding may_renew renewed_row
  renewed-IsSound now lease claim r s m = ground arith

  claimed-IsSound :
      (locked : Text → Bool) (now lease : ℕ) (r : Row)
      → claimable locked r ≡ true
      → IsSound c r
      → IsSound c (claimed_row now lease r)
  unfolding claimable claimed_row
  claimed-IsSound locked now lease r e s = ground arith

  recovered-IsSound :
      (locked : Text → Bool) (now : ℕ) (r : Row) (t : Table)
      → is_expired locked now r ≡ true
      → In r t
      → Unique t
      → All (IsSound c) t
      → All (IsSound c) (recover_row c now r t)
  unfolding recover_row is_expired requeued_row failed_row
  recovered-IsSound locked now r t e i u a =
      elim (Bool-cases (ltb r.attempt_count c.max_attempts)) [
        | inl m ↦ rw m (All-update_id (IsSound c) _ r t (In-Only t r u i) a (λ s. ground arith))
        | inr m ↦ rw m (All-update_id (IsSound c) _ r t (In-Only t r u i) a (λ s. ground arith))
      ]

-- A table whose ids are distinct and whose rows are sound.
pub record IsSoundTable (c : Config) (t : Table) : Type 0 where
  pub unique : Unique t
  pub rows : All (IsSound c) t

-- The rest of the locked rows are still members once one of them is written.
pub others_In :
    (locked : Text → Bool) (c : Config) (now : ℕ) (item : Row) (items : List Row) (t : Table)
    → Lacks item.id items
    → All (λ r. In r t × (is_expired locked now r ≡ true)) items
    → All (λ r. In r (recover_row c now item t) × (is_expired locked now r ≡ true)) items
unfolding recover_row
others_In locked c now item [] t l a = tt
others_In locked c now item (r ∷ rs) t (ne, l) ((i, e), a) = (
  elim (Bool-cases (ltb item.attempt_count c.max_attempts)) [
    | inl m ↦ rw m (In-update_id item.id _ t r ne i, e)
    | inr m ↦ rw m (In-update_id item.id _ t r ne i, e)
  ],
  others_In locked c now item rs t l a,
)

pub recover_row-Unique :
    (c : Config) (now : ℕ) (item : Row) (t : Table) → Unique t → Unique (recover_row c now item t)
unfolding recover_row requeued_row failed_row
recover_row-Unique c now item t u = elim (Bool-cases (ltb item.attempt_count c.max_attempts)) [
  | inl m ↦ rw m (Unique-update_where _ _ (λ r. refl) t u)
  | inr m ↦ rw m (Unique-update_where _ _ (λ r. refl) t u)
]

recover_rows-IsSoundTable :
    (locked : Text → Bool) (c : Config) (fault : Fault) (k now : ℕ) (items : List Row) (t u : Table)
    → Unique items
    → All (λ r. In r t × (is_expired locked now r ≡ true)) items
    → IsSoundTable c t
    → recover_rows c fault k now items t ≡ ok u
    → IsSoundTable c u
unfolding recover_rows
recover_rows-IsSoundTable locked c fault k now [] t u d a s h =
    let same : t ≡ u = cc in subst (IsSoundTable c) same s
recover_rows-IsSoundTable locked c fault k now (item ∷ items) t u (l, d) ((i, e), a) s h =
    recover_rows-IsSoundTable locked c fault (k + 1) now items (recover_row c now item t) u d
      (others_In locked c now item items t l a)
      (record {
        unique = recover_row-Unique c now item t s.unique;
        rows = recovered-IsSound c locked now item t e i s.unique s.rows;
      })
      (ground arith)

count_where_zero : (t : Table) (k : Text) → count_where (has_id k) t ≡ 0 → Lacks k t
unfolding count_where
count_where_zero [] k h = tt
count_where_zero (r ∷ rs) k h = elim (Bool-cases (text_eq r.id k)) [
  | inl e ↦ absurd (ground arith)
  | inr e ↦ (ground (arith, text_eq_iff r.id k), count_where_zero rs k (ground arith))
]

Unique-append_one : (t : Table) (r : Row) → Lacks r.id t → Unique t → Unique (t ++ r ∷ [])
Unique-append_one [] r l u = (tt, tt)
Unique-append_one (q ∷ qs) r (h, l) (b, u) =
    (All-append (λ x. x.id ≢ q.id) qs (r ∷ []) b (λ e. h (sym e), tt), Unique-append_one qs r l u)

save_admitted-IsSoundTable :
    (c : Config) (fault : Fault) (now : ℕ) (id : Text) (job : Job) (t u : Table)
    → 0 < c.max_attempts
    → IsSoundTable c t
    → save_admitted c fault now (new_submission id job) t ≡ ok u
    → IsSoundTable c u
unfolding new_submission new_row
save_admitted-IsSoundTable c fault now id job t u pos s h =
    let (room, fresh, e) = save_admitted_ok c fault now (new_submission id job) t u h in
    let r = new_row now (new_submission id job) in
    subst (IsSoundTable c) (sym e) (record {
      unique = Unique-append_one t r (count_where_zero t id fresh) s.unique;
      rows = All-append (IsSound c) t (r ∷ []) s.rows ((pos, refl), tt);
    })

pub claim_next-IsSoundTable :
    (c : Config) (fault : Fault) (locked : Text → Bool) (now : ℕ) (t u : Table) (o : Option Claim)
    → IsSoundTable c t
    → claim_next c fault locked now t ≡ ok (o, u)
    → IsSoundTable c u
unfolding claimed_row
claim_next-IsSoundTable c fault locked now t u o s h =
    elim (claim_next_ok c fault locked now t u o h) [
      | inl (_, _, e) ↦ subst (IsSoundTable c) (sym e) s
      | inr (r, found, _, e) ↦
          let (i, may, _) = oldest_lem (claimable locked) t r found in
          subst (IsSoundTable c) (sym e) (record {
            unique = Unique-update_where _ _ (λ q. refl) t s.unique;
            rows =
                All-update_id (IsSound c) _ r t (In-Only t r s.unique i) s.rows
                  (claimed-IsSound c locked now c.lease_duration r may);
          })
    ]

update-IsSoundTable :
    (c : Config) (fault : Fault) (now : ℕ) (sub : Submission) (t u : Table)
    → sub.status ≢ queued
    → IsSoundTable c t
    → update fault now sub t ≡ ok u
    → IsSoundTable c u
unfolding updated_row
update-IsSoundTable c fault now sub t u proper s h =
    subst (IsSoundTable c) (sym (update_ok fault now sub t u h).1) (record {
      unique = Unique-update_where _ _ (λ q. refl) t s.unique;
      rows =
          All-update_where _ _ (IsSound c) (λ r x m. updated-IsSound c now sub r proper x m) t
            s.rows;
    })

renew_lease-IsSoundTable :
    (c : Config) (fault : Fault) (now : ℕ) (claim : Claim) (t u : Table)
    → IsSoundTable c t
    → renew_lease c fault now claim t ≡ ok u
    → IsSoundTable c u
unfolding renewed_row
renew_lease-IsSoundTable c fault now claim t u s h =
    subst (IsSoundTable c) (sym (renew_lease_ok c fault now claim t u h).1) (record {
      unique = Unique-update_where _ _ (λ q. refl) t s.unique;
      rows =
          All-update_where _ _ (IsSound c)
            (λ r x m. renewed-IsSound c now c.lease_duration claim r x m) t s.rows;
    })

pub call_step-IsSoundTable :
    (c : Config) (e : Event) (call : Call) (t : Table)
    → 0 < c.max_attempts
    → IsProperCall call
    → IsSoundTable c t
    → IsSoundTable c (call_step c e call t)
unfolding call_step
call_step-IsSoundTable c e (submits id job) t pos p s =
    after_inv (IsSoundTable c) t _ s
      λ u h. save_admitted-IsSoundTable c e.fault e.now id job t u pos s h
call_step-IsSoundTable c e claims t pos p s = after_inv (IsSoundTable c) t _ s λ u h.
    let (o, h') = table_of_ok (claim_next c e.fault e.locked e.now t) u h in
    claim_next-IsSoundTable c e.fault e.locked e.now t u o s h'
call_step-IsSoundTable c e recovers t pos p s = after_inv (IsSoundTable c) t _ s λ u h.
    let (n, h') = table_of_ok (recover_expired c e.fault e.locked e.now t) u h in
    recover_rows-IsSoundTable e.locked c e.fault 2 e.now (lock_expired e.locked e.now t) t u
      (lock_expired-Unique e.locked e.now t s.unique) (lock_expired_lem e.locked e.now t) s
      (recover_expired_ok c e.fault e.locked e.now n t u h').0
call_step-IsSoundTable c e (renews claim) t pos p s =
    after_inv (IsSoundTable c) t _ s λ u h. renew_lease-IsSoundTable c e.fault e.now claim t u s h
call_step-IsSoundTable c e (updates sub) t pos p s =
    after_inv (IsSoundTable c) t _ s λ u h. update-IsSoundTable c e.fault e.now sub t u p s h

-- Every call keeps the table sound, whether it succeeds or fails: ids stay distinct, a queued row
-- has an attempt left, a running row is on an attempt within the limit and has a lease, and no
-- other row has one.
pub step-IsSoundTable :
    (c : Config) (e : Event) (t : Table)
    → 0 < c.max_attempts
    → IsProper e
    → IsSoundTable c t
    → IsSoundTable c (step c e t)
unfolding step
step-IsSoundTable c e t pos p s = call_step-IsSoundTable c e e.call t pos p s

pub history-IsSoundTable :
    (c : Config) (es : List Event) (t : Table)
    → 0 < c.max_attempts
    → All IsProper es
    → IsSoundTable c t
    → IsSoundTable c (history c es t)
unfolding history
history-IsSoundTable c [] t pos p s = s
history-IsSoundTable c (e ∷ es) t pos (p, ps) s =
    history-IsSoundTable c es (step c e t) pos ps (step-IsSoundTable c e t pos p s)
