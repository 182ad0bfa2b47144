-- ===== src/Store/Fencing.antt =====
-- A worker whose claim was overtaken by a later attempt is fenced off.
use yex_judge.Common.{
  ℕ, ◌+◌, ◌<◌, ◌≡◌, refl, ap, sym, Bool, inl, inr, some, List, Text, text_eq_iff, All, arith,
  Option-cases, ok, err, subst,
}
use yex_judge.Types.{Submission, running}
use yex_judge.Store.{
  Row, Table, update_where, count_where, find_row, oldest, claimable, claimed_row, has_id,
  may_update, may_renew,
}
use yex_judge.Store.Queue.{
  not_owned, db_error, lost_attempt, StoreError, Fault, Config, Claim, claim_next, update,
  renew_lease,
}
use yex_judge.Store.History.{Event, history, IsProper}
use yex_judge.Store.Outcomes.{claim_next_ok}
use yex_judge.Store.Members.{In-Only, oldest_lem, In-find_row}
use yex_judge.Store.Invariant.{IsSoundTable, claim_next-IsSoundTable, history-IsSoundTable}
use yex_judge.Store.Rows.{find_row-id, All-mono, Unique, find_row-update_where, count_where_none}
use yex_judge.Store.Writes.{history-Writes}
use yex_judge.Store.Attempts.{Writes-Later, find_row-In}

-- In a table with distinct ids the row found for an id is the only one with it.
pub only_row :
    (k : Text) (t : Table) (r : Row)
    → Unique t
    → find_row k t ≡ some r
    → All (λ q. q.id ≡ k → q ≡ r) t
only_row k t r u h =
    let same = find_row-id k t r h in rw (← same) (In-Only t r u (find_row-In k t r h))

-- A claim leaves the claimed row running, on the attempt that it hands out.
abbrev pub Holds : Claim → Table → Type 0
Holds claim u =
    (r : Row) × (find_row claim.id u ≡ some r)
    × (r.attempt_count ≡ claim.attempt)
    × (r.status ≡ running)

claimed-Holds :
    (c : Config) (locked : Text → Bool) (now : ℕ) (t : Table) (r : Row)
    → Unique t
    → oldest (claimable locked) t ≡ some r
    → Holds
        (record { id = r.id; attempt = r.attempt_count + 1 })
        (update_where (has_id r.id) (claimed_row now c.lease_duration) t)
unfolding claimed_row
claimed-Holds c locked now t r u found =
    let (i, _, _) = oldest_lem (claimable locked) t r found in
    (
      claimed_row now c.lease_duration r,
      ground (
        arith,
        find_row-update_where (has_id r.id) (claimed_row now c.lease_duration) (λ q. refl) r.id t,
        In-find_row t r u i,
        text_eq_iff r.id r.id,
      ),
      refl,
      refl,
    )

pub claim_next-Holds :
    (c : Config) (fault : Fault) (locked : Text → Bool) (now : ℕ) (t u : Table) (claim : Claim)
    → Unique t
    → claim_next c fault locked now t ≡ ok (some claim, u)
    → Holds claim u
claim_next-Holds c fault locked now t u claim s h =
    elim (claim_next_ok c fault locked now t u (some claim) h) [
      | inl (_, e, _) ↦ absurd (ground arith)
      | inr (r, found, e, same) ↦
          let here : record { id = r.id; attempt = r.attempt_count + 1 } ≡ claim = ground arith in
          subst (λ (x : Claim). Holds x u) here
            (subst (Holds _) (sym same) (claimed-Holds c locked now t r s found))
    ]

none_update :
    (now : ℕ) (sub : Submission) (t : Table) (r : Row)
    → Unique t
    → find_row sub.id t ≡ some r
    → sub.attempt_count < r.attempt_count
    → count_where (may_update now sub) t ≡ 0
unfolding may_update
none_update now sub t r u h lt = count_where_none _ t (
    All-mono t
      (λ q only. ground (arith, text_eq_iff q.id sub.id, only, ap {A = Row} (λ x. x.attempt_count)))
      (only_row sub.id t r u h))

none_renew :
    (now a : ℕ) (k : Text) (t : Table) (r : Row)
    → Unique t
    → find_row k t ≡ some r
    → a < r.attempt_count
    → count_where (may_renew now k a) t ≡ 0
unfolding may_renew
none_renew now a k t r u h lt = count_where_none _ t (
    All-mono t
      (λ q only. ground (arith, text_eq_iff q.id k, only, ap {A = Row} (λ x. x.attempt_count)))
      (only_row k t r u h))

update_refused :
    (fault : Fault) (now : ℕ) (sub : Submission) (t : Table)
    → count_where (may_update now sub) t ≡ 0
    → (e : StoreError) × (update fault now sub t ≡ err e)
unfolding update
update_refused fault now sub t h = elim (Option-cases (fault 0)) [
  | inl e ↦ (not_owned sub.id, ground arith)
  | inr (m, e) ↦ (db_error m, ground arith)
]

renew_refused :
    (c : Config) (fault : Fault) (now : ℕ) (claim : Claim) (t : Table)
    → count_where (may_renew now claim.id claim.attempt) t ≡ 0
    → (e : StoreError) × (renew_lease c fault now claim t ≡ err e)
unfolding renew_lease
renew_refused c fault now claim t h = elim (Option-cases (fault 0)) [
  | inl e ↦ (lost_attempt claim.id claim.attempt, ground arith)
  | inr (m, e) ↦ (db_error m, ground arith)
]

-- Once a claim was handed out, an earlier attempt of its submission can neither write the
-- submission nor renew the lease: after any further history both calls fail, at any time.
pub claim_next-fences :
    (c : Config) (fault later_fault : Fault) (locked : Text → Bool) (now later : ℕ) (t u : Table)
    (claim : Claim) (es : List Event) (stale : Claim) (sub : Submission)
    → 0 < c.max_attempts
    → IsSoundTable c t
    → All IsProper es
    → claim_next c fault locked now t ≡ ok (some claim, u)
    → stale.id ≡ claim.id
    → stale.attempt < claim.attempt
    → sub.id ≡ stale.id
    → sub.attempt_count ≡ stale.attempt
    → let v = history c es u in
      ((e : StoreError) × (update later_fault later sub v ≡ err e))
      × ((e : StoreError) × (renew_lease c later_fault later stale v ≡ err e))
claim_next-fences c fault later_fault locked now later t u claim es stale sub pos s p h ei lt es_id
      es_at =
    let su = claim_next-IsSoundTable c fault locked now t u (some claim) s h in
    let (r, found, at, _) = claim_next-Holds c fault locked now t u claim s.unique h in
    let l = Writes-Later claim.id r (history-Writes c es u pos p su) found in
    let v = history-IsSoundTable c es u pos p su in
    (
      update_refused later_fault later sub _
          (none_update later sub _ l.row v.unique (rw (es_id, ei) l.found) (omega arith)),
      renew_refused c later_fault later stale _
          (none_renew later stale.attempt stale.id _ l.row v.unique (rw ei l.found) (omega arith)),
    )
