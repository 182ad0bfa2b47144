-- ===== src/Store/Recovery.antt =====
-- What `RecoverExpired` does to every row of the table.
use yex_judge.Common.{
  ℕ, ◌+◌, ◌≡◌, refl, ap, ◌∙◌, Bool, true, ◌≢◌, inl, inr, none, some, List, [], ◌∷◌, Text,
  text_eq_iff, All, arith, if◌then◌else◌, Bool-cases, Option-cases, ok, subst, ltb,
}
use yex_judge.Store.{
  Row, Table, update_where, count_where, find_row, has_id, lock_expired, is_expired, requeued_row,
  failed_row,
}
use yex_judge.Store.Queue.{
  Fault, Config, recover_expired, recover_rows, recover_row, retry_message, lease_expired_result,
  timed_out_message,
}
use yex_judge.Store.Members.{
  In, All-In, In-find_row, count_where_id, lock_expired_lem, lock_expired-Unique, In-lock_expired,
  length-lock_expired,
}
use yex_judge.Store.Invariant.{IsSoundTable, others_In, recover_row-Unique}
use yex_judge.Store.Rows.{find_row-id, All-mono, Unique, find_row-update_where}
use yex_judge.Store.Attempts.{find_row-In}
use yex_judge.Store.Fencing.{only_row}

abbrev pub no_fault : Fault
no_fault k = none

-- An expired row goes back to the queue while attempts are left, and fails otherwise.
abbrev pub recovered : Config → ℕ → Row → Row
recovered c now r =
    if ltb r.attempt_count c.max_attempts
    then requeued_row now (retry_message r.attempt_count c.max_attempts) r
    else failed_row now lease_expired_result timed_out_message r

abbrev pub after_recovery : Config → (Text → Bool) → ℕ → Row → Row
after_recovery c locked now r = if is_expired locked now r then recovered c now r else r

recover_row-found :
    (c : Config) (now : ℕ) (r : Row) (t : Table)
    → Unique t
    → In r t
    → find_row r.id (recover_row c now r t) ≡ some (recovered c now r)
unfolding recover_row requeued_row failed_row
recover_row-found c now r t u i = elim (Bool-cases (ltb r.attempt_count c.max_attempts)) [
  | inl m ↦ ground (
    arith,
    In-find_row t r u i,
    text_eq_iff r.id r.id,
    find_row-update_where (has_id r.id)
        (requeued_row now (retry_message r.attempt_count c.max_attempts)) (λ q. refl) r.id t,
  )
  | inr m ↦ ground (
    arith,
    In-find_row t r u i,
    text_eq_iff r.id r.id,
    find_row-update_where (has_id r.id) (failed_row now lease_expired_result timed_out_message)
        (λ q. refl) r.id t,
  )
]

pub others_kept :
    (f : Row → Row) (same : (q : Row) → (f q).id ≡ q.id) (r : Row) (k : Text) (t : Table)
    → r.id ≢ k
    → find_row k (update_where (has_id r.id) f t) ≡ find_row k t
others_kept f same r k t ne = elim (Option-cases (find_row k t)) [
  | inl e ↦ ground (arith, find_row-update_where (has_id r.id) f same k t)
  | inr (q, e) ↦
      let q_is_k = find_row-id k t q e in
      ground (arith, find_row-update_where (has_id r.id) f same k t, text_eq_iff q.id r.id)
]

recover_row-others :
    (c : Config) (now : ℕ) (r : Row) (k : Text) (t : Table)
    → r.id ≢ k
    → find_row k (recover_row c now r t) ≡ find_row k t
unfolding recover_row requeued_row failed_row
recover_row-others c now r k t ne = elim (Bool-cases (ltb r.attempt_count c.max_attempts)) [
  | inl m ↦ rw m (others_kept _ (λ q. refl) r k t ne)
  | inr m ↦ rw m (others_kept _ (λ q. refl) r k t ne)
]

-- What the loop over the locked rows has done in the end.
record Recovered (c : Config) (now k : ℕ) (items : List Row) (t : Table) : Type 0 where
  table : Table
  result : recover_rows c no_fault k now items t ≡ ok table
  kept : (key : Text) → All (λ r. r.id ≢ key) items → find_row key table ≡ find_row key t
  written : All (λ r. find_row r.id table ≡ some (recovered c now r)) items

recover_rows-Recovered :
    (locked : Text → Bool) (c : Config) (k now : ℕ) (items : List Row) (t : Table)
    → Unique items
    → All (λ r. In r t × (is_expired locked now r ≡ true)) items
    → Unique t
    → Recovered c now k items t
unfolding recover_rows
recover_rows-Recovered locked c k now [] t d a u = record {
  table = t;
  result = refl;
  kept = λ key h. refl;
  written = tt;
}
recover_rows-Recovered locked c k now (item ∷ items) t (l, d) ((i, e), a) u =
    let t1 = recover_row c now item t in
    let rest =
      recover_rows-Recovered locked c (k + 1) now items t1 d
        (others_In locked c now item items t l a) (recover_row-Unique c now item t u) in
    record {
      table = rest.table;
      result = ground (arith, count_where_id t item u i, rest.result);
      kept = λ key (ne, h). rest.kept key h ∙ recover_row-others c now item key t ne;
      written = (rest.kept item.id l ∙ recover_row-found c now item t u i, rest.written);
    }

row_after :
    (c : Config) (locked : Text → Bool) (now : ℕ) (k : Text) (t : Table)
    → IsSoundTable c t
    → (x : Recovered c now 2 (lock_expired locked now t) t)
    → find_row k x.table
      ≡ elim (find_row k t) [ none ↦ none | some r ↦ some (after_recovery c locked now r) ]
row_after c locked now k t s x = elim (Option-cases (find_row k t)) [
  | inl e ↦
      let absent : All (λ r. r.id ≢ k) (lock_expired locked now t) =
        All-mono (lock_expired locked now t) (λ r (i, _) same. absurd (missing r i same e))
          (lock_expired_lem locked now t) in
      rw (x.kept k absent, e)
  | inr (r, e) ↦
      let is_k = find_row-id k t r e in
      elim (Bool-cases (is_expired locked now r)) [
        | inl due ↦
            let found =
              All-In (λ q. find_row q.id x.table ≡ some (recovered c now q)) _ r x.written
                (In-lock_expired locked now t r (find_row-In k t r e) due) in
            rw (e, due) (subst (λ z. find_row z x.table ≡ some (recovered c now r)) is_k found)
        | inr kept ↦
            let absent : All (λ q. q.id ≢ k) (lock_expired locked now t) =
              All-mono (lock_expired locked now t)
                (λ q (i, due) same.
                  let q_is_r =
                    All-In (λ z. z.id ≡ k → z ≡ r) t q (only_row k t r s.unique e) i same in
                  ground (arith, ap (is_expired locked now) q_is_r))
                (lock_expired_lem locked now t) in
            rw (x.kept k absent, e, kept)
      ]
]
  where
    missing : (r : Row) → In r t → r.id ≡ k → find_row k t ≢ none
    missing r i same e = let f = In-find_row t r s.unique i in ground arith

-- With no database fault, a recovery succeeds and reports the number of running rows whose lease
-- has run out and that no other transaction holds; each of those goes back to the queue if its
-- attempts are below the limit, and fails with the fixed result otherwise; every other row is as
-- it was.
pub recover_expired-rows :
    (c : Config) (locked : Text → Bool) (now : ℕ) (t : Table)
    → IsSoundTable c t
    → (u : Table) × (recover_expired c no_fault locked now t
        ≡ ok (count_where (is_expired locked now) t, u))
      × ((k : Text)
          → find_row k u
            ≡ elim (find_row k t) [ none ↦ none | some r ↦ some (after_recovery c locked now r) ])
unfolding recover_expired
recover_expired-rows c locked now t s =
    let x =
      recover_rows-Recovered locked c 2 now (lock_expired locked now t) t
        (lock_expired-Unique locked now t s.unique) (lock_expired_lem locked now t) s.unique in
    (
      x.table,
      ground (arith, x.result, length-lock_expired locked now t),
      λ k. row_after c locked now k t s x,
    )
