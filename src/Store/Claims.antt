-- ===== src/Store/Claims.antt =====
-- The claims that a history hands out: no attempt of a submission is handed out twice.
use yex_judge.Common.{
  ◌<◌, ◌≡◌, refl, ap, inl, inr, Option, none, some, List, [], ◌∷◌, ◌++◌, Text, All, All-append,
  arith, Result, ok, err, subst,
}
use yex_judge.Store.{Row, Table, find_row, claimable}
use yex_judge.Store.Queue.{StoreError, Config, Claim, claim_next}
use yex_judge.Store.History.{
  Call, submits, claims, recovers, renews, updates, Event, step, call_step, IsProper, handed_out,
  claims_by, claim_of,
}
use yex_judge.Store.Outcomes.{claim_next_ok}
use yex_judge.Store.Members.{oldest_lem, All-In}
use yex_judge.Store.Invariant.{IsSoundTable, call_step-IsSoundTable, claim_next-IsSoundTable}
use yex_judge.Store.Rows.{Unique}
use yex_judge.Store.Writes.{call_step-Writes}
use yex_judge.Store.Attempts.{Writes-Later}
use yex_judge.Store.Fencing.{only_row, claim_next-Holds}

All-weaken {ℓ κ μ} :
    {A : Type ℓ} {P : A → Type κ} {Q : A → Type μ} (xs : List A)
    → ((a : A) → P a → Q a)
    → All P xs
    → All Q xs
All-weaken [] f a = tt
All-weaken (x ∷ xs) f (h, a) = (f x h, All-weaken xs f a)

claim_next-above :
    (c : Config) (e : Event) (t v : Table) (k : Text) (r : Row) (claim : Claim)
    → Unique t
    → find_row k t ≡ some r
    → claim_next c e.fault e.locked e.now t ≡ ok (some claim, v)
    → claim.id ≡ k
    → r.attempt_count < claim.attempt
claim_next-above c e t v k r claim u h eq same =
    elim (claim_next_ok c e.fault e.locked e.now t v (some claim) eq) [
      | inl (_, x, _) ↦ absurd (ground arith)
      | inr (q, found, x, _) ↦
          let (i, _, _) = oldest_lem (claimable e.locked) t q found in
          let id_is_k : q.id ≡ k = ground arith in
          let row_is_r : q ≡ r =
            All-In (λ z. z.id ≡ k → z ≡ r) t q (only_row k t r u h) i id_is_k in
          ground (arith, ap {A = Row} (λ z. z.attempt_count) row_is_r)
    ]

-- The claims handed out for an id are on attempts above those of the row.
claims_by-above :
    (c : Config) (e : Event) (call : Call) (t : Table) (k : Text) (r : Row)
    → Unique t
    → find_row k t ≡ some r
    → All (λ (x : Claim). x.id ≡ k → r.attempt_count < x.attempt) (claims_by c e call t)
unfolding claims_by
claims_by-above c e (submits id job) t k r u h = tt
claims_by-above c e recovers t k r u h = tt
claims_by-above c e (renews claim) t k r u h = tt
claims_by-above c e (updates sub) t k r u h = tt
claims_by-above c e claims t k r u h = go (claim_next c e.fault e.locked e.now t) refl
  where
    go :
        (m : Result StoreError (Option Claim × Table))
        → claim_next c e.fault e.locked e.now t ≡ m
        → All (λ (x : Claim). x.id ≡ k → r.attempt_count < x.attempt) (claim_of m)
    go (err x) eq = tt
    go (ok (none, v)) eq = tt
    go (ok (some claim, v)) eq = (λ same. claim_next-above c e t v k r claim u h eq same, tt)

handed_out-above :
    (c : Config) (es : List Event) (t : Table) (k : Text) (r : Row)
    → 0 < c.max_attempts
    → All IsProper es
    → IsSoundTable c t
    → find_row k t ≡ some r
    → All (λ (x : Claim). x.id ≡ k → r.attempt_count < x.attempt) (handed_out c es t)
unfolding handed_out step
handed_out-above c [] t k r pos p s h = tt
handed_out-above c (e ∷ es) t k r pos (p, ps) s h =
    let l = Writes-Later k r (call_step-Writes c e e.call t p s.unique) h in
    All-append _ (claims_by c e e.call t) _ (claims_by-above c e e.call t k r s.unique h) (
      All-weaken _ (λ x lt same. let z = lt same in omega arith)
        (handed_out-above c es (call_step c e e.call t) k l.row pos ps
          (call_step-IsSoundTable c e e.call t pos p s) l.found))

-- Later claims of an id are on higher attempts.
abbrev pub IsIncreasing : List Claim → Type 0
IsIncreasing [] = Unit {0}
IsIncreasing (x ∷ xs) =
    All (λ (y : Claim). y.id ≡ x.id → x.attempt < y.attempt) xs × IsIncreasing xs

abbrev Above : Claim → List Claim → Type 0
Above x = All (λ (y : Claim). y.id ≡ x.id → x.attempt < y.attempt)

claims_front :
    (c : Config) (e : Event) (call : Call) (t : Table) (rest : List Claim)
    → IsIncreasing rest
    → ((claim : Claim) (v : Table)
        → call ≡ claims
        → claim_next c e.fault e.locked e.now t ≡ ok (some claim, v)
        → Above claim rest)
    → IsIncreasing (claims_by c e call t ++ rest)
unfolding claims_by
claims_front c e (submits id job) t rest i h = i
claims_front c e recovers t rest i h = i
claims_front c e (renews claim) t rest i h = i
claims_front c e (updates sub) t rest i h = i
claims_front c e claims t rest i h = go (claim_next c e.fault e.locked e.now t) refl
  where
    go :
        (m : Result StoreError (Option Claim × Table))
        → claim_next c e.fault e.locked e.now t ≡ m
        → IsIncreasing (claim_of m ++ rest)
    go (err x) eq = i
    go (ok (none, v)) eq = i
    go (ok (some claim, v)) eq = (h claim v refl eq, i)

after_claim :
    (c : Config) (e : Event) (t v : Table) (claim : Claim)
    → claim_next c e.fault e.locked e.now t ≡ ok (some claim, v)
    → v ≡ call_step c e claims t
unfolding call_step
after_claim c e t v claim h = rw h

Above-rest :
    (c : Config) (e : Event) (es : List Event) (t v : Table) (claim : Claim)
    → 0 < c.max_attempts
    → All IsProper es
    → IsSoundTable c t
    → claim_next c e.fault e.locked e.now t ≡ ok (some claim, v)
    → Above claim (handed_out c es v)
Above-rest c e es t v claim pos ps s h =
    let sv = claim_next-IsSoundTable c e.fault e.locked e.now t v (some claim) s h in
    let (r, found, at, _) = claim_next-Holds c e.fault e.locked e.now t v claim s.unique h in
    All-weaken _ (λ x lt same. let z = lt same in omega arith)
      (handed_out-above c es v claim.id r pos ps sv found)

-- Whatever the workers, the recovery and the faults do, no attempt of a submission is handed out
-- twice: of two claims of one submission the later is on a higher attempt.
pub handed_out-IsIncreasing :
    (c : Config) (es : List Event) (t : Table)
    → 0 < c.max_attempts
    → All IsProper es
    → IsSoundTable c t
    → IsIncreasing (handed_out c es t)
unfolding handed_out step
handed_out-IsIncreasing c [] t pos p s = tt
handed_out-IsIncreasing c (e ∷ es) t pos (p, ps) s =
    claims_front c e e.call t _
      (handed_out-IsIncreasing c es (call_step c e e.call t) pos ps
        (call_step-IsSoundTable c e e.call t pos p s))
      λ claim v is_claim h.
        let same : v ≡ call_step c e e.call t = rw is_claim (after_claim c e t v claim h) in
        subst (λ w. Above claim (handed_out c es w)) same (Above-rest c e es t v claim pos ps s h)
