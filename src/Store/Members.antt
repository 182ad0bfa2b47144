-- ===== src/Store/Members.antt =====
-- Members of a table whose ids are distinct: the row to claim, and the rows to recover.
use yex_judge.Common.{
  ℕ, suc, ◌≤◌, ◌≡◌, refl, sym, Bool, true, false, ◌≢◌, ◌⊎◌, inl, inr, none, some, List, [], ◌∷◌,
  length, Text, text_eq, text_eq_iff, All, arith, Bool-cases, Option-cases, leb, leb→le, subst,
}
use yex_judge.Store.{
  Row, Table, update_where, count_where, find_row, oldest, has_id, lock_expired, is_expired,
  insert_by_lease, expires_before,
}
use yex_judge.Store.Rows.{Lacks, Unique, All-update_where, All-mono, count_where_none}

abbrev pub In : Row → Table → Type 0
In r [] = ⊥
In r (q ∷ qs) = (q ≡ r) ⊎ In r qs

pub All-In {ℓ} : (P : Row → Type ℓ) (t : Table) (r : Row) → All P t → In r t → P r
All-In P [] r a i = absurd i
All-In P (q ∷ qs) r (h, a) (inl e) = subst P e h
All-In P (q ∷ qs) r (h, a) (inr i) = All-In P qs r a i

-- A row is the only one with its id.
abbrev pub Only : Row → Table → Type 0
Only r = All (λ q. q.id ≡ r.id → q ≡ r)

Lacks-Only : (r : Row) (t : Table) → Lacks r.id t → Only r t
Lacks-Only r t a = All-mono t (λ q h e. absurd (h e)) a

pub In-Only : (t : Table) (r : Row) → Unique t → In r t → Only r t
In-Only [] r u i = tt
In-Only (q ∷ qs) r (l, u) (inl e) = (λ _. e, subst (λ (x : Row). Only x qs) e (Lacks-Only q qs l))
In-Only (q ∷ qs) r (l, u) (inr i) =
    (λ same. absurd (All-In (λ x. x.id ≢ q.id) qs r l i (sym same)), In-Only qs r u i)

-- Writing one row by its id, in a table where it is the only one.
pub All-update_id {ℓ} :
    (P : Row → Type ℓ) (f : Row → Row) (r : Row) (t : Table)
    → Only r t
    → All P t
    → (P r → P (f r))
    → All P (update_where (has_id r.id) f t)
unfolding update_where
All-update_id P f r [] o a keep = tt
All-update_id P f r (q ∷ qs) (h, o) (x, a) keep = elim (Bool-cases (text_eq q.id r.id)) [
  | inl e ↦
      let same : q ≡ r = h ((text_eq_iff q.id r.id).0 e) in
      rw e (
        subst (λ (z : Row). P (f z)) (sym same) (keep (subst P same x)),
        All-update_id P f r qs o a keep,
      )
  | inr e ↦ rw e (x, All-update_id P f r qs o a keep)
]

count_Lacks : (t : Table) (k : Text) → Lacks k t → count_where (has_id k) t ≡ 0
count_Lacks t k l =
    count_where_none (has_id k) t (All-mono t (λ r h. ground (arith, text_eq_iff r.id k)) l)

-- Exactly one row has the id of a member.
pub count_where_id : (t : Table) (r : Row) → Unique t → In r t → count_where (has_id r.id) t ≡ 1
unfolding count_where
count_where_id [] r u i = absurd i
count_where_id (q ∷ qs) r (l, u) (inl e) =
    ground
      (arith, text_eq_iff q.id r.id, count_Lacks qs r.id (subst (λ (x : Row). Lacks x.id qs) e l))
count_where_id (q ∷ qs) r (l, u) (inr i) =
    let other : r.id ≢ q.id = All-In (λ x. x.id ≢ q.id) qs r l i in
    ground (arith, text_eq_iff q.id r.id, count_where_id qs r u i)

pub oldest-none : (p : Row → Bool) (t : Table) → oldest p t ≡ none → All (λ q. p q ≡ false) t
unfolding oldest
oldest-none p [] h = tt
oldest-none p (q ∷ qs) h = ground (arith, oldest-none p qs)

abbrev OldestOf : (Row → Bool) → Table → Row → Type 0
OldestOf p t r = In r t × (p r ≡ true) × All (λ q. p q ≡ true → r.created_at ≤ q.created_at) t

skip :
    (p : Row → Bool) (q : Row) (qs : Table) (r : Row)
    → p q ≡ false
    → OldestOf p qs r
    → OldestOf p (q ∷ qs) r
skip p q qs r e (i, h, a) = (inr i, h, (λ e'. absurd (cc), a))

first :
    (p : Row → Bool) (q : Row) (qs : Table)
    → p q ≡ true
    → oldest p qs ≡ none
    → OldestOf p (q ∷ qs) q
first p q qs e h =
    (inl refl, e, (λ _. omega arith, All-mono qs (λ x n y. absurd (cc)) (oldest-none p qs h)))

keep_new :
    (p : Row → Bool) (q s : Row) (qs : Table)
    → p q ≡ true
    → q.created_at ≤ s.created_at
    → OldestOf p qs s
    → OldestOf p (q ∷ qs) q
keep_new p q s qs e le (i, h, a) =
    (inl refl, e, (λ _. omega arith, All-mono qs (λ x g y. let z = g y in omega arith) a))

keep_old :
    (p : Row → Bool) (q s : Row) (qs : Table)
    → s.created_at ≤ q.created_at
    → OldestOf p qs s
    → OldestOf p (q ∷ qs) s
keep_old p q s qs le (i, h, a) = (inr i, h, (λ _. le, a))

-- The row that a claim takes is in the table, may be claimed, and none that may be is older.
pub oldest_lem : (p : Row → Bool) (t : Table) (r : Row) → oldest p t ≡ some r → OldestOf p t r
unfolding oldest
oldest_lem p [] r h = cc
oldest_lem p (q ∷ qs) r h = elim (Bool-cases (p q)) [
  | inr e ↦ skip p q qs r e (oldest_lem p qs r (ground arith))
  | inl e ↦ elim (Option-cases (oldest p qs)) [
    | inl n ↦ let same : q ≡ r = ground arith in subst (OldestOf p (q ∷ qs)) same (first p q qs e n)
    | inr (s, found) ↦ elim (Bool-cases (leb q.created_at s.created_at)) [
      | inl le ↦
          let same : q ≡ r = ground arith in
          subst (OldestOf p (q ∷ qs)) same
            (keep_new p q s qs e (leb→le _ _ le) (oldest_lem p qs s found))
      | inr gt ↦
          let same : s ≡ r = ground arith in
          subst (OldestOf p (q ∷ qs)) same
            (keep_old p q s qs (ground arith) (oldest_lem p qs s found))
    ]
  ]
]

All-insert_by_lease {ℓ} :
    (P : Row → Type ℓ) (r : Row) (l : List Row) → P r → All P l → All P (insert_by_lease r l)
unfolding insert_by_lease
All-insert_by_lease P r [] x a = (x, tt)
All-insert_by_lease P r (q ∷ qs) x (y, a) = elim (Bool-cases (expires_before r q)) [
  | inl e ↦ rw e (x, (y, a))
  | inr e ↦ rw e (y, All-insert_by_lease P r qs x a)
]

Unique-insert_by_lease :
    (r : Row) (l : List Row) → Lacks r.id l → Unique l → Unique (insert_by_lease r l)
unfolding insert_by_lease
Unique-insert_by_lease r [] a u = (tt, tt)
Unique-insert_by_lease r (q ∷ qs) (h, a) (b, u) = elim (Bool-cases (expires_before r q)) [
  | inl e ↦ rw e ((h, a), (b, u))
  | inr e ↦ rw e (
    All-insert_by_lease (λ x. x.id ≢ q.id) r qs (λ z. h (sym z)) b,
    Unique-insert_by_lease r qs a u,
  )
]

In-insert_by_lease : (q r : Row) (l : List Row) → (q ≡ r) ⊎ In r l → In r (insert_by_lease q l)
unfolding insert_by_lease
In-insert_by_lease q r [] i = i
In-insert_by_lease q r (x ∷ xs) i = elim (Bool-cases (expires_before q x)) [
  | inl e ↦ rw e i
  | inr e ↦ rw e (elim i [
    | inl h ↦ inr (In-insert_by_lease q r xs (inl h))
    | inr (inl h) ↦ inl h
    | inr (inr h) ↦ inr (In-insert_by_lease q r xs (inr h))
  ])
]

length-insert_by_lease : (r : Row) (l : List Row) → length (insert_by_lease r l) ≡ suc (length l)
unfolding insert_by_lease
length-insert_by_lease r [] = refl
length-insert_by_lease r (q ∷ qs) = ground (arith, length-insert_by_lease r qs)

module _ (p : Row → Bool) (f : Row → Row) (same : (r : Row) → (f r).id ≡ r.id) where
  pub Lacks-update_where : (k : Text) (t : Table) → Lacks k t → Lacks k (update_where p f t)
  Lacks-update_where k = All-update_where p f (λ r. r.id ≢ k) (λ r h _. rw (same r) h)

  -- An update that keeps ids keeps them distinct.
  pub Unique-update_where : (t : Table) → Unique t → Unique (update_where p f t)
  unfolding update_where
  Unique-update_where [] u = tt
  Unique-update_where (r ∷ rs) (l, u) = elim (Bool-cases (p r)) [
    | inl e ↦ rw e (rw (same r) (Lacks-update_where r.id rs l), Unique-update_where rs u)
    | inr e ↦ rw e (Lacks-update_where r.id rs l, Unique-update_where rs u)
  ]

-- Writing the row of one id leaves the rows of other ids in the table.
pub In-update_id :
    (k : Text) (f : Row → Row) (t : Table) (r : Row)
    → r.id ≢ k
    → In r t
    → In r (update_where (has_id k) f t)
unfolding update_where
In-update_id k f [] r ne i = absurd i
In-update_id k f (q ∷ qs) r ne (inl e) =
    let ne' : q.id ≢ k = rw e ne in
    elim (Bool-cases (text_eq q.id k)) [
      | inl x ↦ absurd (ne' ((text_eq_iff q.id k).0 x))
      | inr x ↦ rw x (inl e)
    ]
In-update_id k f (q ∷ qs) r ne (inr i) = inr (In-update_id k f qs r ne i)

module _ (locked : Text → Bool) (now : ℕ) where
  -- What holds of the expired rows of a table holds of the locked ones.
  pub All-lock_expired {ℓ} :
      (P : Row → Type ℓ) (t : Table)
      → All (λ r. is_expired locked now r ≡ true → P r) t
      → All P (lock_expired locked now t)
  unfolding lock_expired
  All-lock_expired P [] a = tt
  All-lock_expired P (r ∷ rs) (h, a) = elim (Bool-cases (is_expired locked now r)) [
    | inl e ↦ rw e (All-insert_by_lease P r _ (h e) (All-lock_expired P rs a))
    | inr e ↦ rw e (All-lock_expired P rs a)
  ]

  pub lock_expired-Unique : (t : Table) → Unique t → Unique (lock_expired locked now t)
  unfolding lock_expired
  lock_expired-Unique [] u = tt
  lock_expired-Unique (r ∷ rs) (l, u) = elim (Bool-cases (is_expired locked now r)) [
    | inl e ↦ rw e (
        Unique-insert_by_lease r _
          (All-lock_expired (λ x. x.id ≢ r.id) rs (All-mono rs (λ x h _. h) l))
          (lock_expired-Unique rs u))
    | inr e ↦ rw e (lock_expired-Unique rs u)
  ]

  all-In : (t : Table) → All (λ r. In r t) t
  all-In [] = tt
  all-In (r ∷ rs) = (inl refl, All-mono rs (λ x i. inr i) (all-In rs))

  pub lock_expired_lem :
      (t : Table) → All (λ r. In r t × (is_expired locked now r ≡ true)) (lock_expired locked now t)
  lock_expired_lem t =
      All-lock_expired (λ r. In r t × (is_expired locked now r ≡ true)) t
        (All-mono t (λ r i e. (i, e)) (all-In t))

  -- Every expired row is among the locked ones.
  pub In-lock_expired :
      (t : Table) (r : Row)
      → In r t
      → is_expired locked now r ≡ true
      → In r (lock_expired locked now t)
  unfolding lock_expired
  In-lock_expired [] r i e = absurd i
  In-lock_expired (q ∷ qs) r (inl same) e =
      let here : is_expired locked now q ≡ true = rw same e in
      rw here (In-insert_by_lease q r _ (inl same))
  In-lock_expired (q ∷ qs) r (inr i) e = elim (Bool-cases (is_expired locked now q)) [
    | inl x ↦ rw x (In-insert_by_lease q r _ (inr (In-lock_expired qs r i e)))
    | inr x ↦ rw x (In-lock_expired qs r i e)
  ]

  pub length-lock_expired :
      (t : Table) → length (lock_expired locked now t) ≡ count_where (is_expired locked now) t
  unfolding lock_expired count_where
  length-lock_expired [] = refl
  length-lock_expired (r ∷ rs) =
      ground (arith, length-lock_expired rs, length-insert_by_lease r (lock_expired locked now rs))

pub In-find_row : (t : Table) (r : Row) → Unique t → In r t → find_row r.id t ≡ some r
unfolding find_row
In-find_row [] r u i = absurd i
In-find_row (q ∷ qs) r (l, u) (inl e) = ground (arith, text_eq_iff q.id r.id)
In-find_row (q ∷ qs) r (l, u) (inr i) =
    let other : r.id ≢ q.id = All-In (λ x. x.id ≢ q.id) qs r l i in
    ground (arith, text_eq_iff q.id r.id, In-find_row qs r u i)
