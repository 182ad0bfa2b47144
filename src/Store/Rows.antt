-- ===== src/Store/Rows.antt =====
-- Laws of the table's searches and updates.
use yex_judge.Common.{
  ◌≡◌, refl, Bool, true, false, ◌≢◌, inl, inr, none, some, [], ◌∷◌, Text, text_eq, text_eq_iff, All,
  arith, if◌then◌else◌, Bool-cases,
}
use yex_judge.Store.{Row, Table, update_where, count_where, find_row}

module _ (p : Row → Bool) (f : Row → Row) where
  -- A property of rows survives an update that keeps it.
  pub All-update_where {ℓ} :
      (P : Row → Type ℓ)
      → ((r : Row) → P r → p r ≡ true → P (f r))
      → (t : Table) → All P t
      → All P (update_where p f t)
  unfolding update_where
  All-update_where P keep [] a = tt
  All-update_where P keep (r ∷ rs) (h, a) = elim (Bool-cases (p r)) [
    | inl e ↦ rw e (keep r h e, All-update_where P keep rs a)
    | inr e ↦ rw e (h, All-update_where P keep rs a)
  ]

  -- An update that keeps ids is seen by a search as an update of the row found.
  pub find_row-update_where :
      ((r : Row) → (f r).id ≡ r.id)
      → (k : Text) (t : Table)
      → find_row k (update_where p f t)
        ≡ elim (find_row k t) [ none ↦ none | some r ↦ some (if p r then f r else r) ]
  unfolding update_where find_row
  find_row-update_where same k [] = refl
  find_row-update_where same k (r ∷ rs) = ground (arith, same r, find_row-update_where same k rs)

  -- No row satisfies the condition: nothing is written.
  pub update_where_none : (t : Table) → count_where p t ≡ 0 → update_where p f t ≡ t
  unfolding update_where count_where
  update_where_none [] h = refl
  update_where_none (r ∷ rs) h = ground (arith, update_where_none rs)

pub count_where_none : (p : Row → Bool) (t : Table) → All (λ r. p r ≡ false) t → count_where p t ≡ 0
unfolding count_where
count_where_none p [] a = refl
count_where_none p (r ∷ rs) (h, a) = rw h (count_where_none p rs a)

pub All-mono {ℓ κ} :
    {P : Row → Type ℓ} {Q : Row → Type κ} (t : Table) → ((r : Row) → P r → Q r) → All P t → All Q t
All-mono [] h a = tt
All-mono (r ∷ rs) h (x, a) = (h r x, All-mono rs h a)

-- What holds of all rows holds of the row found, which has the id looked for.
pub All-find_row {ℓ} :
    (P : Row → Type ℓ) (k : Text) (t : Table) (r : Row)
    → All P t
    → find_row k t ≡ some r
    → P r × (r.id ≡ k)
unfolding find_row
All-find_row P k [] r a h = cc
All-find_row P k (q ∷ qs) r (x, a) h = elim (Bool-cases (text_eq q.id k)) [
  | inl e ↦ let same : q ≡ r = ground arith in rw (← same) (x, (text_eq_iff q.id k).0 e)
  | inr e ↦ All-find_row P k qs r a (ground arith)
]

trivial : (t : Table) → All (λ _. Unit {0}) t
trivial [] = tt
trivial (r ∷ rs) = (tt, trivial rs)

pub find_row-id : (k : Text) (t : Table) (r : Row) → find_row k t ≡ some r → r.id ≡ k
find_row-id k t r h = (All-find_row (λ _. Unit {0}) k t r (trivial t) h).1

-- No two rows have one id.
abbrev pub Lacks : Text → Table → Type 0
Lacks k = All (λ r. r.id ≢ k)

abbrev pub Unique : Table → Type 0
Unique [] = Unit {0}
Unique (r ∷ rs) = Lacks r.id rs × Unique rs
