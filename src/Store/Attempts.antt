-- ===== src/Store/Attempts.antt =====
-- What a row's life means for the workers: finished work is kept, an overtaken worker is fenced
-- off, and no attempt is handed out twice.
use yex_judge.Common.{
  ◌≤◌, ◌<◌, ◌≡◌, refl, sym, Bool, true, inl, inr, some, List, [], ◌∷◌, ◌++◌, Text, text_eq, All,
  arith, Bool-cases, subst,
}
use yex_judge.Types.{SubmissionStatus, queued, running, finished, failed}
use yex_judge.Store.{Row, Table, update_where, find_row}
use yex_judge.Store.Queue.{Config}
use yex_judge.Store.History.{Event, history, IsProper}
use yex_judge.Store.Members.{In}
use yex_judge.Store.Invariant.{IsSoundTable}
use yex_judge.Store.Rows.{All-find_row, find_row-update_where}
use yex_judge.Store.Writes.{Writes, still, add, write, chain, MayBecome, IsMove, history-Writes}

find_row-append :
    (k : Text) (t s : Table) (r : Row) → find_row k t ≡ some r → find_row k (t ++ s) ≡ some r
unfolding find_row
find_row-append k [] s r h = cc
find_row-append k (q ∷ qs) s r h = ground (arith, find_row-append k qs s r)

pub find_row-In : (k : Text) (t : Table) (r : Row) → find_row k t ≡ some r → In r t
unfolding find_row
find_row-In k [] r h = cc
find_row-In k (q ∷ qs) r h = elim (Bool-cases (text_eq q.id k)) [
  | inl e ↦ inl (ground arith)
  | inr e ↦ inr (find_row-In k qs r (ground arith))
]

-- What later writes make of a row: it is still there, with its id, and no fewer attempts.
pub record Later (k : Text) (r : Row) (u : Table) : Type 0 where
  pub row : Row
  pub found : find_row k u ≡ some row
  pub attempts : r.attempt_count ≤ row.attempt_count
  pub same_job : row.job ≡ r.job

write-Later :
    (k : Text) (t : Table) (r : Row) (p : Row → Bool) (f : Row → Row)
    → ((q : Row) → (f q).id ≡ q.id)
    → All (λ q. p q ≡ true → MayBecome q (f q)) t
    → find_row k t ≡ some r
    → Later k r (update_where p f t)
write-Later k t r p f same a h =
    let (may, _) = All-find_row (λ q. p q ≡ true → MayBecome q (f q)) k t r a h in
    let found = find_row-update_where p f same k t in
    elim (Bool-cases (p r)) [
      | inl e ↦ record {
        row = f r;
        found = ground arith;
        attempts = (may e).3;
        same_job = (may e).1;
      }
      | inr e ↦ record { row = r; found = ground arith; attempts = omega arith; same_job = refl }
    ]

Later-trans : (k : Text) (r : Row) (u v : Table) → (l : Later k r u) → Later k l.row v → Later k r v
Later-trans k r u v l m = record {
  row = m.row;
  found = m.found;
  attempts = omega arith;
  same_job = cc;
}

pub Writes-Later :
    {t u : Table} (k : Text) (r : Row) → Writes t u → find_row k t ≡ some r → Later k r u
Writes-Later k r (still e) h = record {
  row = r;
  found = rw e h;
  attempts = omega arith;
  same_job = refl;
}
Writes-Later {t} k r (add q fresh e) h = record {
  row = r;
  found = rw e (find_row-append k t (q ∷ []) r h);
  attempts = omega arith;
  same_job = refl;
}
Writes-Later {t} k r (write p f same a e) h =
    subst (Later k r) (sym e) (write-Later k t r p f same a h)
Writes-Later k r (chain {t = t} {u = u} {v = v} w x) h =
    let l = Writes-Later k r w h in Later-trans k r u v l (Writes-Later k l.row x l.found)

abbrev pub IsFinal : SubmissionStatus → Type 0
IsFinal finished = Unit {0}
IsFinal failed = Unit {0}
IsFinal _ = ⊥

no-IsMove : (s u : SubmissionStatus) → IsFinal s → ¬ IsMove s u
no-IsMove queued u f m = f
no-IsMove running u f m = f
no-IsMove finished u f m = m
no-IsMove failed u f m = m

Writes-final :
    {t u : Table} (k : Text) (r : Row)
    → IsFinal r.status
    → Writes t u
    → find_row k t ≡ some r
    → find_row k u ≡ some r
Writes-final k r f (still e) h = rw e h
Writes-final {t} k r f (add q fresh e) h = rw e (find_row-append k t (q ∷ []) r h)
Writes-final {t} k r f (write p g same a e) h =
    let (may, _) = All-find_row (λ q. p q ≡ true → MayBecome q (g q)) k t r a h in
    let found = find_row-update_where p g same k t in
    elim (Bool-cases (p r)) [
      | inl x ↦ absurd (no-IsMove r.status (g r).status f (may x).4)
      | inr x ↦ rw e (ground arith)
    ]
Writes-final k r f (chain w x) h = Writes-final k r f x (Writes-final k r f w h)

-- A submission that is finished or failed keeps its row, result included, through any history.
pub history-final :
    (c : Config) (es : List Event) (t : Table) (k : Text) (r : Row)
    → 0 < c.max_attempts
    → All IsProper es
    → IsSoundTable c t
    → find_row k t ≡ some r
    → IsFinal r.status
    → find_row k (history c es t) ≡ some r
history-final c es t k r pos p s h f = Writes-final k r f (history-Writes c es t pos p s) h

-- No submission is ever lost, and its job and the attempts started on it are never undone.
pub history-keeps :
    (c : Config) (es : List Event) (t : Table) (k : Text) (r : Row)
    → 0 < c.max_attempts
    → All IsProper es
    → IsSoundTable c t
    → find_row k t ≡ some r
    → (q : Row) × (find_row k (history c es t) ≡ some q)
      × (q.job ≡ r.job)
      × (r.attempt_count ≤ q.attempt_count)
history-keeps c es t k r pos p s h =
    let l = Writes-Later k r (history-Writes c es t pos p s) h in
    (l.row, l.found, l.same_job, l.attempts)
