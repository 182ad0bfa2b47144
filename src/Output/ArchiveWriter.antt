-- ===== src/Output/ArchiveWriter.antt =====
-- `boundedArchiveWriter` of internal/judge/executor.go, which stands between the tar producer and
-- the pipe to the sandbox. The pipe is the section's parameter: a state and a write that returns
-- the number of bytes it took and perhaps an error.
use yex_judge.Common.{
  ℕ, ◌+◌, ◌-◌, ◌≤◌, ◌≡◌, Option, none, some, List, [], ◌∷◌, ◌++◌, append-nil, append_assoc, arith,
  Text, length, length-append, length-take, take, take_all, leb, ◌==◌, take-append_room,
  take-append_full, if◌then◌else◌, ◌⊎◌, ◌<◌,
}
use yex_judge.Output.{written}

pub data ArchiveError (E : Type 0) : Type 0 where
  archive_too_large : ArchiveError E
  sink_error : E → ArchiveError E

pub record ArchiveWriter (S : Type 0) : Type 0 where
  pub writer : S
  pub remaining : ℕ

-- Go's `(n int, err error)` with the new writer.
pub record Wrote (S E : Type 0) : Type 0 where
  pub state : S
  pub count : ℕ
  pub error : Option E

from_sink : {E : Type 0} → Option E → Option (ArchiveError E)
from_sink none = none
from_sink (some e) = some (sink_error e)

-- The writer's own error is returned unless the sink had one.
or_too_large : {E : Type 0} → Option E → Option (ArchiveError E)
or_too_large none = some archive_too_large
or_too_large (some e) = some (sink_error e)

module _ {S E : Type 0} (sink : S → Text → Wrote S E) where
  pub archive_write : ArchiveWriter S → Text → Wrote (ArchiveWriter S) (ArchiveError E)
  unfolding from_sink or_too_large
  archive_write w p =
      let whole = sink w.writer p in
      let part = sink w.writer (take w.remaining p) in
      if leb (length p) w.remaining
      then (record {
        state = record { writer = whole.state; remaining = w.remaining - whole.count };
        count = whole.count;
        error = from_sink whole.error;
      })
      else if w.remaining == 0
      then (record { state = w; count = 0; error = some archive_too_large })
      else (record {
        state = record { writer = part.state; remaining = w.remaining - part.count };
        count = part.count;
        error = or_too_large part.error;
      })

  -- The producer's copy loop: it stops at the first error.
  pub archive_copy : ArchiveWriter S → List Text → Wrote (ArchiveWriter S) (ArchiveError E)
  archive_copy w [] = record { state = w; count = 0; error = none }
  archive_copy w (p ∷ ps) =
      let r = archive_write w p in
      let rest = archive_copy r.state ps in
      elim r.error [ none ↦ record rest { count = r.count + rest.count } | some e ↦ r ]

-- io.Writer's contract: no more is taken than offered.
abbrev pub TakesAtMost : {S E : Type 0} → (S → Text → Wrote S E) → Type 0
TakesAtMost {S} sink = (s : S) (p : Text) → (sink s p).count ≤ length p

module _ {S E : Type 0} (sink : S → Text → Wrote S E) (contract : TakesAtMost sink) where
  archive_write-budget :
      (w : ArchiveWriter S) (p : Text)
      → (archive_write sink w p).count + (archive_write sink w p).state.remaining ≡ w.remaining
  unfolding archive_write
  archive_write-budget w p = ground (
    arith,
    contract w.writer p,
    contract w.writer (take w.remaining p),
    length-take w.remaining p,
  )

  -- However the producer cuts its output and wherever the sink fails, the bytes that passed and
  -- the bytes still allowed add up to the limit, so no more than the limit ever passes.
  pub archive_copy-budget :
      (w : ArchiveWriter S) (ps : List Text)
      → (archive_copy sink w ps).count + (archive_copy sink w ps).state.remaining ≡ w.remaining
  unfolding archive_copy
  archive_copy-budget w [] = omega arith
  archive_copy-budget w (p ∷ ps) =
      ground
        (arith, archive_write-budget w p, archive_copy-budget (archive_write sink w p).state ps)

-- A sink that takes everything and never fails.
abbrev pub append_sink : Text → Text → Wrote Text (Unit {0})
append_sink s p = record { state = s ++ p; count = length p; error = none }

pub append_sink-TakesAtMost : TakesAtMost append_sink
append_sink-TakesAtMost s p = omega arith

take_none : (n : ℕ) (p : Text) → n ≡ 0 → take n p ≡ []
take_none n p h = rw h

take_nil : (n : ℕ) → take {A = ℕ} n [] ≡ []
take_nil n = take_all n [] (omega arith)

-- What one write does over such a sink.
archive_write_append :
    (w : ArchiveWriter Text) (p : Text)
    → let r = archive_write append_sink w p in
      (r.state.writer ≡ w.writer ++ take w.remaining p)
      × (r.state.remaining ≡ w.remaining - length p)
      × (((r.error ≡ none) × (length p ≤ w.remaining))
          ⊎ ((r.error ≡ some archive_too_large) × (w.remaining < length p)))
unfolding archive_write
archive_write_append w p = ground (
  arith,
  take_all w.remaining p,
  take_none w.remaining p,
  append-nil w.writer,
  length-take w.remaining p,
)

archive_copy_append :
    (w : ArchiveWriter Text) (ps : List Text)
    → let r = archive_copy append_sink w ps in
      (r.state.writer ≡ w.writer ++ take w.remaining (written ps))
      × (((r.error ≡ none) × (length (written ps) ≤ w.remaining))
          ⊎ ((r.error ≡ some archive_too_large) × (w.remaining < length (written ps))))
unfolding archive_copy
archive_copy_append w [] = ground (arith, take_nil w.remaining, append-nil w.writer)
archive_copy_append w (p ∷ ps) =
    let r = archive_write append_sink w p in
    ground (
      arith,
      archive_write_append w p,
      archive_copy_append r.state ps,
      length-append p (written ps),
      take_all w.remaining p,
      take-append_room w.remaining p (written ps),
      take-append_full w.remaining p (written ps),
      append_assoc w.writer p (take (w.remaining - length p) (written ps)),
    )

-- Over a pipe that takes everything, the sandbox receives the first `n` bytes of the archive, and
-- the transfer fails exactly when the archive is longer than `n` bytes.
pub archive_copy-overflow :
    (n : ℕ) (ps : List Text)
    → let r = archive_copy append_sink (record { writer = []; remaining = n }) ps in
      (r.state.writer ≡ take n (written ps))
      × (((r.error ≡ none) × (length (written ps) ≤ n))
          ⊎ ((r.error ≡ some archive_too_large) × (n < length (written ps))))
archive_copy-overflow n ps = archive_copy_append (record { writer = []; remaining = n }) ps
