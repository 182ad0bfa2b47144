-- ===== src/Output.antt =====
-- The bounded writers that capture what a child process prints: `limitedBuffer`
-- (internal/runner/docker_runner.go), `diagnosticBuffer` (internal/judge/executor.go),
-- `cappedCommandBuffer` (internal/judge/supervisor_executor.go) and `boundedBuffer`
-- (cmd/yexsupervisor/main.go). A write returns the new buffer and the number of bytes it reports;
-- a callback is a count of its calls. `boundedArchiveWriter` is in the child ArchiveWriter.
pub mod Capture
pub mod ArchiveWriter
pub mod Tests
use yex_judge.Common.{
  ℕ, ◌+◌, ◌-◌, Bool, true, false, not, List, [], ◌∷◌, ◌++◌, Text, length, take, ltb, leb,
  if◌then◌else◌,
}

pub record LimitedBuffer : Type 0 where
  pub buffer : Text
  pub limit : ℕ
  pub exceeded : Bool
  -- The calls of `onExceeded` so far.
  pub signals : ℕ

-- `if !b.exceeded { b.exceeded = true; b.onExceeded() }`.
mark_exceeded : LimitedBuffer → LimitedBuffer
mark_exceeded b = if b.exceeded then b else record b { exceeded = true; signals = b.signals + 1 }

unfoldable pub limited_write : LimitedBuffer → Text → LimitedBuffer × ℕ
unfolding mark_exceeded
limited_write b p =
    let remaining = b.limit - length b.buffer in
    if leb b.limit (length b.buffer)
    then (mark_exceeded b, length p)
    else if ltb remaining (length p)
    then (mark_exceeded (record b { buffer = b.buffer ++ take remaining p }), length p)
    else (record b { buffer = b.buffer ++ p }, length p)

pub record DiagnosticBuffer : Type 0 where
  pub buffer : Text
  pub limit : ℕ

-- `remaining > 0` is `len < limit`; `len(data) > remaining` is then a comparison of naturals.
unfoldable pub diagnostic_write : DiagnosticBuffer → Text → DiagnosticBuffer × ℕ
diagnostic_write b p =
    let remaining = b.limit - length b.buffer in
    if ltb (length b.buffer) b.limit
    then (
      record b { buffer = b.buffer ++ (if ltb remaining (length p) then take remaining p else p) },
      length p,
    )
    else (b, length p)

pub record CappedCommandBuffer : Type 0 where
  pub buffer : Text
  pub limit : ℕ
  pub exceeded : Bool

-- `len(p) > limit - len` over Go's signed integers is `limit < len(p) + len`.
unfoldable pub capped_write : CappedCommandBuffer → Text → CappedCommandBuffer × ℕ
capped_write b p =
    let remaining = b.limit - length b.buffer in
    let over = ltb b.limit (length p + length b.buffer) in
    let kept =
      if ltb (length b.buffer) b.limit
      then b.buffer ++ (if ltb remaining (length p) then take remaining p else p)
      else b.buffer in
    (record b { buffer = kept; exceeded = if over then true else b.exceeded }, length p)

pub record BoundedBuffer : Type 0 where
  pub buffer : Text
  pub limit : ℕ
  pub exceeded : Bool
  -- `onLimit != nil`, whether `once` has fired, and the calls of `onLimit` so far.
  pub has_on_limit : Bool
  pub fired : Bool
  pub signals : ℕ

-- `b.once.Do(func() { if b.onLimit != nil { b.onLimit() } })`.
once_on_limit : BoundedBuffer → BoundedBuffer
once_on_limit b =
    if b.fired
    then b
    else record b { fired = true; signals = if b.has_on_limit then b.signals + 1 else b.signals }

unfoldable pub bounded_write : BoundedBuffer → Text → BoundedBuffer × ℕ
unfolding once_on_limit
bounded_write b p =
    let remaining = b.limit - length b.buffer in
    if ltb remaining (length p)
    then (
      once_on_limit (record b { buffer = b.buffer ++ take remaining p; exceeded = true }),
      length p,
    )
    else (record b { buffer = b.buffer ++ p }, length p)

-- The buffer after the writes of a process, in order.
unfoldable pub write_all : {B : Type 0} → (B → Text → B × ℕ) → B → List Text → B
write_all write b [] = b
write_all write b (p ∷ ps) = write_all write (write b p).0 ps

-- What the process wrote altogether.
abbrev pub written : List Text → Text
written [] = []
written (p ∷ ps) = p ++ written ps

unfoldable pub new_limited : ℕ → LimitedBuffer
new_limited n = record { buffer = []; limit = n; exceeded = false; signals = 0 }

unfoldable pub new_diagnostic : ℕ → DiagnosticBuffer
new_diagnostic n = record { buffer = []; limit = n }

unfoldable pub new_capped : ℕ → CappedCommandBuffer
new_capped n = record { buffer = []; limit = n; exceeded = false }

unfoldable pub new_bounded : ℕ → BoundedBuffer
new_bounded n = record {
  buffer = [];
  limit = n;
  exceeded = false;
  has_on_limit = true;
  fired = false;
  signals = 0;
}
