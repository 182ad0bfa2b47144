-- ===== src/Output/Tests.antt =====
-- The bounded writers run on small inputs, and the theorems about them at those inputs.
use yex_judge.Common.{
  ◌+◌, ◌≡◌, refl, ◌⊎◌, ◌<◌, ◌≤◌, true, some, none, List, [], ◌∷◌, Text, codes, take, length, ltb,
  if◌then◌else◌,
}
use yex_judge.Output.{
  limited_write, bounded_write, capped_write, diagnostic_write, write_all, written, new_limited,
  new_bounded, new_capped, new_diagnostic,
}
use yex_judge.Output.Capture.{limited_write-capture, bounded_write-capture, capped_write-capture}
use yex_judge.Output.ArchiveWriter.{
  ArchiveWriter, archive_too_large, archive_copy, append_sink, append_sink-TakesAtMost,
  archive_copy-budget, archive_copy-overflow,
}

abbrev chunks : List Text
chunks = codes "ab" ∷ codes "cde" ∷ codes "f" ∷ []

limited_keeps_four : (write_all limited_write (new_limited 4) chunks).buffer ≡ codes "abcd"
unfolding write_all limited_write new_limited
limited_keeps_four = refl

limited_signals_once : (write_all limited_write (new_limited 4) chunks).signals ≡ 1
unfolding write_all limited_write new_limited
limited_signals_once = refl

-- An empty chunk after exactly `limit` bytes marks a `limitedBuffer` exceeded.
limited_empty_chunk :
    (write_all limited_write (new_limited 2) (codes "ab" ∷ [] ∷ [])).exceeded ≡ true
unfolding write_all limited_write new_limited
limited_empty_chunk = refl

limited_write-capture_example :
    let b = write_all limited_write (new_limited 4) chunks in
    (b.buffer ≡ take 4 (written chunks))
    × (b.exceeded ≡ ltb 4 (length (written chunks)))
    × (b.signals ≡ (if b.exceeded then 1 else 0))
limited_write-capture_example = limited_write-capture 4 chunks (λ e. cc, (λ e. cc, (λ e. cc, tt)))

bounded_write-capture_example :
    let b = write_all bounded_write (new_bounded 4) chunks in
    (b.buffer ≡ take 4 (written chunks))
    × (b.exceeded ≡ ltb 4 (length (written chunks)))
    × (b.signals ≡ (if b.exceeded then 1 else 0))
bounded_write-capture_example = bounded_write-capture 4 chunks

capped_write-capture_example :
    let c = write_all capped_write (new_capped 4) chunks in
    let d = write_all diagnostic_write (new_diagnostic 4) chunks in
    (c.buffer ≡ take 4 (written chunks))
    × (d.buffer ≡ take 4 (written chunks))
    × (c.exceeded ≡ ltb 4 (length (written chunks)))
capped_write-capture_example = capped_write-capture 4 chunks

abbrev four_left : ArchiveWriter Text
four_left = record { writer = []; remaining = 4 }

archive_copy-budget_example :
    (archive_copy append_sink four_left chunks).count
      + (archive_copy append_sink four_left chunks).state.remaining
    ≡ 4
archive_copy-budget_example =
    archive_copy-budget append_sink append_sink-TakesAtMost four_left chunks

archive_copy-overflow_example :
    let r = archive_copy append_sink four_left chunks in
    (r.state.writer ≡ take 4 (written chunks))
    × (((r.error ≡ none) × (length (written chunks) ≤ 4))
        ⊎ ((r.error ≡ some archive_too_large) × (4 < length (written chunks))))
archive_copy-overflow_example = archive_copy-overflow 4 chunks
