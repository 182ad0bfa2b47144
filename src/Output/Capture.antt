-- ===== src/Output/Capture.antt =====
-- What the bounded buffers hold after any sequence of writes.
use yex_judge.Common.{
  ℕ, zero, suc, ◌+◌, ◌-◌, ◌≤◌, ◌<◌, ◌≡◌, refl, ◌∙◌, sym, ◌≢◌, ◌⊎◌, inl, inr, true, List, [], ◌∷◌,
  ◌++◌, append-nil, append_assoc, arith, Text, length, length-append, length-take, take,
  take-append, take_all, take-append_full, take-append_room, All, ltb, if◌then◌else◌,
}
use Prim.Native.Nat.{min}
use native.Mathlib.Decide.{dec_le}
use yex_judge.Output.{
  LimitedBuffer, limited_write, DiagnosticBuffer, diagnostic_write, CappedCommandBuffer,
  capped_write, BoundedBuffer, bounded_write, write_all, written, new_limited, new_diagnostic,
  new_capped, new_bounded,
}

length-pos : (p : Text) → p ≢ [] → 0 < length p
length-pos [] h = absurd (h refl)
length-pos (c ∷ p) h = omega arith

nil_or_pos : (p : Text) → (p ≡ []) ⊎ (0 < length p)
nil_or_pos [] = inl refl
nil_or_pos (c ∷ p) = inr (omega arith)

take_nil : (n : ℕ) → take {A = ℕ} n [] ≡ []
take_nil zero = refl
take_nil (suc n) = refl

sizes :
    (n : ℕ) (w p : Text)
    → (length (take n w) ≡ min n (length w)) × (length (w ++ p) ≡ length w + length p)
sizes n w p = (length-take n w, length-append w p)

-- Where the buffer is full nothing is added; where there is room the chunk is, up to the room.
full_or_room :
    (n : ℕ) (w p : Text)
    → ((n ≤ length w)
        × (take n (w ++ p) ≡ take n w)
        × (take n w ++ take (n - length w) p ≡ take n w))
      ⊎ ((length w < n)
          × (take n w ≡ w)
          × (take n (w ++ p) ≡ w ++ take (n - length w) p)
          × (length p ≤ n - length w → take (n - length w) p ≡ p))
full_or_room n w p = elim (dec_le n (length w)) [
  | yes full ↦
      inl (full, take-append_full n w p full, sym (take-append n w p) ∙ take-append_full n w p full)
  | no room ↦ inr (
    omega arith,
    take_all n w (omega arith),
    take-append_room n w p (omega arith),
    take_all (n - length w) p,
  )
]

room_after : (n : ℕ) (w : Text) → n - length (take n w) ≡ n - length w
room_after n w = omega (arith, length-take n w)

-- The first `n` bytes of `w` are kept, and the flag and the signal say whether any was dropped.
record Limited (n : ℕ) (w : Text) (b : LimitedBuffer) : Type 0 where
  bound : b.limit ≡ n
  kept : b.buffer ≡ take n w
  flag : b.exceeded ≡ ltb n (length w)
  once : b.signals ≡ (if b.exceeded then 1 else 0)

write-Limited :
    (n : ℕ) (w p : Text) (b : LimitedBuffer)
    → p ≢ []
    → Limited n w b
    → Limited n (w ++ p) (limited_write b p).0
unfolding limited_write
write-Limited n w p b ne v = ground (arith, sizes n w p, full_or_room n w p, length-pos p ne)

record Diagnostic (n : ℕ) (w : Text) (b : DiagnosticBuffer) : Type 0 where
  bound : b.limit ≡ n
  kept : b.buffer ≡ take n w

write-Diagnostic :
    (n : ℕ) (w p : Text) (b : DiagnosticBuffer)
    → Diagnostic n w b
    → Diagnostic n (w ++ p) (diagnostic_write b p).0
unfolding diagnostic_write
write-Diagnostic n w p b v = ground (arith, sizes n w p, full_or_room n w p)

record Capped (n : ℕ) (w : Text) (b : CappedCommandBuffer) : Type 0 where
  bound : b.limit ≡ n
  kept : b.buffer ≡ take n w
  flag : b.exceeded ≡ ltb n (length w)

write-Capped :
    (n : ℕ) (w p : Text) (b : CappedCommandBuffer)
    → Capped n w b
    → Capped n (w ++ p) (capped_write b p).0
unfolding capped_write
write-Capped n w p b v = ground (arith, sizes n w p, full_or_room n w p)

record Bounded (n : ℕ) (w : Text) (b : BoundedBuffer) : Type 0 where
  bound : b.limit ≡ n
  kept : b.buffer ≡ take n w
  flag : b.exceeded ≡ ltb n (length w)
  callback : b.has_on_limit ≡ true
  spent : b.fired ≡ b.exceeded
  once : b.signals ≡ (if b.exceeded then 1 else 0)

write-Bounded :
    (n : ℕ) (w p : Text) (b : BoundedBuffer)
    → Bounded n w b
    → Bounded n (w ++ p) (bounded_write b p).0
unfolding bounded_write
write-Bounded n w p b v =
    ground
      (arith, sizes n w p, full_or_room n w p, room_after n w, nil_or_pos p, append-nil (take n w))

-- An invariant of what was written so far that every admissible write keeps holds at the end.
write_all_inv :
    {B : Type 0} (P : Text → B → Type 0) (Q : Text → Type 0) (write : B → Text → B × ℕ)
    → ((w p : Text) (b : B) → Q p → P w b → P (w ++ p) (write b p).0)
    → (w : Text) (b : B) (ps : List Text) → All Q ps
    → P w b
    → P (w ++ written ps) (write_all write b ps)
unfolding write_all
write_all_inv P Q write keep w b [] _ v = rw (append-nil w) v
write_all_inv P Q write keep w b (p ∷ ps) (q, qs) v =
    rw (← append_assoc w p (written ps))
      (write_all_inv P Q write keep (w ++ p) (write b p).0 ps qs (keep w p b q v))

any : (ps : List Text) → All (λ _. Unit {0}) ps
any [] = tt
any (p ∷ ps) = (tt, any ps)

-- A `limitedBuffer` holds the first `n` bytes of what was written, whatever the chunks, as long
-- as no chunk is empty; it is marked exceeded exactly when more was written, and its callback has
-- then been called once, and never otherwise.
pub limited_write-capture :
    (n : ℕ) (ps : List Text)
    → All (λ p. p ≢ []) ps
    → let b = write_all limited_write (new_limited n) ps in
      (b.buffer ≡ take n (written ps))
      × (b.exceeded ≡ ltb n (length (written ps)))
      × (b.signals ≡ (if b.exceeded then 1 else 0))
unfolding new_limited
limited_write-capture n ps ne =
    let v =
      write_all_inv (Limited n) (λ p. p ≢ []) limited_write (λ w p b q h. write-Limited n w p b q h)
        [] (new_limited n) ps ne (ground (arith, take_nil n)) in
    (v.kept, v.flag, v.once)

-- A `boundedBuffer` with a callback does the same for every sequence of chunks, empty ones
-- included.
pub bounded_write-capture :
    (n : ℕ) (ps : List Text)
    → let b = write_all bounded_write (new_bounded n) ps in
      (b.buffer ≡ take n (written ps))
      × (b.exceeded ≡ ltb n (length (written ps)))
      × (b.signals ≡ (if b.exceeded then 1 else 0))
unfolding new_bounded
bounded_write-capture n ps =
    let v =
      write_all_inv (Bounded n) (λ _. Unit {0}) bounded_write (λ w p b q h. write-Bounded n w p b h)
        [] (new_bounded n) ps (any ps) (ground (arith, take_nil n)) in
    (v.kept, v.flag, v.once)

-- A `cappedCommandBuffer` and a `diagnosticBuffer` hold the same bytes, the first `n` of what was
-- written, and the former is marked exceeded exactly when more was written.
pub capped_write-capture :
    (n : ℕ) (ps : List Text)
    → let c = write_all capped_write (new_capped n) ps in
      let d = write_all diagnostic_write (new_diagnostic n) ps in
      (c.buffer ≡ take n (written ps))
      × (d.buffer ≡ take n (written ps))
      × (c.exceeded ≡ ltb n (length (written ps)))
unfolding new_capped new_diagnostic
capped_write-capture n ps =
    let v =
      write_all_inv (Capped n) (λ _. Unit {0}) capped_write (λ w p b q h. write-Capped n w p b h) []
        (new_capped n) ps (any ps) (ground (arith, take_nil n)) in
    let u =
      write_all_inv (Diagnostic n) (λ _. Unit {0}) diagnostic_write
        (λ w p b q h. write-Diagnostic n w p b h) [] (new_diagnostic n) ps (any ps)
        (ground (arith, take_nil n)) in
    (v.kept, u.kept, v.flag)

-- No writer ever reports a short write: a process that prints too much is not told so.
pub write_reports_all :
    (p : Text) (a : LimitedBuffer) (b : DiagnosticBuffer) (c : CappedCommandBuffer)
    (d : BoundedBuffer)
    → ((limited_write a p).1 ≡ length p)
      × ((diagnostic_write b p).1 ≡ length p)
      × ((capped_write c p).1 ≡ length p)
      × ((bounded_write d p).1 ≡ length p)
unfolding limited_write diagnostic_write capped_write bounded_write
write_reports_all p a b c d = (ground arith, ground arith, ground arith, ground arith)
