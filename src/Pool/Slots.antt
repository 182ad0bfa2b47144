-- ===== src/Pool/Slots.antt =====
-- The slots of the sandbox pool (internal/judge/pool.go): what each step does to their number.
use yex_judge.Common.{
  ℕ, ◌+◌, ◌≤◌, ◌≡◌, refl, ap, true, false, List, [], ◌∷◌, length, length-append, arith,
}
use yex_judge.Pool.{
  Pool, Action, receive, configure, release, release_failed, give_back, delete, remove, replace,
  stop, check, register, start, count, add, give_fresh, retire, discard, give_up, leave, close,
  await, drain, finish, has, without, can_step, after, receive_from,
}

pub length-without : (k : ℕ) (xs : List ℕ) → has k xs ≡ true → length (without k xs) + 1 ≡ length xs
unfolding has without
length-without k [] h = absurd (ground arith)
length-without k (x ∷ xs) h = ground (arith, length-without k xs)

-- The slots that are in the channel, in somebody's hands, or being refilled.
unfoldable pub slots : Pool → ℕ
slots p =
    length p.available
    + (length p.acquiring
        + (length p.held
            + (length p.failed
                + (length p.returning
                    + (length p.replacing
                        + (length p.stopping
                            + (p.checking
                                + (p.registering
                                    + (p.waiting
                                        + (length p.launched
                                            + (length p.counted + length p.fresh)))))))))))

pub record IsAccounted (p : Pool) : Type 0 where
  pub all_slots : p.closed ≡ false → slots p ≡ p.capacity
  pub no_more : slots p ≤ p.capacity
  pub starts : p.starting ≡ p.waiting + length p.launched

receive_from-IsAccounted :
    (xs : List ℕ) (p : Pool) → p.available ≡ xs → IsAccounted p → IsAccounted (receive_from xs p)
unfolding slots
receive_from-IsAccounted [] p e i = i
receive_from-IsAccounted (k ∷ ks) p e i =
    let n : length p.available ≡ length (k ∷ ks) = ap length e in
    record {
      all_slots = λ o. omega (arith, i.all_slots o);
      no_more = omega (arith, i.no_more);
      starts = i.starts;
    }

-- A step keeps the slots of an open pool, and adds none to a closed one.
pub after-IsAccounted :
    (a : Action) (p : Pool) → can_step a p ≡ true → IsAccounted p → IsAccounted (after a p)
unfolding can_step after slots
after-IsAccounted receive p c i = receive_from-IsAccounted p.available p refl i
after-IsAccounted (configure k works) p c i = ground (arith, length-without k p.acquiring)
after-IsAccounted (release k how) p c i = ground (arith, length-without k p.held)
after-IsAccounted (release_failed k) p c i = ground (arith, length-without k p.failed)
after-IsAccounted (give_back k channel) p c i =
    ground (arith, length-without k p.returning, length-append p.available (k ∷ []))
after-IsAccounted (delete k) p c i = ground arith
after-IsAccounted (remove k) p c i = ground arith
after-IsAccounted (replace k) p c i = ground (arith, length-without k p.replacing)
after-IsAccounted (stop k) p c i = ground (arith, length-without k p.stopping)
after-IsAccounted check p c i = ground arith
after-IsAccounted register p c i = ground arith
after-IsAccounted (start k) p c i = ground arith
after-IsAccounted (count k) p c i = ground (arith, length-without k p.launched)
after-IsAccounted (add k) p c i = ground (arith, length-without k p.counted)
after-IsAccounted (give_fresh k channel) p c i =
    ground (arith, length-without k p.fresh, length-append p.available (k ∷ []))
after-IsAccounted (retire k) p c i = ground arith
after-IsAccounted (discard k) p c i = ground arith
after-IsAccounted give_up p c i = ground arith
after-IsAccounted leave p c i = ground arith
after-IsAccounted close p c i = ground arith
after-IsAccounted await p c i = ground arith
after-IsAccounted drain p c i = ground arith
after-IsAccounted (finish k) p c i = ground arith
