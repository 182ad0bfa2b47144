-- ===== src/Pool/Cleanup.antt =====
-- Close of the sandbox pool (internal/judge/pool.go) against everything that runs beside it.
use yex_judge.Common.{
  ℕ, ◌≡◌, refl, ap, subst, true, false, ◌||◌, none, some, List, [], ◌∷◌, length, arith,
  Option-cases, inl, inr,
}
use yex_judge.Pool.{Pool, Action, start, has, new_pool, can_step, after, pool_step, run_pool}
use yex_judge.Pool.Accounting.{pool_step-after}
use yex_judge.Pool.Removal.{busy, IsOwned, after-IsOwned, IsSettled, after-IsSettled}

record IsClean (p : Pool) : Type 0 where
  owned : IsOwned p
  settled : IsSettled p

run_pool-IsClean :
    (as' : List Action) (p q : Pool) → IsClean p → run_pool as' p ≡ some q → IsClean q
unfolding run_pool
run_pool-IsClean [] p q i h = let same : p ≡ q = ground arith in subst IsClean same i
run_pool-IsClean (a ∷ as') p q i h = elim (Option-cases (pool_step a p)) [
  | inl e ↦ absurd (ground arith)
  | inr (r, e) ↦
      let (can, same) = pool_step-after a p r e in
      let clean : IsClean (after a p) = record {
        owned = after-IsOwned a p i.owned;
        settled = after-IsSettled a p can i.settled;
      } in
      run_pool-IsClean as' r q (subst IsClean same clean) (ground arith)
]

new_pool-IsClean : (sandboxes : List ℕ) → IsClean (new_pool sandboxes)
unfolding new_pool busy
new_pool-IsClean sandboxes = record {
  owned = λ k h. ground arith;
  settled = record {
    right = refl;
    idle_closed = λ e. absurd (ground arith);
    rested = λ e o. refl;
    unregistered = λ e o. refl;
    drained_idle = λ e. absurd (ground arith);
    emptied = λ e o. absurd (ground arith);
  };
}

none_has : (k : ℕ) (xs : List ℕ) → length xs ≡ 0 → has k xs ≡ false
unfolding has
none_has k [] h = refl
none_has k (x ∷ xs) h = absurd (omega arith)

-- However clients, replacements and Close interleave, once Close has removed all that it took, and
-- provided no call of replace stood between its test of `closed` and its registration when the Wait
-- of Close ended, every sandbox that was ever started has been removed, or is in the hands of a call
-- of removeSandbox, alone or in replace, whose next act is to remove it; and no step starts another.
pub drain-removes :
    (as' : List Action) (sandboxes : List ℕ) (p : Pool)
    → run_pool as' (new_pool sandboxes) ≡ some p
    → p.drained ≡ true
    → p.doomed ≡ []
    → p.overlooked ≡ 0
    → ((k : ℕ)
        → has k p.started ≡ true
        → (has k p.removed || (has k p.removing || has k p.stopping)) ≡ true)
      × ((k : ℕ) → pool_step (start k) p ≡ none)
unfolding pool_step can_step busy
drain-removes as' sandboxes p h d gone o =
    let i = run_pool-IsClean as' (new_pool sandboxes) p (new_pool-IsClean sandboxes) h in
    let right = i.settled.right in
    let rested = i.settled.rested (i.settled.drained_idle d) o in
    let empty = i.settled.emptied d o in
    (
      λ k s.
          let x = i.owned k s in
          let a = none_has k p.all empty in
          let b = none_has k p.launched (omega arith) in
          let c = none_has k p.counted (omega arith) in
          let e = none_has k p.discarding (omega arith) in
          let f = none_has k p.doomed (ap length gone) in ground arith,
      λ k. ground arith,
    )
