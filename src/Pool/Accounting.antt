-- ===== src/Pool/Accounting.antt =====
-- The counts of the sandbox pool (internal/judge/pool.go): while it is open every slot is
-- accounted for, so its channel never blocks a return.
use yex_judge.Common.{
  ℕ, ◌≡◌, subst, Bool, true, Bool-cases, some, List, [], ◌∷◌, arith, Option-cases, inl, inr,
}
use yex_judge.Pool.{
  Pool, Action, give_back, has, new_pool, can_step, can_put, after, pool_step, run_pool,
}
use yex_judge.Pool.Slots.{length-without, slots, IsAccounted, after-IsAccounted}

pub pool_step-after :
    (a : Action) (p q : Pool) → pool_step a p ≡ some q → (can_step a p ≡ true) × (after a p ≡ q)
unfolding pool_step
pool_step-after a p q h = elim (Bool-cases (can_step a p)) [
  | inl e ↦ (e, ground arith)
  | inr e ↦ absurd (ground arith)
]

pub new_pool-IsAccounted : (sandboxes : List ℕ) → IsAccounted (new_pool sandboxes)
unfolding new_pool slots
new_pool-IsAccounted sandboxes = record {
  all_slots = λ e. omega arith;
  no_more = omega arith;
  starts = omega arith;
}

-- However the pool's operations interleave, while it is open each of its slots holds a sandbox
-- that is available or in somebody's hands, or is being refilled; closed, it has no more than that.
-- The sandboxes counted as starting are those of the replacements that wait or have just started.
pub run_pool-IsAccounted :
    (as' : List Action) (p q : Pool) → IsAccounted p → run_pool as' p ≡ some q → IsAccounted q
unfolding run_pool
run_pool-IsAccounted [] p q i h = let same : p ≡ q = ground arith in subst IsAccounted same i
run_pool-IsAccounted (a ∷ as') p q i h = elim (Option-cases (pool_step a p)) [
  | inl e ↦ absurd (ground arith)
  | inr (r, e) ↦
      let (can, same) = pool_step-after a p r e in
      run_pool-IsAccounted as' r q (subst IsAccounted same (after-IsAccounted a p can i))
        (ground arith)
]

-- In a pool that interleaved operations have made from its sandboxes, returning a sandbox never
-- blocks: the channel has room for it, open or closed.
pub give_back-progress :
    (as' : List Action) (sandboxes : List ℕ) (p : Pool) (k : ℕ) (channel : Bool)
    → run_pool as' (new_pool sandboxes) ≡ some p
    → has k p.returning ≡ true
    → (q : Pool) × (pool_step (give_back k channel) p ≡ some q)
unfolding pool_step can_step can_put slots
give_back-progress as' sandboxes p k channel h e =
    let i = run_pool-IsAccounted as' (new_pool sandboxes) p (new_pool-IsAccounted sandboxes) h in
    let n = length-without k p.returning e in
    let room = i.no_more in
    let can : can_step (give_back k channel) p ≡ true = ground arith in
    (after (give_back k channel) p, ground arith)
