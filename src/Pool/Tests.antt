-- ===== src/Pool/Tests.antt =====
-- A pool of two sandboxes: one breaks and is replaced, and the pool is closed; and the race between
-- a replacement and Close.
use yex_judge.Common.{ℕ, ◌≡◌, refl, false, true, ◌||◌, none, some, List, [], ◌∷◌}
use yex_judge.Pool.{
  Pool, Action, needs_replace, restarted, receive, configure, release, give_back, replace, stop,
  check, register, start, count, add, give_fresh, retire, discard, leave, close, await, drain,
  finish, has, new_pool, pool_step, run_pool,
}
use yex_judge.Pool.Slots.{IsAccounted}
use yex_judge.Pool.Accounting.{new_pool-IsAccounted, run_pool-IsAccounted, give_back-progress}
use yex_judge.Pool.Cleanup.{drain-removes}

abbrev returned : List Action
returned = receive ∷ configure 1 true ∷ release 1 restarted ∷ []

abbrev returning_pool : Pool
returning_pool = record {
  capacity = 2;
  available = 2 ∷ [];
  all = 1 ∷ 2 ∷ [];
  starting = 0;
  workers = 0;
  closed = false;
  acquiring = [];
  held = [];
  failed = [];
  returning = 1 ∷ [];
  evicting = [];
  removing = [];
  replacing = [];
  stopping = [];
  checking = 0;
  registering = 0;
  waiting = 0;
  launched = [];
  counted = [];
  fresh = [];
  retiring = [];
  discarding = [];
  leaving = 0;
  idle = false;
  drained = false;
  doomed = [];
  removed = [];
  started = 1 ∷ 2 ∷ [];
  overlooked = 0;
}

reaches_returning : run_pool returned (new_pool (1 ∷ 2 ∷ [])) ≡ some returning_pool
unfolding run_pool new_pool
reaches_returning = refl

returning_one : has 1 (1 ∷ []) ≡ true
unfolding has
returning_one = refl

run_pool-IsAccounted_example : IsAccounted returning_pool
run_pool-IsAccounted_example =
    run_pool-IsAccounted returned (new_pool (1 ∷ 2 ∷ [])) returning_pool
      (new_pool-IsAccounted (1 ∷ 2 ∷ [])) reaches_returning

give_back-progress_example : (q : Pool) × (pool_step (give_back 1 true) returning_pool ≡ some q)
give_back-progress_example =
    give_back-progress returned (1 ∷ 2 ∷ []) returning_pool 1 true reaches_returning returning_one

-- The sandbox breaks, and its replacement is there when the pool is closed.
abbrev closing : List Action
closing =
    receive
    ∷ configure 1 true
    ∷ release 1 needs_replace
    ∷ replace 1
    ∷ stop 1
    ∷ check
    ∷ register
    ∷ start 3
    ∷ count 3
    ∷ add 3
    ∷ close
    ∷ give_fresh 3 false
    ∷ retire 3
    ∷ discard 3
    ∷ leave
    ∷ await
    ∷ drain
    ∷ finish 2
    ∷ []

abbrev closed_pool : Pool
closed_pool = record returning_pool {
  all = [];
  closed = true;
  returning = [];
  idle = true;
  drained = true;
  removed = 2 ∷ 3 ∷ 1 ∷ [];
  started = 3 ∷ 1 ∷ 2 ∷ [];
}

reaches_closed : run_pool closing (new_pool (1 ∷ 2 ∷ [])) ≡ some closed_pool
unfolding run_pool new_pool
reaches_closed = refl

drain-removes_example :
    ((k : ℕ)
      → has k closed_pool.started ≡ true
      → (has k closed_pool.removed || (has k closed_pool.removing || has k closed_pool.stopping))
        ≡ true)
    × ((k : ℕ) → pool_step (start k) closed_pool ≡ none)
drain-removes_example = drain-removes closing (1 ∷ 2 ∷ []) closed_pool reaches_closed refl refl refl

-- The replacement is registered between the Wait of Close and its critical section, and its timer
-- fires: the new sandbox stays in the channel of a closed pool, and nobody removes it.
abbrev racing : List Action
racing =
    receive
    ∷ configure 1 true
    ∷ release 1 needs_replace
    ∷ replace 1
    ∷ stop 1
    ∷ check
    ∷ close
    ∷ await
    ∷ register
    ∷ drain
    ∷ finish 2
    ∷ start 3
    ∷ count 3
    ∷ add 3
    ∷ give_fresh 3 true
    ∷ leave
    ∷ []

abbrev leaking_pool : Pool
leaking_pool = record closed_pool {
  available = 2 ∷ 3 ∷ [];
  all = 3 ∷ [];
  removed = 2 ∷ 1 ∷ [];
  overlooked = 1;
}

reaches_leaking : run_pool racing (new_pool (1 ∷ 2 ∷ [])) ≡ some leaking_pool
unfolding run_pool new_pool
reaches_leaking = refl
