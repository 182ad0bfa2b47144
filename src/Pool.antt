-- ===== src/Pool.antt =====
-- `ExecutorSandboxPool` (internal/judge/pool.go). The pool, its clients, its replacement goroutines
-- and Close run interleaved: an `Action` is one step of one of them, a critical section, an operation
-- on the channel, on `closed` or on `replaceWG`, or a call of RemoveSandbox. ConfigureSandbox and
-- ResetSandbox touch nothing of the pool and are part of the step before them. A sandbox is a number.
pub mod Slots
pub mod Accounting
pub mod Removal
pub mod Cleanup
pub mod Tests
use yex_judge.Common.{
  ℕ, suc, ◌+◌, ◌-◌, Bool, true, false, not, ◌&&◌, ◌||◌, Option, none, some, List, [], ◌∷◌, ◌++◌,
  ltb, ◌==◌, length, if◌then◌else◌,
}

pub record Pool : Type 0 where
  -- The channel `available`, of this capacity, oldest first.
  pub capacity : ℕ
  pub available : List ℕ
  pub all : List ℕ
  pub starting : ℕ
  -- The counter of replaceWG.
  pub workers : ℕ
  pub closed : Bool
  -- What clients have in hand: in Acquire behind the receive, acquired, in Acquire behind a failed
  -- ConfigureSandbox, and in returnSandbox.
  pub acquiring : List ℕ
  pub held : List ℕ
  pub failed : List ℕ
  pub returning : List ℕ
  -- In removeSandbox, before its critical section and behind it.
  pub evicting : List ℕ
  pub removing : List ℕ
  -- In replace: before and behind the critical section of its removeSandbox; the calls that have
  -- removed their sandbox; and those, at most one, that have the mutex and have seen an open pool.
  pub replacing : List ℕ
  pub stopping : List ℕ
  pub checking : ℕ
  pub registering : ℕ
  -- The replacement goroutines: in their loop; with a sandbox that they started, that is no longer
  -- counted as starting, and that the pool knows; in removeSandbox, before its critical section and
  -- behind it; and before Done.
  pub waiting : ℕ
  pub launched : List ℕ
  pub counted : List ℕ
  pub fresh : List ℕ
  pub retiring : List ℕ
  pub discarding : List ℕ
  pub leaving : ℕ
  -- Close: behind its Wait, and behind its critical section with the sandboxes that it still removes.
  pub idle : Bool
  pub drained : Bool
  pub doomed : List ℕ
  -- The history: the calls of RemoveSandbox that have ended, the sandboxes that were ever started,
  -- and the calls of replace that, at the end of the Wait of Close, had seen an open pool but not yet
  -- registered their replacement.
  pub removed : List ℕ
  pub started : List ℕ
  pub overlooked : ℕ

-- How a client gives a sandbox back: broken, already restarted, or to be reset.
pub data Release : Type 0 where
  needs_replace restarted reset_ok reset_failed : Release

pub data Action : Type 0 where
  -- Acquire: the receive, and what follows it, with whether ConfigureSandbox works.
  receive : Action
  configure : ℕ → Bool → Action
  release : ℕ → Release → Action
  release_failed : ℕ → Action
  -- returnSandbox: `true` takes the channel where `closed` is ready too.
  give_back : ℕ → Bool → Action
  -- removeSandbox: its critical section, and RemoveSandbox.
  delete remove : ℕ → Action
  -- replace: the same two, the test of `closed` under the mutex, and the rest under it.
  replace stop : ℕ → Action
  check register : Action
  -- The replacement goroutine: a new sandbox, `starting--`, addSandbox, returnSandbox, the two steps
  -- of its removeSandbox, the end without a sandbox, and Done.
  start count add : ℕ → Action
  give_fresh : ℕ → Bool → Action
  retire discard : ℕ → Action
  give_up leave : Action
  -- Close: close of the channel, the end of Wait, the critical section, and a RemoveSandbox.
  close await drain : Action
  finish : ℕ → Action

unfoldable pub has : ℕ → List ℕ → Bool
has k [] = false
has k (x ∷ xs) = x == k || has k xs

-- The list without one `k`.
unfoldable pub without : ℕ → List ℕ → List ℕ
without k [] = []
without k (x ∷ xs) = if x == k then xs else x ∷ without k xs

-- `delete` on the set of sandboxes.
unfoldable pub delete_all : ℕ → List ℕ → List ℕ
delete_all k [] = []
delete_all k (x ∷ xs) = if x == k then delete_all k xs else x ∷ delete_all k xs

-- NewExecutorSandboxPoolWithMetrics.
unfoldable pub new_pool : List ℕ → Pool
new_pool sandboxes = record {
  capacity = length sandboxes;
  available = sandboxes;
  all = sandboxes;
  starting = 0;
  workers = 0;
  closed = false;
  acquiring = [];
  held = [];
  failed = [];
  returning = [];
  evicting = [];
  removing = [];
  replacing = [];
  stopping = [];
  checking = 0;
  registering = 0;
  waiting = 0;
  launched = [];
  counted = [];
  fresh = [];
  retiring = [];
  discarding = [];
  leaving = 0;
  idle = false;
  drained = false;
  doomed = [];
  removed = [];
  started = sandboxes;
  overlooked = 0;
}

-- Whether the mutex is free: every other critical section is one step.
abbrev pub is_free : Pool → Bool
is_free p = p.registering == 0

-- returnSandbox: one of its two cases is ready. A full channel blocks, which is no step.
unfoldable pub can_put : Bool → Pool → Bool
can_put channel p = (p.closed && not channel) || ltb (length p.available) p.capacity

-- Whether a step can be taken.
unfoldable pub can_step : Action → Pool → Bool
unfolding has can_put
can_step receive p = ltb 0 (length p.available)
can_step (configure k works) p = has k p.acquiring
can_step (release k how) p = has k p.held
can_step (release_failed k) p = has k p.failed
can_step (give_back k channel) p = has k p.returning && can_put channel p
can_step (delete k) p = has k p.evicting && is_free p
can_step (remove k) p = has k p.removing
can_step (replace k) p = has k p.replacing && is_free p
can_step (stop k) p = has k p.stopping
can_step check p = ltb 0 p.checking && is_free p
can_step register p = ltb 0 p.registering
can_step (start k) p = ltb 0 p.waiting
can_step (count k) p = has k p.launched && is_free p
can_step (add k) p = has k p.counted && is_free p
can_step (give_fresh k channel) p = has k p.fresh && can_put channel p
can_step (retire k) p = has k p.retiring && is_free p
can_step (discard k) p = has k p.discarding
can_step give_up p = p.closed && (ltb 0 p.waiting && is_free p)
can_step leave p = ltb 0 p.leaving
can_step close p = not p.closed
can_step await p = p.closed && (not p.idle && p.workers == 0)
can_step drain p = p.idle && (not p.drained && is_free p)
can_step (finish k) p = has k p.doomed

abbrev receive_from : List ℕ → Pool → Pool
receive_from [] p = p
receive_from (k ∷ ks) p = record p { available = ks; acquiring = k ∷ p.acquiring }

-- Acquire behind the receive.
unfoldable pub configured : ℕ → Bool → Pool → Pool
configured k works p =
    if p.closed
    then record p { evicting = k ∷ p.evicting }
    else if works
    then record p { held = k ∷ p.held }
    else record p { failed = k ∷ p.failed }

-- Release up to its choice: a closed pool removes the sandbox.
unfoldable pub begin_release : ℕ → Release → Pool → Pool
begin_release k how p = if p.closed then record p { evicting = k ∷ p.evicting } else elim how [
  | needs_replace ↦ record p { replacing = k ∷ p.replacing }
  | restarted ↦ record p { returning = k ∷ p.returning }
  | reset_ok ↦ record p { returning = k ∷ p.returning }
  | reset_failed ↦ record p { replacing = k ∷ p.replacing }
]

-- returnSandbox, of a client and of a replacement goroutine.
unfoldable pub put : ℕ → Bool → Pool → Pool
put k channel p =
    if p.closed && not channel
    then record p { evicting = k ∷ p.evicting }
    else record p { available = p.available ++ k ∷ [] }

unfoldable pub put_fresh : ℕ → Bool → Pool → Pool
put_fresh k channel p =
    if p.closed && not channel
    then record p { retiring = k ∷ p.retiring }
    else record p { available = p.available ++ k ∷ []; leaving = p.leaving + 1 }

-- replace under the mutex, up to its test of `closed` and from there on.
unfoldable pub checked : Pool → Pool
checked p = if p.closed then p else record p { registering = p.registering + 1 }

unfoldable pub registered : Pool → Pool
registered p = record p {
  registering = p.registering - 1;
  starting = p.starting + 1;
  workers = p.workers + 1;
  waiting = p.waiting + 1;
}

-- The pool behind a step.
unfoldable pub after : Action → Pool → Pool
unfolding without delete_all configured begin_release put put_fresh checked registered
after receive p = receive_from p.available p
after (configure k works) p = configured k works (record p { acquiring = without k p.acquiring })
after (release k how) p = begin_release k how (record p { held = without k p.held })
after (release_failed k) p =
    begin_release k needs_replace (record p { failed = without k p.failed })
after (give_back k channel) p = put k channel (record p { returning = without k p.returning })
after (delete k) p = record p {
  evicting = without k p.evicting;
  all = delete_all k p.all;
  removing = k ∷ p.removing;
}
after (remove k) p = record p { removing = without k p.removing; removed = k ∷ p.removed }
after (replace k) p = record p {
  replacing = without k p.replacing;
  all = delete_all k p.all;
  stopping = k ∷ p.stopping;
}
after (stop k) p = record p {
  stopping = without k p.stopping;
  removed = k ∷ p.removed;
  checking = p.checking + 1;
}
after check p = checked (record p { checking = p.checking - 1 })
after register p = registered p
after (start k) p = record p {
  waiting = p.waiting - 1;
  launched = k ∷ p.launched;
  started = k ∷ p.started;
}
after (count k) p = record p {
  launched = without k p.launched;
  counted = k ∷ p.counted;
  starting = p.starting - 1;
}
after (add k) p = record p { counted = without k p.counted; fresh = k ∷ p.fresh; all = k ∷ p.all }
after (give_fresh k channel) p = put_fresh k channel (record p { fresh = without k p.fresh })
after (retire k) p = record p {
  retiring = without k p.retiring;
  all = delete_all k p.all;
  discarding = k ∷ p.discarding;
}
after (discard k) p = record p {
  discarding = without k p.discarding;
  removed = k ∷ p.removed;
  leaving = p.leaving + 1;
}
after give_up p = record p {
  waiting = p.waiting - 1;
  starting = p.starting - 1;
  leaving = p.leaving + 1;
}
after leave p = record p { leaving = p.leaving - 1; workers = p.workers - 1 }
after close p = record p { closed = true }
after await p = record p { idle = true; overlooked = p.registering }
after drain p = record p { drained = true; all = []; doomed = p.all ++ p.doomed }
after (finish k) p = record p { doomed = without k p.doomed; removed = k ∷ p.removed }

unfoldable pub pool_step : Action → Pool → Option Pool
unfolding can_step after
pool_step a p = if can_step a p then some (after a p) else none

-- The pool after some steps, where all of them can be taken.
unfoldable pub run_pool : List Action → Pool → Option Pool
unfolding pool_step
run_pool [] p = some p
run_pool (a ∷ as') p = elim (pool_step a p) [ none ↦ none | some q ↦ run_pool as' q ]

pub record PoolStats : Type 0 where
  pub total : ℕ
  pub available_count : ℕ
  pub busy : ℕ
  pub starting_count : ℕ

-- Stats. Go's `total - available - starting` is not negative: see Pool/Accounting.
unfoldable pub stats : Pool → PoolStats
stats p = record {
  total = p.capacity;
  available_count = length p.available;
  busy = p.capacity - length p.available - p.starting;
  starting_count = p.starting;
}

-- Ready.
unfoldable pub is_ready : Pool → Bool
is_ready p = not (p.closed || (length p.all == 0 || ltb 0 p.starting))
