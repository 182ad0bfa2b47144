-- ===== src/Pool/Removal.antt =====
-- What each step of the sandbox pool (internal/judge/pool.go) does to the sandboxes that it knows,
-- has started and has removed, and to the goroutines that Close waits for.
use yex_judge.Common.{
  ℕ, ◌+◌, ◌≤◌, ◌≡◌, refl, Bool, true, false, ◌||◌, List, [], ◌∷◌, ◌++◌, ◌==◌, length, arith,
}
use yex_judge.Pool.{
  Pool, Action, receive, configure, release, release_failed, give_back, delete, remove, replace,
  stop, check, register, start, count, add, give_fresh, retire, discard, give_up, leave, close,
  await, drain, finish, has, without, delete_all, can_step, after, receive_from,
}
use yex_judge.Pool.Slots.{length-without}

has-append : (k : ℕ) (xs ys : List ℕ) → has k (xs ++ ys) ≡ (has k xs || has k ys)
unfolding has
has-append k [] ys = refl
has-append k (x ∷ xs) ys = ground (arith, has-append k xs ys)

has-delete_all : (j k : ℕ) (xs : List ℕ) → (k == j) ≡ false → has j (delete_all k xs) ≡ has j xs
unfolding has delete_all
has-delete_all j k [] h = refl
has-delete_all j k (x ∷ xs) h = ground (arith, has-delete_all j k xs h)

has-without : (j k : ℕ) (xs : List ℕ) → (k == j) ≡ false → has j (without k xs) ≡ has j xs
unfolding has without
has-without j k [] h = refl
has-without j k (x ∷ xs) h = ground (arith, has-without j k xs h)

has-cons : (j k : ℕ) (xs : List ℕ) → has j (k ∷ xs) ≡ (k == j || has j xs)
unfolding has
has-cons j k xs = refl

-- A call of RemoveSandbox is under way for a sandbox, or it is the next thing that its owner does.
abbrev pub is_going : ℕ → Pool → Bool
is_going k p = has k p.removing || (has k p.stopping || (has k p.discarding || has k p.doomed))

-- A sandbox is removed or about to be, or it is known, or on its way to be.
abbrev pub is_owned : ℕ → Pool → Bool
is_owned k p =
    (has k p.removed || is_going k p) || (has k p.all || (has k p.launched || has k p.counted))

-- The replacement goroutines that run.
unfoldable pub busy : Pool → ℕ
busy p =
    p.waiting
    + (length p.launched
        + (length p.counted
            + (length p.fresh + (length p.retiring + (length p.discarding + p.leaving)))))

abbrev pub IsOwned : Pool → Type 0
IsOwned p = (j : ℕ) → has j p.started ≡ true → is_owned j p ≡ true

receive_from-IsOwned : (xs : List ℕ) (p : Pool) → IsOwned p → IsOwned (receive_from xs p)
receive_from-IsOwned [] p i = i
receive_from-IsOwned (k ∷ ks) p i = i

-- A step that moves a sandbox between two lists, or adds one, leaves each sandbox owned.
pub after-IsOwned : (a : Action) (p : Pool) → IsOwned p → IsOwned (after a p)
unfolding after
after-IsOwned receive p i j h = receive_from-IsOwned p.available p i j h
after-IsOwned (configure k works) p i j h = let x = i j in ground arith
after-IsOwned (release k how) p i j h = let x = i j in ground arith
after-IsOwned (release_failed k) p i j h = let x = i j in ground arith
after-IsOwned (give_back k channel) p i j h = let x = i j in ground arith
after-IsOwned (delete k) p i j h =
    ground (arith, i j h, has-delete_all j k p.all, has-cons j k p.removing)
after-IsOwned (remove k) p i j h =
    ground (arith, i j h, has-without j k p.removing, has-cons j k p.removed)
after-IsOwned (replace k) p i j h =
    ground (arith, i j h, has-delete_all j k p.all, has-cons j k p.stopping)
after-IsOwned (stop k) p i j h =
    ground (arith, i j h, has-without j k p.stopping, has-cons j k p.removed)
after-IsOwned check p i j h = let x = i j in ground arith
after-IsOwned register p i j h = let x = i j in ground arith
after-IsOwned (start k) p i j h =
    ground (arith, i j, has-cons j k p.started, has-cons j k p.launched)
after-IsOwned (count k) p i j h =
    ground (arith, i j h, has-without j k p.launched, has-cons j k p.counted)
after-IsOwned (add k) p i j h = ground (arith, i j h, has-without j k p.counted, has-cons j k p.all)
after-IsOwned (give_fresh k channel) p i j h = let x = i j in ground arith
after-IsOwned (retire k) p i j h =
    ground (arith, i j h, has-delete_all j k p.all, has-cons j k p.discarding)
after-IsOwned (discard k) p i j h =
    ground (arith, i j h, has-without j k p.discarding, has-cons j k p.removed)
after-IsOwned give_up p i j h = i j h
after-IsOwned leave p i j h = i j h
after-IsOwned close p i j h = i j h
after-IsOwned await p i j h = i j h
after-IsOwned drain p i j h = ground (arith, i j h, has-append j p.all p.doomed)
after-IsOwned (finish k) p i j h =
    ground (arith, i j h, has-without j k p.doomed, has-cons j k p.removed)

length-delete_all : (k : ℕ) (xs : List ℕ) → length (delete_all k xs) ≤ length xs
unfolding delete_all
length-delete_all k [] = omega arith
length-delete_all k (x ∷ xs) = ground (arith, length-delete_all k xs)

-- The counter of replaceWG is right. Unless the Wait of Close overlooks a replacement, none runs or
-- is registered from there on, and no sandbox is known once Close has taken them all.
pub record IsSettled (p : Pool) : Type 0 where
  pub right : p.workers ≡ busy p
  pub idle_closed : p.idle ≡ true → p.closed ≡ true
  pub rested : p.idle ≡ true → p.overlooked ≡ 0 → p.workers ≡ 0
  pub unregistered : p.idle ≡ true → p.overlooked ≡ 0 → p.registering ≡ 0
  pub drained_idle : p.drained ≡ true → p.idle ≡ true
  pub emptied : p.drained ≡ true → p.overlooked ≡ 0 → length p.all ≡ 0

receive_from-IsSettled : (xs : List ℕ) (p : Pool) → IsSettled p → IsSettled (receive_from xs p)
unfolding busy
receive_from-IsSettled [] p i = i
receive_from-IsSettled (k ∷ ks) p i = record {
  right = i.right;
  idle_closed = i.idle_closed;
  rested = i.rested;
  unregistered = i.unregistered;
  drained_idle = i.drained_idle;
  emptied = i.emptied;
}

pub after-IsSettled :
    (a : Action) (p : Pool) → can_step a p ≡ true → IsSettled p → IsSettled (after a p)
unfolding can_step after busy
after-IsSettled receive p c i = receive_from-IsSettled p.available p i
after-IsSettled (configure k works) p c i = ground arith
after-IsSettled (release k how) p c i = ground arith
after-IsSettled (release_failed k) p c i = ground arith
after-IsSettled (give_back k channel) p c i = ground arith
after-IsSettled (delete k) p c i = ground (arith, length-delete_all k p.all)
after-IsSettled (remove k) p c i = ground arith
after-IsSettled (replace k) p c i = ground (arith, length-delete_all k p.all)
after-IsSettled (stop k) p c i = ground arith
after-IsSettled check p c i = ground arith
after-IsSettled register p c i = ground arith
after-IsSettled (start k) p c i = ground arith
after-IsSettled (count k) p c i = ground (arith, length-without k p.launched)
after-IsSettled (add k) p c i = ground (arith, length-without k p.counted)
after-IsSettled (give_fresh k channel) p c i = ground (arith, length-without k p.fresh)
after-IsSettled (retire k) p c i =
    ground (arith, length-without k p.retiring, length-delete_all k p.all)
after-IsSettled (discard k) p c i = ground (arith, length-without k p.discarding)
after-IsSettled give_up p c i = ground arith
after-IsSettled leave p c i = ground arith
after-IsSettled close p c i = ground arith
after-IsSettled await p c i = ground arith
after-IsSettled drain p c i = ground arith
after-IsSettled (finish k) p c i = ground arith
