-- ===== src/Server/Capacity.antt =====
-- What a configuration that cmd/server/config.go accepts guarantees.
use yex_judge.Common.{
  ℕ, ℤ, false, pos, negsuc, is_nonpos, ◌+◌, ◌*◌, ◌≤◌, ◌<◌, ◌≡◌, refl, subst, ok, Result-cases, inl,
  inr, arith, ltb_ℤ,
}
use yex_judge.Store.Queue.{new_config}
use yex_judge.Server.{
  ServerConfig, Environment, validate_config, checked_config, read_config, load_config,
  max_memory_limit_mb, min_compile_memory_limit_mb, capacity_memory_budget_mb,
}

pub record IsSafeConfig (c : ServerConfig) : Type 0 where
  pub has_worker : 0 < c.worker_count
  pub few_workers : c.worker_count ≤ 64
  pub memory :
      c.sandbox_pool_size * max_memory_limit_mb + c.compile_slots * min_compile_memory_limit_mb
      ≤ capacity_memory_budget_mb
  pub has_sandbox : 0 < c.sandbox_pool_size
  pub has_slot : 0 < c.compile_slots
  pub lease : (n : ℕ) × (c.queue_lease ≡ pos n) × (0 < n)
  pub timeout : (n : ℕ) × (c.submit_timeout ≡ pos n) × (0 < n) × (n ≤ 60_000 * 1_000_000)
  -- The queue and the store built from it.
  pub attempts :
      0 < (new_config c.queue_lease (pos c.queue_max_attempts) (pos c.max_queued)).max_attempts
  pub same_attempts :
      (new_config c.queue_lease (pos c.queue_max_attempts) (pos c.max_queued)).max_attempts
      ≡ c.queue_max_attempts
  pub same_limit :
      (new_config c.queue_lease (pos c.queue_max_attempts) (pos c.max_queued)).max_queued
      ≡ c.max_queued

positive : (z : ℤ) → is_nonpos z ≡ false → (n : ℕ) × (z ≡ pos n) × (0 < n)
positive (pos n) h = (n, refl, ground arith)
positive (negsuc n) h = absurd (ground arith)

at_most :
    (z : ℤ) (m : ℕ)
    → is_nonpos z ≡ false
    → ltb_ℤ (pos m) z ≡ false
    → (n : ℕ) × (z ≡ pos n) × (0 < n) × (n ≤ m)
at_most (pos n) m h k = (n, refl, ground arith, ground arith)
at_most (negsuc n) m h k = absurd (ground arith)

validate_config-IsSafeConfig : (c : ServerConfig) → validate_config c ≡ ok tt → IsSafeConfig c
unfolding validate_config new_config
validate_config-IsSafeConfig c h = record {
  has_worker = ground arith;
  few_workers = ground arith;
  memory = ground arith;
  has_sandbox = ground arith;
  has_slot = ground arith;
  lease = positive c.queue_lease (ground arith);
  timeout = at_most c.submit_timeout (60_000 * 1_000_000) (ground arith) (ground arith);
  attempts = ground arith;
  same_attempts = ground arith;
  same_limit = ground arith;
}

checked_config-IsSafeConfig : (c d : ServerConfig) → checked_config c ≡ ok d → IsSafeConfig d
unfolding checked_config
checked_config-IsSafeConfig c d h = elim (Result-cases (validate_config c)) [
  | inr (e, q) ↦ absurd (ground arith)
  | inl (_, q) ↦
      let same : c ≡ d = ground arith in subst IsSafeConfig same (validate_config-IsSafeConfig c q)
]

-- A configuration that the server starts with keeps the workers, the sandboxes and the compile
-- slots in number and within the memory budget, has a lease and a submit timeout that are
-- positive, and gives its queue exactly the attempt and queue limits that it names, of which the
-- attempts are at least one.
pub load_config-IsSafeConfig :
    (env : Environment) (c : ServerConfig) → load_config env ≡ ok c → IsSafeConfig c
unfolding load_config
load_config-IsSafeConfig env c h = elim (Result-cases (read_config env)) [
  | inr (e, q) ↦ absurd (ground arith)
  | inl (x, q) ↦ checked_config-IsSafeConfig x c (ground arith)
]
