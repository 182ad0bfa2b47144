-- ===== src/Server.antt =====
-- The server's own checks (cmd/server): its configuration (config.go), the lines of its env file
-- (env.go), and the ids of its requests (http.go).
pub mod Capacity
pub mod EnvFile
pub mod Quoting
pub mod Tests
use yex_judge.Common.{
  read_digits, ℕ, ℤ, pos, negsuc, is_nonpos, ltb_ℤ, ◌%◌, ◌+◌, ◌-◌, ◌*◌, ◌^◌, ◌≡◌, Bool, true, false,
  not, ◌&&◌, ◌||◌, Option, none, some, List, [], ◌∷◌, Text, codes, text_eq, Result, ok, err, ◌>>=◌,
  ◌>>◌, reject_if, ltb, leb, ◌==◌, length, if◌then◌else◌,
}

-- The memory that a sandbox and a compile slot may use (MaxMemoryLimitMb of
-- internal/judge/validate.go, MinCompileMemoryLimitMb of internal/judge/executor.go).
abbrev pub max_memory_limit_mb : ℕ
max_memory_limit_mb = 512

abbrev pub min_compile_memory_limit_mb : ℕ
min_compile_memory_limit_mb = 512

abbrev pub capacity_memory_budget_mb : ℕ
capacity_memory_budget_mb = 8192

-- A `time.Duration` is a signed number of nanoseconds.
pub record ServerConfig : Type 0 where
  pub port : Text
  pub worker_count : ℕ
  pub sandbox_pool_size : ℕ
  pub compile_slots : ℕ
  pub database_url : Text
  pub queue_poll : ℤ
  pub queue_lease : ℤ
  pub queue_recovery : ℤ
  pub queue_max_attempts : ℕ
  pub max_queued : ℕ
  pub submit_timeout : ℤ

pub data ConfigError : Type 0 where
  not_positive : Text → Text → ConfigError
  worker_count_range sandbox_pool_size_range compile_slots_range queue_max_attempts_low :
      ConfigError
  max_queued_range submit_timeout_high durations_not_positive : ConfigError
  memory_budget_exceeded : ℕ → ConfigError

-- A product of 64 bits, read as a signed number.
unfoldable pub wrap_64 : ℕ → ℤ
wrap_64 n = let m = n % 2 ^ 64 in if ltb m (2 ^ 63) then pos m else negsuc (2 ^ 64 - m - 1)

-- `time.Duration(ms) * time.Millisecond`.
unfoldable pub to_duration : ℕ → ℤ
unfolding wrap_64
to_duration ms = wrap_64 (ms * 1_000_000)

-- `os.Getenv`, where an unset variable is empty.
abbrev pub Environment : Type 0
Environment = Text → Text

abbrev in_range : Option ℕ → Option ℕ
in_range none = none
in_range (some n) = if ltb n (2 ^ 63) then some n else none

-- strconv.Atoi, where it gives a number of at least 0; a `+` may stand in front.
unfoldable pub atoi : Text → Option ℕ
atoi [] = none
atoi (c ∷ []) = if c == b'+' then none else in_range (read_digits 0 (c ∷ []))
atoi (c ∷ d ∷ s) = in_range (read_digits 0 (if c == b'+' then d ∷ s else c ∷ d ∷ s))

-- getEnv and getEnvIntStrict.
unfoldable pub get_env : Environment → Text → Text → Text
get_env env key fallback = if text_eq (env key) [] then fallback else env key

unfoldable pub get_env_int_strict : Environment → Text → ℕ → Result ConfigError ℕ
unfolding atoi
get_env_int_strict env key fallback =
    if text_eq (env key) [] then ok fallback else elim (atoi (env key)) [
      | none ↦ err (not_positive key (env key))
      | some n ↦ if n == 0 then err (not_positive key (env key)) else ok n
    ]

abbrev outside : ℕ → ℕ → ℕ → Bool
outside n low high = ltb n low || ltb high n

unfoldable pub validate_config : ServerConfig → Result ConfigError (Unit {0})
validate_config c = do
  reject_if (outside c.worker_count 1 64) worker_count_range
  reject_if (outside c.sandbox_pool_size 1 64) sandbox_pool_size_range
  reject_if (outside c.compile_slots 1 16) compile_slots_range
  reject_if (ltb c.queue_max_attempts 1) queue_max_attempts_low
  reject_if (outside c.max_queued 1 100_000) max_queued_range
  reject_if (ltb_ℤ (pos (60_000 * 1_000_000)) c.submit_timeout) submit_timeout_high
  reject_if
      (is_nonpos c.queue_lease
        || (is_nonpos c.queue_poll || (is_nonpos c.queue_recovery || is_nonpos c.submit_timeout)))
      durations_not_positive
  let reserved =
      c.sandbox_pool_size * max_memory_limit_mb + c.compile_slots * min_compile_memory_limit_mb
  reject_if (ltb capacity_memory_budget_mb reserved) (memory_budget_exceeded reserved)

unfoldable pub checked_config : ServerConfig → Result ConfigError ServerConfig
checked_config c = do validate_config c; ok c

-- What loadConfig reads of the environment.
unfoldable pub read_config : Environment → Result ConfigError ServerConfig
unfolding get_env get_env_int_strict to_duration
read_config env = do
  worker_count ← get_env_int_strict env (codes "WORKER_COUNT") 4
  sandbox_pool_size ← get_env_int_strict env (codes "SANDBOX_POOL_SIZE") 4
  compile_slots ← get_env_int_strict env (codes "COMPILE_SLOTS") 2
  queue_poll_ms ← get_env_int_strict env (codes "QUEUE_POLL_INTERVAL_MS") 500
  queue_lease_ms ← get_env_int_strict env (codes "QUEUE_LEASE_MS") 60_000
  queue_recovery_ms ← get_env_int_strict env (codes "QUEUE_RECOVERY_INTERVAL_MS") 1000
  queue_max_attempts ← get_env_int_strict env (codes "QUEUE_MAX_ATTEMPTS") 3
  max_queued ← get_env_int_strict env (codes "MAX_QUEUED") 100
  submit_timeout_ms ← get_env_int_strict env (codes "SUBMIT_TIMEOUT_MS") 10_000
  ok (record {
    port = get_env env (codes "PORT") (codes "8080");
    worker_count = worker_count;
    sandbox_pool_size = sandbox_pool_size;
    compile_slots = compile_slots;
    database_url = get_env env (codes "DATABASE_URL") [];
    queue_poll = to_duration queue_poll_ms;
    queue_lease = to_duration queue_lease_ms;
    queue_recovery = to_duration queue_recovery_ms;
    queue_max_attempts = queue_max_attempts;
    max_queued = max_queued;
    submit_timeout = to_duration submit_timeout_ms;
  })

unfoldable pub load_config : Environment → Result ConfigError ServerConfig
load_config env = do c ← read_config env; checked_config c

-- validEnvKey.
abbrev is_key_rune : Bool → ℕ → Bool
is_key_rune first c =
    (leb b'A' c && leb c b'Z') || (c == b'_' || (not first && (leb b'0' c && leb c b'9')))

unfoldable pub key_runes : Bool → Text → Bool
key_runes first [] = true
key_runes first (c ∷ s) = is_key_rune first c && key_runes false s

unfoldable pub valid_env_key : Text → Bool
valid_env_key key = not (text_eq key []) && key_runes true key

-- parseEnvValue: `none` is the error "unterminated quoted value".
unfoldable pub last_of : ℕ → Text → ℕ
last_of c [] = c
last_of c (d ∷ s) = last_of d s

unfoldable pub drop_last : Text → Text
drop_last [] = []
drop_last (c ∷ []) = []
drop_last (c ∷ d ∷ s) = c ∷ drop_last (d ∷ s)

unfoldable pub parse_env_value : Text → Option Text
parse_env_value [] = some []
parse_env_value (c ∷ s) =
    if not (c == 39) && not (c == 34)
    then some (c ∷ s)
    else if ltb (length (c ∷ s)) 2 || not (last_of c s == c)
    then none
    else some (drop_last s)

-- validRequestID, on the runes of the header; `len` counts the bytes, which are as many, since
-- a rune of more than one byte is refused.
abbrev is_request_id_rune : ℕ → Bool
is_request_id_rune c =
    (leb b'a' c && leb c b'z')
    || ((leb b'A' c && leb c b'Z')
        || ((leb b'0' c && leb c b'9') || (c == b'-' || (c == b'_' || c == b'.'))))

unfoldable pub request_id_runes : Text → Bool
request_id_runes [] = true
request_id_runes (c ∷ s) = is_request_id_rune c && request_id_runes s

unfoldable pub valid_request_id : Text → Bool
valid_request_id value = not (text_eq value [] || ltb 128 (length value)) && request_id_runes value
