-- ===== src/Runner.antt =====
-- `RunResult` (internal/runner/result.go) and `DockerRunner.Run` (internal/runner/docker_runner.go).
-- The operating system's part of a run is an argument: whether the command started, the chunks
-- that it wrote, how `Wait` ended, what the caller's context says then, and the elapsed time.
pub mod Outcome
pub mod Tests
use yex_judge.Common.{
  ℕ, ◌*◌, ℤ, pos, Bool, true, false, not, ◌&&◌, ◌||◌, Option, none, some, List, [], Text, Result,
  ok, err, if◌then◌else◌,
}
use yex_judge.Output.{LimitedBuffer, limited_write, write_all, new_limited}

abbrev pub default_output_limit_bytes : ℕ
default_output_limit_bytes = 64 * 1024

pub record RunResult : Type 0 where
  pub stdout : Text
  pub stderr : Text
  pub exit_code : ℤ
  pub timed_out : Bool
  pub output_limit_exceeded : Bool
  -- Nanoseconds.
  pub time_used : ℕ
  pub memory_used : ℕ

-- `ctx.Err()`.
pub data CtxError : Type 0 where
  canceled deadline_exceeded : CtxError

-- The error of `command.Wait()`: an `*exec.ExitError` with its exit code, or another.
pub data WaitError : Type 0 where
  exit_error : ℤ → WaitError
  wait_failed : Text → WaitError

pub record Execution : Type 0 where
  pub start_error : Option Text
  pub stdout_chunks : List Text
  pub stderr_chunks : List Text
  pub wait_error : Option WaitError
  pub ctx_error : Option CtxError
  pub elapsed : ℕ

abbrev is_none {ℓ} : {A : Type ℓ} → Option A → Bool
is_none none = true
is_none (some a) = false

abbrev is_deadline : Option CtxError → Bool
is_deadline (some deadline_exceeded) = true
is_deadline _ = false

is_other_error : Option WaitError → Bool
is_other_error (some (wait_failed e)) = true
is_other_error _ = false

-- A field that no branch sets keeps Go's zero.
exit_code_of : Option WaitError → ℤ
exit_code_of (some (exit_error c)) = c
exit_code_of _ = pos 0

message_of : Option WaitError → Text
message_of (some (wait_failed e)) = e
message_of _ = []

-- What each stream's buffer holds at the end.
unfoldable pub captured : List Text → LimitedBuffer
captured chunks = write_all limited_write (new_limited default_output_limit_bytes) chunks

-- The result that a run which is not an error builds.
unfoldable pub finished : Execution → RunResult
unfolding exit_code_of
finished x = record {
  stdout = (captured x.stdout_chunks).buffer;
  stderr = (captured x.stderr_chunks).buffer;
  exit_code = exit_code_of x.wait_error;
  timed_out = is_deadline x.ctx_error;
  output_limit_exceeded =
      (captured x.stdout_chunks).exceeded || (captured x.stderr_chunks).exceeded;
  time_used = x.elapsed;
  memory_used = 0;
}

-- `!isExitError && !exceeded && ctx.Err() == nil` for an error of `Wait`.
gives_up : Execution → Bool
unfolding is_other_error
gives_up x =
    is_other_error x.wait_error
    && (not ((captured x.stdout_chunks).exceeded || (captured x.stderr_chunks).exceeded)
        && is_none x.ctx_error)

unfoldable pub run : Execution → Result Text RunResult
unfolding gives_up message_of
run x = elim x.start_error [
  | some e ↦ err e
  | none ↦ if gives_up x then err (message_of x.wait_error) else ok (finished x)
]
