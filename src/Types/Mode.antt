-- ===== src/Types/Mode.antt =====
-- `Job.ExecutionMode` (internal/judge/types.go), `ExecutionMode.Valid` and `ValidateContract`
-- (internal/judge/harness/mode.go).
use yex_judge.Common.{
  Bool, true, false, ◌&&◌, ◌||◌, not, Option, none, some, [], Text, codes, text_eq, Result, ◌>>◌,
  reject_if, if◌then◌else◌,
}
use yex_judge.Types.{Job, FunctionSpec, ClassSpec}

abbrev pub mode_stdin : Text
mode_stdin = codes "stdin"

abbrev pub mode_function : Text
mode_function = codes "function"

abbrev pub mode_class : Text
mode_class = codes "class"

abbrev pub mode_interactive : Text
mode_interactive = codes "interactive"

abbrev pub mode_sql : Text
mode_sql = codes "sql"

abbrev pub mode_shell : Text
mode_shell = codes "shell"

abbrev pub is_some {ℓ} : {A : Type ℓ} → Option A → Bool
is_some none = false
is_some (some a) = true

implied_mode : Bool → Bool → Text
implied_mode true c = mode_function
implied_mode false true = mode_class
implied_mode false false = mode_stdin

-- An explicit mode wins; else metadata implies the mode, a function before a class.
unfoldable pub execution_mode : Job → Text
unfolding implied_mode
execution_mode j =
    if text_eq j.mode [] then implied_mode (is_some j.function) (is_some j.class) else j.mode

unfoldable pub valid_mode : Text → Bool
valid_mode m =
    text_eq m mode_stdin
    || (text_eq m mode_function
        || (text_eq m mode_class
            || (text_eq m mode_interactive || (text_eq m mode_sql || text_eq m mode_shell))))

-- `ExecutionContract`.
pub record ExecutionContract : Type 0 where
  pub mode : Text
  pub function : Option FunctionSpec
  pub class : Option ClassSpec

pub data ContractError : Type 0 where
  unsupported_mode : Text → ContractError
  function_required function_forbidden class_required class_forbidden : ContractError

unfoldable pub validate_contract : ExecutionContract → Result ContractError (Unit {0})
unfolding valid_mode
validate_contract c = do
  reject_if (not (valid_mode c.mode)) (unsupported_mode c.mode)
  reject_if (text_eq c.mode mode_function && not (is_some c.function)) function_required
  reject_if (not (text_eq c.mode mode_function) && is_some c.function) function_forbidden
  reject_if (text_eq c.mode mode_class && not (is_some c.class)) class_required
  reject_if (not (text_eq c.mode mode_class) && is_some c.class) class_forbidden
