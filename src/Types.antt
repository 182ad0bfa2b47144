-- ===== src/Types.antt =====
-- The data of internal/judge/types.go and the execution modes of internal/judge/harness/mode.go.
-- A `json.RawMessage` is its text, a pointer an `Option`, a `time.Time` a number of nanoseconds.
-- `Result.MemoryMb` is a float64 that the code only sets to a number of bytes over 2^20: the field
-- here is the number of bytes.
pub mod Mode
use yex_judge.Common.{ℕ, ℤ, Bool, Option, none, some, List, Text}

pub record OperationCall : Type 0 where
  pub name : Text
  pub args : List Text

pub record TestCase : Type 0 where
  pub id : ℤ
  pub input : Text
  pub expected_output : Text
  pub actual_output : Text
  pub args : List Text
  pub expected : Text
  pub constructor_args : List Text
  pub operations : List OperationCall

pub record FunctionParam : Type 0 where
  pub name : Text
  pub type : Text

pub record ObservationSpec : Type 0 where
  pub kind : Text
  pub parameter : ℤ
  pub view : Text
  pub length_from_return : Bool

pub record PostconditionSpec : Type 0 where
  pub kind : Text
  pub subject : Text
  pub from_parameter : ℤ

pub record FunctionComparisonSpec : Type 0 where
  pub return_array_order : Text

pub record FunctionSpec : Type 0 where
  pub name : Text
  pub return_type : Text
  pub params : List FunctionParam
  pub observations : List ObservationSpec
  pub postconditions : List PostconditionSpec
  pub comparison : Option FunctionComparisonSpec

pub record ClassOperationSpec : Type 0 where
  pub name : Text
  pub return_type : Text
  pub params : List FunctionParam

pub record ClassConstructorSpec : Type 0 where
  pub params : List FunctionParam

pub record ClassSpec : Type 0 where
  pub name : Text
  pub constructor : ClassConstructorSpec
  pub operations : List ClassOperationSpec

pub record Limits : Type 0 where
  pub time_limit_ms : ℤ
  pub memory_limit_mb : ℤ

pub record Job : Type 0 where
  pub language : Text
  pub mode : Text
  pub source_code : Text
  pub function : Option FunctionSpec
  pub class : Option ClassSpec
  pub test_cases : List TestCase
  pub limits : Limits

pub data Status : Type 0 where
  no_status accepted wrong_answer time_limit_exceeded runtime_error : Status
  compilation_error memory_limit_exceeded output_limit_exceeded : Status
  infrastructure_error validation_error : Status

pub data SubmissionStatus : Type 0 where
  queued running finished failed : SubmissionStatus

-- `no_status` is the empty string of Go's `Result{}`.
pub record JudgeResult : Type 0 where
  pub status : Status
  pub passed_test_cases : ℕ
  pub total_test_cases : ℕ
  pub runtime_ms : ℕ
  pub memory_bytes : ℕ
  pub failed_test_case : Option TestCase
  pub error_message : Text

pub record Submission : Type 0 where
  pub created_at : Option ℕ
  pub id : Text
  pub job : Job
  pub status : SubmissionStatus
  pub result : Option JudgeResult
  pub started_at : Option ℕ
  pub attempt_count : ℕ
  pub lease_expires_at : Option ℕ
  pub failure_message : Text

abbrev pub status_eq : SubmissionStatus → SubmissionStatus → Bool
status_eq queued queued = Bool.true
status_eq running running = Bool.true
status_eq finished finished = Bool.true
status_eq failed failed = Bool.true
status_eq _ _ = Bool.false
