-- ===== src/Lib.antt =====
-- YexJudge: a judge server that takes programs with test cases, queues them in PostgreSQL, compiles
-- and runs them in sandbox containers and reports a verdict.
--
-- Parts and files:
-- - Types, Types/Mode: the job, submission and result data of internal/judge/types.go, and the
--   execution modes of internal/judge/harness/mode.go.
-- - Store: the submissions table and the SQL of internal/dbquery/submissions.sql.go as functions on a
--   list of rows. Store/Queue: the methods of internal/judge/postgres_store.go and
--   internal/judge/postgres_queue.go (SaveAdmitted, UpdateContext, GetContext, claimNextSubmission,
--   RenewLease, RecoverExpired, Counts). Store/History: sequences of those calls, as the server, its
--   workers and the recovery loop of cmd/server/main.go make them. The other files under Store hold
--   the proofs: Rows, Members, Outcomes and Writes the lemmas; Invariant, Attempts, Fencing, Claims,
--   Recovery and Admission the results.
-- - Output: the capped writers of internal/runner/docker_runner.go, internal/judge/executor.go,
--   internal/judge/supervisor_executor.go and cmd/yexsupervisor/main.go. Output/ArchiveWriter: the
--   archive writer of internal/judge/executor.go.
-- - Runner: DockerRunner.Run of internal/runner/docker_runner.go over the buffers of Output.
-- - Verdict: runTestCases of internal/judge/testcases.go, the loop over the test cases.
--   Verdict/Supervisor: decodeSupervisorResults of internal/judge/supervisor_executor.go. Rounds,
--   Passing, FirstFailure and Agreement below Verdict hold the proofs.
-- - Languages: internal/judge/languages. Job: ValidateJob of internal/judge/validate.go, with what the
--   harness generators say of function and class metadata as the parameter Metadata, which Harness
--   fills.
-- - Pool: the sandbox pool of internal/judge/pool.go as interleaved steps. Pool/Slots and
--   Pool/Removal: lemmas. Pool/Accounting and Pool/Cleanup: results.
-- - Artifacts: the checks of the compiler's archive in internal/judge/workspace.go. Artifacts/Parts,
--   Artifacts/Paths and Artifacts/Bounds: proofs.
-- - Service: ProcessSubmission of internal/judge/service.go, which composes Job, Languages, Verdict
--   and Store. Its World argument holds what the file system, the compiler, the sandbox pool and the
--   other users of the database do. Service/Reports, Service/Updates and
--   Service/Releases hold the proofs.
-- - Server: the configuration, env file values and request ids of cmd/server (config.go, env.go,
--   http.go). Server/EnvFile: the lines of loadEnvFile. Server/Capacity and Server/Quoting: proofs.
-- - CppType: the C++ type syntax of internal/judge/harness/cpp/types (ref.go, parser.go).
--   CppType/Lengths, Total, Words, Reading and RoundTrip: proofs.
-- - Json, Json/Parse: JSON values and what encoding/json makes of a raw message.
-- - Adapters: the value types of internal/judge/harness/cpp/types. Scalars (scalar.go), RandomList and
--   Graph (runtime.go) and Values (vector.go, optional.go, runtime.go) have the literals, checks and
--   canonical texts of values, Unordered (vector.go, registry.go) those of unordered vectors, and
--   Registry (registry.go) the resolution of declared types. The other files under Adapters hold the
--   proofs: Numbering, Reaching, Decides, Loops, Alike and Sorting the lemmas; Graphs and Agreement
--   the results.
-- - FunctionJob: the checks of validateFunctionJob in internal/judge/validate.go on the metadata of a
--   C++ function job. FunctionJob/Expected and Cases: its checks of the test cases. FunctionJob/Output:
--   the canonical expected output of a function job (internal/judge/testcases.go). Metadata and Judged
--   below FunctionJob hold the proofs.
-- - ClassJob: validateClassRequest of internal/judge/harness/cpp/class.go. ClassJob/Output: the
--   canonical expected output of a class job. ClassJob/Judged: proofs.
-- - Program: the programs that internal/judge/harness/cpp generates. Program/Requests and
--   Program/Functions: function.go. Program/Classes: class.go. Program/Modes: the registry of
--   internal/judge/harness/mode.go. Program/Generates and Program/Generated: proofs.
-- - Harness: generateModeProgram of internal/judge/cpp_function_harness.go, and how ValidateJob,
--   testCaseExpectedOutput and createWorkspace use the parts before. Generators and Kinds below
--   Harness hold the lemmas, Accepted, Compiled and AnyOrder the results.
-- - Metrics: the histogram of internal/observability/metrics.go. Metrics/Buckets: proofs.
-- - Common: shared helpers. A module called Tests holds concrete instances.
--
-- The server calls the store; the workers call the queue and judge the submission that they claim by
-- Service and Verdict; the runner runs commands for the judge and captures their output in the buffers
-- of Output.
--
-- Conventions. A string is the list of its bytes, or of its runes in CppType and Verdict. A time
-- is a number of nanoseconds. Every transaction is one function from table to table or error:
-- PostgreSQL serialises the writers of a row, and a method that fails rolls back. The rows that
-- another transaction holds locked are a parameter of the statements that skip them, and each
-- statement may meet a database error. Durations of the configuration wrap at 64 bits as in Go.
-- Integers of the database are unbounded: attempts never pass the attempt limit, so no counter
-- comes near 2^31.
--
-- A step of the pool is one critical section, one operation on its channel, on closed or on replaceWG,
-- or one call of RemoveSandbox. ConfigureSandbox and ResetSandbox, which touch nothing of the pool, are
-- part of the step before them. The critical section of replace is two steps, the test of closed and
-- the registration of the replacement, since Close closes the channel and waits without the mutex:
-- the pool's field overlooked counts the calls of replace between the two when that wait ends.
--
-- A json.RawMessage of a job is its text; Adapters takes the value that it holds. The type names of
-- a registry are the runes of CppType, the JSON texts of Harness are bytes; the outputs that Harness
-- compares for Verdict are meant in ASCII, where runes and bytes agree.
--
-- Fuel: the loop over template arguments in CppType runs on one more than the length of the input,
-- and each round consumes at least one rune. The walk over the nodes that wait in parseGraphJSON runs
-- on one more than the number of edges: each round takes a node off the stack, and a node puts its
-- neighbors there once. The numbering of the nodes in canonicalGraphJSON runs on one more than the
-- number of nodes. A JSON text is read on one more than its length; values nest at most 10000 deep, as
-- in encoding/json.
--
-- Not modelled: the generators of Python programs, which are a parameter of Harness (python);
-- json.Marshal of an observation object with an unordered return value, one more (marshal_fields); the
-- constant C++ helper source of the serializer and the runtime types, an argument (Sources), and NewRuntimeAdapter, which the
-- program does not call; the shortest text of a double, an argument (Floats); the
-- compile workers, the HTTP handlers, the polling loops of cmd/server/main.go, of which Store/History
-- has the calls, the loop of cmd/yexsupervisor, the unpacking of archives, docker command lines,
-- logging and start-up.
pub mod Common
pub mod Output
pub mod Runner
pub mod Types
pub mod Store
pub mod CppType
pub mod Languages
pub mod Job
pub mod Verdict
pub mod Pool
pub mod Artifacts
pub mod Service
pub mod Server
pub mod Metrics
pub mod Json
pub mod Adapters
pub mod FunctionJob
pub mod ClassJob
pub mod Program
pub mod Harness
