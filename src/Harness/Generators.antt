-- ===== src/Harness/Generators.antt =====
-- generateModeProgram (internal/judge/cpp_function_harness.go) for C++ jobs that ValidateJob lets
-- through, and the source that createWorkspace (internal/judge/workspace.go) takes from it.
use yex_judge.Common.{
  ◌≡◌, refl, true, none, some, inl, inr, Text, codes, text_eq, text_eq_iff, ok, Result-cases, ◌>>=◌,
  arith,
}
use yex_judge.Types.{Job, FunctionSpec, ClassSpec}
use yex_judge.Types.Mode.{execution_mode, mode_function, mode_class}
use yex_judge.Languages.{cpp_spec}
use yex_judge.Adapters.Loops.{Succeeds}
use yex_judge.ClassJob.{validate_class}
use yex_judge.Program.Functions.{generate_function}
use yex_judge.Program.Modes.{
  ModeGenerator, cpp_function_generator, cpp_class_generator, get_generator,
  execution_mode_registry, request_of,
}
use yex_judge.Job.{validate_mode}
use yex_judge.Job.Accepted.{validate_mode-contract}
use yex_judge.Harness.{
  Harness, metadata, generate_class, generate_mode, generate_mode_program, program_error,
  generated_source, main_program,
}

text_same : {s t : Text} → text_eq s t ≡ true → s ≡ t
text_same {s} {t} h = (text_eq_iff s t).0 h

abbrev pub IsGenerator : Job → ModeGenerator → Type 0
IsGenerator job g = get_generator execution_mode_registry job.language (execution_mode job) ≡ some g

module _ (h : Harness) (job : Job) where
  function-IsGenerator :
      job.language ≡ codes "cpp"
      → execution_mode job ≡ mode_function
      → IsGenerator job cpp_function_generator
  unfolding get_generator execution_mode_registry text_eq
  function-IsGenerator l m = rw m (rw l refl)

  class-IsGenerator :
      job.language ≡ codes "cpp"
      → execution_mode job ≡ mode_class
      → IsGenerator job cpp_class_generator
  unfolding get_generator execution_mode_registry text_eq
  class-IsGenerator l m = rw m (rw l refl)

  generated_by :
      (g : ModeGenerator)
      → IsGenerator job g
      → generate_mode_program h job ≡ generate_mode h g (request_of job)
  unfolding generate_mode_program
  generated_by g e = ground arith

  -- A program of the class generator has passed its checks.
  pub class_validated :
      (k : ClassSpec)
      → job.language ≡ codes "cpp"
      → execution_mode job ≡ mode_class
      → job.class ≡ some k
      → program_error h job ≡ none
      → validate_class h.unicode h.registry h.floats job.source_code k job.test_cases ≡ ok tt
  unfolding program_error generate_mode generate_class request_of
  class_validated k l m c x =
      let e = generated_by cpp_class_generator (class-IsGenerator l m) in
      elim (Result-cases
        (validate_class h.unicode h.registry h.floats job.source_code k job.test_cases)) [
          | inl (_, y) ↦ y
          | inr (b, y) ↦ absurd (ground arith)
        ]

  -- With a generated program a function job has a source, and so has a class job that a generator
  -- accepts: both programs are written to main.cpp.
  pub function_source :
      (f : FunctionSpec)
      → validate_mode (metadata h) job ≡ ok tt
      → job.language ≡ codes "cpp"
      → execution_mode job ≡ mode_function
      → job.function ≡ some f
      → Succeeds (
          generate_function h.floats h.unicode h.registry h.sources job.source_code f
            job.test_cases)
      → Succeeds (generated_source h job cpp_spec)
  unfolding generate_mode request_of generated_source cpp_spec text_eq
  function_source f v l m e (t, s) =
      let contract = validate_mode-contract (metadata h) job v in
      let same = (text_eq_iff (execution_mode job) mode_function).1 m in
      let program : generate_mode h cpp_function_generator (request_of job) ≡ ok (main_program t) =
        ground arith in
      let found = generated_by cpp_function_generator (function-IsGenerator l m) in
      rw (found, ◌>>=◌) (rw (program, ◌>>=◌) (t, refl))

  pub class_source :
      (k : ClassSpec)
      → job.language ≡ codes "cpp"
      → execution_mode job ≡ mode_class
      → job.class ≡ some k
      → program_error h job ≡ none
      → Succeeds (generated_source h job cpp_spec)
  unfolding program_error generate_mode request_of generated_source cpp_spec text_eq
  class_source k l m c x =
      let found = generated_by cpp_class_generator (class-IsGenerator l m) in
      elim (Result-cases (generate_class h job.source_code k job.test_cases)) [
        | inr (e, y) ↦ absurd (ground arith)
        | inl (t, y) ↦
            let program : generate_mode h cpp_class_generator (request_of job)
                ≡ ok (main_program t) =
              ground arith in
            rw (found, ◌>>=◌) (rw (program, ◌>>=◌) (t, refl))
      ]
