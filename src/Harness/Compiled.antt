-- ===== src/Harness/Compiled.antt =====
-- The source that createWorkspace (internal/judge/workspace.go) writes for a C++ job that ValidateJob
-- (internal/judge/validate.go) accepts.
use yex_judge.Common.{◌≡◌, false, none, [], codes, text_eq, ok, ◌||◌, arith, true}
use yex_judge.Types.{Job}
use yex_judge.Types.Mode.{is_some}
use yex_judge.Languages.{cpp_spec}
use yex_judge.Adapters.Loops.{Succeeds}
use yex_judge.Program.Generated.{validate_function-generates}
use yex_judge.Job.{validate_job, validate_bounds}
use yex_judge.Job.Accepted.{validate_job-Parts}
use yex_judge.Harness.Kinds.{plain, with_function, with_class, kind_of}
use yex_judge.Harness.Generators.{function_source, class_source}
use yex_judge.Harness.{Harness, metadata, generated_source, workspace_source}

module _ (h : Harness) (job : Job) where
  from_generated :
      (is_some job.function || is_some job.class) ≡ true
      → Succeeds (generated_source h job cpp_spec)
      → Succeeds (workspace_source h job cpp_spec)
  unfolding workspace_source
  from_generated b (t, s) = (t, ground arith)

  has_source : validate_bounds (metadata h) job ≡ ok tt → text_eq job.source_code [] ≡ false
  unfolding validate_bounds
  has_source b = ground arith

  plain_source : job.function ≡ none → job.class ≡ none → Succeeds (workspace_source h job cpp_spec)
  unfolding workspace_source
  plain_source e c = (job.source_code, ground arith)

  -- A C++ job that passes validation has a source to compile, in each mode: its own, or a program
  -- that is generated from its metadata.
  pub validate_job-has_source :
      validate_job (metadata h) job ≡ ok tt
      → job.language ≡ codes "cpp"
      → Succeeds (workspace_source h job cpp_spec)
  validate_job-has_source v l =
      let p = validate_job-Parts (metadata h) job v in
      elim (kind_of h job v l) [
        | plain e c ↦ plain_source e c
        | with_class k c m x ↦ from_generated (ground arith) (class_source h job k l m c x)
        | with_function f e c m y ↦ from_generated (ground arith) (
            function_source h job f p.mode_ok l m e (
              validate_function-generates h.floats h.unicode h.registry h.sources job.source_code f
                job.test_cases (has_source p.bounds_ok) y))
      ]
