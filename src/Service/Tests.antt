-- ===== src/Service/Tests.antt =====
-- The processing of a claimed submission whose program passes.
use yex_judge.Common.{◌+◌, false, none, some, [], ◌∷◌, codes, ok, err}
use yex_judge.Types.{Submission, running}
use yex_judge.Languages.{default_registry}
use yex_judge.Store.{Table}
use yex_judge.Service.{World, Setup, process_submission}
use yex_judge.Service.Reports.{IsReported}
use yex_judge.Service.Updates.{process_submission-IsReported}
use yex_judge.Service.Releases.{IsBalanced, process_submission-IsBalanced}
use yex_judge.Verdict.Tests.{two_cases, idle, no_json, working}
use yex_judge.Job.Tests.{no_metadata}

abbrev setup : Setup
setup = record {
  registry = default_registry;
  metadata = no_metadata;
  canonical = no_json;
  error_text = λ e. [];
}

abbrev world : World
world = record {
  fault = λ k n. none;
  time = λ k. k + 20;
  others = λ k t. t;
  workspace_error = none;
  compile = err [];
  compile_canceled = false;
  acquire = ok idle;
  prepare_error = none;
  supervisor = none;
  cases = working;
}

abbrev claimed : Submission
claimed = record {
  created_at = some 0;
  id = codes "1";
  job = two_cases;
  status = running;
  result = none;
  started_at = some 10;
  attempt_count = 1;
  lease_expires_at = some 70;
  failure_message = [];
}

abbrev claimed_table : Table
claimed_table =
    record {
      id = codes "1";
      status = running;
      job = two_cases;
      result = none;
      started_at = some 10;
      attempt_count = 1;
      lease_expires_at = some 70;
      failure_message = none;
      created_at = 0;
      updated_at = 10;
    }
    ∷ []

process_submission-IsReported_example :
    IsReported world claimed (process_submission setup world claimed claimed_table)
process_submission-IsReported_example =
    process_submission-IsReported setup world claimed claimed_table

process_submission-IsBalanced_example :
    IsBalanced (process_submission setup world claimed claimed_table)
process_submission-IsBalanced_example =
    process_submission-IsBalanced setup world claimed claimed_table
