-- ===== src/CompetitionApi/Client.antt =====
-- The generated HTTP client of orchestrator/src/buttercup/orchestrator/competition_api_client, which
-- is no part of the model: its calls and the competition server behind them are a parameter. A call
-- may raise, and may change what the server holds.
use buttercup.Prelude.{String, Option}
use buttercup.Outcome.{Action, Result}

-- models/types_submission_status.py
pub data TypesSubmissionStatus : Type 0 where
  submission_status_accepted submission_status_passed submission_status_failed :
      TypesSubmissionStatus
  submission_status_deadline_exceeded submission_status_errored submission_status_inconclusive :
      TypesSubmissionStatus

pub record TypesPovSubmission : Type 0 where
  pub engine : String
  pub fuzzer_name : String
  pub sanitizer : String
  pub testcase : String

pub record TypesBundleSubmission : Type 0 where
  pub bundle_id : Option String
  pub pov_id : String
  pub patch_id : Option String
  pub broadcast_sarif_id : Option String

-- The status of a response, if it has one, and the id that the server gave.
pub record Response : Type 0 where
  pub status : Option TypesSubmissionStatus
  pub id : String

pub record ApiClient : Type 1 where
  pub Remote : Type 0
  -- `node_local.lopen(path).read()` and `base64.b64encode`
  pub read_file : String → Result String
  pub b64encode : String → String
  -- `_get_task_metadata`, which telemetry asks for: it raises for a task that the registry has lost.
  -- Behind it the other calls that ask for it raise just as their request may.
  pub task_metadata : (task_id : String) → Action Remote (Unit {0})
  pub pov_post : (task_id : String) → TypesPovSubmission → Action Remote Response
  pub pov_get : (task_id pov_id : String) → Action Remote Response
  pub patch_post : (task_id patch : String) → Action Remote Response
  pub patch_get : (task_id patch_id : String) → Action Remote Response
  pub bundle_post : (task_id : String) → TypesBundleSubmission → Action Remote Response
  pub bundle_patch : (task_id bundle_id : String) → TypesBundleSubmission → Action Remote Response
  pub bundle_delete : (task_id bundle_id : String) → Action Remote (Unit {0})
  pub sarif_post : (task_id broadcast_sarif_id : String) → Action Remote Response
