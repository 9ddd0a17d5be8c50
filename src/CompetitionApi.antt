-- ===== src/CompetitionApi.antt =====
-- `CompetitionAPI` and `_map_submission_status_to_result` of
-- orchestrator/src/buttercup/orchestrator/scheduler/submissions.py. Telemetry spans and log lines
-- are left out. An `assert` that fails raises.
pub mod Client
pub mod Answers
use buttercup.Prelude.{
  String, Bool, true, false, not, ◌&&◌, ◌||◌, Option, none, some, truthy, if◌then◌else◌,
}
use buttercup.Message.{
  SubmissionResult, accepted, passed, failed, deadline_exceeded, errored, inconclusive, result_eq,
  TracedCrash,
}
use buttercup.Outcome.{Result, ok, raised, Action, pure, raise, ◌>>=◌}
use Client.{
  TypesSubmissionStatus, submission_status_accepted, submission_status_passed,
  submission_status_failed, submission_status_deadline_exceeded, submission_status_errored,
  submission_status_inconclusive, TypesBundleSubmission, Response, ApiClient,
}

-- A status that is not in the mapping counts as ERRORED.
unfoldable pub map_submission_status_to_result : Option TypesSubmissionStatus → SubmissionResult
map_submission_status_to_result none = errored
map_submission_status_to_result (some submission_status_accepted) = accepted
map_submission_status_to_result (some submission_status_passed) = passed
map_submission_status_to_result (some submission_status_failed) = failed
map_submission_status_to_result (some submission_status_deadline_exceeded) = deadline_exceeded
map_submission_status_to_result (some submission_status_errored) = errored
map_submission_status_to_result (some submission_status_inconclusive) = inconclusive

-- `mapped_status in [ACCEPTED, PASSED]`
abbrev pub is_accepted_or_passed : SubmissionResult → Bool
is_accepted_or_passed r = result_eq r accepted || result_eq r passed

-- The end of a submission that is answered by an id.
abbrev id_answer : Response → Option String × SubmissionResult
id_answer response =
    let mapped_status = map_submission_status_to_result response.status in
    if is_accepted_or_passed mapped_status
    then (some response.id, mapped_status)
    else (none, mapped_status)

-- The end of a call that is answered by success or failure.
abbrev flag_answer : Response → Bool × SubmissionResult
flag_answer response =
    let mapped_status = map_submission_status_to_result response.status in
    (is_accepted_or_passed mapped_status, mapped_status)

module _ (c : ApiClient) where
  open c use {
    Remote, read_file, task_metadata, b64encode, pov_post, pov_get, patch_post, patch_get,
    bundle_post, bundle_patch, bundle_delete, sarif_post,
  }

  -- The body of the `try` of `submit_pov`.
  abbrev try_submit_pov : TracedCrash → Action Remote (Option String × SubmissionResult)
  try_submit_pov crash = elim (read_file crash.crash.crash_input_path) [
    | raised ↦ raise
    | ok content ↦
        (pov_post crash.crash.target.task_id (record {
          engine = crash.crash.target.engine;
          fuzzer_name = crash.crash.harness_name;
          sanitizer = crash.crash.target.sanitizer;
          testcase = b64encode content;
        })
          >>= λ response. pure (id_answer response))
  ]

  -- `except Exception: return None, ERRORED`
  abbrev or_errored :
      Result (Option String × SubmissionResult) × Remote
      → (Option String × SubmissionResult) × Remote
  or_errored (ok answer, r) = (answer, r)
  or_errored (raised, r) = ((none, errored), r)

  -- No exception leaves `submit_pov`.
  unfoldable pub submit_pov : TracedCrash → Remote → (Option String × SubmissionResult) × Remote
  unfolding map_submission_status_to_result
  submit_pov crash r = or_errored (try_submit_pov crash r)

  unfoldable pub get_pov_status : (task_id pov_id : String) → Action Remote SubmissionResult
  unfolding map_submission_status_to_result
  get_pov_status task_id pov_id =
      if truthy task_id && truthy pov_id
      then (pov_get task_id pov_id >>= λ response.
          pure (map_submission_status_to_result response.status))
      else raise

  unfoldable pub submit_patch :
      (task_id patch : String) → Action Remote (Option String × SubmissionResult)
  unfolding map_submission_status_to_result
  submit_patch task_id patch =
      if truthy task_id && truthy patch
      then (patch_post task_id (b64encode patch) >>= λ response. pure (id_answer response))
      else raise

  unfoldable pub get_patch_status : (task_id patch_id : String) → Action Remote SubmissionResult
  unfolding map_submission_status_to_result
  get_patch_status task_id patch_id =
      if truthy task_id && truthy patch_id
      then (patch_get task_id patch_id >>= λ response.
          pure (map_submission_status_to_result response.status))
      else raise

  -- An attribute of the payload is set only for a text that is not empty.
  abbrev when_set : String → Option String
  when_set s = if truthy s then some s else none

  unfoldable pub submit_bundle :
      (task_id pov_id patch_id sarif_id : String) → Action Remote (Option String × SubmissionResult)
  unfolding map_submission_status_to_result
  submit_bundle task_id pov_id patch_id sarif_id =
      if truthy task_id && truthy pov_id
      then (bundle_post task_id (record {
        bundle_id = none;
        pov_id = pov_id;
        patch_id = when_set patch_id;
        broadcast_sarif_id = when_set sarif_id;
      })
          >>= λ response. pure (id_answer response))
      else raise

  unfoldable pub patch_bundle :
      (task_id bundle_id pov_id patch_id sarif_id : String)
      → Action Remote (Bool × SubmissionResult)
  unfolding map_submission_status_to_result
  patch_bundle task_id bundle_id pov_id patch_id sarif_id =
      if truthy task_id && truthy bundle_id && truthy pov_id && truthy patch_id && truthy sarif_id
      then (bundle_patch task_id bundle_id (record {
        bundle_id = some bundle_id;
        pov_id = pov_id;
        patch_id = some patch_id;
        broadcast_sarif_id = some sarif_id;
      })
          >>= λ response. pure (flag_answer response))
      else raise

  -- `except Exception: return False`, of the inner `try`
  abbrev or_false : Result (Unit {0}) × Remote → Result Bool × Remote
  or_false (ok _, r) = (ok true, r)
  or_false (raised, r) = (ok false, r)

  unfoldable pub delete_bundle : (task_id bundle_id : String) → Action Remote Bool
  delete_bundle task_id bundle_id =
      if truthy task_id && truthy bundle_id
      then (task_metadata task_id >>= λ _. λ r. or_false (bundle_delete task_id bundle_id r))
      else raise

  unfoldable pub submit_matching_sarif :
      (task_id sarif_id : String) → Action Remote (Bool × SubmissionResult)
  unfolding map_submission_status_to_result
  submit_matching_sarif task_id sarif_id =
      if truthy task_id && truthy sarif_id
      then (sarif_post task_id sarif_id >>= λ response. pure (flag_answer response))
      else raise
