-- ===== src/Tests.antt =====
-- Concrete entries on which the modelled code runs.
pub mod Demo
pub mod Steps
pub mod MemoryRedis
pub mod MemoryStreams
pub mod MemoryLists
pub mod Server
pub mod Services
pub mod Stored
pub mod Scheduling
pub mod Reproducing
use buttercup.Prelude.{
  Bool, ℕ, suc, ◌+◌, ◌≤◌, ◌≡◌, refl, String, true, false, not, ◌&&◌, none, some, List, [], ◌∷◌,
  ◌++◌, length, get_elem?, set, str_eq, arith, ◌⊎◌, take, drop, filter,
}
use mathlib.Core.List.{Perm}
use buttercup.Prelude.Filters.{reject}
use buttercup.Message.{
  SubmissionResult, accepted, passed, BuildType, BuildOutput, TracedCrash, SubmissionEntryPatch,
  SubmissionEntry,
}
use buttercup.Outcome.{Result, ok, raised}
use buttercup.CompetitionApi.Client.{
  ApiClient, Response, submission_status_accepted, submission_status_passed,
}
use buttercup.CompetitionApi.{
  map_submission_status_to_result, submit_pov, get_pov_status, submit_patch, submit_bundle,
}
use buttercup.CompetitionApi.Answers.{IsConsistent, IsConsistentResult, answers-IsConsistent}
use buttercup.Prelude.All.{All}
use buttercup.Submissions.Env.{Sarif, Env, Command, lset}
use buttercup.Submissions.State.{
  Limits, State, start, enumerate_submissions, enumerate_task_submissions,
}
use buttercup.Submissions.Entry.{
  current_patch, get_first_successful_pov, get_pending_pov_submissions,
}
use buttercup.Submissions.Pov.{
  try_pov, submit_first, submit_pov_if_needed, poll_pov, poll_povs, update_pov_status,
}
use buttercup.Submissions.Pov.Live.{
  count_live, has_live, submit_pov_if_needed-live, update_pov_status-live,
}
use buttercup.Submissions.Patch.{
  has_content, reorder_patches_by_completion, wait_from, should_wait_for_patch_mitigation_merge,
  task_outstanding_patch_requests,
}
use buttercup.Submissions.Patch.Reorder.{completed_first, reorder_patches_by_completion-IsStable}
use buttercup.Submissions.PatchFlow.{request_patch_if_needed, submit_patch_if_good}
use buttercup.Submissions.PatchFlow.Safe.{Submittable, submit_patch_if_good-Submittable}
use buttercup.Submissions.PatchFlow.Limit.{request_patch_if_needed-le_limit}
use buttercup.Submissions.Records.{
  find_patch, find_patch_in, find_similar_entries, submit_vulnerability, add_crash, stopped,
}
use buttercup.Submissions.Records.Find.{IsFound, find_patch-IsFound}
use buttercup.Submissions.Records.Consolidate.{IsMerged, submit_vulnerability-IsMerged}
use buttercup.Submissions.Records.Events.{
  found_vulnerability, received_patch, run_events, run_events-start, submit_vulnerability-ok,
}
use buttercup.Submissions.Counted.Calls.{event, cycle, run_calls, run_calls-answered}
use buttercup.Submissions.Cycle.{process_from, process_entry}
use buttercup.Submissions.Cycle.Loop.{Kept, process_from-Kept}
use buttercup.Submissions.Cycle.Process.{Processed, process_entry-Processed}
use buttercup.Tests.Demo.{
  accept, pass, demo_api, demo_command, demo_sarif, demo, demo_limits, demo_target, crash_of,
  patch_of, entry_of, fresh, proved, waiting, state_of, bundle_of, doubled, bundled, sent,
}

-- The POV is submitted, and then polled.
submitted_test : (submit_pov_if_needed demo_api fresh 0).1 ≡ entry_of "id" accepted []
unfolding submit_pov_if_needed submit_first try_pov submit_pov map_submission_status_to_result
    get_first_successful_pov get_pending_pov_submissions
submitted_test = refl

polled_test : (update_pov_status demo_api (entry_of "id" accepted []) 1).1 ≡ entry_of "id" passed []
unfolding update_pov_status poll_povs poll_pov get_pov_status map_submission_status_to_result
polled_test = refl

process_entry-Processed_example :
    Processed demo demo_limits 0 fresh
      (state_of (fresh ∷ proved ∷ []))
      (process_entry demo demo_limits 0 (state_of (fresh ∷ proved ∷ [])))
process_entry-Processed_example =
    process_entry-Processed demo demo_limits 0 fresh (state_of (fresh ∷ proved ∷ [])) (omega arith)
      refl

submit_patch_if_good-Submittable_example :
    ((submit_patch_if_good demo demo_limits 0 (state_of (proved ∷ []))).1.remote ≡ 0)
    ⊎ Submittable demo demo_limits proved (state_of (proved ∷ []))
submit_patch_if_good-Submittable_example =
    submit_patch_if_good-Submittable demo demo_limits 0 proved (state_of (proved ∷ [])) refl

run_events-start_example :
    let events =
      found_vulnerability (crash_of "b")
      ∷ received_patch (record { task_id = "task"; internal_patch_id = "q"; patch = "diff" })
      ∷ [] in
    let s = run_events demo events (start demo 0 (waiting ∷ [])) in
    (start demo s.remote s.local).entries ≡ s.entries
run_events-start_example =
    run_events-start demo
      (found_vulnerability (crash_of "b")
        ∷ received_patch (record { task_id = "task"; internal_patch_id = "q"; patch = "diff" })
        ∷ [])
      0 (waiting ∷ [])

both_similar :
    find_similar_entries demo (crash_of "a") (state_of (fresh ∷ proved ∷ []))
    ≡ (0, fresh) ∷ (1, proved) ∷ []
unfolding find_similar_entries enumerate_task_submissions enumerate_submissions
both_similar = refl

submit_vulnerability-IsMerged_example :
    let after =
      (submit_vulnerability demo (crash_of "a") (state_of (fresh ∷ proved ∷ []))).1.entries in
    (e : SubmissionEntry) × (get_elem? after 0 ≡ some e)
    × IsMerged (add_crash (some (crash_of "a")) fresh) ((1, proved) ∷ []) e
    × All (λ (p : ℕ × SubmissionEntry). get_elem? after p.0 ≡ some (stopped p.1)) ((1, proved) ∷ [])
    × (length after ≡ 2)
    × (get_elem? after 2 ≡ none)
submit_vulnerability-IsMerged_example =
    submit_vulnerability-IsMerged demo (crash_of "a") (state_of (fresh ∷ proved ∷ [])) (0, fresh)
      ((1, proved) ∷ []) 2 refl both_similar (ground arith, (ground arith, tt))

one_waits :
    task_outstanding_patch_requests demo "task"
      (should_wait_for_patch_mitigation_merge demo 0 fresh (state_of (fresh ∷ waiting ∷ []))).1
    ≤ 2
unfolding task_outstanding_patch_requests enumerate_task_submissions enumerate_submissions
    should_wait_for_patch_mitigation_merge wait_from current_patch
one_waits = omega arith

request_patch_if_needed-le_limit_example :
    task_outstanding_patch_requests demo "task"
      (record (should_wait_for_patch_mitigation_merge demo 0 fresh
        (state_of (fresh ∷ waiting ∷ []))).1 {
          entries =
              (request_patch_if_needed demo demo_limits 0
                (state_of (fresh ∷ waiting ∷ []))).1.entries;
        })
    ≤ 2
request_patch_if_needed-le_limit_example =
    request_patch_if_needed-le_limit demo demo_limits 0 fresh (state_of (fresh ∷ waiting ∷ [])) refl
      one_waits

submit_pov_if_needed-live_example :
    (count_live (submit_pov_if_needed demo_api fresh 0).1.crashes ≤ 1)
    × ((submit_pov_if_needed demo_api fresh 0).0
        ≡ ok (
            not (has_live fresh.crashes)
            && has_live (submit_pov_if_needed demo_api fresh 0).1.crashes))
submit_pov_if_needed-live_example = submit_pov_if_needed-live demo_api fresh 0 (omega arith)

answers-IsConsistent_example :
    IsConsistent (submit_pov demo_api (crash_of "a") 0).0
    × IsConsistentResult (submit_patch demo_api "task" "diff" 0).0
    × IsConsistentResult (submit_bundle demo_api "task" "pov" "" "" 0).0
answers-IsConsistent_example =
    answers-IsConsistent demo_api (crash_of "a") "task" "diff" "pov" "" "" 0

reorder_patches_by_completion-IsStable_example :
    let pending = drop 0 waiting.patches in
    let reordered = drop 0 (reorder_patches_by_completion waiting).patches in
    (take 0 (reorder_patches_by_completion waiting).patches ≡ [])
    × Perm reordered pending
    × (completed_first reordered ≡ true)
    × (filter has_content reordered ≡ filter has_content pending)
    × (reject has_content reordered ≡ reject has_content pending)
reorder_patches_by_completion-IsStable_example = reorder_patches_by_completion-IsStable waiting

found_r :
    find_patch demo "r" (state_of (fresh ∷ waiting ∷ []))
    ≡ some (record { index = 1; entry = waiting; place = 1; patch = patch_of "r" "diff" })
unfolding find_patch find_patch_in enumerate_submissions
found_r = refl

process_from-Kept_example :
    Kept demo
      (state_of (fresh ∷ proved ∷ []))
      (process_from demo demo_limits 2 0 (state_of (fresh ∷ proved ∷ [])))
process_from-Kept_example =
    process_from-Kept demo demo_limits 2 0 (state_of (fresh ∷ proved ∷ [])) refl

-- Two crashes, with cycles before and between them.
run_calls-answered_example :
    let cs =
      cycle
      ∷ event (found_vulnerability (crash_of "a"))
      ∷ cycle
      ∷ event (found_vulnerability (crash_of "b"))
      ∷ [] in
    let s = run_calls demo demo_limits cs (start demo 0 (fresh ∷ [])) in
    (length (demo.lrange s.local) ≡ length s.entries)
    × (b : Bool) × ((submit_vulnerability demo (crash_of "c") s).0 ≡ ok b)
run_calls-answered_example =
    run_calls-answered demo demo_limits
      (cycle
        ∷ event (found_vulnerability (crash_of "a"))
        ∷ cycle
        ∷ event (found_vulnerability (crash_of "b"))
        ∷ [])
      0 (fresh ∷ []) (crash_of "c")
