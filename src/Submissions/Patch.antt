-- ===== src/Submissions/Patch.antt =====
-- Patches of an entry: requests, builds, tests against the POVs, submission and polling, of
-- orchestrator/src/buttercup/orchestrator/scheduler/submissions.py.
pub mod Reorder
pub mod Mitigated
pub mod Tested
use buttercup.Prelude.{
  ℕ, String, Bool, true, false, not, ◌||◌, Option, none, some, List, [], ◌∷◌, ◌++◌, length, take,
  drop, filter, any, ◌==◌, str_eq, truthy, if◌then◌else◌,
}
use buttercup.Message.{
  SubmissionResult, failed, deadline_exceeded, inconclusive, result_eq, CrashWithId,
  SubmissionEntryPatch, SubmissionEntry, PovReproduceRequest, PovReproduceResponse,
}
use buttercup.Submissions.Env.{Env}
use buttercup.Submissions.State.{State, enumerate_from, enumerate_task_submissions, is_active}
use buttercup.Submissions.Entry.{task_id, current_patch}

abbrev pub has_content : SubmissionEntryPatch → Bool
has_content p = truthy p.patch

-- `_reorder_patches_by_completion`
unfoldable pub reorder_patches_by_completion : SubmissionEntry → SubmissionEntry
reorder_patches_by_completion e = elim (current_patch e) [
  | none ↦ e
  | some _ ↦
      let pending_patches = drop e.patch_idx e.patches in
      record e {
        patches =
            take e.patch_idx e.patches
            ++ (filter has_content pending_patches
                ++ filter (λ p. not (has_content p)) pending_patches);
      }
]

-- `SubmissionEntryPatch(internal_patch_id=…)`
abbrev pub patch_tracker : String → SubmissionEntryPatch
patch_tracker id = record {
  patch = "";
  internal_patch_id = id;
  competition_patch_id = "";
  build_outputs = [];
  result = SubmissionResult.none;
}

-- The results for which a POV is not run against a patch.
abbrev pub is_excluded : SubmissionResult → Bool
is_excluded r = result_eq r failed || result_eq r deadline_exceeded || result_eq r inconclusive

abbrev pub pov_reproduce_request : String → SubmissionEntryPatch → CrashWithId → PovReproduceRequest
pov_reproduce_request task patch c = record {
  task_id = task;
  internal_patch_id = patch.internal_patch_id;
  harness_name = c.crash.crash.harness_name;
  sanitizer = c.crash.crash.target.sanitizer;
  pov_path = c.crash.crash.crash_input_path;
}

abbrev pub is_pending_status : Option PovReproduceResponse → Bool
is_pending_status none = true
is_pending_status (some _) = false

abbrev pub is_mitigated_status : Option PovReproduceResponse → Bool
is_mitigated_status none = false
is_mitigated_status (some r) = not r.did_crash

abbrev pub is_failing_status : Option PovReproduceResponse → Bool
is_failing_status none = false
is_failing_status (some r) = r.did_crash

-- `_check_all_povs_are_mitigated` on the statuses: pending is `none`.
unfoldable pub all_mitigated : List (Option PovReproduceResponse) → Option Bool
all_mitigated statuses =
    if any is_failing_status statuses
    then some false
    else if any is_pending_status statuses
    then none
    else some true

module _ (env : Env) where
  open env use {Local, request_status, uuid4}

  -- `_pov_reproduce_patch_status`
  unfoldable pub pov_reproduce_patch_status :
      SubmissionEntryPatch
      → List CrashWithId
      → String
      → Local
      → List (Option PovReproduceResponse) × Local
  pov_reproduce_patch_status patch [] task l = ([], l)
  pov_reproduce_patch_status patch (c ∷ cs) task l =
      let excluded = is_excluded c.result in
      let (status, asked) = request_status (pov_reproduce_request task patch c) l in
      let (statuses, l') =
        pov_reproduce_patch_status patch cs task (if excluded then l else asked) in
      (if excluded then statuses else status ∷ statuses, l')

  -- `_check_all_povs_are_mitigated` of the current patch
  unfoldable pub check_all_povs_are_mitigated :
      SubmissionEntry → SubmissionEntryPatch → Local → Option Bool × Local
  unfolding all_mitigated
  check_all_povs_are_mitigated e patch l =
      let (statuses, l') = pov_reproduce_patch_status patch e.crashes (task_id e) l in
      (all_mitigated statuses, l')

  -- A patch that other entries' POVs are tested against: the current one, once it was submitted.
  abbrev pub submitted_patch : SubmissionEntry → Option SubmissionEntryPatch
  submitted_patch e = elim (current_patch e) [
    | none ↦ none
    | some p ↦ if truthy p.competition_patch_id then some p else none
  ]

  -- The patch of the entry `e2` at `j` that the POVs of `e` are tested against, if there is one.
  abbrev pub patch_to_test :
      ℕ → SubmissionEntry → ℕ → SubmissionEntry → Local → Option SubmissionEntryPatch
  patch_to_test i e j e2 l =
      if not (is_active env l e2) || not (str_eq (task_id e2) (task_id e)) || (i == j)
      then none
      else submitted_patch e2

  -- An answer that makes the entry wait: the test is pending, or the POV is mitigated.
  abbrev pub makes_wait : List (Option PovReproduceResponse) → Bool
  makes_wait statuses = any is_pending_status statuses || any is_mitigated_status statuses

  -- The loop of `_should_wait_for_patch_mitigation_merge` over the entries that are left.
  unfoldable pub wait_from : ℕ → SubmissionEntry → List (ℕ × SubmissionEntry) → Local → Bool × Local
  unfolding current_patch
  wait_from i e [] l = (false, l)
  wait_from i e ((j, e2) ∷ others) l = elim (patch_to_test i e j e2 l) [
    | none ↦ wait_from i e others l
    | some patch ↦
        let (statuses, l') = pov_reproduce_patch_status patch e.crashes (task_id e) l in
        let rest = wait_from i e others l' in if makes_wait statuses then (true, l') else rest
  ]

  unfoldable pub should_wait_for_patch_mitigation_merge :
      ℕ → SubmissionEntry → State env → Bool × State env
  unfolding wait_from
  should_wait_for_patch_mitigation_merge i e s =
      let (wait, l) = wait_from i e (enumerate_from 0 s.entries) s.local in
      (wait, record s { local = l })

  abbrev pub is_outstanding : SubmissionEntry → Bool
  is_outstanding e = elim (current_patch e) [ none ↦ false | some p ↦ not (has_content p) ]

  unfoldable pub task_outstanding_patch_requests : String → State env → ℕ
  unfolding enumerate_task_submissions current_patch
  task_outstanding_patch_requests task s =
      length (filter (λ p. is_outstanding p.1) (enumerate_task_submissions env task s))
