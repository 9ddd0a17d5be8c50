-- ===== src/Submissions/Entry.antt =====
-- The functions on one submission entry at the top of
-- orchestrator/src/buttercup/orchestrator/scheduler/submissions.py. `log_entry`, which only writes
-- a log line, is left out here and below.
use buttercup.Prelude.{
  ◌+◌, String, Bool, true, false, not, ◌&&◌, ◌||◌, Option, none, some, List, [], ◌∷◌, length,
  get_elem?, filter, find?, leb, ◌==◌, str_eq, truthy, if◌then◌else◌,
}
use buttercup.Message.{
  accepted, passed, errored, result_eq, build_type_number, BuildOutput, TracedCrash, CrashWithId,
  SubmissionEntryPatch, SubmissionEntry,
}

-- `_task_id` of a traced crash
abbrev pub crash_task_id : TracedCrash → String
crash_task_id c = c.crash.target.task_id

-- `_task_id` of an entry, `e.crashes[0].crash.crash.target.task_id`. An entry is created with a
-- crash and no operation takes one away, so the IndexError of an empty list is not met; the empty
-- text stands in for it.
abbrev pub task_id : SubmissionEntry → String
task_id e = elim e.crashes [ [] ↦ "" | c ∷ _ ↦ crash_task_id c.crash ]

unfoldable pub advance_patch_idx : SubmissionEntry → SubmissionEntry
advance_patch_idx e = record e { patch_idx = e.patch_idx + 1; patch_submission_attempts = 0 }

unfoldable pub increase_submission_attempts : SubmissionEntry → SubmissionEntry
increase_submission_attempts e = record e {
  patch_submission_attempts = e.patch_submission_attempts + 1;
}

unfoldable pub current_patch : SubmissionEntry → Option SubmissionEntryPatch
current_patch e = elim e.patches [
  | [] ↦ none
  | _ ∷ _ ↦ if leb (length e.patches) e.patch_idx then none else get_elem? e.patches e.patch_idx
]

-- A patch that was submitted and whose verdict is still open.
abbrev pub patch_is_pending : SubmissionEntryPatch → Bool
patch_is_pending p = truthy p.competition_patch_id && result_eq p.result accepted

unfoldable pub get_pending_patch_submissions : SubmissionEntry → List SubmissionEntryPatch
get_pending_patch_submissions e = filter patch_is_pending e.patches

abbrev pub pov_is_successful : CrashWithId → Bool
pov_is_successful c = truthy c.competition_pov_id && result_eq c.result passed

unfoldable pub get_first_successful_pov : SubmissionEntry → Option CrashWithId
get_first_successful_pov e = find? pov_is_successful e.crashes

abbrev pub pov_is_pending : CrashWithId → Bool
pov_is_pending c = truthy c.competition_pov_id && result_eq c.result accepted

unfoldable pub get_pending_pov_submissions : SubmissionEntry → List CrashWithId
get_pending_pov_submissions e = filter pov_is_pending e.crashes

unfoldable pub get_first_successful_pov_id : SubmissionEntry → Option String
get_first_successful_pov_id e = elim (get_first_successful_pov e) [
  | none ↦ none
  | some pov ↦ some pov.competition_pov_id
]

abbrev pub pov_is_eligible : CrashWithId → Bool
pov_is_eligible c =
    not (truthy c.competition_pov_id) || (truthy c.competition_pov_id && result_eq c.result errored)

unfoldable pub get_eligible_povs_for_submission : SubmissionEntry → List CrashWithId
get_eligible_povs_for_submission e = filter pov_is_eligible e.crashes

abbrev pub bool_eq : Bool → Bool → Bool
bool_eq true b = b
bool_eq false b = not b

abbrev pub is_matching_build_output : BuildOutput → BuildOutput → Bool
is_matching_build_output build_output bo =
    str_eq bo.engine build_output.engine
    && str_eq bo.sanitizer build_output.sanitizer
    && (build_type_number bo.build_type == build_type_number build_output.build_type)
    && bool_eq bo.apply_diff build_output.apply_diff

unfoldable pub find_matching_build_output : SubmissionEntryPatch → BuildOutput → Option BuildOutput
find_matching_build_output patch build_output =
    find? (is_matching_build_output build_output) patch.build_outputs
