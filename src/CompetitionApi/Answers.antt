-- ===== src/CompetitionApi/Answers.antt =====
-- What the answers of `CompetitionAPI` promise to its callers.
use buttercup.Prelude.{◌≡◌, true, false, Option, none, some, String, arith}
use buttercup.Message.{SubmissionResult, TracedCrash}
use buttercup.Outcome.{Result, ok, raised}
use buttercup.CompetitionApi.{is_accepted_or_passed, submit_pov, submit_patch, submit_bundle}
use buttercup.CompetitionApi.Client.{ApiClient}

abbrev pub IsConsistent : Option String × SubmissionResult → Type 0
IsConsistent (none, status) = is_accepted_or_passed status ≡ false
IsConsistent (some id, status) = is_accepted_or_passed status ≡ true

abbrev pub IsConsistentResult : Result (Option String × SubmissionResult) → Type 0
IsConsistentResult (ok answer) = IsConsistent answer
IsConsistentResult raised = Unit

module _ (c : ApiClient) where
  open c use {Remote}

  pub submit_pov-IsConsistent :
      (crash : TracedCrash) (r : Remote) → IsConsistent (submit_pov c crash r).0
  unfolding submit_pov
  submit_pov-IsConsistent crash r = ground arith

  pub submit_patch-IsConsistent :
      (task_id patch : String) (r : Remote) → IsConsistentResult (submit_patch c task_id patch r).0
  unfolding submit_patch
  submit_patch-IsConsistent task_id patch r = ground arith

  pub submit_bundle-IsConsistent :
      (task_id pov_id patch_id sarif_id : String) (r : Remote)
      → IsConsistentResult (submit_bundle c task_id pov_id patch_id sarif_id r).0
  unfolding submit_bundle
  submit_bundle-IsConsistent task_id pov_id patch_id sarif_id r = ground arith

  -- For every server: an answer of `submit_pov`, and one of `submit_patch` and of `submit_bundle` that
  -- did not raise, has an id exactly if its status is ACCEPTED or PASSED.
  pub answers-IsConsistent :
      (crash : TracedCrash) (task_id patch pov_id patch_id sarif_id : String) (r : Remote)
      → IsConsistent (submit_pov c crash r).0
        × IsConsistentResult (submit_patch c task_id patch r).0
        × IsConsistentResult (submit_bundle c task_id pov_id patch_id sarif_id r).0
  answers-IsConsistent crash task_id patch pov_id patch_id sarif_id r = (
    submit_pov-IsConsistent crash r,
    submit_patch-IsConsistent task_id patch r,
    submit_bundle-IsConsistent task_id pov_id patch_id sarif_id r,
  )
