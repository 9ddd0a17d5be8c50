-- ===== src/Submissions/PatchFlow/Safe.antt =====
-- When a patch is sent to the competition, of `_submit_patch_if_good` in
-- orchestrator/src/buttercup/orchestrator/scheduler/submissions.py.
use buttercup.Prelude.{
  ℕ, ◌<◌, ◌≡◌, true, false, some, truthy, get_elem?, arith, ◌⊎◌, inl, inr, leb, length,
  Option-cases, Bool-cases,
}
use buttercup.Prelude.All.{All}
use buttercup.Message.{SubmissionEntry, SubmissionEntryPatch}
use buttercup.Submissions.Env.{Env}
use buttercup.Submissions.State.{Limits, State}
use buttercup.Submissions.Entry.{task_id, current_patch, get_first_successful_pov_id}
use buttercup.Submissions.Pov.{has_text}
use buttercup.Submissions.Patch.{
  check_all_povs_are_mitigated, should_wait_for_patch_mitigation_merge,
}
use buttercup.Submissions.Patch.Mitigated.{check_all_povs_are_mitigated_iff}
use buttercup.Submissions.Patch.Tested.{answers, povs_to_run, povs_to_run-successful, Mitigates}
use buttercup.Submissions.PatchFlow.{submit_checked_patch, submit_patch_if_good}

module _ (env : Env) (limits : Limits) where
  -- What the checks behind the first three guards found.
  record Checked (e : SubmissionEntry) (patch : SubmissionEntryPatch) (s : State env) : Type 0 where
    mitigated : (check_all_povs_are_mitigated env e patch s.local).0 ≡ some true
    unsent : truthy patch.competition_patch_id ≡ false
    attempts : e.patch_submission_attempts < limits.patch_submission_retry_limit

  submit_checked_patch-Checked :
      (i : ℕ) (e : SubmissionEntry) (patch : SubmissionEntryPatch) (s : State env)
      → ((submit_checked_patch env limits i e patch s).1.remote ≡ s.remote) ⊎ Checked e patch s
  unfolding submit_checked_patch should_wait_for_patch_mitigation_merge
  submit_checked_patch-Checked i e patch s = elim (Bool-cases (truthy patch.competition_patch_id)) [
    | inl t ↦ inl (ground arith)
    | inr t ↦
        elim (Bool-cases (leb limits.patch_submission_retry_limit e.patch_submission_attempts)) [
          | inl l ↦ inl (ground arith)
          | inr l ↦ elim (Option-cases (check_all_povs_are_mitigated env e patch s.local).0) [
            | inl m ↦ inl (ground arith)
            | inr (false, m) ↦ inl (ground arith)
            | inr (true, m) ↦ inr (record { mitigated = m; unsent = t; attempts = ground arith })
          ]
        ]
  ]

  -- The patch that may be sent for the entry.
  pub record Submittable (e : SubmissionEntry) (s : State env) : Type 0 where
    pub patch : SubmissionEntryPatch
    pub current : current_patch e ≡ some patch
    pub received : truthy patch.patch ≡ true
    pub unsent : truthy patch.competition_patch_id ≡ false
    pub proved : has_text (get_first_successful_pov_id e) ≡ true
    pub some_run : 0 < length (povs_to_run e.crashes)
    pub mitigated : All Mitigates (answers env (task_id e) patch (povs_to_run e.crashes) s.local)
    pub attempts : e.patch_submission_attempts < limits.patch_submission_retry_limit

  -- Whatever the step does to the entry `i`, it calls the competition only if the entry has a
  -- successful POV, and its current patch was received, was not sent before, and has submission
  -- attempts left; and every POV of the entry but those found failed, too late or inconclusive, which
  -- are not run, was run against the patch and answered not to crash, at least one.
  pub submit_patch_if_good-Submittable :
      (i : ℕ) (e : SubmissionEntry) (s : State env)
      → get_elem? s.entries i ≡ some e
      → ((submit_patch_if_good env limits i s).1.remote ≡ s.remote) ⊎ Submittable e s
  unfolding submit_patch_if_good
  submit_patch_if_good-Submittable i e s at =
      elim (Bool-cases (has_text (get_first_successful_pov_id e))) [
        | inr p ↦ inl (ground arith)
        | inl p ↦ elim (Option-cases (current_patch e)) [
          | inl c ↦ inl (ground arith)
          | inr (patch, c) ↦ elim (Bool-cases (truthy patch.patch)) [
            | inr t ↦ inl (ground arith)
            | inl t ↦ elim (submit_checked_patch-Checked i e patch s) [
              | inl same ↦ inl (ground arith)
              | inr h ↦ inr (record {
                patch = patch;
                current = c;
                received = t;
                unsent = h.unsent;
                proved = p;
                some_run = povs_to_run-successful e p;
                mitigated =
                    (check_all_povs_are_mitigated_iff env e patch s.local).good.0 h.mitigated;
                attempts = h.attempts;
              })
            ]
          ]
        ]
      ]
