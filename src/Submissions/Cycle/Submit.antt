-- ===== src/Submissions/Cycle/Submit.antt =====
-- The steps that request patched builds and that submit a patch let their entry advance.
use buttercup.Prelude.{
  ℕ, ◌≡◌, refl, ◌∙◌, Bool, true, false, not, ◌||◌, Option, some, List, map, get_elem?, String, leb,
  truthy, ◌++◌,
}
use buttercup.Prelude.Branch.{if_ind, bool_ind, option_ind, option_ind_eq}
use buttercup.Prelude.All.{All-map}
use buttercup.Message.{SubmissionResult, SubmissionEntry, SubmissionEntryPatch, BuildOutput}
use buttercup.Outcome.{Result, ok, raised, result_ind}
use buttercup.CompetitionApi.{submit_patch}
use buttercup.Submissions.Env.{Env, Project, xadd_build}
use buttercup.Submissions.State.{Limits, State, put_entry}
use buttercup.Submissions.Entry.{task_id, current_patch, advance_patch_idx}
use buttercup.Submissions.Pov.{is_nonempty}
use buttercup.Submissions.Patch.{
  check_all_povs_are_mitigated, should_wait_for_patch_mitigation_merge,
}
use buttercup.Submissions.PatchFlow.{
  build_placeholder, build_request, request_builds, request_patched_builds_if_needed,
  submit_checked_patch, submit_patch_if_good, record_submission, choose_engine,
}
use buttercup.Submissions.Evolves.Steps.{
  advance_patch_idx-Evolves, record_submission-Evolves, set-Evolves, current_patch-at,
}
use buttercup.Submissions.Cycle.Advance.{IsPush, IsStep, Advances-write}
use buttercup.Submissions.Cycle.Steps.{
  Leaves, leave, Leaves-IsStep, stay, lrange-check_all, lrange-should_wait,
}

module _ (env : Env) (limits : Limits) (i : ℕ) where
  open env use {Local, lrange}

  request_builds-Leaves :
      (s : State env) (e : SubmissionEntry) (patch : SubmissionEntryPatch) (project : Project)
      (engine : String)
      → current_patch e ≡ some patch
      → Leaves env i e s (ok true, request_builds env limits i e patch project engine s)
  request_builds-Leaves s e patch project engine c =
      let placeholders : List BuildOutput =
        map (build_placeholder (task_id e) engine patch.internal_patch_id) project.sanitizers in
      leave env i e s _ (record {
        after = _;
        entries = refl;
        evolves =
            set-Evolves e e.patch_idx patch
              (record patch { build_outputs = patch.build_outputs ++ placeholders })
              (current_patch-at e patch c) refl;
        stored = refl;
        added = map (λ bo. xadd_build (build_request project.task_dir patch.patch bo)) placeholders;
        pipeline = refl;
        pushes = All-map IsPush _ placeholders (λ _. tt);
      })

  pub request_patched_builds_if_needed-IsStep :
      IsStep env i (request_patched_builds_if_needed env limits i)
  unfolding request_patched_builds_if_needed
  request_patched_builds_if_needed-IsStep = Leaves-IsStep env i _ λ s e at.
      let P = Leaves env i e s in
      let same : (b : Result Bool) → P (b, s) = λ b. stay env i s e at b s.remote s.local refl in
      option_ind_eq P (current_patch e) (λ _. same (ok false))
        λ (patch : SubmissionEntryPatch) c.
          if_ind P (not (truthy patch.patch) || is_nonempty patch.build_outputs) (same (ok false)) (
            result_ind P (env.read_project (task_id e) s.local) (same raised) λ (project : Project).
              result_ind P (choose_engine project.fuzzing_engines) (same raised)
                λ (engine : String). request_builds-Leaves s e patch project engine c)

  -- What the check and the wait leave, and then a write of the entry.
  module _ (s : State env) (e : SubmissionEntry) (patch : SubmissionEntryPatch)
      (at : get_elem? s.entries i ≡ some e) (c : current_patch e ≡ some patch) where
    abbrev checked : State env
    checked = record s { local = (check_all_povs_are_mitigated env e patch s.local).1 }

    abbrev waited_after : State env
    waited_after = (should_wait_for_patch_mitigation_merge env i e checked).1

    submit_checked_patch-Leaves : Leaves env i e s (submit_checked_patch env limits i e patch s)
    unfolding submit_checked_patch should_wait_for_patch_mitigation_merge
    submit_checked_patch-Leaves =
        option_ind P (check_all_povs_are_mitigated env e patch s.local).0 unchanged λ (b : Bool).
          bool_ind P b
            (if_ind P (truthy patch.competition_patch_id) unchanged (
              if_ind P (should_wait_for_patch_mitigation_merge env i e checked).0
                (after_wait (ok false))
                (if_ind P (leb limits.patch_submission_retry_limit e.patch_submission_attempts)
                  (leave env i e s (ok true, put_entry env i (advance_patch_idx e) waited_after)
                    (Advances-write env i e s at (advance_patch_idx e) waited_after.local s.remote
                      (advance_patch_idx-Evolves e) waited_list))
                  (result_ind P answer.0
                    (stay env i s e at raised answer.1 waited_after.local waited_list)
                    λ (reply : Option String × SubmissionResult).
                      leave env i e s
                        (
                          ok true,
                          put_entry env i (record_submission e.patch_idx patch reply e)
                              (record waited_after { remote = answer.1 }),
                        )
                        (Advances-write env i e s at (record_submission e.patch_idx patch reply e)
                          waited_after.local answer.1
                          (record_submission-Evolves e e.patch_idx patch reply
                            (current_patch-at e patch c))
                          waited_list)))))
            (leave env i e s (ok true, put_entry env i (advance_patch_idx e) checked)
              (Advances-write env i e s at (advance_patch_idx e) checked.local s.remote
                (advance_patch_idx-Evolves e) checked_list))
      where
        P : Result Bool × State env → Type 0
        P = Leaves env i e s

        answer : Result (Option String × SubmissionResult) × env.api.Remote
        answer = submit_patch env.api (task_id e) patch.patch waited_after.remote

        checked_list : lrange checked.local ≡ lrange s.local
        checked_list = lrange-check_all env e patch s.local

        waited_list : lrange waited_after.local ≡ lrange s.local
        waited_list = lrange-should_wait env i e checked ∙ checked_list

        unchanged : P (ok false, checked)
        unchanged = stay env i s e at (ok false) s.remote checked.local checked_list

        after_wait : (b : Result Bool) → P (b, waited_after)
        after_wait b = stay env i s e at b s.remote waited_after.local waited_list

  pub submit_patch_if_good-IsStep : IsStep env i (submit_patch_if_good env limits i)
  unfolding submit_patch_if_good
  submit_patch_if_good-IsStep = Leaves-IsStep env i _ λ s e at.
      let P = Leaves env i e s in
      let same : P (ok false, s) = stay env i s e at (ok false) s.remote s.local refl in
      if_ind P _
        (option_ind_eq P (current_patch e) (λ _. same)
          λ (patch : SubmissionEntryPatch) c.
            if_ind P (truthy patch.patch) (submit_checked_patch-Leaves s e patch at c) same)
        same
