-- ===== src/Submissions/PatchStatus.antt =====
-- `_update_patch_status` of orchestrator/src/buttercup/orchestrator/scheduler/submissions.py.
pub mod Advanced
use buttercup.Prelude.{Bool, true, false, ◌||◌, List, [], ◌∷◌, if◌then◌else◌}
use buttercup.Message.{
  SubmissionResult, passed, failed, deadline_exceeded, errored, inconclusive, SubmissionEntryPatch,
  SubmissionEntry,
}
use buttercup.Outcome.{Result, ok, raised}
use buttercup.CompetitionApi.{get_patch_status}
use buttercup.Submissions.Env.{Env}
use buttercup.Submissions.Entry.{
  task_id, advance_patch_idx, increase_submission_attempts, patch_is_pending,
}

-- What a round of the loop leaves: whether it changed something, or raised; the patch; the entry,
-- of which a round writes `patch_idx` and `patch_submission_attempts`.
pub record Round : Type 0 where
  pub updated : Result Bool
  pub patch : SubmissionEntryPatch
  pub entry : SubmissionEntry

module _ (env : Env) where
  open env use {api, assign_none}

  -- `patch.competition_patch_id = None`. Where it raises, the round ends there.
  abbrev clear_patch_id : SubmissionEntryPatch → SubmissionEntry → SubmissionEntry → Round
  clear_patch_id p e e' = elim assign_none [
    | raised ↦ record { updated = raised; patch = p; entry = e }
    | ok text ↦ record {
      updated = ok true;
      patch = record p { competition_patch_id = text };
      entry = e';
    }
  ]

  -- The `match status` on the patch `p`, whose result has been written.
  unfoldable pub on_status : SubmissionResult → SubmissionEntryPatch → SubmissionEntry → Round
  unfolding advance_patch_idx increase_submission_attempts
  on_status passed p e = record { updated = ok true; patch = p; entry = e }
  on_status failed p e = record { updated = ok true; patch = p; entry = advance_patch_idx e }
  on_status inconclusive p e = record { updated = ok true; patch = p; entry = advance_patch_idx e }
  on_status errored p e = clear_patch_id p e (increase_submission_attempts e)
  on_status deadline_exceeded p e = clear_patch_id p e e
  on_status _ p e = record { updated = ok false; patch = p; entry = e }

  -- One round. The pending patches are listed before the loop, but the test of a patch reads only
  -- that patch, and no earlier round writes it.
  unfoldable pub poll_patch :
      SubmissionEntryPatch → SubmissionEntry → api.Remote → Round × api.Remote
  poll_patch p e r =
      if patch_is_pending p
      then (let (answer, r') = get_patch_status api (task_id e) p.competition_patch_id r in
          elim answer [
            | raised ↦ (record { updated = raised; patch = p; entry = e }, r')
            | ok status ↦ (on_status status (record p { result = status }) e, r')
          ])
      else (record { updated = ok false; patch = p; entry = e }, r)

  -- The loop over the patches. `e.patches` is written back at the end, so that it holds the
  -- patches of before while the rounds work on the other fields of `e`.
  unfoldable pub poll_patches :
      List SubmissionEntryPatch
      → SubmissionEntry
      → api.Remote
      → Result Bool × List SubmissionEntryPatch × SubmissionEntry × api.Remote
  poll_patches [] e r = (ok false, [], e, r)
  poll_patches (p ∷ ps) e r =
      let (round, r') = poll_patch p e r in
      let (rest, ps', e', r'') = poll_patches ps round.entry r' in
      elim round.updated [
        | raised ↦ (raised, round.patch ∷ ps, round.entry, r')
        | ok updated ↦ (
          elim rest [ raised ↦ raised | ok more ↦ ok (updated || more) ],
          round.patch ∷ ps',
          e',
          r'',
        )
      ]

  unfoldable pub update_patch_status :
      SubmissionEntry → api.Remote → Result Bool × SubmissionEntry × api.Remote
  update_patch_status e r =
      let (answer, ps, e', r') = poll_patches e.patches e r in
      (answer, record e' { patches = ps }, r')
