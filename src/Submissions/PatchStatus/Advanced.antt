-- ===== src/Submissions/PatchStatus/Advanced.antt =====
-- What polling the patches of an entry does to the patches and to `patch_idx`, of
-- `_update_patch_status` in orchestrator/src/buttercup/orchestrator/scheduler/submissions.py.
use buttercup.Prelude.{
  ℕ, Bool-cases, inl, inr, ◌+◌, ◌≡◌, refl, Bool, true, ◌&&◌, ◌||◌, List, [], ◌∷◌, length, filter,
  arith, truthy, if◌then◌else◌,
}
use buttercup.Message.{
  SubmissionResult, passed, failed, deadline_exceeded, errored, inconclusive, accepted, result_eq,
  SubmissionEntryPatch, SubmissionEntry,
}
use buttercup.Prelude.Branch.{if_ind_eq}
use buttercup.Outcome.{Result, result_ind}
use buttercup.CompetitionApi.{get_patch_status}
use buttercup.Submissions.Env.{Env}
use buttercup.Submissions.Entry.{
  task_id, advance_patch_idx, increase_submission_attempts, patch_is_pending,
}
use buttercup.Submissions.PatchStatus.{
  Round, on_status, poll_patch, poll_patches, update_patch_status,
}

-- The server turned the patch down.
abbrev pub is_turned_down : SubmissionEntryPatch → Bool
is_turned_down p =
    truthy p.competition_patch_id && (result_eq p.result failed || result_eq p.result inconclusive)

abbrev pub count_turned_down : List SubmissionEntryPatch → ℕ
count_turned_down ps = length (filter is_turned_down ps)

module _ (env : Env) where
  open env use {api, assign_none}

  on_status-idx :
      (status : SubmissionResult) (p : SubmissionEntryPatch) (e : SubmissionEntry)
      → p.result ≡ status
      → truthy p.competition_patch_id ≡ true
      → (on_status env status p e).entry.patch_idx
        ≡ (if is_turned_down (on_status env status p e).patch then e.patch_idx + 1 else e.patch_idx)
  unfolding on_status advance_patch_idx increase_submission_attempts
  on_status-idx SubmissionResult.none p e h t = ground arith
  on_status-idx accepted p e h t = ground arith
  on_status-idx passed p e h t = ground arith
  on_status-idx failed p e h t = ground arith
  on_status-idx inconclusive p e h t = ground arith
  on_status-idx errored p e h t = ground arith
  on_status-idx deadline_exceeded p e h t = ground arith

  -- For the rules of branching terms: `patch_idx` has grown with the patch.
  record LeavesIdx (p : SubmissionEntryPatch) (e : SubmissionEntry) (out : Round × api.Remote)
      : Type 0 where
    idx :
        out.0.entry.patch_idx + (if is_turned_down p then 1 else 0)
        ≡ e.patch_idx + (if is_turned_down out.0.patch then 1 else 0)

  on_status-LeavesIdx :
      (p : SubmissionEntryPatch) (e : SubmissionEntry) (r : api.Remote) (status : SubmissionResult)
      → patch_is_pending p ≡ true
      → LeavesIdx p e (on_status env status (record p { result = status }) e, r)
  on_status-LeavesIdx p e r status h = record {
    idx = ground (arith, on_status-idx status (record p { result = status }) e refl);
  }

  poll_patch-LeavesIdx :
      (p : SubmissionEntryPatch) (e : SubmissionEntry) (r : api.Remote)
      → LeavesIdx p e (poll_patch env p e r)
  unfolding poll_patch
  poll_patch-LeavesIdx p e r =
      let P = LeavesIdx p e in
      if_ind_eq P (patch_is_pending p)
        (λ h.
          result_ind P (get_patch_status api (task_id e) p.competition_patch_id r).0
            (record { idx = refl })
            λ (status : SubmissionResult).
              on_status-LeavesIdx p e (get_patch_status api (task_id e) p.competition_patch_id r).1
                status h)
        (λ _. record { idx = refl })

  record LeavesSum (ps : List SubmissionEntryPatch) (e : SubmissionEntry)
      (out : Result Bool × List SubmissionEntryPatch × SubmissionEntry × api.Remote) : Type 0 where
    sum : out.2.patch_idx + count_turned_down ps ≡ e.patch_idx + count_turned_down out.1

  count-cons :
      (p : SubmissionEntryPatch) (ps : List SubmissionEntryPatch)
      → count_turned_down (p ∷ ps) ≡ (if is_turned_down p then 1 else 0) + count_turned_down ps
  count-cons p ps = elim (Bool-cases (is_turned_down p)) [
    | inl t ↦ rw t (omega arith)
    | inr t ↦ rw t (omega arith)
  ]

  -- One patch is polled, and those behind it stay or are polled too.
  poll_cons :
      (p p' : SubmissionEntryPatch) (ps ps' : List SubmissionEntryPatch) (i j k : ℕ)
      → j + (if is_turned_down p then 1 else 0) ≡ i + (if is_turned_down p' then 1 else 0)
      → k + count_turned_down ps ≡ j + count_turned_down ps'
      → k + count_turned_down (p ∷ ps) ≡ i + count_turned_down (p' ∷ ps')
  poll_cons p p' ps ps' i j k h g = rw (count-cons p ps, count-cons p' ps') (omega (arith, h, g))

  poll_patches-LeavesSum :
      (ps : List SubmissionEntryPatch) (e : SubmissionEntry) (r : api.Remote)
      → LeavesSum ps e (poll_patches env ps e r)
  unfolding poll_patches
  poll_patches-LeavesSum [] e r = record { sum = refl }
  poll_patches-LeavesSum (p ∷ ps) e r =
      let round = (poll_patch env p e r).0 in
      let r' = (poll_patch env p e r).1 in
      let h = (poll_patch-LeavesIdx p e r).idx in
      let P = LeavesSum (p ∷ ps) e in
      result_ind P round.updated
        (record {
          sum =
              poll_cons p round.patch ps ps e.patch_idx round.entry.patch_idx round.entry.patch_idx
                h refl;
        })
        λ (updated : Bool). record {
          sum =
              poll_cons p round.patch ps (poll_patches env ps round.entry r').1 e.patch_idx
                round.entry.patch_idx (poll_patches env ps round.entry r').2.patch_idx h
                (poll_patches-LeavesSum ps round.entry r').sum;
        }

  -- After a call `patch_idx` has grown by exactly the number of patches that the server turned down in
  -- this call, as FAILED or INCONCLUSIVE, whichever patches they are and also if a later call raises.
  pub update_patch_status-idx :
      (e : SubmissionEntry) (r : api.Remote)
      → let after = (update_patch_status env e r).1 in
        after.patch_idx + count_turned_down e.patches
        ≡ e.patch_idx + count_turned_down after.patches
  unfolding update_patch_status
  update_patch_status-idx e r = (poll_patches-LeavesSum e.patches e r).sum
