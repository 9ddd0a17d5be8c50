-- ===== src/Submissions/Records.antt =====
-- The entry points of `Submissions` that other components call, and the consolidation of entries, of
-- orchestrator/src/buttercup/orchestrator/scheduler/submissions.py. They return True on every path
-- that does not raise.
pub mod Find
pub mod Sync
pub mod Consolidate
pub mod Events
use buttercup.Prelude.{
  ℕ, suc, ◌-◌, String, Bool, true, false, not, ◌||◌, Option, none, some, List, [], ◌∷◌, ◌++◌,
  length, get_elem?, set, drop, filter, any, ◌==◌, str_eq, truthy, if◌then◌else◌,
}
use buttercup.Message.{
  SubmissionResult, BuildOutput, TracedCrash, CrashWithId, Patch, SubmissionEntryPatch,
  SubmissionEntry,
}
use buttercup.Outcome.{ok, raised}
use buttercup.Submissions.Env.{Env}
use buttercup.Submissions.State.{
  State, M, enumerate_submissions, enumerate_task_submissions, persist,
}
use buttercup.Submissions.Entry.{
  crash_task_id, is_matching_build_output, find_matching_build_output,
}
use buttercup.Submissions.Patch.{reorder_patches_by_completion, patch_tracker}

-- The position of the first element that passes the test.
abbrev pub position {ℓ} : {A : Type ℓ} → (A → Bool) → List A → ℕ
position p [] = 0
position p (x ∷ xs) = if p x then 0 else suc (position p xs)

-- `_find_patch`: the index of the entry, the entry, the place of the patch in it and the patch.
pub record Found : Type 0 where
  pub index : ℕ
  pub entry : SubmissionEntry
  pub place : ℕ
  pub patch : SubmissionEntryPatch

abbrev pub has_internal_id : String → SubmissionEntryPatch → Bool
has_internal_id id p = str_eq p.internal_patch_id id

unfoldable pub find_patch_in : String → List (ℕ × SubmissionEntry) → Option Found
find_patch_in id [] = none
find_patch_in id ((i, e) ∷ es) =
    let k = position (has_internal_id id) e.patches in
    let rest = find_patch_in id es in
    elim (get_elem? e.patches k) [
      | none ↦ rest
      | some p ↦ some (record { index = i; entry = e; place = k; patch = p })
    ]

abbrev pub new_crash : TracedCrash → CrashWithId
new_crash crash = record { crash = crash; competition_pov_id = ""; result = SubmissionResult.none }

-- The new crash, if there is one, goes to the target.
abbrev pub add_crash : Option TracedCrash → SubmissionEntry → SubmissionEntry
add_crash none target = target
add_crash (some crash) target = record target { crashes = target.crashes ++ new_crash crash ∷ [] }

abbrev pub new_entry : TracedCrash → SubmissionEntry
new_entry crash = record {
  stop = false;
  crashes = new_crash crash ∷ [];
  bundles = [];
  patches = [];
  patch_idx = 0;
  patch_submission_attempts = 0;
}

-- What the merge of a source leaves of the target.
unfoldable pub merge_into : SubmissionEntry → SubmissionEntry → SubmissionEntry
merge_into target source = record target {
  crashes = target.crashes ++ source.crashes;
  patches = target.patches ++ drop source.patch_idx source.patches;
  bundles = target.bundles ++ source.bundles;
}

abbrev pub stopped : SubmissionEntry → SubmissionEntry
stopped e = record e { stop = true }

-- The patch of `record_patch` written into the entry that asked for it.
unfoldable pub add_patch : String → Patch → Found → SubmissionEntry
unfolding reorder_patches_by_completion
add_patch new_id patch f =
    let e = f.entry in
    let patches =
      if truthy f.patch.patch
      then e.patches ++ record (patch_tracker new_id) { patch = patch.patch } ∷ []
      else set e.patches f.place (record f.patch { patch = patch.patch }) in
    reorder_patches_by_completion (record e { patches = patches })

module _ (env : Env) where
  open env use {Local, should_stop_processing, is_similar, uuid4, rpush}

  unfoldable pub find_patch : String → State env → Option Found
  unfolding find_patch_in enumerate_submissions
  find_patch id s = find_patch_in id (enumerate_submissions env s)

  unfoldable pub find_similar_entries : TracedCrash → State env → List (ℕ × SubmissionEntry)
  unfolding enumerate_task_submissions
  find_similar_entries crash s =
      filter (λ p. any (λ c. is_similar crash c.crash) p.1.crashes)
        (enumerate_task_submissions env (crash_task_id crash) s)

  -- The loop over the sources: the target with all of them merged into it, the entries with the
  -- sources stopped, and the writes of the sources on the pipeline.
  unfoldable pub merge_sources :
      SubmissionEntry
      → List (ℕ × SubmissionEntry)
      → List SubmissionEntry
      → Local
      → SubmissionEntry × List SubmissionEntry × Local
  unfolding merge_into
  merge_sources target [] entries l = (target, entries, l)
  merge_sources target ((j, source) ∷ sources) entries l =
      merge_sources (merge_into target source) sources (set entries j (stopped source))
        (persist env j (stopped source) l)

  -- `_consolidate_similar_submissions` into the entry `i`. The pipeline is the method's own.
  unfoldable pub consolidate_similar_submissions :
      Option TracedCrash → ℕ × SubmissionEntry → List (ℕ × SubmissionEntry) → State env → State env
  unfolding merge_sources reorder_patches_by_completion
  consolidate_similar_submissions crash (i, target) sources s =
      let (merged, entries, l) = merge_sources (add_crash crash target) sources s.entries s.local in
      let final = reorder_patches_by_completion merged in
      record s { entries = set entries i final; local = persist env i final l }

  unfoldable pub submit_vulnerability : TracedCrash → M env Bool
  submit_vulnerability crash s =
      if should_stop_processing (crash_task_id crash) s.local
      then (ok true, s)
      else elim (find_similar_entries crash s) [
        | first ∷ others ↦ (ok true, consolidate_similar_submissions (some crash) first others s)
        | [] ↦
            let e = new_entry crash in
            let (pushed, l) = rpush e s.local in
            if pushed - 1 == length s.entries
            then (ok true, record s { entries = s.entries ++ e ∷ []; local = l })
            else (raised, record s { local = l })
      ]

  unfoldable pub record_patch : Patch → State env → State env
  unfolding find_patch add_patch
  record_patch patch s = elim (find_patch patch.internal_patch_id s) [
    | none ↦ s
    | some f ↦
        let (id, l') = uuid4 s.local in
        let l = if truthy f.patch.patch then l' else s.local in
        let e = add_patch id patch f in
        record s { entries = set s.entries f.index e; local = persist env f.index e l }
  ]

  unfoldable pub record_patched_build : BuildOutput → State env → State env
  unfolding find_patch find_matching_build_output
  record_patched_build build_output s = elim (find_patch build_output.internal_patch_id s) [
    | none ↦ s
    | some f ↦ elim (find_matching_build_output f.patch build_output) [
      | none ↦ s
      | some bo ↦
          if truthy bo.task_dir || not (str_eq bo.task_id build_output.task_id)
          then s
          else (let outputs =
                set f.patch.build_outputs
                  (position (is_matching_build_output build_output) f.patch.build_outputs)
                  (record bo { task_dir = build_output.task_dir }) in
              let e = record f.entry {
                patches = set f.entry.patches f.place (record f.patch { build_outputs = outputs });
              } in
              record s { entries = set s.entries f.index e; local = persist env f.index e s.local })
    ]
  ]
