-- ===== src/Submissions/Cycle.antt =====
-- `process_cycle` and `_merge_entries_by_patch_mitigation` of
-- orchestrator/src/buttercup/orchestrator/scheduler/submissions.py.
pub mod Advance
pub mod Steps
pub mod Submit
pub mod Process
pub mod Loop
use buttercup.Prelude.{
  ℕ, zero, suc, Bool, true, false, not, ◌&&◌, ◌||◌, Option, none, some, List, [], ◌∷◌, ◌++◌, length,
  get_elem?, all, any, ◌==◌, str_eq, truthy, if◌then◌else◌,
}
use buttercup.Message.{SubmissionEntryPatch, SubmissionEntry}
use buttercup.Outcome.{Result, ok, raised}
use buttercup.Submissions.Env.{Env, lset}
use buttercup.Submissions.State.{Limits, State, M, run_commands, is_active, on_entry}
use buttercup.Submissions.Entry.{task_id, current_patch}
use buttercup.Submissions.Pov.{is_nonempty, submit_pov_if_needed, update_pov_status}
use buttercup.Submissions.Patch.{is_mitigated_status, pov_reproduce_patch_status}
use buttercup.Submissions.PatchFlow.{
  request_patch_if_needed, request_patched_builds_if_needed, submit_patch_if_good,
}
use buttercup.Submissions.PatchStatus.{update_patch_status}
use buttercup.Submissions.Bundles.{
  ensure_single_bundle, ensure_patch_is_bundled, ensure_sarif_is_bundled, confirm_matched_sarifs,
}
use buttercup.Submissions.Records.{consolidate_similar_submissions}

module _ (env : Env) (limits : Limits) where
  open env use {Local, api}

  -- The ten steps of a cycle on the entry `i`, in order.
  unfoldable pub steps : ℕ → List (M env Bool)
  steps i =
      confirm_matched_sarifs env i
      ∷ ensure_sarif_is_bundled env i
      ∷ on_entry env (ensure_patch_is_bundled api) i
      ∷ on_entry env (update_patch_status env) i
      ∷ request_patch_if_needed env limits i
      ∷ request_patched_builds_if_needed env limits i
      ∷ submit_patch_if_good env limits i
      ∷ on_entry env (update_pov_status api) i
      ∷ on_entry env (submit_pov_if_needed api) i
      ∷ on_entry env (ensure_single_bundle api) i
      ∷ []

  -- Runs the steps, and tells whether one of them needs the entry to be written. An exception
  -- skips the rest.
  unfoldable pub run_steps : List (M env Bool) → Bool → M env Bool
  run_steps [] needs_persist s = (ok needs_persist, s)
  run_steps (step ∷ rest) needs_persist s =
      let (answer, s') = step s in
      elim answer [
        | raised ↦ (raised, s')
        | ok needed ↦ run_steps rest (needs_persist || needed) s'
      ]

  -- The pipeline is executed with the entry's write at its end, or dropped: if nothing has to be
  -- written, or if a step raised.
  unfoldable pub finish_entry : ℕ → Result Bool × State env → State env
  finish_entry i (raised, s) = record s { pipeline = [] }
  finish_entry i (ok false, s) = record s { pipeline = [] }
  finish_entry i (ok true, s) = elim (get_elem? s.entries i) [
    | none ↦ record s { pipeline = [] }
    | some e ↦ record s {
      local = run_commands env (s.pipeline ++ lset i e ∷ []) s.local;
      pipeline = [];
    }
  ]

  -- The body of the loop of `process_cycle`, with the test of `_enumerate_submissions`.
  unfoldable pub process_entry : ℕ → State env → State env
  unfolding run_steps finish_entry steps
  process_entry i s = elim (get_elem? s.entries i) [
    | none ↦ s
    | some e ↦
        if is_active env s.local e
        then finish_entry i (run_steps (steps i) false (record s { pipeline = [] }))
        else s
  ]

  -- The loop over the indices from `i` on, `n` of them.
  unfoldable pub process_from : ℕ → ℕ → State env → State env
  process_from zero i s = s
  process_from (suc n) i s = process_from n (suc i) (process_entry i s)

  -- The patch that other entries' POVs are run against: received, and with all its builds done.
  abbrev pub built_patch : SubmissionEntry → Option SubmissionEntryPatch
  built_patch e = elim (current_patch e) [
    | none ↦ none
    | some p ↦
        if truthy p.patch
          && is_nonempty p.build_outputs
          && all (λ b. truthy b.task_dir) p.build_outputs
        then some p
        else none
  ]

  -- The inner loop, over the indices from `j` on: the entries to merge into `i`.
  unfoldable pub collect_from :
      ℕ
      → SubmissionEntry
      → SubmissionEntryPatch
      → ℕ
      → List SubmissionEntry
      → Local
      → List (ℕ × SubmissionEntry) × Local
  unfolding current_patch
  collect_from i e patch j [] l = ([], l)
  collect_from i e patch j (e2 ∷ es) l =
      let skipped = not (is_active env l e2) || not (str_eq (task_id e2) (task_id e)) || (i == j) in
      let (statuses, asked) = pov_reproduce_patch_status env patch e2.crashes (task_id e) l in
      let (others, l') = collect_from i e patch (suc j) es (if skipped then l else asked) in
      (if not skipped && any is_mitigated_status statuses then (j, e2) ∷ others else others, l')

  -- The body of the loop of `_merge_entries_by_patch_mitigation`.
  unfoldable pub merge_entry : ℕ → State env → State env
  unfolding current_patch
  merge_entry i s = elim (get_elem? s.entries i) [
    | none ↦ s
    | some e ↦
        if is_active env s.local e
        then elim (built_patch e) [
          | none ↦ s
          | some patch ↦
              let (sources, l) = collect_from i e patch 0 s.entries s.local in
              let s' : State env = record s { local = l } in
              elim sources [
                | [] ↦ s'
                | first ∷ others ↦
                    consolidate_similar_submissions env none (i, e) (first ∷ others) s'
              ]
        ]
        else s
  ]

  unfoldable pub merge_from : ℕ → ℕ → State env → State env
  merge_from zero i s = s
  merge_from (suc n) i s = merge_from n (suc i) (merge_entry i s)

  unfoldable pub merge_entries_by_patch_mitigation : State env → State env
  unfolding merge_from
  merge_entries_by_patch_mitigation s = merge_from (length s.entries) 0 s

  unfoldable pub process_cycle : State env → State env
  unfolding process_from merge_entries_by_patch_mitigation
  process_cycle s = merge_entries_by_patch_mitigation (process_from (length s.entries) 0 s)
