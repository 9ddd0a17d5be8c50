-- ===== src/Submissions/Records/Consolidate.antt =====
-- What the consolidation of similar entries keeps: no crash, bundle or pending patch is lost.
use buttercup.Prelude.{
  ℕ, suc, ◌<◌, ◌≡◌, ◌≢◌, refl, sym, ◌∙◌, subst, false, Option, some, List, [], ◌∷◌, ◌++◌, length,
  get_elem?, set, drop, arith, length-set, get_elem?-set_self, get_elem?-set_ne, any, take,
  take-append-drop,
}
use buttercup.Prelude.All.{All}
use mathlib.Core.Path.{subst₂}
use mathlib.Core.List.{append-nil, append_assoc, Perm}
use mathlib.Core.List.Perm
use buttercup.Message.{TracedCrash, CrashWithId, Bundle, SubmissionEntryPatch, SubmissionEntry}
use buttercup.Submissions.Env.{Env}
use buttercup.Submissions.State.{State, persist, enumerate_task_submissions}
use buttercup.Submissions.State.Ascending.{
  Ascending, Ascending-le, filter-Ascending, enumerate_task_submissions-Ascending,
}
use buttercup.Submissions.Entry.{crash_task_id}
use buttercup.Submissions.Patch.{reorder_patches_by_completion}
use buttercup.Submissions.Patch.Reorder.{
  reorder_patches_by_completion-IsStable, crashes-reorder, bundles-reorder, patch_idx-reorder,
  stop-reorder,
}
use buttercup.Submissions.Records.{
  add_crash, stopped, merge_into, merge_sources, find_similar_entries,
  consolidate_similar_submissions, submit_vulnerability,
}
use buttercup.Submissions.Records.Sync.{InRange, find_similar_entries-InRange}

abbrev pub all_crashes : List (ℕ × SubmissionEntry) → List CrashWithId
all_crashes [] = []
all_crashes ((_, e) ∷ es) = e.crashes ++ all_crashes es

abbrev pub all_bundles : List (ℕ × SubmissionEntry) → List Bundle
all_bundles [] = []
all_bundles ((_, e) ∷ es) = e.bundles ++ all_bundles es

-- The patches that an entry has not discarded.
abbrev pub all_pending_patches : List (ℕ × SubmissionEntry) → List SubmissionEntryPatch
all_pending_patches [] = []
all_pending_patches ((_, e) ∷ es) = drop e.patch_idx e.patches ++ all_pending_patches es

-- `e` is `target` with what the sources hold.
pub record IsMerged (target : SubmissionEntry) (sources : List (ℕ × SubmissionEntry))
    (e : SubmissionEntry) : Type 0 where
  pub crashes : e.crashes ≡ target.crashes ++ all_crashes sources
  pub bundles : e.bundles ≡ target.bundles ++ all_bundles sources
  pub patches : Perm e.patches (target.patches ++ all_pending_patches sources)
  pub patch_idx : e.patch_idx ≡ target.patch_idx
  pub stop : e.stop ≡ target.stop

reorder-perm : (e : SubmissionEntry) → Perm (reorder_patches_by_completion e).patches e.patches
reorder-perm e =
    let (prefix, perm, _, _, _) = reorder_patches_by_completion-IsStable e in
    subst₂ (λ xs ys. Perm xs ys)
      (take-append-drop e.patch_idx (reorder_patches_by_completion e).patches)
      (take-append-drop e.patch_idx e.patches)
      (rw prefix (Perm.append_left (take e.patch_idx e.patches) perm))

module _ (env : Env) where
  open env use {Local}

  merge_sources-target :
      (target : SubmissionEntry) (sources : List (ℕ × SubmissionEntry))
      (entries : List SubmissionEntry) (l : Local)
      → let merged = (merge_sources env target sources entries l).0 in
        (merged.crashes ≡ target.crashes ++ all_crashes sources)
        × (merged.bundles ≡ target.bundles ++ all_bundles sources)
        × (merged.patches ≡ target.patches ++ all_pending_patches sources)
        × (merged.patch_idx ≡ target.patch_idx)
        × (merged.stop ≡ target.stop)
  unfolding merge_sources
  merge_sources-target target [] entries l =
      (sym (append-nil _), sym (append-nil _), sym (append-nil _), refl, refl)
  merge_sources-target target ((j, source) ∷ sources) entries l =
      let (c, b, p, i, st) =
        merge_sources-target (merge_into target source) sources (set entries j (stopped source))
          (persist env j (stopped source) l) in
      (
        c ∙ append_assoc target.crashes _ _,
        b ∙ append_assoc target.bundles _ _,
        p ∙ append_assoc target.patches _ _,
        i,
        st,
      )

  -- Only the entries of the sources are written.
  merge_sources-ne :
      (target : SubmissionEntry) (sources : List (ℕ × SubmissionEntry))
      (entries : List SubmissionEntry) (l : Local) (k : ℕ)
      → All (λ p. p.0 ≢ k) sources
      → get_elem? (merge_sources env target sources entries l).1 k ≡ get_elem? entries k
  unfolding merge_sources
  merge_sources-ne target [] entries l k h = refl
  merge_sources-ne target ((j, source) ∷ sources) entries l k h =
      merge_sources-ne (merge_into target source) sources (set entries j (stopped source))
        (persist env j (stopped source) l) k h.1
      ∙ get_elem?-set_ne entries (stopped source) h.0

  Ascending-ne :
      (i k : ℕ) (sources : List (ℕ × SubmissionEntry))
      → k < i
      → Ascending i sources
      → All (λ p. p.0 ≢ k) sources
  Ascending-ne i k [] h a = tt
  Ascending-ne i k (p ∷ ps) h a =
      (λ e. omega (arith, a.0, e), Ascending-ne (suc p.0) k ps (omega (arith, a.0)) a.1)

  merge_sources-stopped :
      (i : ℕ) (target : SubmissionEntry) (sources : List (ℕ × SubmissionEntry))
      (entries : List SubmissionEntry) (l : Local)
      → Ascending i sources
      → InRange env (length entries) sources
      → All
          (λ p. get_elem? (merge_sources env target sources entries l).1 p.0 ≡ some (stopped p.1))
          sources
  unfolding merge_sources
  merge_sources-stopped i target [] entries l a h = tt
  merge_sources-stopped i target ((j, source) ∷ sources) entries l a h =
      let entries' = set entries j (stopped source) in
      let same = length-set entries j (stopped source) in
      (
        merge_sources-ne (merge_into target source) sources entries'
              (persist env j (stopped source) l) j
              (Ascending-ne (suc j) j sources (omega arith) a.1)
            ∙ get_elem?-set_self entries j (stopped source) h.0,
        merge_sources-stopped (suc j) (merge_into target source) sources entries'
            (persist env j (stopped source) l) a.1
            (subst (λ n. InRange env n sources) (sym same) h.1),
      )

  length-merge_sources :
      (target : SubmissionEntry) (sources : List (ℕ × SubmissionEntry))
      (entries : List SubmissionEntry) (l : Local)
      → length (merge_sources env target sources entries l).1 ≡ length entries
  unfolding merge_sources
  length-merge_sources target [] entries l = refl
  length-merge_sources target ((j, source) ∷ sources) entries l =
      length-merge_sources (merge_into target source) sources (set entries j (stopped source))
        (persist env j (stopped source) l)
      ∙ length-set entries j (stopped source)

  -- A write at `i` keeps the sources behind it.
  stopped_behind :
      (i : ℕ) (sources : List (ℕ × SubmissionEntry)) (entries : List SubmissionEntry)
      (e : SubmissionEntry)
      → Ascending (suc i) sources
      → All (λ p. get_elem? entries p.0 ≡ some (stopped p.1)) sources
      → All (λ p. get_elem? (set entries i e) p.0 ≡ some (stopped p.1)) sources
  stopped_behind i [] entries e a h = tt
  stopped_behind i ((j, source) ∷ sources) entries e a h = (
    get_elem?-set_ne entries e (λ q. omega (arith, q, a.0)) ∙ h.0,
    stopped_behind i sources entries e
        (Ascending-le (suc i) (suc j) sources (omega (arith, a.0)) a.1) h.1,
  )

  find_similar_entries-Ascending :
      (crash : TracedCrash) (s : State env) → Ascending 0 (find_similar_entries env crash s)
  unfolding find_similar_entries
  find_similar_entries-Ascending crash s =
      filter-Ascending (λ p. any (λ c. env.is_similar crash c.crash) p.1.crashes) 0
        (enumerate_task_submissions env (crash_task_id crash) s)
        (enumerate_task_submissions-Ascending env (crash_task_id crash) s)

  -- The entry that a consolidation leaves at the target's index.
  abbrev final_entry :
      Option TracedCrash
      → SubmissionEntry
      → List (ℕ × SubmissionEntry)
      → State env
      → SubmissionEntry
  final_entry crash target sources s =
      reorder_patches_by_completion
        (merge_sources env (add_crash crash target) sources s.entries s.local).0

  final_entry-IsMerged :
      (crash : Option TracedCrash) (target : SubmissionEntry) (sources : List (ℕ × SubmissionEntry))
      (s : State env)
      → IsMerged (add_crash crash target) sources (final_entry crash target sources s)
  final_entry-IsMerged crash target sources s =
      let merged : SubmissionEntry =
        (merge_sources env (add_crash crash target) sources s.entries s.local).0 in
      let (c, b, p, i, st) =
        merge_sources-target (add_crash crash target) sources s.entries s.local in
      record {
        crashes = crashes-reorder merged ∙ c;
        bundles = bundles-reorder merged ∙ b;
        patches =
            subst (λ ps. Perm (reorder_patches_by_completion merged).patches ps) p
              (reorder-perm merged);
        patch_idx = patch_idx-reorder merged ∙ i;
        stop = stop-reorder merged ∙ st;
      }

  -- A consolidation of distinct entries.
  module _ (crash : Option TracedCrash) (i : ℕ) (target : SubmissionEntry)
      (sources : List (ℕ × SubmissionEntry)) (s : State env) where
    abbrev consolidated : List SubmissionEntry
    consolidated = (consolidate_similar_submissions env crash (i, target) sources s).entries

    pub length-consolidate : length consolidated ≡ length s.entries
    unfolding consolidate_similar_submissions
    length-consolidate =
        length-set _ i _ ∙ length-merge_sources (add_crash crash target) sources s.entries s.local

    consolidate-at :
        i < length s.entries → get_elem? consolidated i ≡ some (final_entry crash target sources s)
    unfolding consolidate_similar_submissions
    consolidate-at h =
        get_elem?-set_self _ i _
          (omega (arith, length-merge_sources (add_crash crash target) sources s.entries s.local))

    consolidate-ne :
        (k : ℕ)
        → i ≢ k
        → All (λ p. p.0 ≢ k) sources
        → get_elem? consolidated k ≡ get_elem? s.entries k
    unfolding consolidate_similar_submissions
    consolidate-ne k h ne =
        get_elem?-set_ne _ _ h
        ∙ merge_sources-ne (add_crash crash target) sources s.entries s.local k ne

    consolidate-stopped :
        Ascending (suc i) sources
        → InRange env (length s.entries) sources
        → All (λ p. get_elem? consolidated p.0 ≡ some (stopped p.1)) sources
    unfolding consolidate_similar_submissions
    consolidate-stopped a r =
        stopped_behind i sources _ _ a
          (merge_sources-stopped (suc i) (add_crash crash target) sources s.entries s.local a r)

  -- If the new crash is similar to the entries `first` and `others` of an active task, the first
  -- of them gets the crash and what the others hold: their crashes, their bundles and the patches
  -- from their `patch_idx` on, the patches up to their order. The others are stopped and else as
  -- they were, no entry is added, and an entry `k` that is none of them stays as it was.
  pub submit_vulnerability-IsMerged :
      (crash : TracedCrash) (s : State env) (first : ℕ × SubmissionEntry)
      (others : List (ℕ × SubmissionEntry)) (k : ℕ)
      → env.should_stop_processing (crash_task_id crash) s.local ≡ false
      → find_similar_entries env crash s ≡ first ∷ others
      → All (λ p. p.0 ≢ k) (first ∷ others)
      → let after = (submit_vulnerability env crash s).1.entries in
        (e : SubmissionEntry) × (get_elem? after first.0 ≡ some e)
        × IsMerged (add_crash (some crash) first.1) others e
        × All (λ p. get_elem? after p.0 ≡ some (stopped p.1)) others
        × (length after ≡ length s.entries)
        × (get_elem? after k ≡ get_elem? s.entries k)
  unfolding submit_vulnerability
  submit_vulnerability-IsMerged crash s (i, target) others k active similar ne =
      rw (active, submit_vulnerability, similar)
        (
          final_entry (some crash) target others s,
          consolidate-at (some crash) i target others s range.0,
          final_entry-IsMerged (some crash) target others s,
          consolidate-stopped (some crash) i target others s ascending.1 range.1,
          length-consolidate (some crash) i target others s,
          consolidate-ne (some crash) i target others s k ne.0 ne.1,
        )
    where
      range : InRange env (length s.entries) ((i, target) ∷ others)
      range =
          subst (InRange env (length s.entries)) similar (find_similar_entries-InRange env crash s)

      ascending : Ascending 0 ((i, target) ∷ others)
      ascending = subst (Ascending 0) similar (find_similar_entries-Ascending crash s)
