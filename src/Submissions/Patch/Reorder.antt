-- ===== src/Submissions/Patch/Reorder.antt =====
-- `_reorder_patches_by_completion`: what it keeps, and the order that it brings about.
use buttercup.Prelude.{
  ◌≤◌, ◌<◌, ◌≡◌, refl, Bool, true, false, not, ◌&&◌, ◌||◌, none, some, List, [], ◌∷◌, ◌++◌, length,
  take, drop, filter, any, arith, inl, inr, Option-cases, get_elem?-none,
}
use buttercup.Prelude.Filters.{
  take-take_append, drop-take_append, drop_all, filter-append, filter-filter, reject, filter-reject,
  reject-filter, reject-reject, reject-append, filter-append-reject-perm,
}
use mathlib.Core.List.{Perm, append-nil}
use buttercup.Message.{SubmissionEntryPatch, SubmissionEntry}
use buttercup.Submissions.Entry.{current_patch}
use buttercup.Submissions.Patch.{has_content, reorder_patches_by_completion}

-- No patch with content stands behind one without.
abbrev pub completed_first : List SubmissionEntryPatch → Bool
completed_first [] = true
completed_first (p ∷ ps) = (has_content p || not (any has_content ps)) && completed_first ps

completed_first-reject :
    (ps : List SubmissionEntryPatch)
    → (any has_content (reject has_content ps) ≡ false)
      × (completed_first (reject has_content ps) ≡ true)
completed_first-reject [] = (refl, refl)
completed_first-reject (p ∷ ps) = ground (arith, completed_first-reject ps)

completed_first-split :
    (ps qs : List SubmissionEntryPatch)
    → completed_first qs ≡ true
    → completed_first (filter has_content ps ++ qs) ≡ true
completed_first-split [] qs h = h
completed_first-split (p ∷ ps) qs h = ground (arith, completed_first-split ps qs)

pub current_patch-none :
    (e : SubmissionEntry) → current_patch e ≡ none → length e.patches ≤ e.patch_idx
unfolding current_patch
current_patch-none e h = ground (arith, get_elem?-none e.patches e.patch_idx)

pub current_patch-lt :
    (e : SubmissionEntry) {p : SubmissionEntryPatch}
    → current_patch e ≡ some p
    → e.patch_idx < length e.patches
unfolding current_patch
current_patch-lt e h = ground arith

-- The patches behind `patch_idx`, those with content moved forward.
abbrev sorted_pending : SubmissionEntry → List SubmissionEntryPatch
sorted_pending e =
    let pending = drop e.patch_idx e.patches in
    filter has_content pending ++ reject has_content pending

pub take-reorder :
    (e : SubmissionEntry)
    → take e.patch_idx (reorder_patches_by_completion e).patches ≡ take e.patch_idx e.patches
unfolding reorder_patches_by_completion
take-reorder e = elim (Option-cases (current_patch e)) [
  | inl h ↦ rw (h, reorder_patches_by_completion)
  | inr (p, h) ↦
      rw (h, reorder_patches_by_completion)
        (take-take_append e.patch_idx e.patches (sorted_pending e)
          (omega (arith, current_patch-lt e h)))
]

pub drop-reorder :
    (e : SubmissionEntry)
    → drop e.patch_idx (reorder_patches_by_completion e).patches ≡ sorted_pending e
unfolding reorder_patches_by_completion
drop-reorder e = elim (Option-cases (current_patch e)) [
  | inl h ↦
      rw (h, reorder_patches_by_completion, drop_all e.patch_idx e.patches (current_patch-none e h))
  | inr (p, h) ↦
      rw (h, reorder_patches_by_completion)
        (drop-take_append e.patch_idx e.patches (sorted_pending e)
          (omega (arith, current_patch-lt e h)))
]

filter-sorted_pending :
    (ps : List SubmissionEntryPatch)
    → filter has_content (filter has_content ps ++ reject has_content ps) ≡ filter has_content ps
filter-sorted_pending ps =
    simp
      (filter-append has_content, filter-filter has_content, filter-reject has_content, append-nil)

reject-sorted_pending :
    (ps : List SubmissionEntryPatch)
    → reject has_content (filter has_content ps ++ reject has_content ps) ≡ reject has_content ps
reject-sorted_pending ps =
    simp (reject-append has_content, reject-filter has_content, reject-reject has_content)

-- The patches before `patch_idx` stay as they are. Those from there on are a permutation of what
-- stood there, in which no patch without content stands before one with content, and in which the
-- patches of each of the two kinds keep their order.
pub reorder_patches_by_completion-IsStable :
    (e : SubmissionEntry)
    → let pending = drop e.patch_idx e.patches in
      let reordered = drop e.patch_idx (reorder_patches_by_completion e).patches in
      (take e.patch_idx (reorder_patches_by_completion e).patches ≡ take e.patch_idx e.patches)
      × Perm reordered pending
      × (completed_first reordered ≡ true)
      × (filter has_content reordered ≡ filter has_content pending)
      × (reject has_content reordered ≡ reject has_content pending)
reorder_patches_by_completion-IsStable e =
    let pending = drop e.patch_idx e.patches in
    rw drop-reorder (
      take-reorder e,
      filter-append-reject-perm has_content pending,
      completed_first-split pending (reject has_content pending) (completed_first-reject pending).1,
      filter-sorted_pending pending,
      reject-sorted_pending pending,
    )

-- Nothing but the order of the patches changes.
module _ (e : SubmissionEntry) where
  pub crashes-reorder : (reorder_patches_by_completion e).crashes ≡ e.crashes
  unfolding reorder_patches_by_completion
  crashes-reorder = ground arith

  pub bundles-reorder : (reorder_patches_by_completion e).bundles ≡ e.bundles
  unfolding reorder_patches_by_completion
  bundles-reorder = ground arith

  pub patch_idx-reorder : (reorder_patches_by_completion e).patch_idx ≡ e.patch_idx
  unfolding reorder_patches_by_completion
  patch_idx-reorder = ground arith

  pub stop-reorder : (reorder_patches_by_completion e).stop ≡ e.stop
  unfolding reorder_patches_by_completion
  stop-reorder = ground arith
