-- ===== src/Submissions/Evolves.antt =====
-- How a step of a cycle may change an entry: what identifies it stays.
pub mod Steps
use buttercup.Prelude.{ℕ, ◌≤◌, ◌≡◌, refl, ap, sym, ◌∙◌, String, List, [], ◌∷◌, ◌++◌, map, arith}
use mathlib.Core.List.{append-nil, append_assoc}
use buttercup.Message.{TracedCrash, SubmissionEntryPatch, SubmissionEntry}

abbrev pub crash_reports : SubmissionEntry → List TracedCrash
crash_reports e = map (λ c. c.crash) e.crashes

abbrev pub internal_ids : List SubmissionEntryPatch → List String
internal_ids ps = map (λ p. p.internal_patch_id) ps

-- The entry keeps its crash reports and its mark `stop`; its patches keep their order and their
-- internal ids, and new ones come behind them; `patch_idx` never falls.
pub record Evolves (e e' : SubmissionEntry) : Type 0 where
  pub stop : e'.stop ≡ e.stop
  pub crashes : crash_reports e' ≡ crash_reports e
  pub patch_idx : e.patch_idx ≤ e'.patch_idx
  pub added : List String
  pub patches : internal_ids e'.patches ≡ internal_ids e.patches ++ added

pub Evolves-refl : (e : SubmissionEntry) → Evolves e e
Evolves-refl e = record {
  stop = refl;
  crashes = refl;
  patch_idx = omega arith;
  added = [];
  patches = sym (append-nil _);
}

pub Evolves-trans : {e f g : SubmissionEntry} → Evolves e f → Evolves f g → Evolves e g
Evolves-trans {e} {f} {g} h k = record {
  stop = k.stop ∙ h.stop;
  crashes = k.crashes ∙ h.crashes;
  patch_idx = omega (arith, h.patch_idx, k.patch_idx);
  added = h.added ++ k.added;
  patches =
      k.patches
      ∙ ap (λ ids. ids ++ k.added) h.patches
      ∙ append_assoc (internal_ids e.patches) h.added k.added;
}

-- A change that leaves the internal ids of the patches as they are.
pub Evolves-in_place :
    (e e' : SubmissionEntry)
    → e'.stop ≡ e.stop
    → crash_reports e' ≡ crash_reports e
    → e.patch_idx ≤ e'.patch_idx
    → internal_ids e'.patches ≡ internal_ids e.patches
    → Evolves e e'
Evolves-in_place e e' s c i p = record {
  stop = s;
  crashes = c;
  patch_idx = i;
  added = [];
  patches = p ∙ sym (append-nil _);
}
