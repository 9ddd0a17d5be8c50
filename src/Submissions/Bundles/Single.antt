-- ===== src/Submissions/Bundles/Single.antt =====
-- Bundles that are too many are deleted one by one, of `_ensure_single_bundle` in
-- orchestrator/src/buttercup/orchestrator/scheduler/submissions.py.
use buttercup.Prelude.{
  ◌+◌, ◌≡◌, refl, Bool, true, false, List, [], ◌∷◌, length, get_elem?, arith, if◌then◌else◌, inl,
  inr, List-cases,
}
use buttercup.Message.{Bundle, SubmissionEntry}
use buttercup.Outcome.{Result, ok}
use buttercup.CompetitionApi.Client.{ApiClient}
use buttercup.Submissions.Bundles.{without_last, ensure_single_bundle}

length-without_last : (b : Bundle) (bs : List Bundle) → length (without_last b bs) ≡ length bs
length-without_last b [] = refl
length-without_last b (b' ∷ bs) = ground (arith, length-without_last b' bs)

-- Whether a step reported a change.
abbrev pub reports_change : Result Bool → Bool
reports_change (ok true) = true
reports_change _ = false

module _ (c : ApiClient) where
  -- A call deletes no bundle, or exactly one of at least two, which is what it then reports: the
  -- first bundle always stays, and crashes and patches too, whatever the server answers.
  pub ensure_single_bundle-first :
      (e : SubmissionEntry) (r : c.Remote)
      → let out = ensure_single_bundle c e r in
        (get_elem? out.1.bundles 0 ≡ get_elem? e.bundles 0)
        × (length out.1.bundles + (if reports_change out.0 then 1 else 0) ≡ length e.bundles)
        × (out.1.crashes ≡ e.crashes)
        × (out.1.patches ≡ e.patches)
  unfolding ensure_single_bundle
  ensure_single_bundle-first e r = elim (List-cases e.bundles) [
    | inl h ↦ ground arith
    | inr (b, bs, h) ↦ elim (List-cases bs) [
      | inl k ↦ ground arith
      | inr (b', bs', k) ↦ ground (arith, length-without_last b bs)
    ]
  ]
