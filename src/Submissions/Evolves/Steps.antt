-- ===== src/Submissions/Evolves/Steps.antt =====
-- Each step of a cycle that works on one entry and the competition API lets the entry evolve.
use buttercup.Prelude.{
  ℕ, zero, suc, ◌≤◌, ◌≡◌, refl, ap, Option, some, List, [], ◌∷◌, map, arith, set, get_elem?, String,
}
use buttercup.Message.{SubmissionResult, passed, CrashWithId, SubmissionEntryPatch, SubmissionEntry}
use buttercup.CompetitionApi.Client.{ApiClient}
use buttercup.Submissions.Env.{Env}
use buttercup.Submissions.Entry.{advance_patch_idx, current_patch}
use buttercup.Submissions.Pov.{
  text_or_empty, try_pov, submit_first, submit_pov_if_needed, poll_pov, poll_povs,
  update_pov_status,
}
use buttercup.Submissions.PatchFlow.{record_submission}
use buttercup.Submissions.PatchStatus.{
  Round, on_status, poll_patch, poll_patches, update_patch_status,
}
use buttercup.Submissions.Bundles.{
  ensure_single_bundle, ensure_bundle_contents, ensure_patch_is_bundled,
}
use buttercup.Submissions.Evolves.{internal_ids, Evolves, Evolves-in_place}

module _ (c : ApiClient) where
  open c use {Remote}

  try_pov-crash : (pov : CrashWithId) (r : Remote) → (try_pov c pov r).1.crash ≡ pov.crash
  unfolding try_pov
  try_pov-crash pov r = ground arith

  submit_first-crashes :
      (cs : List CrashWithId) (r : Remote)
      → map (λ p. p.crash) (submit_first c cs r).1 ≡ map (λ p. p.crash) cs
  unfolding submit_first
  submit_first-crashes [] r = refl
  submit_first-crashes (pov ∷ povs) r =
      ground (arith, try_pov-crash pov r, submit_first-crashes povs (try_pov c pov r).2)

  pub submit_pov_if_needed-Evolves :
      (e : SubmissionEntry) (r : Remote) → Evolves e (submit_pov_if_needed c e r).1
  unfolding submit_pov_if_needed
  submit_pov_if_needed-Evolves e r =
      Evolves-in_place e (submit_pov_if_needed c e r).1 (ground arith)
        (ground (arith, submit_first-crashes e.crashes r)) (ground arith) (ground arith)

  poll_pov-crash : (pov : CrashWithId) (r : Remote) → (poll_pov c pov r).1.crash ≡ pov.crash
  unfolding poll_pov
  poll_pov-crash pov r = ground arith

  poll_povs-crashes :
      (cs : List CrashWithId) (r : Remote)
      → map (λ p. p.crash) (poll_povs c cs r).1 ≡ map (λ p. p.crash) cs
  unfolding poll_povs
  poll_povs-crashes [] r = refl
  poll_povs-crashes (pov ∷ povs) r =
      ground (arith, poll_pov-crash pov r, poll_povs-crashes povs (poll_pov c pov r).2)

  pub update_pov_status-Evolves :
      (e : SubmissionEntry) (r : Remote) → Evolves e (update_pov_status c e r).1
  unfolding update_pov_status
  update_pov_status-Evolves e r =
      Evolves-in_place e (update_pov_status c e r).1 refl (poll_povs-crashes e.crashes r)
        (omega arith) refl

  pub ensure_single_bundle-Evolves :
      (e : SubmissionEntry) (r : Remote) → Evolves e (ensure_single_bundle c e r).1
  unfolding ensure_single_bundle
  ensure_single_bundle-Evolves e r =
      Evolves-in_place e (ensure_single_bundle c e r).1 (ground arith) (ground arith) (ground arith)
        (ground arith)

  pub ensure_bundle_contents-Evolves :
      (pov_id : String) (patch_id sarif_id : Option String) (e : SubmissionEntry) (r : Remote)
      → Evolves e (ensure_bundle_contents c pov_id patch_id sarif_id e r).1
  unfolding ensure_bundle_contents
  ensure_bundle_contents-Evolves pov_id patch_id sarif_id e r =
      Evolves-in_place e (ensure_bundle_contents c pov_id patch_id sarif_id e r).1 (ground arith)
        (ground arith) (ground arith) (ground arith)

  pub ensure_patch_is_bundled-Evolves :
      (e : SubmissionEntry) (r : Remote) → Evolves e (ensure_patch_is_bundled c e r).1
  unfolding ensure_patch_is_bundled
  ensure_patch_is_bundled-Evolves e r =
      Evolves-in_place e (ensure_patch_is_bundled c e r).1 (ground arith) (ground arith)
        (ground arith) (ground arith)

-- What a round of the loop of `_update_patch_status` keeps.
record KeepsRound (p : SubmissionEntryPatch) (e : SubmissionEntry) (round : Round) : Type 0 where
  id : round.patch.internal_patch_id ≡ p.internal_patch_id
  stop : round.entry.stop ≡ e.stop
  crashes : round.entry.crashes ≡ e.crashes
  patch_idx : e.patch_idx ≤ round.entry.patch_idx

module _ (env : Env) where
  open env use {api}

  on_status-KeepsRound :
      (status : SubmissionResult) (p : SubmissionEntryPatch) (e : SubmissionEntry)
      → KeepsRound p e (on_status env status p e)
  unfolding on_status
  on_status-KeepsRound passed p e = ground arith
  on_status-KeepsRound _ p e = ground arith

  poll_patch-KeepsRound :
      (p : SubmissionEntryPatch) (e : SubmissionEntry) (r : api.Remote)
      → KeepsRound p e (poll_patch env p e r).0
  unfolding poll_patch on_status
  poll_patch-KeepsRound p e r = ground arith

  poll_patches-keeps :
      (ps : List SubmissionEntryPatch) (e : SubmissionEntry) (r : api.Remote)
      → (internal_ids (poll_patches env ps e r).1 ≡ internal_ids ps)
        × ((poll_patches env ps e r).2.stop ≡ e.stop)
        × ((poll_patches env ps e r).2.crashes ≡ e.crashes)
        × (e.patch_idx ≤ (poll_patches env ps e r).2.patch_idx)
  unfolding poll_patches
  poll_patches-keeps [] e r = (refl, refl, refl, omega arith)
  poll_patches-keeps (p ∷ ps) e r =
      let round = (poll_patch env p e r).0 in
      let k = poll_patch-KeepsRound p e r in
      let rest = poll_patches-keeps ps round.entry (poll_patch env p e r).1 in
      ground (arith, k, rest)

  pub update_patch_status-Evolves :
      (e : SubmissionEntry) (r : api.Remote) → Evolves e (update_patch_status env e r).1
  unfolding update_patch_status
  update_patch_status-Evolves e r =
      let (ids, stop, crashes, idx) = poll_patches-keeps e.patches e r in
      Evolves-in_place e (update_patch_status env e r).1 stop
        (ap (λ (cs : List CrashWithId). map (λ c. c.crash) cs) crashes) idx ids

pub advance_patch_idx-Evolves : (e : SubmissionEntry) → Evolves e (advance_patch_idx e)
unfolding advance_patch_idx
advance_patch_idx-Evolves e = Evolves-in_place e (advance_patch_idx e) refl refl (omega arith) refl

internal_ids-set :
    (ps : List SubmissionEntryPatch) (k : ℕ) (p p' : SubmissionEntryPatch)
    → get_elem? ps k ≡ some p
    → p'.internal_patch_id ≡ p.internal_patch_id
    → internal_ids (set ps k p') ≡ internal_ids ps
internal_ids-set [] k p p' h q = refl
internal_ids-set (x ∷ ps) zero p p' h q = ground arith
internal_ids-set (x ∷ ps) (suc k) p p' h q =
    ap (λ ids. x.internal_patch_id ∷ ids) (internal_ids-set ps k p p' h q)

-- A new content of the patch at `k`, under its id.
pub set-Evolves :
    (e : SubmissionEntry) (k : ℕ) (p p' : SubmissionEntryPatch)
    → get_elem? e.patches k ≡ some p
    → p'.internal_patch_id ≡ p.internal_patch_id
    → Evolves e (record e { patches = set e.patches k p' })
set-Evolves e k p p' h q =
    Evolves-in_place e (record e { patches = set e.patches k p' }) refl refl (omega arith)
      (internal_ids-set e.patches k p p' h q)

pub record_submission-Evolves :
    (e : SubmissionEntry) (k : ℕ) (p : SubmissionEntryPatch)
    (answer : Option String × SubmissionResult)
    → get_elem? e.patches k ≡ some p
    → Evolves e (record_submission k p answer e)
unfolding record_submission
record_submission-Evolves e k p (id, status) h =
    Evolves-in_place e (record_submission k p (id, status) e) (ground arith) (ground arith)
      (ground arith)
      (ground (
        arith,
        internal_ids-set e.patches k p
            (record p { competition_patch_id = text_or_empty id; result = status }) h refl,
        internal_ids-set e.patches k p (record p { result = status }) h refl,
      ))

pub current_patch-at :
    (e : SubmissionEntry) (p : SubmissionEntryPatch)
    → current_patch e ≡ some p
    → get_elem? e.patches e.patch_idx ≡ some p
unfolding current_patch
current_patch-at e p h = ground arith
