-- ===== src/Tests/Steps.antt =====
-- Bundles, SARIF reports and the status of patches on concrete entries.
use buttercup.Prelude.{
  arith, ◌+◌, ◌≡◌, refl, true, false, none, some, [], ◌∷◌, length, get_elem?, if◌then◌else◌,
}
use buttercup.CompetitionApi.{map_submission_status_to_result, submit_bundle}
use buttercup.Message.{Bundle}
use buttercup.Outcome.{ok}
use buttercup.Submissions.State.{enumerate_task_submissions, enumerate_submissions}
use buttercup.Submissions.PatchStatus.{update_patch_status}
use buttercup.Submissions.PatchStatus.Advanced.{count_turned_down, update_patch_status-idx}
use buttercup.Submissions.Bundles.{
  create_bundle, ensure_single_bundle, ensure_bundle_contents, first_match,
  get_available_sarifs_for_matching,
}
use buttercup.Submissions.Bundles.Single.{reports_change, ensure_single_bundle-first}
use buttercup.Submissions.Bundles.Contents.{
  differs, ensure_bundle_contents-again, ensure_bundle_contents-Wanted,
}
use buttercup.Submissions.Bundles.Available.{IsFree, first_match-IsFree}
use buttercup.Tests.Demo.{
  demo, demo_api, demo_sarif, bundle_of, doubled, bundled, proved, sent, state_of,
}

update_patch_status-idx_example :
    let after = (update_patch_status demo sent 0).1 in
    after.patch_idx + count_turned_down sent.patches
    ≡ sent.patch_idx + count_turned_down after.patches
update_patch_status-idx_example = update_patch_status-idx demo sent 0

ensure_single_bundle-first_example :
    let out = ensure_single_bundle demo_api doubled 0 in
    (get_elem? out.1.bundles 0 ≡ some (bundle_of "b1" ""))
    × (length out.1.bundles + (if reports_change out.0 then 1 else 0) ≡ 2)
    × (out.1.crashes ≡ doubled.crashes)
    × (out.1.patches ≡ doubled.patches)
ensure_single_bundle-first_example = ensure_single_bundle-first demo_api doubled 0

ensure_bundle_contents-again_example :
    let first = ensure_bundle_contents demo_api "pov" (some "patch") none bundled 0 in
    ensure_bundle_contents demo_api "pov" (some "patch") none first.1 first.2
    ≡ (ok false, first.1, first.2)
ensure_bundle_contents-again_example =
    ensure_bundle_contents-again demo_api "pov" (some "patch") none bundled (bundle_of "b1" "") 0
      refl

demo_sarif_first :
    first_match demo
      (get_available_sarifs_for_matching demo "task" (state_of (proved ∷ [])))
      proved.crashes
    ≡ some demo_sarif
unfolding first_match get_available_sarifs_for_matching enumerate_task_submissions
    enumerate_submissions
demo_sarif_first = refl

first_match-IsFree_example : IsFree demo "task" proved.crashes (state_of (proved ∷ [])) demo_sarif
first_match-IsFree_example =
    first_match-IsFree demo "task" proved.crashes (state_of (proved ∷ [])) demo_sarif
      demo_sarif_first

bundle_created : (ensure_bundle_contents demo_api "pov" (some "patch") none proved 0).0 ≡ ok true
unfolding ensure_bundle_contents create_bundle submit_bundle map_submission_status_to_result
bundle_created = refl

ensure_bundle_contents-Wanted_example :
    (b : Bundle) × ((ensure_bundle_contents demo_api "pov" (some "patch") none proved 0).1.bundles
      ≡ b ∷ [])
    × (differs demo_api "pov" (some "patch") none b ≡ false)
ensure_bundle_contents-Wanted_example =
    ensure_bundle_contents-Wanted demo_api "pov" (some "patch") none proved 0 (omega arith)
      bundle_created
