-- ===== src/Submissions/Bundles.antt =====
-- Bundles and SARIF reports of an entry, of
-- orchestrator/src/buttercup/orchestrator/scheduler/submissions.py.
pub mod Single
pub mod Contents
pub mod Available
use buttercup.Prelude.{
  ℕ, String, Bool, true, false, not, ◌||◌, Option, none, some, List, [], ◌∷◌, ◌++◌, length, filter,
  any, ltb, str_eq, truthy, if◌then◌else◌,
}
use buttercup.Message.{passed, result_eq, CrashWithId, Bundle, SubmissionEntry}
use buttercup.Outcome.{Result, ok, raised}
use buttercup.CompetitionApi.{submit_bundle, patch_bundle, delete_bundle, submit_matching_sarif}
use buttercup.CompetitionApi.Client.{ApiClient}
use buttercup.Submissions.Env.{Env, Sarif, sadd_matched}
use buttercup.Submissions.State.{State, M, enumerate_task_submissions, with_entry, on_entry, buffer}
use buttercup.Submissions.Entry.{task_id, current_patch, get_first_successful_pov_id}
use buttercup.Submissions.Pov.{is_nonempty, has_text, text_or_empty}

-- `bundles[-1]` of a list that begins with `b`
abbrev pub last_of : Bundle → List Bundle → Bundle
last_of b [] = b
last_of b (b' ∷ bs) = last_of b' bs

-- `bundles.pop()` of such a list
abbrev pub without_last : Bundle → List Bundle → List Bundle
without_last b [] = []
without_last b (b' ∷ bs) = b ∷ without_last b' bs

-- Whether an id that is wanted, if any, differs from the one that the bundle has.
abbrev pub wants_change : Option String → String → Bool
wants_change none held = false
wants_change (some wanted) held = not (str_eq held wanted)

abbrev pub wanted_or_held : Option String → String → String
wanted_or_held none held = held
wanted_or_held (some wanted) held = wanted

-- The bundle with the ids that are wanted.
abbrev pub retarget_bundle : Option String → Option String → Bundle → Bundle
retarget_bundle patch_id sarif_id b = record b {
  competition_patch_id = wanted_or_held patch_id b.competition_patch_id;
  competition_sarif_id = wanted_or_held sarif_id b.competition_sarif_id;
}

module _ (c : ApiClient) where
  open c use {Remote}

  unfoldable pub ensure_single_bundle :
      SubmissionEntry → Remote → Result Bool × SubmissionEntry × Remote
  ensure_single_bundle e r = elim e.bundles [
    | [] ↦ (ok false, e, r)
    | b ∷ bs ↦
        if is_nonempty bs
        then (let (answer, r') = delete_bundle c (task_id e) (last_of b bs).bundle_id r in
            elim answer [
              | raised ↦ (raised, e, r')
              | ok true ↦ (ok true, record e { bundles = without_last b bs }, r')
              | ok false ↦ (ok false, e, r')
            ])
        else (ok false, e, r)
  ]

  -- `_ensure_bundle_contents` with no bundle so far.
  unfoldable pub create_bundle :
      String
      → Option String
      → Option String
      → SubmissionEntry
      → Remote
      → Result Bool × SubmissionEntry × Remote
  create_bundle pov_id patch_id sarif_id e r =
      let (answer, r') =
        submit_bundle c (task_id e) pov_id (text_or_empty patch_id) (text_or_empty sarif_id) r in
      elim answer [
        | raised ↦ (raised, e, r')
        | ok (id, _) ↦
            if has_text id
            then (
              ok true,
              record e {
                bundles =
                    e.bundles
                    ++ (record {
                      task_id = task_id e;
                      competition_pov_id = pov_id;
                      competition_patch_id = text_or_empty patch_id;
                      competition_sarif_id = text_or_empty sarif_id;
                      bundle_id = text_or_empty id;
                    })
                      ∷ [];
              },
              r',
            )
            else (ok false, e, r')
      ]

  -- `_ensure_bundle_contents` with one bundle. The bundle in memory is written before the call.
  unfoldable pub update_bundle :
      Option String
      → Option String
      → Bundle
      → SubmissionEntry
      → Remote
      → Result Bool × SubmissionEntry × Remote
  update_bundle patch_id sarif_id b e r =
      if wants_change patch_id b.competition_patch_id
        || wants_change sarif_id b.competition_sarif_id
      then (let b' = retarget_bundle patch_id sarif_id b in
          let (answer, r') =
            patch_bundle c b'.task_id b'.bundle_id b'.competition_pov_id b'.competition_patch_id
              b'.competition_sarif_id r in
          (
            elim answer [ raised ↦ raised | ok (success, _) ↦ ok success ],
            record e { bundles = b' ∷ [] },
            r',
          ))
      else (ok false, e, r)

  unfoldable pub ensure_bundle_contents :
      String
      → Option String
      → Option String
      → SubmissionEntry
      → Remote
      → Result Bool × SubmissionEntry × Remote
  unfolding create_bundle update_bundle
  ensure_bundle_contents pov_id patch_id sarif_id e r = elim e.bundles [
    | [] ↦ create_bundle pov_id patch_id sarif_id e r
    | b ∷ [] ↦ update_bundle patch_id sarif_id b e r
    | _ ∷ _ ∷ _ ↦ (ok false, e, r)
  ]

  -- The POV of the first bundle, if there is a bundle, else the first successful one.
  abbrev pub pov_to_bundle : SubmissionEntry → Option String
  pov_to_bundle e = elim e.bundles [
    | [] ↦ get_first_successful_pov_id e
    | b ∷ _ ↦ some b.competition_pov_id
  ]

  -- Without a POV the log line reads `e.submission_id`, a field that the message does not have:
  -- AttributeError.
  unfoldable pub ensure_patch_is_bundled :
      SubmissionEntry → Remote → Result Bool × SubmissionEntry × Remote
  unfolding ensure_bundle_contents current_patch get_first_successful_pov_id
  ensure_patch_is_bundled e r = elim (current_patch e) [
    | none ↦ (ok false, e, r)
    | some patch ↦
        if not (result_eq patch.result passed) || ltb 1 (length e.bundles)
        then (ok false, e, r)
        else if has_text (pov_to_bundle e)
        then ensure_bundle_contents (text_or_empty (pov_to_bundle e))
            (some patch.competition_patch_id) none e r
        else (raised, e, r)
  ]

module _ (env : Env) where
  open env use {api, get_by_task_id, match_sarif}

  abbrev pub bundled_sarifs : List Bundle → List String
  bundled_sarifs [] = []
  bundled_sarifs (b ∷ bs) =
      if truthy b.competition_sarif_id
      then b.competition_sarif_id ∷ bundled_sarifs bs
      else bundled_sarifs bs

  -- The ids in bundles of the active entries of a task.
  abbrev pub submitted_sarifs : List (ℕ × SubmissionEntry) → List String
  submitted_sarifs [] = []
  submitted_sarifs ((_, e) ∷ es) = bundled_sarifs e.bundles ++ submitted_sarifs es

  unfoldable pub get_available_sarifs_for_matching : String → State env → List Sarif
  unfolding enumerate_task_submissions
  get_available_sarifs_for_matching task s =
      let used = submitted_sarifs (enumerate_task_submissions env task s) in
      filter (λ sarif. not (any (λ id. str_eq id sarif.sarif_id) used))
        (get_by_task_id task s.local)

  -- A match counts if it is a match on lines.
  abbrev pub matches_lines : Sarif → CrashWithId → Bool
  matches_lines sarif c = elim (match_sarif sarif c.crash) [ none ↦ false | some lines ↦ lines ]

  -- The first SARIF, in order, that matches a crash of the entry.
  unfoldable pub first_match : List Sarif → List CrashWithId → Option Sarif
  first_match [] crashes = none
  first_match (sarif ∷ sarifs) crashes =
      if any (matches_lines sarif) crashes then some sarif else first_match sarifs crashes

  abbrev pub has_bundled_sarif : SubmissionEntry → Bool
  has_bundled_sarif e = elim e.bundles [ [] ↦ false | b ∷ _ ↦ truthy b.competition_sarif_id ]

  unfoldable pub ensure_sarif_is_bundled : ℕ → M env Bool
  unfolding ensure_bundle_contents get_available_sarifs_for_matching first_match
      get_first_successful_pov_id
  ensure_sarif_is_bundled i = with_entry env i λ e s.
      if has_bundled_sarif e || not (has_text (get_first_successful_pov_id e))
      then (ok false, s)
      else elim (first_match (get_available_sarifs_for_matching (task_id e) s) e.crashes) [
        | none ↦ (ok false, s)
        | some sarif ↦
            on_entry env
              (ensure_bundle_contents api (text_or_empty (get_first_successful_pov_id e)) none
                (some sarif.sarif_id))
              i s
      ]

  -- `_insert_matched_sarif` on the open pipeline
  abbrev pub insert_matched_sarif : String → State env → State env
  insert_matched_sarif id s =
      buffer env (sadd_matched id) (record s { matched_sarifs = id ∷ s.matched_sarifs })

  unfoldable pub confirm_matched_sarifs : ℕ → M env Bool
  confirm_matched_sarifs i = with_entry env i λ e s. elim e.bundles [
    | [] ↦ (ok false, s)
    | _ ∷ _ ∷ _ ↦ (ok false, s)
    | b ∷ [] ↦
        if not (truthy b.competition_sarif_id)
        then (ok false, s)
        else if any (λ id. str_eq id b.competition_sarif_id) s.matched_sarifs
        then (ok true, s)
        else (let (answer, r) =
              submit_matching_sarif api (task_id e) b.competition_sarif_id s.remote in
            let s' : State env = record s { remote = r } in
            elim answer [
              | raised ↦ (raised, s')
              | ok (success, _) ↦
                  (ok true, if success then insert_matched_sarif b.competition_sarif_id s' else s')
            ])
  ]
