-- ===== src/Submissions/Pov.antt =====
-- POV submission and polling of
-- orchestrator/src/buttercup/orchestrator/scheduler/submissions.py.
pub mod Live
use buttercup.Prelude.{
  String, Bool, true, false, ◌||◌, Option, none, some, List, [], ◌∷◌, truthy, if◌then◌else◌,
}
use buttercup.Message.{accepted, result_eq, CrashWithId, SubmissionEntry}
use buttercup.Outcome.{Result, ok, raised}
use buttercup.CompetitionApi.{submit_pov, get_pov_status}
use buttercup.CompetitionApi.Client.{ApiClient}
use buttercup.Submissions.Entry.{
  crash_task_id, get_first_successful_pov, get_pending_pov_submissions, pov_is_pending,
  pov_is_eligible,
}

-- The truth value of a list.
abbrev pub is_nonempty {ℓ} : {A : Type ℓ} → List A → Bool
is_nonempty [] = false
is_nonempty (_ ∷ _) = true

-- The truth value of a text or None.
abbrev pub has_text : Option String → Bool
has_text none = false
has_text (some s) = truthy s

abbrev pub text_or_empty : Option String → String
text_or_empty none = ""
text_or_empty (some s) = s

abbrev pub is_some {ℓ} : {A : Type ℓ} → Option A → Bool
is_some none = false
is_some (some _) = true

module _ (c : ApiClient) where
  open c use {Remote}

  -- One round of the loop of `_submit_pov_if_needed`: whether the POV got an id, and the POV. The
  -- list of eligible POVs is made before the loop, but the test of a POV reads only that POV, and
  -- no earlier round writes it.
  unfoldable pub try_pov : CrashWithId → Remote → Bool × CrashWithId × Remote
  try_pov pov r =
      if pov_is_eligible pov
      then (let ((pov_id, status), r') = submit_pov c pov.crash r in
          if has_text pov_id
          then (true, record pov { competition_pov_id = text_or_empty pov_id; result = status }, r')
          else (false, pov, r'))
      else (false, pov, r)

  -- The loop ends at the first POV that gets an id.
  unfoldable pub submit_first : List CrashWithId → Remote → Bool × List CrashWithId × Remote
  submit_first [] r = (false, [], r)
  submit_first (pov ∷ povs) r =
      let (done, pov', r') = try_pov pov r in
      let (found, povs', r'') = submit_first povs r' in
      if done then (true, pov' ∷ povs, r') else (found, pov' ∷ povs', r'')

  unfoldable pub submit_pov_if_needed :
      SubmissionEntry → Remote → Result Bool × SubmissionEntry × Remote
  submit_pov_if_needed e r =
      if is_some (get_first_successful_pov e) || is_nonempty (get_pending_pov_submissions e)
      then (ok false, e, r)
      else (let (found, povs, r') = submit_first e.crashes r in
          (ok found, record e { crashes = povs }, r'))

  -- One round of the loop of `_update_pov_status`.
  unfoldable pub poll_pov : CrashWithId → Remote → Result Bool × CrashWithId × Remote
  poll_pov pov r =
      if pov_is_pending pov
      then (let (answer, r') =
            get_pov_status c (crash_task_id pov.crash) pov.competition_pov_id r in
          elim answer [
            | raised ↦ (raised, pov, r')
            | ok status ↦
                if result_eq status accepted
                then (ok false, pov, r')
                else (ok true, record pov { result = status }, r')
          ])
      else (ok false, pov, r)

  unfoldable pub poll_povs : List CrashWithId → Remote → Result Bool × List CrashWithId × Remote
  poll_povs [] r = (ok false, [], r)
  poll_povs (pov ∷ povs) r =
      let (answer, pov', r') = poll_pov pov r in
      let (rest, povs', r'') = poll_povs povs r' in
      elim answer [
        | raised ↦ (raised, pov' ∷ povs, r')
        | ok updated ↦
            (elim rest [ raised ↦ raised | ok more ↦ ok (updated || more) ], pov' ∷ povs', r'')
      ]

  unfoldable pub update_pov_status :
      SubmissionEntry → Remote → Result Bool × SubmissionEntry × Remote
  update_pov_status e r =
      let (answer, povs, r') = poll_povs e.crashes r in (answer, record e { crashes = povs }, r')
