-- ===== src/Submissions/Patch/Tested.antt =====
-- Which POVs of an entry are run against a patch, and what the answers say, described apart from
-- `_pov_reproduce_patch_status` and `_check_all_povs_are_mitigated` of
-- orchestrator/src/buttercup/orchestrator/scheduler/submissions.py.
use buttercup.Prelude.{
  ◌≡◌, refl, ap, Bool, true, false, String, Option, ◌⊎◌, not, none, some, List, [], ◌∷◌, filter,
  Bool-cases, Option-cases, inl, inr, arith, ◌<◌, length, find?,
}
use buttercup.Message.{
  SubmissionResult, accepted, passed, failed, deadline_exceeded, errored, inconclusive, CrashWithId,
  SubmissionEntryPatch, SubmissionEntry, result_eq, PovReproduceResponse,
}
use buttercup.Submissions.Env.{Env}
use buttercup.Submissions.Entry.{
  pov_is_successful, get_first_successful_pov, get_first_successful_pov_id,
}
use buttercup.Submissions.Pov.{has_text}
use buttercup.Submissions.Patch.{is_excluded, pov_reproduce_request, pov_reproduce_patch_status}

-- A POV that the competition found failed, too late or inconclusive is not run.
abbrev pub is_run : SubmissionResult → Bool
is_run failed = false
is_run deadline_exceeded = false
is_run inconclusive = false
is_run _ = true

abbrev pub povs_to_run : List CrashWithId → List CrashWithId
povs_to_run povs = filter (λ c. is_run c.result) povs

-- The answer that a POV no longer crashes, and that it still does.
abbrev pub Mitigates : Option PovReproduceResponse → Type 0
Mitigates none = ⊥
Mitigates (some r) = r.did_crash ≡ false

abbrev pub Crashes : Option PovReproduceResponse → Type 0
Crashes none = ⊥
Crashes (some r) = r.did_crash ≡ true

is_run-excluded : (r : SubmissionResult) → is_run r ≡ not (is_excluded r)
is_run-excluded SubmissionResult.none = refl
is_run-excluded accepted = refl
is_run-excluded passed = refl
is_run-excluded failed = refl
is_run-excluded deadline_exceeded = refl
is_run-excluded errored = refl
is_run-excluded inconclusive = refl

-- The answer of a test that is pending.
abbrev pub IsOpen : Option PovReproduceResponse → Type 0
IsOpen none = Unit
IsOpen (some r) = ⊥

-- One of the answers is so.
abbrev pub Any :
    (Option PovReproduceResponse → Type 0) → List (Option PovReproduceResponse) → Type 0
Any P [] = ⊥
Any P (a ∷ ss) = P a ⊎ Any P ss

is_run-passed : (r : SubmissionResult) → result_eq r passed ≡ true → is_run r ≡ true
is_run-passed SubmissionResult.none h = refl
is_run-passed accepted h = refl
is_run-passed passed h = refl
is_run-passed failed h = cc
is_run-passed deadline_exceeded h = cc
is_run-passed errored h = refl
is_run-passed inconclusive h = cc

found_run :
    (cs : List CrashWithId) {c : CrashWithId}
    → find? pov_is_successful cs ≡ some c
    → 0 < length (povs_to_run cs)
found_run [] h = cc
found_run (c ∷ cs) h = elim (Bool-cases (is_run c.result)) [
  | inl e ↦ rw e (omega arith)
  | inr e ↦ elim (Bool-cases (pov_is_successful c)) [
    | inl ok ↦ ground (arith, is_run-passed c.result)
    | inr fails ↦ rw e (found_run cs (rw fails at h))
  ]
]

-- An entry with a successful POV has one to run.
pub povs_to_run-successful :
    (e : SubmissionEntry)
    → has_text (get_first_successful_pov_id e) ≡ true
    → 0 < length (povs_to_run e.crashes)
unfolding get_first_successful_pov_id get_first_successful_pov
povs_to_run-successful e h = elim (Option-cases (find? pov_is_successful e.crashes)) [
  | inl n ↦ absurd (ground (arith, n))
  | inr (c, f) ↦ found_run e.crashes f
]

module _ (env : Env) where
  open env use {Local, request_status}

  -- The answers to one request for each POV, in order; none is a test that is pending.
  abbrev pub answers :
      String → SubmissionEntryPatch → List CrashWithId → Local → List (Option PovReproduceResponse)
  answers task patch [] l = []
  answers task patch (c ∷ cs) l =
      let (answer, l') =
        request_status
          (record {
            task_id = task;
            internal_patch_id = patch.internal_patch_id;
            harness_name = c.crash.crash.harness_name;
            sanitizer = c.crash.crash.target.sanitizer;
            pov_path = c.crash.crash.crash_input_path;
          })
          l in
      answer ∷ answers task patch cs l'

  pub pov_reproduce_patch_status-answers :
      (patch : SubmissionEntryPatch) (cs : List CrashWithId) (task : String) (l : Local)
      → (pov_reproduce_patch_status env patch cs task l).0 ≡ answers task patch (povs_to_run cs) l
  unfolding pov_reproduce_patch_status
  pov_reproduce_patch_status-answers patch [] task l = refl
  pov_reproduce_patch_status-answers patch (c ∷ cs) task l =
      elim (Bool-cases (is_excluded c.result)) [
        | inl e ↦
            rw (is_run-excluded c.result, e, pov_reproduce_patch_status)
              (pov_reproduce_patch_status-answers patch cs task l)
        | inr e ↦
            rw (is_run-excluded c.result, e, pov_reproduce_patch_status)
              (ap (λ ss. (request_status (pov_reproduce_request task patch c) l).0 ∷ ss)
                (pov_reproduce_patch_status-answers patch cs task
                  (request_status (pov_reproduce_request task patch c) l).1))
      ]
