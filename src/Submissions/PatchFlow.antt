-- ===== src/Submissions/PatchFlow.antt =====
-- The steps that move the patches of an entry forward, of
-- orchestrator/src/buttercup/orchestrator/scheduler/submissions.py: requests to the patcher and to
-- the builder, the records of what they answer, submission and polling.
pub mod Safe
pub mod Limit
use buttercup.Prelude.{
  ℕ, zero, suc, String, Bool, true, false, not, ◌||◌, Option, none, some, List, [], ◌∷◌, ◌++◌, map,
  set, any, leb, str_eq, truthy, if◌then◌else◌,
}
use buttercup.Message.{
  SubmissionResult, failed, errored, inconclusive, result_eq, BuildType, BuildRequest, BuildOutput,
  ConfirmedVulnerability, SubmissionEntryPatch, SubmissionEntry,
}
use buttercup.Outcome.{Result, ok, raised}
use buttercup.CompetitionApi.{submit_patch}
use buttercup.Submissions.Env.{Env, Project, xadd_build, xadd_confirmed}
use buttercup.Submissions.State.{Limits, State, M, with_entry, put_entry}
use buttercup.Submissions.Entry.{
  task_id, advance_patch_idx, increase_submission_attempts, current_patch,
  get_first_successful_pov_id,
}
use buttercup.Submissions.Pov.{is_nonempty, is_some, has_text, text_or_empty}
use buttercup.Submissions.Patch.{
  patch_tracker, check_all_povs_are_mitigated, should_wait_for_patch_mitigation_merge,
  task_outstanding_patch_requests,
}

-- `for _ in range(n): q.push(x)`
abbrev pub times {ℓ} : {A : Type ℓ} → ℕ → A → List A
times zero a = []
times (suc n) a = a ∷ times n a

-- The placeholder of `_request_patched_builds_if_needed`, and the request for its build.
abbrev pub build_placeholder : String → String → String → String → BuildOutput
build_placeholder task engine internal_patch_id san = record {
  engine = engine;
  sanitizer = san;
  task_dir = "";
  task_id = task;
  build_type = BuildType.patch;
  apply_diff = true;
  internal_patch_id = internal_patch_id;
}

abbrev pub build_request : String → String → BuildOutput → BuildRequest
build_request task_dir patch bo = record {
  engine = bo.engine;
  sanitizer = bo.sanitizer;
  task_dir = task_dir;
  task_id = bo.task_id;
  build_type = bo.build_type;
  apply_diff = bo.apply_diff;
  patch = patch;
  internal_patch_id = bo.internal_patch_id;
}

-- `"libfuzzer"` if the project has it, else its first engine; IndexError if it has none.
abbrev pub choose_engine : List String → Result String
choose_engine engines =
    if any (λ x. str_eq x "libfuzzer") engines
    then ok "libfuzzer"
    else elim engines [ [] ↦ raised | first ∷ _ ↦ ok first ]

-- What the answer of `submit_patch` does to the entry whose patch `k` was submitted.
unfoldable pub record_submission :
    ℕ → SubmissionEntryPatch → Option String × SubmissionResult → SubmissionEntry → SubmissionEntry
unfolding advance_patch_idx increase_submission_attempts
record_submission k patch (id, status) e =
    if has_text id
    then record e {
      patches =
          set e.patches k
            (record patch { competition_patch_id = text_or_empty id; result = status });
    }
    else (let e' = record e { patches = set e.patches k (record patch { result = status }) } in
        if result_eq status errored
        then increase_submission_attempts e'
        else if result_eq status failed || result_eq status inconclusive
        then advance_patch_idx e'
        else e')

module _ (env : Env) (limits : Limits) where
  open env use {Local, api, uuid4, read_project, assign_none}
  open limits use {
    patch_submission_retry_limit, patch_requests_per_vulnerability,
    concurrent_patch_requests_per_task,
  }

  -- `_request_patch_if_needed` behind its three guards. The pushes go to the open pipeline.
  unfoldable pub request_patch : ℕ → SubmissionEntry → State env → State env
  request_patch i e s =
      let (id, l) = uuid4 s.local in
      let confirmed : ConfirmedVulnerability = record {
        crashes = map (λ c. c.crash) e.crashes;
        internal_patch_id = id;
      } in
      record s {
        local = l;
        entries = set s.entries i (record e { patches = e.patches ++ patch_tracker id ∷ [] });
        pipeline = s.pipeline ++ times patch_requests_per_vulnerability (xadd_confirmed confirmed);
      }

  -- `_request_patch_if_needed` on the entry `e`, which stands at `i`.
  unfoldable pub request_patch_for : ℕ → SubmissionEntry → M env Bool
  unfolding request_patch
  request_patch_for i e s =
      if is_some (current_patch e)
      then (ok false, s)
      else (let (wait, s') = should_wait_for_patch_mitigation_merge env i e s in
          if wait
          then (ok false, s')
          else if leb concurrent_patch_requests_per_task
              (task_outstanding_patch_requests env (task_id e) s')
          then (ok false, s')
          else (ok true, request_patch i e s'))

  unfoldable pub request_patch_if_needed : ℕ → M env Bool
  unfolding request_patch_for
  request_patch_if_needed i = with_entry env i (request_patch_for i)

  -- The loop over the sanitizers: placeholders into the patch, requests into the pipeline.
  abbrev pub request_builds :
      ℕ → SubmissionEntry → SubmissionEntryPatch → Project → String → State env → State env
  request_builds i e patch project engine s =
      let placeholders =
        map (build_placeholder (task_id e) engine patch.internal_patch_id) project.sanitizers in
      record s {
        entries = set s.entries i (record e {
          patches =
              set e.patches e.patch_idx
                (record patch { build_outputs = patch.build_outputs ++ placeholders });
        });
        pipeline =
            s.pipeline
            ++ map (λ bo. xadd_build (build_request project.task_dir patch.patch bo)) placeholders;
      }

  unfoldable pub request_patched_builds_if_needed : ℕ → M env Bool
  unfolding current_patch
  request_patched_builds_if_needed i = with_entry env i λ e s. elim (current_patch e) [
    | none ↦ (ok false, s)
    | some patch ↦
        if not (truthy patch.patch) || is_nonempty patch.build_outputs
        then (ok false, s)
        else elim (read_project (task_id e) s.local) [
          | raised ↦ (raised, s)
          | ok project ↦ elim (choose_engine project.fuzzing_engines) [
            | raised ↦ (raised, s)
            | ok engine ↦ (ok true, request_builds i e patch project engine s)
          ]
        ]
  ]

  -- `_submit_patch_if_good` behind its first three guards.
  unfoldable pub submit_checked_patch : ℕ → SubmissionEntry → SubmissionEntryPatch → M env Bool
  unfolding advance_patch_idx record_submission
  submit_checked_patch i e patch s =
      let (mitigated, l) = check_all_povs_are_mitigated env e patch s.local in
      let s1 : State env = record s { local = l } in
      elim mitigated [
        | none ↦ (ok false, s1)
        | some false ↦ (ok true, put_entry env i (advance_patch_idx e) s1)
        | some true ↦
            if truthy patch.competition_patch_id
            then (ok false, s1)
            else (let (wait, s2) = should_wait_for_patch_mitigation_merge env i e s1 in
                if wait
                then (ok false, s2)
                else if leb patch_submission_retry_limit e.patch_submission_attempts
                then (ok true, put_entry env i (advance_patch_idx e) s2)
                else (let (answer, r) = submit_patch api (task_id e) patch.patch s2.remote in
                    let s3 : State env = record s2 { remote = r } in
                    elim answer [
                      | raised ↦ (raised, s3)
                      | ok reply ↦ (
                        ok true,
                        put_entry env i (record_submission e.patch_idx patch reply e) s3,
                      )
                    ]))
      ]

  unfoldable pub submit_patch_if_good : ℕ → M env Bool
  unfolding submit_checked_patch
  submit_patch_if_good i = with_entry env i λ e s.
      if has_text (get_first_successful_pov_id e)
      then elim (current_patch e) [
        | none ↦ (ok false, s)
        | some patch ↦
            if truthy patch.patch then submit_checked_patch i e patch s else (ok false, s)
      ]
      else (ok false, s)
