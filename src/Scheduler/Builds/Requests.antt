-- ===== src/Scheduler/Builds/Requests.antt =====
-- Which builds are asked for, of orchestrator/src/buttercup/orchestrator/scheduler/scheduler.py.
use buttercup.Prelude.{
  ℕ, ◌≡◌, refl, ap, String, Bool, true, false, not, some, List, [], ◌∷◌, map, any, filter, str_eq,
  get_elem?, ◌==◌, if◌then◌else◌, Bool-cases, inl, inr,
}
use buttercup.Prelude.All.{All}
use buttercup.Outcome.{ok}
use buttercup.Message.{
  Task, BuildType, fuzzer, coverage, tracer_no_diff, patch, build_type_number, BuildRequest,
}
use buttercup.Scheduler.Builds.{
  ChallengeTask, ProjectYaml, Files, select_preferred, BuildKind, sanitizer_types, build_types,
  build_request, build_requests, process_ready_task,
}

-- The sanitizers of the requests of a type, in their order.
abbrev pub sanitizers_of : BuildType → List BuildRequest → List String
sanitizers_of ty qs =
    map (λ (q : BuildRequest). q.sanitizer)
      (filter (λ (q : BuildRequest). build_type_number q.build_type == build_type_number ty) qs)

-- What the requests of a task have in common, and whether they apply the diff.
pub record IsOf (engine task_dir task_id : String) (q : BuildRequest) : Type 0 where
  pub same_engine : q.engine ≡ engine
  pub same_dir : q.task_dir ≡ task_dir
  pub same_task : q.task_id ≡ task_id
  pub diff_applied :
      q.apply_diff ≡ not (build_type_number q.build_type == build_type_number tracer_no_diff)
  pub unpatched : (q.patch ≡ "") × (q.internal_patch_id ≡ "")

abbrev pub has : List String → String → Bool
has options o = any (λ x. str_eq x o) options

-- The engine by the order of preference.
abbrev pub preferred_engine : (options : List String) (chosen : String) → String
preferred_engine options chosen =
    if has options "libfuzzer" then "libfuzzer" else if has options "afl" then "afl" else chosen

select_preferred-engine :
    (i : ℕ) (options : List String) (chosen : String)
    → get_elem? options i ≡ some chosen
    → select_preferred i options ("libfuzzer" ∷ "afl" ∷ []) ≡ ok (preferred_engine options chosen)
select_preferred-engine i options chosen h = elim (Bool-cases (has options "libfuzzer")) [
  | inl e ↦ rw (e, select_preferred) refl
  | inr e ↦ elim (Bool-cases (has options "afl")) [
    | inl e' ↦ rw (e, select_preferred, e') refl
    | inr e' ↦ rw (e, select_preferred, e', h) refl
  ]
]

-- The sanitizers that are traced without the diff.
abbrev pub traced : (diffs sans : List String) → List String
traced [] sans = []
traced (d ∷ ds) sans = sans

module _ (engine task_dir task_id : String) where
  abbrev requests : List BuildKind → List BuildRequest
  requests kinds = map (build_request engine task_dir task_id) kinds

  requests_coverage :
      (diffs sans : List String)
      → sanitizers_of coverage (requests (sanitizer_types diffs sans)) ≡ []
  requests_coverage diffs [] = refl
  requests_coverage [] (san ∷ sans) = requests_coverage [] sans
  requests_coverage (d ∷ ds) (san ∷ sans) = requests_coverage (d ∷ ds) sans

  requests_patch :
      (diffs sans : List String) → sanitizers_of patch (requests (sanitizer_types diffs sans)) ≡ []
  requests_patch diffs [] = refl
  requests_patch [] (san ∷ sans) = requests_patch [] sans
  requests_patch (d ∷ ds) (san ∷ sans) = requests_patch (d ∷ ds) sans

  requests_fuzzer :
      (diffs sans : List String)
      → sanitizers_of fuzzer (requests (sanitizer_types diffs sans)) ≡ sans
  requests_fuzzer diffs [] = refl
  requests_fuzzer [] (san ∷ sans) = ap (λ l. san ∷ l) (requests_fuzzer [] sans)
  requests_fuzzer (d ∷ ds) (san ∷ sans) = ap (λ l. san ∷ l) (requests_fuzzer (d ∷ ds) sans)

  requests_tracer :
      (diffs sans : List String)
      → sanitizers_of tracer_no_diff (requests (sanitizer_types diffs sans)) ≡ traced diffs sans
  requests_tracer [] [] = refl
  requests_tracer (d ∷ ds) [] = refl
  requests_tracer [] (san ∷ sans) = requests_tracer [] sans
  requests_tracer (d ∷ ds) (san ∷ sans) = ap (λ l. san ∷ l) (requests_tracer (d ∷ ds) sans)

  IsOf-fuzzer :
      (san : String)
      → IsOf engine task_dir task_id (build_request engine task_dir task_id (fuzzer, san, true))
  IsOf-fuzzer san = record {
    same_engine = refl;
    same_dir = refl;
    same_task = refl;
    diff_applied = refl;
    unpatched = (refl, refl);
  }

  IsOf-coverage :
      (san : String)
      → IsOf engine task_dir task_id (build_request engine task_dir task_id (coverage, san, true))
  IsOf-coverage san = record {
    same_engine = refl;
    same_dir = refl;
    same_task = refl;
    diff_applied = refl;
    unpatched = (refl, refl);
  }

  IsOf-tracer :
      (san : String)
      → IsOf engine task_dir task_id
          (build_request engine task_dir task_id (tracer_no_diff, san, false))
  IsOf-tracer san = record {
    same_engine = refl;
    same_dir = refl;
    same_task = refl;
    diff_applied = refl;
    unpatched = (refl, refl);
  }

  requests-All :
      (diffs sans : List String)
      → All (IsOf engine task_dir task_id) (requests (sanitizer_types diffs sans))
  requests-All diffs [] = tt
  requests-All [] (san ∷ sans) = (IsOf-fuzzer san, requests-All [] sans)
  requests-All (d ∷ ds) (san ∷ sans) =
      (IsOf-fuzzer san, (IsOf-tracer san, requests-All (d ∷ ds) sans))

-- Let the files of a task be readable and have an engine. Then the requests are one COVERAGE build, one
-- FUZZER build for each sanitizer of the project and, exactly if the task has diffs, one TRACER_NO_DIFF
-- build for each; none is a PATCH build. All are for the directory and the task, with no patch, and apply
-- the diff exactly if they are not TRACER_NO_DIFF. Their engine is libfuzzer if the project has it, or else
-- afl if it has that, or else the one that was chosen.
pub process_ready_task_builds :
    (files : Files) (i : ℕ) (t : Task) (c : ChallengeTask) (p : ProjectYaml) (chosen : String)
    → files.challenge_task (files.child files.tasks_storage_dir t.task_id) ≡ ok c
    → files.project_yaml c t.project_name ≡ ok p
    → get_elem? p.fuzzing_engines i ≡ some chosen
    → (qs : List BuildRequest) × (process_ready_task files i t ≡ ok qs)
      × (sanitizers_of coverage qs ≡ "coverage" ∷ [])
      × (sanitizers_of fuzzer qs ≡ p.sanitizers)
      × (sanitizers_of tracer_no_diff qs ≡ traced c.diffs p.sanitizers)
      × (sanitizers_of patch qs ≡ [])
      × All (IsOf (preferred_engine p.fuzzing_engines chosen) c.task_dir t.task_id) qs
unfolding process_ready_task
process_ready_task_builds files i t c p chosen hc hp hi =
    let engine = preferred_engine p.fuzzing_engines chosen in
    let dir = c.task_dir in
    let task = t.task_id in
    (
      map (build_request engine dir task) (build_types c.diffs p.sanitizers),
      rw
          (
            hc,
            process_ready_task,
            hp,
            build_requests,
            select_preferred-engine i p.fuzzing_engines chosen hi,
          )
          refl,
      ap (λ l. "coverage" ∷ l) (requests_coverage engine dir task c.diffs p.sanitizers),
      requests_fuzzer engine dir task c.diffs p.sanitizers,
      requests_tracer engine dir task c.diffs p.sanitizers,
      requests_patch engine dir task c.diffs p.sanitizers,
      (IsOf-coverage engine dir task "coverage", requests-All engine dir task c.diffs p.sanitizers),
    )
