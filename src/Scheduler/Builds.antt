-- ===== src/Scheduler/Builds.antt =====
-- `select_preferred`, `process_ready_task` and `process_build_output` of
-- orchestrator/src/buttercup/orchestrator/scheduler/scheduler.py. The files of a task, which
-- common/src/buttercup/common/challenge_task.py, project_yaml.py and clusterfuzz_utils.py read, are a
-- parameter.
pub mod Requests
use buttercup.Prelude.{
  ℕ, suc, String, Bool, true, false, Option, none, some, List, [], ◌∷◌, map, any, str_eq, get_elem?,
  ◌==◌, if◌then◌else◌,
}
use buttercup.Outcome.{Result, ok, raised}
use buttercup.Message.{
  Task, BuildType, fuzzer, coverage, tracer_no_diff, build_type_number, BuildRequest, BuildOutput,
  WeightedHarness, ℤ, pos,
}

-- What the code reads of a `ChallengeTask`, and of a `ProjectYaml`.
pub record ChallengeTask : Type 0 where
  pub task_dir : String
  pub project_name : String
  pub diffs : List String

pub record ProjectYaml : Type 0 where
  pub fuzzing_engines : List String
  pub sanitizers : List String

-- The directories of the node. A directory or a file that is missing raises.
pub record Files : Type 0 where
  pub tasks_storage_dir : String
  -- `directory / name`, and `Path(path).name`
  pub child : (directory name : String) → String
  pub name : (path : String) → String
  pub challenge_task : (directory : String) → Result ChallengeTask
  pub project_yaml : ChallengeTask → (project_name : String) → Result ProjectYaml
  -- `get_fuzz_targets` of the build directory of the task
  pub fuzz_targets : ChallengeTask → Result (List String)

-- `random.choice` takes the option `i`, and raises if there are none.
abbrev pub select_preferred :
    (i : ℕ) (available_options preferred_order : List String) → Result String
select_preferred i available_options [] = elim (get_elem? available_options i) [
  | none ↦ raised
  | some option ↦ ok option
]
select_preferred i available_options (preferred ∷ preferred_order) =
    elim (any (λ o. str_eq o preferred) available_options) [
      | true ↦ ok preferred
      | false ↦ select_preferred i available_options preferred_order
    ]

-- A build that is asked for: its type, its sanitizer, and whether the diff is applied.
abbrev pub BuildKind : Type 0
BuildKind = BuildType × String × Bool

-- The loop over the sanitizers, and the list it starts from.
abbrev pub sanitizer_types : (diffs sanitizers : List String) → List BuildKind
sanitizer_types diffs [] = []
sanitizer_types [] (san ∷ sans) = (fuzzer, san, true) ∷ sanitizer_types [] sans
sanitizer_types (d ∷ ds) (san ∷ sans) =
    (fuzzer, san, true) ∷ (tracer_no_diff, san, false) ∷ sanitizer_types (d ∷ ds) sans

abbrev pub build_types : (diffs sanitizers : List String) → List BuildKind
build_types diffs sanitizers = (coverage, "coverage", true) ∷ sanitizer_types diffs sanitizers

abbrev pub build_request : (engine task_dir task_id : String) → BuildKind → BuildRequest
build_request engine task_dir task_id (build_type, san, apply_diff) = record {
  engine = engine;
  sanitizer = san;
  task_dir = task_dir;
  task_id = task_id;
  build_type = build_type;
  apply_diff = apply_diff;
  patch = "";
  internal_patch_id = "";
}

module _ (files : Files) where
  open files use {tasks_storage_dir, child, name, challenge_task, project_yaml, fuzz_targets}

  abbrev pub build_requests :
      (i : ℕ) → Task → ChallengeTask → ProjectYaml → Result (List BuildRequest)
  build_requests i t c p = elim (select_preferred i p.fuzzing_engines ("libfuzzer" ∷ "afl" ∷ [])) [
    | raised ↦ raised
    | ok engine ↦
        ok (map (build_request engine c.task_dir t.task_id) (build_types c.diffs p.sanitizers))
  ]

  unfoldable pub process_ready_task : (i : ℕ) → Task → Result (List BuildRequest)
  process_ready_task i t = elim (challenge_task (child tasks_storage_dir t.task_id)) [
    | raised ↦ raised
    | ok c ↦ elim (project_yaml c t.project_name) [
      | raised ↦ raised
      | ok p ↦ build_requests i t c p
    ]
  ]

  abbrev pub harness_of : ChallengeTask → BuildOutput → (target : String) → WeightedHarness
  harness_of c b target = record {
    weight = pos 1;
    package_name = c.project_name;
    harness_name = name target;
    task_id = b.task_id;
  }

  unfoldable pub process_build_output : BuildOutput → Result (List WeightedHarness)
  process_build_output b =
      if build_type_number b.build_type == 0
      then elim (challenge_task b.task_dir) [
        | raised ↦ raised
        | ok c ↦ elim (fuzz_targets c) [
          | raised ↦ raised
          | ok targets ↦ ok (map (harness_of c b) targets)
        ]
      ]
      else ok []
