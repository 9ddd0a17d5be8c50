-- ===== src/Tests/Scheduling.antt =====
-- The scheduler, the maps, the bots and the reproducer, on the small server.
use buttercup.Prelude.{
  ◌≡◌, refl, String, Bool, true, false, ◌&&◌, some, List, [], ◌∷◌, any, arith, str_eq,
  if◌then◌else◌,
}
use mathlib.Core.List.{Mem}
use buttercup.Prelude.All.{All}
use buttercup.Outcome.{ok, Action}
use buttercup.Message.{
  WeightedHarness, BuildOutput, BuildType, fuzzer, coverage, tracer_no_diff, patch, BuildRequest,
  delete_all,
}
use buttercup.Queues.{push}
use buttercup.TaskRegistry.{id}
use buttercup.Maps.{
  harness_weights, get, add_build, get_build_from_san, get_builds, is_valid_request, push_harness,
  harness_key, list_harnesses,
}
use buttercup.Maps.Builds.{is_build_of, add_build_found}
use buttercup.Maps.Weights.{WellKeyed, push_harness-WellKeyed}
use buttercup.Scheduler.Weights.{
  zero_weight, is_due, should_stop_processing, update_expired_task_weights,
}
use buttercup.Scheduler.Weights.Retired.{update_expired_task_weights-NoneDue}
use buttercup.Scheduler.Builds.{ChallengeTask, ProjectYaml, Files, process_ready_task}
use buttercup.Scheduler.Builds.Requests.{
  sanitizers_of, IsOf, preferred_engine, traced, process_ready_task_builds,
}
use buttercup.Scheduler.Serve.{Service, Scheduler, serve_item}
use buttercup.Scheduler.Serve.Settles.{Sound}
use buttercup.Scheduler.Serve.Whole.{NoneListed, serve_item_settles}
use buttercup.Scheduler.Service.{of_submissions}
use buttercup.StatusChecker
use buttercup.TaskLoop.{Random, Builds}
use buttercup.TaskLoop.Runs.{Turn, serve_item_turn}
use buttercup.TaskLoop.Stopped.{RunsOnly, serve_item_stopped}
use buttercup.Tests.Demo.{demo, demo_limits, demo_target, crash_of, fresh, state_of}
use buttercup.Tests.MemoryRedis.{Memory, empty}
use buttercup.Tests.MemoryRedis.Keys.{token_json}
use buttercup.Tests.MemoryStreams.{memory_apart}
use buttercup.Tests.Server.{fold_case, task_of}
use buttercup.Tests.Stored.{harness_of, Stored, codecs, server, streams, queue}

-- Of each queue that is read an item waits, on the one stream, for the handler whose turn it is.
abbrev arrived : Memory Stored → Memory Stored
arrived s =
    push streams codecs.patches queue
      (record { task_id = "A"; internal_patch_id = "p"; patch = "diff" })
      (push streams codecs.crashes queue (crash_of "a") (
        push streams codecs.index_outputs queue (record { task_id = "A" })
          (push streams codecs.builds queue demo_target (
            push streams codecs.readies queue (record { task = task_of "A" })
              (push streams codecs.deletes queue (delete_all true) s)))))

nothing_arrived-WellKeyed : WellKeyed token_json server codecs.harnesses (arrived empty)
unfolding get push
nothing_arrived-WellKeyed = record { keyed = λ key h e. cc }

-- A harness of a task that is not registered, and so never expires.
abbrev weighted : Memory Stored
weighted = push_harness token_json server codecs.harnesses (harness_of 1 "h") (arrived empty)

weighted-WellKeyed : WellKeyed token_json server codecs.harnesses weighted
weighted-WellKeyed =
    push_harness-WellKeyed token_json server codecs.harnesses (harness_of 1 "h") (arrived empty)
      nothing_arrived-WellKeyed

update_expired_task_weights-NoneDue_example :
    let (told, s') =
      update_expired_task_weights token_json server codecs.tasks codecs.harnesses fold_case 5
        ("A" ∷ [])
        weighted in
    (told
      ≡ any
          (λ h.
            is_due token_json server codecs.tasks codecs.harnesses fold_case 5
              ("A" ∷ [])
              h
              weighted)
          (list_harnesses token_json server codecs.harnesses weighted))
    × All
        (λ h.
          is_due token_json server codecs.tasks codecs.harnesses fold_case 5 ("A" ∷ []) h s'
          ≡ false)
        (list_harnesses token_json server codecs.harnesses s')
    × WellKeyed token_json server codecs.harnesses s'
    × ((o : WeightedHarness)
        → get server codecs.harnesses harness_weights
            (harness_key token_json server codecs.harnesses o)
            s'
          ≡ (if any
                (λ h.
                  is_due token_json server codecs.tasks codecs.harnesses fold_case 5
                    ("A" ∷ [])
                    h
                    weighted
                  && str_eq
                      (harness_key token_json server codecs.harnesses h)
                      (harness_key token_json server codecs.harnesses o))
                (list_harnesses token_json server codecs.harnesses weighted)
              then some (zero_weight o)
              else get server codecs.harnesses harness_weights
                  (harness_key token_json server codecs.harnesses o)
                  weighted))
update_expired_task_weights-NoneDue_example =
    update_expired_task_weights-NoneDue token_json server codecs.tasks codecs.harnesses fold_case 5
      ("A" ∷ []) weighted weighted-WellKeyed

abbrev patched : BuildOutput
patched = record demo_target { build_type = patch; internal_patch_id = "p" }

add_build_found_example :
    let s' = add_build token_json server codecs.builds patched empty in
    ((t : String) (ty : BuildType) (san p : String)
      → get_build_from_san token_json server codecs.builds t ty san p s' ≡ (
          if is_valid_request token_json server ty p
            && is_build_of token_json server codecs.builds t ty san p patched
          then ok (some patched)
          else get_build_from_san token_json server codecs.builds t ty san p empty))
    × ((bs : List BuildOutput) × (get_builds token_json server codecs.builds "task" patch "p" s'
          ≡ ok bs)
        × Mem patched bs)
add_build_found_example = add_build_found token_json server codecs.builds patched empty refl

abbrev challenge : ChallengeTask
challenge = record { task_dir = "/tasks/A"; project_name = "project"; diffs = "a.diff" ∷ [] }

abbrev project : ProjectYaml
project = record {
  fuzzing_engines = "honggfuzz" ∷ "afl" ∷ [];
  sanitizers = "address" ∷ "memory" ∷ [];
}

abbrev files : Files
files = record {
  tasks_storage_dir = "/tasks";
  child = λ _ name. name;
  name = λ path. path;
  challenge_task = λ _. ok challenge;
  project_yaml = λ _ _. ok project;
  fuzz_targets = λ _. ok ("h" ∷ []);
}

process_ready_task_builds_example :
    (qs : List BuildRequest) × (process_ready_task files 0 (task_of "A") ≡ ok qs)
    × (sanitizers_of coverage qs ≡ "coverage" ∷ [])
    × (sanitizers_of fuzzer qs ≡ project.sanitizers)
    × (sanitizers_of tracer_no_diff qs ≡ traced challenge.diffs project.sanitizers)
    × (sanitizers_of patch qs ≡ [])
    × All (IsOf (preferred_engine project.fuzzing_engines "honggfuzz") challenge.task_dir "A") qs
process_ready_task_builds_example =
    process_ready_task_builds files 0 (task_of "A") challenge project "honggfuzz" refl refl refl

abbrev submissions : Service
submissions = of_submissions demo demo_limits

abbrev waiting : Scheduler token_json server streams codecs files submissions fold_case
waiting = record {
  store = weighted;
  submissions = state_of (fresh ∷ []);
  cached_cancelled_ids = [];
  status_checker = StatusChecker.start 10;
  delete_queue = queue;
  ready_queue = queue;
  build_output_queue = queue;
  index_output_queue = queue;
  traced_vulnerabilities_queue = queue;
  patches_queue = queue;
  build_requests_queue = queue;
  index_queue = queue;
}

waiting-Sound :
    Sound token_json server streams
      (memory_apart Stored)
      codecs
      files
      submissions
      fold_case
      "group"
      waiting
waiting-Sound = record {
  grouped = record {
    delete_queue = refl;
    ready_queue = refl;
    build_output_queue = refl;
    index_output_queue = refl;
    traced_vulnerabilities_queue = refl;
    patches_queue = refl;
  };
  holds = weighted-WellKeyed;
  valid = record { count = refl };
}

serve_item_settles_example :
    (told : Bool) × (s' : Scheduler token_json server streams codecs files submissions fold_case)
    × (serve_item token_json server streams codecs files submissions fold_case 5 0 waiting
        ≡ (ok told, s'))
    × Sound token_json server streams
        (memory_apart Stored)
        codecs
        files
        submissions
        fold_case
        "group"
        s'
    × NoneListed token_json server streams
        (memory_apart Stored)
        codecs
        files
        submissions
        fold_case
        "group"
        5
        s'
serve_item_settles_example =
    serve_item_settles token_json server streams (memory_apart Stored) codecs files submissions
      fold_case "group" 5 0 waiting waiting-Sound

abbrev random : Random
random = record { choice = λ _. 0; choice-lt = λ h hs. omega arith }

abbrev run_task : WeightedHarness → Builds → Action (Memory Stored) Unit
run_task h builds s = (ok tt, s)

abbrev built : Memory Stored
built = add_build token_json server codecs.builds (record demo_target { task_id = "A" }) weighted

serve_item_turn_example :
    Turn token_json server codecs.harnesses codecs.builds random
      (fuzzer ∷ coverage ∷ [])
      run_task
      built
serve_item_turn_example =
    serve_item_turn token_json server codecs.harnesses codecs.builds random (fuzzer ∷ coverage ∷ [])
      run_task built

serve_item_stopped_example :
    (told : Bool) × (s' : Scheduler token_json server streams codecs files submissions fold_case)
    × (serve_item token_json server streams codecs files submissions fold_case 5 0 waiting
        ≡ (ok told, s'))
    × RunsOnly token_json server streams
        (memory_apart Stored)
        codecs
        files
        submissions
        fold_case
        "group"
        random
        (fuzzer ∷ [])
        run_task
        (λ h.
          should_stop_processing token_json server codecs.tasks codecs.harnesses fold_case 5
            s'.cached_cancelled_ids
            (id h.task_id)
            s'.store
          ≡ false)
        (serve_item_turn token_json server codecs.harnesses codecs.builds random
          (fuzzer ∷ [])
          run_task
          s'.store)
serve_item_stopped_example =
    serve_item_stopped token_json server streams (memory_apart Stored) codecs files submissions
      fold_case "group" random (fuzzer ∷ []) run_task 5 0 waiting waiting-Sound
