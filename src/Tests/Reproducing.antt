-- ===== src/Tests/Reproducing.antt =====
-- The reproducer of POVs and the matcher of SARIF reports on concrete inputs.
use buttercup.Prelude.{
  refl, String, Bool, true, Option, none, some, if◌then◌else◌, List, [], ◌∷◌, str_eq,
}
use buttercup.Outcome.{Result, ok, raised}
use buttercup.Message.{BuildOutput, patch, PovReproduceRequest, pos}
use buttercup.PovStatus.{pov_reproduce_pending, make_key}
use buttercup.PovStatus.Exclusive.{Exclusive}
use buttercup.PovStatus.Race.{sadd-Exclusive}
use buttercup.TaskRegistry.{id, should_stop_processing}
use buttercup.Maps.{build_output_key, get_build_from_san}
use buttercup.PovReproducer.{serve_item}
use buttercup.PovReproducer.Verdict.{progress_after, Moved, serve_item-Moved}
use buttercup.SarifMatcher.{Python, Run, Frame, SarifInfo, StackFrame, match_sarif}
use buttercup.SarifMatcher.Collects.{Collects}
use buttercup.SarifMatcher.Listed.{Locates, places}
use buttercup.SarifMatcher.Frames.{Shows, lines_of}
use buttercup.SarifMatcher.First.{Answers, match_sarif-first}
use buttercup.Tests.Demo.{demo_target}
use buttercup.Tests.MemoryRedis.{Memory, empty}
use buttercup.Tests.MemoryRedis.Keys.{token_json}
use buttercup.Tests.Server.{fold_case}
use buttercup.Tests.Stored.{Stored, codecs, server}

abbrev test_of_build : PovReproduceRequest
test_of_build = record {
  task_id = "task";
  internal_patch_id = "p";
  harness_name = "h";
  sanitizer = "address";
  pov_path = "/pov";
}

abbrev key : String
key = make_key token_json test_of_build

abbrev asked : Memory Stored
asked = (server.sadd pov_reproduce_pending key empty).1

-- The patched build is there, and the POV is to be run against it.
abbrev ready_to_run : Memory Stored
ready_to_run =
    server.set (build_output_key token_json server "task" patch "address" "p")
      (codecs.builds.serialize (record demo_target { build_type = patch; internal_patch_id = "p" }))
      asked

abbrev still_crashes : BuildOutput → (harness_name pov_path : String) → Result (Option Bool)
still_crashes b harness_name pov_path = ok (some true)

no_keys-Exclusive : Exclusive token_json server empty
no_keys-Exclusive = record { at = λ k. (refl, refl, refl) }

ready_to_run-Exclusive : Exclusive token_json server ready_to_run
ready_to_run-Exclusive =
    let (asked-Exclusive, is_pending) =
      sadd-Exclusive token_json server [] key empty no_keys-Exclusive refl in
    record { at = asked-Exclusive.at }

serve_item-Moved_example :
    Moved token_json server codecs.tasks codecs.builds fold_case still_crashes test_of_build
      (progress_after
        (should_stop_processing server codecs.tasks fold_case 5 (id "task") none ready_to_run)
        (get_build_from_san token_json server codecs.builds "task" patch "address" "p" ready_to_run)
        (λ b. still_crashes b "h" "/pov"))
      ready_to_run
      (serve_item token_json server codecs.tasks codecs.builds fold_case still_crashes 5 0
        ready_to_run).1
serve_item-Moved_example =
    serve_item-Moved token_json server codecs.tasks codecs.builds fold_case still_crashes 5 0
      test_of_build ready_to_run ready_to_run-Exclusive refl

-- Texts that are compared as they are.
abbrev plain_python : Python
plain_python = record {
  contains = λ part text. str_eq part text;
  startswith = λ prefix text. str_eq text "OSS_FUZZ_f";
  words = λ text. text ∷ [];
  behind = λ separator text. if str_eq text "OSS_FUZZ_f" then ok "f" else raised;
  path = λ text. text;
  name = λ path. path;
  int = λ text. elim text [ none ↦ raised | some _ ↦ ok 7 ];
}

abbrev report : List Run
report =
    record {
      artifacts = some "a.c" ∷ [];
      results =
          record {
            rule_id = some "CWE-";
            message_text = none;
            locations =
                record {
                  uri = none;
                  index = some (pos 0);
                  start_line = some 5;
                  end_line = some 9;
                  logical_names = some "f" ∷ [];
                }
                ∷ [];
          }
          ∷ [];
    }
    ∷ []

abbrev threads : List (List StackFrame)
threads =
    (record { filename = none; fileline = none; function_name = none }
      ∷ record { filename = some "b.c"; fileline = some "7"; function_name = some "OSS_FUZZ_f" }
      ∷ [])
    ∷ []

match_sarif-first_example :
    (frames : List Frame) × (infos : List SarifInfo) × Collects
      (Shows plain_python)
      (lines_of plain_python threads)
      frames
    × Collects (Locates plain_python) (places plain_python report) infos
    × Answers plain_python frames infos (match_sarif plain_python report threads)
match_sarif-first_example = match_sarif-first plain_python report threads
