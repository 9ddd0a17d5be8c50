-- ===== src/Tests/Demo.antt =====
-- A small competition server and Redis, and concrete entries.
use buttercup.Prelude.{
  ℕ, suc, ◌+◌, refl, String, true, false, some, List, [], ◌∷◌, ◌++◌, length, set, str_eq,
}
use buttercup.Message.{
  Bundle, SubmissionResult, accepted, passed, BuildType, BuildOutput, TracedCrash,
  SubmissionEntryPatch, SubmissionEntry,
}
use buttercup.Outcome.{Result, ok, raised}
use buttercup.CompetitionApi.Client.{
  ApiClient, Response, submission_status_accepted, submission_status_passed,
}
use buttercup.Submissions.Env.{Sarif, Env, Command, lset}
use buttercup.Submissions.State.{Limits, State}

-- Every submission is accepted under the id "id", and every status is PASSED. The server counts
-- the calls.
abbrev pub accept : ℕ → Result Response × ℕ
accept r = (ok (record { status = some submission_status_accepted; id = "id" }), suc r)

abbrev pub pass : ℕ → Result Response × ℕ
pass r = (ok (record { status = some submission_status_passed; id = "id" }), suc r)

abbrev pub demo_api : ApiClient
demo_api = record {
  Remote = ℕ;
  read_file = λ _. ok "input";
  b64encode = λ s. s;
  pov_post = λ _ _. accept;
  pov_get = λ _ _. pass;
  patch_post = λ _ _. accept;
  patch_get = λ _ _. pass;
  bundle_post = λ _ _. accept;
  bundle_patch = λ _ _ _. accept;
  task_metadata = λ _ r. (ok tt, r);
  bundle_delete = λ _ _ r. (ok tt, suc r);
  sarif_post = λ _ _. accept;
}

abbrev pub demo_command : Command → List SubmissionEntry → List SubmissionEntry
demo_command (lset i e) l = set l i e
demo_command _ l = l

abbrev pub demo_sarif : Sarif
demo_sarif = record { sarif_id = "sarif"; task_id = "task"; report = "" }

-- Redis holds the list of entries alone. There is one SARIF report, and it matches every crash. Two crashes are similar if they have the same crash token,
-- every POV is mitigated by every patch, and no task is stopped.
abbrev pub demo : Env
demo = record {
  api = demo_api;
  Local = List SubmissionEntry;
  should_stop_processing = λ _ _. false;
  request_status = λ r l. (some (record { request = r; did_crash = false }), l);
  is_similar = λ a b. str_eq a.crash.crash_token b.crash.crash_token;
  get_by_task_id = λ _ _. demo_sarif ∷ [];
  match_sarif = λ _ _. some true;
  uuid4 = λ l. ("uuid", l);
  read_project = λ _ _. ok (record {
    task_dir = "/task";
    fuzzing_engines = "libfuzzer" ∷ [];
    sanitizers = "address" ∷ [];
  });
  assign_none = raised;
  run_command = demo_command;
  get_matched_sarifs = λ _. [];
  lrange = λ l. l;
  rpush = λ e l. (length l + 1, l ++ e ∷ []);
  lrange-lset = λ i e l h. refl;
  lrange-sadd = λ s l. refl;
  lrange-xadd_build = λ b l. refl;
  lrange-xadd_confirmed = λ v l. refl;
  lrange-rpush = λ e l. refl;
  rpush-length = λ e l. refl;
  lrange-request_status = λ r l. refl;
  lrange-uuid4 = λ l. refl;
}

abbrev pub demo_limits : Limits
demo_limits = record {
  patch_submission_retry_limit = 3;
  patch_requests_per_vulnerability = 1;
  concurrent_patch_requests_per_task = 2;
}

abbrev pub demo_target : BuildOutput
demo_target = record {
  engine = "libfuzzer";
  sanitizer = "address";
  task_dir = "/task";
  task_id = "task";
  build_type = BuildType.fuzzer;
  apply_diff = true;
  internal_patch_id = "";
}

abbrev pub crash_of : String → TracedCrash
crash_of token = record {
  crash = record {
    target = demo_target;
    harness_name = "harness";
    crash_input_path = "/crash";
    stacktrace = "";
    crash_token = token;
  };
  tracer_stacktrace = "";
}

-- A patch that was requested, and one that was received.
abbrev pub patch_of : String → String → SubmissionEntryPatch
patch_of id text = record {
  patch = text;
  internal_patch_id = id;
  competition_patch_id = "";
  build_outputs = [];
  result = SubmissionResult.none;
}

-- An entry whose one POV has the id and the result that are given.
abbrev pub entry_of : String → SubmissionResult → List SubmissionEntryPatch → SubmissionEntry
entry_of pov_id result patches = record {
  stop = false;
  crashes = (record { crash = crash_of "a"; competition_pov_id = pov_id; result = result }) ∷ [];
  bundles = [];
  patches = patches;
  patch_idx = 0;
  patch_submission_attempts = 0;
}

abbrev pub fresh : SubmissionEntry
fresh = entry_of "" SubmissionResult.none []

abbrev pub proved : SubmissionEntry
proved = entry_of "pov" passed (patch_of "p" "diff" ∷ [])

abbrev pub waiting : SubmissionEntry
waiting = entry_of "pov" passed (patch_of "q" "" ∷ patch_of "r" "diff" ∷ [])

abbrev pub state_of : List SubmissionEntry → State demo
state_of es = record { entries = es; matched_sarifs = []; pipeline = []; remote = 0; local = es }

abbrev pub bundle_of : String → String → Bundle
bundle_of id patch_id = record {
  task_id = "task";
  competition_pov_id = "pov";
  competition_patch_id = patch_id;
  competition_sarif_id = "";
  bundle_id = id;
}

-- An entry with two bundles, one with one, and one whose patch was sent.
abbrev pub doubled : SubmissionEntry
doubled = record proved { bundles = bundle_of "b1" "" ∷ bundle_of "b2" "" ∷ [] }

abbrev pub bundled : SubmissionEntry
bundled = record proved { bundles = bundle_of "b1" "" ∷ [] }

abbrev pub sent : SubmissionEntry
sent = record proved {
  patches = record (patch_of "p" "diff") { competition_patch_id = "patch"; result = accepted } ∷ [];
}
