-- ===== src/Tests/Stored.antt =====
-- A small server whose entries are any of the messages, with a codec for each.
use buttercup.Prelude.{ℕ, refl, String, true, none, some}
use buttercup.Redis.{Redis}
use buttercup.Streams.{Streams}
use buttercup.Message.{
  Task, WeightedHarness, pos, BuildOutput, coverage, TaskReady, BuildRequest, IndexRequest,
  IndexOutput, TracedCrash, Patch, TaskDelete, delete_unset,
}
use buttercup.Queues.{ReliableQueue}
use buttercup.Scheduler.Builds.{build_request}
use buttercup.Scheduler.Serve.{Codecs}
use buttercup.Tests.Demo.{demo_target, crash_of}
use buttercup.Tests.MemoryRedis.{Memory, memory_redis}
use buttercup.Tests.MemoryStreams.{memory_streams}
use buttercup.Tests.Server.{task_of}

abbrev pub harness_of : ℕ → String → WeightedHarness
harness_of n name = record {
  weight = pos n;
  package_name = "project";
  harness_name = name;
  task_id = "A";
}

-- What stands on the server: any of the messages.
pub data Stored : Type 0 where
  a_task : Task → Stored
  a_harness : WeightedHarness → Stored
  a_build : BuildOutput → Stored
  a_ready : TaskReady → Stored
  a_request : BuildRequest → Stored
  an_index_request : IndexRequest → Stored
  an_index_output : IndexOutput → Stored
  a_crash : TracedCrash → Stored
  a_patch : Patch → Stored
  a_delete : TaskDelete → Stored

abbrev pub read_tasks : Stored → Task
read_tasks (a_task m) = m
read_tasks _ = task_of ""

abbrev pub read_harnesses : Stored → WeightedHarness
read_harnesses (a_harness m) = m
read_harnesses _ = harness_of 1 "none"

abbrev pub read_builds : Stored → BuildOutput
read_builds (a_build m) = m
read_builds _ = demo_target

abbrev pub read_readies : Stored → TaskReady
read_readies (a_ready m) = m
read_readies _ = record { task = task_of "" }

abbrev pub read_build_requests : Stored → BuildRequest
read_build_requests (a_request m) = m
read_build_requests _ = build_request "" "" "" (coverage, "", true)

abbrev pub read_index_requests : Stored → IndexRequest
read_index_requests (an_index_request m) = m
read_index_requests _ = record { task_id = ""; task_dir = ""; package_name = "" }

abbrev pub read_index_outputs : Stored → IndexOutput
read_index_outputs (an_index_output m) = m
read_index_outputs _ = record { task_id = "" }

abbrev pub read_crashes : Stored → TracedCrash
read_crashes (a_crash m) = m
read_crashes _ = crash_of ""

abbrev pub read_patches : Stored → Patch
read_patches (a_patch m) = m
read_patches _ = record { task_id = ""; internal_patch_id = ""; patch = "" }

abbrev pub read_deletes : Stored → TaskDelete
read_deletes (a_delete m) = m
read_deletes _ = delete_unset

abbrev pub codecs : Codecs Stored
codecs = record {
  tasks = record { serialize = a_task; parse = read_tasks; parse-serialize = λ m. refl };
  harnesses = record { serialize = a_harness; parse = read_harnesses; parse-serialize = λ m. refl };
  builds = record { serialize = a_build; parse = read_builds; parse-serialize = λ m. refl };
  readies = record { serialize = a_ready; parse = read_readies; parse-serialize = λ m. refl };
  build_requests = record {
    serialize = a_request;
    parse = read_build_requests;
    parse-serialize = λ m. refl;
  };
  index_requests = record {
    serialize = an_index_request;
    parse = read_index_requests;
    parse-serialize = λ m. refl;
  };
  index_outputs = record {
    serialize = an_index_output;
    parse = read_index_outputs;
    parse-serialize = λ m. refl;
  };
  crashes = record { serialize = a_crash; parse = read_crashes; parse-serialize = λ m. refl };
  patches = record { serialize = a_patch; parse = read_patches; parse-serialize = λ m. refl };
  deletes = record { serialize = a_delete; parse = read_deletes; parse-serialize = λ m. refl };
}

abbrev pub server : Redis
server = memory_redis Stored

abbrev pub streams : Streams (Memory Stored) Stored
streams = memory_streams Stored

abbrev pub queue : ReliableQueue
queue = record {
  queue_name = "queue";
  group_name = some "group";
  task_timeout_ms = 1000;
  reader_name = "reader";
  last_stream_id = ">";
  block_time = none;
}
