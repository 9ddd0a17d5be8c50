-- ===== src/Tests/Services.antt =====
-- Queues, the status checker, cancellation and the task server, on the small servers.
use buttercup.Prelude.{
  ◌≡◌, refl, String, Bool, true, false, ◌||◌, none, some, List, [], ◌∷◌, ◌++◌, map, filter, arith,
  eq_iff, if◌then◌else◌, ◌+◌, length, leb,
}
use mathlib.Core.List.Perm
use buttercup.Prelude.All.{All}
use buttercup.Redis.{Codec}
use buttercup.Message.{TaskDelete, delete_unset, Task, TaskDownload, delete_all}
use buttercup.Outcome.{ok, raised}
use buttercup.Streams.{Streams}
use buttercup.TaskRegistry.{id, set, tasks, is_cancelled, get_live_tasks}
use buttercup.Queues.{ReliableQueue, Popped, push, pop}
use buttercup.Queues.Pop.{Kept, pop-Kept}
use buttercup.Queues.Delivery.{
  Call, pushes, pops, acks, claims, World, perform_all, Balanced, perform_all-Balanced,
}
use buttercup.StatusChecker.{start}
use buttercup.StatusChecker.Interval.{calls, Spaced, calls-Spaced}
use buttercup.Cancellation.{process_delete_request, Processed, process_cancellations}
use buttercup.Cancellation.Requests.{Report, process_cancellations-Report}
use buttercup.Cancellation.Marks.{concerns, is_needed, SameTasks, process_delete_request-marks}
use buttercup.Backend.{
  TaskDetail, ApiTask, full, repo, task_proto, api_task_to_proto, new_task, get_status_tasks_state,
}
use buttercup.Backend.Counts.{get_status_tasks_state-counts}
use buttercup.Backend.Requests.{to_come, new_task-to_come, StopsAlike, api_task_to_proto-StopsAlike}
use buttercup.Tests.MemoryRedis.{Memory, empty, memory_redis, plain_codec}
use buttercup.Tests.MemoryStreams.{memory_streams, memory_apart}
use buttercup.Tests.Server.{redis, codec, fold_case, task_of, stored}

-- A check that raises at first; the clock is set back once.
calls-Spaced_example :
    Spaced 60
      (calls
        (λ now. if leb now 100 then raised else ok false)
        (10 ∷ 100 ∷ 120 ∷ 90 ∷ 170 ∷ [])
        (start 60, [])).1
calls-Spaced_example =
    calls-Spaced (λ now. if leb now 100 then raised else ok false) (10 ∷ 100 ∷ 120 ∷ 90 ∷ 170 ∷ [])
      60

process_delete_request-marks_example :
    let (told, s') = process_delete_request redis codec fold_case (delete_all true) stored in
    (told ≡ is_needed redis codec fold_case (delete_all true) stored)
    × SameTasks redis codec fold_case stored s'
    × ((name : String)
        → is_cancelled redis codec fold_case (id name) s' ≡ (
            concerns redis codec fold_case (delete_all true) name stored
            || is_cancelled redis codec fold_case (id name) stored))
process_delete_request-marks_example =
    process_delete_request-marks redis codec fold_case (delete_all true) stored

abbrev streams : Streams (Memory Task) Task
streams = memory_streams Task

abbrev queue : ReliableQueue
queue = record {
  queue_name = "queue";
  group_name = some "group";
  task_timeout_ms = 1000;
  reader_name = "reader";
  last_stream_id = "0";
  block_time = none;
}

abbrev filled : Memory Task
filled = push streams codec queue (task_of "b") (push streams codec queue (task_of "A") empty)

pop-Kept_example :
    (out : Popped streams codec) × (pop streams codec queue filled ≡ some out)
    × Kept streams codec queue "group" filled out
pop-Kept_example = pop-Kept streams codec queue "group" filled refl

abbrev new_world : World (Memory Task) Task
new_world = record { store = empty; pushed = []; acked = [] }

-- Two tasks are pushed, read and claimed, and one of them is acknowledged.
abbrev delivery : List (Call Task)
delivery =
    pushes queue (task_of "A")
    ∷ pushes queue (task_of "b")
    ∷ pops queue
    ∷ pops queue
    ∷ claims queue "0" 0
    ∷ acks queue "0"
    ∷ []

perform_all-Balanced_example :
    Balanced streams codec "queue" "group"
      (perform_all streams codec "queue" "group" delivery new_world)
perform_all-Balanced_example =
    perform_all-Balanced streams codec "queue" "group" delivery new_world (Perm.refl [])

get_status_tasks_state-counts_example :
    let n = get_status_tasks_state fold_case redis codec 5 stored in
    (n.canceled + n.errored + n.failed + n.pending + n.processing + n.succeeded + n.waiting
      ≡ length (tasks redis codec fold_case stored))
    × (n.pending ≡ 0)
    × (n.waiting ≡ 0)
    × (n.processing ≡ length (get_live_tasks redis codec fold_case 5 stored))
get_status_tasks_state-counts_example = get_status_tasks_state-counts fold_case redis codec 5 stored

abbrev detail : String → Bool → TaskDetail String
detail name harnesses_included = record {
  deadline = 100500;
  focus = "focus";
  harnesses_included = harnesses_included;
  metadata = ("key", "value") ∷ [];
  project_name = "project";
  source = record { sha256 = "00"; type = repo; url = "url" } ∷ [];
  task_id = name;
  type = full;
}

abbrev demanded : ApiTask String
demanded = record {
  message_id = "m";
  message_time = 0;
  tasks = detail "A" true ∷ detail "b" false ∷ [];
}

abbrev as_text : String → String
as_text s = s

abbrev download_streams : Streams (Memory TaskDownload) TaskDownload
download_streams = memory_streams TaskDownload

new_task-to_come_example :
    to_come fold_case as_text download_streams plain_codec "queue" "group"
      (new_task fold_case download_streams as_text plain_codec demanded queue empty)
    ≡ to_come fold_case as_text download_streams plain_codec "queue" "group" empty
      ++ map
          (task_proto fold_case as_text demanded)
          (filter (λ d. d.harnesses_included) demanded.tasks)
new_task-to_come_example =
    new_task-to_come fold_case as_text download_streams plain_codec demanded queue "group" empty

fold_case_twice : (s : String) → fold_case (fold_case s) ≡ fold_case s
fold_case_twice s = ground (arith, eq_iff s "A")

api_task_to_proto-StopsAlike_example :
    All (StopsAlike redis codec fold_case) (api_task_to_proto fold_case as_text demanded)
api_task_to_proto-StopsAlike_example =
    api_task_to_proto-StopsAlike redis codec fold_case as_text demanded fold_case_twice

-- A server that holds tasks and requests for deletions.
data Stored : Type 0 where
  a_task : Task → Stored
  a_delete : TaskDelete → Stored

abbrev stored_task : Stored → Task
stored_task (a_task t) = t
stored_task (a_delete _) = task_of ""

abbrev stored_delete : Stored → TaskDelete
stored_delete (a_delete q) = q
stored_delete (a_task _) = delete_unset

abbrev tasks_codec : Codec Stored Task
tasks_codec = record { serialize = a_task; parse = stored_task; parse-serialize = λ t. refl }

abbrev deletes_codec : Codec Stored TaskDelete
deletes_codec = record { serialize = a_delete; parse = stored_delete; parse-serialize = λ q. refl }

abbrev shared_streams : Streams (Memory Stored) Stored
shared_streams = memory_streams Stored

-- A task is registered, and a request to delete all waits.
abbrev requested : Memory Stored
requested =
    push shared_streams deletes_codec queue (delete_all true)
      (set (memory_redis Stored) tasks_codec fold_case (task_of "A") empty)

process_cancellations-Report_example :
    (out : Processed (memory_redis Stored) tasks_codec fold_case shared_streams deletes_codec)
    × (process_cancellations
          (memory_redis Stored)
          tasks_codec
          fold_case
          shared_streams
          deletes_codec
          queue
          requested
        ≡ some out)
    × Report
        (memory_redis Stored)
        tasks_codec
        fold_case
        shared_streams
        deletes_codec
        (memory_apart Stored)
        "queue"
        "group"
        requested
        out
process_cancellations-Report_example =
    process_cancellations-Report (memory_redis Stored) tasks_codec fold_case shared_streams
      deletes_codec (memory_apart Stored) queue "group" requested refl
