-- ===== src/Backend.antt =====
-- The task server: orchestrator/src/buttercup/orchestrator/task_server/backend.py, with the request
-- types of models/types.py beside it. What pydantic leaves open in the metadata is a type `Value` with
-- Python's `str` on it.
pub mod Counts
pub mod Requests
use buttercup.Prelude.{
  ℕ, suc, String, Bool, true, false, not, Option, none, some, List, [], ◌∷◌, map, if◌then◌else◌,
}
use buttercup.Redis.{Redis, Codec}
use buttercup.Streams.{Streams}
use buttercup.Queues.{ReliableQueue, push}
use buttercup.Message.{
  Task, TaskType, task_type_full, task_type_delta, SourceType, source_type_repo,
  source_type_fuzz_tooling, source_type_diff, SourceDetail, TaskDownload, TaskDelete, delete_one,
  delete_all,
}
use buttercup.TaskRegistry.{task, tasks, is_cancelled, is_expired, is_successful, is_errored}
use Prim.Native.Nat.{◌/◌}

-- The types of a request, which have the names of the messages in the source too.
pub data ApiSourceType : Type 0 where
  repo fuzz_tooling diff : ApiSourceType

pub data ApiTaskType : Type 0 where
  full delta : ApiTaskType

pub record ApiSourceDetail : Type 0 where
  pub sha256 : String
  pub type : ApiSourceType
  pub url : String

pub record TaskDetail (Value : Type 0) : Type 0 where
  pub deadline : ℕ
  pub focus : String
  pub harnesses_included : Bool
  pub metadata : List (String × Value)
  pub project_name : String
  pub source : List ApiSourceDetail
  pub task_id : String
  pub type : ApiTaskType

pub record ApiTask (Value : Type 0) : Type 0 where
  pub message_id : String
  pub message_time : ℕ
  pub tasks : List (TaskDetail Value)

pub record StatusTasksState : Type 0 where
  pub canceled : ℕ
  pub errored : ℕ
  pub failed : ℕ
  pub pending : ℕ
  pub processing : ℕ
  pub succeeded : ℕ
  pub waiting : ℕ

abbrev pub no_tasks : StatusTasksState
no_tasks = record {
  canceled = 0;
  errored = 0;
  failed = 0;
  pending = 0;
  processing = 0;
  succeeded = 0;
  waiting = 0;
}

abbrev pub source_type_of : ApiSourceType → SourceType
source_type_of repo = source_type_repo
source_type_of fuzz_tooling = source_type_fuzz_tooling
source_type_of diff = source_type_diff

abbrev pub task_type_of : ApiTaskType → TaskType
task_type_of full = task_type_full
task_type_of delta = task_type_delta

abbrev pub source_of : ApiSourceDetail → SourceDetail
source_of s = record { sha256 = s.sha256; source_type = source_type_of s.type; url = s.url }

module _ (lower : String → String) where
  module _ {Value : Type 0} (str : Value → String) where
    -- The body of the loop. `cancelled` keeps its default.
    abbrev pub task_proto : ApiTask Value → TaskDetail Value → Task
    task_proto t d = record {
      message_id = t.message_id;
      message_time = t.message_time;
      task_id = lower d.task_id;
      task_type = task_type_of d.type;
      sources = map source_of d.source;
      deadline = d.deadline / 1000;
      cancelled = false;
      project_name = d.project_name;
      focus = d.focus;
      metadata = map (λ p. (p.0, str p.1)) d.metadata;
    }

    -- The loop over the details. One without harnesses is skipped.
    abbrev pub task_protos : ApiTask Value → List (TaskDetail Value) → List Task
    task_protos t [] = []
    task_protos t (d ∷ ds) =
        let rest = task_protos t ds in
        if not d.harnesses_included then rest else task_proto t d ∷ rest

    unfoldable pub api_task_to_proto : ApiTask Value → List Task
    api_task_to_proto t = task_protos t t.tasks

  module _ {Store Bytes : Type 0} (x : Streams Store Bytes) where
    abbrev pub push_all : Codec Bytes TaskDownload → ReliableQueue → List Task → Store → Store
    push_all codec q [] s = s
    push_all codec q (t ∷ ts) s = push_all codec q ts (push x codec q (record { task = t }) s)

    unfoldable pub new_task :
        {Value : Type 0}
        → (str : Value → String) → Codec Bytes TaskDownload
        → ApiTask Value
        → ReliableQueue
        → Store
        → Store
    unfolding api_task_to_proto
    new_task str codec t q s = push_all codec q (api_task_to_proto str t) s

    unfoldable pub delete_task :
        Codec Bytes TaskDelete → (task_id : String) → ReliableQueue → Store → Store
    delete_task codec task_id q s = push x codec q (delete_one (lower task_id)) s

    unfoldable pub delete_all_tasks : Codec Bytes TaskDelete → ReliableQueue → Store → Store
    delete_all_tasks codec q s = push x codec q (delete_all true) s

  module _ (r : Redis) (codec : Codec r.Bytes Task) where
    -- The number that goes up for a task.
    abbrev pub count_task :
        (current_time : ℕ) → r.Store → Task → StatusTasksState → StatusTasksState
    count_task now s t n =
        if is_cancelled r codec lower (task t) s
        then record n { canceled = suc n.canceled }
        else if not (is_expired r codec lower now 0 (task t) s)
        then record n { processing = suc n.processing }
        else if is_successful r codec lower (task t) s
        then record n { succeeded = suc n.succeeded }
        else if is_errored r codec lower (task t) s
        then record n { errored = suc n.errored }
        else record n { failed = suc n.failed }

    abbrev pub count_tasks :
        (current_time : ℕ) → r.Store → List Task → StatusTasksState → StatusTasksState
    count_tasks now s [] n = n
    count_tasks now s (t ∷ ts) n = count_tasks now s ts (count_task now s t n)

    unfoldable pub get_status_tasks_state : (current_time : ℕ) → r.Store → StatusTasksState
    get_status_tasks_state now s = count_tasks now s (tasks r codec lower s) no_tasks
