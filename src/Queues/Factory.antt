-- ===== src/Queues/Factory.antt =====
-- `QueueFactory` of common/src/buttercup/common/queues.py. The environment of the process is a
-- parameter, with the numbers that `int` reads; so is the random name of the reader.
use buttercup.Prelude.{
  ℕ, ◌≡◌, refl, ap, String, Bool, true, false, Option, none, some, List, [], ◌∷◌, any, str_eq,
  if◌then◌else◌, Bool-cases, inl, inr, ◌⊎◌,
}
use Prim.Native.Nat.{◌*◌}
use buttercup.Outcome.{Result, ok, raised}
use buttercup.Redis.{Codec}
use buttercup.Streams.{Streams}
use buttercup.Queues.{ReliableQueue, Popped, pop}
use buttercup.Queues.Pop.{Kept, pop-Kept}

pub data QueueName : Type 0 where
  build build_output crash confirmed_vulnerabilities download_tasks ready_tasks delete_task patches
        index index_output traced_vulnerabilities pov_reproducer_requests pov_reproducer_responses :
      QueueName

pub data GroupName : Type 0 where
  builder_bot orchestrator patcher index_bot tracer_bot : GroupName

abbrev pub queue_text : QueueName → String
queue_text build = "fuzzer_build_queue"
queue_text build_output = "fuzzer_build_output_queue"
queue_text crash = "fuzzer_crash_queue"
queue_text confirmed_vulnerabilities = "confirmed_vulnerabilities_queue"
queue_text download_tasks = "orchestrator_download_tasks_queue"
queue_text ready_tasks = "tasks_ready_queue"
queue_text delete_task = "orchestrator_delete_task_queue"
queue_text patches = "patches_queue"
queue_text index = "index_queue"
queue_text index_output = "index_output_queue"
queue_text traced_vulnerabilities = "traced_vulnerabilities_queue"
queue_text pov_reproducer_requests = "pov_reproducer_requests_queue"
queue_text pov_reproducer_responses = "pov_reproducer_responses_queue"

abbrev pub group_text : GroupName → String
group_text builder_bot = "build_bot_consumers"
group_text orchestrator = "orchestrator_group"
group_text patcher = "patcher_group"
group_text index_bot = "index_group"
group_text tracer_bot = "tracer_bot_group"

-- `group_names` of the configuration of a queue.
abbrev pub group_names : QueueName → List GroupName
group_names build = builder_bot ∷ []
group_names crash = tracer_bot ∷ []
group_names confirmed_vulnerabilities = patcher ∷ []
group_names index = index_bot ∷ []
group_names _ = orchestrator ∷ []

abbrev minutes : ℕ → ℕ
minutes n = n * 60 * 1000

-- The variable and the default of a timeout.
abbrev pub timeout_of : QueueName → String × ℕ
timeout_of build = ("BUILD_TASK_TIMEOUT_MS", minutes 15)
timeout_of build_output = ("BUILD_OUTPUT_TASK_TIMEOUT_MS", minutes 3)
timeout_of download_tasks = ("DOWNLOAD_TASK_TIMEOUT_MS", minutes 10)
timeout_of ready_tasks = ("READY_TASK_TIMEOUT_MS", minutes 3)
timeout_of delete_task = ("DELETE_TASK_TIMEOUT_MS", minutes 5)
timeout_of crash = ("CRASH_TASK_TIMEOUT_MS", minutes 4)
timeout_of patches = ("PATCH_TASK_TIMEOUT_MS", minutes 10)
timeout_of confirmed_vulnerabilities = ("CONFIRMED_VULNERABILITIES_TASK_TIMEOUT_MS", minutes 10)
timeout_of index = ("INDEX_TASK_TIMEOUT_MS", minutes 30)
timeout_of index_output = ("INDEX_OUTPUT_TASK_TIMEOUT_MS", minutes 3)
timeout_of traced_vulnerabilities = ("TRACED_VULNERABILITIES_TASK_TIMEOUT_MS", minutes 10)
timeout_of pov_reproducer_requests = ("POV_REPRODUCER_REQUESTS_TASK_TIMEOUT_MS", minutes 10)
timeout_of pov_reproducer_responses = ("POV_REPRODUCER_RESPONSES_TASK_TIMEOUT_MS", minutes 10)

-- The members of the enumeration are texts, and compare as such.
abbrev pub is_allowed : QueueName → GroupName → Bool
is_allowed name group = any (λ g. str_eq (group_text group) (group_text g)) (group_names name)

module _ (getenv : String → Option ℕ) (reader_name : String) where
  abbrev pub task_timeout_ms : QueueName → ℕ
  task_timeout_ms name =
      let (variable, default) = timeout_of name in
      elim (getenv variable) [ none ↦ default | some ms ↦ ms ]

  abbrev pub queue_of : QueueName → Option String → Option (Option ℕ) → ReliableQueue
  queue_of name group block_time = record {
    queue_name = queue_text name;
    group_name = group;
    task_timeout_ms = task_timeout_ms name;
    reader_name = reader_name;
    last_stream_id = ">";
    block_time = elim block_time [ none ↦ some 200 | some b ↦ b ];
  }

  -- Of the keyword arguments `block_time` is the one that callers give.
  unfoldable pub create :
      QueueName → Option GroupName → (block_time : Option (Option ℕ)) → Result ReliableQueue
  create name none block_time = ok (queue_of name none block_time)
  create name (some group) block_time =
      if is_allowed name group
      then ok (queue_of name (some (group_text group)) block_time)
      else raised

  module _ {Store Bytes A : Type 0} (x : Streams Store Bytes) (codec : Codec Bytes A) where
    -- A queue for a group is made exactly if the configuration lists the group, and else the call
    -- raises. `pop` on a queue that was made returns and does not raise, whatever the server holds, and
    -- keeps the entries as `Kept` tells, on the stream that the configuration names.
    pub create-Kept :
        (name : QueueName) (group : GroupName) (block_time : Option (Option ℕ)) (s : Store)
        → ((is_allowed name group ≡ false) × (create name (some group) block_time ≡ raised))
          ⊎ ((q : ReliableQueue) × (is_allowed name group ≡ true)
              × (create name (some group) block_time ≡ ok q)
              × (q.queue_name ≡ queue_text name)
              × (out : Popped x codec) × (pop x codec q s ≡ some out)
              × Kept x codec q (group_text group) s out)
    unfolding create
    create-Kept name group block_time s = elim (Bool-cases (is_allowed name group)) [
      | inl h ↦
          let q = queue_of name (some (group_text group)) block_time in
          let (out, popped, kept) = pop-Kept x codec q (group_text group) s refl in
          inr (q, h, ap (λ b. if b then ok q else raised) h, refl, out, popped, kept)
      | inr h ↦ inl (
        h,
        ap (λ b. if b then ok (queue_of name (some (group_text group)) block_time) else raised) h,
      )
    ]
