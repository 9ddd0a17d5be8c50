-- ===== src/TaskRegistry.antt =====
-- `TaskRegistry` of common/src/buttercup/common/task_registry.py. The clock is an argument, in whole
-- seconds, and `str.lower` of Python a parameter, of which nothing is assumed but where a theorem
-- says so.
pub mod Cancelled
pub mod Live
use buttercup.Prelude.{
  ℕ, ◌+◌, String, Bool, true, false, not, ◌&&◌, ◌||◌, Option, none, some, List, [], ◌∷◌, length,
  filter, any, leb, str_eq, if◌then◌else◌,
}
use buttercup.Message.{Task}
use buttercup.Redis.{Redis, Codec, is_some}

abbrev pub tasks_registry : String
tasks_registry = "tasks_registry"

abbrev pub cancelled_tasks : String
cancelled_tasks = "cancelled_tasks"

abbrev pub succeeded_tasks : String
succeeded_tasks = "succeeded_tasks"

abbrev pub errored_tasks : String
errored_tasks = "errored_tasks"

-- `str | Task`
pub data TaskOrId : Type 0 where
  id : String → TaskOrId
  task : Task → TaskOrId

abbrev pub id_of : TaskOrId → String
id_of (id s) = s
id_of (task t) = t.task_id

module _ (r : Redis) (codec : Codec r.Bytes Task) (lower : String → String) where
  open r use {Store, Bytes, sismember, smembers, sadd, srem, hget, hkeys, hset, hdel}
  open codec use {serialize, parse}

  -- The number of keys of a hash is HLEN.
  unfoldable pub len : Store → ℕ
  len s = length (hkeys tasks_registry s)

  -- The values of HGETALL, each with the flag from the members of the cancelled set.
  abbrev pub tasks_of : List String → Store → List Task
  tasks_of [] s = []
  tasks_of (key ∷ keys) s = elim (hget tasks_registry key s) [
    | none ↦ tasks_of keys s
    | some bytes ↦
        let t = parse bytes in
        record t { cancelled = any (λ x. str_eq x (lower t.task_id)) (smembers cancelled_tasks s) }
        ∷ tasks_of keys s
  ]

  -- `__iter__`
  unfoldable pub tasks : Store → List Task
  tasks s = tasks_of (hkeys tasks_registry s) s

  unfoldable pub contains : String → Store → Bool
  contains task_id s = is_some (hget tasks_registry (lower task_id) s)

  unfoldable pub set : Task → Store → Store
  set t s = hset tasks_registry (lower t.task_id) (serialize t) s

  unfoldable pub get : String → Store → Option Task
  get task_id s =
      let prepared_key = lower task_id in
      elim (hget tasks_registry prepared_key s) [
        | none ↦ none
        | some bytes ↦
            some (record (parse bytes) { cancelled = sismember cancelled_tasks prepared_key s })
      ]

  unfoldable pub delete : String → Store → Store
  delete task_id s =
      let prepared_key = lower task_id in
      (srem cancelled_tasks prepared_key (hdel tasks_registry prepared_key s)).1

  unfoldable pub mark_cancelled : TaskOrId → Store → Store
  mark_cancelled t s = (sadd cancelled_tasks (lower (id_of t)) s).1

  unfoldable pub is_cancelled : TaskOrId → Store → Bool
  is_cancelled t s = sismember cancelled_tasks (lower (id_of t)) s

  -- The deadline of a task object, or of the task that is stored under an id.
  abbrev pub deadline_of : TaskOrId → Store → Option ℕ
  deadline_of (task t) s = some t.deadline
  deadline_of (id task_id) s = elim (get task_id s) [ none ↦ none | some t ↦ some t.deadline ]

  unfoldable pub is_expired : (current_time delta_seconds : ℕ) → TaskOrId → Store → Bool
  unfolding get
  is_expired current_time delta_seconds t s = elim (deadline_of t s) [
    | none ↦ false
    | some deadline ↦ leb (deadline + delta_seconds) current_time
  ]

  unfoldable pub get_live_tasks : (current_time : ℕ) → Store → List Task
  unfolding tasks is_expired
  get_live_tasks current_time s =
      filter (λ t. not t.cancelled && not (is_expired current_time 0 (task t) s)) (tasks s)

  unfoldable pub get_cancelled_task_ids : Store → List String
  get_cancelled_task_ids s = smembers cancelled_tasks s

  -- By the ids that the caller knows to be cancelled, if it gives any, or by the set in Redis.
  unfoldable pub should_stop_processing :
      (current_time : ℕ) → TaskOrId → Option (List String) → Store → Bool
  unfolding is_cancelled is_expired
  should_stop_processing current_time t cancelled_ids s =
      elim cancelled_ids [ none ↦ is_cancelled t s | some ids ↦ any (λ x. str_eq x (id_of t)) ids ]
      || is_expired current_time 0 t s

  unfoldable pub mark_successful : TaskOrId → Store → Store
  mark_successful t s = (sadd succeeded_tasks (lower (id_of t)) s).1

  unfoldable pub is_successful : TaskOrId → Store → Bool
  is_successful t s = sismember succeeded_tasks (lower (id_of t)) s

  unfoldable pub mark_errored : TaskOrId → Store → Store
  mark_errored t s = (sadd errored_tasks (lower (id_of t)) s).1

  unfoldable pub is_errored : TaskOrId → Store → Bool
  is_errored t s = sismember errored_tasks (lower (id_of t)) s
