-- ===== src/Tests/Server.antt =====
-- The parts that keep their state on the server, on the small Redis server.
use buttercup.Prelude.{
  ◌≡◌, ◌≢◌, refl, String, true, false, not, ◌&&◌, ◌||◌, none, some, [], ◌∷◌, filter, eq_iff, str_eq,
  if◌then◌else◌,
}
use buttercup.Message.{Task, task_type_full, PovReproduceRequest}
use buttercup.Redis.{Redis, Codec}
use buttercup.PovStatus.{State, pov_reproduce_pending, make_key}
use buttercup.PovStatus.Spec.{request, mitigate, pending, replies, spec_replies}
use buttercup.PovStatus.Exclusive.{Exclusive}
use buttercup.PovStatus.View.{view}
use buttercup.PovStatus.Cache.{IsSound}
use buttercup.PovStatus.Refines.{replies-eq-spec}
use buttercup.PovStatus.Race.{as_mitigated, make_marks, sadd-Exclusive}
use buttercup.TaskRegistry.{
  id, task, cancelled_tasks, tasks, set, get, delete, mark_cancelled, is_cancelled, is_expired,
  get_live_tasks, get_cancelled_task_ids, should_stop_processing,
}
use buttercup.TaskRegistry.Cancelled.{
  get-set, get-delete, should_stop_processing-mark_cancelled, should_stop_processing-upper,
}
use buttercup.TaskRegistry.Live.{get_live_tasks-eq-filter}
use buttercup.Tests.MemoryRedis.{Memory, empty, memory_redis, plain_codec}
use buttercup.Tests.MemoryRedis.Keys.{token_json}

abbrev pub redis : Redis
redis = memory_redis Task

abbrev pub codec : Codec Task Task
codec = plain_codec

abbrev test_of_patch : PovReproduceRequest
test_of_patch = record {
  task_id = "t";
  internal_patch_id = "p";
  harness_name = "h";
  sanitizer = "address";
  pov_path = "/pov";
}

abbrev fresh_state : State token_json redis
fresh_state = record { store = empty; cache = [] }

no_keys-Exclusive : Exclusive token_json redis empty
no_keys-Exclusive = record { at = λ key. (refl, refl, refl) }

no_verdicts-IsSound : IsSound [] (view token_json redis empty)
no_verdicts-IsSound = record { sound = λ key b h. cc }

-- A request is asked for twice, and a reproducer finds it mitigated in between.
replies-eq-spec_example :
    let es = request test_of_patch ∷ mitigate test_of_patch ∷ request test_of_patch ∷ [] in
    replies token_json redis es fresh_state
    ≡ spec_replies token_json es (view token_json redis fresh_state.store)
replies-eq-spec_example =
    replies-eq-spec token_json redis
      (request test_of_patch ∷ mitigate test_of_patch ∷ request test_of_patch ∷ []) fresh_state
      (record { exclusive = no_keys-Exclusive; sound = no_verdicts-IsSound })

abbrev one_pending : Memory Task
one_pending = (redis.sadd pov_reproduce_pending (make_key token_json test_of_patch) empty).1

sadd-Exclusive_example :
    let s = make_marks token_json redis (as_mitigated test_of_patch ∷ []) empty in
    Exclusive token_json redis (redis.sadd pov_reproduce_pending "key" s).1
    × (view token_json redis (redis.sadd pov_reproduce_pending "key" s).1 "key" ≡ pending)
sadd-Exclusive_example =
    sadd-Exclusive token_json redis (as_mitigated test_of_patch ∷ []) "key" empty no_keys-Exclusive
      refl

-- The lower case of the two ids that are used.
abbrev pub fold_case : String → String
fold_case s = if str_eq s "A" then "a" else s

abbrev pub task_of : String → Task
task_of name = record {
  message_id = "m";
  message_time = 0;
  task_id = name;
  task_type = task_type_full;
  sources = [];
  deadline = 100;
  cancelled = false;
  project_name = "project";
  focus = "focus";
  metadata = [];
}

abbrev pub stored : Memory Task
stored = set redis codec fold_case (task_of "A") (set redis codec fold_case (task_of "b") empty)

get-set_example : get redis codec fold_case "a" (set redis codec fold_case (task_of "A") stored) ≡ (
    if str_eq (fold_case "A") (fold_case "a")
    then some (record (task_of "A") {
      cancelled = redis.sismember cancelled_tasks (fold_case "a") stored;
    })
    else get redis codec fold_case "a" stored)
get-set_example = get-set redis codec fold_case (task_of "A") "a" stored

get-delete_example :
    let s' = delete redis codec fold_case "A" stored in
    let same = str_eq (fold_case "A") (fold_case "b") in
    (get redis codec fold_case "b" s'
      ≡ (if same then none else get redis codec fold_case "b" stored))
    × (is_cancelled redis codec fold_case (id "b") s'
        ≡ (not same && is_cancelled redis codec fold_case (id "b") stored))
get-delete_example = get-delete redis codec fold_case "A" "b" stored

should_stop_processing-mark_cancelled_example :
    should_stop_processing redis codec fold_case 5
      (id "a")
      none
      (mark_cancelled redis codec fold_case (id "A") stored)
    ≡ (str_eq (fold_case "A") (fold_case "a")
        || should_stop_processing redis codec fold_case 5 (id "a") none stored)
should_stop_processing-mark_cancelled_example =
    should_stop_processing-mark_cancelled redis codec fold_case 5 (id "A") (id "a") stored

abbrev marked_store : Memory Task
marked_store = mark_cancelled redis codec fold_case (id "A") stored

a_ne_capital : fold_case "A" ≢ "A"
a_ne_capital h = let e : false ≡ true = (eq_iff (fold_case "A") "A").1 h in cc

-- The task is cancelled under its id in lower case, and goes on under the other.
should_stop_processing-upper_example :
    should_stop_processing redis codec fold_case 5
      (id "A")
      (some (get_cancelled_task_ids redis codec fold_case marked_store))
      marked_store
    ≡ is_expired redis codec fold_case 5 0 (id "A") marked_store
unfolding get_cancelled_task_ids mark_cancelled set
should_stop_processing-upper_example =
    should_stop_processing-upper redis codec fold_case 5 (id "A") marked_store (refl, tt)
      a_ne_capital

get_live_tasks-eq-filter_example :
    get_live_tasks redis codec fold_case 5 marked_store
    ≡ filter
        (λ t. not (should_stop_processing redis codec fold_case 5 (task t) none marked_store))
        (tasks redis codec fold_case marked_store)
get_live_tasks-eq-filter_example = get_live_tasks-eq-filter redis codec fold_case 5 marked_store
