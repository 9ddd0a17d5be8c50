-- ===== src/TaskRegistry/Cancelled.antt =====
-- What the registry remembers of a task, of common/src/buttercup/common/task_registry.py.
use buttercup.Prelude.{
  ℕ, ◌≡◌, ◌≢◌, refl, ap, String, false, not, ◌&&◌, ◌||◌, none, some, List, [], ◌∷◌, any, arith,
  eq_iff, str_eq, if◌then◌else◌,
}
use buttercup.Prelude.All.{All}
use buttercup.Message.{Task}
use buttercup.Redis.{Redis, Codec}
use buttercup.TaskRegistry.{
  TaskOrId, id, task, id_of, tasks_registry, cancelled_tasks, set, get, delete, mark_cancelled,
  is_cancelled, is_expired, should_stop_processing, get_cancelled_task_ids,
}

module _ (r : Redis) (codec : Codec r.Bytes Task) (lower : String → String) where
  open r use {
    Store, sismember, smembers, hget, hget-hset, hget-hdel, hget-srem, sismember-srem,
    sismember-hdel, sismember-hset, sismember-sadd, smembers-any,
  }

  -- A task that was stored is found under each spelling of its id that `lower` makes the same, with
  -- the flag that the cancelled set tells; what is found under the other ids stays.
  pub get-set :
      (t : Task) (task_id : String) (s : Store)
      → get r codec lower task_id (set r codec lower t s) ≡ (
          if str_eq (lower t.task_id) (lower task_id)
          then some (record t { cancelled = sismember cancelled_tasks (lower task_id) s })
          else get r codec lower task_id s)
  unfolding get set
  get-set t task_id s = ground (
    arith,
    codec.parse-serialize t,
    hget-hset tasks_registry (lower t.task_id) (codec.serialize t) tasks_registry (lower task_id) s,
    sismember-hset tasks_registry (lower t.task_id) (codec.serialize t) cancelled_tasks
        (lower task_id) s,
  )

  -- A task that was deleted is gone under each spelling of its id, with its mark; the other tasks
  -- and their marks stay.
  pub get-delete :
      (task_id other : String) (s : Store)
      → let s' = delete r codec lower task_id s in
        let same = str_eq (lower task_id) (lower other) in
        (get r codec lower other s' ≡ (if same then none else get r codec lower other s))
        × (is_cancelled r codec lower (id other) s'
            ≡ (not same && is_cancelled r codec lower (id other) s))
  unfolding get delete is_cancelled
  get-delete task_id other s =
      let k = lower task_id in
      let without = r.hdel tasks_registry k s in
      (
        ground (
          arith,
          hget-srem cancelled_tasks k tasks_registry (lower other) without,
          hget-hdel tasks_registry k tasks_registry (lower other) s,
          sismember-srem cancelled_tasks k cancelled_tasks (lower other) without,
          sismember-hdel tasks_registry k cancelled_tasks (lower other) s,
        ),
        ground (
          arith,
          sismember-srem cancelled_tasks k cancelled_tasks (lower other) without,
          sismember-hdel tasks_registry k cancelled_tasks (lower other) s,
        ),
      )

  -- Once a task was marked as cancelled, every component that asks the registry stops on it, at any
  -- time and under each spelling of its id; and no task under another id is stopped by the mark.
  pub should_stop_processing-mark_cancelled :
      (now : ℕ) (t other : TaskOrId) (s : Store)
      → should_stop_processing r codec lower now other none (mark_cancelled r codec lower t s) ≡ (
          str_eq (lower (id_of t)) (lower (id_of other))
          || should_stop_processing r codec lower now other none s)
  unfolding should_stop_processing mark_cancelled is_cancelled is_expired get
  should_stop_processing-mark_cancelled now t (id o) s = ground (
    arith,
    sismember-sadd cancelled_tasks (lower (id_of t)) cancelled_tasks (lower o) s,
    r.hget-sadd cancelled_tasks (lower (id_of t)) tasks_registry (lower o) s,
  )
  should_stop_processing-mark_cancelled now t (task o) s =
      ground (
        arith,
        sismember-sadd cancelled_tasks (lower (id_of t)) cancelled_tasks (lower o.task_id) s,
      )

  -- The scheduler passes the cancelled ids that it fetched: for an id that is in lower case this is
  -- as good as asking the registry.
  pub should_stop_processing-cached :
      (now : ℕ) (t : TaskOrId) (s : Store)
      → lower (id_of t) ≡ id_of t
      → should_stop_processing r codec lower now t (some (get_cancelled_task_ids r codec lower s)) s
        ≡ should_stop_processing r codec lower now t none s
  unfolding should_stop_processing get_cancelled_task_ids is_cancelled
  should_stop_processing-cached now t s h =
      ground
        (arith, smembers-any cancelled_tasks (id_of t) s, ap (λ k. sismember cancelled_tasks k s) h)

  not_among :
      (name : String) (ids : List String)
      → lower name ≢ name
      → All (λ x. lower x ≡ x) ids
      → any (λ x. str_eq x name) ids ≡ false
  not_among name [] h a = refl
  not_among name (x ∷ ids) h a =
      ground (arith, eq_iff x name, not_among name ids h a.1, ap lower {x = x} {y = name}, a.0)

  -- The ids that are fetched are in lower case. So with them a task whose id is not is never found to
  -- be cancelled: it is stopped only when it has expired.
  pub should_stop_processing-upper :
      (now : ℕ) (t : TaskOrId) (s : Store)
      → All (λ x. lower x ≡ x) (get_cancelled_task_ids r codec lower s)
      → lower (id_of t) ≢ id_of t
      → should_stop_processing r codec lower now t (some (get_cancelled_task_ids r codec lower s)) s
        ≡ is_expired r codec lower now 0 t s
  unfolding should_stop_processing
  should_stop_processing-upper now t s a h =
      ground (arith, not_among (id_of t) (get_cancelled_task_ids r codec lower s) h a)
