-- ===== src/Cancellation/Marks.antt =====
-- What a delete request changes, of orchestrator/src/buttercup/orchestrator/scheduler/cancellation.py.
use buttercup.Prelude.{
  ◌≡◌, refl, ap, ◌∙◌, String, Bool, true, false, not, ◌||◌, List, [], ◌∷◌, any, arith, eq_iff,
  str_eq, Bool-cases, inl, inr,
}
use buttercup.Message.{Task, TaskDelete, delete_one, delete_all, delete_unset}
use buttercup.Redis.{Redis, Codec}
use buttercup.TaskRegistry.{
  id, task, tasks, tasks_registry, cancelled_tasks, mark_cancelled, is_cancelled,
}
use buttercup.Cancellation.{mark_tasks, process_delete_request}

module _ (r : Redis) (codec : Codec r.Bytes Task) (lower : String → String) where
  open r use {Store, sismember, sismember-sadd, hget-sadd}

  -- Whether a request is about the task that goes by the id.
  abbrev pub concerns : TaskDelete → String → Store → Bool
  concerns (delete_all true) name s =
      any (λ t. str_eq (lower t.task_id) (lower name)) (tasks r codec lower s)
  concerns (delete_all false) name s = false
  concerns (delete_one task_id) name s = str_eq (lower task_id) (lower name)
  concerns delete_unset name s = false

  -- Whether a request has something to do: one for a single task always has.
  abbrev pub is_needed : TaskDelete → Store → Bool
  is_needed (delete_all true) s =
      any (λ t. not (is_cancelled r codec lower (task t) s)) (tasks r codec lower s)
  is_needed (delete_all false) s = false
  is_needed (delete_one task_id) s = true
  is_needed delete_unset s = false

  -- The server holds the tasks that it held.
  abbrev pub SameTasks : Store → Store → Type 0
  SameTasks s s' = (key : String) → r.hget tasks_registry key s' ≡ r.hget tasks_registry key s

  is_cancelled-mark_cancelled :
      (t : Task) (name : String) (s : Store)
      → is_cancelled r codec lower (id name) (mark_cancelled r codec lower (task t) s)
        ≡ (str_eq (lower t.task_id) (lower name) || is_cancelled r codec lower (id name) s)
  unfolding is_cancelled mark_cancelled
  is_cancelled-mark_cancelled t name s =
      ground
        (arith, sismember-sadd cancelled_tasks (lower t.task_id) cancelled_tasks (lower name) s)

  is_cancelled-same :
      (t : Task) (name : String) (s : Store)
      → is_cancelled r codec lower (task t) s ≡ true
      → (str_eq (lower t.task_id) (lower name) || is_cancelled r codec lower (id name) s)
        ≡ is_cancelled r codec lower (id name) s
  unfolding is_cancelled
  is_cancelled-same t name s h = ground (arith, eq_iff (lower t.task_id) (lower name))

  or_middle : (a b c : Bool) → (b || (a || c)) ≡ ((a || b) || c)
  or_middle a b c = ground arith

  or_absorb : (a b c : Bool) → (a || c) ≡ c → (b || c) ≡ ((a || b) || c)
  or_absorb a b c h = ground arith

  -- What the loop does to the marks, and to the tasks.
  mark_tasks-marks :
      (ts : List Task) (b : Bool) (name : String) (s : Store)
      → is_cancelled r codec lower (id name) (mark_tasks r codec lower ts b s).1 ≡ (
          any (λ t. str_eq (lower t.task_id) (lower name)) ts
          || is_cancelled r codec lower (id name) s)
  mark_tasks-marks [] b name s = refl
  mark_tasks-marks (t ∷ ts) b name s =
      let same = str_eq (lower t.task_id) (lower name) in
      let others = any (λ x. str_eq (lower x.task_id) (lower name)) ts in
      elim (Bool-cases (is_cancelled r codec lower (task t) s)) [
        | inl h ↦
            rw (h, mark_tasks)
              (mark_tasks-marks ts b name s
                ∙ or_absorb same others (is_cancelled r codec lower (id name) s)
                    (is_cancelled-same t name s h))
        | inr h ↦
            rw (h, mark_tasks)
              (mark_tasks-marks ts true name (mark_cancelled r codec lower (task t) s)
                ∙ ap (λ c. others || c) (is_cancelled-mark_cancelled t name s)
                ∙ or_middle same others (is_cancelled r codec lower (id name) s))
      ]

  hget-mark_cancelled :
      (t : Task) (s : Store) → SameTasks s (mark_cancelled r codec lower (task t) s)
  unfolding mark_cancelled
  hget-mark_cancelled t s key = hget-sadd cancelled_tasks (lower t.task_id) tasks_registry key s

  mark_tasks-SameTasks :
      (ts : List Task) (b : Bool) (s : Store) → SameTasks s (mark_tasks r codec lower ts b s).1
  mark_tasks-SameTasks [] b s key = refl
  mark_tasks-SameTasks (t ∷ ts) b s key =
      elim (Bool-cases (is_cancelled r codec lower (task t) s)) [
        | inl h ↦ rw (h, mark_tasks) (mark_tasks-SameTasks ts b s key)
        | inr h ↦
            rw (h, mark_tasks)
              (mark_tasks-SameTasks ts true (mark_cancelled r codec lower (task t) s) key
                ∙ hget-mark_cancelled t s key)
      ]

  mark_tasks-true : (ts : List Task) (s : Store) → (mark_tasks r codec lower ts true s).0 ≡ true
  mark_tasks-true [] s = refl
  mark_tasks-true (t ∷ ts) s = elim (Bool-cases (is_cancelled r codec lower (task t) s)) [
    | inl h ↦ rw (h, mark_tasks) (mark_tasks-true ts s)
    | inr h ↦ rw (h, mark_tasks) (mark_tasks-true ts (mark_cancelled r codec lower (task t) s))
  ]

  mark_tasks-told :
      (ts : List Task) (s : Store)
      → (mark_tasks r codec lower ts false s).0
        ≡ any (λ t. not (is_cancelled r codec lower (task t) s)) ts
  mark_tasks-told [] s = refl
  mark_tasks-told (t ∷ ts) s = elim (Bool-cases (is_cancelled r codec lower (task t) s)) [
    | inl h ↦ rw (h, mark_tasks) (mark_tasks-told ts s)
    | inr h ↦ rw (h, mark_tasks) (mark_tasks-true ts (mark_cancelled r codec lower (task t) s))
  ]

  -- After a delete request a task is cancelled under an id exactly if it was before or the request
  -- concerns it, a request for all tasks concerning those that the registry lists; the answer tells
  -- whether there was a task to mark, one for a single id always telling True; and the stored tasks
  -- stay.
  pub process_delete_request-marks :
      (q : TaskDelete) (s : Store)
      → let (told, s') = process_delete_request r codec lower q s in
        (told ≡ is_needed q s)
        × SameTasks s s'
        × ((name : String)
            → is_cancelled r codec lower (id name) s'
              ≡ (concerns q name s || is_cancelled r codec lower (id name) s))
  unfolding process_delete_request mark_cancelled is_cancelled
  process_delete_request-marks (delete_all true) s = (
    mark_tasks-told (tasks r codec lower s) s,
    mark_tasks-SameTasks (tasks r codec lower s) false s,
    λ name. mark_tasks-marks (tasks r codec lower s) false name s,
  )
  process_delete_request-marks (delete_all false) s = (refl, λ key. refl, λ name. refl)
  process_delete_request-marks (delete_one task_id) s = (
    refl,
    λ key. hget-sadd cancelled_tasks (lower task_id) tasks_registry key s,
    λ name.
        ground
          (arith, sismember-sadd cancelled_tasks (lower task_id) cancelled_tasks (lower name) s),
  )
  process_delete_request-marks delete_unset s = (refl, λ key. refl, λ name. refl)
