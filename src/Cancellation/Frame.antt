-- ===== src/Cancellation/Frame.antt =====
-- What reading a queue leaves of the tasks and their marks, and what marking tasks leaves of a queue, of
-- orchestrator/src/buttercup/orchestrator/scheduler/cancellation.py.
use buttercup.Prelude.{
  ◌≡◌, refl, ap, ◌∙◌, String, Bool, true, false, not, Option, none, some, List, [], ◌∷◌, any,
  str_eq, Bool-cases, Option-cases, sym, inl, inr,
}
use buttercup.Message.{Task, TaskDelete, delete_one, delete_all, delete_unset}
use buttercup.Redis.{Redis, Codec}
use buttercup.Streams.{Streams, Apart}
use buttercup.Queues.Frame.{SameData}
use buttercup.TaskRegistry.{
  id, task, tasks, tasks_of, tasks_registry, cancelled_tasks, mark_cancelled, is_cancelled,
}
use buttercup.Cancellation.{mark_tasks, process_delete_request}
use buttercup.Cancellation.Marks.{concerns, is_needed}

module _ (r : Redis) (codec : Codec r.Bytes Task) (lower : String → String)
    (x : Streams r.Store r.Bytes) (apart : Apart r x) where
  abbrev Same : r.Store → r.Store → Type 0
  Same s s' = SameData r x apart s s'

  pub is_cancelled-Same :
      (name : String) (s s' : r.Store)
      → Same s s'
      → is_cancelled r codec lower (id name) s' ≡ is_cancelled r codec lower (id name) s
  unfolding is_cancelled
  is_cancelled-Same name s s' h = h.same_sets cancelled_tasks (lower name)

  is_cancelled_task-Same :
      (t : Task) (s s' : r.Store)
      → Same s s'
      → is_cancelled r codec lower (task t) s' ≡ is_cancelled r codec lower (task t) s
  unfolding is_cancelled
  is_cancelled_task-Same t s s' h = h.same_sets cancelled_tasks (lower t.task_id)

  -- One step of `tasks_of`, of what is stored and of the members of the cancelled set.
  abbrev listed : Option r.Bytes → List String → List Task → List Task
  listed stored members rest = elim stored [
    | none ↦ rest
    | some bytes ↦
        let t = codec.parse bytes in
        record t { cancelled = any (λ m. str_eq m (lower t.task_id)) members } ∷ rest
  ]

  one_task :
      (key : String) (keys : List String) (s : r.Store)
      → tasks_of r codec lower (key ∷ keys) s
        ≡ listed
            (r.hget tasks_registry key s)
            (r.smembers cancelled_tasks s)
            (tasks_of r codec lower keys s)
  one_task key keys s = elim (Option-cases (r.hget tasks_registry key s)) [
    | inl e ↦ rw (e, tasks_of) refl
    | inr (b, e) ↦ rw (e, tasks_of) refl
  ]

  tasks_of-Same :
      (keys : List String) (s s' : r.Store)
      → Same s s'
      → tasks_of r codec lower keys s' ≡ tasks_of r codec lower keys s
  tasks_of-Same [] s s' h = refl
  tasks_of-Same (key ∷ keys) s s' h =
      one_task key keys s'
      ∙ ap (λ b. listed b (r.smembers cancelled_tasks s') (tasks_of r codec lower keys s'))
          (h.same_hashes.same tasks_registry key)
      ∙ ap (λ m. listed (r.hget tasks_registry key s) m (tasks_of r codec lower keys s'))
          (h.same_members cancelled_tasks)
      ∙ ap (listed (r.hget tasks_registry key s) (r.smembers cancelled_tasks s))
          (tasks_of-Same keys s s' h)
      ∙ sym (one_task key keys s)

  tasks-Same : (s s' : r.Store) → Same s s' → tasks r codec lower s' ≡ tasks r codec lower s
  unfolding tasks
  tasks-Same s s' h =
      ap (λ keys. tasks_of r codec lower keys s') (h.same_keys tasks_registry)
      ∙ tasks_of-Same (r.hkeys tasks_registry s) s s' h

  unmarked-Same :
      (ts : List Task) (s s' : r.Store)
      → Same s s'
      → any (λ t. not (is_cancelled r codec lower (task t) s')) ts
        ≡ any (λ t. not (is_cancelled r codec lower (task t) s)) ts
  unmarked-Same [] s s' h = refl
  unmarked-Same (t ∷ ts) s s' h = rw (is_cancelled_task-Same t s s' h, unmarked-Same ts s s' h) refl

  pub concerns-Same :
      (q : TaskDelete) (name : String) (s s' : r.Store)
      → Same s s'
      → concerns r codec lower q name s' ≡ concerns r codec lower q name s
  concerns-Same (delete_all true) name s s' h =
      ap (any (λ t. str_eq (lower t.task_id) (lower name))) (tasks-Same s s' h)
  concerns-Same (delete_all false) name s s' h = refl
  concerns-Same (delete_one i) name s s' h = refl
  concerns-Same delete_unset name s s' h = refl

  pub is_needed-Same :
      (q : TaskDelete) (s s' : r.Store)
      → Same s s'
      → is_needed r codec lower q s' ≡ is_needed r codec lower q s
  is_needed-Same (delete_all true) s s' h =
      ap (any (λ t. not (is_cancelled r codec lower (task t) s'))) (tasks-Same s s' h)
      ∙ unmarked-Same (tasks r codec lower s) s s' h
  is_needed-Same (delete_all false) s s' h = refl
  is_needed-Same (delete_one i) s s' h = refl
  is_needed-Same delete_unset s s' h = refl

  -- A queue with the entries that it had.
  pub record SameEntries (name group : String) (s s' : r.Store) : Type 0 where
    pub same_waiting : x.waiting name group s' ≡ x.waiting name group s
    pub same_pending : x.pending name group s' ≡ x.pending name group s

  entries_refl : (name group : String) (s : r.Store) → SameEntries name group s s
  entries_refl name group s = record { same_waiting = refl; same_pending = refl }

  entries_trans :
      (name group : String) (s s' s'' : r.Store)
      → SameEntries name group s s'
      → SameEntries name group s' s''
      → SameEntries name group s s''
  entries_trans name group s s' s'' a b = record {
    same_waiting = b.same_waiting ∙ a.same_waiting;
    same_pending = b.same_pending ∙ a.same_pending;
  }

  sadd-SameEntries :
      (name group k m : String) (s : r.Store) → SameEntries name group s (r.sadd k m s).1
  sadd-SameEntries name group k m s = record {
    same_waiting = apart.waiting-sadd name group k m s;
    same_pending = apart.pending-sadd name group k m s;
  }

  mark_cancelled-SameEntries :
      (name group : String) (t : Task) (s : r.Store)
      → SameEntries name group s (mark_cancelled r codec lower (task t) s)
  unfolding mark_cancelled
  mark_cancelled-SameEntries name group t s =
      sadd-SameEntries name group cancelled_tasks (lower t.task_id) s

  mark_tasks-SameEntries :
      (name group : String) (ts : List Task) (b : Bool) (s : r.Store)
      → SameEntries name group s (mark_tasks r codec lower ts b s).1
  mark_tasks-SameEntries name group [] b s = entries_refl name group s
  mark_tasks-SameEntries name group (t ∷ ts) b s =
      let marked = mark_cancelled r codec lower (task t) s in
      elim (Bool-cases (is_cancelled r codec lower (task t) s)) [
        | inl h ↦ rw (h, mark_tasks) (mark_tasks-SameEntries name group ts b s)
        | inr h ↦
            rw (h, mark_tasks)
              (entries_trans name group s marked (mark_tasks r codec lower ts true marked).1
                (mark_cancelled-SameEntries name group t s)
                (mark_tasks-SameEntries name group ts true marked))
      ]

  pub process_delete_request-SameEntries :
      (name group : String) (q : TaskDelete) (s : r.Store)
      → SameEntries name group s (process_delete_request r codec lower q s).1
  unfolding process_delete_request mark_cancelled
  process_delete_request-SameEntries name group (delete_all true) s =
      mark_tasks-SameEntries name group (tasks r codec lower s) false s
  process_delete_request-SameEntries name group (delete_all false) s = entries_refl name group s
  process_delete_request-SameEntries name group (delete_one i) s =
      sadd-SameEntries name group cancelled_tasks (lower i) s
  process_delete_request-SameEntries name group delete_unset s = entries_refl name group s
