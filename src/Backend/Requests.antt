-- ===== src/Backend/Requests.antt =====
-- What a request for new tasks becomes, of
-- orchestrator/src/buttercup/orchestrator/task_server/backend.py.
use buttercup.Prelude.{
  ℕ, ◌≡◌, refl, sym, ap, ◌∙◌, String, false, none, some, List, [], ◌∷◌, ◌++◌, map, filter,
  Bool-cases, inl, inr,
}
use buttercup.Prelude.All.{All}
use mathlib.Core.List.{append_assoc, append-nil}
use buttercup.Message.{Task, TaskDownload}
use buttercup.Redis.{Redis, Codec}
use buttercup.Streams.{Streams, Entry}
use buttercup.Queues.{ReliableQueue, push}
use buttercup.TaskRegistry.{task, get_cancelled_task_ids, should_stop_processing}
use buttercup.TaskRegistry.Cancelled.{should_stop_processing-cached}
use buttercup.Backend.{
  TaskDetail, ApiTask, task_proto, task_protos, api_task_to_proto, push_all, new_task,
}

module _ (lower : String → String) {Value : Type 0} (str : Value → String) where
  -- The tasks that are made of a request.
  task_protos-eq-map :
      (t : ApiTask Value) (ds : List (TaskDetail Value))
      → task_protos lower str t ds
        ≡ map (task_proto lower str t) (filter (λ d. d.harnesses_included) ds)
  task_protos-eq-map t [] = refl
  task_protos-eq-map t (d ∷ ds) = elim (Bool-cases d.harnesses_included) [
    | inl h ↦ rw (h, task_protos-eq-map t ds) refl
    | inr h ↦ rw (h, task_protos-eq-map t ds) refl
  ]

  module _ {Store Bytes : Type 0} (x : Streams Store Bytes) (codec : Codec Bytes TaskDownload) where
    open x use {waiting}

    -- What consumers of the group will be given.
    abbrev pub to_come : String → String → Store → List Task
    to_come name group s = map (λ e. (codec.parse e.item).task) (waiting name group s)

    decoded :
        (es : List (Entry Bytes)) (e : Entry Bytes)
        → map (λ o. (codec.parse o.item).task) (es ++ (e ∷ []))
          ≡ map (λ o. (codec.parse o.item).task) es ++ ((codec.parse e.item).task ∷ [])
    decoded [] e = refl
    decoded (o ∷ es) e = ap (λ l. (codec.parse o.item).task ∷ l) (decoded es e)

    to_come-push :
        (t : Task) (q : ReliableQueue) (group : String) (s : Store)
        → to_come q.queue_name group (push x codec q (record { task = t }) s)
          ≡ to_come q.queue_name group s ++ (t ∷ [])
    unfolding push
    to_come-push t q group s =
        ap (map (λ e. (codec.parse e.item).task))
          (x.waiting-xadd q.queue_name group (codec.serialize (record { task = t })) s)
        ∙ decoded (waiting q.queue_name group s) (record {
          message_id = (x.xadd q.queue_name (codec.serialize (record { task = t })) s).0;
          item = codec.serialize (record { task = t });
        })
        ∙ ap (λ a. to_come q.queue_name group s ++ (a.task ∷ []))
            (codec.parse-serialize (record { task = t }))

    to_come-push_all :
        (ts : List Task) (q : ReliableQueue) (group : String) (s : Store)
        → to_come q.queue_name group (push_all lower x codec q ts s)
          ≡ to_come q.queue_name group s ++ ts
    to_come-push_all [] q group s = sym (append-nil (to_come q.queue_name group s))
    to_come-push_all (t ∷ ts) q group s =
        to_come-push_all ts q group (push x codec q (record { task = t }) s)
        ∙ ap (λ l. l ++ ts) (to_come-push t q group s)
        ∙ append_assoc (to_come q.queue_name group s) (t ∷ []) ts

    -- After a request for new tasks every group of consumers has to come, behind what it had and in
    -- the order of the request, exactly the tasks of those details that have harnesses, as they are
    -- read back from the queue.
    pub new_task-to_come :
        (t : ApiTask Value) (q : ReliableQueue) (group : String) (s : Store)
        → to_come q.queue_name group (new_task lower x str codec t q s)
          ≡ to_come q.queue_name group s
            ++ map (task_proto lower str t) (filter (λ d. d.harnesses_included) t.tasks)
    unfolding new_task api_task_to_proto
    new_task-to_come t q group s =
        to_come-push_all (task_protos lower str t t.tasks) q group s
        ∙ ap (λ l. to_come q.queue_name group s ++ l) (task_protos-eq-map t t.tasks)

module _ (r : Redis) (codec : Codec r.Bytes Task) (lower : String → String) where
  -- A task that the cached ids and the registry stop alike, and that is not cancelled.
  pub record StopsAlike (p : Task) : Type 0 where
    pub alike :
        (now : ℕ) (s : r.Store)
        → should_stop_processing r codec lower now
            (task p)
            (some (get_cancelled_task_ids r codec lower s))
            s
          ≡ should_stop_processing r codec lower now (task p) none s
    pub not_cancelled : p.cancelled ≡ false

  module _ {Value : Type 0} (str : Value → String) where
    task_protos-StopsAlike :
        (t : ApiTask Value) (ds : List (TaskDetail Value))
        → ((s : String) → lower (lower s) ≡ lower s)
        → All StopsAlike (task_protos lower str t ds)
    task_protos-StopsAlike t [] h = tt
    task_protos-StopsAlike t (d ∷ ds) h = elim (Bool-cases d.harnesses_included) [
      | inl e ↦ rw (e) (
        record {
          alike = λ now s.
              should_stop_processing-cached r codec lower now (task (task_proto lower str t d)) s
                (h d.task_id);
          not_cancelled = refl;
        },
        task_protos-StopsAlike t ds h,
      )
      | inr e ↦ rw (e) (task_protos-StopsAlike t ds h)
    ]

    -- If lower-casing twice is lower-casing once, then each task that is made of a request is stopped
    -- by the cancelled ids that the scheduler fetched exactly if the registry itself stops it, at any
    -- time and whatever else is stored, and it comes without the mark that it is cancelled.
    pub api_task_to_proto-StopsAlike :
        (t : ApiTask Value)
        → ((s : String) → lower (lower s) ≡ lower s)
        → All StopsAlike (api_task_to_proto lower str t)
    unfolding api_task_to_proto
    api_task_to_proto-StopsAlike t h = task_protos-StopsAlike t t.tasks h
