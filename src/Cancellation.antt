-- ===== src/Cancellation.antt =====
-- `Cancellation` of orchestrator/src/buttercup/orchestrator/scheduler/cancellation.py.
pub mod Marks
pub mod Frame
pub mod Requests
use buttercup.Prelude.{String, Bool, true, false, Option, none, some, List, [], ◌∷◌}
use buttercup.Outcome.{Result, ok, raised}
use buttercup.Streams.{Streams}
use buttercup.Queues.{ReliableQueue, RqItem, Popped, pop, ack_item}
use buttercup.Message.{Task, TaskDelete, delete_one, delete_all, delete_unset}
use buttercup.Redis.{Redis, Codec}
use buttercup.TaskRegistry.{id, task, tasks, mark_cancelled, is_cancelled}

module _ (r : Redis) (codec : Codec r.Bytes Task) (lower : String → String) where
  open r use {Store}

  -- The loop over the tasks of the registry, which the iteration fetched at its start.
  abbrev pub mark_tasks : List Task → (any_cancelled : Bool) → Store → Bool × Store
  mark_tasks [] any_cancelled s = (any_cancelled, s)
  mark_tasks (t ∷ ts) any_cancelled s = elim (is_cancelled r codec lower (task t) s) [
    | true ↦ mark_tasks ts any_cancelled s
    | false ↦ mark_tasks ts true (mark_cancelled r codec lower (task t) s)
  ]

  unfoldable pub process_delete_request : TaskDelete → Store → Bool × Store
  process_delete_request (delete_all true) s = mark_tasks (tasks r codec lower s) false s
  process_delete_request (delete_all false) s = (false, s)
  process_delete_request (delete_one task_id) s =
      (true, mark_cancelled r codec lower (id task_id) s)
  process_delete_request delete_unset s = (false, s)

  module _ (x : Streams r.Store r.Bytes) (deletes : Codec r.Bytes TaskDelete) where
    -- What a call leaves: the answer, the queue of requests, and the server.
    pub record Processed : Type 0 where
      pub answer : Result Bool
      pub delete_queue : ReliableQueue
      pub store : Store

    -- The part of the call behind `pop`, for a request, and for any answer of `pop`.
    abbrev pub process_item : ReliableQueue → RqItem TaskDelete → Store → Processed
    process_item q item s =
        let (was_cancelled, s1) = process_delete_request item.deserialized s in
        elim (ack_item x deletes q item.item_id s1) [
          | raised ↦ record { answer = raised; delete_queue = q; store = s1 }
          | ok s2 ↦ record { answer = ok was_cancelled; delete_queue = q; store = s2 }
        ]

    abbrev pub process_popped :
        Result (Option (RqItem TaskDelete)) → ReliableQueue → Store → Processed
    process_popped raised q s = record { answer = raised; delete_queue = q; store = s }
    process_popped (ok none) q s = record { answer = ok false; delete_queue = q; store = s }
    process_popped (ok (some item)) q s = process_item q item s

    -- None if `pop` does not return.
    unfoldable pub process_cancellations : ReliableQueue → Store → Option Processed
    process_cancellations q s = elim (pop x deletes q s) [
      | none ↦ none
      | some out ↦ some (process_popped out.answer out.queue out.store)
    ]
