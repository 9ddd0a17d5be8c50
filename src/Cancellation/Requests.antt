-- ===== src/Cancellation/Requests.antt =====
-- One request from the queue of deletions, of
-- orchestrator/src/buttercup/orchestrator/scheduler/cancellation.py.
use buttercup.Prelude.{
  ◌≡◌, refl, sym, ap, ◌∙◌, subst, String, false, not, ◌||◌, Option, none, some, List, [], ◌++◌,
  filter, str_eq, inl, inr, ◌⊎◌,
}
use mathlib.Core.List.{Mem, Perm}
use buttercup.Message.{Task, TaskDelete}
use buttercup.Outcome.{Result, ok, raised}
use buttercup.Redis.{Redis, Codec}
use buttercup.Streams.{Streams, Entry, Apart}
use buttercup.Queues.{RqItem, ReliableQueue, ack_item}
use buttercup.Queues.Pop.{Told, pop-Kept}
use buttercup.Queues.Frame.{SameData, Leaves, pop-Leaves}
use buttercup.TaskRegistry.{id, tasks_registry, cancelled_tasks, is_cancelled}
use buttercup.Cancellation.{
  process_delete_request, Processed, process_item, process_popped, process_cancellations,
}
use buttercup.Cancellation.Marks.{concerns, is_needed, SameTasks, process_delete_request-marks}
use buttercup.Cancellation.Frame.{
  is_cancelled-Same, concerns-Same, is_needed-Same, process_delete_request-SameEntries,
}

module _ (r : Redis) (codec : Codec r.Bytes Task) (lower : String → String)
    (x : Streams r.Store r.Bytes) (deletes : Codec r.Bytes TaskDelete) (apart : Apart r x) where
  open x use {waiting, pending}

  -- No request waited at the start `s`.
  pub record Idle (name group : String) (s : r.Store) (out : Processed r codec lower x deletes)
      : Type 0 where
    pub nothing : waiting name group s ≡ []
    pub told : out.answer ≡ ok false
    pub entries :
        Perm
          (waiting name group out.store ++ pending name group out.store)
          (waiting name group s ++ pending name group s)
    pub stored : SameTasks r codec lower s out.store
    pub marks :
        (other : String)
        → is_cancelled r codec lower (id other) out.store ≡ is_cancelled r codec lower (id other) s

  -- The request of the entry was handled; `given` is what consumers had when it was read.
  pub record Handled (name group : String) (s : r.Store) (out : Processed r codec lower x deletes)
      (e : Entry r.Bytes) (given : List (Entry r.Bytes)) : Type 0 where
    pub read : Mem e given
    pub entries :
        Perm (waiting name group out.store ++ given) (waiting name group s ++ pending name group s)
    pub acked :
        pending name group out.store ≡ filter (λ o. not (str_eq o.message_id e.message_id)) given
    pub told : out.answer ≡ ok (is_needed r codec lower (deletes.parse e.item) s)
    pub stored : SameTasks r codec lower s out.store
    pub marks :
        (other : String)
        → is_cancelled r codec lower (id other) out.store ≡ (
            concerns r codec lower (deletes.parse e.item) other s
            || is_cancelled r codec lower (id other) s)

  ack_item-xack :
      (q : ReliableQueue) (group i : String) (s : r.Store)
      → q.group_name ≡ some group
      → ack_item x deletes q i s ≡ ok (x.xack q.queue_name group i s)
  unfolding ack_item
  ack_item-xack q group i s h =
      ap (λ o. elim o [ none ↦ raised | some g ↦ ok (x.xack q.queue_name g i s) ]) h

  -- The request is handled on the server `s1` that reading it left.
  process_item-Handled :
      (name : String) (q : ReliableQueue) (group : String) (e : Entry r.Bytes) (s s1 : r.Store)
      → q.queue_name ≡ name
      → q.group_name ≡ some group
      → Mem e (pending name group s1)
      → Perm
          (waiting name group s1 ++ pending name group s1)
          (waiting name group s ++ pending name group s)
      → SameData r x apart s s1
      → let item : RqItem TaskDelete = record {
        item_id = e.message_id;
        deserialized = deletes.parse e.item;
      } in
        Handled name group s
          (process_item r codec lower x deletes q item s1)
          e
          (pending name group s1)
  unfolding is_cancelled
  process_item-Handled name q group e s s1 n h m p same =
      let request = deletes.parse e.item in
      let (told, s2) = process_delete_request r codec lower request s1 in
      let (needed, held, marked) = process_delete_request-marks r codec lower request s1 in
      let kept = process_delete_request-SameEntries r codec lower x apart name group request s1 in
      rw (ack_item-xack q group e.message_id s2 h, n, process_item)
        (record {
          read = m;
          entries =
              subst
                (λ w.
                  Perm (w ++ pending name group s1) (waiting name group s ++ pending name group s))
                (sym (x.waiting-xack name group e.message_id s2 ∙ kept.same_waiting)) p;
          acked =
              x.pending-xack name group e.message_id s2
              ∙ ap (filter (λ o. not (str_eq o.message_id e.message_id))) kept.same_pending;
          told = ap ok (needed ∙ is_needed-Same r codec lower x apart request s s1 same);
          stored = λ key.
              apart.hget-xack name group e.message_id tasks_registry key s2
              ∙ held key
              ∙ same.same_hashes.same tasks_registry key;
          marks = λ other.
              apart.sismember-xack name group e.message_id cancelled_tasks (lower other) s2
              ∙ marked other
              ∙ ap (λ b. b || is_cancelled r codec lower (id other) s1)
                  (concerns-Same r codec lower x apart request other s s1 same)
              ∙ ap (λ b. concerns r codec lower request other s || b)
                  (is_cancelled-Same r codec lower x apart other s s1 same);
        })

  -- What a call leaves of the server `s`.
  abbrev pub Report :
      (name group : String) (s : r.Store) → Processed r codec lower x deletes → Type 0
  Report name group s out =
      Idle name group s out
      ⊎ ((e : Entry r.Bytes) × (given : List (Entry r.Bytes)) × Handled name group s out e given)

  popped-Report :
      (name : String) (answer : Result (Option (RqItem TaskDelete))) (q : ReliableQueue)
      (group : String) (s s1 : r.Store)
      → q.queue_name ≡ name
      → q.group_name ≡ some group
      → Told x deletes answer (waiting name group s) (pending name group s1)
      → Perm
          (waiting name group s1 ++ pending name group s1)
          (waiting name group s ++ pending name group s)
      → SameData r x apart s s1
      → Report name group s (process_popped r codec lower x deletes answer q s1)
  popped-Report name raised q group s s1 n h told p same = absurd told
  popped-Report name (ok none) q group s s1 n h told p same = inl (record {
    nothing = told;
    told = refl;
    entries = p;
    stored = λ key. same.same_hashes.same tasks_registry key;
    marks = λ other. is_cancelled-Same r codec lower x apart other s s1 same;
  })
  popped-Report name (ok (some item)) q group s s1 n h (e, is_item, m) p same = inr (
    e,
    pending name group s1,
    subst
        (λ i.
          Handled name group s (process_item r codec lower x deletes q i s1) e
            (pending name group s1))
        (sym is_item) (process_item-Handled name q group e s s1 n h m p same),
  )

  -- On a server on which the commands on streams leave the sets and hashes alone, and SADD the
  -- streams, a call on a queue with a group returns and does not raise. Either no request waited:
  -- it answers False, the cancelled tasks are those that were, and the queue has the entries that
  -- it had. Or it has handled one request of the queue: exactly the tasks that the request
  -- concerned at the start are cancelled now besides those that were, the answer tells whether the
  -- request had something to do at the start, of the pending entries exactly those by the request's
  -- id are gone, and no other entry of the queue is lost. The stored tasks stay in both.
  pub process_cancellations-Report :
      (q : ReliableQueue) (group : String) (s : r.Store)
      → q.group_name ≡ some group
      → (out : Processed r codec lower x deletes) × (process_cancellations r codec lower x deletes q
            s
          ≡ some out)
        × Report q.queue_name group s out
  unfolding process_cancellations
  process_cancellations-Report q group s h =
      let (out, same, kept) = pop-Kept x deletes q group s h in
      let left : Leaves r x apart deletes s (some out) =
        subst (Leaves r x apart deletes s) same (pop-Leaves r x apart deletes q s) in
      (
        process_popped r codec lower x deletes out.answer out.queue out.store,
        ap
            (λ o. elim o [
              | none ↦ none
              | some p ↦ some (process_popped r codec lower x deletes p.answer p.queue p.store)
            ])
            same,
        popped-Report q.queue_name out.answer out.queue group s out.store kept.same_name
            (kept.same_group ∙ h) kept.told kept.entries left,
      )
