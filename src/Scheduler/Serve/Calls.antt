-- ===== src/Scheduler/Serve/Calls.antt =====
-- The calls of the submissions and of the cancellation in orchestrator/src/buttercup/orchestrator/scheduler/scheduler.py.
use buttercup.Prelude.{
  ℕ, ◌≡◌, refl, String, Bool, true, false, ◌||◌, Option, none, some, List, [], ◌∷◌, Bool-cases, inl,
  inr,
}
use buttercup.Prelude.Branch.{if_ind}
use buttercup.Outcome.{Result, ok, ◌>>=◌}
use buttercup.Message.{Task, TaskDelete, delete_one, delete_all, delete_unset, TracedCrash, Patch}
use buttercup.Redis.{Redis, Json}
use buttercup.Streams.{Streams, Apart}
use buttercup.Queues.{ReliableQueue, RqItem}
use buttercup.Queues.Frame.{SameHashes, same_refl, same_trans, ack_item-SameHashes, pop-SameHashes}
use buttercup.StatusChecker.{StatusChecker, should_check, check_statuses}
use buttercup.Cancellation.{
  mark_tasks, process_delete_request, process_item, process_popped, process_cancellations,
}
use buttercup.TaskRegistry.{task, tasks, mark_cancelled, is_cancelled}
use buttercup.Scheduler.Builds.{Files}
use buttercup.Scheduler.Serve.{
  Service, Codecs, process_deletes, crash_item, patch_item, do_check, checked, serve_crash,
  serve_patch, competition_api_interactions,
}
use buttercup.Scheduler.Serve.Good.{Sched, Good, Returned, bind_at}
use buttercup.Scheduler.Serve.Puts.{
  ack, ack_if, serve, stored, plain, submitted, put_delete_queue, put_traced_vulnerabilities_queue,
  put_patches_queue,
}

module _ (json : Json) (r : Redis) (x : Streams r.Store r.Bytes) (apart : Apart r x)
    (codecs : Codecs r.Bytes) (files : Files) (service : Service) (lower : String → String)
    (group : String) where
  abbrev S : Type 0
  S = Sched json r x apart codecs files service lower group

  abbrev Same : r.Store → r.Store → Type 0
  Same s s' = SameHashes r x apart s s'

  mark_tasks-Same :
      (ts : List Task) (b : Bool) (s : r.Store) → Same s (mark_tasks r codecs.tasks lower ts b s).1
  unfolding mark_cancelled
  mark_tasks-Same [] b s = same_refl r x apart s
  mark_tasks-Same (t ∷ ts) b s = elim (Bool-cases (is_cancelled r codecs.tasks lower (task t) s)) [
    | inl e ↦ rw (e, mark_tasks) (mark_tasks-Same ts b s)
    | inr e ↦
        let s1 = mark_cancelled r codecs.tasks lower (task t) s in
        rw (e, mark_tasks)
          (same_trans r x apart s s1 (mark_tasks r codecs.tasks lower ts true s1).1
            (record { same = λ k f. r.hget-sadd _ _ k f s }) (mark_tasks-Same ts true s1))
  ]

  process_delete_request-Same :
      (q : TaskDelete) (s : r.Store) → Same s (process_delete_request r codecs.tasks lower q s).1
  unfolding process_delete_request mark_cancelled
  process_delete_request-Same (delete_all true) s =
      mark_tasks-Same (tasks r codecs.tasks lower s) false s
  process_delete_request-Same (delete_all false) s = same_refl r x apart s
  process_delete_request-Same (delete_one task_id) s = record {
    same = λ k f. r.hget-sadd _ _ k f s;
  }
  process_delete_request-Same delete_unset s = same_refl r x apart s

  module _ (P : List String → r.Store → Type 0)
      (stays : (ids : List String) (s s' : r.Store)
        → SameHashes r x apart s s'
        → P ids s
        → P ids s') where
    abbrev Ok : S → Type 0
    Ok s = Good json r x apart codecs files service lower group P stays s

    abbrev Returns : Result Bool × S → Type 0
    Returns out = Returned json r x apart codecs files service lower group P stays out

    crash_item-Fine :
        (item : Option (RqItem TracedCrash)) (s : S)
        → Ok s
        → Returns (crash_item json r x codecs files service lower item s)
    crash_item-Fine none s g =
        plain json r x apart codecs files service lower group P stays false s g
    crash_item-Fine (some item) s g =
        let (b, e, valid) =
          service.submit_vulnerability-Valid item.deserialized s.submissions g.valid in
        let s' = (service.submit_vulnerability item.deserialized s.submissions).1 in
        rw (e, crash_item)
          (ack_if json r x apart codecs files service lower group P stays codecs.crashes
            s.traced_vulnerabilities_queue item.item_id b (record s { submissions = s' })
            g.grouped.traced_vulnerabilities_queue
            (submitted json r x apart codecs files service lower group P stays s s' valid g))

    patch_item-Fine :
        (item : Option (RqItem Patch)) (s : S)
        → Ok s
        → Returns (patch_item json r x codecs files service lower item s)
    patch_item-Fine none s g =
        plain json r x apart codecs files service lower group P stays false s g
    patch_item-Fine (some item) s g =
        let s' = service.record_patch item.deserialized s.submissions in
        ack json r x apart codecs files service lower group P stays codecs.patches s.patches_queue
          item.item_id true (record s { submissions = s' }) g.grouped.patches_queue
          (submitted json r x apart codecs files service lower group P stays s s'
            (service.record_patch-Valid item.deserialized s.submissions g.valid) g)

    -- Where the check of the statuses ends.
    abbrev checked_state : (now : ℕ) → S → service.State
    checked_state now s =
        (check_statuses (do_check json r x codecs files service lower) now
          (s.status_checker, s.submissions)).1.1

    checked_Valid :
        (now : ℕ) (s : S) → service.Valid s.submissions → service.Valid (checked_state now s)
    unfolding check_statuses
    checked_Valid now s v =
        if_ind (λ (out : Bool × (StatusChecker × service.State)). service.Valid out.1.1)
          (should_check now s.status_checker).0 (service.process_cycle-Valid s.submissions v) v

    checked-Fine :
        (now : ℕ) (b : Bool) (s : S)
        → Ok s
        → Returns (checked json r x codecs files service lower now b s)
    checked-Fine now b s g =
        let out =
          check_statuses (do_check json r x codecs files service lower) now
            (s.status_checker, s.submissions) in
        record {
          answer = b;
          after = record s { status_checker = out.1.0; submissions = out.1.1 };
          returned = refl;
          good = record {
            grouped = record {
              delete_queue = g.grouped.delete_queue;
              ready_queue = g.grouped.ready_queue;
              build_output_queue = g.grouped.build_output_queue;
              index_output_queue = g.grouped.index_output_queue;
              traced_vulnerabilities_queue = g.grouped.traced_vulnerabilities_queue;
              patches_queue = g.grouped.patches_queue;
            };
            holds = g.holds;
            valid = checked_Valid now s g.valid;
          };
        }

    serve_crash-Fine : (s : S) → Ok s → Returns (serve_crash json r x codecs files service lower s)
    serve_crash-Fine s g =
        serve json r x apart codecs files service lower group P stays codecs.crashes
          s.traced_vulnerabilities_queue (λ q s'. record s' { traced_vulnerabilities_queue = q })
          (crash_item json r x codecs files service lower) s g.grouped.traced_vulnerabilities_queue
          (λ q' store h g'.
            put_traced_vulnerabilities_queue json r x apart codecs files service lower group P stays
              q' store s h g')
          g crash_item-Fine

    serve_patch-Fine : (s : S) → Ok s → Returns (serve_patch json r x codecs files service lower s)
    serve_patch-Fine s g =
        serve json r x apart codecs files service lower group P stays codecs.patches s.patches_queue
          (λ q s'. record s' { patches_queue = q }) (patch_item json r x codecs files service lower)
          s g.grouped.patches_queue
          (λ q' store h g'.
            put_patches_queue json r x apart codecs files service lower group P stays q' store s h
              g')
          g patch_item-Fine

    pub competition_api_interactions-Fine :
        (now : ℕ) (s : S)
        → Ok s
        → Returns (competition_api_interactions json r x codecs files service lower now s)
    unfolding competition_api_interactions
    competition_api_interactions-Fine now s g =
        bind_at json r x apart codecs files service lower group P stays
          (serve_crash json r x codecs files service lower)
          (λ (crash : Bool). serve_patch json r x codecs files service lower >>= λ (patch : Bool).
            checked json r x codecs files service lower now (crash || patch))
          s (serve_crash-Fine s g)
          (λ crash s1 g1.
            bind_at json r x apart codecs files service lower group P stays
              (serve_patch json r x codecs files service lower)
              (λ (patch : Bool). checked json r x codecs files service lower now (crash || patch))
              s1 (serve_patch-Fine s1 g1) (λ patch s2 g2. checked-Fine now (crash || patch) s2 g2))

    -- A request to delete, or none.
    record Deleted (q : ReliableQueue) (s : r.Store) (item : Option (RqItem TaskDelete))
        : Type 0 where
      told : Bool
      store : r.Store
      left :
          process_popped r codecs.tasks lower x codecs.deletes (ok item) q s
          ≡ record { answer = ok told; delete_queue = q; store = store }
      same : Same s store

    process_popped-Deleted :
        (q : ReliableQueue) (s : r.Store) (item : Option (RqItem TaskDelete))
        → q.group_name ≡ some group
        → Deleted q s item
    process_popped-Deleted q s none h = record {
      told = false;
      store = s;
      left = refl;
      same = same_refl r x apart s;
    }
    process_popped-Deleted q s (some item) h =
        let out = process_delete_request r codecs.tasks lower item.deserialized s in
        let (s', e, same) =
          ack_item-SameHashes r x apart codecs.deletes q group item.item_id out.1 h in
        record {
          told = out.0;
          store = s';
          left = rw (e, process_popped, process_item) refl;
          same =
              same_trans r x apart s out.1 s' (process_delete_request-Same item.deserialized s)
                same;
        }

    pub process_deletes-Fine :
        (s : S) → Ok s → Returns (process_deletes json r x codecs files service lower s)
    unfolding process_cancellations
    process_deletes-Fine s g =
        let (item, q, s', e, grouped, same) =
          pop-SameHashes r x apart codecs.deletes s.delete_queue group s.store
            g.grouped.delete_queue in
        let d = process_popped-Deleted q s' item grouped in
        record {
          answer = d.told;
          after = record s { delete_queue = q; store = d.store };
          returned = rw (e, process_deletes, d.left) refl;
          good =
              put_delete_queue json r x apart codecs files service lower group P stays q d.store s
                grouped
                (stored json r x apart codecs files service lower group P stays s d.store
                  (same_trans r x apart s.store s' d.store same d.same) g);
        }
