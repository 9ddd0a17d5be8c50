-- ===== src/Scheduler/Serve/Steps.antt =====
-- The ready tasks and the index outputs of orchestrator/src/buttercup/orchestrator/scheduler/scheduler.py.
use buttercup.Prelude.{
  ℕ, String, Bool, true, false, Option, none, some, List, [], ◌∷◌, Bool-cases, inl, inr,
}
use buttercup.Outcome.{Result, ok, raised}
use buttercup.Message.{TaskReady, BuildRequest, IndexOutput}
use buttercup.Redis.{Redis, Json}
use buttercup.Streams.{Streams, Apart}
use buttercup.Queues.{ReliableQueue, RqItem, push}
use buttercup.Queues.Frame.{SameHashes, same_refl, same_trans, push-SameHashes}
use buttercup.TaskRegistry.{task}
use buttercup.Scheduler.Builds.{ChallengeTask, Files, process_ready_task}
use buttercup.Scheduler.Serve.{
  Service, Codecs, acked, stops, push_all, index_request, push_builds, push_requests, ready_item,
  serve_ready_task, index_output_item, serve_index_output,
}
use buttercup.Scheduler.Serve.Good.{Sched, Good, Returned, Kept, attempt-Fine, Returned-Kept}
use buttercup.Scheduler.Serve.Puts.{
  ack, serve, stored, plain, put_ready_queue, put_index_output_queue,
}

module _ (json : Json) (r : Redis) (x : Streams r.Store r.Bytes) (apart : Apart r x)
    (codecs : Codecs r.Bytes) (files : Files) (service : Service) (lower : String → String)
    (group : String) where
  abbrev S : Type 0
  S = Sched json r x apart codecs files service lower group

  abbrev Same : r.Store → r.Store → Type 0
  Same s s' = SameHashes r x apart s s'

  push_all-Same :
      (q : ReliableQueue) (bs : List BuildRequest) (s : r.Store)
      → Same s (push_all json r x codecs files service lower q bs s)
  push_all-Same q [] s = same_refl r x apart s
  push_all-Same q (b ∷ bs) s =
      let s1 = push x codecs.build_requests q b s in
      same_trans r x apart s s1 (push_all json r x codecs files service lower q bs s1)
        (push-SameHashes r x apart codecs.build_requests q b s) (push_all-Same q bs s1)

  module _ (P : List String → r.Store → Type 0)
      (stays : (ids : List String) (s s' : r.Store)
        → SameHashes r x apart s s'
        → P ids s
        → P ids s') where
    abbrev Ok : S → Type 0
    Ok s = Good json r x apart codecs files service lower group P stays s

    abbrev Returns : Result Bool × S → Type 0
    Returns out = Returned json r x apart codecs files service lower group P stays out

    abbrev Holds : Result Bool × S → Type 0
    Holds out = Kept json r x apart codecs files service lower group P stays out

    push_builds-Kept :
        (i : String) (qs : Result (List BuildRequest)) (s : S)
        → Ok s
        → Holds (push_builds json r x codecs files service lower s.ready_queue i qs s)
    push_builds-Kept i raised s g = g
    push_builds-Kept i (ok qs) s g =
        let s' = push_all json r x codecs files service lower s.build_requests_queue qs s.store in
        Returned-Kept json r x apart codecs files service lower group P stays _ (
          ack json r x apart codecs files service lower group P stays codecs.readies s.ready_queue i
            true (record s { store = s' }) g.grouped.ready_queue
            (stored json r x apart codecs files service lower group P stays s s'
              (push_all-Same s.build_requests_queue qs s.store) g))

    push_requests-Kept :
        (n : ℕ) (item : RqItem TaskReady) (c : Result ChallengeTask) (s : S)
        → Ok s
        → Holds (push_requests json r x codecs files service lower n item c s)
    push_requests-Kept n item raised s g = g
    push_requests-Kept n item (ok c) s g =
        let request = index_request json r x codecs files service lower item.deserialized.task c in
        let s' = push x codecs.index_requests s.index_queue request s.store in
        push_builds-Kept item.item_id (process_ready_task files n item.deserialized.task)
          (record s { store = s' })
          (stored json r x apart codecs files service lower group P stays s s'
            (push-SameHashes r x apart codecs.index_requests s.index_queue request s.store) g)

    ready_item-Fine :
        (now n : ℕ) (item : Option (RqItem TaskReady)) (s : S)
        → Ok s
        → Returns (ready_item json r x codecs files service lower now n item s)
    ready_item-Fine now n none s g =
        plain json r x apart codecs files service lower group P stays false s g
    ready_item-Fine now n (some item) s g =
        let t = item.deserialized.task in
        elim (Bool-cases (stops json r x codecs files service lower now (task t) s)) [
          | inl e ↦
              rw (e, ready_item)
                (ack json r x apart codecs files service lower group P stays codecs.readies
                  s.ready_queue item.item_id true s g.grouped.ready_queue g)
          | inr e ↦
              let c = files.challenge_task (files.child files.tasks_storage_dir t.task_id) in
              rw (e, ready_item)
                (attempt-Fine json r x apart codecs files service lower group P stays
                  (push_requests json r x codecs files service lower n item c) s
                  (push_requests-Kept n item c s g))
        ]

    pub serve_ready_task-Fine :
        (now n : ℕ) (s : S)
        → Ok s
        → Returns (serve_ready_task json r x codecs files service lower now n s)
    unfolding serve_ready_task
    serve_ready_task-Fine now n s g =
        serve json r x apart codecs files service lower group P stays codecs.readies s.ready_queue
          (λ q s'. record s' { ready_queue = q })
          (ready_item json r x codecs files service lower now n) s g.grouped.ready_queue
          (λ q' store h g'.
            put_ready_queue json r x apart codecs files service lower group P stays q' store s h g')
          g (ready_item-Fine now n)

    index_output_item-Fine :
        (item : Option (RqItem IndexOutput)) (s : S)
        → Ok s
        → Returns (index_output_item json r x codecs files service lower item s)
    index_output_item-Fine none s g =
        plain json r x apart codecs files service lower group P stays false s g
    index_output_item-Fine (some item) s g =
        attempt-Fine json r x apart codecs files service lower group P stays
          (acked json r x codecs files service lower codecs.index_outputs s.index_output_queue
            item.item_id true)
          s
          (Returned-Kept json r x apart codecs files service lower group P stays _ (
            ack json r x apart codecs files service lower group P stays codecs.index_outputs
              s.index_output_queue item.item_id true s g.grouped.index_output_queue g))

    pub serve_index_output-Fine :
        (s : S) → Ok s → Returns (serve_index_output json r x codecs files service lower s)
    unfolding serve_index_output
    serve_index_output-Fine s g =
        serve json r x apart codecs files service lower group P stays codecs.index_outputs
          s.index_output_queue (λ q s'. record s' { index_output_queue = q })
          (index_output_item json r x codecs files service lower) s g.grouped.index_output_queue
          (λ q' store h g'.
            put_index_output_queue json r x apart codecs files service lower group P stays q' store
              s h g')
          g index_output_item-Fine
