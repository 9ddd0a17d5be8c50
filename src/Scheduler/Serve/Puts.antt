-- ===== src/Scheduler/Serve/Puts.antt =====
-- What the handlers of orchestrator/src/buttercup/orchestrator/scheduler/scheduler.py have in common: an item is read from a queue
-- and acknowledged, and the fields of the scheduler are written back.
use buttercup.Prelude.{◌≡◌, refl, String, Bool, true, false, Option, some, List}
use buttercup.Outcome.{Result, ok, Action, ◌>>=◌}
use buttercup.Redis.{Redis, Json, Codec}
use buttercup.Streams.{Streams, Apart}
use buttercup.Queues.{ReliableQueue, RqItem}
use buttercup.Queues.Frame.{SameHashes}
use buttercup.Scheduler.Builds.{Files}
use buttercup.Scheduler.Serve.{Service, Codecs, popped, acked, acked_if}
use buttercup.Scheduler.Serve.Good.{
  Sched, Good, Returned, bind_at, stored-Good, submitted-Good, acked-Fine, popped-Fine,
}

module _ (json : Json) (r : Redis) (x : Streams r.Store r.Bytes) (apart : Apart r x)
    (codecs : Codecs r.Bytes) (files : Files) (service : Service) (lower : String → String)
    (group : String) where
  abbrev S : Type 0
  S = Sched json r x apart codecs files service lower group

  abbrev Same : r.Store → r.Store → Type 0
  Same s s' = SameHashes r x apart s s'

  module _ (P : List String → r.Store → Type 0)
      (stays : (ids : List String) (s s' : r.Store)
        → SameHashes r x apart s s'
        → P ids s
        → P ids s') where
    abbrev Ok : S → Type 0
    Ok s = Good json r x apart codecs files service lower group P stays s

    abbrev Returns : Result Bool × S → Type 0
    Returns out = Returned json r x apart codecs files service lower group P stays out

    pub put_delete_queue :
        (q : ReliableQueue) (store : r.Store) (s : S)
        → q.group_name ≡ some group
        → Ok (record s { store = store })
        → Ok (record s { store = store; delete_queue = q })
    put_delete_queue q store s h g = record {
      grouped = record {
        delete_queue = h;
        ready_queue = g.grouped.ready_queue;
        build_output_queue = g.grouped.build_output_queue;
        index_output_queue = g.grouped.index_output_queue;
        traced_vulnerabilities_queue = g.grouped.traced_vulnerabilities_queue;
        patches_queue = g.grouped.patches_queue;
      };
      holds = g.holds;
      valid = g.valid;
    }

    pub put_ready_queue :
        (q : ReliableQueue) (store : r.Store) (s : S)
        → q.group_name ≡ some group
        → Ok (record s { store = store })
        → Ok (record s { store = store; ready_queue = q })
    put_ready_queue q store s h g = record {
      grouped = record {
        delete_queue = g.grouped.delete_queue;
        ready_queue = h;
        build_output_queue = g.grouped.build_output_queue;
        index_output_queue = g.grouped.index_output_queue;
        traced_vulnerabilities_queue = g.grouped.traced_vulnerabilities_queue;
        patches_queue = g.grouped.patches_queue;
      };
      holds = g.holds;
      valid = g.valid;
    }

    pub put_build_output_queue :
        (q : ReliableQueue) (store : r.Store) (s : S)
        → q.group_name ≡ some group
        → Ok (record s { store = store })
        → Ok (record s { store = store; build_output_queue = q })
    put_build_output_queue q store s h g = record {
      grouped = record {
        delete_queue = g.grouped.delete_queue;
        ready_queue = g.grouped.ready_queue;
        build_output_queue = h;
        index_output_queue = g.grouped.index_output_queue;
        traced_vulnerabilities_queue = g.grouped.traced_vulnerabilities_queue;
        patches_queue = g.grouped.patches_queue;
      };
      holds = g.holds;
      valid = g.valid;
    }

    pub put_index_output_queue :
        (q : ReliableQueue) (store : r.Store) (s : S)
        → q.group_name ≡ some group
        → Ok (record s { store = store })
        → Ok (record s { store = store; index_output_queue = q })
    put_index_output_queue q store s h g = record {
      grouped = record {
        delete_queue = g.grouped.delete_queue;
        ready_queue = g.grouped.ready_queue;
        build_output_queue = g.grouped.build_output_queue;
        index_output_queue = h;
        traced_vulnerabilities_queue = g.grouped.traced_vulnerabilities_queue;
        patches_queue = g.grouped.patches_queue;
      };
      holds = g.holds;
      valid = g.valid;
    }

    pub put_traced_vulnerabilities_queue :
        (q : ReliableQueue) (store : r.Store) (s : S)
        → q.group_name ≡ some group
        → Ok (record s { store = store })
        → Ok (record s { store = store; traced_vulnerabilities_queue = q })
    put_traced_vulnerabilities_queue q store s h g = record {
      grouped = record {
        delete_queue = g.grouped.delete_queue;
        ready_queue = g.grouped.ready_queue;
        build_output_queue = g.grouped.build_output_queue;
        index_output_queue = g.grouped.index_output_queue;
        traced_vulnerabilities_queue = h;
        patches_queue = g.grouped.patches_queue;
      };
      holds = g.holds;
      valid = g.valid;
    }

    pub put_patches_queue :
        (q : ReliableQueue) (store : r.Store) (s : S)
        → q.group_name ≡ some group
        → Ok (record s { store = store })
        → Ok (record s { store = store; patches_queue = q })
    put_patches_queue q store s h g = record {
      grouped = record {
        delete_queue = g.grouped.delete_queue;
        ready_queue = g.grouped.ready_queue;
        build_output_queue = g.grouped.build_output_queue;
        index_output_queue = g.grouped.index_output_queue;
        traced_vulnerabilities_queue = g.grouped.traced_vulnerabilities_queue;
        patches_queue = h;
      };
      holds = g.holds;
      valid = g.valid;
    }

    pub ack :
        {A : Type 0} (codec : Codec r.Bytes A) (q : ReliableQueue) (i : String) (b : Bool) (s : S)
        → q.group_name ≡ some group
        → Ok s
        → Returns (acked json r x codecs files service lower codec q i b s)
    ack = acked-Fine json r x apart codecs files service lower group P stays

    pub ack_if :
        {A : Type 0} (codec : Codec r.Bytes A) (q : ReliableQueue) (i : String) (b : Bool) (s : S)
        → q.group_name ≡ some group
        → Ok s
        → Returns (acked_if json r x codecs files service lower codec q i b s)
    ack_if codec q i true s h g = ack codec q i true s h g
    ack_if codec q i false s h g = record { answer = false; after = s; returned = refl; good = g }

    pub stored : (s : S) (s' : r.Store) → Same s.store s' → Ok s → Ok (record s { store = s' })
    stored = stored-Good json r x apart codecs files service lower group P stays

    pub plain : (b : Bool) (s : S) → Ok s → Returns (ok b, s)
    plain b s g = record { answer = b; after = s; returned = refl; good = g }

    pub submitted :
        (s : S) (s' : service.State) → service.Valid s' → Ok s → Ok (record s { submissions = s' })
    submitted = submitted-Good json r x apart codecs files service lower group P stays

    -- A handler of the items of a queue.
    pub serve :
        {A : Type 0} (codec : Codec r.Bytes A) (q : ReliableQueue) (put : ReliableQueue → S → S)
        (f : Option (RqItem A) → Action S Bool) (s : S)
        → q.group_name ≡ some group
        → ((q' : ReliableQueue) (store : r.Store)
            → q'.group_name ≡ some group
            → Ok (record s { store = store })
            → Ok (put q' (record s { store = store })))
        → Ok s
        → ((item : Option (RqItem A)) (s' : S) → Ok s' → Returns (f item s'))
        → Returns ((popped json r x codecs files service lower codec q put >>= f) s)
    serve codec q put f s h hput g hf =
        bind_at json r x apart codecs files service lower group P stays
          (popped json r x codecs files service lower codec q put) f s
          (popped-Fine json r x apart codecs files service lower group P stays codec q put s h hput
            g)
          hf
