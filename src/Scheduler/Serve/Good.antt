-- ===== src/Scheduler/Serve/Good.antt =====
-- What the steps of orchestrator/src/buttercup/orchestrator/scheduler/scheduler.py keep.
use buttercup.Prelude.{◌≡◌, refl, sym, ap, ◌∙◌, subst, String, Bool, false, some, List}
use buttercup.Outcome.{Result, ok, raised, Action, continue, ◌>>=◌}
use buttercup.Redis.{Redis, Json, Codec}
use buttercup.Streams.{Streams, Apart}
use buttercup.Queues.{ReliableQueue}
use buttercup.Queues.Frame.{SameHashes, ack_item-SameHashes, pop-SameHashes}
use buttercup.Scheduler.Builds.{Files}
use buttercup.Scheduler.Serve.{Service, Codecs, Scheduler, popped, acked, attempt}

module _ (json : Json) (r : Redis) (x : Streams r.Store r.Bytes) (apart : Apart r x)
    (codecs : Codecs r.Bytes) (files : Files) (service : Service) (lower : String → String)
    (group : String) where
  abbrev pub Sched : Type 0
  Sched = Scheduler json r x codecs files service lower

  -- Each queue that is read has the group.
  pub record Grouped (s : Sched) : Type 0 where
    pub delete_queue : s.delete_queue.group_name ≡ some group
    pub ready_queue : s.ready_queue.group_name ≡ some group
    pub build_output_queue : s.build_output_queue.group_name ≡ some group
    pub index_output_queue : s.index_output_queue.group_name ≡ some group
    pub traced_vulnerabilities_queue : s.traced_vulnerabilities_queue.group_name ≡ some group
    pub patches_queue : s.patches_queue.group_name ≡ some group

  -- Something that holds of the server's hashes and the cached ids, as long as these stay.
  module _ (P : List String → r.Store → Type 0)
      (stays : (ids : List String) (s s' : r.Store)
        → SameHashes r x apart s s'
        → P ids s
        → P ids s') where
    pub record Good (s : Sched) : Type 0 where
      pub grouped : Grouped s
      pub holds : P s.cached_cancelled_ids s.store
      pub valid : service.Valid s.submissions

    -- The action returns, and keeps this.
    pub record Returned {A : Type 0} (out : Result A × Sched) : Type 0 where
      pub answer : A
      pub after : Sched
      pub returned : out ≡ (ok answer, after)
      pub good : Good after

    abbrev pub Fine : {A : Type 0} → Action Sched A → Type 0
    Fine m = (s : Sched) → Good s → Returned (m s)

    pub bind_at :
        {A B : Type 0} (m : Action Sched A) (f : A → Action Sched B) (s : Sched)
        → Returned (m s)
        → ((a : A) → Fine (f a))
        → Returned ((m >>= f) s)
    bind_at m f s first hf =
        let second = hf first.answer first.after first.good in
        record {
          answer = second.answer;
          after = second.after;
          returned = ap (λ p. continue p.0 f p.1) first.returned ∙ second.returned;
          good = second.good;
        }

    -- The server goes on to a state with the same hashes.
    pub stored-Good :
        (s : Sched) (s' : r.Store)
        → SameHashes r x apart s.store s'
        → Good s
        → Good (record s { store = s' })
    stored-Good s s' h g = record {
      grouped = record {
        delete_queue = g.grouped.delete_queue;
        ready_queue = g.grouped.ready_queue;
        build_output_queue = g.grouped.build_output_queue;
        index_output_queue = g.grouped.index_output_queue;
        traced_vulnerabilities_queue = g.grouped.traced_vulnerabilities_queue;
        patches_queue = g.grouped.patches_queue;
      };
      holds = stays s.cached_cancelled_ids s.store s' h g.holds;
      valid = g.valid;
    }

    -- The entries go on to a state on which no call raises.
    pub submitted-Good :
        (s : Sched) (s' : service.State)
        → service.Valid s'
        → Good s
        → Good (record s { submissions = s' })
    submitted-Good s s' v g = record {
      grouped = record {
        delete_queue = g.grouped.delete_queue;
        ready_queue = g.grouped.ready_queue;
        build_output_queue = g.grouped.build_output_queue;
        index_output_queue = g.grouped.index_output_queue;
        traced_vulnerabilities_queue = g.grouped.traced_vulnerabilities_queue;
        patches_queue = g.grouped.patches_queue;
      };
      holds = g.holds;
      valid = v;
    }

    pub acked-Fine :
        {A : Type 0} (codec : Codec r.Bytes A) (q : ReliableQueue) (i : String) (b : Bool)
        (s : Sched)
        → q.group_name ≡ some group
        → Good s
        → Returned (acked json r x codecs files service lower codec q i b s)
    acked-Fine codec q i b s hq g =
        let (s', e, same) = ack_item-SameHashes r x apart codec q group i s.store hq in
        record {
          answer = b;
          after = record s { store = s' };
          returned = rw (e, acked) refl;
          good = stored-Good s s' same g;
        }

    pub popped-Fine :
        {A : Type 0} (codec : Codec r.Bytes A) (q : ReliableQueue)
        (put : ReliableQueue → Sched → Sched) (s : Sched)
        → q.group_name ≡ some group
        → ((q' : ReliableQueue) (s' : r.Store)
            → q'.group_name ≡ some group
            → Good (record s { store = s' })
            → Good (put q' (record s { store = s' })))
        → Good s
        → Returned (popped json r x codecs files service lower codec q put s)
    popped-Fine codec q put s hq hput g =
        let (item, q', s', e, grouped, same) = pop-SameHashes r x apart codec q group s.store hq in
        record {
          answer = item;
          after = put q' (record s { store = s' });
          returned = rw (e, popped) refl;
          good = hput q' s' grouped (stored-Good s s' same g);
        }

    -- With an `except` an action need only keep this.
    abbrev pub Kept : {A : Type 0} → Result A × Sched → Type 0
    Kept (_, s) = Good s

    attempt_Returned :
        (out : Result Bool × Sched)
        → Kept out
        → Returned {A = Bool} (elim out.0 [ raised ↦ (ok false, out.1) | ok b ↦ (ok b, out.1) ])
    attempt_Returned (raised, s) g = record { answer = false; after = s; returned = refl; good = g }
    attempt_Returned (ok b, s) g = record { answer = b; after = s; returned = refl; good = g }

    pub attempt-Fine :
        (m : Action Sched Bool) (s : Sched)
        → Kept (m s)
        → Returned (attempt json r x codecs files service lower m s)
    attempt-Fine m s g = attempt_Returned (m s) g

    pub Returned-Kept : {A : Type 0} (out : Result A × Sched) → Returned out → Kept out
    Returned-Kept out h = subst (λ o. Good o.1) (sym h.returned) h.good
