-- ===== src/Scheduler/Serve/Settles.antt =====
-- A whole `serve_item` of orchestrator/src/buttercup/orchestrator/scheduler/scheduler.py.
use buttercup.Prelude.{
  ℕ, ◌≡◌, refl, sym, ap, ◌∙◌, String, Bool, true, false, ◌==◌, Option, none, some, List, [], ◌∷◌,
  Bool-cases, inl, inr, arith,
}
use buttercup.Outcome.{Result, ok, raised, ◌>>=◌}
use buttercup.Message.{BuildOutput, WeightedHarness, build_type_number}
use buttercup.Redis.{Redis, Json}
use buttercup.Streams.{Streams, Apart}
use buttercup.Queues.{ReliableQueue, RqItem}
use buttercup.Queues.Frame.{SameHashes}
use buttercup.TaskRegistry
use buttercup.TaskRegistry.{id, tasks_registry}
use buttercup.Maps.{harness_weights, get, add_build, push_harness}
use buttercup.Maps.Weights.{WellKeyed, push_harness-WellKeyed}
use buttercup.Scheduler.Builds.{Files, process_build_output}
use buttercup.Scheduler.Weights.{should_stop_processing, is_due}
use buttercup.Scheduler.Weights.Retired.{NoneDue}
use buttercup.Scheduler.Serve.{
  Service, Codecs, acked_if, stops, update_cached_cancelled_ids, push_harnesses, harnesses_pushed,
  process_regular_build_output, process_patched_build_output, process_any_build_output,
  build_output_item, serve_build_output,
}
use buttercup.Scheduler.Serve.Good.{
  Sched, Grouped, Good, Returned, bind_at, stored-Good, submitted-Good,
}
use buttercup.Scheduler.Serve.Puts.{ack, ack_if, serve, put_build_output_queue}

module _ (json : Json) (r : Redis) (x : Streams r.Store r.Bytes) (apart : Apart r x)
    (codecs : Codecs r.Bytes) (files : Files) (service : Service) (lower : String → String)
    (group : String) where
  abbrev pub S : Type 0
  S = Sched json r x apart codecs files service lower group

  abbrev pub Same : r.Store → r.Store → Type 0
  Same s s' = SameHashes r x apart s s'

  abbrev due : (now : ℕ) → List String → WeightedHarness → r.Store → Bool
  due now ids h s = is_due json r codecs.tasks codecs.harnesses lower now ids h s

  get-Same :
      (key : String) (s s' : r.Store)
      → Same s s'
      → get r codecs.harnesses harness_weights key s' ≡ get r codecs.harnesses harness_weights key s
  unfolding get
  get-Same key s s' h =
      ap (λ o. elim o [ none ↦ none | some it ↦ some (codecs.harnesses.parse it) ])
        (h.same harness_weights key)

  abbrev pub Keyed : List String → r.Store → Type 0
  Keyed ids s = WellKeyed json r codecs.harnesses s

  pub keyed_stays : (ids : List String) (s s' : r.Store) → Same s s' → Keyed ids s → Keyed ids s'
  keyed_stays ids s s' h w = record {
    keyed = λ key o e. w.keyed key o (sym (get-Same key s s' h) ∙ e);
  }

  due-Same :
      (now : ℕ) (ids : List String) (o : WeightedHarness) (s s' : r.Store)
      → Same s s'
      → due now ids o s' ≡ due now ids o s
  unfolding should_stop_processing TaskRegistry.should_stop_processing TaskRegistry.is_expired
      TaskRegistry.get
  due-Same now ids o s s' h = ground (arith, h.same tasks_registry (lower o.task_id))

  -- Each harness is under its own key, and none is due.
  abbrev pub Settled : (now : ℕ) → List String → r.Store → Type 0
  Settled now ids s =
      WellKeyed json r codecs.harnesses s
      × NoneDue json r codecs.tasks codecs.harnesses lower now ids s

  pub Settled-stays :
      (now : ℕ) (ids : List String) (s s' : r.Store)
      → Same s s'
      → Settled now ids s
      → Settled now ids s'
  Settled-stays now ids s s' h (w, n) = (
    keyed_stays ids s s' h w,
    record {
      retired =
          λ key o e. due-Same now ids o s s' h ∙ n.retired key o (sym (get-Same key s s' h) ∙ e);
    },
  )

  -- The queues have the group, the submissions raise nowhere, and each harness is under its own key.
  abbrev pub Sound : S → Type 0
  Sound s = Good json r x apart codecs files service lower group Keyed keyed_stays s

  abbrev Returns : Result Bool × S → Type 0
  Returns out = Returned json r x apart codecs files service lower group Keyed keyed_stays out

  push_harnesses-Keyed :
      (hs : List WeightedHarness) (s : r.Store)
      → WellKeyed json r codecs.harnesses s
      → WellKeyed json r codecs.harnesses (push_harnesses json r x codecs files service lower hs s)
  push_harnesses-Keyed [] s w = w
  push_harnesses-Keyed (h ∷ hs) s w =
      push_harnesses-Keyed hs (push_harness json r codecs.harnesses h s)
        (push_harness-WellKeyed json r codecs.harnesses h s w)

  add_build-Same : (b : BuildOutput) (s : r.Store) → Same s (add_build json r codecs.builds b s)
  unfolding add_build
  add_build-Same b s = record { same = λ k f. r.hget-set _ _ k f _ ∙ r.hget-sadd _ _ k f s }

  -- What the queues and the submissions are to be stays, where the store changes.
  pub restored :
      (s : S) (s' : r.Store)
      → WellKeyed json r codecs.harnesses s'
      → Sound s
      → Sound (record s { store = s' })
  restored s s' w g = record { grouped = grouped; holds = w; valid = g.valid }
    where
      grouped : Grouped json r x apart codecs files service lower group (record s { store = s' })
      grouped = record {
        delete_queue = g.grouped.delete_queue;
        ready_queue = g.grouped.ready_queue;
        build_output_queue = g.grouped.build_output_queue;
        index_output_queue = g.grouped.index_output_queue;
        traced_vulnerabilities_queue = g.grouped.traced_vulnerabilities_queue;
        patches_queue = g.grouped.patches_queue;
      }

  harnesses_pushed-Fine :
      (hs : Result (List WeightedHarness)) (s : S)
      → Sound s
      → Returns (harnesses_pushed json r x codecs files service lower hs s)
  harnesses_pushed-Fine raised s g = record { answer = false; after = s; returned = refl; good = g }
  harnesses_pushed-Fine (ok hs) s g = record {
    answer = true;
    after = record s { store = push_harnesses json r x codecs files service lower hs s.store };
    returned = refl;
    good = restored s _ (push_harnesses-Keyed hs s.store g.holds) g;
  }

  process_any-Fine :
      (b : BuildOutput) (s : S)
      → Sound s
      → Returns (process_any_build_output json r x codecs files service lower b s)
  unfolding process_patched_build_output process_regular_build_output
  process_any-Fine b s g = elim (Bool-cases (build_type_number b.build_type == 3)) [
    | inl e ↦
        rw (e, process_any_build_output)
          (record {
            answer = true;
            after = record s { submissions = service.record_patched_build b s.submissions };
            returned = refl;
            good =
                submitted-Good json r x apart codecs files service lower group Keyed keyed_stays s _
                  (service.record_patched_build-Valid b s.submissions g.valid) g;
          })
    | inr e ↦
        rw (e, process_any_build_output) (harnesses_pushed-Fine (process_build_output files b) s g)
  ]

  build_output_item-Fine :
      (now : ℕ) (item : Option (RqItem BuildOutput)) (s : S)
      → Sound s
      → Returns (build_output_item json r x codecs files service lower now item s)
  build_output_item-Fine now none s g = record {
    answer = false;
    after = s;
    returned = refl;
    good = g;
  }
  build_output_item-Fine now (some item) s g =
      let b = item.deserialized in
      elim (Bool-cases (stops json r x codecs files service lower now (id b.task_id) s)) [
        | inl e ↦
            rw (e, build_output_item)
              (ack json r x apart codecs files service lower group Keyed keyed_stays codecs.builds
                s.build_output_queue item.item_id true s g.grouped.build_output_queue g)
        | inr e ↦
            let s1 : S = record s { store = add_build json r codecs.builds b s.store } in
            let g1 : Sound s1 =
              stored-Good json r x apart codecs files service lower group Keyed keyed_stays s _
                (add_build-Same b s.store) g in
            rw (e, build_output_item)
              (processed_acked b s.build_output_queue item.item_id s1 g.grouped.build_output_queue
                g1)
      ]
    where
      processed_acked :
          (b : BuildOutput) (q : ReliableQueue) (i : String) (s1 : S)
          → q.group_name ≡ some group
          → Sound s1
          → Returns (
              (process_any_build_output json r x codecs files service lower b
                  >>= acked_if json r x codecs files service lower codecs.builds q i)
                s1)
      processed_acked b q i s1 h g1 =
          bind_at json r x apart codecs files service lower group Keyed keyed_stays
            (process_any_build_output json r x codecs files service lower b)
            (acked_if json r x codecs files service lower codecs.builds q i) s1
            (process_any-Fine b s1 g1)
            (λ told s2 g2.
              ack_if json r x apart codecs files service lower group Keyed keyed_stays codecs.builds
                q i told s2 h g2)

  pub serve_build_output-Fine :
      (now : ℕ) (s : S)
      → Sound s
      → Returns (serve_build_output json r x codecs files service lower now s)
  unfolding serve_build_output
  serve_build_output-Fine now s g =
      serve json r x apart codecs files service lower group Keyed keyed_stays codecs.builds
        s.build_output_queue (λ q s'. record s' { build_output_queue = q })
        (build_output_item json r x codecs files service lower now) s g.grouped.build_output_queue
        (λ q' store h g'.
          put_build_output_queue json r x apart codecs files service lower group Keyed keyed_stays
            q' store s h g')
        g (build_output_item-Fine now)

  pub update_cached-Fine :
      (s : S)
      → Sound s
      → Returns (update_cached_cancelled_ids json r x codecs files service lower s)
  unfolding update_cached_cancelled_ids
  update_cached-Fine s g = record {
    answer = _;
    after = record s {
      cached_cancelled_ids = TaskRegistry.get_cancelled_task_ids r codecs.tasks lower s.store;
    };
    returned = refl;
    good = record {
      grouped = record {
        delete_queue = g.grouped.delete_queue;
        ready_queue = g.grouped.ready_queue;
        build_output_queue = g.grouped.build_output_queue;
        index_output_queue = g.grouped.index_output_queue;
        traced_vulnerabilities_queue = g.grouped.traced_vulnerabilities_queue;
        patches_queue = g.grouped.patches_queue;
      };
      holds = g.holds;
      valid = g.valid;
    };
  }
