-- ===== src/Scheduler/Serve.antt =====
-- The steps of `serve_item` of orchestrator/src/buttercup/orchestrator/scheduler/scheduler.py. Each is
-- an action on the state of the scheduler, which has the server in it. The clock, which each call
-- reads anew, stands still during one `serve_item`.
pub mod Good
pub mod Puts
pub mod Steps
pub mod Calls
pub mod Settles
pub mod Whole
use buttercup.Prelude.{
  ℕ, ◌≡◌, String, Bool, true, false, ◌||◌, Option, none, some, List, [], ◌∷◌, any, ◌==◌,
}
use buttercup.Outcome.{Result, ok, raised, Action, pure, continue, ◌>>=◌}
use buttercup.Message.{
  Task, TaskReady, TaskDelete, BuildRequest, BuildOutput, build_type_number, IndexRequest,
  IndexOutput, WeightedHarness, TracedCrash, Patch,
}
use buttercup.Redis.{Redis, Json, Codec}
use buttercup.Streams.{Streams}
use buttercup.Queues.{ReliableQueue, RqItem, push, pop, ack_item}
use buttercup.StatusChecker.{StatusChecker, check_statuses}
use buttercup.TaskRegistry.{TaskOrId, id, task, get_cancelled_task_ids}
use buttercup.Cancellation.{process_cancellations}
use buttercup.Maps.{add_build, push_harness}
use buttercup.Scheduler.Builds.{ChallengeTask, Files, process_ready_task, process_build_output}
use buttercup.Scheduler.Weights.{should_stop_processing, update_expired_task_weights}

-- What the scheduler calls of its `Submissions`. A call of `record_patch` and of `record_patched_build`
-- returns True.
pub record Service : Type 1 where
  pub State : Type 0
  pub submit_vulnerability : TracedCrash → State → Result Bool × State
  pub record_patch : Patch → State → State
  pub record_patched_build : BuildOutput → State → State
  pub process_cycle : State → State
  -- While this holds, no call raises.
  pub Valid : State → Type 0
  pub submit_vulnerability-Valid :
      (crash : TracedCrash) (s : State)
      → Valid s
      → (b : Bool) × ((submit_vulnerability crash s).0 ≡ ok b)
        × Valid (submit_vulnerability crash s).1
  pub record_patch-Valid : (patch : Patch) (s : State) → Valid s → Valid (record_patch patch s)
  pub record_patched_build-Valid :
      (b : BuildOutput) (s : State) → Valid s → Valid (record_patched_build b s)
  pub process_cycle-Valid : (s : State) → Valid s → Valid (process_cycle s)

-- The encodings of the messages.
pub record Codecs (Bytes : Type 0) : Type 0 where
  pub tasks : Codec Bytes Task
  pub harnesses : Codec Bytes WeightedHarness
  pub builds : Codec Bytes BuildOutput
  pub readies : Codec Bytes TaskReady
  pub build_requests : Codec Bytes BuildRequest
  pub index_requests : Codec Bytes IndexRequest
  pub index_outputs : Codec Bytes IndexOutput
  pub crashes : Codec Bytes TracedCrash
  pub patches : Codec Bytes Patch
  pub deletes : Codec Bytes TaskDelete

module _ (json : Json) (r : Redis) (x : Streams r.Store r.Bytes) (codecs : Codecs r.Bytes)
    (files : Files) (service : Service) (lower : String → String) where
  pub record Scheduler : Type 0 where
    pub store : r.Store
    pub submissions : service.State
    pub cached_cancelled_ids : List String
    pub status_checker : StatusChecker
    pub delete_queue : ReliableQueue
    pub ready_queue : ReliableQueue
    pub build_output_queue : ReliableQueue
    pub index_output_queue : ReliableQueue
    pub traced_vulnerabilities_queue : ReliableQueue
    pub patches_queue : ReliableQueue
    pub build_requests_queue : ReliableQueue
    pub index_queue : ReliableQueue

  -- `pop` on a queue that is read and written back by `put`. It always returns.
  abbrev pub popped :
      {A : Type 0}
      → Codec r.Bytes A
      → ReliableQueue
      → (put : ReliableQueue → Scheduler → Scheduler) → Action Scheduler (Option (RqItem A))
  popped codec q put s = elim (pop x codec q s.store) [
    | none ↦ (raised, s)
    | some out ↦ (out.answer, put out.queue (record s { store = out.store }))
  ]

  -- `ack_item`, and what is answered then.
  abbrev pub acked :
      {A : Type 0}
      → Codec r.Bytes A
      → ReliableQueue
      → (item_id : String) → Bool
      → Action Scheduler Bool
  acked codec q item_id answer s = elim (ack_item x codec q item_id s.store) [
    | raised ↦ (raised, s)
    | ok store ↦ (ok answer, record s { store = store })
  ]

  -- `try`, with an `except` that logs and answers False.
  abbrev pub attempt : Action Scheduler Bool → Action Scheduler Bool
  attempt m s =
      let (answer, s') = m s in elim answer [ raised ↦ (ok false, s') | ok b ↦ (ok b, s') ]

  abbrev pub stops : ℕ → TaskOrId → Scheduler → Bool
  stops now t s =
      should_stop_processing json r codecs.tasks codecs.harnesses lower now s.cached_cancelled_ids t
        s.store

  unfoldable pub update_cached_cancelled_ids : Action Scheduler Bool
  update_cached_cancelled_ids s =
      let cancelled_ids = get_cancelled_task_ids r codecs.tasks lower s.store in
      (ok (any (λ _. true) cancelled_ids), record s { cached_cancelled_ids = cancelled_ids })

  abbrev pub process_deletes : Action Scheduler Bool
  process_deletes s =
      elim (process_cancellations r codecs.tasks lower x codecs.deletes s.delete_queue s.store) [
        | none ↦ (raised, s)
        | some out ↦ (out.answer, record s { delete_queue = out.delete_queue; store = out.store })
      ]

  abbrev pub push_all : ReliableQueue → List BuildRequest → r.Store → r.Store
  push_all q [] s = s
  push_all q (b ∷ bs) s = push_all q bs (push x codecs.build_requests q b s)

  abbrev pub index_request : Task → ChallengeTask → IndexRequest
  index_request t c = record {
    task_id = t.task_id;
    task_dir = c.task_dir;
    package_name = t.project_name;
  }

  -- The part of the handler in its `try`.
  abbrev pub push_builds :
      ReliableQueue → (item_id : String) → Result (List BuildRequest) → Action Scheduler Bool
  push_builds q item_id raised s = (raised, s)
  push_builds q item_id (ok requests) s =
      acked codecs.readies q item_id true
        (record s { store = push_all s.build_requests_queue requests s.store })

  abbrev pub push_requests :
      (i : ℕ) → RqItem TaskReady → Result ChallengeTask → Action Scheduler Bool
  push_requests i item raised s = (raised, s)
  push_requests i item (ok c) s =
      let t = item.deserialized.task in
      push_builds s.ready_queue item.item_id (process_ready_task files i t) (record s {
        store = push x codecs.index_requests s.index_queue (index_request t c) s.store;
      })

  abbrev pub ready_item : (now i : ℕ) → Option (RqItem TaskReady) → Action Scheduler Bool
  ready_item now i none s = (ok false, s)
  ready_item now i (some item) s = elim (stops now (task item.deserialized.task) s) [
    | true ↦ acked codecs.readies s.ready_queue item.item_id true s
    | false ↦
        attempt
          (push_requests i item (
            files.challenge_task
              (files.child files.tasks_storage_dir item.deserialized.task.task_id)))
          s
  ]

  unfoldable pub serve_ready_task : (now i : ℕ) → Action Scheduler Bool
  serve_ready_task now i s =
      (popped codecs.readies s.ready_queue (λ q s'. record s' { ready_queue = q })
          >>= ready_item now i)
        s

  abbrev pub push_harnesses : List WeightedHarness → r.Store → r.Store
  push_harnesses [] s = s
  push_harnesses (h ∷ hs) s = push_harnesses hs (push_harness json r codecs.harnesses h s)

  abbrev pub harnesses_pushed : Result (List WeightedHarness) → Action Scheduler Bool
  harnesses_pushed raised s = (ok false, s)
  harnesses_pushed (ok targets) s = (ok true, record s { store = push_harnesses targets s.store })

  unfoldable pub process_regular_build_output : BuildOutput → Action Scheduler Bool
  process_regular_build_output b = harnesses_pushed (process_build_output files b)

  unfoldable pub process_patched_build_output : BuildOutput → Action Scheduler Bool
  process_patched_build_output b s =
      (ok true, record s { submissions = service.record_patched_build b s.submissions })

  abbrev pub process_any_build_output : BuildOutput → Action Scheduler Bool
  unfolding process_regular_build_output process_patched_build_output
  process_any_build_output b s = elim (build_type_number b.build_type == 3) [
    | true ↦ process_patched_build_output b s
    | false ↦ process_regular_build_output b s
  ]

  -- The acknowledgement, of what was answered for the item.
  abbrev pub acked_if :
      {A : Type 0}
      → Codec r.Bytes A
      → ReliableQueue
      → (item_id : String) → Bool
      → Action Scheduler Bool
  acked_if codec q item_id false s = (ok false, s)
  acked_if codec q item_id true s = acked codec q item_id true s

  abbrev pub build_output_item : ℕ → Option (RqItem BuildOutput) → Action Scheduler Bool
  build_output_item now none s = (ok false, s)
  build_output_item now (some item) s =
      let b = item.deserialized in
      elim (stops now (id b.task_id) s) [
        | true ↦ acked codecs.builds s.build_output_queue item.item_id true s
        | false ↦
            (process_any_build_output b
                >>= acked_if codecs.builds s.build_output_queue item.item_id)
              (record s { store = add_build json r codecs.builds b s.store })
      ]

  unfoldable pub serve_build_output : (now : ℕ) → Action Scheduler Bool
  serve_build_output now s =
      (popped codecs.builds s.build_output_queue (λ q s'. record s' { build_output_queue = q })
          >>= build_output_item now)
        s

  abbrev pub index_output_item : Option (RqItem IndexOutput) → Action Scheduler Bool
  index_output_item none s = (ok false, s)
  index_output_item (some item) s =
      attempt (acked codecs.index_outputs s.index_output_queue item.item_id true) s

  unfoldable pub serve_index_output : Action Scheduler Bool
  serve_index_output s =
      (popped codecs.index_outputs s.index_output_queue
            (λ q s'. record s' { index_output_queue = q })
          >>= index_output_item)
        s

  abbrev pub update_weights : (now : ℕ) → Action Scheduler Bool
  update_weights now s =
      let (told, store) =
        update_expired_task_weights json r codecs.tasks codecs.harnesses lower now
          s.cached_cancelled_ids s.store in
      (ok told, record s { store = store })

  abbrev pub crash_item : Option (RqItem TracedCrash) → Action Scheduler Bool
  crash_item none s = (ok false, s)
  crash_item (some item) s =
      let (answer, submissions) = service.submit_vulnerability item.deserialized s.submissions in
      continue answer (acked_if codecs.crashes s.traced_vulnerabilities_queue item.item_id)
        (record s { submissions = submissions })

  abbrev pub patch_item : Option (RqItem Patch) → Action Scheduler Bool
  patch_item none s = (ok false, s)
  patch_item (some item) s =
      acked codecs.patches s.patches_queue item.item_id true
        (record s { submissions = service.record_patch item.deserialized s.submissions })

  -- `do_check`
  abbrev pub do_check : service.State → Result Bool × service.State
  do_check s = (ok true, service.process_cycle s)

  abbrev pub checked : (now : ℕ) (collected_item : Bool) → Action Scheduler Bool
  checked now collected_item s =
      let (_, (checker, submissions)) =
        check_statuses do_check now (s.status_checker, s.submissions) in
      (ok collected_item, record s { status_checker = checker; submissions = submissions })

  abbrev pub serve_crash : Action Scheduler Bool
  serve_crash s =
      (popped codecs.crashes s.traced_vulnerabilities_queue
            (λ q s'. record s' { traced_vulnerabilities_queue = q })
          >>= crash_item)
        s

  abbrev pub serve_patch : Action Scheduler Bool
  serve_patch s =
      (popped codecs.patches s.patches_queue (λ q s'. record s' { patches_queue = q })
          >>= patch_item)
        s

  unfoldable pub competition_api_interactions : (now : ℕ) → Action Scheduler Bool
  competition_api_interactions now =
      serve_crash >>= λ crash. serve_patch >>= λ patch. checked now (crash || patch)

  -- Each of the components is run, whatever the others answer.
  unfoldable pub run_components : List (Action Scheduler Bool) → Action Scheduler Bool
  run_components [] = pure false
  run_components (component ∷ components) =
      component >>= λ result. run_components components >>= λ results. pure (result || results)

  unfoldable pub serve_item : (now i : ℕ) → Action Scheduler Bool
  unfolding run_components
  serve_item now i = run_components (
      process_deletes
      ∷ update_cached_cancelled_ids
      ∷ serve_ready_task now i
      ∷ serve_build_output now
      ∷ serve_index_output
      ∷ update_weights now
      ∷ competition_api_interactions now
      ∷ [])
