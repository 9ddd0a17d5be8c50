-- ===== src/TaskLoop/Stopped.antt =====
-- The bots of common/src/buttercup/common/default_task_loop.py behind the scheduler of
-- orchestrator/src/buttercup/orchestrator/scheduler/scheduler.py, on one server.
use buttercup.Prelude.{ℕ, ◌≡◌, String, Bool, true, false, some, List, get_elem?, arith}
use buttercup.Prelude.All.{All-get_elem?}
use buttercup.Outcome.{ok, Action}
use buttercup.Message.{BuildType, WeightedHarness}
use buttercup.Redis.{Redis, Json}
use buttercup.Streams.{Streams, Apart}
use buttercup.TaskRegistry.{id}
use buttercup.Maps.{list_harnesses}
use buttercup.Scheduler.Builds.{Files}
use buttercup.Scheduler.Weights.{is_positive, should_stop_processing, is_due}
use buttercup.Scheduler.Serve.{Service, Codecs, Scheduler, serve_item}
use buttercup.Scheduler.Serve.Settles.{Sound}
use buttercup.Scheduler.Serve.Whole.{serve_item_settles}
use buttercup.TaskLoop.{Random, Builds}
use buttercup.TaskLoop.Runs.{Turn, runs, idle, waits, serve_item_turn}

module _ (json : Json) (r : Redis) (x : Streams r.Store r.Bytes) (apart : Apart r x)
    (codecs : Codecs r.Bytes) (files : Files) (service : Service) (lower : String → String)
    (group : String) (random : Random) (required_builds : List BuildType)
    (run_task : WeightedHarness → Builds → Action r.Store Unit) where
  abbrev TurnAt : r.Store → Type 0
  TurnAt s = Turn json r codecs.harnesses codecs.builds random required_builds run_task s

  -- If the turn runs a task, its harness is such a one.
  abbrev pub RunsOnly : (WeightedHarness → Type 0) → {s : r.Store} → TurnAt s → Type 0
  RunsOnly P (runs h builds j listed positive gathered all_there e) = P h
  RunsOnly P (idle none e) = Unit
  RunsOnly P (waits h builds j listed positive gathered missing e) = Unit

  runs_only :
      (P : WeightedHarness → Type 0) (s : r.Store)
      → ((h : WeightedHarness) (j : ℕ)
          → get_elem? (list_harnesses json r codecs.harnesses s) j ≡ some h
          → is_positive h.weight ≡ true
          → P h)
      → (t : TurnAt s) → RunsOnly P t
  runs_only P s f (runs h builds j listed positive gathered all_there e) = f h j listed positive
  runs_only P s f (idle none e) = tt
  runs_only P s f (waits h builds j listed positive gathered missing e) = tt

  not_stopped :
      (now : ℕ) (ids : List String) (h : WeightedHarness) (s : r.Store)
      → is_positive h.weight ≡ true
      → is_due json r codecs.tasks codecs.harnesses lower now ids h s ≡ false
      → should_stop_processing json r codecs.tasks codecs.harnesses lower now ids (id h.task_id) s
        ≡ false
  not_stopped now ids h s positive e = ground (arith, positive, e)

  -- Let the queues that the scheduler reads have a group, its submissions be in a state in which they
  -- raise nowhere, and each stored harness stand under its own key. Then its `serve_item` returns, and a
  -- turn that a bot makes next never runs a task that is expired by the registry at that time or is
  -- among the cached cancelled ids, whatever the bot requires and whichever harness is chosen.
  pub serve_item_stopped :
      (now i : ℕ) (s : Scheduler json r x codecs files service lower)
      → Sound json r x apart codecs files service lower group s
      → (told : Bool) × (s' : Scheduler json r x codecs files service lower) × (serve_item json r x
            codecs files service lower now i s
          ≡ (ok told, s'))
        × RunsOnly
            (λ h.
              should_stop_processing json r codecs.tasks codecs.harnesses lower now
                s'.cached_cancelled_ids
                (id h.task_id)
                s'.store
              ≡ false)
            (serve_item_turn json r codecs.harnesses codecs.builds random required_builds run_task
              s'.store)
  serve_item_stopped now i s g =
      let (told, s', e, sound, none_listed) =
        serve_item_settles json r x apart codecs files service lower group now i s g in
      (
        told,
        s',
        e,
        runs_only
            (λ h.
              should_stop_processing json r codecs.tasks codecs.harnesses lower now
                s'.cached_cancelled_ids (id h.task_id) s'.store
              ≡ false)
            s'.store
            (λ h j listed positive. not_stopped now s'.cached_cancelled_ids h s'.store positive (
              All-get_elem?
                (λ o.
                  is_due json r codecs.tasks codecs.harnesses lower now s'.cached_cancelled_ids o
                    s'.store
                  ≡ false)
                (list_harnesses json r codecs.harnesses s'.store) j none_listed listed))
            (serve_item_turn json r codecs.harnesses codecs.builds random required_builds run_task
              s'.store),
      )
