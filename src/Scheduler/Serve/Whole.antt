-- ===== src/Scheduler/Serve/Whole.antt =====
-- A whole `serve_item` of orchestrator/src/buttercup/orchestrator/scheduler/scheduler.py: it returns, and
-- no harness of a stopped task is left with a positive weight.
use buttercup.Prelude.{ℕ, ◌≡◌, refl, ap, ◌∙◌, String, Bool, false, ◌||◌, List, [], ◌∷◌}
use buttercup.Prelude.All.{All}
use buttercup.Outcome.{Result, ok, Action, pure, continue, ◌>>=◌}
use buttercup.Redis.{Redis, Json}
use buttercup.Streams.{Streams, Apart}
use buttercup.Maps.{list_harnesses}
use buttercup.Maps.Weights.{list_harnesses-All}
use buttercup.Scheduler.Builds.{Files}
use buttercup.Scheduler.Weights.{is_due, update_expired_task_weights}
use buttercup.Scheduler.Weights.Retired.{
  update_weights-NoneDue, update_expired_task_weights-NoneDue,
}
use buttercup.Scheduler.Serve.{
  Service, Codecs, process_deletes, update_cached_cancelled_ids, serve_ready_task,
  serve_build_output, serve_index_output, update_weights, competition_api_interactions,
  run_components, serve_item,
}
use buttercup.Scheduler.Serve.Good.{Good, Returned}
use buttercup.Scheduler.Serve.Steps.{serve_ready_task-Fine, serve_index_output-Fine}
use buttercup.Scheduler.Serve.Calls.{process_deletes-Fine, competition_api_interactions-Fine}
use buttercup.Scheduler.Serve.Settles.{
  S, Keyed, keyed_stays, Settled, Settled-stays, Sound, restored, update_cached-Fine,
  serve_build_output-Fine,
}

module _ (json : Json) (r : Redis) (x : Streams r.Store r.Bytes) (apart : Apart r x)
    (codecs : Codecs r.Bytes) (files : Files) (service : Service) (lower : String → String)
    (group : String) where
  abbrev State : Type 0
  State = S json r x apart codecs files service lower group

  abbrev IsSound : State → Type 0
  IsSound s = Sound json r x apart codecs files service lower group s

  abbrev run : List (Action State Bool) → Action State Bool
  run cs = run_components json r x codecs files service lower cs

  -- An action returns, and leaves a state of this kind.
  record Reaches (Q : State → Type 0) (out : Result Bool × State) : Type 0 where
    answer : Bool
    after : State
    returned : out ≡ (ok answer, after)
    reached : Q after

  run-cons :
      (Q R : State → Type 0) (c : Action State Bool) (cs : List (Action State Bool)) (s : State)
      → Reaches Q (c s)
      → ((s' : State) → Q s' → Reaches R (run cs s'))
      → Reaches R (run (c ∷ cs) s)
  unfolding run_components
  run-cons Q R c cs s first f =
      let rest = f first.after first.reached in
      record {
        answer = first.answer || rest.answer;
        after = rest.after;
        returned =
            ap (λ p. continue p.0 (λ (b : Bool). run cs >>= λ (b' : Bool). pure (b || b')) p.1)
              first.returned
            ∙ ap (λ p. continue p.0 (λ (b' : Bool). pure (first.answer || b')) p.1) rest.returned;
        reached = rest.reached;
      }

  IsSound-Reaches :
      (out : Result Bool × State)
      → Returned json r x apart codecs files service lower group
          (Keyed json r x apart codecs files service lower group)
          (keyed_stays json r x apart codecs files service lower group)
          out
      → Reaches IsSound out
  IsSound-Reaches out h = record {
    answer = h.answer;
    after = h.after;
    returned = h.returned;
    reached = h.good;
  }

  module _ (now : ℕ) where
    -- No listed harness is due.
    abbrev pub NoneListed : State → Type 0
    NoneListed s =
        All
          (λ h.
            is_due json r codecs.tasks codecs.harnesses lower now s.cached_cancelled_ids h s.store
            ≡ false)
          (list_harnesses json r codecs.harnesses s.store)

    abbrev IsSettled : State → Type 0
    IsSettled s =
        Good json r x apart codecs files service lower group
          (Settled json r x apart codecs files service lower group now)
          (Settled-stays json r x apart codecs files service lower group now) s

    update_weights-Reaches :
        (s : State)
        → IsSound s
        → Reaches IsSettled (update_weights json r x codecs files service lower now s)
    update_weights-Reaches s g =
        let out =
          update_expired_task_weights json r codecs.tasks codecs.harnesses lower now
            s.cached_cancelled_ids s.store in
        let (told, listed, keyed, changed) =
          update_expired_task_weights-NoneDue json r codecs.tasks codecs.harnesses lower now
            s.cached_cancelled_ids s.store g.holds in
        let g' = restored json r x apart codecs files service lower group s out.1 keyed g in
        record {
          answer = out.0;
          after = record s { store = out.1 };
          returned = refl;
          reached = record {
            grouped = g'.grouped;
            holds = (
              keyed,
              update_weights-NoneDue json r codecs.tasks codecs.harnesses lower now
                  s.cached_cancelled_ids s.store g.holds,
            );
            valid = g.valid;
          };
        }

    abbrev Ends : State → Type 0
    Ends s = IsSound s × NoneListed s

    settled_Ends : (s : State) → IsSettled s → Ends s
    settled_Ends s g = (
      record { grouped = g.grouped; holds = g.holds.0; valid = g.valid },
      list_harnesses-All json r codecs.harnesses
          (λ h.
            is_due json r codecs.tasks codecs.harnesses lower now s.cached_cancelled_ids h s.store
            ≡ false)
          s.store g.holds.1.retired,
    )

    competition-Reaches :
        (s : State)
        → IsSettled s
        → Reaches IsSettled (competition_api_interactions json r x codecs files service lower now s)
    competition-Reaches s g =
        let h =
          competition_api_interactions-Fine json r x apart codecs files service lower group
            (Settled json r x apart codecs files service lower group now)
            (Settled-stays json r x apart codecs files service lower group now) now s g in
        record { answer = h.answer; after = h.after; returned = h.returned; reached = h.good }

    run_nil : (s : State) → IsSettled s → Reaches Ends (run [] s)
    unfolding run_components
    run_nil s g = record { answer = false; after = s; returned = refl; reached = settled_Ends s g }

    abbrev ready : ℕ → Action State Bool
    ready i = serve_ready_task json r x codecs files service lower now i

    abbrev deletes : Action State Bool
    deletes = process_deletes json r x codecs files service lower

    abbrev ids : Action State Bool
    ids = update_cached_cancelled_ids json r x codecs files service lower

    abbrev builds : Action State Bool
    builds = serve_build_output json r x codecs files service lower now

    abbrev index : Action State Bool
    index = serve_index_output json r x codecs files service lower

    abbrev weights : Action State Bool
    weights = update_weights json r x codecs files service lower now

    abbrev competition : Action State Bool
    competition = competition_api_interactions json r x codecs files service lower now

    last_Run : (s : State) → IsSound s → Reaches Ends (run (weights ∷ competition ∷ []) s)
    last_Run s g =
        run-cons IsSettled Ends weights (competition ∷ []) s (update_weights-Reaches s g)
          (λ s' g'. run-cons IsSettled Ends competition [] s' (competition-Reaches s' g') run_nil)

    -- From the ready tasks on.
    queues_Run :
        (i : ℕ) (s : State)
        → IsSound s
        → Reaches Ends (run (ready i ∷ builds ∷ index ∷ weights ∷ competition ∷ []) s)
    queues_Run i s g =
        run-cons IsSound Ends (ready i) (builds ∷ index ∷ weights ∷ competition ∷ []) s
          (IsSound-Reaches (ready i s)
            (serve_ready_task-Fine json r x apart codecs files service lower group _ _ now i s g))
          (λ s1 g1.
            run-cons IsSound Ends builds (index ∷ weights ∷ competition ∷ []) s1
              (IsSound-Reaches (builds s1)
                (serve_build_output-Fine json r x apart codecs files service lower group now s1 g1))
              (λ s2 g2.
                run-cons IsSound Ends index (weights ∷ competition ∷ []) s2
                  (IsSound-Reaches (index s2) (
                    serve_index_output-Fine json r x apart codecs files service lower group _ _ s2
                      g2))
                  last_Run))

    all_Run :
        (i : ℕ) (s : State)
        → IsSound s
        → Reaches Ends
            (run (deletes ∷ ids ∷ ready i ∷ builds ∷ index ∷ weights ∷ competition ∷ []) s)
    all_Run i s g =
        run-cons IsSound Ends deletes (ids ∷ ready i ∷ builds ∷ index ∷ weights ∷ competition ∷ [])
          s
          (IsSound-Reaches (deletes s)
            (process_deletes-Fine json r x apart codecs files service lower group _ _ s g))
          (λ s1 g1.
            run-cons IsSound Ends ids (ready i ∷ builds ∷ index ∷ weights ∷ competition ∷ []) s1
              (IsSound-Reaches (ids s1)
                (update_cached-Fine json r x apart codecs files service lower group s1 g1))
              (queues_Run i))

    -- Let each queue that is read have a group, the submissions be in a state in which they raise nowhere, and
    -- each stored harness stand under its own key. Then `serve_item`, which runs all seven components, returns
    -- and does not raise, these conditions hold again, and no harness that is listed then has a positive
    -- weight while its task is to stop by the registry and the cached cancelled ids.
    pub serve_item_settles :
        (i : ℕ) (s : S json r x apart codecs files service lower group)
        → Sound json r x apart codecs files service lower group s
        → (told : Bool) × (s' : S json r x apart codecs files service lower group) × (serve_item
              json r x codecs files service lower now i s
            ≡ (ok told, s'))
          × Sound json r x apart codecs files service lower group s'
          × NoneListed s'
    unfolding serve_item
    serve_item_settles i s g =
        let out = all_Run i s g in
        (out.answer, out.after, out.returned, out.reached.0, out.reached.1)
