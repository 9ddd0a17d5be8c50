-- ===== src/Submissions/Records/Events.antt =====
-- Sequences of calls from the other components, and a restart after them, of
-- orchestrator/src/buttercup/orchestrator/scheduler/submissions.py.
use buttercup.Prelude.{◌≡◌, refl, ap, List, [], ◌∷◌, List-cases, inl, inr, arith, length, true, ◌-◌}
use buttercup.Message.{BuildOutput, TracedCrash, Patch}
use buttercup.Outcome.{ok}
use buttercup.Submissions.Env.{Env}
use buttercup.Submissions.State.{State, start}
use buttercup.Submissions.Records.{
  new_entry, find_similar_entries, submit_vulnerability, record_patch, record_patched_build,
}
use buttercup.Submissions.Records.Sync.{
  InSync, submit_vulnerability-InSync, record_patch-InSync, record_patched_build-InSync,
}

-- A call of an entry point.
pub data Event : Type 0 where
  found_vulnerability : TracedCrash → Event
  received_patch : Patch → Event
  received_build : BuildOutput → Event

module _ (env : Env) where
  open env use {Local, lrange, rpush, rpush-length, should_stop_processing}

  abbrev pub run_event : Event → State env → State env
  run_event (found_vulnerability crash) s = (submit_vulnerability env crash s).1
  run_event (received_patch patch) s = record_patch env patch s
  run_event (received_build b) s = record_patched_build env b s

  abbrev pub run_events : List Event → State env → State env
  run_events [] s = s
  run_events (e ∷ es) s = run_events es (run_event e s)

  run_event-InSync : (e : Event) (s : State env) → InSync env s → InSync env (run_event e s)
  run_event-InSync (found_vulnerability crash) s h = submit_vulnerability-InSync env crash s h
  run_event-InSync (received_patch patch) s h = record_patch-InSync env patch s h
  run_event-InSync (received_build b) s h = record_patched_build-InSync env b s h

  run_all-InSync : (es : List Event) (s : State env) → InSync env s → InSync env (run_events es s)
  run_all-InSync [] s h = h
  run_all-InSync (e ∷ es) s h = run_all-InSync es (run_event e s) (run_event-InSync e s h)

  -- From a start on, and after any sequence of reported vulnerabilities, patches and builds, a
  -- restart from what Redis then holds has the entries that the object has in memory, in order.
  pub run_events-start :
      (es : List Event) (r : env.api.Remote) (l : Local)
      → let s = run_events es (start env r l) in (start env s.remote s.local).entries ≡ s.entries
  unfolding start
  run_events-start es r l = run_all-InSync es (start env r l) refl

  -- While Redis holds what the object holds, the assertion on the index that `rpush` returned does
  -- not fail: a reported vulnerability is answered True on every path.
  pub submit_vulnerability-ok :
      (crash : TracedCrash) (s : State env)
      → InSync env s
      → (submit_vulnerability env crash s).0 ≡ ok true
  unfolding submit_vulnerability
  submit_vulnerability-ok crash s q = elim (List-cases (find_similar_entries env crash s)) [
    | inr (first, others, e) ↦ rw (submit_vulnerability, e) (ground arith)
    | inl e ↦ rw (submit_vulnerability, e) (ground (arith, counted))
  ]
    where
      counted : (rpush (new_entry crash) s.local).0 - 1 ≡ length s.entries
      counted = omega (arith, rpush-length (new_entry crash) s.local, ap length q)
