-- ===== src/Submissions/Counted/Calls.antt =====
-- Sequences of calls and cycles of
-- orchestrator/src/buttercup/orchestrator/scheduler/submissions.py.
use buttercup.Prelude.{◌≡◌, refl, Bool, List, [], ◌∷◌, length}
use buttercup.Message.{TracedCrash}
use buttercup.Outcome.{ok}
use buttercup.Submissions.Env.{Env}
use buttercup.Submissions.State.{Limits, State, start}
use buttercup.Submissions.Records.{submit_vulnerability}
use buttercup.Submissions.Records.Events.{
  Event, found_vulnerability, received_patch, received_build, run_event,
}
use buttercup.Submissions.Cycle.{process_cycle}
use buttercup.Submissions.Counted.{
  Counted, submit_vulnerability-Counted, record_patch-Counted, record_patched_build-Counted,
  process_cycle-Counted,
}

-- A call of an entry point, or a cycle.
pub data Call : Type 0 where
  event : Event → Call
  cycle : Call

module _ (env : Env) (limits : Limits) where
  abbrev pub run_call : Call → State env → State env
  run_call (event e) s = run_event env e s
  run_call cycle s = process_cycle env limits s

  abbrev pub run_calls : List Call → State env → State env
  run_calls [] s = s
  run_calls (c ∷ cs) s = run_calls cs (run_call c s)

  run_call-Counted : (c : Call) (s : State env) → Counted env s → Counted env (run_call c s)
  run_call-Counted (event (found_vulnerability crash)) s c =
      (submit_vulnerability-Counted env crash s c).2
  run_call-Counted (event (received_patch patch)) s c = record_patch-Counted env patch s c
  run_call-Counted (event (received_build b)) s c = record_patched_build-Counted env b s c
  run_call-Counted cycle s c = process_cycle-Counted env limits s c

  run_calls-Counted :
      (cs : List Call) (s : State env) → Counted env s → Counted env (run_calls cs s)
  run_calls-Counted [] s c = c
  run_calls-Counted (call ∷ cs) s c =
      run_calls-Counted cs (run_call call s) (run_call-Counted call s c)

  -- From a start on, and after any sequence of reported vulnerabilities, patches, builds and whole cycles,
  -- also where a cycle did not write an entry back: Redis holds as many entries as the object, and the next
  -- vulnerability that is reported is answered and not refused by the assertion on its index.
  pub run_calls-answered :
      (cs : List Call) (r : env.api.Remote) (l : env.Local) (crash : TracedCrash)
      → let s = run_calls cs (start env r l) in
        (length (env.lrange s.local) ≡ length s.entries)
        × (b : Bool) × ((submit_vulnerability env crash s).0 ≡ ok b)
  unfolding start
  run_calls-answered cs r l crash =
      let c = run_calls-Counted cs (start env r l) (record { count = refl }) in
      let (b, e, after) = submit_vulnerability-Counted env crash (run_calls cs (start env r l)) c in
      (c.count, b, e)
