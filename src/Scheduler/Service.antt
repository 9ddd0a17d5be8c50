-- ===== src/Scheduler/Service.antt =====
-- What the scheduler asks of a `Submissions` is what
-- orchestrator/src/buttercup/orchestrator/scheduler/submissions.py does.
use buttercup.Submissions.Env.{Env}
use buttercup.Submissions.State.{Limits, State}
use buttercup.Submissions.Records.{submit_vulnerability, record_patch, record_patched_build}
use buttercup.Submissions.Cycle.{process_cycle}
use buttercup.Submissions.Counted.{
  Counted, submit_vulnerability-Counted, record_patch-Counted, record_patched_build-Counted,
  process_cycle-Counted,
}
use buttercup.Scheduler.Serve.{Service}

abbrev pub of_submissions : Env → Limits → Service
of_submissions env limits = record {
  State = State env;
  submit_vulnerability = submit_vulnerability env;
  record_patch = record_patch env;
  record_patched_build = record_patched_build env;
  process_cycle = process_cycle env limits;
  Valid = Counted env;
  submit_vulnerability-Valid = submit_vulnerability-Counted env;
  record_patch-Valid = record_patch-Counted env;
  record_patched_build-Valid = record_patched_build-Counted env;
  process_cycle-Valid = process_cycle-Counted env limits;
}
