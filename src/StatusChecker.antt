-- ===== src/StatusChecker.antt =====
-- `StatusChecker` of orchestrator/src/buttercup/orchestrator/scheduler/status_checker.py. The clock is
-- an argument, in units of its resolution; `check_fn` is a function on the state of the caller that
-- may raise.
pub mod Interval
use buttercup.Prelude.{ℕ, ◌+◌, Bool, true, false, ltb, if◌then◌else◌}
use buttercup.Outcome.{Result, ok, raised}

pub record StatusChecker : Type 0 where
  pub last_check : ℕ
  pub check_interval : ℕ

abbrev pub start : (check_interval : ℕ) → StatusChecker
start check_interval = record { last_check = 0; check_interval = check_interval }

unfoldable pub should_check : (current_time : ℕ) → StatusChecker → Bool × StatusChecker
should_check current_time c =
    if ltb current_time (c.last_check + c.check_interval)
    then (false, c)
    else (true, record c { last_check = current_time })

-- A raise of `check_fn` is logged and answered False.
abbrev answered : Result Bool → Bool
answered raised = false
answered (ok b) = b

unfoldable pub check_statuses {ℓ} :
    {S : Type ℓ}
    → (check_fn : S → Result Bool × S) (current_time : ℕ) → StatusChecker × S
    → Bool × (StatusChecker × S)
unfolding should_check
check_statuses check_fn current_time (c, s) =
    let (due, c') = should_check current_time c in
    if due then (let (result, s') = check_fn s in (answered result, (c', s'))) else (false, (c', s))
