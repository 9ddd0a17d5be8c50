-- ===== src/Backend/Counts.antt =====
-- The status of the tasks, of orchestrator/src/buttercup/orchestrator/task_server/backend.py.
use buttercup.Prelude.{
  ℕ, suc, ◌+◌, ◌≡◌, refl, ap, ◌∙◌, String, Bool, not, none, List, [], ◌∷◌, length, filter, arith,
  if◌then◌else◌,
}
use buttercup.Message.{Task}
use buttercup.Redis.{Redis, Codec}
use buttercup.TaskRegistry.{task, tasks, get_live_tasks, should_stop_processing}
use buttercup.TaskRegistry.Live.{get_live_tasks-eq-filter}
use buttercup.Backend.{StatusTasksState, count_task, count_tasks, no_tasks, get_status_tasks_state}

-- All that is counted.
abbrev pub total : StatusTasksState → ℕ
total n = n.canceled + n.errored + n.failed + n.pending + n.processing + n.succeeded + n.waiting

module _ (lower : String → String) (r : Redis) (codec : Codec r.Bytes Task) where
  total-count_task :
      (now : ℕ) (s : r.Store) (t : Task) (n : StatusTasksState)
      → total (count_task lower r codec now s t n) ≡ suc (total n)
  total-count_task now s t n = ground arith

  total-count_tasks :
      (now : ℕ) (s : r.Store) (ts : List Task) (n : StatusTasksState)
      → total (count_tasks lower r codec now s ts n) ≡ total n + length ts
  total-count_tasks now s [] n = omega arith
  total-count_tasks now s (t ∷ ts) n = omega (
    arith,
    total-count_tasks now s ts (count_task lower r codec now s t n),
    total-count_task now s t n,
  )

  abbrev is_live : ℕ → r.Store → Task → Bool
  is_live now s t = not (should_stop_processing r codec lower now (task t) none s)

  processing-count_task :
      (now : ℕ) (s : r.Store) (t : Task) (n : StatusTasksState)
      → (count_task lower r codec now s t n).processing
        ≡ (if is_live now s t then suc n.processing else n.processing)
  unfolding should_stop_processing
  processing-count_task now s t n = ground arith

  processing-count_tasks :
      (now : ℕ) (s : r.Store) (ts : List Task) (n : StatusTasksState)
      → (count_tasks lower r codec now s ts n).processing
        ≡ n.processing + length (filter (is_live now s) ts)
  processing-count_tasks now s [] n = omega arith
  processing-count_tasks now s (t ∷ ts) n = ground (
    arith,
    processing-count_tasks now s ts (count_task lower r codec now s t n),
    processing-count_task now s t n,
  )

  unused-count_tasks :
      (now : ℕ) (s : r.Store) (ts : List Task) (n : StatusTasksState)
      → ((count_tasks lower r codec now s ts n).pending ≡ n.pending)
        × ((count_tasks lower r codec now s ts n).waiting ≡ n.waiting)
  unused-count_tasks now s [] n = (refl, refl)
  unused-count_tasks now s (t ∷ ts) n =
      let later = unused-count_tasks now s ts (count_task lower r codec now s t n) in
      (later.0 ∙ ground arith, later.1 ∙ ground arith)

  -- The status counts each task of the registry exactly once, none as pending or waiting, and those
  -- that it counts as processing are as many as the live tasks that the registry lists.
  pub get_status_tasks_state-counts :
      (now : ℕ) (s : r.Store)
      → let n = get_status_tasks_state lower r codec now s in
        (n.canceled + n.errored + n.failed + n.pending + n.processing + n.succeeded + n.waiting
          ≡ length (tasks r codec lower s))
        × (n.pending ≡ 0)
        × (n.waiting ≡ 0)
        × (n.processing ≡ length (get_live_tasks r codec lower now s))
  unfolding get_status_tasks_state
  get_status_tasks_state-counts now s =
      let ts = tasks r codec lower s in
      let unused = unused-count_tasks now s ts no_tasks in
      (
        omega (arith, total-count_tasks now s ts no_tasks),
        unused.0,
        unused.1,
        omega (
          arith,
          processing-count_tasks now s ts no_tasks,
          ap length (get_live_tasks-eq-filter r codec lower now s),
        ),
      )
