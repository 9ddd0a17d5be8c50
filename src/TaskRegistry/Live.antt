-- ===== src/TaskRegistry/Live.antt =====
-- Which tasks the registry lists, of common/src/buttercup/common/task_registry.py.
use buttercup.Prelude.{
  ℕ, ◌≡◌, refl, String, not, ◌&&◌, none, List, [], ◌∷◌, arith, filter, Option-cases, inl, inr,
}
use buttercup.Prelude.All.{All}
use buttercup.Message.{Task}
use buttercup.Redis.{Redis, Codec}
use buttercup.TaskRegistry.{
  task, tasks_registry, cancelled_tasks, tasks_of, tasks, is_cancelled, is_expired, get_live_tasks,
  should_stop_processing,
}

module _ (r : Redis) (codec : Codec r.Bytes Task) (lower : String → String) where
  open r use {Store, sismember, smembers, smembers-any, hget}

  abbrev IsFlagged : Store → Task → Type 0
  IsFlagged s t = t.cancelled ≡ is_cancelled r codec lower (task t) s

  tasks_of-IsFlagged :
      (keys : List String) (s : Store) → All (IsFlagged s) (tasks_of r codec lower keys s)
  unfolding is_cancelled
  tasks_of-IsFlagged [] s = tt
  tasks_of-IsFlagged (key ∷ keys) s = elim (Option-cases (hget tasks_registry key s)) [
    | inl h ↦ rw (h, tasks_of) (tasks_of-IsFlagged keys s)
    | inr (bytes, h) ↦
        rw (h, tasks_of)
          (
            smembers-any cancelled_tasks (lower (codec.parse bytes).task_id) s,
            tasks_of-IsFlagged keys s,
          )
  ]

  live_filter :
      (now : ℕ) (s : Store) (ts : List Task)
      → All (IsFlagged s) ts
      → filter (λ t. not t.cancelled && not (is_expired r codec lower now 0 (task t) s)) ts
        ≡ filter (λ t. not (should_stop_processing r codec lower now (task t) none s)) ts
  unfolding should_stop_processing
  live_filter now s [] h = refl
  live_filter now s (t ∷ ts) h = ground (arith, h.0, live_filter now s ts h.1)

  -- The live tasks are, in order, those that `should_stop_processing` does not stop, although the list
  -- tests the flags that the iteration sets and the other asks Redis for each id.
  pub get_live_tasks-eq-filter :
      (now : ℕ) (s : Store)
      → get_live_tasks r codec lower now s
        ≡ filter
            (λ t. not (should_stop_processing r codec lower now (task t) none s))
            (tasks r codec lower s)
  unfolding get_live_tasks tasks
  get_live_tasks-eq-filter now s =
      live_filter now s (tasks r codec lower s) (tasks_of-IsFlagged (r.hkeys tasks_registry s) s)
