-- ===== src/Scheduler/Weights.antt =====
-- `update_expired_task_weights` of orchestrator/src/buttercup/orchestrator/scheduler/scheduler.py, with
-- `should_stop_processing`.
pub mod Retired
use buttercup.Prelude.{ℕ, zero, suc, String, Bool, true, false, ◌&&◌, some, List, [], ◌∷◌}
use buttercup.Message.{Task, WeightedHarness, ℤ, pos, negsuc}
use buttercup.Redis.{Redis, Json, Codec}
use buttercup.TaskRegistry.{TaskOrId, id}
use buttercup.TaskRegistry
use buttercup.Maps.{list_harnesses, push_harness}

abbrev pub is_positive : ℤ → Bool
is_positive (pos (suc n)) = true
is_positive _ = false

-- The harness with a weight of -1.0.
abbrev pub zero_weight : WeightedHarness → WeightedHarness
zero_weight h = record h { weight = negsuc 0 }

module _ (json : Json) (r : Redis) (task_codec : Codec r.Bytes Task)
    (harness_codec : Codec r.Bytes WeightedHarness) (lower : String → String) (now : ℕ)
    (cached_cancelled_ids : List String) where
  unfoldable pub should_stop_processing : TaskOrId → r.Store → Bool
  should_stop_processing t s =
      TaskRegistry.should_stop_processing r task_codec lower now t (some cached_cancelled_ids) s

  -- Whether the loop writes the harness.
  abbrev pub is_due : WeightedHarness → r.Store → Bool
  is_due h s = is_positive h.weight && should_stop_processing (id h.task_id) s

  -- The loop over the harnesses, which were all read before it.
  abbrev pub update_weights : List WeightedHarness → (any_updated : Bool) → r.Store → Bool × r.Store
  update_weights [] any_updated s = (any_updated, s)
  update_weights (h ∷ hs) any_updated s = elim (is_due h s) [
    | true ↦ update_weights hs true (push_harness json r harness_codec (zero_weight h) s)
    | false ↦ update_weights hs any_updated s
  ]

  unfoldable pub update_expired_task_weights : r.Store → Bool × r.Store
  update_expired_task_weights s = update_weights (list_harnesses json r harness_codec s) false s
