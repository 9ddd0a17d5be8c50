-- ===== src/PovReproducer.antt =====
-- `POVReproducer` of orchestrator/src/buttercup/orchestrator/pov_reproducer/pov_reproducer.py. The run of a
-- POV on a copy of the patched task is a parameter.
pub mod Verdict
use buttercup.Prelude.{ℕ, String, Bool, true, false, Option, none, some}
use buttercup.Outcome.{Result, ok, raised}
use buttercup.Message.{Task, BuildOutput, patch, PovReproduceRequest}
use buttercup.Redis.{Redis, Json, Codec}
use buttercup.PovStatus.{get_one_pending, mark_mitigated, mark_non_mitigated, mark_expired}
use buttercup.TaskRegistry.{id, should_stop_processing}
use buttercup.Maps.{get_build_from_san}

module _ (json : Json) (r : Redis) (task_codec : Codec r.Bytes Task)
    (build_codec : Codec r.Bytes BuildOutput) (lower : String → String)
    -- None if it did not run, and else whether it crashed
    (reproduce_pov : BuildOutput → (harness_name pov_path : String) → Result (Option Bool)) where
  -- Whether the mark was made is only logged.
  abbrev pub verdict_marked :
      PovReproduceRequest → Result (Option Bool) → r.Store → Result Bool × r.Store
  verdict_marked entry raised s = (raised, s)
  verdict_marked entry (ok none) s = (ok false, s)
  verdict_marked entry (ok (some true)) s = (ok true, (mark_non_mitigated json r entry s).1)
  verdict_marked entry (ok (some false)) s = (ok true, (mark_mitigated json r entry s).1)

  abbrev pub reproduced :
      PovReproduceRequest → Result (Option BuildOutput) → r.Store → Result Bool × r.Store
  reproduced entry raised s = (raised, s)
  reproduced entry (ok none) s = (ok false, s)
  reproduced entry (ok (some build)) s =
      verdict_marked entry (reproduce_pov build entry.harness_name entry.pov_path) s

  abbrev pub serve_entry :
      (now : ℕ) → Result (Option PovReproduceRequest) → r.Store → Result Bool × r.Store
  serve_entry now raised s = (raised, s)
  serve_entry now (ok none) s = (ok false, s)
  serve_entry now (ok (some entry)) s =
      elim (should_stop_processing r task_codec lower now (id entry.task_id) none s) [
        | true ↦ (ok false, (mark_expired json r entry s).1)
        | false ↦
            reproduced entry
              (get_build_from_san json r build_codec entry.task_id patch entry.sanitizer
                entry.internal_patch_id s)
              s
      ]

  -- The random choice takes the pending member `i`.
  unfoldable pub serve_item : (now i : ℕ) → r.Store → Result Bool × r.Store
  serve_item now i s = serve_entry now (get_one_pending json r i s) s
