-- ===== src/TaskLoop.antt =====
-- `TaskLoop` of common/src/buttercup/common/default_task_loop.py, which the fuzzer, coverage and seed
-- bots run.
pub mod Runs
pub mod Stopped
use buttercup.Prelude.{
  ℕ, ◌<◌, length, get_elem?, Option, none, some, String, Bool, true, false, List, [], ◌∷◌, filter,
  all,
}
use buttercup.Outcome.{Result, ok, raised, Action, pure, ◌>>=◌}
use buttercup.Message.{BuildType, BuildOutput, WeightedHarness}
use buttercup.Redis.{Redis, Json, Codec}
use buttercup.Maps.{list_harnesses, get_builds}
use buttercup.Scheduler.Weights.{is_positive}

-- `random.choices` with the weights and k=1: which item of a list that is not empty is chosen.
pub record Random : Type 0 where
  pub choice : List WeightedHarness → ℕ
  pub choice-lt :
      (h : WeightedHarness) (hs : List WeightedHarness) → choice (h ∷ hs) < length (h ∷ hs)

-- The dictionary of the builds, by their type.
abbrev pub Builds : Type 0
Builds = List (BuildType × List BuildOutput)

abbrev pub is_filled : BuildType × List BuildOutput → Bool
is_filled (k, []) = false
is_filled (k, b ∷ bs) = true

abbrev pub has_all_builds : Builds → Bool
has_all_builds builds = all is_filled builds

module _ (json : Json) (r : Redis) (harness_codec : Codec r.Bytes WeightedHarness)
    (build_codec : Codec r.Bytes BuildOutput) (random : Random) (required_builds : List BuildType)
    (run_task : WeightedHarness → Builds → Action r.Store Unit) where
  abbrev pub put_builds : BuildType → Result (List BuildOutput) → Result Builds → Result Builds
  put_builds k raised rest = raised
  put_builds k (ok bs) raised = raised
  put_builds k (ok bs) (ok rest) = ok ((k, bs) ∷ rest)

  unfoldable pub builds_for : (task_id : String) → List BuildType → r.Store → Result Builds
  builds_for task_id [] s = ok []
  builds_for task_id (k ∷ ks) s =
      put_builds k (get_builds json r build_codec task_id k "" s) (builds_for task_id ks s)

  -- The call behind the random choice.
  abbrev pub serve_builds : WeightedHarness → Result Builds → Action r.Store Bool
  serve_builds chc raised s = (raised, s)
  serve_builds chc (ok builds) s = elim (has_all_builds builds) [
    | true ↦ (run_task chc builds >>= λ _. pure true) s
    | false ↦ (ok false, s)
  ]

  abbrev pub weighted_items : r.Store → List WeightedHarness
  weighted_items s = filter (λ h. is_positive h.weight) (list_harnesses json r harness_codec s)

  abbrev pub serve_chosen : Option WeightedHarness → Action r.Store Bool
  serve_chosen none s = (raised, s)
  serve_chosen (some chc) s = serve_builds chc (builds_for chc.task_id required_builds s) s

  abbrev pub serve_choice : List WeightedHarness → Action r.Store Bool
  serve_choice [] s = (ok false, s)
  serve_choice (h ∷ hs) s = serve_chosen (get_elem? (h ∷ hs) (random.choice (h ∷ hs))) s

  unfoldable pub serve_item : Action r.Store Bool
  serve_item s = serve_choice (weighted_items s) s
