-- ===== src/Submissions/Env.antt =====
-- What `Submissions` reaches outside itself: the competition API, and "local" state, which is Redis
-- (its list of entries among it), the clock and the task storage. Other components stand here by
-- their operations: `TaskRegistry.should_stop_processing`, `PoVReproduceStatus.request_status`, the
-- crash comparison, the SARIF matcher, `ProjectYaml` and the queues.
use buttercup.Prelude.{ℕ, ◌+◌, ◌<◌, ◌≡◌, String, Bool, Option, List, [], ◌∷◌, ◌++◌, length, set}
use buttercup.Message.{
  BuildRequest, TracedCrash, ConfirmedVulnerability, SubmissionEntry, PovReproduceRequest,
  PovReproduceResponse,
}
use buttercup.Outcome.{Result}
use buttercup.CompetitionApi.Client.{ApiClient}

-- `SARIFBroadcastDetail`: the report itself is read by the matcher alone.
pub record Sarif : Type 0 where
  pub sarif_id : String
  pub task_id : String
  pub report : String

-- What the code reads of a `ChallengeTask` and its `ProjectYaml`.
pub record Project : Type 0 where
  pub task_dir : String
  pub fuzzing_engines : List String
  pub sanitizers : List String

-- One call that is buffered on a Redis pipeline.
pub data Command : Type 0 where
  lset : ℕ → SubmissionEntry → Command
  sadd_matched : String → Command
  xadd_build : BuildRequest → Command
  xadd_confirmed : ConfirmedVulnerability → Command

pub record Env : Type 1 where
  pub api : ApiClient
  pub Local : Type 0
  pub should_stop_processing : (task_id : String) → Local → Bool
  pub request_status : PovReproduceRequest → Local → Option PovReproduceResponse × Local
  -- `cf_comparator.is_similar() or instkey_comparator.is_similar()`, the new crash first
  pub is_similar : TracedCrash → TracedCrash → Bool
  pub get_by_task_id : (task_id : String) → Local → List Sarif
  -- `match`: no match, or the field `matches_lines` of the match
  pub match_sarif : Sarif → TracedCrash → Option Bool
  pub uuid4 : Local → String × Local
  -- building the `ChallengeTask` and the `ProjectYaml` may raise
  pub read_project : (task_id : String) → Local → Result Project
  -- What a protobuf text field reads as after None was assigned to it, if that does not raise.
  pub assign_none : Result String
  pub run_command : Command → Local → Local
  -- The set `matched_sarifs` in Redis, its members as texts: the program's Redis client gives bytes.
  pub get_matched_sarifs : Local → List String
  -- The list `submissions` in Redis.
  pub lrange : Local → List SubmissionEntry
  pub rpush : SubmissionEntry → Local → ℕ × Local
  pub lrange-lset :
      (i : ℕ) (e : SubmissionEntry) (l : Local)
      → i < length (lrange l)
      → lrange (run_command (lset i e) l) ≡ set (lrange l) i e
  pub lrange-sadd : (s : String) (l : Local) → lrange (run_command (sadd_matched s) l) ≡ lrange l
  pub lrange-xadd_build :
      (b : BuildRequest) (l : Local) → lrange (run_command (xadd_build b) l) ≡ lrange l
  pub lrange-xadd_confirmed :
      (v : ConfirmedVulnerability) (l : Local)
      → lrange (run_command (xadd_confirmed v) l) ≡ lrange l
  pub lrange-rpush : (e : SubmissionEntry) (l : Local) → lrange (rpush e l).1 ≡ lrange l ++ e ∷ []
  pub rpush-length : (e : SubmissionEntry) (l : Local) → (rpush e l).0 ≡ length (lrange l) + 1
  pub lrange-request_status :
      (r : PovReproduceRequest) (l : Local) → lrange (request_status r l).1 ≡ lrange l
  pub lrange-uuid4 : (l : Local) → lrange (uuid4 l).1 ≡ lrange l
