-- ===== src/Message.antt =====
-- The protobuf messages of common/protos/msg.proto that the modelled code reads and writes. A text
-- field that was never set reads as the empty text, and an unset `result` reads as NONE.
use buttercup.Prelude.{ℕ, String, Bool, List, ◌==◌}

-- enum SubmissionResult
pub data SubmissionResult : Type 0 where
  none accepted passed failed deadline_exceeded errored inconclusive : SubmissionResult

-- The numbers of the enum, which are what Python compares.
abbrev pub result_number : SubmissionResult → ℕ
result_number none = 0
result_number accepted = 1
result_number passed = 2
result_number failed = 3
result_number deadline_exceeded = 4
result_number errored = 5
result_number inconclusive = 6

abbrev pub result_eq : SubmissionResult → SubmissionResult → Bool
result_eq a b = result_number a == result_number b

-- enum BuildType
pub data BuildType : Type 0 where
  fuzzer coverage tracer_no_diff patch : BuildType

abbrev pub build_type_number : BuildType → ℕ
build_type_number fuzzer = 0
build_type_number coverage = 1
build_type_number tracer_no_diff = 2
build_type_number patch = 3

pub record BuildRequest : Type 0 where
  pub engine : String
  pub sanitizer : String
  pub task_dir : String
  pub task_id : String
  pub build_type : BuildType
  pub apply_diff : Bool
  pub patch : String
  pub internal_patch_id : String

pub record BuildOutput : Type 0 where
  pub engine : String
  pub sanitizer : String
  pub task_dir : String
  pub task_id : String
  pub build_type : BuildType
  pub apply_diff : Bool
  pub internal_patch_id : String

pub record Crash : Type 0 where
  pub target : BuildOutput
  pub harness_name : String
  pub crash_input_path : String
  pub stacktrace : String
  pub crash_token : String

pub record TracedCrash : Type 0 where
  pub crash : Crash
  pub tracer_stacktrace : String

pub record ConfirmedVulnerability : Type 0 where
  pub crashes : List TracedCrash
  pub internal_patch_id : String

pub record Patch : Type 0 where
  pub task_id : String
  pub internal_patch_id : String
  pub patch : String

pub record SubmissionEntryPatch : Type 0 where
  pub patch : String
  pub internal_patch_id : String
  pub competition_patch_id : String
  pub build_outputs : List BuildOutput
  pub result : SubmissionResult

pub record Bundle : Type 0 where
  pub task_id : String
  pub competition_pov_id : String
  pub competition_patch_id : String
  pub competition_sarif_id : String
  pub bundle_id : String

pub record CrashWithId : Type 0 where
  pub crash : TracedCrash
  pub competition_pov_id : String
  pub result : SubmissionResult

pub record SubmissionEntry : Type 0 where
  pub stop : Bool
  pub crashes : List CrashWithId
  pub bundles : List Bundle
  pub patches : List SubmissionEntryPatch
  pub patch_idx : ℕ
  pub patch_submission_attempts : ℕ

pub record PovReproduceRequest : Type 0 where
  pub task_id : String
  pub internal_patch_id : String
  pub harness_name : String
  pub sanitizer : String
  pub pov_path : String

pub record PovReproduceResponse : Type 0 where
  pub request : PovReproduceRequest
  pub did_crash : Bool

-- `Task.TaskType`
pub data TaskType : Type 0 where
  task_type_full task_type_delta : TaskType

-- `SourceDetail.SourceType`
pub data SourceType : Type 0 where
  source_type_repo source_type_fuzz_tooling source_type_diff : SourceType

pub record SourceDetail : Type 0 where
  pub sha256 : String
  pub source_type : SourceType
  pub url : String

pub record Task : Type 0 where
  pub message_id : String
  pub message_time : ℕ
  pub task_id : String
  pub task_type : TaskType
  pub sources : List SourceDetail
  pub deadline : ℕ
  pub cancelled : Bool
  pub project_name : String
  pub focus : String
  pub metadata : List (String × String)

pub record TaskDownload : Type 0 where
  pub task : Task

-- The `oneof` of `TaskDelete`, which may be unset.
pub data TaskDelete : Type 0 where
  delete_one : (task_id : String) → TaskDelete
  delete_all : (all : Bool) → TaskDelete
  delete_unset : TaskDelete

-- The weight is a float in the source, which the modelled code compares with 0 and sets to 1.0 or -1.0:
-- a whole number here.
pub data ℤ : Type 0 where
  pos : ℕ → ℤ
  negsuc : ℕ → ℤ

pub record WeightedHarness : Type 0 where
  pub weight : ℤ
  pub package_name : String
  pub harness_name : String
  pub task_id : String

pub record FunctionCoverage : Type 0 where
  pub function_name : String
  pub function_paths : List String
  pub total_lines : ℕ
  pub covered_lines : ℕ

pub record TaskReady : Type 0 where
  pub task : Task

pub record IndexRequest : Type 0 where
  pub task_id : String
  pub task_dir : String
  pub package_name : String

pub record IndexOutput : Type 0 where
  pub task_id : String
