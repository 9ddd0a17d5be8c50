-- ===== src/Maps.antt =====
-- The maps on the Redis server, of common/src/buttercup/common/maps.py: `RedisMap`, `BuildMap`,
-- `HarnessWeights` and `CoverageMap`.
pub mod Builds
pub mod Weights
use buttercup.Prelude.{
  ℕ, String, Bool, true, false, not, ◌&&◌, Option, none, some, List, [], ◌∷◌, str_eq, ◌==◌,
  if◌then◌else◌,
}
use buttercup.Message.{
  BuildType, patch, build_type_number, BuildOutput, WeightedHarness, FunctionCoverage,
}
use buttercup.Outcome.{Result, ok, raised}
use buttercup.Redis.{Redis, Json, Codec, Field}

abbrev pub harness_weights : String
harness_weights = "harness_weights"

abbrev pub build_list : String
build_list = "build_list"

abbrev pub build_san_list : String
build_san_list = "build_san_list"

abbrev pub coverage_map : String
coverage_map = "coverage_map"

-- `RedisMap`, with the name of its hash.
module _ (r : Redis) {A : Type 0} (codec : Codec r.Bytes A) where
  unfoldable pub get : (hash_name key : String) → r.Store → Option A
  get hash_name key s = elim (r.hget hash_name key s) [
    | none ↦ none
    | some it ↦ some (codec.parse it)
  ]

  unfoldable pub set : (hash_name key : String) → A → r.Store → r.Store
  set hash_name key value s = r.hset hash_name key (codec.serialize value) s

  abbrev pub values_of : (hash_name : String) → List String → r.Store → List A
  values_of hash_name [] s = []
  values_of hash_name (key ∷ keys) s = elim (get hash_name key s) [
    | none ↦ values_of hash_name keys s
    | some value ↦ value ∷ values_of hash_name keys s
  ]

  -- `__iter__`
  unfoldable pub values : (hash_name : String) → r.Store → List A
  values hash_name s = values_of hash_name (r.hkeys hash_name s) s

module _ (json : Json) (r : Redis) where
  unfoldable pub san_set_key : (task_id : String) → BuildType → String
  san_set_key task_id build_type = json.dumps (
      Field.text task_id ∷ Field.text build_list ∷ Field.number (build_type_number build_type) ∷ [])

  unfoldable pub build_output_key :
      (task_id : String) → BuildType → (san internal_patch_id : String) → String
  build_output_key task_id build_type san internal_patch_id = json.dumps (
      Field.text task_id
      ∷ Field.text build_san_list
      ∷ Field.number (build_type_number build_type)
      ∷ Field.text san
      ∷ Field.text internal_patch_id
      ∷ [])

  -- An internal patch id is for builds of type PATCH only.
  abbrev pub is_valid_request : BuildType → (internal_patch_id : String) → Bool
  is_valid_request build_type internal_patch_id =
      if str_eq internal_patch_id ""
      then true
      else build_type_number build_type == build_type_number patch

  module _ (codec : Codec r.Bytes BuildOutput) where
    unfoldable pub add_build : BuildOutput → r.Store → r.Store
    add_build b s =
        let san_set = san_set_key b.task_id b.build_type in
        let boutput_key = build_output_key b.task_id b.build_type b.sanitizer b.internal_patch_id in
        r.set boutput_key (codec.serialize b) (r.sadd san_set b.sanitizer s).1

    unfoldable pub get_build_from_san :
        (task_id : String)
        → BuildType
        → (san internal_patch_id : String) → r.Store
        → Result (Option BuildOutput)
    get_build_from_san task_id build_type san internal_patch_id s =
        if is_valid_request build_type internal_patch_id
        then ok (elim (r.get (build_output_key task_id build_type san internal_patch_id) s) [
          | none ↦ none
          | some it ↦ some (codec.parse it)
        ])
        else raised

    -- The loop over the sanitizers. A raise ends it.
    abbrev pub builds_of :
        (task_id : String)
        → BuildType
        → (internal_patch_id : String) → List String
        → r.Store
        → Result (List BuildOutput)
    builds_of task_id build_type internal_patch_id [] s = ok []
    builds_of task_id build_type internal_patch_id (san ∷ sans) s =
        elim (get_build_from_san task_id build_type san internal_patch_id s) [
          | raised ↦ raised
          | ok none ↦ builds_of task_id build_type internal_patch_id sans s
          | ok (some b) ↦ elim (builds_of task_id build_type internal_patch_id sans s) [
            | raised ↦ raised
            | ok bs ↦ ok (b ∷ bs)
          ]
        ]

    unfoldable pub get_builds :
        (task_id : String)
        → BuildType
        → (internal_patch_id : String) → r.Store
        → Result (List BuildOutput)
    unfolding get_build_from_san
    get_builds task_id build_type internal_patch_id s =
        if is_valid_request build_type internal_patch_id
        then builds_of task_id build_type internal_patch_id
            (r.smembers (san_set_key task_id build_type) s) s
        else raised

  module _ (codec : Codec r.Bytes WeightedHarness) where
    unfoldable pub list_harnesses : r.Store → List WeightedHarness
    unfolding values
    list_harnesses s = values r codec harness_weights s

    unfoldable pub harness_key : WeightedHarness → String
    harness_key h =
        json.dumps
          (Field.text h.package_name ∷ Field.text h.harness_name ∷ Field.text h.task_id ∷ [])

    unfoldable pub push_harness : WeightedHarness → r.Store → r.Store
    unfolding set
    push_harness h s = set r codec harness_weights (harness_key h) h s

  module _ (codec : Codec r.Bytes FunctionCoverage) where
    unfoldable pub coverage_hash : (harness_name package_name task_id : String) → String
    coverage_hash harness_name package_name task_id = json.dumps (
        Field.text coverage_map
        ∷ Field.text harness_name
        ∷ Field.text package_name
        ∷ Field.text task_id
        ∷ [])

    unfoldable pub coverage_key : (function_name : String) (function_paths : List String) → String
    coverage_key function_name function_paths =
        json.dumps (Field.text function_name ∷ Field.texts function_paths ∷ [])

    -- The map of a harness is named by the text that `coverage_hash` makes.
    unfoldable pub set_function_coverage :
        (hash_name : String) → FunctionCoverage → r.Store → r.Store
    unfolding set
    set_function_coverage hash_name c s =
        set r codec hash_name (coverage_key c.function_name c.function_paths) c s

    unfoldable pub get_function_coverage :
        (hash_name function_name : String) (function_paths : List String)
        → r.Store
        → Option FunctionCoverage
    unfolding get
    get_function_coverage hash_name function_name function_paths s =
        get r codec hash_name (coverage_key function_name function_paths) s

    unfoldable pub list_function_coverage : (hash_name : String) → r.Store → List FunctionCoverage
    unfolding values
    list_function_coverage hash_name s = values r codec hash_name s
