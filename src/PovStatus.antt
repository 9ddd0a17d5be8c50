-- ===== src/PovStatus.antt =====
-- `RedisSet` and `PoVReproduceStatus` of common/src/buttercup/common/sets.py.
pub mod Exclusive
pub mod Spec
pub mod View
pub mod Cache
pub mod Refines
pub mod Keys
pub mod Race
use buttercup.Prelude.{
  ℕ, String, Bool, true, false, not, ◌||◌, Option, none, some, List, [], ◌∷◌, get_elem?, take,
  filter, str_eq, ltb, ◌==◌, if◌then◌else◌,
}
use buttercup.Message.{PovReproduceRequest, PovReproduceResponse}
use buttercup.Outcome.{Result, ok, raised}
use buttercup.Redis.{Redis, Json, Field}

abbrev pub pov_reproduce_pending : String
pov_reproduce_pending = "pov_reproduce_pending"

abbrev pub pov_reproduce_mitigated : String
pov_reproduce_mitigated = "pov_reproduce_mitigated"

abbrev pub pov_reproduce_non_mitigated : String
pov_reproduce_non_mitigated = "pov_reproduce_non_mitigated"

abbrev pub pov_reproduce_expired : String
pov_reproduce_expired = "pov_reproduce_non_expired"

-- The entries of `lru_cache(maxsize=1000)` on `_did_crash`, the most recent first: None is kept too.
abbrev pub Cached : Type 0
Cached = List (String × Option Bool)

abbrev pub maxsize : ℕ
maxsize = 1000

abbrev pub cached : String → Cached → Option (Option Bool)
cached key [] = none
cached key ((k, v) ∷ c) = if str_eq k key then some v else cached key c

abbrev pub respond : PovReproduceRequest → Bool → PovReproduceResponse
respond request crashed = record { request = request; did_crash = crashed }

module _ (json : Json) where
  unfoldable pub make_key : PovReproduceRequest → String
  make_key r = json.dumps (
      Field.text r.task_id
      ∷ Field.text r.internal_patch_id
      ∷ Field.text r.pov_path
      ∷ Field.text r.sanitizer
      ∷ Field.text r.harness_name
      ∷ [])

  -- `fields[0]` to `fields[4]` into the request. A field that is missing or no text raises.
  unfoldable pub request_of_fields : List Field → Result PovReproduceRequest
  request_of_fields
        (Field.text task_id
          ∷ Field.text internal_patch_id
          ∷ Field.text pov_path
          ∷ Field.text sanitizer
          ∷ Field.text harness_name
          ∷ _) =
      ok (record {
        task_id = task_id;
        internal_patch_id = internal_patch_id;
        harness_name = harness_name;
        sanitizer = sanitizer;
        pov_path = pov_path;
      })
  request_of_fields _ = raised

  module _ (r : Redis) where
    open r use {Store, sismember, smembers, sadd, srem, smove}

    -- `RedisSet.add` and `RedisSet.remove`: whether the value was in the set.
    unfoldable pub add : (set_name value : String) → Store → Bool × Store
    add set_name value s = let (n, s') = sadd set_name value s in (n == 0, s')

    unfoldable pub remove : (set_name value : String) → Store → Bool × Store
    remove set_name value s = let (n, s') = srem set_name value s in (n == 1, s')

    -- The server, and the cache of this process.
    pub record State : Type 0 where
      pub store : Store
      pub cache : Cached

    -- The body of `_did_crash`.
    unfoldable pub query_did_crash : String → Store → Option Bool
    query_did_crash key s =
        if sismember pov_reproduce_mitigated key s
        then some false
        else if sismember pov_reproduce_non_mitigated key s
        then some true
        else none

    -- `_did_crash` behind its cache: a hit moves to the front, a miss is asked for and kept, and the
    -- entry that was used least recently falls out.
    unfoldable pub did_crash : String → State → Option Bool × State
    unfolding query_did_crash
    did_crash key s = elim (cached key s.cache) [
      | some v ↦ (v, record s { cache = (key, v) ∷ filter (λ p. not (str_eq p.0 key)) s.cache })
      | none ↦
          let v = query_did_crash key s.store in
          (v, record s { cache = take maxsize ((key, v) ∷ s.cache) })
    ]

    -- The part of `request_status` behind the cache.
    unfoldable pub look_up : PovReproduceRequest → Store → Option PovReproduceResponse × Store
    unfolding make_key
    look_up request s =
        let key = make_key request in
        if sismember pov_reproduce_pending key s
        then (none, s)
        else if sismember pov_reproduce_mitigated key s
        then (some (respond request false), s)
        else if sismember pov_reproduce_non_mitigated key s
        then (some (respond request true), s)
        else (none, (sadd pov_reproduce_pending key s).1)

    unfoldable pub request_status :
        PovReproduceRequest → State → Option PovReproduceResponse × State
    unfolding did_crash look_up make_key
    request_status request s =
        let (crashed, s1) = did_crash (make_key request) s in
        elim crashed [
          | some b ↦ (some (respond request b), s1)
          | none ↦
              let (status, store) = look_up request s1.store in
              (status, record s1 { store = store })
        ]

    -- A key goes from the pending set to another, if it is pending.
    unfoldable pub mark : (set_name : String) → PovReproduceRequest → Store → Bool × Store
    unfolding make_key
    mark set_name request s =
        let (moved_count, s') = smove pov_reproduce_pending set_name (make_key request) s in
        (ltb 0 moved_count, s')

    unfoldable pub mark_mitigated : PovReproduceRequest → Store → Bool × Store
    unfolding mark
    mark_mitigated = mark pov_reproduce_mitigated

    unfoldable pub mark_non_mitigated : PovReproduceRequest → Store → Bool × Store
    unfolding mark
    mark_non_mitigated = mark pov_reproduce_non_mitigated

    unfoldable pub mark_expired : PovReproduceRequest → Store → Bool × Store
    unfolding mark
    mark_expired = mark pov_reproduce_expired

    -- `random.choice` takes the member `i` of those that SMEMBERS returned.
    unfoldable pub get_one_pending : (i : ℕ) → Store → Result (Option PovReproduceRequest)
    unfolding request_of_fields
    get_one_pending i s = elim (get_elem? (smembers pov_reproduce_pending s) i) [
      | none ↦ ok none
      | some key ↦ elim (json.loads key) [
        | none ↦ raised
        | some fields ↦ elim (request_of_fields fields) [
          | raised ↦ raised
          | ok request ↦ ok (some request)
        ]
      ]
    ]
