-- ===== src/PovStatus/View.antt =====
-- The sets in Redis read as the progress of each key, and what each call does to it.
use buttercup.Prelude.{◌≡◌, String, arith, eq_iff, str_eq, if◌then◌else◌}
use buttercup.Message.{PovReproduceRequest}
use buttercup.Redis.{Redis, Json}
use buttercup.PovStatus.{
  pov_reproduce_pending, pov_reproduce_mitigated, pov_reproduce_non_mitigated,
  pov_reproduce_expired, make_key, query_did_crash, look_up, mark, mark_mitigated,
  mark_non_mitigated, mark_expired,
}
use buttercup.PovStatus.Exclusive.{Exclusive}
use buttercup.PovStatus.Spec.{
  Progress, unrequested, pending, mitigated, crashing, verdict, requested, moved, is_pending,
  answer,
}

module _ (json : Json) (r : Redis) where
  open r use {Store, sismember, sismember-sadd, sismember-smove, smove-count}

  abbrev pub view : Store → String → Progress
  view s key =
      if sismember pov_reproduce_mitigated key s
      then mitigated
      else if sismember pov_reproduce_non_mitigated key s
      then crashing
      else if sismember pov_reproduce_pending key s
      then pending
      else unrequested

  pub query_did_crash-view :
      (key : String) (s : Store) → query_did_crash json r key s ≡ verdict (view s key)
  unfolding query_did_crash
  query_did_crash-view key s = ground arith

  pub look_up-view :
      (request : PovReproduceRequest) (s : Store)
      → Exclusive json r s
      → (look_up json r request s).0
        ≡ answer json request (verdict (view s (make_key json request)))
  unfolding look_up
  look_up-view request s h = let k = make_key json request in ground (arith, h.at k)

  pub view-look_up :
      (request : PovReproduceRequest) (s : Store) (key : String)
      → view (look_up json r request s).1 key
        ≡ (if str_eq (make_key json request) key then requested (view s key) else view s key)
  unfolding look_up
  view-look_up request s key =
      let k = make_key json request in
      ground (
        arith,
        eq_iff k key,
        sismember-sadd pov_reproduce_pending k pov_reproduce_pending key s,
        sismember-sadd pov_reproduce_pending k pov_reproduce_mitigated key s,
        sismember-sadd pov_reproduce_pending k pov_reproduce_non_mitigated key s,
      )

  -- A move of a key to a set that a progress stands for.
  module _ (request : PovReproduceRequest) (s : Store) (key : String) (h : Exclusive json r s) where
    abbrev k : String
    k = make_key json request

    pub view-mark_mitigated :
        view (mark_mitigated json r request s).1 key
        ≡ (if str_eq k key then moved mitigated (view s key) else view s key)
    unfolding mark_mitigated
    view-mark_mitigated = ground (
      arith,
      eq_iff k key,
      h.at key,
      sismember-smove pov_reproduce_pending pov_reproduce_mitigated k pov_reproduce_pending key s,
      sismember-smove pov_reproduce_pending pov_reproduce_mitigated k pov_reproduce_mitigated key s,
      sismember-smove pov_reproduce_pending pov_reproduce_mitigated k pov_reproduce_non_mitigated
          key s,
    )

    pub view-mark_non_mitigated :
        view (mark_non_mitigated json r request s).1 key
        ≡ (if str_eq k key then moved crashing (view s key) else view s key)
    unfolding mark_non_mitigated
    view-mark_non_mitigated = ground (
      arith,
      eq_iff k key,
      h.at key,
      sismember-smove pov_reproduce_pending pov_reproduce_non_mitigated k pov_reproduce_pending key
          s,
      sismember-smove pov_reproduce_pending pov_reproduce_non_mitigated k pov_reproduce_mitigated
          key s,
      sismember-smove pov_reproduce_pending pov_reproduce_non_mitigated k
          pov_reproduce_non_mitigated key s,
    )

    pub view-mark_expired :
        view (mark_expired json r request s).1 key
        ≡ (if str_eq k key then moved unrequested (view s key) else view s key)
    unfolding mark_expired
    view-mark_expired = ground (
      arith,
      eq_iff k key,
      h.at key,
      sismember-smove pov_reproduce_pending pov_reproduce_expired k pov_reproduce_pending key s,
      sismember-smove pov_reproduce_pending pov_reproduce_expired k pov_reproduce_mitigated key s,
      sismember-smove pov_reproduce_pending pov_reproduce_expired k pov_reproduce_non_mitigated key
          s,
    )

  pub mark-view :
      (set_name : String) (request : PovReproduceRequest) (s : Store)
      → Exclusive json r s
      → (mark json r set_name request s).0 ≡ is_pending (view s (make_key json request))
  unfolding mark
  mark-view set_name request s h =
      let k = make_key json request in
      ground (arith, h.at k, smove-count pov_reproduce_pending set_name k s)
