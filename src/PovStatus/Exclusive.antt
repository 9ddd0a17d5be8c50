-- ===== src/PovStatus/Exclusive.antt =====
-- No key stands in two of the sets pending, mitigated and non-mitigated.
use buttercup.Prelude.{◌≡◌, String, Bool, false, ◌&&◌, arith, eq_iff}
use buttercup.Message.{PovReproduceRequest}
use buttercup.Redis.{Redis, Json}
use buttercup.PovStatus.{
  pov_reproduce_pending, pov_reproduce_mitigated, pov_reproduce_non_mitigated,
  pov_reproduce_expired, make_key, look_up, mark_mitigated, mark_non_mitigated, mark_expired,
}

-- At most one of three.
abbrev pub AtMostOne : Bool → Bool → Bool → Type 0
AtMostOne a b c = ((a && b) ≡ false) × ((a && c) ≡ false) × ((b && c) ≡ false)

module _ (json : Json) (r : Redis) where
  open r use {Store, sismember, sismember-sadd, sismember-smove}

  abbrev pub ExclusiveAt : String → Store → Type 0
  ExclusiveAt key s =
      AtMostOne (sismember pov_reproduce_pending key s) (sismember pov_reproduce_mitigated key s)
        (sismember pov_reproduce_non_mitigated key s)

  pub record Exclusive (s : Store) : Type 0 where
    pub at : (key : String) → ExclusiveAt key s

  pub look_up-Exclusive :
      (request : PovReproduceRequest) (s : Store)
      → Exclusive s
      → Exclusive (look_up json r request s).1
  unfolding look_up
  look_up-Exclusive request s h = record {
    at = λ key.
        let k = make_key json request in
        ground (
          arith,
          h.at key,
          h.at k,
          eq_iff k key,
          sismember-sadd pov_reproduce_pending k pov_reproduce_pending key s,
          sismember-sadd pov_reproduce_pending k pov_reproduce_mitigated key s,
          sismember-sadd pov_reproduce_pending k pov_reproduce_non_mitigated key s,
        );
  }

  pub mark_mitigated-Exclusive :
      (request : PovReproduceRequest) (s : Store)
      → Exclusive s
      → Exclusive (mark_mitigated json r request s).1
  unfolding mark_mitigated
  mark_mitigated-Exclusive request s h = record {
    at = λ key.
        let k = make_key json request in
        ground (
          arith,
          h.at key,
          h.at k,
          eq_iff k key,
          sismember-smove pov_reproduce_pending pov_reproduce_mitigated k pov_reproduce_pending key
              s,
          sismember-smove pov_reproduce_pending pov_reproduce_mitigated k pov_reproduce_mitigated
              key s,
          sismember-smove pov_reproduce_pending pov_reproduce_mitigated k
              pov_reproduce_non_mitigated key s,
        );
  }

  pub mark_non_mitigated-Exclusive :
      (request : PovReproduceRequest) (s : Store)
      → Exclusive s
      → Exclusive (mark_non_mitigated json r request s).1
  unfolding mark_non_mitigated
  mark_non_mitigated-Exclusive request s h = record {
    at = λ key.
        let k = make_key json request in
        ground (
          arith,
          h.at key,
          h.at k,
          eq_iff k key,
          sismember-smove pov_reproduce_pending pov_reproduce_non_mitigated k pov_reproduce_pending
              key s,
          sismember-smove pov_reproduce_pending pov_reproduce_non_mitigated k
              pov_reproduce_mitigated key s,
          sismember-smove pov_reproduce_pending pov_reproduce_non_mitigated k
              pov_reproduce_non_mitigated key s,
        );
  }

  pub mark_expired-Exclusive :
      (request : PovReproduceRequest) (s : Store)
      → Exclusive s
      → Exclusive (mark_expired json r request s).1
  unfolding mark_expired
  mark_expired-Exclusive request s h = record {
    at = λ key.
        let k = make_key json request in
        ground (
          arith,
          h.at key,
          h.at k,
          eq_iff k key,
          sismember-smove pov_reproduce_pending pov_reproduce_expired k pov_reproduce_pending key s,
          sismember-smove pov_reproduce_pending pov_reproduce_expired k pov_reproduce_mitigated key
              s,
          sismember-smove pov_reproduce_pending pov_reproduce_expired k pov_reproduce_non_mitigated
              key s,
        );
  }
