-- ===== src/PovStatus/Spec.antt =====
-- What `PoVReproduceStatus` promises, without sets and caches: a test of a POV against a patch is
-- asked for once, goes on, and ends in a verdict that stays; or it is given up, and may be asked for
-- again.
use buttercup.Prelude.{
  String, Bool, true, false, Option, none, some, List, [], ◌∷◌, str_eq, if◌then◌else◌,
}
use buttercup.Message.{PovReproduceRequest, PovReproduceResponse}
use buttercup.Redis.{Json, Redis}
use buttercup.PovStatus.{
  make_key, respond, State, request_status, mark_mitigated, mark_non_mitigated, mark_expired,
}

pub data Progress : Type 0 where
  unrequested pending mitigated crashing : Progress

-- The verdict, if there is one: whether the POV crashed.
abbrev pub verdict : Progress → Option Bool
verdict mitigated = some false
verdict crashing = some true
verdict _ = none

-- After a request, and after a move out of the pending set.
abbrev pub requested : Progress → Progress
requested unrequested = pending
requested p = p

abbrev pub moved : Progress → Progress → Progress
moved target pending = target
moved target p = p

abbrev pub is_pending : Progress → Bool
is_pending pending = true
is_pending _ = false

-- The calls of the scheduler and of the reproducers.
pub data Event : Type 0 where
  request : PovReproduceRequest → Event
  mitigate : PovReproduceRequest → Event
  not_mitigate : PovReproduceRequest → Event
  expire : PovReproduceRequest → Event

pub data Reply : Type 0 where
  status : Option PovReproduceResponse → Reply
  marked : Bool → Reply

module _ (json : Json) where
  abbrev pub Table : Type 0
  Table = String → Progress

  abbrev pub update : String → (Progress → Progress) → Table → Table
  update key f t = λ k. if str_eq key k then f (t k) else t k

  abbrev pub answer : PovReproduceRequest → Option Bool → Option PovReproduceResponse
  answer r none = none
  answer r (some b) = some (respond r b)

  abbrev pub spec_step : Event → Table → Reply × Table
  spec_step (request r) t =
      (status (answer r (verdict (t (make_key json r)))), update (make_key json r) requested t)
  spec_step (mitigate r) t =
      (marked (is_pending (t (make_key json r))), update (make_key json r) (moved mitigated) t)
  spec_step (not_mitigate r) t =
      (marked (is_pending (t (make_key json r))), update (make_key json r) (moved crashing) t)
  spec_step (expire r) t =
      (marked (is_pending (t (make_key json r))), update (make_key json r) (moved unrequested) t)

  abbrev pub spec_replies : List Event → Table → List Reply
  spec_replies [] t = []
  spec_replies (e ∷ es) t = (spec_step e t).0 ∷ spec_replies es (spec_step e t).1

  module _ (r : Redis) where
    -- A mark is made by another process, which has a cache of its own.
    abbrev pub on_store :
        (PovReproduceRequest → r.Store → Bool × r.Store)
        → PovReproduceRequest
        → State json r
        → Reply × State json r
    on_store f q s = let (b, store) = f q s.store in (marked b, record s { store = store })

    abbrev pub step : Event → State json r → Reply × State json r
    step (request q) s = let (a, s') = request_status json r q s in (status a, s')
    step (mitigate q) s = on_store (mark_mitigated json r) q s
    step (not_mitigate q) s = on_store (mark_non_mitigated json r) q s
    step (expire q) s = on_store (mark_expired json r) q s

    abbrev pub replies : List Event → State json r → List Reply
    replies [] s = []
    replies (e ∷ es) s = (step e s).0 ∷ replies es (step e s).1
