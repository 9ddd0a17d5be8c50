-- ===== src/PovStatus/Race.antt =====
-- A request reads the sets and adds its key by two commands, of `request_status` in
-- common/src/buttercup/common/sets.py, and reproducers may make marks in between.
use buttercup.Prelude.{◌≡◌, ◌∙◌, String, List, [], ◌∷◌, arith, eq_iff}
use buttercup.Message.{PovReproduceRequest}
use buttercup.Redis.{Redis, Json}
use buttercup.PovStatus.{
  pov_reproduce_pending, pov_reproduce_mitigated, pov_reproduce_non_mitigated, mark_mitigated,
  mark_non_mitigated, mark_expired,
}
use buttercup.PovStatus.Spec.{unrequested, pending}
use buttercup.PovStatus.Exclusive.{
  Exclusive, mark_mitigated-Exclusive, mark_non_mitigated-Exclusive, mark_expired-Exclusive,
}
use buttercup.PovStatus.View.{view, view-mark_mitigated, view-mark_non_mitigated, view-mark_expired}

-- What a reproducer marks a request as.
pub data Mark : Type 0 where
  as_mitigated as_non_mitigated as_expired : PovReproduceRequest → Mark

module _ (json : Json) (r : Redis) where
  open r use {Store, sadd, sismember-sadd}

  abbrev pub make_mark : Mark → Store → Store
  make_mark (as_mitigated q) s = (mark_mitigated json r q s).1
  make_mark (as_non_mitigated q) s = (mark_non_mitigated json r q s).1
  make_mark (as_expired q) s = (mark_expired json r q s).1

  abbrev pub make_marks : List Mark → Store → Store
  make_marks [] s = s
  make_marks (m ∷ ms) s = make_marks ms (make_mark m s)

  make_mark-Exclusive :
      (m : Mark) (s : Store) → Exclusive json r s → Exclusive json r (make_mark m s)
  make_mark-Exclusive (as_mitigated q) s h = mark_mitigated-Exclusive json r q s h
  make_mark-Exclusive (as_non_mitigated q) s h = mark_non_mitigated-Exclusive json r q s h
  make_mark-Exclusive (as_expired q) s h = mark_expired-Exclusive json r q s h

  -- A mark does not touch a key that nobody asked for.
  view-make_mark :
      (m : Mark) (s : Store) (key : String)
      → Exclusive json r s
      → view json r s key ≡ unrequested
      → view json r (make_mark m s) key ≡ unrequested
  view-make_mark (as_mitigated q) s key h e = view-mark_mitigated json r q s key h ∙ ground arith
  view-make_mark (as_non_mitigated q) s key h e =
      view-mark_non_mitigated json r q s key h ∙ ground arith
  view-make_mark (as_expired q) s key h e = view-mark_expired json r q s key h ∙ ground arith

  add-Exclusive :
      (key : String) (s : Store)
      → Exclusive json r s
      → view json r s key ≡ unrequested
      → Exclusive json r (sadd pov_reproduce_pending key s).1
        × (view json r (sadd pov_reproduce_pending key s).1 key ≡ pending)
  add-Exclusive key s h e = (
    record {
      at = λ k. ground (
        arith,
        h.at k,
        eq_iff key k,
        sismember-sadd pov_reproduce_pending key pov_reproduce_pending k s,
        sismember-sadd pov_reproduce_pending key pov_reproduce_mitigated k s,
        sismember-sadd pov_reproduce_pending key pov_reproduce_non_mitigated k s,
      );
    },
    ground (
      arith,
      eq_iff key key,
      sismember-sadd pov_reproduce_pending key pov_reproduce_pending key s,
      sismember-sadd pov_reproduce_pending key pov_reproduce_mitigated key s,
      sismember-sadd pov_reproduce_pending key pov_reproduce_non_mitigated key s,
    ),
  )

  -- If no key stands in two of the three sets, and a key in none when the sets are read, then any
  -- marks that reproducers make before it is added leave it pending after that, and no key then
  -- stands in two of the sets.
  pub sadd-Exclusive :
      (ms : List Mark) (key : String) (s : Store)
      → Exclusive json r s
      → view json r s key ≡ unrequested
      → Exclusive json r (sadd pov_reproduce_pending key (make_marks ms s)).1
        × (view json r (sadd pov_reproduce_pending key (make_marks ms s)).1 key ≡ pending)
  sadd-Exclusive [] key s h e = add-Exclusive key s h e
  sadd-Exclusive (m ∷ ms) key s h e =
      sadd-Exclusive ms key (make_mark m s) (make_mark-Exclusive m s h) (view-make_mark m s key h e)
