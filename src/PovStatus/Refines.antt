-- ===== src/PovStatus/Refines.antt =====
-- `PoVReproduceStatus`, its cache included, does what the specification says.
use buttercup.Prelude.{
  ◌≡◌, refl, sym, ◌∙◌, ap, subst, String, Bool, some, List, [], ◌∷◌, arith, eq_iff, str_eq,
  if◌then◌else◌, Option-cases, inl, inr,
}
use mathlib.Core.Path.{fun_ext}
use buttercup.Message.{PovReproduceRequest}
use buttercup.Redis.{Redis, Json}
use buttercup.PovStatus.{
  State, make_key, did_crash, look_up, request_status, respond, mark_mitigated, mark_non_mitigated,
  mark_expired,
}
use buttercup.PovStatus.Spec.{
  Progress, unrequested, mitigated, crashing, verdict, requested, moved, is_pending, answer, Event,
  request, mitigate, not_mitigate, expire, Reply, status, marked, Table, update, spec_step,
  spec_replies, step, replies,
}
use buttercup.PovStatus.Exclusive.{
  Exclusive, look_up-Exclusive, mark_mitigated-Exclusive, mark_non_mitigated-Exclusive,
  mark_expired-Exclusive,
}
use buttercup.PovStatus.View.{
  view, look_up-view, view-look_up, view-mark_mitigated, view-mark_non_mitigated, view-mark_expired,
  mark-view,
}
use buttercup.PovStatus.Cache.{
  IsSound, IsSound-mono, did_crash-IsSound, did_crash-verdict, store-did_crash,
}

module _ (json : Json) (r : Redis) where
  open r use {Store}

  -- The sets are exclusive, and the verdicts of the cache are true.
  pub record Inv (s : State json r) : Type 0 where
    pub exclusive : Exclusive json r s.store
    pub sound : IsSound s.cache (view json r s.store)

  pub record Refines (out : Reply × State json r) (spec : Reply × Table json) : Type 0 where
    pub reply : out.0 ≡ spec.0
    pub table : view json r out.1.store ≡ spec.1
    pub inv : Inv out.1

  verdict-update :
      (key : String) (f : Progress → Progress) (t : Table json)
      → ((p : Progress) (b : Bool) → verdict p ≡ some b → verdict (f p) ≡ some b)
      → (k : String) (b : Bool) → verdict (t k) ≡ some b
      → verdict (update json key f t k) ≡ some b
  verdict-update key f t keep k b h = ground (arith, keep (t k) b)

  verdict-requested :
      (p : Progress) (b : Bool) → verdict p ≡ some b → verdict (requested p) ≡ some b
  verdict-requested p b h = ground arith

  verdict-moved :
      (target p : Progress) (b : Bool) → verdict p ≡ some b → verdict (moved target p) ≡ some b
  verdict-moved target p b h = ground arith

  IsSound-update :
      (s : State json r) (key : String) (f : Progress → Progress) (store : Store)
      → view json r store ≡ update json key f (view json r s.store)
      → ((p : Progress) (b : Bool) → verdict p ≡ some b → verdict (f p) ≡ some b)
      → IsSound s.cache (view json r s.store)
      → IsSound s.cache (view json r store)
  IsSound-update s key f store e keep h =
      subst (IsSound s.cache) (sym e)
        (IsSound-mono s.cache _ _ (verdict-update key f (view json r s.store) keep) h)

  module _ (q : PovReproduceRequest) (s : State json r) (h : Inv s) where
    abbrev key : String
    key = make_key json q

    abbrev after : State json r
    after = (did_crash json r key s).1

    same : view json r after.store ≡ view json r s.store
    same = ap (view json r) (store-did_crash json r key s)

    after-Inv : Inv after
    after-Inv = record {
      exclusive = subst (Exclusive json r) (sym (store-did_crash json r key s)) h.exclusive;
      sound = subst (IsSound after.cache) (sym same) (did_crash-IsSound json r key s h.sound);
    }

    -- A verdict from the cache, or from the first query.
    hit-Refines :
        (b : Bool)
        → (did_crash json r key s).0 ≡ some b
        → Refines
            (status (some (respond q b)), after)
            (spec_step json (request q) (view json r s.store))
    hit-Refines b e =
        let told = did_crash-verdict json r key s b h.sound e in
        record {
          reply = ap (λ v. status (answer json q v)) (sym told);
          table = same ∙ fun_ext (λ k. ground (arith, told, eq_iff key k));
          inv = after-Inv;
        }

    -- Nothing is known: the second query, and the request for a test.
    miss-Refines :
        Refines
          (
            status (look_up json r q after.store).0,
            record after { store = (look_up json r q after.store).1 },
          )
          (spec_step json (request q) (view json r s.store))
    miss-Refines =
        let asked = fun_ext (view-look_up json r q after.store) in
        record {
          reply =
              ap status (look_up-view json r q after.store after-Inv.exclusive)
              ∙ ap (λ (t : Table json). status (answer json q (verdict (t key)))) same;
          table = asked ∙ ap (update json key requested) same;
          inv = record {
            exclusive = look_up-Exclusive json r q after.store after-Inv.exclusive;
            sound = IsSound-update after key requested _ asked verdict-requested after-Inv.sound;
          };
        }

    requested-Refines :
        Refines
          (status (request_status json r q s).0, (request_status json r q s).1)
          (spec_step json (request q) (view json r s.store))
    unfolding request_status
    requested-Refines = elim (Option-cases (did_crash json r key s).0) [
      | inr (b, e) ↦ rw (e, request_status) (hit-Refines b e)
      | inl e ↦ rw (e, request_status) miss-Refines
    ]

    -- A mark, by what it does to the sets.
    marked-Refines :
        (target : Progress) (out : Bool × Store)
        → out.0 ≡ is_pending (view json r s.store key)
        → ((k : String)
            → view json r out.1 k ≡ (
                if str_eq key k
                then moved target (view json r s.store k)
                else view json r s.store k))
        → Exclusive json r out.1
        → Refines
            (marked out.0, record s { store = out.1 })
            (
              marked (is_pending (view json r s.store key)),
              update json key (moved target) (view json r s.store),
            )
    marked-Refines target out told seen exclusive = record {
      reply = ap marked told;
      table = fun_ext seen;
      inv = record {
        exclusive = exclusive;
        sound =
            IsSound-update s key (moved target) out.1 (fun_ext seen) (verdict-moved target) h.sound;
      };
    }

  step-Refines :
      (e : Event) (s : State json r)
      → Inv s
      → Refines (step json r e s) (spec_step json e (view json r s.store))
  unfolding mark_mitigated mark_non_mitigated mark_expired
  step-Refines (request q) s h = requested-Refines q s h
  step-Refines (mitigate q) s h =
      marked-Refines q s h mitigated (mark_mitigated json r q s.store)
        (mark-view json r _ q s.store h.exclusive)
        (λ k. view-mark_mitigated json r q s.store k h.exclusive)
        (mark_mitigated-Exclusive json r q s.store h.exclusive)
  step-Refines (not_mitigate q) s h =
      marked-Refines q s h crashing (mark_non_mitigated json r q s.store)
        (mark-view json r _ q s.store h.exclusive)
        (λ k. view-mark_non_mitigated json r q s.store k h.exclusive)
        (mark_non_mitigated-Exclusive json r q s.store h.exclusive)
  step-Refines (expire q) s h =
      marked-Refines q s h unrequested (mark_expired json r q s.store)
        (mark-view json r _ q s.store h.exclusive)
        (λ k. view-mark_expired json r q s.store k h.exclusive)
        (mark_expired-Exclusive json r q s.store h.exclusive)

  -- From a state in which no key stands in two of the three sets and every verdict in the cache is
  -- true, any sequence of requests and marks is answered as the specification says, which has no
  -- cache: so the cache never tells an outdated verdict, although it keeps None.
  pub replies-eq-spec :
      (es : List Event) (s : State json r)
      → Inv s
      → replies json r es s ≡ spec_replies json es (view json r s.store)
  replies-eq-spec [] s h = refl
  replies-eq-spec (e ∷ es) s h =
      let here = step-Refines e s h in
      ap (λ x. x ∷ replies json r es (step json r e s).1) here.reply
      ∙ ap (λ xs. (spec_step json e (view json r s.store)).0 ∷ xs)
          (replies-eq-spec es (step json r e s).1 here.inv ∙ ap (spec_replies json es) here.table)
