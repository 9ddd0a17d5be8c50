-- ===== src/PovStatus/Cache.antt =====
-- What the cache of `_did_crash` tells stays true: it may have lost an answer, and it may have kept a
-- None that is out of date, but a verdict in it is the verdict of now.
use buttercup.Prelude.{
  ℕ, zero, suc, ◌≡◌, String, Bool, not, Option, none, some, [], ◌∷◌, take, filter, arith, eq_iff,
  str_eq, if◌then◌else◌, Option-cases, inl, inr,
}
use buttercup.Redis.{Redis, Json}
use buttercup.PovStatus.{Cached, cached, maxsize, State, query_did_crash, did_crash}
use buttercup.PovStatus.Spec.{Progress, verdict}
use buttercup.PovStatus.View.{view, query_did_crash-view}

cached-take :
    (n : ℕ) (key : String) (c : Cached) (v : Option Bool)
    → cached key (take n c) ≡ some v
    → cached key c ≡ some v
cached-take zero key c v h = cc
cached-take (suc n) key [] v h = cc
cached-take (suc n) key ((k, w) ∷ c) v h = ground (arith, cached-take n key c v)

-- Dropping a key leaves the others.
cached-filter :
    (key k : String) (c : Cached)
    → cached k (filter (λ p. not (str_eq p.0 key)) c) ≡ (if str_eq key k then none else cached k c)
cached-filter key k [] = ground arith
cached-filter key k ((j, w) ∷ c) =
    ground (arith, cached-filter key k c, eq_iff j key, eq_iff key k, eq_iff j k)

-- A verdict that the cache has is the verdict of the table.
pub record IsSound (c : Cached) (t : String → Progress) : Type 0 where
  pub sound : (key : String) (b : Bool) → cached key c ≡ some (some b) → verdict (t key) ≡ some b

-- A change that keeps the verdicts.
pub IsSound-mono :
    (c : Cached) (t t' : String → Progress)
    → ((key : String) (b : Bool) → verdict (t key) ≡ some b → verdict (t' key) ≡ some b)
    → IsSound c t
    → IsSound c t'
IsSound-mono c t t' keep h = record { sound = λ key b e. keep key b (h.sound key b e) }

module _ (json : Json) (r : Redis) where
  pub did_crash-IsSound :
      (key : String) (s : State json r)
      → IsSound s.cache (view json r s.store)
      → IsSound (did_crash json r key s).1.cache (view json r s.store)
  unfolding did_crash
  did_crash-IsSound key s h = elim (Option-cases (cached key s.cache)) [
    | inl miss ↦
        rw (miss, did_crash)
          (record {
            sound = λ k b e.
                let kept =
                  cached-take maxsize k ((key, query_did_crash json r key s.store) ∷ s.cache)
                    (some b) e in
                ground
                  (arith, kept, h.sound k b, eq_iff key k, query_did_crash-view json r key s.store);
          })
    | inr (v, hit) ↦
        rw (hit, did_crash)
          (record {
            sound = λ k b e.
                ground
                  (arith, h.sound k b, h.sound key b, cached-filter key k s.cache, eq_iff key k);
          })
  ]

  -- A verdict that it tells is the verdict of now, and the sets stay.
  pub did_crash-verdict :
      (key : String) (s : State json r) (b : Bool)
      → IsSound s.cache (view json r s.store)
      → (did_crash json r key s).0 ≡ some b
      → verdict (view json r s.store key) ≡ some b
  unfolding did_crash
  did_crash-verdict key s b h e =
      ground (arith, h.sound key b, query_did_crash-view json r key s.store)

  pub store-did_crash :
      (key : String) (s : State json r) → (did_crash json r key s).1.store ≡ s.store
  unfolding did_crash
  store-did_crash key s = ground arith
