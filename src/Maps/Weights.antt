-- ===== src/Maps/Weights.antt =====
-- The harnesses of the map of weights, of common/src/buttercup/common/maps.py.
use buttercup.Prelude.{
  ◌≡◌, String, Bool, true, some, List, [], ◌∷◌, any, arith, eq_iff, str_eq, if◌then◌else◌,
  Option-cases, inl, inr,
}
use buttercup.Prelude.All.{All}
use buttercup.Message.{WeightedHarness}
use buttercup.Redis.{Redis, Json, Codec, Field}
use buttercup.Maps.{harness_weights, get, values_of, list_harnesses, harness_key, push_harness}
use buttercup.Maps.Builds.{dumps-injective}

module _ (json : Json) (r : Redis) (codec : Codec r.Bytes WeightedHarness) where
  -- Each harness stands under the key that is made of it.
  pub record WellKeyed (s : r.Store) : Type 0 where
    pub keyed :
        (key : String) (h : WeightedHarness)
        → get r codec harness_weights key s ≡ some h
        → key ≡ harness_key json r codec h

  pub get-push_harness :
      (h : WeightedHarness) (key : String) (s : r.Store)
      → get r codec harness_weights key (push_harness json r codec h s) ≡ (
          if str_eq (harness_key json r codec h) key
          then some h
          else get r codec harness_weights key s)
  unfolding get push_harness
  get-push_harness h key s = ground (
    arith,
    codec.parse-serialize h,
    r.hget-hset harness_weights (harness_key json r codec h) (codec.serialize h) harness_weights key
        s,
  )

  pub push_harness-WellKeyed :
      (h : WeightedHarness) (s : r.Store) → WellKeyed s → WellKeyed (push_harness json r codec h s)
  push_harness-WellKeyed h s w = record {
    keyed = λ key o e.
        ground
          (arith, get-push_harness h key s, eq_iff (harness_key json r codec h) key, w.keyed key o);
  }

  -- Two harnesses with the same key have the same names.
  pub harness_key-injective :
      (h o : WeightedHarness)
      → harness_key json r codec h ≡ harness_key json r codec o
      → (h.package_name ≡ o.package_name)
        × (h.harness_name ≡ o.harness_name)
        × (h.task_id ≡ o.task_id)
  unfolding harness_key
  harness_key-injective h o e =
      let fields = λ (x : WeightedHarness).
        Field.text x.package_name ∷ Field.text x.harness_name ∷ Field.text x.task_id ∷ [] in
      let same = dumps-injective json (fields h) (fields o) e in
      (ground (arith, same), ground (arith, same), ground (arith, same))

  values_of-All {ℓ} :
      (P : WeightedHarness → Type ℓ) (keys : List String) (s : r.Store)
      → ((key : String) (h : WeightedHarness) → get r codec harness_weights key s ≡ some h → P h)
      → All P (values_of r codec harness_weights keys s)
  values_of-All P [] s f = tt
  values_of-All P (key ∷ keys) s f = elim (Option-cases (get r codec harness_weights key s)) [
    | inl e ↦ rw (e, values_of) (values_of-All P keys s f)
    | inr (h, e) ↦ rw (e, values_of) (f key h e, values_of-All P keys s f)
  ]

  -- What holds of each stored harness holds of those that are listed.
  pub list_harnesses-All {ℓ} :
      (P : WeightedHarness → Type ℓ) (s : r.Store)
      → ((key : String) (h : WeightedHarness) → get r codec harness_weights key s ≡ some h → P h)
      → All P (list_harnesses json r codec s)
  unfolding list_harnesses
  list_harnesses-All P s f = values_of-All P (r.hkeys harness_weights s) s f

  values_of-any :
      (p : WeightedHarness → Bool) (keys : List String) (key : String) (h : WeightedHarness)
      (s : r.Store)
      → get r codec harness_weights key s ≡ some h
      → p h ≡ true
      → any (λ k. str_eq k key) keys ≡ true
      → any p (values_of r codec harness_weights keys s) ≡ true
  values_of-any p [] key h s e t a = cc
  values_of-any p (k ∷ keys) key h s e t a = elim (Option-cases (get r codec harness_weights k s)) [
    | inl e' ↦ rw (e', values_of) (values_of-any p keys key h s e t (ground (arith, eq_iff k key)))
    | inr (o, e') ↦
        rw (e', values_of) (ground (arith, eq_iff k key, values_of-any p keys key h s e t))
  ]

  -- Each stored harness is listed.
  pub list_harnesses-any :
      (p : WeightedHarness → Bool) (key : String) (h : WeightedHarness) (s : r.Store)
      → get r codec harness_weights key s ≡ some h
      → p h ≡ true
      → any p (list_harnesses json r codec s) ≡ true
  unfolding list_harnesses get
  list_harnesses-any p key h s e t =
      values_of-any p (r.hkeys harness_weights s) key h s e t
        (ground (arith, r.hkeys-any harness_weights key s))
