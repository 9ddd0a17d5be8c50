-- ===== src/Scheduler/Weights/Retired.antt =====
-- After `update_expired_task_weights` no harness of a stopped task has a positive weight.
use buttercup.Prelude.{
  ℕ, ◌≡◌, ◌≢◌, refl, sym, ap, ◌∙◌, subst, String, Bool, true, false, ◌&&◌, ◌||◌, Option, some,
  some_eq, List, [], ◌∷◌, any, arith, eq_iff, str_eq, if◌then◌else◌, Bool-cases, inl, inr,
}
use buttercup.Prelude.All.{All}
use buttercup.Message.{Task, WeightedHarness}
use buttercup.Redis.{Redis, Json, Codec}
use buttercup.TaskRegistry
use buttercup.TaskRegistry.{TaskOrId, id, tasks_registry}
use buttercup.Maps.{harness_weights, get, list_harnesses, push_harness, harness_key}
use buttercup.Maps.Weights.{
  WellKeyed, get-push_harness, push_harness-WellKeyed, harness_key-injective, list_harnesses-All,
  list_harnesses-any,
}
use buttercup.Scheduler.Weights.{
  is_positive, zero_weight, should_stop_processing, is_due, update_weights,
  update_expired_task_weights,
}

module _ (json : Json) (r : Redis) (task_codec : Codec r.Bytes Task)
    (harness_codec : Codec r.Bytes WeightedHarness) (lower : String → String) (now : ℕ)
    (cached : List String) where
  abbrev key_of : WeightedHarness → String
  key_of h = harness_key json r harness_codec h

  abbrev stops : String → r.Store → Bool
  stops t s = should_stop_processing json r task_codec harness_codec lower now cached (id t) s

  abbrev due : WeightedHarness → r.Store → Bool
  due h s = is_due json r task_codec harness_codec lower now cached h s

  abbrev updated : List WeightedHarness → Bool → r.Store → Bool × r.Store
  updated hs b s = update_weights json r task_codec harness_codec lower now cached hs b s

  false_ne_true : false ≢ true
  false_ne_true h = cc

  key_of-zero_weight : (h : WeightedHarness) → key_of (zero_weight h) ≡ key_of h
  unfolding harness_key
  key_of-zero_weight h = refl

  -- The map of weights does not matter for whether a task stops.
  stops-push_harness :
      (h : WeightedHarness) (t : String) (s : r.Store)
      → stops t (push_harness json r harness_codec h s) ≡ stops t s
  unfolding should_stop_processing TaskRegistry.should_stop_processing TaskRegistry.is_expired
      TaskRegistry.get push_harness
  stops-push_harness h t s = ground (
    arith,
    r.hget-hset harness_weights (key_of h) (harness_codec.serialize h) tasks_registry (lower t) s,
  )

  zero_weight-same : (h o : WeightedHarness) → key_of h ≡ key_of o → zero_weight h ≡ zero_weight o
  zero_weight-same h o e =
      let (same_package, same_harness, same_task) =
        harness_key-injective json r harness_codec h o e in
      ground (arith, same_package, same_harness, same_task)

  due_at : WeightedHarness → r.Store → WeightedHarness → Bool
  due_at o s h = due h s && str_eq (key_of h) (key_of o)

  any-push_harness :
      (w o : WeightedHarness) (hs : List WeightedHarness) (s : r.Store)
      → any (due_at o (push_harness json r harness_codec w s)) hs ≡ any (due_at o s) hs
  unfolding due_at
  any-push_harness w o [] s = refl
  any-push_harness w o (h ∷ hs) s =
      ground (arith, stops-push_harness w h.task_id s, any-push_harness w o hs s)

  written :
      (o h : WeightedHarness) (hs : List WeightedHarness) (s : r.Store)
      → due h s ≡ true
      → let s1 = push_harness json r harness_codec (zero_weight h) s in
        ◌≡◌ {A = Option WeightedHarness}
          (if any (due_at o s1) hs
            then some (zero_weight o)
            else get r harness_codec harness_weights (key_of o) s1)
          (if any (due_at o s) (h ∷ hs)
            then some (zero_weight o)
            else get r harness_codec harness_weights (key_of o) s)
  unfolding due_at
  written o h hs s e = ground (
    arith,
    e,
    any-push_harness (zero_weight h) o hs s,
    get-push_harness json r harness_codec (zero_weight h) (key_of o) s,
    key_of-zero_weight h,
    eq_iff (key_of h) (key_of o),
    zero_weight-same h o,
  )

  passed :
      (o h : WeightedHarness) (hs : List WeightedHarness) (s : r.Store)
      → due h s ≡ false
      → ◌≡◌ {A = Option WeightedHarness}
          (if any (due_at o s) hs
            then some (zero_weight o)
            else get r harness_codec harness_weights (key_of o) s)
          (if any (due_at o s) (h ∷ hs)
            then some (zero_weight o)
            else get r harness_codec harness_weights (key_of o) s)
  unfolding due_at
  passed o h hs s e = ground (arith, e)

  -- What stands under the key of a harness after the loop.
  get-update_weights :
      (o : WeightedHarness) (hs : List WeightedHarness) (b : Bool) (s : r.Store)
      → get r harness_codec harness_weights (key_of o) (updated hs b s).1 ≡ (
          if any (due_at o s) hs
          then some (zero_weight o)
          else get r harness_codec harness_weights (key_of o) s)
  get-update_weights o [] b s = refl
  get-update_weights o (h ∷ hs) b s = elim (Bool-cases (due h s)) [
    | inl e ↦
        let s1 = push_harness json r harness_codec (zero_weight h) s in
        rw (e, update_weights) (get-update_weights o hs true s1 ∙ written o h hs s e)
    | inr e ↦ rw (e, update_weights) (get-update_weights o hs b s ∙ passed o h hs s e)
  ]

  -- The answer of the loop.
  told-update_weights :
      (hs : List WeightedHarness) (b : Bool) (s : r.Store)
      → (updated hs b s).0 ≡ (b || any (λ h. due h s) hs)
  told-update_weights [] b s = ground arith
  told-update_weights (h ∷ hs) b s = elim (Bool-cases (due h s)) [
    | inl e ↦
        rw (e, update_weights)
          (told-update_weights hs true (push_harness json r harness_codec (zero_weight h) s)
            ∙ ground arith)
    | inr e ↦ rw (e, update_weights) (told-update_weights hs b s ∙ ground (arith, e))
  ]

  stops-update_weights :
      (t : String) (hs : List WeightedHarness) (b : Bool) (s : r.Store)
      → stops t (updated hs b s).1 ≡ stops t s
  stops-update_weights t [] b s = refl
  stops-update_weights t (h ∷ hs) b s = elim (Bool-cases (due h s)) [
    | inl e ↦
        rw (e, update_weights)
          (stops-update_weights t hs true (push_harness json r harness_codec (zero_weight h) s)
            ∙ stops-push_harness (zero_weight h) t s)
    | inr e ↦ rw (e, update_weights) (stops-update_weights t hs b s)
  ]

  pub update_weights-WellKeyed :
      (hs : List WeightedHarness) (b : Bool) (s : r.Store)
      → WellKeyed json r harness_codec s
      → WellKeyed json r harness_codec (updated hs b s).1
  update_weights-WellKeyed [] b s w = w
  update_weights-WellKeyed (h ∷ hs) b s w = elim (Bool-cases (due h s)) [
    | inl e ↦
        rw (e, update_weights)
          (update_weights-WellKeyed hs true (push_harness json r harness_codec (zero_weight h) s)
            (push_harness-WellKeyed json r harness_codec (zero_weight h) s w))
    | inr e ↦ rw (e, update_weights) (update_weights-WellKeyed hs b s w)
  ]

  -- No stored harness has a positive weight while its task stops.
  pub record NoneDue (s : r.Store) : Type 0 where
    pub retired :
        (key : String) (h : WeightedHarness)
        → get r harness_codec harness_weights key s ≡ some h
        → due h s ≡ false

  -- The harness under its own key after the loop, from what stood there.
  due_after :
      (h : WeightedHarness) (s s' : r.Store) (b : Bool)
      → (get r harness_codec harness_weights (key_of h) s ≡ some h → due h s ≡ true → b ≡ true)
      → due h s' ≡ due h s
      → get r harness_codec harness_weights (key_of h) s'
        ≡ (if b then some (zero_weight h) else get r harness_codec harness_weights (key_of h) s)
      → get r harness_codec harness_weights (key_of h) s' ≡ some h
      → due h s' ≡ false
  due_after h s s' true seen same e here =
      let zero : zero_weight h ≡ h = some_eq (sym e ∙ here) in
      subst (λ o. due o s' ≡ false) zero refl
  due_after h s s' false seen same e here = elim (Bool-cases (due h s)) [
    | inl d ↦ absurd (false_ne_true (seen (sym e ∙ here) d))
    | inr d ↦ same ∙ d
  ]

  pub update_weights-NoneDue :
      (s : r.Store)
      → WellKeyed json r harness_codec s
      → NoneDue (update_expired_task_weights json r task_codec harness_codec lower now cached s).1
  unfolding update_expired_task_weights due_at
  update_weights-NoneDue s w =
      let hs = list_harnesses json r harness_codec s in
      let s' = (updated hs false s).1 in
      record {
        retired = λ key h e.
            let own = (update_weights-WellKeyed hs false s w).keyed key h e in
            due_after h s s' (any (due_at h s) hs)
              (λ here d.
                list_harnesses-any json r harness_codec (due_at h s) (key_of h) h s here
                  (ground (arith, d, eq_iff (key_of h) (key_of h))))
              (ap (λ b. is_positive h.weight && b) (stops-update_weights h.task_id hs false s))
              (get-update_weights h hs false s)
              (subst (λ k. get r harness_codec harness_weights k s' ≡ some h) own e);
      }

  -- Let each stored harness stand under its own key. Then `update_expired_task_weights` tells whether any
  -- listed harness has a positive weight while its task is to stop; afterwards no listed harness has, and
  -- each harness stands under its own key. The loop changes no other entry: under the key of a harness
  -- stands the harness with weight -1.0, if it was such a one, or what stood there before.
  pub update_expired_task_weights-NoneDue :
      (s : r.Store)
      → WellKeyed json r harness_codec s
      → let (told, s') =
          update_expired_task_weights json r task_codec harness_codec lower now cached s in
        (told ≡ any (λ h. due h s) (list_harnesses json r harness_codec s))
        × All (λ h. due h s' ≡ false) (list_harnesses json r harness_codec s')
        × WellKeyed json r harness_codec s'
        × ((o : WeightedHarness)
            → get r harness_codec harness_weights (key_of o) s' ≡ (
                if any
                  (λ h. due h s && str_eq (key_of h) (key_of o))
                  (list_harnesses json r harness_codec s)
                then some (zero_weight o)
                else get r harness_codec harness_weights (key_of o) s))
  unfolding update_expired_task_weights due_at
  update_expired_task_weights-NoneDue s w =
      let hs = list_harnesses json r harness_codec s in
      let none_due = update_weights-NoneDue s w in
      (
        told-update_weights hs false s,
        list_harnesses-All json r harness_codec (λ h. due h (updated hs false s).1 ≡ false)
            (updated hs false s).1 none_due.retired,
        update_weights-WellKeyed hs false s w,
        λ o. get-update_weights o hs false s,
      )
