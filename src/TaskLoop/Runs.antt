-- ===== src/TaskLoop/Runs.antt =====
-- What a turn of the loop of common/src/buttercup/common/default_task_loop.py runs.
use buttercup.Prelude.{
  ℕ, zero, suc, ◌<◌, length, get_elem?, some_eq, ◌≡◌, refl, sym, ap, ◌∙◌, String, Bool, true, false,
  some, inl, inr, List, [], ◌∷◌, map, filter, Bool-cases, List-cases, arith,
}
use buttercup.Prelude.All.{All}
use buttercup.Outcome.{Result, ok, Action, pure, ◌>>=◌}
use buttercup.Message.{BuildType, BuildOutput, WeightedHarness}
use buttercup.Redis.{Redis, Json, Codec}
use buttercup.Maps.{list_harnesses, get_builds}
use buttercup.Maps.Builds.{get_builds-ok}
use buttercup.Scheduler.Weights.{is_positive}
use buttercup.TaskLoop.{
  Random, Builds, has_all_builds, put_builds, builds_for, serve_builds, weighted_items,
  serve_chosen, serve_choice, serve_item,
}

module _ {A : Type 0} (p : A → Bool) where
  cons_here :
      (x : A) (xs : List A)
      → (j : ℕ) × (get_elem? xs j ≡ some x) × (p x ≡ true)
      → {y : A} → (j : ℕ) × (get_elem? (y ∷ xs) j ≡ some x) × (p x ≡ true)
  cons_here x xs (j, e, h) = (suc j, e, h)

  dropped : (y : A) (xs : List A) → p y ≡ false → filter p (y ∷ xs) ≡ filter p xs
  dropped y xs t = ground (arith, t)

  kept : (y : A) (xs : List A) → p y ≡ true → filter p (y ∷ xs) ≡ y ∷ filter p xs
  kept y xs t = ground (arith, t)

  first :
      (x y : A) (ys xs : List A) (i : ℕ)
      → ((k : ℕ) → get_elem? ys k ≡ some x → (j : ℕ) × (get_elem? xs j ≡ some x) × (p x ≡ true))
      → get_elem? (y ∷ ys) i ≡ some x
      → p y ≡ true
      → (j : ℕ) × (get_elem? (y ∷ xs) j ≡ some x) × (p x ≡ true)
  first x y ys xs zero f e t = (0, e, ap p (sym (some_eq e)) ∙ t)
  first x y ys xs (suc i) f e t = cons_here x xs (f i e)

  -- What stands in a filtered list stands in the list, and passes the test.
  filtered :
      (xs : List A) (i : ℕ) (x : A)
      → get_elem? (filter p xs) i ≡ some x
      → (j : ℕ) × (get_elem? xs j ≡ some x) × (p x ≡ true)
  filtered [] i x e = cc
  filtered (y ∷ xs) i x e = elim (Bool-cases (p y)) [
    | inr t ↦ cons_here x xs (filtered xs i x (ap (λ l. get_elem? l i) (sym (dropped y xs t)) ∙ e))
    | inl t ↦
        first x y (filter p xs) xs i (λ k h. filtered xs k x h)
          (ap (λ l. get_elem? l i) (sym (kept y xs t)) ∙ e) t
  ]

  -- An index below the length is that of an item.
  item_at : (xs : List A) (i : ℕ) → i < length xs → (x : A) × (get_elem? xs i ≡ some x)
  item_at [] i h = absurd (omega (arith, h))
  item_at (x ∷ xs) zero h = (x, refl)
  item_at (x ∷ xs) (suc i) h = item_at xs i (omega (arith, h))

module _ (json : Json) (r : Redis) (harness_codec : Codec r.Bytes WeightedHarness)
    (build_codec : Codec r.Bytes BuildOutput) (random : Random) (required_builds : List BuildType)
    (run_task : WeightedHarness → Builds → Action r.Store Unit) where
  abbrev turn : Action r.Store Bool
  turn s = serve_item json r harness_codec build_codec random required_builds run_task s

  abbrev pub found : String → BuildType → r.Store → Result (List BuildOutput)
  found task_id k s = get_builds json r build_codec task_id k "" s

  -- The builds of each of the types, as the map of builds has them.
  pub record Gathered (task_id : String) (ks : List BuildType) (s : r.Store) (builds : Builds)
      : Type 0 where
    pub types : map (λ (p : BuildType × List BuildOutput). p.0) builds ≡ ks
    pub builds_found : All (λ p. found task_id p.0 s ≡ ok p.1) builds

  builds_for-Gathered :
      (task_id : String) (ks : List BuildType) (s : r.Store)
      → (builds : Builds) × (builds_for json r harness_codec build_codec random required_builds
            run_task task_id ks s
          ≡ ok builds)
        × Gathered task_id ks s builds
  unfolding builds_for
  builds_for-Gathered task_id [] s = ([], refl, record { types = refl; builds_found = tt })
  builds_for-Gathered task_id (k ∷ ks) s =
      let (bs, e) = get_builds-ok json r build_codec task_id k "" s (ground arith) in
      let (rest, e', g) = builds_for-Gathered task_id ks s in
      (
        (k, bs) ∷ rest,
        rw (e, put_builds, e') refl,
        record { types = ap (λ l. k ∷ l) g.types; builds_found = (e, g.builds_found) },
      )

  -- A turn that runs the task of a harness that is listed and has a positive weight, with all the builds that
  -- are required; or one that stays idle, since no harness has a positive weight, or since one of the builds
  -- of the harness that was chosen is missing.
  pub data Turn (s : r.Store) : Type 0 where
    runs :
        (h : WeightedHarness) (builds : Builds) (j : ℕ)
        → get_elem? (list_harnesses json r harness_codec s) j ≡ some h
        → is_positive h.weight ≡ true
        → Gathered h.task_id required_builds s builds
        → has_all_builds builds ≡ true
        → turn s ≡ (run_task h builds >>= λ _. pure true) s
        → Turn s
    idle :
        weighted_items json r harness_codec build_codec random required_builds run_task s ≡ []
        → turn s ≡ (ok false, s)
        → Turn s
    waits :
        (h : WeightedHarness) (builds : Builds) (j : ℕ)
        → get_elem? (list_harnesses json r harness_codec s) j ≡ some h
        → is_positive h.weight ≡ true
        → Gathered h.task_id required_builds s builds
        → has_all_builds builds ≡ false
        → turn s ≡ (ok false, s)
        → Turn s

  chosen_Turn :
      (s : r.Store) (h : WeightedHarness) (j : ℕ)
      → get_elem? (list_harnesses json r harness_codec s) j ≡ some h
      → is_positive h.weight ≡ true
      → turn s
        ≡ serve_chosen json r harness_codec build_codec random required_builds run_task (some h) s
      → Turn s
  chosen_Turn s h j at positive e =
      let (builds, e', g) = builds_for-Gathered h.task_id required_builds s in
      elim (Bool-cases (has_all_builds builds)) [
        | inl t ↦ runs h builds j at positive g t (e ∙ rw (e', serve_builds, t) refl)
        | inr t ↦ waits h builds j at positive g t (e ∙ rw (e', serve_builds, t) refl)
      ]

  -- A turn of the loop does not fail before the task is run: it runs the task of a harness that is
  -- listed and has a positive weight, with all the builds that are required, as the map of builds has
  -- them; or it tells False with nothing changed, since no harness has a positive weight, or since one
  -- of the builds of the harness that was chosen is missing.
  pub serve_item_turn : (s : r.Store) → Turn s
  unfolding serve_item
  serve_item_turn s =
      let items =
        weighted_items json r harness_codec build_codec random required_builds run_task s in
      elim (List-cases items) [
        | inl e ↦ idle e (
            ap
              (λ l.
                serve_choice json r harness_codec build_codec random required_builds run_task l s)
              e)
        | inr (h, hs, e) ↦
            let (chc, at) =
              item_at (λ (o : WeightedHarness). is_positive o.weight) (h ∷ hs)
                (random.choice (h ∷ hs)) (random.choice-lt h hs) in
            let (j, listed, positive) =
              filtered (λ (o : WeightedHarness). is_positive o.weight)
                (list_harnesses json r harness_codec s) (random.choice (h ∷ hs)) chc
                (ap (λ l. get_elem? l (random.choice (h ∷ hs))) e ∙ at) in
            chosen_Turn s chc j listed positive (
              ap
                (λ l.
                  serve_choice json r harness_codec build_codec random required_builds run_task l s)
                e
              ∙ ap
                  (λ o.
                    serve_chosen json r harness_codec build_codec random required_builds run_task o
                      s)
                  at)
      ]
