-- ===== src/PovReproducer/Verdict.antt =====
-- What a turn of the reproducer does to the progress of each test, of
-- orchestrator/src/buttercup/orchestrator/pov_reproducer/pov_reproducer.py.
use buttercup.Prelude.{
  ℕ, zero, suc, ◌≡◌, refl, ap, ◌∙◌, subst, String, Bool, true, false, Option, none, some, some_eq,
  List, [], ◌∷◌, any, get_elem?, str_eq, if◌then◌else◌, arith, eq_iff, Bool-cases, inl, inr,
}
use buttercup.Outcome.{Result, ok, raised}
use buttercup.Message.{Task, BuildOutput, patch, PovReproduceRequest}
use buttercup.Redis.{Redis, Json, Codec}
use buttercup.PovStatus.{
  pov_reproduce_pending, make_key, mark_mitigated, mark_non_mitigated, mark_expired,
}
use buttercup.PovStatus.Spec.{Progress, unrequested, pending, mitigated, crashing, moved}
use buttercup.PovStatus.View.{view, view-mark_mitigated, view-mark_non_mitigated, view-mark_expired}
use buttercup.PovStatus.Exclusive.{
  Exclusive, mark_mitigated-Exclusive, mark_non_mitigated-Exclusive, mark_expired-Exclusive,
}
use buttercup.PovStatus.Keys.{get_one_pending-make_key}
use buttercup.TaskRegistry.{id, should_stop_processing}
use buttercup.Maps.{get_build_from_san}
use buttercup.PovReproducer.{verdict_marked, reproduced, serve_entry, serve_item}

-- Where a test that was pending stands after the turn, by whether its task stops, what is found of the
-- patched build, and what its run tells.
abbrev pub progress_after :
    (stops : Bool) → Result (Option BuildOutput) → (BuildOutput → Result (Option Bool)) → Progress
progress_after true found run = unrequested
progress_after false (ok (some build)) run = elim (run build) [
  | ok (some true) ↦ crashing
  | ok (some false) ↦ mitigated
  | _ ↦ pending
]
progress_after false _ run = pending

any-get_elem? :
    (xs : List String) (i : ℕ) (k : String)
    → get_elem? xs i ≡ some k
    → any (λ x. str_eq x k) xs ≡ true
any-get_elem? [] i k e = cc
any-get_elem? (x ∷ xs) zero k e = ground (arith, some_eq e, eq_iff x k)
any-get_elem? (x ∷ xs) (suc i) k e = ground (arith, any-get_elem? xs i k e)

module _ (json : Json) (r : Redis) (task_codec : Codec r.Bytes Task)
    (build_codec : Codec r.Bytes BuildOutput) (lower : String → String)
    (reproduce_pov : BuildOutput → (harness_name pov_path : String) → Result (Option Bool)) where
  chosen_pending :
      (i : ℕ) (key : String) (s : r.Store)
      → Exclusive json r s
      → get_elem? (r.smembers pov_reproduce_pending s) i ≡ some key
      → view json r s key ≡ pending
  chosen_pending i key s h e = ground (
    arith,
    h.at key,
    any-get_elem? (r.smembers pov_reproduce_pending s) i key e,
    r.smembers-any pov_reproduce_pending key s,
  )

  -- The test of the request has moved on, and no other has.
  pub record Moved (q : PovReproduceRequest) (target : Progress) (s s' : r.Store) : Type 0 where
    pub exclusive : Exclusive json r s'
    pub at :
        (key : String)
        → view json r s' key ≡ (if str_eq (make_key json q) key then target else view json r s key)

  module _ (q : PovReproduceRequest) (s : r.Store) (h : Exclusive json r s)
      (p : view json r s (make_key json q) ≡ pending) where
    stays : Moved q pending s s
    stays = record {
      exclusive = h;
      at = λ key. elim (Bool-cases (str_eq (make_key json q) key)) [
        | inl e ↦
            rw e (subst (λ k. view json r s k ≡ pending) ((eq_iff (make_key json q) key).0 e) p)
        | inr e ↦ rw e refl
      ];
    }

    -- A move of the pending key to a target.
    moves :
        (target : Progress) (s' : r.Store)
        → Exclusive json r s'
        → ((key : String)
            → view json r s' key ≡ (
                if str_eq (make_key json q) key
                then moved target (view json r s key)
                else view json r s key))
        → Moved q target s s'
    moves target s' h' f = record {
      exclusive = h';
      at = λ key. elim (Bool-cases (str_eq (make_key json q) key)) [
        | inl e ↦
            f key
            ∙ rw e (
                subst (λ k. moved target (view json r s k) ≡ target)
                  ((eq_iff (make_key json q) key).0 e) (ap (moved target) p))
        | inr e ↦ f key ∙ rw e refl
      ];
    }

    abbrev run : BuildOutput → Result (Option Bool)
    run b = reproduce_pov b q.harness_name q.pov_path

    abbrev after_run : Result (Option Bool) → Progress
    after_run (ok (some true)) = crashing
    after_run (ok (some false)) = mitigated
    after_run _ = pending

    verdict_Moved :
        (result : Result (Option Bool))
        → Moved q
            (after_run result)
            s
            (verdict_marked json r task_codec build_codec lower reproduce_pov q result s).1
    verdict_Moved raised = stays
    verdict_Moved (ok none) = stays
    verdict_Moved (ok (some true)) =
        moves crashing (mark_non_mitigated json r q s).1 (mark_non_mitigated-Exclusive json r q s h)
          (λ key. view-mark_non_mitigated json r q s key h)
    verdict_Moved (ok (some false)) =
        moves mitigated (mark_mitigated json r q s).1 (mark_mitigated-Exclusive json r q s h)
          (λ key. view-mark_mitigated json r q s key h)

    reproduced-Moved :
        (found : Result (Option BuildOutput))
        → Moved q
            (progress_after false found run)
            s
            (reproduced json r task_codec build_codec lower reproduce_pov q found s).1
    reproduced-Moved raised = stays
    reproduced-Moved (ok none) = stays
    reproduced-Moved (ok (some b)) = by_run (run b) (verdict_Moved (run b))
      where
        by_run :
            (result : Result (Option Bool))
            → Moved q
                (after_run result)
                s
                (verdict_marked json r task_codec build_codec lower reproduce_pov q result s).1
            → Moved q
                (elim result [
                  | ok (some true) ↦ crashing
                  | ok (some false) ↦ mitigated
                  | _ ↦ pending
                ])
                s
                (verdict_marked json r task_codec build_codec lower reproduce_pov q result s).1
        by_run raised m = m
        by_run (ok none) m = m
        by_run (ok (some true)) m = m
        by_run (ok (some false)) m = m

  -- Let no key stand in two of the sets, and let the random choice take the key of a request. Then the turn
  -- moves the test of exactly that request: it is given up if its task is to stop, ends crashing or mitigated
  -- by what its run on the patched build tells, and stays pending if there is no such build, or if the run
  -- raises or did not happen. No other test moves, and no key stands in two of the sets.
  pub serve_item-Moved :
      (now i : ℕ) (q : PovReproduceRequest) (s : r.Store)
      → Exclusive json r s
      → get_elem? (r.smembers pov_reproduce_pending s) i ≡ some (make_key json q)
      → Moved q
          (progress_after
            (should_stop_processing r task_codec lower now (id q.task_id) none s)
            (get_build_from_san json r build_codec q.task_id patch q.sanitizer q.internal_patch_id
              s)
            (λ b. reproduce_pov b q.harness_name q.pov_path))
          s
          (serve_item json r task_codec build_codec lower reproduce_pov now i s).1
  unfolding serve_item
  serve_item-Moved now i q s h e =
      let p = chosen_pending i (make_key json q) s h e in
      let entry = get_one_pending-make_key json r i q s e in
      elim (Bool-cases (should_stop_processing r task_codec lower now (id q.task_id) none s)) [
        | inl t ↦
            rw (entry, serve_entry, t)
              (moves q s h p unrequested (mark_expired json r q s).1
                (mark_expired-Exclusive json r q s h) (λ key. view-mark_expired json r q s key h))
        | inr t ↦
            rw (entry, serve_entry, t)
              (reproduced-Moved q s h p (
                get_build_from_san json r build_codec q.task_id patch q.sanitizer
                  q.internal_patch_id s))
      ]
