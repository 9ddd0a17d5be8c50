-- ===== src/Submissions/Patch/Mitigated.antt =====
-- What the tests of a patch against the POVs of an entry tell, of `_check_all_povs_are_mitigated` in
-- orchestrator/src/buttercup/orchestrator/scheduler/submissions.py.
use buttercup.Prelude.{
  ◌≡◌, refl, Bool, true, false, Option, none, some, List, [], ◌∷◌, any, arith, ◌↔◌, inl, inr, subst,
  Bool-cases, if◌then◌else◌,
}
use buttercup.Prelude.All.{All}
use buttercup.Message.{PovReproduceResponse, SubmissionEntry, SubmissionEntryPatch}
use buttercup.Submissions.Env.{Env}
use buttercup.Submissions.Entry.{task_id}
use buttercup.Submissions.Patch.{
  is_failing_status, is_pending_status, all_mitigated, pov_reproduce_patch_status,
  check_all_povs_are_mitigated,
}
use buttercup.Submissions.Patch.Tested.{
  Mitigates, Crashes, IsOpen, Any, answers, povs_to_run, pov_reproduce_patch_status-answers,
}

-- What is told of the answers to the tests.
pub record Says (ss : List (Option PovReproduceResponse)) (told : Option Bool) : Type 0 where
  pub good : (told ≡ some true) ↔ All Mitigates ss
  pub bad : (told ≡ some false) ↔ Any Crashes ss
  pub unknown : (told ≡ none) ↔ ((Any Crashes ss → ⊥) × Any IsOpen ss)

crashing :
    (ss : List (Option PovReproduceResponse)) → any is_failing_status ss ≡ true → Any Crashes ss
crashing [] h = cc
crashing (none ∷ ss) h = inr (crashing ss h)
crashing (some r ∷ ss) h = elim (Bool-cases r.did_crash) [
  | inl e ↦ inl e
  | inr e ↦ inr (crashing ss (rw e at h))
]

not_crashing :
    (ss : List (Option PovReproduceResponse))
    → any is_failing_status ss ≡ false
    → Any Crashes ss
    → ⊥
not_crashing [] h a = a
not_crashing (none ∷ ss) h (inl a) = a
not_crashing (none ∷ ss) h (inr a) = not_crashing ss h a
not_crashing (some r ∷ ss) h (inl a) = ground arith
not_crashing (some r ∷ ss) h (inr a) = not_crashing ss (ground arith) a

pending :
    (ss : List (Option PovReproduceResponse)) → any is_pending_status ss ≡ true → Any IsOpen ss
pending [] h = cc
pending (none ∷ ss) h = inl tt
pending (some r ∷ ss) h = inr (pending ss h)

not_pending :
    (ss : List (Option PovReproduceResponse)) → any is_pending_status ss ≡ false → Any IsOpen ss → ⊥
not_pending [] h a = a
not_pending (none ∷ ss) h a = cc
not_pending (some r ∷ ss) h (inl a) = a
not_pending (some r ∷ ss) h (inr a) = not_pending ss h a

mitigating :
    (ss : List (Option PovReproduceResponse))
    → any is_failing_status ss ≡ false
    → any is_pending_status ss ≡ false
    → All Mitigates ss
mitigating [] f p = tt
mitigating (none ∷ ss) f p = cc
mitigating (some r ∷ ss) f p = (ground arith, mitigating ss (ground arith) p)

-- Where every test was passed, none crashed and none is pending.
passed_crash : (ss : List (Option PovReproduceResponse)) → All Mitigates ss → Any Crashes ss → ⊥
passed_crash [] h a = a
passed_crash (none ∷ ss) h a = h.0
passed_crash (some r ∷ ss) h (inl a) = cc
passed_crash (some r ∷ ss) h (inr a) = passed_crash ss h.1 a

passed_open : (ss : List (Option PovReproduceResponse)) → All Mitigates ss → Any IsOpen ss → ⊥
passed_open [] h a = a
passed_open (none ∷ ss) h a = h.0
passed_open (some r ∷ ss) h (inl a) = a
passed_open (some r ∷ ss) h (inr a) = passed_open ss h.1 a

says :
    (ss : List (Option PovReproduceResponse)) (f p : Bool)
    → any is_failing_status ss ≡ f
    → any is_pending_status ss ≡ p
    → Says ss (if f then some false else if p then none else some true)
says ss true p hf hp = record {
  good = (λ e. cc, λ h. absurd (passed_crash ss h (crashing ss hf)));
  bad = (λ e. crashing ss hf, λ a. refl);
  unknown = (λ e. cc, λ h. absurd (h.0 (crashing ss hf)));
}
says ss false true hf hp = record {
  good = (λ e. cc, λ h. absurd (passed_open ss h (pending ss hp)));
  bad = (λ e. cc, λ a. absurd (not_crashing ss hf a));
  unknown = (λ e. (not_crashing ss hf, pending ss hp), λ h. refl);
}
says ss false false hf hp = record {
  good = (λ e. mitigating ss hf hp, λ h. refl);
  bad = (λ e. cc, λ a. absurd (not_crashing ss hf a));
  unknown = (λ e. cc, λ h. absurd (not_pending ss hp h.1));
}

module _ (env : Env) where
  pub check_all_povs_are_mitigated_iff :
      (e : SubmissionEntry) (patch : SubmissionEntryPatch) (l : env.Local)
      → Says
          (answers env (task_id e) patch (povs_to_run e.crashes) l)
          (check_all_povs_are_mitigated env e patch l).0
  unfolding check_all_povs_are_mitigated all_mitigated
  check_all_povs_are_mitigated_iff e patch l =
      let statuses = (pov_reproduce_patch_status env patch e.crashes (task_id e) l).0 in
      subst (λ ss. Says ss (all_mitigated statuses))
        (pov_reproduce_patch_status-answers env patch e.crashes (task_id e) l)
        (says statuses (any is_failing_status statuses) (any is_pending_status statuses) refl refl)
