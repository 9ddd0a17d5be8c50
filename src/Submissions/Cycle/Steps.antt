-- ===== src/Submissions/Cycle/Steps.antt =====
-- Every step of a cycle lets its entry advance.
use buttercup.Prelude.{
  ℕ, zero, suc, ◌≡◌, refl, ap, sym, ◌∙◌, Bool, true, false, none, some, List, [], ◌∷◌, ◌++◌,
  get_elem?, arith, String, set_same, if◌then◌else◌,
}
use buttercup.Prelude.Branch.{if_ind, option_ind, list_ind}
use buttercup.Prelude.All.{All}
use mathlib.Core.List.{map-append}
use buttercup.Message.{SubmissionResult, SubmissionEntry, SubmissionEntryPatch, CrashWithId}
use buttercup.Outcome.{Result, ok, raised, result_ind}
use buttercup.Submissions.Env.{Env, Sarif, Command, sadd_matched}
use buttercup.Submissions.State.{Limits, State, M, with_entry, on_entry, enumerate_from}
use buttercup.Submissions.Entry.{task_id, get_first_successful_pov_id}
use buttercup.Submissions.Pov.{text_or_empty}
use buttercup.Submissions.Patch.{
  pov_reproduce_patch_status, pov_reproduce_request, is_excluded, check_all_povs_are_mitigated,
  wait_from, should_wait_for_patch_mitigation_merge, patch_to_test, makes_wait, patch_tracker,
}
use buttercup.Submissions.PatchFlow.{
  times, request_patch, request_patch_if_needed, request_patch_for,
}
use buttercup.Submissions.Bundles.{
  confirm_matched_sarifs, ensure_sarif_is_bundled, ensure_bundle_contents,
}
use buttercup.Submissions.Evolves.{Evolves-refl}
use buttercup.Submissions.Evolves.Steps.{ensure_bundle_contents-Evolves}
use buttercup.Submissions.Cycle.Advance.{
  IsPush, Advances, IsStep, Advances-stay, with_entry-IsStep, on_entry-IsStep,
}

All-times : (n : ℕ) (c : Command) → IsPush c → All IsPush (times n c)
All-times zero c h = tt
All-times (suc n) c h = (h, All-times n c h)

module _ (env : Env) where
  open env use {Local, lrange, lrange-request_status, lrange-uuid4, request_status, uuid4}

  -- Asking for POVs to be run writes no entry.
  pub lrange-pov_reproduce_patch_status :
      (p : SubmissionEntryPatch) (cs : List CrashWithId) (task : String) (l : Local)
      → lrange (pov_reproduce_patch_status env p cs task l).1 ≡ lrange l
  unfolding pov_reproduce_patch_status
  lrange-pov_reproduce_patch_status p [] task l = refl
  lrange-pov_reproduce_patch_status p (c ∷ cs) task l =
      let asked = (request_status (pov_reproduce_request task p c) l).1 in
      lrange-pov_reproduce_patch_status p cs task (if is_excluded c.result then l else asked)
      ∙ ground (arith, lrange-request_status (pov_reproduce_request task p c) l)

  -- For the rules of branching terms: the list of entries is as in `l`.
  record LeavesList (l : Local) (out : Bool × Local) : Type 0 where
    same : lrange out.1 ≡ lrange l

  wait_from-LeavesList :
      (i : ℕ) (e : SubmissionEntry) (others : List (ℕ × SubmissionEntry)) (l : Local)
      → LeavesList l (wait_from env i e others l)
  unfolding wait_from
  wait_from-LeavesList i e [] l = record { same = refl }
  wait_from-LeavesList i e ((j, e2) ∷ others) l =
      let P = LeavesList l in
      option_ind P (patch_to_test env i e j e2 l) (wait_from-LeavesList i e others l) λ patch.
        let asked = lrange-pov_reproduce_patch_status patch e.crashes (task_id e) l in
        let statuses = (pov_reproduce_patch_status env patch e.crashes (task_id e) l).0 in
        if_ind P (makes_wait env statuses) (record { same = asked })
          (record {
            same =
                (wait_from-LeavesList i e others
                  (pov_reproduce_patch_status env patch e.crashes (task_id e) l).1).same
                ∙ asked;
          })

  pub lrange-should_wait :
      (i : ℕ) (e : SubmissionEntry) (s : State env)
      → lrange (should_wait_for_patch_mitigation_merge env i e s).1.local ≡ lrange s.local
  unfolding should_wait_for_patch_mitigation_merge
  lrange-should_wait i e s = (wait_from-LeavesList i e (enumerate_from 0 s.entries) s.local).same

  pub lrange-check_all :
      (e : SubmissionEntry) (p : SubmissionEntryPatch) (l : Local)
      → lrange (check_all_povs_are_mitigated env e p l).1 ≡ lrange l
  unfolding check_all_povs_are_mitigated
  lrange-check_all e p l = lrange-pov_reproduce_patch_status p e.crashes (task_id e) l

  module _ (i : ℕ) where
    -- What a step leaves, for the rules of branching terms.
    pub record Leaves (e : SubmissionEntry) (s : State env) (out : Result Bool × State env)
        : Type 0 where
      pub advances : Advances env i e s out.1

    -- The entry stays, and commands are pushed.
    Advances-push :
        (e : SubmissionEntry) (s s' : State env) (c : Command)
        → get_elem? s.entries i ≡ some e
        → IsPush c
        → s'.entries ≡ s.entries
        → s'.pipeline ≡ s.pipeline ++ c ∷ []
        → s'.local ≡ s.local
        → Advances env i e s s'
    Advances-push e s s' c at h es p l = record {
      after = e;
      entries = es ∙ sym (set_same s.entries i at);
      evolves = Evolves-refl e;
      stored = ap lrange l;
      added = c ∷ [];
      pipeline = p;
      pushes = (h, tt);
    }

    pub Leaves-IsStep :
        (f : SubmissionEntry → M env Bool)
        → ((s : State env) (e : SubmissionEntry)
            → get_elem? s.entries i ≡ some e
            → Leaves e s (f e s))
        → IsStep env i (with_entry env i f)
    Leaves-IsStep f h = with_entry-IsStep env i f (λ s e at. (h s e at).advances)

    pub leave :
        (e : SubmissionEntry) (s : State env) (out : Result Bool × State env)
        → Advances env i e s out.1
        → Leaves e s out
    leave e s out h = record { advances = h }

    -- The server or the local state outside the list of entries changed at most.
    pub stay :
        (s : State env) (e : SubmissionEntry)
        → get_elem? s.entries i ≡ some e
        → (b : Result Bool) (r : env.api.Remote) (l : Local) → lrange l ≡ lrange s.local
        → Leaves e s (b, record s { remote = r; local = l })
    stay s e at b r l h = record { advances = Advances-stay env i e s at l r h }

    pub confirm_matched_sarifs-IsStep : IsStep env i (confirm_matched_sarifs env i)
    unfolding confirm_matched_sarifs
    confirm_matched_sarifs-IsStep = Leaves-IsStep _ λ s e at.
        let P = Leaves e s in
        let same : (b : Result Bool) → P (b, s) = λ b. stay s e at b s.remote s.local refl in
        list_ind P e.bundles (same (ok false)) λ b bs.
          list_ind P bs
            (if_ind P _ (same (ok false)) (
              if_ind P _ (same (ok true)) (
                result_ind P _ (stay s e at raised _ s.local refl)
                  λ (answer : Bool × SubmissionResult).
                    if_ind (λ s'. P (ok true, s')) answer.0
                      (record {
                        advances =
                            Advances-push e s _ (sadd_matched b.competition_sarif_id) at tt refl
                              refl refl;
                      })
                      (stay s e at (ok true) _ s.local refl))))
            (λ _ _. same (ok false))

    -- The step on the bundle for a SARIF.
    abbrev bundle_sarif : SubmissionEntry → Sarif → M env Bool
    bundle_sarif e sarif =
        on_entry env
          (ensure_bundle_contents env.api (text_or_empty (get_first_successful_pov_id e)) none
            (some sarif.sarif_id))
          i

    bundle_sarif-IsStep :
        (e : SubmissionEntry) (sarif : Sarif) → IsStep env i (bundle_sarif e sarif)
    bundle_sarif-IsStep e sarif = on_entry-IsStep env i _ (
        ensure_bundle_contents-Evolves env.api (text_or_empty (get_first_successful_pov_id e)) none
          (some sarif.sarif_id))

    pub ensure_sarif_is_bundled-IsStep : IsStep env i (ensure_sarif_is_bundled env i)
    unfolding ensure_sarif_is_bundled
    ensure_sarif_is_bundled-IsStep = Leaves-IsStep _ λ s e at.
        let P = Leaves e s in
        let same : P (ok false, s) = stay s e at (ok false) s.remote s.local refl in
        if_ind P _ same (
          option_ind P _ same λ (sarif : Sarif).
            leave e s (bundle_sarif e sarif s) ((bundle_sarif-IsStep e sarif).advances s e at))

    -- What `should_wait_for_patch_mitigation_merge` leaves.
    pub waited :
        (s0 s : State env) (e : SubmissionEntry)
        → Advances env i e s0 s
        → (b : Result Bool) → Leaves e s0 (b, (should_wait_for_patch_mitigation_merge env i e s).1)
    unfolding should_wait_for_patch_mitigation_merge
    waited s0 s e h b = leave e s0 _ (record {
      after = h.after;
      entries = h.entries;
      evolves = h.evolves;
      stored = lrange-should_wait i e s ∙ h.stored;
      added = h.added;
      pipeline = h.pipeline;
      pushes = h.pushes;
    })

    request_patch-Leaves :
        (limits : Limits) (s : State env) (e : SubmissionEntry)
        → get_elem? s.entries i ≡ some e
        → Leaves e s (
          ok true,
          request_patch env limits i e (should_wait_for_patch_mitigation_merge env i e s).1,
        )
    unfolding request_patch should_wait_for_patch_mitigation_merge
    request_patch-Leaves limits s e at = leave e s _ (record {
      after = record e {
        patches =
            e.patches
            ++ patch_tracker (uuid4 (should_wait_for_patch_mitigation_merge env i e s).1.local).0
              ∷ [];
      };
      entries = refl;
      evolves = record {
        stop = refl;
        crashes = refl;
        patch_idx = omega arith;
        added = (uuid4 (should_wait_for_patch_mitigation_merge env i e s).1.local).0 ∷ [];
        patches = map-append _ e.patches _;
      };
      stored = lrange-uuid4 _ ∙ lrange-should_wait i e s;
      added = times limits.patch_requests_per_vulnerability _;
      pipeline = refl;
      pushes = All-times limits.patch_requests_per_vulnerability _ tt;
    })

    pub request_patch_if_needed-IsStep :
        (limits : Limits) → IsStep env i (request_patch_if_needed env limits i)
    unfolding request_patch_if_needed request_patch_for
    request_patch_if_needed-IsStep limits = Leaves-IsStep _ λ s e at.
        let P = Leaves e s in
        let start : Advances env i e s s = Advances-stay env i e s at s.local s.remote refl in
        if_ind P _ (stay s e at (ok false) s.remote s.local refl) (
          if_ind P _ (waited s s e start (ok false))
            (if_ind P _ (waited s s e start (ok false)) (request_patch-Leaves limits s e at)))
