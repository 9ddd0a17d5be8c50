-- ===== src/Submissions/PatchFlow/Limit.antt =====
-- The bound on the outstanding patch requests of a task, of `_request_patch_if_needed` in
-- orchestrator/src/buttercup/orchestrator/scheduler/submissions.py.
use buttercup.Prelude.{
  ℕ, zero, suc, ◌≤◌, ◌≡◌, refl, Bool, true, false, some, List, [], ◌∷◌, ◌++◌, get_elem?, set,
  length, filter, str_eq, ◌&&◌, arith, leb, String, subst, sym,
}
use buttercup.Prelude.Branch.{if_ind, if_ind_eq}
use buttercup.Submissions.Cycle.Advance.{with_entry-eq}
use buttercup.Message.{SubmissionEntry}
use buttercup.Outcome.{Result, ok}
use buttercup.Submissions.Env.{Env}
use buttercup.Submissions.State.{
  Limits, State, enumerate_from, enumerate_submissions, enumerate_task_submissions, is_active,
}
use buttercup.Submissions.Entry.{task_id, current_patch}
use buttercup.Submissions.Patch.{
  is_outstanding, patch_tracker, task_outstanding_patch_requests,
  should_wait_for_patch_mitigation_merge,
}
use buttercup.Submissions.Pov.{is_some}
use buttercup.Submissions.PatchFlow.{request_patch, request_patch_for, request_patch_if_needed}

module _ (env : Env) where
  -- Whether the entry counts: active, of the task, and waiting for its current patch.
  abbrev pub counts : String → env.Local → SubmissionEntry → Bool
  counts task l e = is_active env l e && (str_eq (task_id e) task && is_outstanding env e)

  abbrev pub count : String → env.Local → List SubmissionEntry → ℕ
  count task l es = length (filter (counts task l) es)

  count_from :
      (task : String) (l : env.Local) (i : ℕ) (es : List SubmissionEntry)
      → length (
          filter
            (λ (p : ℕ × SubmissionEntry). is_outstanding env p.1)
            (filter
              (λ (p : ℕ × SubmissionEntry). str_eq (task_id p.1) task)
              (filter (λ (p : ℕ × SubmissionEntry). is_active env l p.1) (enumerate_from i es))))
        ≡ count task l es
  count_from task l i [] = refl
  count_from task l i (e ∷ es) = ground (arith, count_from task l (suc i) es)

  task_outstanding-count :
      (task : String) (s : State env)
      → task_outstanding_patch_requests env task s ≡ count task s.local s.entries
  unfolding task_outstanding_patch_requests enumerate_task_submissions enumerate_submissions
  task_outstanding-count task s = count_from task s.local 0 s.entries

  -- A write of one entry adds one at most.
  count-set :
      (task : String) (l : env.Local) (es : List SubmissionEntry) (i : ℕ) (e : SubmissionEntry)
      → count task l (set es i e) ≤ suc (count task l es)
  count-set task l [] i e = omega arith
  count-set task l (x ∷ es) zero e = ground arith
  count-set task l (x ∷ es) (suc i) e = ground (arith, count-set task l es i e)

  -- A request that is made leaves the bound.
  request_patch-le_limit :
      (limits : Limits) (i : ℕ) (e : SubmissionEntry) (s : State env)
      → leb limits.concurrent_patch_requests_per_task
          (task_outstanding_patch_requests env (task_id e) s)
        ≡ false
      → task_outstanding_patch_requests env
          (task_id e)
          (record s { entries = (request_patch env limits i e s).entries })
        ≤ limits.concurrent_patch_requests_per_task
  unfolding request_patch
  request_patch-le_limit limits i e s h =
      let s' : State env = record s { entries = (request_patch env limits i e s).entries } in
      ground (
        arith,
        task_outstanding-count (task_id e) s,
        task_outstanding-count (task_id e) s',
        count-set (task_id e) s.local s.entries i requested,
      )
    where
      requested : SubmissionEntry
      requested = record e { patches = e.patches ++ patch_tracker (env.uuid4 s.local).0 ∷ [] }

  -- For the rules of branching terms.
  record LeavesCount (limits : Limits) (e : SubmissionEntry) (s : State env)
      (out : Result Bool × State env) : Type 0 where
    le :
        task_outstanding_patch_requests env (task_id e) (record s { entries = out.1.entries })
        ≤ limits.concurrent_patch_requests_per_task

  request_patch_for-LeavesCount :
      (limits : Limits) (i : ℕ) (e : SubmissionEntry) (s : State env)
      → task_outstanding_patch_requests env
          (task_id e)
          (should_wait_for_patch_mitigation_merge env i e s).1
        ≤ limits.concurrent_patch_requests_per_task
      → LeavesCount limits e
          (should_wait_for_patch_mitigation_merge env i e s).1
          (request_patch_for env limits i e s)
  unfolding request_patch_for should_wait_for_patch_mitigation_merge
  request_patch_for-LeavesCount limits i e s h =
      let s' : State env = (should_wait_for_patch_mitigation_merge env i e s).1 in
      let P = LeavesCount limits e s' in
      if_ind P (is_some (current_patch e)) {x = (ok false, s)} (record { le = h })
        (if_ind P (should_wait_for_patch_mitigation_merge env i e s).0 {x = (ok false, s')}
          (record { le = h })
          (if_ind_eq P
            (leb limits.concurrent_patch_requests_per_task
              (task_outstanding_patch_requests env (task_id e) s'))
            {x = (ok false, s')} {y = (ok true, request_patch env limits i e s')}
            (λ _. record { le = h })
            λ free. record { le = request_patch-le_limit limits i e s' free }))

  -- If no more patch requests of the entry's task are open than the configuration allows, when the
  -- step has checked what the entry waits for, then so it is, by the same count, with the entries
  -- that the step leaves.
  pub request_patch_if_needed-le_limit :
      (limits : Limits) (i : ℕ) (e : SubmissionEntry) (s : State env)
      → get_elem? s.entries i ≡ some e
      → task_outstanding_patch_requests env
          (task_id e)
          (should_wait_for_patch_mitigation_merge env i e s).1
        ≤ limits.concurrent_patch_requests_per_task
      → task_outstanding_patch_requests env
          (task_id e)
          (record (should_wait_for_patch_mitigation_merge env i e s).1 {
            entries = (request_patch_if_needed env limits i s).1.entries;
          })
        ≤ limits.concurrent_patch_requests_per_task
  unfolding request_patch_if_needed
  request_patch_if_needed-le_limit limits i e s at h =
      (subst (LeavesCount limits e (should_wait_for_patch_mitigation_merge env i e s).1)
        (sym (with_entry-eq env i (request_patch_for env limits i) s e at))
        (request_patch_for-LeavesCount limits i e s h)).le
