-- ===== src/Submissions/Records/Sync.antt =====
-- The list `submissions` in Redis holds the entries in memory, after every call of an entry point.
use buttercup.Prelude.{
  ℕ, ◌-◌, ◌<◌, ◌≡◌, refl, ap, sym, ◌∙◌, subst, not, ◌||◌, Option, some, List, [], ◌∷◌, ◌++◌, length,
  set, truthy, str_eq, arith, inl, inr, Bool-cases, Option-cases, List-cases, length-set,
  get_elem?-lt, any,
}
use buttercup.Prelude.All.{All, All-filter, All-mono}
use buttercup.Message.{BuildOutput, TracedCrash, Patch, SubmissionEntry}
use buttercup.Submissions.Env.{Env}
use buttercup.Submissions.State.{State, enumerate_submissions, enumerate_task_submissions, persist}
use buttercup.Submissions.State.Enumerate.{IsAt, enumerate_submissions-IsAt}
use buttercup.Submissions.Entry.{crash_task_id, task_id, find_matching_build_output}
use buttercup.Submissions.Records.{
  find_patch, find_similar_entries, merge_sources, merge_into, new_entry, stopped, add_crash,
  consolidate_similar_submissions, submit_vulnerability, record_patch, record_patched_build,
}
use buttercup.Submissions.Records.Find.{find_patch-IsFound}

module _ (env : Env) where
  open env use {
    Local, lrange, lrange-lset, lrange-rpush, rpush-length, lrange-uuid4, rpush, uuid4, is_similar,
    should_stop_processing,
  }

  -- What Redis holds is what the object holds.
  abbrev pub InSync : State env → Type 0
  InSync s = lrange s.local ≡ s.entries

  persist_sync :
      (i : ℕ) (e : SubmissionEntry) (entries : List SubmissionEntry) (l : Local)
      → i < length entries
      → lrange l ≡ entries
      → lrange (persist env i e l) ≡ set entries i e
  persist_sync i e entries l h q =
      lrange-lset i e l (subst (λ xs. i < length xs) (sym q) h) ∙ ap (λ xs. set xs i e) q

  IsAt-lt :
      (entries : List SubmissionEntry) (p : ℕ × SubmissionEntry)
      → IsAt entries p
      → p.0 < length entries
  IsAt-lt entries p h = get_elem?-lt entries p.0 h

  -- Every index of the list is one of the entries.
  abbrev pub InRange : ℕ → List (ℕ × SubmissionEntry) → Type 0
  InRange n = All (λ p. p.0 < n)

  find_similar_entries-IsAt :
      (crash : TracedCrash) (s : State env)
      → All (IsAt s.entries) (find_similar_entries env crash s)
  unfolding find_similar_entries enumerate_task_submissions
  find_similar_entries-IsAt crash s =
      All-filter (IsAt s.entries) (λ p. any (λ c. is_similar crash c.crash) p.1.crashes)
        (enumerate_task_submissions env (crash_task_id crash) s)
        (All-filter (IsAt s.entries) (λ p. str_eq (task_id p.1) (crash_task_id crash))
          (enumerate_submissions env s) (enumerate_submissions-IsAt env s))

  pub find_similar_entries-InRange :
      (crash : TracedCrash) (s : State env)
      → InRange (length s.entries) (find_similar_entries env crash s)
  find_similar_entries-InRange crash s =
      All-mono (IsAt s.entries) (λ p. p.0 < length s.entries) (find_similar_entries env crash s)
        (IsAt-lt s.entries) (find_similar_entries-IsAt crash s)

  merge_sources-sync :
      (target : SubmissionEntry) (sources : List (ℕ × SubmissionEntry))
      (entries : List SubmissionEntry) (l : Local)
      → InRange (length entries) sources
      → lrange l ≡ entries
      → (lrange (merge_sources env target sources entries l).2
          ≡ (merge_sources env target sources entries l).1)
        × (length (merge_sources env target sources entries l).1 ≡ length entries)
  unfolding merge_sources
  merge_sources-sync target [] entries l h q = (q, refl)
  merge_sources-sync target ((j, source) ∷ sources) entries l h q =
      let entries' = set entries j (stopped source) in
      let same = length-set entries j (stopped source) in
      let (synced, len) =
        merge_sources-sync (merge_into target source) sources entries'
          (persist env j (stopped source) l) (subst (λ n. InRange n sources) (sym same) h.1)
          (persist_sync j (stopped source) entries l h.0 q) in
      (synced, len ∙ same)

  pub consolidate-InSync :
      (crash : Option TracedCrash) (target : ℕ × SubmissionEntry)
      (sources : List (ℕ × SubmissionEntry)) (s : State env)
      → InRange (length s.entries) (target ∷ sources)
      → InSync s
      → InSync (consolidate_similar_submissions env crash target sources s)
  unfolding consolidate_similar_submissions
  consolidate-InSync crash (i, target) sources s h q =
      let (synced, len) =
        merge_sources-sync (add_crash crash target) sources s.entries s.local h.1 q in
      persist_sync i _ _ _ (subst (λ n. i < n) (sym len) h.0) synced

  pub submit_vulnerability-InSync :
      (crash : TracedCrash) (s : State env) → InSync s → InSync (submit_vulnerability env crash s).1
  unfolding submit_vulnerability
  submit_vulnerability-InSync crash s q =
      elim (Bool-cases (should_stop_processing (crash_task_id crash) s.local)) [
        | inl t ↦ rw (t, submit_vulnerability) q
        | inr t ↦ elim (List-cases (find_similar_entries env crash s)) [
          | inr (first, others, e) ↦
              rw (t, submit_vulnerability, e)
                (consolidate-InSync (some crash) first others s
                  (subst (InRange (length s.entries)) e (find_similar_entries-InRange crash s)) q)
          | inl e ↦ rw (t, submit_vulnerability, e) (ground (arith, pushed, counted))
        ]
      ]
    where
      pushed : lrange (rpush (new_entry crash) s.local).1 ≡ s.entries ++ new_entry crash ∷ []
      pushed = lrange-rpush (new_entry crash) s.local ∙ ap (λ xs. xs ++ new_entry crash ∷ []) q

      counted : (rpush (new_entry crash) s.local).0 - 1 ≡ length s.entries
      counted = omega (arith, rpush-length (new_entry crash) s.local, ap length q)

  pub record_patch-InSync :
      (patch : Patch) (s : State env) → InSync s → InSync (record_patch env patch s)
  unfolding record_patch
  record_patch-InSync patch s q = elim (Option-cases (find_patch env patch.internal_patch_id s)) [
    | inl e ↦ rw (e, record_patch) q
    | inr (f, e) ↦
        rw (e, record_patch)
          (persist_sync f.index _ s.entries _
            (get_elem?-lt s.entries f.index (find_patch-IsFound env _ s f e).at_index)
            (ground (arith, lrange-uuid4 s.local)))
  ]

  pub record_patched_build-InSync :
      (b : BuildOutput) (s : State env) → InSync s → InSync (record_patched_build env b s)
  unfolding record_patched_build
  record_patched_build-InSync b s q = elim (Option-cases (find_patch env b.internal_patch_id s)) [
    | inl e ↦ rw (e, record_patched_build) q
    | inr (f, e) ↦ elim (Option-cases (find_matching_build_output f.patch b)) [
      | inl m ↦ rw (e, record_patched_build, m) q
      | inr (bo, m) ↦ elim (Bool-cases (truthy bo.task_dir || not (str_eq bo.task_id b.task_id))) [
        | inl t ↦ rw (e, record_patched_build, m, t) q
        | inr t ↦
            rw (e, record_patched_build, m, t)
              (persist_sync f.index _ s.entries s.local
                (get_elem?-lt s.entries f.index (find_patch-IsFound env _ s f e).at_index) q)
      ]
    ]
  ]
