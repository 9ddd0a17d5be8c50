-- ===== src/Submissions/Counted.antt =====
-- The list `submissions` in Redis has as many entries as the object, after every call and every cycle
-- of orchestrator/src/buttercup/orchestrator/scheduler/submissions.py. So the assertion on the index
-- that `rpush` returned does not fail, even where an entry was not written back.
pub mod Calls
use buttercup.Prelude.{
  ℕ, zero, suc, ◌+◌, ◌-◌, ◌<◌, ◌≡◌, refl, ap, sym, ◌∙◌, subst, Bool, true, false, not, ◌&&◌, ◌||◌,
  Option, some, none, List, [], ◌∷◌, ◌++◌, length, set, truthy, str_eq, ◌==◌, any, arith, inl, inr,
  Bool-cases, Option-cases, List-cases, length-set, length-append, if◌then◌else◌, get_elem?,
  get_elem?-lt,
}
use buttercup.Prelude.All.{All}
use buttercup.Message.{BuildOutput, TracedCrash, Patch, SubmissionEntry, SubmissionEntryPatch}
use buttercup.Outcome.{ok}
use buttercup.Submissions.Env.{Env}
use buttercup.Submissions.State.{Limits, State, persist, is_active}
use buttercup.Submissions.Entry.{crash_task_id, task_id, find_matching_build_output}
use buttercup.Submissions.Patch.{
  pov_reproduce_patch_status, is_mitigated_status, reorder_patches_by_completion,
}
use buttercup.Submissions.Records.{
  find_patch, find_similar_entries, merge_sources, merge_into, new_entry, stopped, add_crash,
  consolidate_similar_submissions, submit_vulnerability, record_patch, record_patched_build,
}
use buttercup.Submissions.Records.Find.{find_patch-IsFound}
use buttercup.Submissions.Records.Sync.{InRange, find_similar_entries-InRange}
use buttercup.Submissions.Cycle.{
  built_patch, collect_from, merge_entry, merge_from, merge_entries_by_patch_mitigation,
  process_from, process_cycle,
}
use buttercup.Submissions.Cycle.Steps.{lrange-pov_reproduce_patch_status}
use buttercup.Submissions.Cycle.Loop.{process_from-Kept}

module _ (env : Env) where
  open env use {
    Local, lrange, lrange-lset, lrange-rpush, rpush-length, lrange-uuid4, rpush, uuid4,
    should_stop_processing,
  }

  -- As many entries in Redis as in memory.
  pub record Counted (s : State env) : Type 0 where
    pub count : length (lrange s.local) ≡ length s.entries

  persist_count :
      (i : ℕ) (e : SubmissionEntry) (l : Local)
      → i < length (lrange l)
      → length (lrange (persist env i e l)) ≡ length (lrange l)
  persist_count i e l h = ap length (lrange-lset i e l h) ∙ length-set (lrange l) i e

  -- An entry is written in memory and in Redis.
  written :
      (i : ℕ) (e : SubmissionEntry) (s : State env) (entries : List SubmissionEntry) (l : Local)
      → i < length entries
      → length (lrange l) ≡ length entries
      → Counted (record s { entries = set entries i e; local = persist env i e l })
  written i e s entries l h q = record {
    count = persist_count i e l (omega (arith, h, q)) ∙ q ∙ sym (length-set entries i e);
  }

  merge_sources_count :
      (n : ℕ) (target : SubmissionEntry) (sources : List (ℕ × SubmissionEntry))
      (entries : List SubmissionEntry) (l : Local)
      → InRange env n sources
      → length entries ≡ n
      → length (lrange l) ≡ n
      → (length (merge_sources env target sources entries l).1 ≡ n)
        × (length (lrange (merge_sources env target sources entries l).2) ≡ n)
  unfolding merge_sources
  merge_sources_count n target [] entries l h a b = (a, b)
  merge_sources_count n target ((j, source) ∷ sources) entries l h a b =
      merge_sources_count n (merge_into target source) sources (set entries j (stopped source))
        (persist env j (stopped source) l) h.1 (length-set entries j (stopped source) ∙ a)
        (persist_count j (stopped source) l (subst (λ m. j < m) (sym b) h.0) ∙ b)

  consolidate-Counted :
      (crash : Option TracedCrash) (target : ℕ × SubmissionEntry)
      (sources : List (ℕ × SubmissionEntry)) (s : State env)
      → InRange env (length s.entries) (target ∷ sources)
      → Counted s
      → Counted (consolidate_similar_submissions env crash target sources s)
  unfolding consolidate_similar_submissions
  consolidate-Counted crash (i, target) sources s h c =
      let merged = merge_sources env (add_crash crash target) sources s.entries s.local in
      let (a, b) =
        merge_sources_count (length s.entries) (add_crash crash target) sources s.entries s.local
          h.1 refl c.count in
      written i (reorder_patches_by_completion merged.0) s merged.1 merged.2
        (subst (λ m. i < m) (sym a) h.0) (b ∙ sym a)

  pub submit_vulnerability-Counted :
      (crash : TracedCrash) (s : State env)
      → Counted s
      → (b : Bool) × ((submit_vulnerability env crash s).0 ≡ ok b)
        × Counted (submit_vulnerability env crash s).1
  unfolding submit_vulnerability
  submit_vulnerability-Counted crash s c =
      elim (Bool-cases (should_stop_processing (crash_task_id crash) s.local)) [
        | inl t ↦ rw (t, submit_vulnerability) (true, refl, c)
        | inr t ↦ elim (List-cases (find_similar_entries env crash s)) [
          | inr (first, others, e) ↦
              rw (t, submit_vulnerability, e)
                (
                  true,
                  refl,
                  consolidate-Counted (some crash) first others s
                      (subst (InRange env (length s.entries)) e
                        (find_similar_entries-InRange env crash s))
                      c,
                )
          | inl e ↦ rw (t, submit_vulnerability, e, counted) (true, refl, record { count = pushed })
        ]
      ]
    where
      counted : ((rpush (new_entry crash) s.local).0 - 1 == length s.entries) ≡ true
      counted = ground (arith, rpush-length (new_entry crash) s.local, c.count)

      pushed :
          length (lrange (rpush (new_entry crash) s.local).1)
          ≡ length (s.entries ++ new_entry crash ∷ [])
      pushed =
          ap length (lrange-rpush (new_entry crash) s.local)
          ∙ length-append (lrange s.local) (new_entry crash ∷ [])
          ∙ ap (λ n. n + 1) c.count
          ∙ sym (length-append s.entries (new_entry crash ∷ []))

  pub record_patch-Counted :
      (patch : Patch) (s : State env) → Counted s → Counted (record_patch env patch s)
  unfolding record_patch
  record_patch-Counted patch s c = elim (Option-cases (find_patch env patch.internal_patch_id s)) [
    | inl e ↦ rw (e, record_patch) c
    | inr (f, e) ↦
        rw (e, record_patch)
          (written f.index _ s s.entries _
            (get_elem?-lt s.entries f.index (find_patch-IsFound env _ s f e).at_index)
            (ground (arith, lrange-uuid4 s.local, c.count)))
  ]

  pub record_patched_build-Counted :
      (b : BuildOutput) (s : State env) → Counted s → Counted (record_patched_build env b s)
  unfolding record_patched_build
  record_patched_build-Counted b s c = elim (Option-cases (find_patch env b.internal_patch_id s)) [
    | inl e ↦ rw (e, record_patched_build) c
    | inr (f, e) ↦ elim (Option-cases (find_matching_build_output f.patch b)) [
      | inl m ↦ rw (e, record_patched_build, m) c
      | inr (bo, m) ↦ elim (Bool-cases (truthy bo.task_dir || not (str_eq bo.task_id b.task_id))) [
        | inl t ↦ rw (e, record_patched_build, m, t) c
        | inr t ↦
            rw (e, record_patched_build, m, t)
              (written f.index _ s s.entries s.local
                (get_elem?-lt s.entries f.index (find_patch-IsFound env _ s f e).at_index) c.count)
      ]
    ]
  ]

  module _ (limits : Limits) where
    cons_if_range :
        (n : ℕ) (c : Bool) (p : ℕ × SubmissionEntry) (ps : List (ℕ × SubmissionEntry))
        → p.0 < n
        → InRange env n ps
        → InRange env n (if c then p ∷ ps else ps)
    cons_if_range n true p ps a b = (a, b)
    cons_if_range n false p ps a b = b

    either_list :
        (c : Bool) (l l' : Local) → lrange l' ≡ lrange l → lrange (if c then l else l') ≡ lrange l
    either_list true l l' h = refl
    either_list false l l' h = h

    -- The sources that are collected are entries, and nothing is written.
    collect_from_range :
        (n i : ℕ) (e : SubmissionEntry) (patch : SubmissionEntryPatch) (j : ℕ)
        (es : List SubmissionEntry) (l : Local)
        → j + length es ≡ n
        → InRange env n (collect_from env limits i e patch j es l).0
          × (lrange (collect_from env limits i e patch j es l).1 ≡ lrange l)
    unfolding collect_from
    collect_from_range n i e patch j [] l h = (tt, refl)
    collect_from_range n i e patch j (e2 ∷ es) l h =
        let skipped =
          not (is_active env l e2) || not (str_eq (task_id e2) (task_id e)) || (i == j) in
        let asked = (pov_reproduce_patch_status env patch e2.crashes (task_id e) l).1 in
        let (rest, same) =
          collect_from_range n i e patch (suc j) es (if skipped then l else asked)
            (omega (arith, h)) in
        (
          cons_if_range n _ (j, e2) _ (omega (arith, h)) rest,
          same
              ∙ either_list skipped l asked
                  (lrange-pov_reproduce_patch_status env patch e2.crashes (task_id e) l),
        )

    merge_sources-Counted :
        (i : ℕ) (e : SubmissionEntry) (sources : List (ℕ × SubmissionEntry)) (s : State env)
        → i < length s.entries
        → InRange env (length s.entries) sources
        → Counted s
        → Counted (elim sources [
          | [] ↦ s
          | first ∷ others ↦ consolidate_similar_submissions env none (i, e) (first ∷ others) s
        ])
    merge_sources-Counted i e [] s h r c = c
    merge_sources-Counted i e (first ∷ others) s h r c =
        consolidate-Counted none (i, e) (first ∷ others) s (h, r) c

    merge_entry-Counted : (i : ℕ) (s : State env) → Counted s → Counted (merge_entry env limits i s)
    unfolding merge_entry
    merge_entry-Counted i s c = elim (Option-cases (get_elem? s.entries i)) [
      | inl at ↦ rw (at, merge_entry) c
      | inr (e, at) ↦ elim (Bool-cases (is_active env s.local e)) [
        | inr t ↦ rw (at, merge_entry, t) c
        | inl t ↦ elim (Option-cases (built_patch env limits e)) [
          | inl b ↦ rw (at, merge_entry, t, b) c
          | inr (patch, b) ↦
              let (range, same) =
                collect_from_range (length s.entries) i e patch 0 s.entries s.local (omega arith) in
              let l = (collect_from env limits i e patch 0 s.entries s.local).1 in
              rw (at, merge_entry, t, b)
                (merge_sources-Counted i e (collect_from env limits i e patch 0 s.entries s.local).0
                  (record s { local = l }) (get_elem?-lt s.entries i at) range
                  (record { count = ap length same ∙ c.count }))
        ]
      ]
    ]

    merge_from-Counted :
        (n i : ℕ) (s : State env) → Counted s → Counted (merge_from env limits n i s)
    unfolding merge_from
    merge_from-Counted zero i s c = c
    merge_from-Counted (suc n) i s c =
        merge_from-Counted n (suc i) (merge_entry env limits i s) (merge_entry-Counted i s c)

    pub process_cycle-Counted : (s : State env) → Counted s → Counted (process_cycle env limits s)
    unfolding process_cycle merge_entries_by_patch_mitigation
    process_cycle-Counted s c =
        let s1 = process_from env limits (length s.entries) 0 s in
        let kept = process_from-Kept env limits (length s.entries) 0 s c.count in
        merge_from-Counted (length s1.entries) 0 s1
          (record { count = kept.stored ∙ c.count ∙ sym kept.count })
