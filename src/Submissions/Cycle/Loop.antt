-- ===== src/Submissions/Cycle/Loop.antt =====
-- The loop of `process_cycle` in
-- orchestrator/src/buttercup/orchestrator/scheduler/submissions.py over all entries.
use buttercup.Prelude.{
  ℕ, zero, suc, ◌<◌, ◌≡◌, refl, ap, sym, ◌∙◌, subst, some, some_eq, length, get_elem?, set, ◌==◌,
  arith, inl, inr, Bool-cases, Option-cases, length-set, get_elem?-set_self, get_elem?-set_ne,
  get_elem?-lt,
}
use buttercup.Message.{SubmissionEntry}
use buttercup.Submissions.Env.{Env}
use buttercup.Submissions.State.{Limits, State}
use buttercup.Submissions.Evolves.{Evolves, Evolves-refl, Evolves-trans}
use buttercup.Submissions.Cycle.{process_entry, process_from}
use buttercup.Submissions.Cycle.Process.{Processed, process_entry-Processed}

module _ (env : Env) where
  open env use {lrange}

  -- No entry comes or goes, in memory or in Redis, and each entry in memory has evolved.
  pub record Kept (s s' : State env) : Type 0 where
    pub count : length s'.entries ≡ length s.entries
    pub stored : length (lrange s'.local) ≡ length (lrange s.local)
    pub evolved :
        (k : ℕ) (e : SubmissionEntry)
        → get_elem? s.entries k ≡ some e
        → (e' : SubmissionEntry) × (get_elem? s'.entries k ≡ some e') × Evolves e e'

  Kept-refl : (s : State env) → Kept s s
  Kept-refl s = record { count = refl; stored = refl; evolved = λ k e h. (e, h, Evolves-refl e) }

  Kept-trans : {s s' s'' : State env} → Kept s s' → Kept s' s'' → Kept s s''
  Kept-trans h g = record {
    count = g.count ∙ h.count;
    stored = g.stored ∙ h.stored;
    evolved = λ k e at.
        let (e', at', v) = h.evolved k e at in
        let (e'', at'', w) = g.evolved k e' at' in (e'', at'', Evolves-trans v w);
  }

  module _ (limits : Limits) where
    Processed-Kept :
        (i : ℕ) (e : SubmissionEntry) (s s' : State env)
        → get_elem? s.entries i ≡ some e
        → Processed env limits i e s s'
        → Kept s s'
    Processed-Kept i e s s' at h = record {
      count = ap length h.entries ∙ length-set s.entries i h.after;
      stored = elim h.stored [
        | inl same ↦ ap length same
        | inr new ↦ ap length new ∙ length-set (lrange s.local) i h.after
      ];
      evolved = λ k x here. elim (Bool-cases (i == k)) [
        | inl t ↦
            let eq : i ≡ k = ground arith in
            (
              h.after,
              ap (λ es. get_elem? es k) h.entries
                  ∙ subst (λ j. get_elem? (set s.entries i h.after) j ≡ some h.after) eq
                      (get_elem?-set_self s.entries i h.after (get_elem?-lt s.entries i at)),
              subst (λ y. Evolves y h.after)
                  (some_eq (sym at ∙ subst (λ j. get_elem? s.entries j ≡ some x) (sym eq) here))
                  h.evolves,
            )
        | inr t ↦ (
          x,
          ap (λ es. get_elem? es k) h.entries
              ∙ get_elem?-set_ne s.entries h.after (λ (eq : i ≡ k). ground arith)
              ∙ here,
          Evolves-refl x,
        )
      ];
    }

    process_entry-Kept :
        (i : ℕ) (s : State env)
        → length (lrange s.local) ≡ length s.entries
        → Kept s (process_entry env limits i s)
    unfolding process_entry
    process_entry-Kept i s h = elim (Option-cases (get_elem? s.entries i)) [
      | inl at ↦ rw (at, process_entry) (Kept-refl s)
      | inr (e, at) ↦ Processed-Kept i e s (process_entry env limits i s) at (
          process_entry-Processed env limits i e s
            (subst (λ n. i < n) (sym h) (get_elem?-lt s.entries i at)) at)
    ]

    -- The loop of a cycle over `n` entries from `i` on, whatever its steps do and whichever of them
    -- raise: no entry comes or goes, in memory or in Redis, and each one keeps its crash reports, its
    -- mark `stop` and its patches in their order, and its `patch_idx` does not fall. The condition
    -- is that Redis holds as many entries as the object.
    pub process_from-Kept :
        (n i : ℕ) (s : State env)
        → length (lrange s.local) ≡ length s.entries
        → Kept s (process_from env limits n i s)
    unfolding process_from
    process_from-Kept zero i s h = Kept-refl s
    process_from-Kept (suc n) i s h =
        let first = process_entry-Kept i s h in
        Kept-trans first (
          process_from-Kept n (suc i) (process_entry env limits i s)
            (first.stored ∙ h ∙ sym first.count))
