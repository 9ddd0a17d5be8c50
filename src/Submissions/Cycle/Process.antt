-- ===== src/Submissions/Cycle/Process.antt =====
-- A cycle on one entry, and the loop over the entries.
use buttercup.Prelude.{
  ℕ, ◌<◌, ◌≡◌, refl, ap, sym, ◌∙◌, subst, Bool, true, false, ◌||◌, some, List, [], ◌∷◌, ◌++◌, ◌⊎◌,
  inl, inr, length, get_elem?, set, Bool-cases, set_same,
}
use buttercup.Prelude.All.{All}
use buttercup.Message.{SubmissionEntry}
use buttercup.Outcome.{Result, ok, raised, result_ind}
use buttercup.Submissions.Env.{Env, Command, lset}
use buttercup.Submissions.State.{Limits, State, M, run_commands, is_active}
use buttercup.Submissions.Evolves.{Evolves, Evolves-refl}
use buttercup.Submissions.Evolves.Steps.{
  submit_pov_if_needed-Evolves, update_pov_status-Evolves, ensure_single_bundle-Evolves,
  ensure_patch_is_bundled-Evolves, update_patch_status-Evolves,
}
use buttercup.Submissions.Cycle.{steps, run_steps, finish_entry, process_entry}
use buttercup.Submissions.Cycle.Advance.{
  Advances, IsStep, Advances-trans, Advances-at, on_entry-IsStep, lrange-run_commands,
}
use buttercup.Submissions.Cycle.Steps.{
  Leaves, leave, stay, confirm_matched_sarifs-IsStep, ensure_sarif_is_bundled-IsStep,
  request_patch_if_needed-IsStep,
}
use buttercup.Submissions.Cycle.Submit.{
  request_patched_builds_if_needed-IsStep, submit_patch_if_good-IsStep,
}

module _ (env : Env) (limits : Limits) where
  open env use {Local, api, lrange, lrange-lset}

  steps-IsStep : (i : ℕ) → All (IsStep env i) (steps env limits i)
  unfolding steps
  steps-IsStep i = (
    confirm_matched_sarifs-IsStep env i,
    (
      ensure_sarif_is_bundled-IsStep env i,
      (
        on_entry-IsStep env i _ (ensure_patch_is_bundled-Evolves api),
        (
          on_entry-IsStep env i _ (update_patch_status-Evolves env),
          (
            request_patch_if_needed-IsStep env i limits,
            (
              request_patched_builds_if_needed-IsStep env limits i,
              (
                submit_patch_if_good-IsStep env limits i,
                (
                  on_entry-IsStep env i _ (update_pov_status-Evolves api),
                  (
                    on_entry-IsStep env i _ (submit_pov_if_needed-Evolves api),
                    (on_entry-IsStep env i _ (ensure_single_bundle-Evolves api), tt),
                  ),
                ),
              ),
            ),
          ),
        ),
      ),
    ),
  )

  run_steps-Leaves :
      (i : ℕ) (ms : List (M env Bool)) (b : Bool) (s : State env) (e : SubmissionEntry)
      → get_elem? s.entries i ≡ some e
      → All (IsStep env i) ms
      → Leaves env i e s (run_steps env limits ms b s)
  unfolding run_steps
  run_steps-Leaves i [] b s e at h = stay env i s e at (ok b) s.remote s.local refl
  run_steps-Leaves i (m ∷ ms) b s e at h =
      let first : Advances env i e s (m s).1 = h.0.advances s e at in
      result_ind (Leaves env i e s) (m s).0 (leave env i e s (raised, (m s).1) first)
        λ (needed : Bool).
          let rest =
            run_steps-Leaves i ms (b || needed) (m s).1 first.after (Advances-at env i e s at first)
              h.1 in
          leave env i e s (run_steps env limits ms (b || needed) (m s).1)
            (Advances-trans env i e s at first rest.advances)

  run_commands-append :
      (xs ys : List Command) (l : Local)
      → run_commands env (xs ++ ys) l ≡ run_commands env ys (run_commands env xs l)
  run_commands-append [] ys l = refl
  run_commands-append (x ∷ xs) ys l = run_commands-append xs ys (env.run_command x l)

  -- What a cycle leaves of the entry `i`: in memory it has evolved and no other entry was written;
  -- in Redis the list is as it was, or has the new entry at `i`.
  pub record Processed (i : ℕ) (e : SubmissionEntry) (s s' : State env) : Type 0 where
    pub after : SubmissionEntry
    pub entries : s'.entries ≡ set s.entries i after
    pub evolves : Evolves e after
    pub stored :
        (lrange s'.local ≡ lrange s.local) ⊎ (lrange s'.local ≡ set (lrange s.local) i after)

  finish_entry-Processed :
      (i : ℕ) (e : SubmissionEntry) (s0 s : State env) (answer : Result Bool)
      → i < length (lrange s0.local)
      → get_elem? s0.entries i ≡ some e
      → s0.pipeline ≡ []
      → Advances env i e s0 s
      → Processed i e s0 (finish_entry env limits i (answer, s))
  unfolding finish_entry
  finish_entry-Processed i e s0 s raised lt at p h = record {
    after = h.after;
    entries = h.entries;
    evolves = h.evolves;
    stored = inl h.stored;
  }
  finish_entry-Processed i e s0 s (ok false) lt at p h = record {
    after = h.after;
    entries = h.entries;
    evolves = h.evolves;
    stored = inl h.stored;
  }
  finish_entry-Processed i e s0 s (ok true) lt at p h =
      subst (λ (s' : State env). Processed i e s0 s') (sym (found (Advances-at env i e s0 at h)))
        (record {
          after = h.after;
          entries = h.entries;
          evolves = h.evolves;
          stored = inr (rw (h.pipeline, p) executed);
        })
    where
      found :
          get_elem? s.entries i ≡ some h.after
          → finish_entry env limits i (ok true, s) ≡ record s {
            local = run_commands env (s.pipeline ++ lset i h.after ∷ []) s.local;
            pipeline = [];
          }
      found q = rw (q, finish_entry)

      executed :
          lrange (run_commands env (h.added ++ lset i h.after ∷ []) s.local)
          ≡ set (lrange s0.local) i h.after
      executed =
          ap lrange (run_commands-append h.added (lset i h.after ∷ []) s.local)
          ∙ lrange-lset i h.after (run_commands env h.added s.local)
              (subst (λ es. i < length es) (sym held) lt)
          ∙ ap (λ es. set es i h.after) held
        where
          held : lrange (run_commands env h.added s.local) ≡ lrange s0.local
          held = lrange-run_commands env h.added s.local h.pushes ∙ h.stored

  untouched :
      (i : ℕ) (e : SubmissionEntry) (s : State env)
      → get_elem? s.entries i ≡ some e
      → Processed i e s s
  untouched i e s at = record {
    after = e;
    entries = sym (set_same s.entries i at);
    evolves = Evolves-refl e;
    stored = inl refl;
  }

  active-Processed :
      (i : ℕ) (e : SubmissionEntry) (s : State env)
      → i < length (lrange s.local)
      → get_elem? s.entries i ≡ some e
      → Processed i e s (
          finish_entry env limits i
            (run_steps env limits (steps env limits i) false (record s { pipeline = [] })))
  active-Processed i e s lt at =
      let fresh : State env = record s { pipeline = [] } in
      let h =
        finish_entry-Processed i e fresh (run_steps env limits (steps env limits i) false fresh).1
          (run_steps env limits (steps env limits i) false fresh).0 lt at refl
          (run_steps-Leaves i (steps env limits i) false fresh e at (steps-IsStep i)).advances in
      record { after = h.after; entries = h.entries; evolves = h.evolves; stored = h.stored }

  -- A cycle on the entry `i`, whichever of its steps runs, stays or raises: no other entry is
  -- written; the entry keeps its crash reports, its mark `stop` and the order of its patches, and its
  -- `patch_idx` does not fall; and the list in Redis stays, or gets exactly the new entry at `i`.
  -- The condition is that the entry is in memory, and that the list in Redis is long enough.
  pub process_entry-Processed :
      (i : ℕ) (e : SubmissionEntry) (s : State env)
      → i < length (lrange s.local)
      → get_elem? s.entries i ≡ some e
      → Processed i e s (process_entry env limits i s)
  unfolding process_entry
  process_entry-Processed i e s lt at = elim (Bool-cases (is_active env s.local e)) [
    | inl t ↦ rw (at, process_entry, t) (active-Processed i e s lt at)
    | inr t ↦ rw (at, process_entry, t) (untouched i e s at)
  ]
