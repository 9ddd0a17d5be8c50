-- ===== src/Submissions/Cycle/Advance.antt =====
-- What one step of a cycle on the entry `i` may touch: the entry itself, which evolves, and the
-- pipeline, which gets pushes. The list in Redis and the other entries stay.
use buttercup.Prelude.{
  ℕ, ◌≡◌, refl, ap, sym, ◌∙◌, subst, Bool, Option, none, some, List, [], ◌∷◌, ◌++◌, get_elem?, set,
  get_elem?-set_self, get_elem?-lt, set_same, set-set,
}
use buttercup.Prelude.All.{All, All-append}
use mathlib.Core.List.{append-nil, append_assoc}
use buttercup.Message.{SubmissionEntry}
use buttercup.Outcome.{Result, raised}
use buttercup.Submissions.Env.{Env, Command, lset, sadd_matched, xadd_build, xadd_confirmed}
use buttercup.Submissions.State.{State, M, with_entry, on_entry, run_commands}
use buttercup.Submissions.Evolves.{Evolves, Evolves-refl, Evolves-trans}

-- A command that does not write the list of entries.
abbrev pub IsPush : Command → Type 0
IsPush (lset _ _) = ⊥
IsPush _ = Unit

module _ (env : Env) where
  open env use {Local, lrange, lrange-sadd, lrange-xadd_build, lrange-xadd_confirmed, run_command}

  pub record Advances (i : ℕ) (e : SubmissionEntry) (s s' : State env) : Type 0 where
    pub after : SubmissionEntry
    pub entries : s'.entries ≡ set s.entries i after
    pub evolves : Evolves e after
    pub stored : lrange s'.local ≡ lrange s.local
    pub added : List Command
    pub pipeline : s'.pipeline ≡ s.pipeline ++ added
    pub pushes : All IsPush added

  -- A step that lets the entry `i` advance, whatever the state.
  pub record IsStep (i : ℕ) (m : M env Bool) : Type 0 where
    pub advances :
        (s : State env) (e : SubmissionEntry)
        → get_elem? s.entries i ≡ some e
        → Advances i e s (m s).1

  module _ (i : ℕ) (e : SubmissionEntry) (s : State env) (at : get_elem? s.entries i ≡ some e) where
    -- Only the local state outside the list changed, or the server.
    pub Advances-stay :
        (l : Local) (r : env.api.Remote)
        → lrange l ≡ lrange s.local
        → Advances i e s (record s { remote = r; local = l })
    Advances-stay l r h = record {
      after = e;
      entries = sym (set_same s.entries i at);
      evolves = Evolves-refl e;
      stored = h;
      added = [];
      pipeline = sym (append-nil _);
      pushes = tt;
    }

    -- The entry changed too.
    pub Advances-write :
        (e' : SubmissionEntry) (l : Local) (r : env.api.Remote)
        → Evolves e e'
        → lrange l ≡ lrange s.local
        → Advances i e s (record s { entries = set s.entries i e'; remote = r; local = l })
    Advances-write e' l r v h = record {
      after = e';
      entries = refl;
      evolves = v;
      stored = h;
      added = [];
      pipeline = sym (append-nil _);
      pushes = tt;
    }

    pub Advances-trans :
        {s' s'' : State env} (h : Advances i e s s')
        → Advances i h.after s' s''
        → Advances i e s s''
    Advances-trans h k = record {
      after = k.after;
      entries =
          k.entries ∙ ap (λ es. set es i k.after) h.entries ∙ set-set s.entries i h.after k.after;
      evolves = Evolves-trans h.evolves k.evolves;
      stored = k.stored ∙ h.stored;
      added = h.added ++ k.added;
      pipeline =
          k.pipeline
          ∙ ap (λ cs. cs ++ k.added) h.pipeline
          ∙ append_assoc s.pipeline h.added k.added;
      pushes = All-append IsPush h.added k.added h.pushes k.pushes;
    }

    pub Advances-at :
        {s' : State env} (h : Advances i e s s') → get_elem? s'.entries i ≡ some h.after
    Advances-at h =
        ap (λ es. get_elem? es i) h.entries
        ∙ get_elem?-set_self s.entries i h.after (get_elem?-lt s.entries i at)

  pub with_entry-eq :
      (i : ℕ) (f : SubmissionEntry → M env Bool) (s : State env) (e : SubmissionEntry)
      → get_elem? s.entries i ≡ some e
      → with_entry env i f s ≡ f e s
  with_entry-eq i f s e at =
      ap
        (λ (o : Option SubmissionEntry).
          let r : Result Bool × State env = elim o [ none ↦ (raised, s) | some x ↦ f x s ] in r)
        at

  pub with_entry-IsStep :
      (i : ℕ) (f : SubmissionEntry → M env Bool)
      → ((s : State env) (e : SubmissionEntry)
          → get_elem? s.entries i ≡ some e
          → Advances i e s (f e s).1)
      → IsStep i (with_entry env i f)
  with_entry-IsStep i f h = record {
    advances = λ s e at.
        subst (λ (out : Result Bool × State env). Advances i e s out.1)
          (sym (with_entry-eq i f s e at)) (h s e at);
  }

  -- A step on the entry and the competition API.
  pub on_entry-IsStep :
      (i : ℕ)
      (step : SubmissionEntry → env.api.Remote → Result Bool × SubmissionEntry × env.api.Remote)
      → ((e : SubmissionEntry) (r : env.api.Remote) → Evolves e (step e r).1)
      → IsStep i (on_entry env step i)
  on_entry-IsStep i step v = with_entry-IsStep i _ λ s e at.
      Advances-write i e s at (step e s.remote).1 s.local (step e s.remote).2 (v e s.remote) refl

  -- Pushes leave the list as it is.
  pub lrange-run_commands :
      (cs : List Command) (l : Local) → All IsPush cs → lrange (run_commands env cs l) ≡ lrange l
  lrange-run_commands [] l h = refl
  lrange-run_commands (lset i e ∷ cs) l h = absurd h.0
  lrange-run_commands (sadd_matched id ∷ cs) l h =
      lrange-run_commands cs (run_command (sadd_matched id) l) h.1 ∙ lrange-sadd id l
  lrange-run_commands (xadd_build b ∷ cs) l h =
      lrange-run_commands cs (run_command (xadd_build b) l) h.1 ∙ lrange-xadd_build b l
  lrange-run_commands (xadd_confirmed v ∷ cs) l h =
      lrange-run_commands cs (run_command (xadd_confirmed v) l) h.1 ∙ lrange-xadd_confirmed v l
