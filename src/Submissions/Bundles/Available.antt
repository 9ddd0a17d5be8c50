-- ===== src/Submissions/Bundles/Available.antt =====
-- Which SARIF reports are still free for an entry, of `_get_available_sarifs_for_matching` and
-- `_ensure_sarif_is_bundled` in orchestrator/src/buttercup/orchestrator/scheduler/submissions.py.
use buttercup.Prelude.{
  ℕ, ◌≡◌, refl, String, Bool, true, false, not, ◌&&◌, ◌||◌, some, some_eq, List, [], ◌∷◌, ◌++◌,
  filter, any, arith, str_eq, truthy, subst, sym, ◌∙◌, inl, inr, Bool-cases,
}
use buttercup.Message.{CrashWithId, Bundle, SubmissionEntry}
use buttercup.Submissions.Env.{Env, Sarif}
use buttercup.Submissions.State.{State, enumerate_task_submissions}
use buttercup.Submissions.Bundles.{
  bundled_sarifs, submitted_sarifs, get_available_sarifs_for_matching, matches_lines, first_match,
}

module _ (env : Env) where
  -- Whether an entry of the list has a bundle with the SARIF report.
  abbrev pub is_bundled_in : String → List (ℕ × SubmissionEntry) → Bool
  is_bundled_in id es =
      any
        (λ p.
          any (λ (b : Bundle). truthy b.competition_sarif_id && str_eq b.competition_sarif_id id)
            p.1.bundles)
        es

  any-append : (q : String → Bool) (xs ys : List String) → any q (xs ++ ys) ≡ (any q xs || any q ys)
  any-append q [] ys = refl
  any-append q (x ∷ xs) ys = ground (arith, any-append q xs ys)

  bundled_sarifs-any :
      (id : String) (bs : List Bundle)
      → any (λ s. str_eq s id) (bundled_sarifs env bs)
        ≡ any (λ (b : Bundle). truthy b.competition_sarif_id && str_eq b.competition_sarif_id id) bs
  bundled_sarifs-any id [] = refl
  bundled_sarifs-any id (b ∷ bs) = ground (arith, bundled_sarifs-any id bs)

  submitted_sarifs-any :
      (id : String) (es : List (ℕ × SubmissionEntry))
      → any (λ s. str_eq s id) (submitted_sarifs env es) ≡ is_bundled_in id es
  submitted_sarifs-any id [] = refl
  submitted_sarifs-any id ((i, e) ∷ es) =
      any-append (λ s. str_eq s id) (bundled_sarifs env e.bundles) (submitted_sarifs env es)
      ∙ ground (arith, bundled_sarifs-any id e.bundles, submitted_sarifs-any id es)

  -- What the search through the free reports may return.
  pub record IsFree (task : String) (crashes : List CrashWithId) (s : State env) (sarif : Sarif)
      : Type 0 where
    pub unbundled : is_bundled_in sarif.sarif_id (enumerate_task_submissions env task s) ≡ false
    pub matches : any (matches_lines env sarif) crashes ≡ true

  first_match-filter :
      (q : Sarif → Bool) (sarifs : List Sarif) (crashes : List CrashWithId) (sarif : Sarif)
      → first_match env (filter q sarifs) crashes ≡ some sarif
      → (q sarif ≡ true) × (any (matches_lines env sarif) crashes ≡ true)
  unfolding first_match
  first_match-filter q [] crashes sarif h = cc
  first_match-filter q (f ∷ fs) crashes sarif h = elim (Bool-cases (q f)) [
    | inr t ↦ first_match-filter q fs crashes sarif (rw t at h)
    | inl t ↦ elim (Bool-cases (any (matches_lines env f) crashes)) [
      | inr m ↦ first_match-filter q fs crashes sarif (rw (t, first_match, m) at h)
      | inl m ↦
          let same : f ≡ sarif = some_eq (rw (t, first_match, m) at h) in
          subst (λ x. (q x ≡ true) × (any (matches_lines env x) crashes ≡ true)) same (t, m)
    ]
  ]

  -- The SARIF report that is chosen for an entry matches one of its crashes on lines, and no active
  -- entry of the task has it in a bundle.
  pub first_match-IsFree :
      (task : String) (crashes : List CrashWithId) (s : State env) (sarif : Sarif)
      → first_match env (get_available_sarifs_for_matching env task s) crashes ≡ some sarif
      → IsFree task crashes s sarif
  unfolding get_available_sarifs_for_matching
  first_match-IsFree task crashes s sarif h =
      let es = enumerate_task_submissions env task s in
      let found =
        first_match-filter (λ f. not (any (λ id. str_eq id f.sarif_id) (submitted_sarifs env es)))
          (env.get_by_task_id task s.local) crashes sarif h in
      record {
        unbundled = sym (submitted_sarifs-any sarif.sarif_id es) ∙ ground (arith, found.0);
        matches = found.1;
      }
