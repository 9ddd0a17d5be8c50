-- ===== src/Submissions/State/Ascending.antt =====
-- The indices of an enumeration ascend, so no entry is named twice.
use buttercup.Prelude.{
  ℕ, suc, ◌≤◌, Bool, List, [], ◌∷◌, filter, arith, inl, inr, Bool-cases, str_eq, String,
}
use buttercup.Submissions.Env.{Env}
use buttercup.Submissions.State.{
  State, enumerate_from, enumerate_submissions, enumerate_task_submissions, is_active,
}
use buttercup.Submissions.Entry.{task_id}

-- Indices from `i` on, each above the one before.
abbrev pub Ascending {ℓ} : {A : Type ℓ} → ℕ → List (ℕ × A) → Type 0
Ascending i [] = Unit
Ascending i (p ∷ ps) = (i ≤ p.0) × Ascending (suc p.0) ps

pub Ascending-le {ℓ} :
    {A : Type ℓ} (i j : ℕ) (ps : List (ℕ × A)) → i ≤ j → Ascending j ps → Ascending i ps
Ascending-le i j [] h a = tt
Ascending-le i j (p ∷ ps) h a = (omega arith, a.1)

enumerate_from-Ascending {ℓ} :
    {A : Type ℓ} (i : ℕ) (xs : List A) → Ascending i (enumerate_from i xs)
enumerate_from-Ascending i [] = tt
enumerate_from-Ascending i (x ∷ xs) = (omega arith, enumerate_from-Ascending (suc i) xs)

pub filter-Ascending {ℓ} :
    {A : Type ℓ} (q : ℕ × A → Bool) (i : ℕ) (ps : List (ℕ × A))
    → Ascending i ps
    → Ascending i (filter q ps)
filter-Ascending q i [] a = tt
filter-Ascending q i (p ∷ ps) a = elim (Bool-cases (q p)) [
  | inl e ↦ rw e (a.0, filter-Ascending q (suc p.0) ps a.1)
  | inr e ↦ rw e (
      Ascending-le i (suc p.0) (filter q ps) (omega (arith, a.0))
        (filter-Ascending q (suc p.0) ps a.1))
]

module _ (env : Env) where
  pub enumerate_task_submissions-Ascending :
      (task : String) (s : State env) → Ascending 0 (enumerate_task_submissions env task s)
  unfolding enumerate_task_submissions
  enumerate_task_submissions-Ascending task s =
      filter-Ascending (λ p. str_eq (task_id p.1) task) 0 (enumerate_submissions env s)
        (filter-Ascending (λ p. is_active env s.local p.1) 0 (enumerate_from 0 s.entries)
          (enumerate_from-Ascending 0 s.entries))
