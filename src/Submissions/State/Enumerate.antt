-- ===== src/Submissions/State/Enumerate.antt =====
-- What the enumerations of the entries yield: an index, and the entry that stands there.
use buttercup.Prelude.{
  ℕ, suc, ◌+◌, ◌≡◌, refl, List, [], ◌∷◌, get_elem?, some, arith, subst, sym, ◌∙◌,
}
use buttercup.Prelude.All.{All, All-filter, All-mono}
use buttercup.Submissions.Env.{Env}
use buttercup.Submissions.State.{State, enumerate_from, enumerate_submissions, is_active}

-- `p` is an index from `i` on and the element at that place of the list that begins at `i`.
abbrev Stands {ℓ} : {A : Type ℓ} → ℕ → List A → ℕ × A → Type ℓ
Stands i xs p = (k : ℕ) × (p.0 ≡ i + k) × (get_elem? xs k ≡ some p.1)

Stands-suc {ℓ} :
    {A : Type ℓ} (i : ℕ) (x : A) (xs : List A) (p : ℕ × A)
    → Stands (suc i) xs p
    → Stands i (x ∷ xs) p
Stands-suc i x xs p (k, e, h) = (suc k, omega arith, h)

enumerate_from-Stands {ℓ} :
    {A : Type ℓ} (i : ℕ) (xs : List A) → All (Stands i xs) (enumerate_from i xs)
enumerate_from-Stands i [] = tt
enumerate_from-Stands i (x ∷ xs) = (
  (0, omega arith, refl),
  All-mono (Stands (suc i) xs) (Stands i (x ∷ xs)) (enumerate_from (suc i) xs) (Stands-suc i x xs)
      (enumerate_from-Stands (suc i) xs),
)

-- `p` is an index and the element at that place.
abbrev pub IsAt {ℓ} : {A : Type ℓ} → List A → ℕ × A → Type ℓ
IsAt xs p = get_elem? xs p.0 ≡ some p.1

pub enumerate_from-IsAt {ℓ} : {A : Type ℓ} (xs : List A) → All (IsAt xs) (enumerate_from 0 xs)
enumerate_from-IsAt xs =
    All-mono (Stands 0 xs) (IsAt xs) (enumerate_from 0 xs)
      (λ p (k, e, h). subst (λ j. get_elem? xs j ≡ some p.1) (sym (e ∙ omega arith)) h)
      (enumerate_from-Stands 0 xs)

module _ (env : Env) (s : State env) where
  pub enumerate_submissions-IsAt : All (IsAt s.entries) (enumerate_submissions env s)
  unfolding enumerate_submissions
  enumerate_submissions-IsAt =
      All-filter (IsAt s.entries) (λ p. is_active env s.local p.1) (enumerate_from 0 s.entries)
        (enumerate_from-IsAt s.entries)
