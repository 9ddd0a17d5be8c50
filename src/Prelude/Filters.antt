-- ===== src/Prelude/Filters.antt =====
-- Lemmas on `take`, `drop` and the Boolean `filter`.
use Prim.Native.Nat.{ℕ, zero, suc, ◌≤◌}
use mathlib.Core.Path.{◌≡◌, refl, ap}
use mathlib.Core.Bool.{Bool, not}
use mathlib.Core.List.{List, [], ◌∷◌, ◌++◌, Perm, perm_middle}
use mathlib.Core.List.Perm
use native.Mathlib.Omega.{arith}
use buttercup.Prelude.Tests.{Bool-cases}
use buttercup.Prelude.Lists.{length, take, drop, filter}
use mathlib.Core.Logic.{inl, inr}

module _ {ℓ} {A : Type ℓ} where
  pub take-take_append :
      (n : ℕ) (xs ys : List A) → n ≤ length xs → take n (take n xs ++ ys) ≡ take n xs
  take-take_append zero xs ys h = refl
  take-take_append (suc n) [] ys h = elim h [ ]
  take-take_append (suc n) (x ∷ xs) ys h = ap (λ l. x ∷ l) (take-take_append n xs ys (omega arith))

  pub drop-take_append : (n : ℕ) (xs ys : List A) → n ≤ length xs → drop n (take n xs ++ ys) ≡ ys
  drop-take_append zero xs ys h = refl
  drop-take_append (suc n) [] ys h = elim h [ ]
  drop-take_append (suc n) (x ∷ xs) ys h = drop-take_append n xs ys (omega arith)

  pub drop_all : (n : ℕ) (xs : List A) → length xs ≤ n → drop n xs ≡ []
  drop_all zero [] h = refl
  drop_all zero (x ∷ xs) h = elim h [ ]
  drop_all (suc n) [] h = refl
  drop_all (suc n) (x ∷ xs) h = drop_all n xs (omega arith)

module _ {ℓ} {A : Type ℓ} (p : A → Bool) where
  pub filter-append : (xs ys : List A) → filter p (xs ++ ys) ≡ filter p xs ++ filter p ys
  filter-append [] ys = refl
  filter-append (x ∷ xs) ys = ground (arith, filter-append xs ys)

  pub filter-filter : (xs : List A) → filter p (filter p xs) ≡ filter p xs
  filter-filter [] = refl
  filter-filter (x ∷ xs) = ground (arith, filter-filter xs)

  abbrev pub reject : List A → List A
  reject = filter (λ x. not (p x))

  pub filter-reject : (xs : List A) → filter p (reject xs) ≡ []
  filter-reject [] = refl
  filter-reject (x ∷ xs) = ground (arith, filter-reject xs)

  pub reject-filter : (xs : List A) → reject (filter p xs) ≡ []
  reject-filter [] = refl
  reject-filter (x ∷ xs) = ground (arith, reject-filter xs)

  pub reject-reject : (xs : List A) → reject (reject xs) ≡ reject xs
  reject-reject [] = refl
  reject-reject (x ∷ xs) = ground (arith, reject-reject xs)

  pub reject-append : (xs ys : List A) → reject (xs ++ ys) ≡ reject xs ++ reject ys
  reject-append [] ys = refl
  reject-append (x ∷ xs) ys = ground (arith, reject-append xs ys)

  pub filter-append-reject-perm : (xs : List A) → Perm (filter p xs ++ reject xs) xs
  filter-append-reject-perm [] = Perm.refl []
  filter-append-reject-perm (x ∷ xs) = elim (Bool-cases (p x)) [
    | inl e ↦ rw e (Perm.cons x (filter-append-reject-perm xs))
    | inr e ↦ rw e (
        Perm.trans (perm_middle (filter p xs) (reject xs))
          (Perm.cons x (filter-append-reject-perm xs)))
  ]

  pub reject-append-filter-perm : (xs : List A) → Perm (reject xs ++ filter p xs) xs
  reject-append-filter-perm [] = Perm.refl []
  reject-append-filter-perm (x ∷ xs) = elim (Bool-cases (p x)) [
    | inl e ↦ rw e (
        Perm.trans (perm_middle (reject xs) (filter p xs))
          (Perm.cons x (reject-append-filter-perm xs)))
    | inr e ↦ rw e (Perm.cons x (reject-append-filter-perm xs))
  ]
