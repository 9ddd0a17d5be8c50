-- ===== src/SarifMatcher/Collects.antt =====
-- What a loop collects that lists at most one thing of each element, for
-- orchestrator/src/buttercup/orchestrator/scheduler/sarif_matcher.py.
use buttercup.Prelude.{◌≡◌, refl, sym, ap, subst, List, [], ◌∷◌, ◌++◌, inl, inr, ◌⊎◌}

module _ {A B : Type 0} (R : A → B → Type 0) where
  -- One element gives what is listed of it, at most one.
  pub data Gives (a : A) : List B → Type 0 where
    gives : (b : B) → R a b → Gives a (b ∷ [])
    gives_none : ((b : B) → R a b → ⊥) → Gives a []

  -- The list has, in order, what each element gives, and nothing of those that give nothing.
  abbrev pub Collects : List A → List B → Type 0
  Collects [] bs = bs ≡ []
  Collects (a ∷ rest) bs =
      ((b : B) × (bs' : List B) × (bs ≡ b ∷ bs') × R a b × Collects rest bs')
      ⊎ (((b : B) → R a b → ⊥) × Collects rest bs)

  pub Collects-cons :
      (a : A) (rest : List A) (l bs : List B)
      → Gives a l
      → Collects rest bs
      → Collects (a ∷ rest) (l ++ bs)
  Collects-cons a rest _ bs (gives b h) c = inl (b, bs, refl, h, c)
  Collects-cons a rest _ bs (gives_none h) c = inr (h, c)

  pub Collects-append :
      (xs ys : List A) (l bs : List B)
      → Collects xs l
      → Collects ys bs
      → Collects (xs ++ ys) (l ++ bs)
  Collects-append [] ys l bs h c = subst (λ l. Collects ys (l ++ bs)) (sym h) c
  Collects-append (x ∷ xs) ys l bs (inl (b, l', e, r, h)) c =
      inl (b, l' ++ bs, ap (λ l. l ++ bs) e, r, Collects-append xs ys l' bs h c)
  Collects-append (x ∷ xs) ys l bs (inr (n, h)) c = inr (n, Collects-append xs ys l bs h c)
