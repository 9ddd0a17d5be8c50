-- ===== src/Outcome.antt =====
-- Python calls that may raise. Every handler of the modelled code catches `Exception`, so the model
-- tells only whether a call raised. What was written before the raise stays written: the state comes
-- back beside the result on both paths.

pub data Result {ℓ} (A : Type ℓ) : Type ℓ where
  ok : A → Result A
  raised : Result A

-- A call that works on a state.
abbrev pub Action {ℓ} : Type ℓ → Type ℓ → Type ℓ
Action S A = S → Result A × S

module _ {ℓ} {S A : Type ℓ} where
  abbrev pub pure : A → Action S A
  pure a s = (ok a, s)

  abbrev pub raise : Action S A
  raise s = (raised, s)

module _ {ℓ} {S A B : Type ℓ} where
  abbrev pub continue : Result A → (A → Action S B) → Action S B
  continue (ok a) f s = f a s
  continue raised f s = (raised, s)

  infixl 10 ◌>>=◌
  abbrev pub ◌>>=◌ : Action S A → (A → Action S B) → Action S B
  ◌>>=◌ m f s = let (r, s') = m s in continue r f s'

-- To prove something of a branch on a result.
pub result_ind {ℓ κ μ} :
    {A : Type ℓ} (P : A → Type κ) {B : Type μ} (r : Result B) {x : A} {f : B → A}
    → P x
    → ((b : B) → P (f b))
    → P (elim r [ raised ↦ x | ok b ↦ f b ])
result_ind P raised px pf = px
result_ind P (ok b) px pf = pf b
