-- ===== src/Prelude/Branch.antt =====
-- To prove something of a branching term, branch by branch.
use mathlib.Core.Path.{◌≡◌, refl}
use mathlib.Core.Bool.{Bool, true, false}
use mathlib.Core.List.{List, [], ◌∷◌}
use mathlib.Core.Option.{Option, none, some}
use buttercup.Prelude.Tests.{if◌then◌else◌}

module _ {ℓ κ} {A : Type ℓ} (P : A → Type κ) where
  pub if_ind : (b : Bool) {x y : A} → P x → P y → P (if b then x else y)
  if_ind true px py = px
  if_ind false px py = py

  -- The branches may use how the test came out.
  pub if_ind_eq :
      (b : Bool) {x y : A} → (b ≡ true → P x) → (b ≡ false → P y) → P (if b then x else y)
  if_ind_eq true px py = px refl
  if_ind_eq false px py = py refl

  pub bool_ind : (b : Bool) {x y : A} → P x → P y → P (elim b [ true ↦ x | false ↦ y ])
  bool_ind true px py = px
  bool_ind false px py = py

  pub option_ind {μ} :
      {B : Type μ} (o : Option B) {x : A} {f : B → A}
      → P x
      → ((b : B) → P (f b))
      → P (elim o [ none ↦ x | some b ↦ f b ])
  option_ind none px pf = px
  option_ind (some b) px pf = pf b

  pub option_ind_eq {μ} :
      {B : Type μ} (o : Option B) {x : A} {f : B → A}
      → (o ≡ none → P x)
      → ((b : B) → o ≡ some b → P (f b))
      → P (elim o [ none ↦ x | some b ↦ f b ])
  option_ind_eq none px pf = px refl
  option_ind_eq (some b) px pf = pf b refl

  pub list_ind {μ} :
      {B : Type μ} (xs : List B) {x : A} {f : B → List B → A}
      → P x
      → ((b : B) (bs : List B) → P (f b bs))
      → P (elim xs [ [] ↦ x | b ∷ bs ↦ f b bs ])
  list_ind [] px pf = px
  list_ind (b ∷ bs) px pf = pf b bs
