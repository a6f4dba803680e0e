-- ===== src/Common/Maps.antt =====
-- Go's maps as association lists over any key with an equality.
use mathlib.Core.Path.{◌≡◌, refl}
use mathlib.Core.Option.{Option, none, some}
use mathlib.Core.List.{List, [], ◌∷◌}
use native.Mathlib.Omega.{arith}
use container_cloudlet.Common.Tests.{Eq, ◌==◌, if◌then◌else◌}

abbrev pub Map {ℓ κ} : Type ℓ → Type κ → Type (ℓ ⊔ κ)
Map K V = List (K × V)

module _ {ℓ κ} {K : Type ℓ} {V : Type κ} ⦃e : Eq K⦄ where
  unfoldable pub lookup : K → Map K V → Option V
  lookup x [] = none
  lookup x ((y, v) ∷ rest) = if y == x then some v else lookup x rest

  -- In place of an old entry, or at the end.
  unfoldable pub insert : K → V → Map K V → Map K V
  insert x v [] = (x, v) ∷ []
  insert x v ((y, old) ∷ rest) =
      let below = insert x v rest in if y == x then (x, v) ∷ rest else (y, old) ∷ below

  unfoldable pub delete : K → Map K V → Map K V
  delete x [] = []
  delete x ((y, v) ∷ rest) = let below = delete x rest in if y == x then below else (y, v) ∷ below

  pub lookup-insert :
      (x z : K) (v : V) (m : Map K V)
      → lookup z (insert x v m) ≡ (if x == z then some v else lookup z m)
  unfolding lookup insert
  lookup-insert x z v [] = refl
  lookup-insert x z v ((y, old) ∷ rest) =
      let tail = lookup-insert x z v rest in
      ground (arith, e.equal_iff x z, e.equal_iff y x, e.equal_iff y z)

  pub lookup-delete :
      (x z : K) (m : Map K V) → lookup z (delete x m) ≡ (if x == z then none else lookup z m)
  unfolding lookup delete
  lookup-delete x z [] = ground arith
  lookup-delete x z ((y, v) ∷ rest) =
      let tail = lookup-delete x z rest in
      ground (arith, e.equal_iff x z, e.equal_iff y x, e.equal_iff y z)
