-- ===== src/Common/Fields.antt =====
-- What `item.get(key)` finds in an object of a JSON file, and the last entry of a list with a
-- property.
use mathlib.Core.Path.{◌≡◌}
use mathlib.Core.Logic.{◌⊎◌}
use privy_gate.Common.Lists.{All}
use mathlib.Core.List.{List, [], ◌∷◌}

pub data Field (A : Type 0) : Type 0 where
  absent null : Field A
  given : A → Field A

module _ {A : Type 0} (P : A → Type 0) where
  abbrev pub NoneOf : List A → Type 0
  NoneOf = All (λ x. ¬ P x)

  abbrev pub IsLast : A → List A → Type 0
  IsLast y [] = ⊥
  IsLast y (x ∷ xs) = ((x ≡ y) × P x × NoneOf xs) ⊎ IsLast y xs
