-- ===== src/Common/Access.antt =====
-- Reading a list after a write, and after an entry is put behind it.
use Prim.Native.Nat.{ℕ, zero, suc, ◌<◌}
use mathlib.Core.Path.{◌≡◌, refl, ap}
use mathlib.Core.Logic.{◌≢◌, ◌⊎◌, inl, inr}
use mathlib.Core.List.{List, [], ◌∷◌, ◌++◌}
use mathlib.Core.Option.{some}
use native.Mathlib.Omega.{arith}
use privy_gate.Common.Lists.{length, get_elem?, set}

module _ {A : Type 0} where
  pub get_elem?-set_other :
      (xs : List A) (i j : ℕ) (v : A) → i ≢ j → get_elem? (set xs i v) j ≡ get_elem? xs j
  get_elem?-set_other [] i j v h = refl
  get_elem?-set_other (x ∷ xs) zero zero v h = absurd (h refl)
  get_elem?-set_other (x ∷ xs) zero (suc j) v h = refl
  get_elem?-set_other (x ∷ xs) (suc i) zero v h = refl
  get_elem?-set_other (x ∷ xs) (suc i) (suc j) v h =
      get_elem?-set_other xs i j v (λ e. h (ap suc e))

  pub get_elem?-set_inv :
      (xs : List A) (i j : ℕ) (v : A) {x : A}
      → get_elem? (set xs i v) j ≡ some x
      → ((i ≡ j) × (v ≡ x)) ⊎ ((i ≢ j) × (get_elem? xs j ≡ some x))
  get_elem?-set_inv [] i j v h = absurd (ground arith)
  get_elem?-set_inv (y ∷ xs) zero zero v h = inl (refl, ground arith)
  get_elem?-set_inv (y ∷ xs) zero (suc j) v h = inr ((λ e. omega arith), h)
  get_elem?-set_inv (y ∷ xs) (suc i) zero v h = inr ((λ e. omega arith), h)
  get_elem?-set_inv (y ∷ xs) (suc i) (suc j) v {x} h = elim (get_elem?-set_inv xs i j v {x = x} h) [
    | inl (e, f) ↦ inl (ap suc e, f)
    | inr (e, f) ↦ inr ((λ g. e (omega arith)), f)
  ]

  pub get_elem?-append :
      (xs ys : List A) (i : ℕ) {x : A} → get_elem? xs i ≡ some x → get_elem? (xs ++ ys) i ≡ some x
  get_elem?-append [] ys i h = absurd (ground arith)
  get_elem?-append (y ∷ xs) ys zero h = h
  get_elem?-append (y ∷ xs) ys (suc i) {x} h = get_elem?-append xs ys i {x = x} h

  pub get_elem?-append_inv :
      (xs : List A) (v : A) (i : ℕ) {x : A}
      → get_elem? (xs ++ v ∷ []) i ≡ some x
      → (get_elem? xs i ≡ some x) ⊎ ((i ≡ length xs) × (v ≡ x))
  get_elem?-append_inv [] v zero h = inr (refl, ground arith)
  get_elem?-append_inv [] v (suc i) h = absurd (ground arith)
  get_elem?-append_inv (y ∷ xs) v zero h = inl h
  get_elem?-append_inv (y ∷ xs) v (suc i) {x} h = elim (get_elem?-append_inv xs v i {x = x} h) [
    | inl there ↦ inl there
    | inr (e, f) ↦ inr (ap suc e, f)
  ]

  pub get_elem?-lt : (xs : List A) (i : ℕ) {x : A} → get_elem? xs i ≡ some x → i < length xs
  get_elem?-lt [] i h = absurd (ground arith)
  get_elem?-lt (x ∷ xs) zero h = omega arith
  get_elem?-lt (x ∷ xs) (suc i) {x = y} h = omega (arith, get_elem?-lt xs i {x = y} h)
