-- ===== src/Common/Dict.antt =====
-- Python's `dict` with text keys, in insertion order: `d[k] = v` keeps the place of a key that is
-- there, and appends a new one.
use Prim.Native.Nat.{ℕ, ◌+◌, ◌≤◌}
use mathlib.Core.Path.{◌≡◌, refl, sym}
use mathlib.Core.Logic.{◌⊎◌, inl, inr}
use mathlib.Core.List.{List, [], ◌∷◌, map}
use mathlib.Core.Option.{Option, none, some}
use native.Mathlib.Omega.{arith}
use privy_gate.Common.Tests.{Bool-cases, if◌then◌else◌}
use privy_gate.Common.Lists.{length}
use privy_gate.Common.Strings.{Text, text_eq, text_eq_iff}

abbrev pub Dict {ℓ} : Type ℓ → Type ℓ
Dict V = List (Text × V)

module _ {ℓ} {V : Type ℓ} where
  -- d.get(k)
  unfoldable pub get : Text → Dict V → Option V
  get k [] = none
  get k ((j, v) ∷ d) = if text_eq j k then some v else get k d

  -- d[k] = v
  unfoldable pub put : Text → V → Dict V → Dict V
  put k v [] = (k, v) ∷ []
  put k v ((j, w) ∷ d) = if text_eq j k then (j, v) ∷ d else (j, w) ∷ put k v d

  -- d.pop(k, None)
  unfoldable pub remove : Text → Dict V → Dict V
  remove k [] = []
  remove k ((j, v) ∷ d) = let rest = remove k d in if text_eq j k then rest else (j, v) ∷ rest

  abbrev pub keys : Dict V → List Text
  keys = map (λ e. e.0)

  -- No key stands twice, as in every `dict`.
  abbrev pub IsUnique : Dict V → Type ℓ
  IsUnique [] = Unit
  IsUnique ((k, v) ∷ d) = (get k d ≡ none) × IsUnique d

  pub get-put :
      (j k : Text) (v : V) (d : Dict V)
      → get j (put k v d) ≡ (if text_eq k j then some v else get j d)
  unfolding get put
  get-put j k v [] = refl
  get-put j k v ((i, w) ∷ d) =
      ground (arith, get-put j k v d, text_eq_iff k j, text_eq_iff i j, text_eq_iff i k)

  -- What is found after a write is the new value, or was there.
  pub get-put_inv :
      (j k : Text) (v : V) (d : Dict V) {w : V}
      → get j (put k v d) ≡ some w
      → ((j ≡ k) × (w ≡ v)) ⊎ (get j d ≡ some w)
  get-put_inv j k v d {w} h = elim (Bool-cases (text_eq k j)) [
    | inl same ↦ inl (sym ((text_eq_iff k j).0 same), ground (arith, get-put j k v d))
    | inr differs ↦ inr (ground (arith, get-put j k v d))
  ]

  pub get-remove :
      (j k : Text) (d : Dict V) → get j (remove k d) ≡ (if text_eq k j then none else get j d)
  unfolding get remove
  get-remove j k [] = ground arith
  get-remove j k ((i, w) ∷ d) =
      ground (arith, get-remove j k d, text_eq_iff k j, text_eq_iff i j, text_eq_iff i k)

  pub remove-IsUnique : (k : Text) (d : Dict V) → IsUnique d → IsUnique (remove k d)
  unfolding remove
  remove-IsUnique k [] u = u
  remove-IsUnique k ((i, w) ∷ d) u = ground (arith, get-remove i k d, remove-IsUnique k d u.1)

  pub put-IsUnique : (k : Text) (v : V) (d : Dict V) → IsUnique d → IsUnique (put k v d)
  unfolding get put
  put-IsUnique k v [] u = (refl, u)
  put-IsUnique k v ((i, w) ∷ d) u =
      ground (arith, get-put i k v d, text_eq_iff i k, text_eq_iff k i, put-IsUnique k v d u.1)

  pub remove_absent : (k : Text) (d : Dict V) → get k d ≡ none → remove k d ≡ d
  unfolding get remove
  remove_absent k [] h = refl
  remove_absent k ((i, w) ∷ d) h = ground (arith, remove_absent k d)

-- What a dictionary weighs: the sum of a measure over its values.
module _ {ℓ} {V : Type ℓ} (weight : V → ℕ) where
  unfoldable pub total : Dict V → ℕ
  total [] = 0
  total ((k, v) ∷ d) = weight v + total d

  pub total-remove :
      (k : Text) (d : Dict V) {v : V}
      → IsUnique d
      → get k d ≡ some v
      → total (remove k d) + weight v ≡ total d
  unfolding get remove total
  total-remove k [] u h = cc
  total-remove k ((i, w) ∷ d) {v} u h =
      ground (arith, total-remove k d {v = v} u.1, text_eq_iff i k, remove_absent k d)

  pub total-put_new :
      (k : Text) (v : V) (d : Dict V) → get k d ≡ none → total (put k v d) ≡ total d + weight v
  unfolding get put total
  total-put_new k v [] h = omega arith
  total-put_new k v ((i, w) ∷ d) h = ground (arith, total-put_new k v d)

  pub total-put_old :
      (k : Text) (v : V) (d : Dict V) {w : V}
      → get k d ≡ some w
      → total (put k v d) + weight w ≡ total d + weight v
  unfolding get put total
  total-put_old k v [] h = cc
  total-put_old k v ((i, w) ∷ d) {w = old} h = ground (arith, total-put_old k v d {w = old})

module _ {ℓ} {V : Type ℓ} where
  pub length-put_new :
      (k : Text) (v : V) (d : Dict V) → get k d ≡ none → length (put k v d) ≡ length d + 1
  unfolding get put
  length-put_new k v [] h = omega arith
  length-put_new k v ((i, w) ∷ d) h = ground (arith, length-put_new k v d)

  pub length-put_old :
      (k : Text) (v : V) (d : Dict V) {w : V} → get k d ≡ some w → length (put k v d) ≡ length d
  unfolding get put
  length-put_old k v [] h = cc
  length-put_old k v ((i, w) ∷ d) {w = old} h = ground (arith, length-put_old k v d {w = old})

  pub length-remove :
      (k : Text) (d : Dict V) {v : V}
      → IsUnique d
      → get k d ≡ some v
      → length (remove k d) + 1 ≡ length d
  unfolding get remove
  length-remove k [] u h = cc
  length-remove k ((i, w) ∷ d) {v} u h =
      ground (arith, length-remove k d {v = v} u.1, text_eq_iff i k, remove_absent k d)

  pub length-remove-le : (k : Text) (d : Dict V) → length (remove k d) ≤ length d
  unfolding remove
  length-remove-le k [] = omega arith
  length-remove-le k ((i, w) ∷ d) = ground (arith, length-remove-le k d)
