-- ===== src/Common/Search.antt =====
-- Python's `str.startswith`, `str.find` and slices at the end, and where a text occurs in another.
use Prim.Native.Nat.{ℕ, suc, ◌-◌, ◌≤◌}
use mathlib.Core.Path.{◌≡◌, refl, ap}
use mathlib.Core.Logic.{◌⊎◌, inl, inr}
use mathlib.Core.List.{[], ◌∷◌, ◌++◌}
use mathlib.Core.Bool.{Bool, true, false, ◌&&◌}
use mathlib.Core.Option
use mathlib.Core.Option.{Option, none, some}
use native.Mathlib.Omega.{arith}
use privy_gate.Common.Tests.{◌==◌, if◌then◌else◌, Bool-cases, Option-cases}
use privy_gate.Common.Lists.{length, drop, take}
use privy_gate.Common.Strings.{Text}

-- s.startswith(p)
unfoldable pub starts_with : Text → Text → Bool
starts_with [] s = true
starts_with (a ∷ p) [] = false
starts_with (a ∷ p) (b ∷ s) = a == b && starts_with p s

-- s.find(p), `none` for -1
unfoldable pub find : Text → Text → Option ℕ
find p [] = if starts_with p [] then some 0 else none
find p (c ∷ s) =
    let later = find p s in if starts_with p (c ∷ s) then some 0 else Option.map suc later

-- s[-n:] for 0 < n
abbrev pub last : ℕ → Text → Text
last n s = drop (length s - n) s

pub starts_with-append : (p r : Text) → starts_with p (p ++ r) ≡ true
unfolding starts_with
starts_with-append [] r = refl
starts_with-append (a ∷ p) r = ground (arith, starts_with-append p r)

pub starts_with-split : (p s : Text) → starts_with p s ≡ true → (r : Text) × (s ≡ p ++ r)
unfolding starts_with
starts_with-split [] s h = (s, refl)
starts_with-split (a ∷ p) [] h = cc
starts_with-split (a ∷ p) (b ∷ s) h =
    let (r, e) = starts_with-split p s (ground arith) in (r, ground arith)

pub starts_with_weaken : (p s t : Text) → starts_with p s ≡ true → starts_with p (s ++ t) ≡ true
unfolding starts_with
starts_with_weaken [] s t h = refl
starts_with_weaken (a ∷ p) [] t h = cc
starts_with_weaken (a ∷ p) (b ∷ s) t h = ground (arith, starts_with_weaken p s t)

-- Of two texts that begin the same text, one begins the other.
pub append_compare :
    (x q y z : Text) → x ++ y ≡ q ++ z → ((r : Text) × (x ≡ q ++ r)) ⊎ ((r : Text) × (q ≡ x ++ r))
append_compare [] q y z e = inr (q, refl)
append_compare (a ∷ x) [] y z e = inl (a ∷ x, refl)
append_compare (a ∷ x) (b ∷ q) y z e = elim (append_compare x q y z (ground arith)) [
  | inl (r, f) ↦ inl (r, ground arith)
  | inr (r, f) ↦ inr (r, ground arith)
]

-- Where `p` stands in a text, `find` finds it, there or before.
pub find-le : (p a r : Text) → (i : ℕ) × (find p (a ++ p ++ r) ≡ some i) × (i ≤ length a)
unfolding find starts_with
find-le [] [] [] = (0, refl, omega arith)
find-le [] [] (c ∷ r) = (0, refl, omega arith)
find-le (b ∷ p) [] r = (0, rw (starts_with-append (b ∷ p) r), omega arith)
find-le p (c ∷ a) r =
    let (i, e, h) = find-le p a r in
    elim (Bool-cases (starts_with p (c ∷ a ++ p ++ r))) [
      | inl here ↦ (0, rw here, omega arith)
      | inr later ↦ (suc i, rw (later, e), omega arith)
    ]

-- Where `find` finds `p`, it stands.
pub find-split :
    (p s : Text) {i : ℕ}
    → find p s ≡ some i
    → (a : Text) × (r : Text) × (s ≡ a ++ p ++ r) × (length a ≡ i)
unfolding find
find-split p [] {i} h = elim (Bool-cases (starts_with p [])) [
  | inl here ↦ let (r, e) = starts_with-split p [] here in ([], r, e, ground arith)
  | inr not_here ↦ absurd (ground arith)
]
find-split p (c ∷ s) {i} h = elim (Bool-cases (starts_with p (c ∷ s))) [
  | inl here ↦ let (r, e) = starts_with-split p (c ∷ s) here in ([], r, e, ground arith)
  | inr not_here ↦ elim (Option-cases (find p s)) [
    | inl nowhere ↦ absurd (ground arith)
    | inr (j, later) ↦
        let (a, r, e, n) = find-split p s later in (c ∷ a, r, ap (◌∷◌ c) e, ground arith)
  ]
]

pub drop-append : (a r : Text) → drop (length a) (a ++ r) ≡ r
drop-append [] r = refl
drop-append (c ∷ a) r = drop-append a r

pub take-append : (a r : Text) → take (length a) (a ++ r) ≡ a
take-append [] r = refl
take-append (c ∷ a) r = ap (◌∷◌ c) (take-append a r)
