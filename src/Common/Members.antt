-- ===== src/Common/Members.antt =====
-- Members of a list: what is filtered, what holds of all, and a sorted insertion.
use mathlib.Core.Path.{◌≡◌, refl}
use mathlib.Core.Logic.{inl, inr}
use mathlib.Core.List.{List, [], ◌∷◌}
use mathlib.Core.Bool.{Bool, true}
use privy_gate.Common.Tests.{Bool-cases}
use privy_gate.Common.Lists.{In, All, keep_if, insert_by}

module _ {A : Type 0} where
  In-kept :
      (f : A → Bool) (x m : A) (xs : List A)
      → (In m (keep_if f xs) → In m xs × (f m ≡ true))
      → f x ≡ true
      → In m (x ∷ keep_if f xs)
      → In m (x ∷ xs) × (f m ≡ true)
  In-kept f x m xs later e (inl same) = (inl same, rw same e)
  In-kept f x m xs later e (inr j) = let (k, h) = later j in (inr k, h)

  pub In-keep_if :
      (f : A → Bool) (xs : List A) (m : A) → In m (keep_if f xs) → In m xs × (f m ≡ true)
  In-keep_if f [] m i = absurd i
  In-keep_if f (x ∷ xs) m i = elim (Bool-cases (f x)) [
    | inl e ↦ In-kept f x m xs (λ j. In-keep_if f xs m j) e (rw e at i)
    | inr e ↦ let (j, h) = In-keep_if f xs m (rw e at i) in (inr j, h)
  ]

  pub keep_if-In : (f : A → Bool) (xs : List A) (m : A) → In m xs → f m ≡ true → In m (keep_if f xs)
  keep_if-In f [] m i h = absurd i
  keep_if-In f (x ∷ xs) m (inl e) h = let first : f x ≡ true = rw (← e) h in rw first (inl e)
  keep_if-In f (x ∷ xs) m (inr i) h =
      let later = keep_if-In f xs m i h in
      elim (Bool-cases (f x)) [ inl e ↦ rw e (inr later) | inr e ↦ rw e later ]

  pub All-In : (P : A → Type 0) (xs : List A) (m : A) → All P xs → In m xs → P m
  All-In P [] m a i = absurd i
  All-In P (x ∷ xs) m a (inl e) = rw e a.0
  All-In P (x ∷ xs) m a (inr i) = All-In P xs m a.1 i

  pub In-All : (P : A → Type 0) (xs : List A) → ((m : A) → In m xs → P m) → All P xs
  In-All P [] h = tt
  In-All P (x ∷ xs) h = (h x (inl refl), In-All P xs (λ m i. h m (inr i)))

module _ {A : Type 0} (le : A → A → Bool) where
  pub insert_by_self : (m : A) (xs : List A) → In m (insert_by le m xs)
  unfolding insert_by
  insert_by_self m [] = inl refl
  insert_by_self m (x ∷ xs) = elim (Bool-cases (le x m)) [
    | inl before ↦ rw before (inr (insert_by_self m xs))
    | inr after ↦ rw after (inl refl)
  ]

  pub insert_by_other : (m k : A) (xs : List A) → In k xs → In k (insert_by le m xs)
  unfolding insert_by
  insert_by_other m k [] i = absurd i
  insert_by_other m k (x ∷ xs) i = elim (Bool-cases (le x m)) [
    | inr after ↦ rw after (inr i)
    | inl before ↦ elim i [
      | inl e ↦ rw before (inl e)
      | inr i ↦ rw before (inr (insert_by_other m k xs i))
    ]
  ]
