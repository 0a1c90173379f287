-- ===== src/Mask/Typed.antt =====
-- The typed placeholders of `_placeholder`, for each type and number.
use privy_gate.Common.{
  ℕ, zero, suc, ◌+◌, ◌-◌, ◌*◌, ◌/◌, ◌%◌, ◌<◌, ◌≡◌, ◌≢◌, refl, sym, ◌∙◌, ap, inl, inr, [], ◌∷◌, ◌++◌,
  append_assoc, Text, codes, arith, ltb, All, All-append, Bool-cases, digits, print_nat, length,
  length-append, tests,
}
use privy_gate.Mask.{typed_value}

-- The number that a text of digits stands for.
read : ℕ → Text → ℕ
read n [] = n
read n (c ∷ s) = read (n * 10 + (c - b'0')) s

read_last : (n : ℕ) (s : Text) (c : ℕ) → read n (s ++ c ∷ []) ≡ read n s * 10 + (c - b'0')
unfolding read
read_last n [] c = refl
read_last n (x ∷ s) c = read_last (n * 10 + (x - b'0')) s c

read-digits : (f n : ℕ) → n < f → read 0 (digits f n) ≡ n
unfolding read digits
read-digits zero n h = absurd (omega arith)
read-digits (suc f) n h = elim (Bool-cases (ltb n 10)) [
  | inl one ↦ rw one (omega arith)
  | inr more ↦ rw more (
      read_last 0 (digits f (n / 10)) (b'0' + n % 10)
      ∙ omega (tests, read-digits f (n / 10) (omega tests)))
]

pub print_nat-injective : (i j : ℕ) → print_nat i ≡ print_nat j → i ≡ j
unfolding print_nat
print_nat-injective i j e =
    sym (read-digits (suc i) i (omega arith)) ∙ ap (read 0) e ∙ read-digits (suc j) j (omega arith)

abbrev pub underscore : ℕ
underscore = b'_'

abbrev pub IsPlain : Text → Type 0
IsPlain = All (λ c. c ≢ underscore)

digits-IsPlain : (f n : ℕ) → IsPlain (digits f n)
unfolding digits
digits-IsPlain zero n = tt
digits-IsPlain (suc f) n = elim (Bool-cases (ltb n 10)) [
  | inl one ↦ rw one (λ e. omega tests, tt)
  | inr more ↦ rw more (
      All-append (λ c. c ≢ underscore) (digits f (n / 10)) ((b'0' + n % 10) ∷ [])
        (digits-IsPlain f (n / 10)) (λ e. omega arith, tt))
]

not-IsPlain : (r s : Text) → IsPlain (r ++ underscore ∷ s) → ⊥
not-IsPlain [] s h = h.0 refl
not-IsPlain (c ∷ r) s h = not-IsPlain r s h.1

-- What stands before the last underscore, and after it.
last_underscore :
    (t u d e : Text)
    → IsPlain d
    → IsPlain e
    → t ++ underscore ∷ d ≡ u ++ underscore ∷ e
    → (t ≡ u) × (d ≡ e)
last_underscore [] [] d e p q h = (refl, ground arith)
last_underscore [] (c ∷ u) d e p q h =
    let tail : d ≡ u ++ underscore ∷ e = ground arith in absurd (not-IsPlain u e (rw tail at p))
last_underscore (c ∷ t) [] d e p q h =
    let tail : e ≡ t ++ underscore ∷ d = ground arith in absurd (not-IsPlain t d (rw tail at q))
last_underscore (c ∷ t) (x ∷ u) d e p q h =
    let (f, g) = last_underscore t u d e p q (ground arith) in (ground arith, g)

append_cancel : (s t r : Text) → s ++ r ≡ t ++ r → s ≡ t
append_cancel [] [] r h = refl
append_cancel [] (c ∷ t) r h = absurd (omega (arith, ap length h, length-append t r))
append_cancel (c ∷ s) [] r h = absurd (omega (arith, ap length h, length-append s r))
append_cancel (c ∷ s) (x ∷ t) r h = ground (arith, append_cancel s t r)

regroup : (t d e : Text) → t ++ (codes "_" ++ (d ++ e)) ≡ (t ++ underscore ∷ d) ++ e
regroup t d e = sym (append_assoc t (underscore ∷ d) e)

-- Two typed placeholders are equal only if their types and their numbers are.
pub typed_value-injective :
    (t u : Text) (i j : ℕ) → typed_value t i ≡ typed_value u j → (t ≡ u) × (i ≡ j)
unfolding typed_value
typed_value-injective t u i j h =
    let tails : t ++ (codes "_" ++ (print_nat i ++ codes "__"))
        ≡ u ++ (codes "_" ++ (print_nat j ++ codes "__")) =
      ground arith in
    let whole =
      sym (regroup t (print_nat i) (codes "__")) ∙ tails ∙ regroup u (print_nat j) (codes "__") in
    let (types, numbers) =
      last_underscore t u (print_nat i) (print_nat j) (unfold print_nat in digits-IsPlain (suc i) i)
        (unfold print_nat in digits-IsPlain (suc j) j) (append_cancel _ _ (codes "__") whole) in
    (types, print_nat-injective i j numbers)

-- A typed placeholder begins with an underscore.
pub typed_value-cons : (t : Text) (i : ℕ) → (r : Text) × (typed_value t i ≡ underscore ∷ r)
unfolding typed_value
typed_value-cons t i = (codes "_PII_" ++ (t ++ (codes "_" ++ (print_nat i ++ codes "__"))), refl)
