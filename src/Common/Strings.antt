-- ===== src/Common/Strings.antt =====
-- Text as a list of Unicode scalar values: Python's `str` without lone surrogates (a request
-- body that holds one is refused before the code modelled here runs). Equality, the order of
-- `<` on `str`, UTF-8 lengths and decimal printing.
use Prim.Native.Char.{code}
use Prim.Native.String.{String}
use Prim.Native.Nat.{ℕ, zero, suc, ◌+◌, ◌/◌, ◌%◌}
use mathlib.Core.Path.{◌≡◌, refl}
use mathlib.Core.Logic.{◌↔◌, ◌⊎◌}
use mathlib.Core.List.{List, [], ◌∷◌, ◌++◌}
use mathlib.Core.Bool.{Bool, true, false, ◌&&◌, ◌||◌}
use native.Mathlib.Omega.{arith}
use privy_gate.Common.Tests.{ltb, ◌==◌, if◌then◌else◌}

abbrev pub Text : Type 0
Text = List ℕ

abbrev pub codes : String → Text
codes String.[] = []
codes (String.◌∷◌ c s) = code c ∷ codes s

unfoldable pub text_eq : Text → Text → Bool
text_eq [] [] = true
text_eq (a ∷ s) (b ∷ t) = a == b && text_eq s t
text_eq _ _ = false

pub text_eq_refl : (s : Text) → text_eq s s ≡ true
unfolding text_eq
text_eq_refl [] = refl
text_eq_refl (a ∷ s) = ground (arith, text_eq_refl s)

text_eq→eq : (s t : Text) → text_eq s t ≡ true → s ≡ t
unfolding text_eq
text_eq→eq [] [] h = refl
text_eq→eq (a ∷ s) (b ∷ t) h = ground (arith, text_eq→eq s t)
text_eq→eq [] (b ∷ t) h = cc
text_eq→eq (a ∷ s) [] h = cc

eq→text_eq : (s t : Text) → s ≡ t → text_eq s t ≡ true
eq→text_eq s t e = rw e (text_eq_refl t)

pub text_eq_iff : (s t : Text) → (text_eq s t ≡ true) ↔ (s ≡ t)
text_eq_iff s t = (text_eq→eq s t, eq→text_eq s t)

-- `s <= t` on `str`: lexicographic by code points.
unfoldable pub text_leb : Text → Text → Bool
text_leb [] t = true
text_leb (a ∷ s) [] = false
text_leb (a ∷ s) (b ∷ t) = ltb a b || (a == b && text_leb s t)

pub text_leb_total : (s t : Text) → (text_leb s t ≡ true) ⊎ (text_leb t s ≡ true)
unfolding text_leb
text_leb_total [] t = ground arith
text_leb_total (a ∷ s) [] = ground arith
text_leb_total (a ∷ s) (b ∷ t) = ground (arith, text_leb_total s t)

pub text_leb_trans :
    (r s t : Text) → text_leb r s ≡ true → text_leb s t ≡ true → text_leb r t ≡ true
unfolding text_leb
text_leb_trans [] s t p q = refl
text_leb_trans (a ∷ r) [] t p q = cc
text_leb_trans (a ∷ r) (b ∷ s) [] p q = cc
text_leb_trans (a ∷ r) (b ∷ s) (c ∷ t) p q = ground (arith, text_leb_trans r s t)

-- `len(s.encode("utf-8"))`.
code_bytes : ℕ → ℕ
code_bytes c = if ltb c 0x80 then 1 else if ltb c 0x800 then 2 else if ltb c 0x1_0000 then 3 else 4

unfoldable pub utf8_length : Text → ℕ
unfolding code_bytes
utf8_length [] = 0
utf8_length (c ∷ s) = code_bytes c + utf8_length s

-- `str(n)` of a natural number, by its last digit; the fuel `n + 1` is more than the digits.
unfoldable pub digits : ℕ → ℕ → Text
digits zero n = []
digits (suc f) n =
    let rest = digits f (n / 10) in
    if ltb n 10 then (b'0' + n) ∷ [] else rest ++ (b'0' + n % 10) ∷ []

unfoldable pub print_nat : ℕ → Text
unfolding digits
print_nat n = digits (suc n) n

print_nat_1024 : print_nat 1024 ≡ codes "1024"
unfolding print_nat
print_nat_1024 = refl
