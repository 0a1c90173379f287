-- ===== src/Regex/Classes.antt =====
-- Character classes and literals, as the patterns write them.
use privy_gate.Common.{ℕ, Bool, false, ◌&&◌, ◌||◌, List, [], ◌∷◌, Text, leb, ◌==◌, any}
use privy_gate.Regex.{Chars, Regex, nothing, one_of, sequence, either, at_least, between}

-- Of the characters of a text, and from one to another.
abbrev pub among : Text → ℕ → Bool
among s c = any (λ x. x == c) s

abbrev pub from_to : ℕ → ℕ → ℕ → Bool
from_to low high c = leb low c && leb c high

infixl 60 ◌or◌
abbrev pub ◌or◌ : (ℕ → Bool) → (ℕ → Bool) → ℕ → Bool
(p or q) c = p c || q c

abbrev pub digit : ℕ → Bool
digit = from_to b'0' b'9'

abbrev pub lower : ℕ → Bool
lower = from_to b'a' b'z'

abbrev pub upper : ℕ → Bool
upper = from_to b'A' b'Z'

-- [а-яё] and [А-ЯЁ]
abbrev pub cyrillic_lower : ℕ → Bool
cyrillic_lower = from_to 1072 1103 or (λ c. c == 1105)

abbrev pub cyrillic_upper : ℕ → Bool
cyrillic_upper = from_to 1040 1071 or (λ c. c == 1025)

-- A class under re.IGNORECASE.
abbrev pub ignore_case : Chars → (ℕ → Bool) → ℕ → Bool
ignore_case u p c = p c || any p (u.variants c)

abbrev pub char : ℕ → Regex
char x = one_of (λ c. x == c)

abbrev pub literal : Text → Regex
literal [] = nothing
literal (x ∷ s) = sequence (char x) (literal s)

-- A literal under re.IGNORECASE.
abbrev pub literal_ignoring : Chars → Text → Regex
literal_ignoring u [] = nothing
literal_ignoring u (x ∷ s) = sequence (one_of (ignore_case u (λ c. x == c))) (literal_ignoring u s)

-- r?
abbrev pub maybe : Regex → Regex
maybe r = between 0 1 r

abbrev pub exactly : ℕ → Regex → Regex
exactly n r = between n n r

-- The alternatives of a list, from left to right.
abbrev pub alternatives : List Regex → Regex
alternatives [] = one_of (λ c. false)
alternatives (r ∷ []) = r
alternatives (r ∷ s ∷ rs) = either r (alternatives (s ∷ rs))

infixr 55 ◌~◌
abbrev pub ◌~◌ : Regex → Regex → Regex
r ~ s = sequence r s

-- r* and r+
abbrev pub many : Regex → Regex
many r = at_least 0 r

abbrev pub one_or_more : Regex → Regex
one_or_more r = at_least 1 r
