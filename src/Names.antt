-- ===== src/Names.antt =====
-- app/pii.py: the tests of names, and Python's `split` and `join` of words.
--
-- The sets of app/data/russian_names.py are the tests of a
-- record; the set of known persons is the table of the code.
pub mod Known
pub mod Words
use privy_gate.Common.{
  ℕ, ◌-◌, Bool, true, false, ◌&&◌, ◌||◌, List, [], ◌∷◌, ◌++◌, Option, none, some, Text, codes,
  length, take, last, map, any, text_eq, starts_with, leb, if◌then◌else◌,
}
use privy_gate.Regex.{Chars, casefold}
use privy_gate.Regex.Classes.{among}
use privy_gate.Names.Known.{known_persons}

pub record NameSets : Type 0 where
  pub is_first_name : Text → Bool
  pub is_patronymic : Text → Bool
  pub in_surnames : Text → Bool

-- A word before the words of a list, unless it is empty.
abbrev pub add_word : Text → List Text → List Text
add_word [] ws = ws
add_word (c ∷ w) ws = (c ∷ w) ∷ ws

-- The characters before the first space, and the words behind it.
unfoldable pub split_from : (ℕ → Bool) → Text → Text × List Text
split_from is_space [] = ([], [])
split_from is_space (c ∷ s) =
    let (w, ws) = split_from is_space s in if is_space c then ([], add_word w ws) else (c ∷ w, ws)

-- s.split()
abbrev pub split : Chars → Text → List Text
split u s = let (w, ws) = split_from u.is_space s in add_word w ws

-- " ".join(words)
unfoldable pub join : List Text → Text
join [] = []
join (w ∷ []) = w
join (w ∷ v ∷ ws) = w ++ b' ' ∷ join (v ∷ ws)

abbrev pub ends_with : Text → Text → Bool
ends_with p s = text_eq p (last (length p) s)

unfoldable pub is_known_person : Chars → Text → Bool
is_known_person u value =
    let normalized = join (split u (casefold u value)) in
    any (λ p. text_eq p normalized) known_persons
    || any (λ p. among p b' ' && (ends_with p normalized || starts_with p normalized)) known_persons

unfoldable pub is_surname : NameSets → Text → Bool
is_surname n token =
    if n.in_surnames token
    then true
    else (ends_with (codes "а") token || ends_with (codes "я") token)
      && n.in_surnames (take (length token - 1) token)

-- Of the casefolded tokens.
unfoldable pub is_full : NameSets → List Text → Bool
is_full n [] = false
is_full n (a ∷ []) = false
is_full n (a ∷ b ∷ []) =
    (n.is_first_name a && is_surname n b) || (is_surname n a && n.is_first_name b)
is_full n (a ∷ b ∷ c ∷ []) =
    if is_surname n a && (n.is_first_name b && n.is_patronymic c)
    then true
    else n.is_first_name a && (n.is_patronymic b && is_surname n c)
is_full n (a ∷ b ∷ c ∷ d ∷ ts) = false

abbrev pub is_full_name : Chars → NameSets → List Text → Bool
is_full_name u n tokens = is_full n (map (casefold u) tokens)

unfoldable pub has_name_component : Chars → NameSets → List Text → Bool
has_name_component u n tokens =
    any (λ t. n.is_first_name t || n.is_patronymic t) (map (casefold u) tokens)

-- The spans of `count` tokens, from left to right.
unfoldable pub spans_of : ℕ → List Text → List (List Text)
spans_of count [] = []
spans_of count (t ∷ ts) =
    let rest = spans_of count ts in
    if leb count (length (t ∷ ts)) then take count (t ∷ ts) ∷ rest else []

unfoldable pub first_such : (List Text → Bool) → List (List Text) → Option (List Text)
first_such p [] = none
first_such p (x ∷ xs) = let rest = first_such p xs in if p x then some x else rest
