-- ===== src/Regex.antt =====
-- What the detectors use of Python's `re` and of the Unicode properties of characters.
--
-- A pattern is a `Regex`; `run` gives the ways to match it from a cursor, in the order in which
-- a backtracking matcher tries them, so that the first is Python's. A repetition without a bound
-- ends with the text. `finditer` goes on behind each match, and tries no match at the end of the
-- text: no pattern of the program matches the empty text. The properties of characters are tables
-- of the language that the theorems leave open: they are the record `Chars`.
pub mod Classes
pub mod Cursors
pub mod Places
use privy_gate.Common.{
  ℕ, zero, suc, ◌-◌, Bool, true, false, not, ◌&&◌, ◌||◌, List, [], ◌∷◌, ◌++◌, Option, none, some,
  Text, length, take, drop, map, if◌then◌else◌,
}
use privy_gate.Common.Dict
use privy_gate.Common.Dict.{Dict}

pub record Chars : Type 0 where
  -- `str.casefold` of one character, and the characters that re.IGNORECASE takes for it.
  pub fold_char : ℕ → Text
  pub variants : ℕ → List ℕ
  pub is_alpha : ℕ → Bool
  pub is_digit : ℕ → Bool
  pub is_space : ℕ → Bool
  pub is_upper : ℕ → Bool
  pub is_word : ℕ → Bool

-- s.casefold()
unfoldable pub casefold : Chars → Text → Text
casefold u [] = []
casefold u (c ∷ s) = u.fold_char c ++ casefold u s

pub data Regex : Type 0 where
  nothing : Regex
  one_of : (ℕ → Bool) → Regex
  sequence : Regex → Regex → Regex
  either : Regex → Regex → Regex
  -- {least,} and {least,most}, greedy.
  at_least : ℕ → Regex → Regex
  between : ℕ → ℕ → Regex → Regex
  group : Text → Regex → Regex
  -- (?<![...]) and (?![...]), and \b.
  not_behind : (ℕ → Bool) → Regex
  not_ahead : (ℕ → Bool) → Regex
  word_boundary : (ℕ → Bool) → Regex

-- A place in the text: the character before it, what is left, and the groups matched so far,
-- the last one first.
pub record Cursor : Type 0 where
  pub behind : Option ℕ
  pub position : ℕ
  pub rest : Text
  pub groups : Dict (ℕ × ℕ)

module _ {A B : Type 0} where
  abbrev pub bind : List A → (A → List B) → List B
  bind [] f = []
  bind (x ∷ xs) f = f x ++ bind xs f

-- Past one character, if it passes the test.
unfoldable pub advance : (ℕ → Bool) → Text → Cursor → List Cursor
advance p [] c = []
advance p (x ∷ s) c =
    if p x then record c { behind = some x; position = suc c.position; rest = s } ∷ [] else []

abbrev pub test_of : (ℕ → Bool) → Option ℕ → Bool
test_of p none = false
test_of p (some x) = p x

abbrev pub head_of : Text → Option ℕ
head_of [] = none
head_of (x ∷ s) = some x

abbrev pub only_if : Bool → Cursor → List Cursor
only_if true c = c ∷ []
only_if false c = []

unfoldable pub times : ℕ → (Cursor → List Cursor) → Cursor → List Cursor
times zero step c = c ∷ []
times (suc n) step c = bind (step c) (times n step)

unfoldable pub optional : ℕ → (Cursor → List Cursor) → Cursor → List Cursor
optional zero step c = c ∷ []
optional (suc n) step c = bind (step c) (optional n step) ++ c ∷ []

abbrev pub note : Text → ℕ → Cursor → Cursor
note name start c = record c { groups = (name, (start, c.position)) ∷ c.groups }

unfoldable pub run : Regex → Cursor → List Cursor
run nothing c = c ∷ []
run (one_of p) c = advance p c.rest c
run (sequence r s) c = bind (run r c) (run s)
run (either r s) c = run r c ++ run s c
run (at_least least r) c = bind (times least (run r) c) (optional (length c.rest) (run r))
run (between least most r) c = bind (times least (run r) c) (optional (most - least) (run r))
run (group name r) c = map (note name c.position) (run r c)
run (not_behind p) c = only_if (not (test_of p c.behind)) c
run (not_ahead p) c = only_if (not (test_of p (head_of c.rest))) c
run (word_boundary p) c =
    let before = test_of p c.behind in
    let after = test_of p (head_of c.rest) in
    only_if ((before && not after) || (after && not before)) c

-- re.Match: `match.start()`, `match.end()` and the places of the named groups.
pub record Match : Type 0 where
  pub start : ℕ
  pub end : ℕ
  pub groups : Dict (ℕ × ℕ)

abbrev pub to_match : ℕ → Cursor → Match
to_match start c = record { start = start; end = c.position; groups = c.groups }

abbrev pub first_match : ℕ → List Cursor → Option Match
first_match start [] = none
first_match start (c ∷ cs) = some (to_match start c)

abbrev pub cursor_at : Option ℕ → ℕ → Text → Cursor
cursor_at behind position s = record { behind = behind; position = position; rest = s; groups = [] }

-- `skip` counts the characters of the last match that are still ahead.
unfoldable pub find_from : Regex → ℕ → Option ℕ → ℕ → Text → List Match
find_from r skip behind position [] = []
find_from r (suc skip) behind position (x ∷ s) = find_from r skip (some x) (suc position) s
find_from r zero behind position (x ∷ s) =
    elim (first_match position (run r (cursor_at behind position (x ∷ s)))) [
      | none ↦ find_from r zero (some x) (suc position) s
      | some m ↦ m ∷ find_from r (m.end - position - 1) (some x) (suc position) s
    ]

-- r.finditer(text)
unfoldable pub finditer : Regex → Text → List Match
finditer r text = find_from r 0 none 0 text

-- The character before a place of the text.
abbrev pub char_before : ℕ → Text → Option ℕ
char_before i text = elim i [ zero ↦ none | suc j ↦ head_of (drop j text) ]

-- r.match(text, position)
unfoldable pub match_at : Regex → Text → ℕ → Option Match
match_at r text i = first_match i (run r (cursor_at (char_before i text) i (drop i text)))

-- text[a:b]
abbrev pub slice : ℕ → ℕ → Text → Text
slice a b text = take (b - a) (drop a text)

-- match.group(name); `none` where the group took no part in the match.
abbrev pub group_text : Text → Text → Match → Option Text
group_text text name m = elim (Dict.get name m.groups) [
  | none ↦ none
  | some (s, e) ↦ some (slice s e text)
]

-- match.group(0)
abbrev pub whole : Text → Match → Text
whole text m = slice m.start m.end text
