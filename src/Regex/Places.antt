-- ===== src/Regex/Places.antt =====
-- The places that `finditer` gives, and those of the groups of a match.
use privy_gate.Common.{
  ℕ, zero, suc, ◌+◌, ◌-◌, ◌≤◌, ◌<◌, ◌≡◌, refl, ◌∙◌, Bool, true, false, ◌&&◌, inl, inr, List, [],
  ◌∷◌, Option, none, some, Text, arith, length, drop, All, All-append, Bool-cases, Option-cases,
}
use privy_gate.Common.Dict
use privy_gate.Common.Dict.{Dict}
use privy_gate.Regex.{
  Regex, nothing, one_of, sequence, either, at_least, between, group, not_behind, not_ahead,
  word_boundary, Cursor, bind, advance, only_if, times, optional, note, run, Match, to_match,
  first_match, cursor_at, find_from, finditer, match_at, char_before,
}
use privy_gate.Regex.Cursors.{At, Follows, consumes, run-Follows, All-bind, All-map, drop_cons}

-- Matches that follow one another from `n` on, each with a character at least, in the text.
abbrev pub Successive : Text → ℕ → List Match → Type 0
Successive text n [] = Unit
Successive text n (m ∷ ms) =
    (n ≤ m.start) × (m.start < m.end) × (m.end ≤ length text) × Successive text m.end ms

Successive-weaken :
    (text : Text) (n k : ℕ) (ms : List Match) → k ≤ n → Successive text n ms → Successive text k ms
Successive-weaken text n k [] h s = tt
Successive-weaken text n k (m ∷ ms) h s = (omega arith, s.1, s.2, s.3)

-- A match from a place of the text.
first_match-Follows :
    (text : Text) (r : Regex) (c : Cursor) {m : Match}
    → consumes r ≡ true
    → At text c
    → first_match c.position (run r c) ≡ some m
    → (m.start ≡ c.position) × (c.position < m.end) × (m.end ≤ length text)
first_match-Follows text r c {m} full a h = first (run r c) (run-Follows text r c a) h
  where
    first :
        (ds : List Cursor)
        → All (Follows text (consumes r) c) ds
        → first_match c.position ds ≡ some m
        → (m.start ≡ c.position) × (c.position < m.end) × (m.end ≤ length text)
    first [] fs e = absurd (ground arith)
    first (d ∷ ds) fs e =
        let same : to_match c.position d ≡ m = cc in
        let f = fs.0 in
        let on = f.moved full in let inside = f.at.inside in rw (← same) (refl, on, inside)

module _ (text : Text) (r : Regex) (full : consumes r ≡ true) where
  find_from-Successive :
      (skip : ℕ) (behind : Option ℕ) (position : ℕ) (s : Text)
      → drop position text ≡ s
      → Successive text (position + skip) (find_from r skip behind position s)
  unfolding find_from
  find_from-Successive skip behind position [] e = tt
  find_from-Successive (suc skip) behind position (x ∷ s) e =
      Successive-weaken text (suc position + skip) (position + suc skip) _ (omega arith)
        (find_from-Successive skip (some x) (suc position) s (drop_cons position text e).0)
  find_from-Successive zero behind position (x ∷ s) e =
      let (next, small) = drop_cons position text e in
      let c : Cursor = cursor_at behind position (x ∷ s) in
      elim (Option-cases (first_match position (run r c))) [
        | inl miss ↦
            rw (miss, find_from)
              (Successive-weaken text (suc position + 0) (position + 0) _ (omega arith)
                (find_from-Successive zero (some x) (suc position) s next))
        | inr (m, hit) ↦
            let (start, on, inside) =
              first_match-Follows text r c full (record { here = e; inside = omega arith }) hit in
            rw (hit, find_from)
              (
                omega arith,
                omega arith,
                inside,
                Successive-weaken text (suc position + (m.end - position - 1)) m.end _ (omega arith)
                    (find_from-Successive (m.end - position - 1) (some x) (suc position) s next),
              )
      ]

  -- If each match of a pattern takes a character, `finditer` gives matches in the text that
  -- follow one another without overlap, none of them empty.
  pub finditer-Successive : Successive text 0 (finditer r text)
  unfolding finditer
  finditer-Successive =
      Successive-weaken text (0 + 0) 0 _ (omega arith) (find_from-Successive 0 none 0 text refl)

-- A match with a character at least, in the text.
abbrev pub IsWithin : Text → Match → Type 0
IsWithin text m = (m.start < m.end) × (m.end ≤ length text)

pub Successive-IsWithin :
    (text : Text) (n : ℕ) (ms : List Match) → Successive text n ms → All (IsWithin text) ms
Successive-IsWithin text n [] s = tt
Successive-IsWithin text n (m ∷ ms) s = ((s.1, s.2), Successive-IsWithin text m.end ms s.3)

pub match_at-IsWithin :
    (text : Text) (r : Regex) (i : ℕ) {m : Match}
    → consumes r ≡ true
    → i ≤ length text
    → match_at r text i ≡ some m
    → IsWithin text m
unfolding match_at
match_at-IsWithin text r i full h e =
    let (start, on, inside) =
      first_match-Follows text r (cursor_at (char_before i text) i (drop i text)) full
        (record { here = refl; inside = h }) e in
    (omega arith, inside)

-- Groups that hold a character at least, between a start and a place.
abbrev pub GroupsFit : ℕ → ℕ → Dict (ℕ × ℕ) → Type 0
GroupsFit start end = All (λ g. (start ≤ g.1.0) × (g.1.0 < g.1.1) × (g.1.1 ≤ end))

-- Whether each group of a pattern takes a character.
unfoldable pub fills : Regex → Bool
fills (sequence r s) = fills r && fills s
fills (either r s) = fills r && fills s
fills (at_least least r) = fills r
fills (between least most r) = fills r
fills (group name r) = consumes r && fills r
fills nothing = true
fills (one_of p) = true
fills (not_behind p) = true
fills (not_ahead p) = true
fills (word_boundary p) = true

GroupsFit-weaken :
    (start e f : ℕ) (gs : Dict (ℕ × ℕ)) → e ≤ f → GroupsFit start e gs → GroupsFit start f gs
GroupsFit-weaken start e f [] h g = tt
GroupsFit-weaken start e f ((name, p) ∷ gs) h g =
    ((g.0.0, g.0.1, omega arith), GroupsFit-weaken start e f gs h g.1)

module _ {A : Type 0} (P Q : A → Type 0) where
  pub All-both : (ds : List A) → All P ds → All Q ds → All (λ d. P d × Q d) ds
  All-both [] p q = tt
  All-both (d ∷ ds) p q = ((p.0, q.0), All-both ds p.1 q.1)

module _ (text : Text) (start : ℕ) where
  -- A cursor in the text, not before the start, with the groups that fit.
  record IsFit (c : Cursor) : Type 0 where
    at : At text c
    after : start ≤ c.position
    fit : GroupsFit start c.position c.groups

  only_if-IsFit : (b : Bool) (c : Cursor) → IsFit c → All IsFit (only_if b c)
  only_if-IsFit true c f = (f, tt)
  only_if-IsFit false c f = tt

  advance-IsFit :
      (p : ℕ → Bool) (s : Text) (c : Cursor) → c.rest ≡ s → IsFit c → All IsFit (advance p s c)
  unfolding advance
  advance-IsFit p [] c e f = tt
  advance-IsFit p (x ∷ s) c e f = elim (Bool-cases (p x)) [
    | inl passes ↦
        let (there, small) = drop_cons c.position text (f.at.here ∙ e) in
        rw passes (
          record {
            at = record { here = there; inside = omega arith };
            after = omega (arith, f.after);
            fit = GroupsFit-weaken start c.position (suc c.position) c.groups (omega arith) f.fit;
          },
          tt,
        )
    | inr fails ↦ rw fails tt
  ]

  module _ (step : Cursor → List Cursor) (h : (c : Cursor) → IsFit c → All IsFit (step c)) where
    times-IsFit : (n : ℕ) (c : Cursor) → IsFit c → All IsFit (times n step c)
    unfolding times
    times-IsFit zero c f = (f, tt)
    times-IsFit (suc n) c f = All-bind IsFit IsFit (step c) (times n step) (h c f) (times-IsFit n)

    optional-IsFit : (n : ℕ) (c : Cursor) → IsFit c → All IsFit (optional n step c)
    unfolding optional
    optional-IsFit zero c f = (f, tt)
    optional-IsFit (suc n) c f =
        All-append IsFit (bind (step c) (optional n step)) (c ∷ [])
          (All-bind IsFit IsFit (step c) (optional n step) (h c f) (optional-IsFit n)) (f, tt)

    repeat-IsFit :
        (least more : ℕ) (c : Cursor)
        → IsFit c
        → All IsFit (bind (times least step c) (optional more step))
    repeat-IsFit least more c f =
        All-bind IsFit IsFit _ (optional more step) (times-IsFit least c f) (optional-IsFit more)

  run-IsFit : (r : Regex) → fills r ≡ true → (c : Cursor) → IsFit c → All IsFit (run r c)
  unfolding run fills
  run-IsFit nothing h c f = (f, tt)
  run-IsFit (one_of p) h c f = advance-IsFit p c.rest c refl f
  run-IsFit (sequence r s) h c f =
      All-bind IsFit IsFit (run r c) (run s) (run-IsFit r (ground arith) c f)
        (run-IsFit s (ground arith))
  run-IsFit (either r s) h c f =
      All-append IsFit (run r c) (run s c) (run-IsFit r (ground arith) c f)
        (run-IsFit s (ground arith) c f)
  run-IsFit (at_least least r) h c f =
      repeat-IsFit (run r) (run-IsFit r h) least (length c.rest) c f
  run-IsFit (between least most r) h c f =
      repeat-IsFit (run r) (run-IsFit r h) least (most - least) c f
  run-IsFit (group name r) h c f =
      let full : consumes r ≡ true = ground arith in
      All-map IsFit (λ d. Follows text (consumes r) c d × IsFit d) (run r c) (note name c.position)
        (All-both (Follows text (consumes r) c) IsFit (run r c) (run-Follows text r c f.at)
          (run-IsFit r (ground arith) c f))
        (λ d g. record {
          at = record { here = g.1.at.here; inside = g.1.at.inside };
          after = g.1.after;
          fit = ((f.after, g.0.moved full, omega arith), g.1.fit);
        })
  run-IsFit (not_behind p) h c f = only_if-IsFit _ c f
  run-IsFit (not_ahead p) h c f = only_if-IsFit _ c f
  run-IsFit (word_boundary p) h c f = only_if-IsFit _ c f

-- The groups of a match lie in it.
abbrev pub HoldsGroups : Match → Type 0
HoldsGroups m = GroupsFit m.start m.end m.groups

module _ (text : Text) (r : Regex) (filled : fills r ≡ true) where
  first_match-HoldsGroups :
      (behind : Option ℕ) (position : ℕ) (s : Text) {m : Match}
      → drop position text ≡ s
      → position ≤ length text
      → first_match position (run r (cursor_at behind position s)) ≡ some m
      → HoldsGroups m
  first_match-HoldsGroups behind position s {m} e h hit =
      let c : Cursor = cursor_at behind position s in
      let fit : IsFit text position c = record {
        at = record { here = e; inside = h };
        after = omega arith;
        fit = tt;
      } in
      first (run r c) (run-IsFit text position r filled c fit) hit
    where
      first :
          (ds : List Cursor)
          → All (IsFit text position) ds
          → first_match position ds ≡ some m
          → HoldsGroups m
      first [] fs k = absurd (ground arith)
      first (d ∷ ds) fs k = let same : to_match position d ≡ m = cc in rw (← same) fs.0.fit

  find_from-HoldsGroups :
      (skip : ℕ) (behind : Option ℕ) (position : ℕ) (s : Text)
      → drop position text ≡ s
      → All HoldsGroups (find_from r skip behind position s)
  unfolding find_from
  find_from-HoldsGroups skip behind position [] e = tt
  find_from-HoldsGroups (suc skip) behind position (x ∷ s) e =
      find_from-HoldsGroups skip (some x) (suc position) s (drop_cons position text e).0
  find_from-HoldsGroups zero behind position (x ∷ s) e =
      let (next, small) = drop_cons position text e in
      elim (Option-cases (first_match position (run r (cursor_at behind position (x ∷ s))))) [
        | inl miss ↦
            rw (miss, find_from) (find_from-HoldsGroups zero (some x) (suc position) s next)
        | inr (m, hit) ↦
            rw (hit, find_from)
              (
                first_match-HoldsGroups behind position (x ∷ s) e (omega arith) hit,
                find_from-HoldsGroups (m.end - position - 1) (some x) (suc position) s next,
              )
      ]

  pub finditer-HoldsGroups : All HoldsGroups (finditer r text)
  unfolding finditer
  finditer-HoldsGroups = find_from-HoldsGroups 0 none 0 text refl

-- A group that a match has lies in it, with a character at least.
pub get-HoldsGroups :
    (name : Text) (start end : ℕ) (gs : Dict (ℕ × ℕ)) {s e : ℕ}
    → GroupsFit start end gs
    → Dict.get name gs ≡ some (s, e)
    → (start ≤ s) × (s < e) × (e ≤ end)
unfolding Dict.get
get-HoldsGroups name start end [] f h = absurd (ground arith)
get-HoldsGroups name start end ((j, p) ∷ gs) {s} {e} f h =
    ground (arith, get-HoldsGroups name start end gs {s = s} {e = e} f.1)
