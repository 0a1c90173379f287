-- ===== src/Demask.antt =====
-- app/pii.py: `StreamingDemasker` and `demask`. A `str` is a list of code points, the mapping a
-- dictionary from placeholders to values in the order of insertion.
pub mod Scan
pub mod Matches
pub mod Kept
pub mod Drain
pub mod Stream
pub mod Tests
use privy_gate.Common.{
  ℕ, zero, suc, ◌+◌, ◌-◌, Bool, true, false, ◌||◌, List, [], ◌∷◌, ◌++◌, Option, none, some, Text,
  ltb, ◌==◌, min, max, length, take, drop, any, starts_with, find, last, if◌then◌else◌,
}
use privy_gate.Common.Dict
use privy_gate.Common.Dict.{Dict, keys}

pub record StreamingDemasker : Type 0 where
  pub mapping : Dict Text
  pub buffer : Text

-- `__init__`; the tuple of the placeholders is that of the keys.
abbrev pub new_demasker : Dict Text → StreamingDemasker
new_demasker mapping = record { mapping = mapping; buffer = [] }

-- (position, placeholder) for every placeholder that stands in the buffer.
unfoldable pub matches : Text → List Text → List (ℕ × Text)
matches buffer [] = []
matches buffer (p ∷ ps) =
    let rest = matches buffer ps in elim (find p buffer) [ none ↦ rest | some i ↦ (i, p) ∷ rest ]

-- `min(matches, key=lambda item: item[0])`: the first of the least.
unfoldable pub min_match : ℕ × Text → List (ℕ × Text) → ℕ × Text
min_match best [] = best
min_match best (m ∷ ms) = min_match (if ltb m.0 best.0 then m else best) ms

-- The loop of `_possible_placeholder_prefix_length`, from `n` down to 1.
unfoldable pub longest_prefix : ℕ → Text → List Text → ℕ
longest_prefix zero buffer ps = 0
longest_prefix (suc n) buffer ps =
    let rest = longest_prefix n buffer ps in
    if any (λ p. starts_with (last (suc n) buffer) p) ps then suc n else rest

-- `max((len(value) - 1 for value in self._placeholders), default=0)`; an empty placeholder would
-- give -1, for which the loop makes no round either.
unfoldable pub max_prefix : List Text → ℕ
max_prefix [] = 0
max_prefix (p ∷ ps) = max (length p - 1) (max_prefix ps)

unfoldable pub possible_placeholder_prefix_length : Text → List Text → ℕ
unfolding longest_prefix max_prefix
possible_placeholder_prefix_length buffer ps =
    longest_prefix (min (length buffer) (max_prefix ps)) buffer ps

-- What a drain gives out, and the buffer that it leaves.
pub record Drained : Type 0 where
  pub output : Text
  pub left : Text

abbrev is_empty : List Text → Bool
is_empty [] = true
is_empty (p ∷ ps) = false

-- The end of the loop, where no placeholder stands in the buffer.
unfoldable pub drain_rest : Bool → Text → List Text → Drained
drain_rest final buffer ps =
    if final || is_empty ps
    then record { output = buffer; left = [] }
    else let keep = possible_placeholder_prefix_length buffer ps in
      if keep == length buffer then record { output = []; left = buffer } else record {
        output = take (length buffer - keep) buffer;
        left = drop (length buffer - keep) buffer;
      }

abbrev pub prepend : Text → Option Drained → Option Drained
prepend out none = none
prepend out (some d) = some (record { output = out ++ d.output; left = d.left })

-- The `while` of `_drain`, on fuel; `none` is fuel that ran out, or a `KeyError`.
unfoldable pub drain_loop : ℕ → Dict Text → Bool → Text → Option Drained
drain_loop zero mapping final buffer = none
drain_loop (suc fuel) mapping final [] = some (record { output = []; left = [] })
drain_loop (suc fuel) mapping final (c ∷ rest) =
    let buffer = c ∷ rest in
    elim (matches buffer (keys mapping)) [
      | [] ↦ some (drain_rest final buffer (keys mapping))
      | m ∷ ms ↦
          let best = min_match m ms in
          elim (Dict.get best.1 mapping) [
            | none ↦ none
            | some value ↦
                prepend (take best.0 buffer ++ value)
                  (drain_loop fuel mapping final (drop (best.0 + length best.1) buffer))
          ]
    ]

-- A round with a match shortens the buffer, if no placeholder is empty.
unfoldable pub drain : Bool → StreamingDemasker → Option (Text × StreamingDemasker)
drain final d = elim (drain_loop (suc (length d.buffer)) d.mapping final d.buffer) [
  | none ↦ none
  | some r ↦ some (r.output, record d { buffer = r.left })
]

unfoldable pub feed : Text → StreamingDemasker → Option (Text × StreamingDemasker)
feed chunk d = drain false (record d { buffer = d.buffer ++ chunk })

unfoldable pub flush : StreamingDemasker → Option (Text × StreamingDemasker)
flush d = drain true d

unfoldable pub demask : Text → Dict Text → Option Text
demask text mapping = elim (feed text (new_demasker mapping)) [
  | none ↦ none
  | some (out, d) ↦ elim (flush d) [ none ↦ none | some (end, d') ↦ some (out ++ end) ]
]
