-- ===== src/Mask.antt =====
-- app/pii.py: the matches, the resolution of overlaps and `PIIMasker`.
--
-- A confidence is a natural number, in a unit that is fine enough for the floats that occur: the
-- code only compares it. A detector is its method `detect`, which may raise. Any other string than
-- the three modes is the mode of typed placeholders, and any other `degradation` than `rule_only`
-- raises. The rule for PINs is part of the detectors that are given.
pub mod Overlap
pub mod Typed
pub mod Splice
pub mod Unmask
pub mod Maximal
pub mod Decisions
pub mod Tests
use privy_gate.Common.{
  ℕ, ◌+◌, ◌-◌, Bool, true, false, ◌&&◌, ◌||◌, List, [], ◌∷◌, ◌++◌, Option, none, some, Text, codes,
  ltb, leb, ◌==◌, take, drop, all, keep_if, insert_by, any, text_eq, text_leb, print_nat,
  if◌then◌else◌,
}
use privy_gate.Common.Dict
use privy_gate.Common.Dict.{Dict}

pub record PiiMatch : Type 0 where
  pub pii_type : Text
  pub value : Text
  pub start : ℕ
  pub end : ℕ
  pub confidence : ℕ

-- Equality of the keys (pii_type, start, end).
unfoldable pub same_key : PiiMatch → PiiMatch → Bool
same_key a b = a.start == b.start && (a.end == b.end && text_eq a.pii_type b.pii_type)

-- One round of the first loop of `resolve_overlapping_matches`, on the values of `unique`: a key
-- that is there keeps its place, and takes the new match if that is more confident.
unfoldable pub add_unique : PiiMatch → List PiiMatch → List PiiMatch
add_unique m [] = m ∷ []
add_unique m (x ∷ xs) =
    let rest = add_unique m xs in
    if same_key x m then (if ltb x.confidence m.confidence then m ∷ xs else x ∷ xs) else x ∷ rest

unfoldable pub unique_matches : List PiiMatch → List PiiMatch → List PiiMatch
unique_matches unique [] = unique
unique_matches unique (m ∷ ms) = unique_matches (add_unique m unique) ms

-- The order of (-confidence, -(end - start), start, pii_type), and of (start, end, pii_type).
unfoldable pub rank_leb : PiiMatch → PiiMatch → Bool
rank_leb a b =
    ltb b.confidence a.confidence
    || (a.confidence == b.confidence
        && (ltb (b.end + a.start) (a.end + b.start)
            || (b.end + a.start == a.end + b.start
                && (ltb a.start b.start
                    || (a.start == b.start && text_leb a.pii_type b.pii_type)))))

unfoldable pub position_leb : PiiMatch → PiiMatch → Bool
position_leb a b =
    ltb a.start b.start
    || (a.start == b.start
        && (ltb a.end b.end || (a.end == b.end && text_leb a.pii_type b.pii_type)))

-- `sorted(matches, key=...)`, which is stable.
unfoldable pub sort_by :
    (PiiMatch → PiiMatch → Bool) → List PiiMatch → List PiiMatch → List PiiMatch
sort_by le sorted [] = sorted
sort_by le sorted (m ∷ ms) = sort_by le (insert_by le m sorted) ms

unfoldable pub is_apart : PiiMatch → PiiMatch → Bool
is_apart candidate existing = leb candidate.end existing.start || leb existing.end candidate.start

-- The loop that selects; a candidate is taken if it is apart from all that are selected.
unfoldable pub select : List PiiMatch → List PiiMatch → List PiiMatch
select selected [] = selected
select selected (candidate ∷ ranked) =
    select (if all (is_apart candidate) selected then selected ++ candidate ∷ [] else selected)
      ranked

unfoldable pub resolve_overlapping_matches : List PiiMatch → List PiiMatch
resolve_overlapping_matches matches =
    sort_by position_leb [] (select [] (sort_by rank_leb [] (unique_matches [] matches)))

pub data MaskingMode : Type 0 where
  typed_placeholder synthetic format_preserving : MaskingMode

pub data DegradationMode : Type 0 where
  fail_closed rule_only : DegradationMode

abbrev pub Detector : Type 0
Detector = Text → Option (List PiiMatch)

-- What `__init__` is given; `is_space` is `str.isspace` of one character.
pub record MaskerConfig : Type 0 where
  pub detectors : List Detector
  pub min_confidence : ℕ
  pub enabled_pii_types : Option (List Text)
  pub masking_mode : MaskingMode
  pub ml_detectors : List Detector
  pub degradation : DegradationMode
  pub custom_terms : List Text
  pub is_space : ℕ → Bool

pub record Masker : Type 0 where
  pub mapping : Dict Text
  pub counters : Dict ℕ
  pub pii_types : List Text

abbrev pub new_masker : Masker
new_masker = record { mapping = []; counters = []; pii_types = [] }

is_text : List Text → Bool
is_text [] = false
is_text (t ∷ ts) = true

unfoldable pub is_enabled : MaskerConfig → Text → Bool
unfolding is_text
is_enabled c pii_type =
    if text_eq pii_type (codes "CUSTOM_TERM") && is_text c.custom_terms
    then true
    else elim c.enabled_pii_types [ none ↦ true | some types ↦ any (λ t. text_eq t pii_type) types ]

-- f"__PII_{pii_type}_{index}__"
unfoldable pub typed_value : Text → ℕ → Text
typed_value pii_type index =
    codes "__PII_" ++ (pii_type ++ (codes "_" ++ (print_nat index ++ codes "__")))

-- The table of `_synthetic_value`.
abbrev synthetic_bases : Dict Text
synthetic_bases =
    (codes "PERSON", codes "Иванов Иван Иванович")
    ∷ (codes "DATE_OF_BIRTH", codes "01.01.1990")
    ∷ (codes "BIRTH_PLACE", codes "г. Москва")
    ∷ (codes "PASSPORT", codes "45 10 123456")
    ∷ (codes "CITIZENSHIP", codes "Российская Федерация")
    ∷ (codes "PASSPORT_AUTHORITY", codes "УФМС России")
    ∷ (codes "PASSPORT_UNIT_CODE", codes "770-001")
    ∷ (codes "PASSPORT_ISSUE_DATE", codes "01.01.2010")
    ∷ (codes "DRIVING_LICENSE", codes "77 01 123456")
    ∷ (codes "ADDRESS", codes "г. Москва, ул. Тестовая, д. 1")
    ∷ (codes "EMAIL", codes "user@example.com")
    ∷ (codes "PHONE", codes "+7 900 000 00 00")
    ∷ (codes "INN", codes "770708389301")
    ∷ (codes "CARD", codes "4000 0000 0000 0000")
    ∷ (codes "CVV", codes "000")
    ∷ (codes "PIN", codes "0000")
    ∷ (codes "CARD_HOLDER", codes "IVANOV IVAN")
    ∷ []

synthetic_base : Option Text → Text
synthetic_base none = codes "PII"
synthetic_base (some base) = base

unfoldable pub synthetic_value : Text → ℕ → Text
unfolding synthetic_base
synthetic_value pii_type index =
    synthetic_base (Dict.get pii_type synthetic_bases) ++ (codes "_" ++ print_nat index)

unfoldable pub format_value : (ℕ → Bool) → Text → Text
format_value is_space [] = []
format_value is_space (c ∷ s) = (if is_space c then b' ' else b'*') ∷ format_value is_space s

unfoldable pub placeholder : MaskerConfig → Text → ℕ → Text → Text
placeholder c pii_type index value = elim c.masking_mode [
  | typed_placeholder ↦ typed_value pii_type index
  | synthetic ↦ synthetic_value pii_type index
  | format_preserving ↦ format_value c.is_space value
]

-- `self._counters.get(pii_type, 0) + 1`
abbrev pub next_index : Option ℕ → ℕ
next_index none = 1
next_index (some n) = n + 1

-- `self._pii_types.add(...)`
abbrev pub add_type : Text → List Text → List Text
add_type t types = if any (λ u. text_eq u t) types then types else types ++ t ∷ []

module _ (c : MaskerConfig) where
  abbrev pub index_of : Masker → PiiMatch → ℕ
  index_of s m = next_index (Dict.get m.pii_type s.counters)

  abbrev pub placeholder_of : Masker → PiiMatch → Text
  placeholder_of s m = placeholder c m.pii_type (index_of s m) m.value

  -- What one round of the last loop of `mask` does to the masker.
  abbrev pub note_match : Masker → PiiMatch → Masker
  note_match s m = record {
    mapping = Dict.put (placeholder_of s m) m.value s.mapping;
    counters = Dict.put m.pii_type (index_of s m) s.counters;
    pii_types = add_type m.pii_type s.pii_types;
  }

  -- text[a:b]
  abbrev pub slice : ℕ → ℕ → Text → Text
  slice a b text = take (b - a) (drop a text)

  -- The last loop of `mask`: the joined parts, and the masker.
  unfoldable pub splice : Text → ℕ → List PiiMatch → Masker → Text × Masker
  splice text previous_end [] s = (drop previous_end text, s)
  splice text previous_end (m ∷ ms) s =
      let (rest, s') = splice text m.end ms (note_match s m) in
      (slice previous_end m.start text ++ (placeholder_of s m ++ rest), s')

  -- `none`: a detector raised.
  unfoldable pub rule_candidates : Text → List Detector → Option (List PiiMatch)
  rule_candidates text [] = some []
  rule_candidates text (detect ∷ ds) =
      let rest = rule_candidates text ds in
      elim (detect text) [
        | none ↦ none
        | some ms ↦ elim rest [ none ↦ none | some more ↦ some (ms ++ more) ]
      ]

  -- `none`: a detector raised, and the mode is not `rule_only`.
  unfoldable pub ml_candidates : Text → List Detector → Option (List PiiMatch)
  ml_candidates text [] = some []
  ml_candidates text (detect ∷ ds) =
      let rest = ml_candidates text ds in
      elim (detect text) [
        | none ↦ elim c.degradation [ rule_only ↦ rest | fail_closed ↦ none ]
        | some ms ↦ elim rest [ none ↦ none | some more ↦ some (ms ++ more) ]
      ]

  unfoldable pub is_eligible : PiiMatch → Bool
  is_eligible m = leb c.min_confidence m.confidence && is_enabled c m.pii_type

  -- The matches that `mask` replaces, from what the detectors found.
  unfoldable pub chosen : List PiiMatch → List PiiMatch
  chosen candidates =
      resolve_overlapping_matches (keep_if is_eligible (sort_by position_leb [] candidates))

  abbrev pub mask_chosen : Text → List PiiMatch → Masker → Text × Masker
  mask_chosen text [] s = (text, s)
  mask_chosen text (m ∷ ms) s = splice text 0 (m ∷ ms) s

  unfoldable pub mask : Text → Masker → Option (Text × Masker)
  mask text s = elim (rule_candidates text c.detectors) [
    | none ↦ none
    | some given ↦ elim (ml_candidates text c.ml_detectors) [
      | none ↦ none
      | some found ↦ some (mask_chosen text (chosen (given ++ found)) s)
    ]
  ]
