-- ===== src/Mask/Unmask.antt =====
-- `mask` followed by `demask` with the mapping that it leaves, in the mode of typed placeholders.
use privy_gate.Common.{
  ◌<◌, ◌≡◌, refl, ◌∙◌, ap, Bool, true, inl, inr, List, [], ◌∷◌, ◌++◌, some, Text, arith, All,
  Bool-cases, keep_if,
}
use privy_gate.Common.Dict
use privy_gate.Common.Dict.{Dict, keys}
use privy_gate.Demask.{demask}
use privy_gate.Demask.Scan.{is_separate, scan}
use privy_gate.Demask.Drain.{Clear-no_placeholder, scan-Clear_end}
use privy_gate.Demask.Stream.{demask-scan}
use privy_gate.Mask.{
  PiiMatch, MaskerConfig, Masker, new_masker, typed_placeholder, splice, ml_candidates,
  rule_candidates, is_eligible, sort_by, position_leb, chosen, mask, mask_chosen,
}
use privy_gate.Mask.Overlap.{Chain, Spans, All-sort_by, All-resolve, resolve-Chain}
use privy_gate.Mask.Splice.{
  IsKnown, IsKnown-IsMarked, HoldsSlices, PlainOutside, splice-IsKnown, scan-splice,
}

All-keep_if :
    (P : PiiMatch → Type 0) (f : PiiMatch → Bool) (xs : List PiiMatch)
    → All P xs
    → All P (keep_if f xs)
All-keep_if P f [] a = a
All-keep_if P f (x ∷ xs) a = elim (Bool-cases (f x)) [
  | inl kept ↦ rw kept (a.0, All-keep_if P f xs a.1)
  | inr dropped ↦ rw dropped (All-keep_if P f xs a.1)
]

module _ (c : MaskerConfig) where
  eligible-All :
      (P : PiiMatch → Type 0) (xs : List PiiMatch)
      → All P xs
      → All P (keep_if (is_eligible c) (sort_by position_leb [] xs))
  eligible-All P xs a = All-keep_if P (is_eligible c) _ (All-sort_by P position_leb [] xs tt a)

  -- What holds of all candidates holds of the chosen ones.
  pub chosen-All : (P : PiiMatch → Type 0) (xs : List PiiMatch) → All P xs → All P (chosen c xs)
  unfolding chosen
  chosen-All P xs a = All-resolve P _ (eligible-All P xs a)

  pub chosen-Chain : (xs : List PiiMatch) → Spans xs → Chain 0 (chosen c xs)
  unfolding chosen
  chosen-Chain xs s = resolve-Chain _ (eligible-All (λ m. m.start < m.end) xs s)

new-IsKnown : IsKnown new_masker
unfolding Dict.get
new-IsKnown k v h = absurd (ground arith)

scan-no_key : (s : Text) → scan [] 0 s ≡ s
scan-no_key s = scan-Clear_end [] s (Clear-no_placeholder s [])

module _ (c : MaskerConfig) (typed : c.masking_mode ≡ typed_placeholder) (text : Text) where
  demask-mask_chosen :
      (ms : List PiiMatch)
      → Chain 0 ms
      → HoldsSlices text ms
      → PlainOutside text 0 ms
      → let r : Text × Masker = mask_chosen c text ms new_masker in
        is_separate (keys r.1.mapping) ≡ true → demask r.0 r.1.mapping ≡ some text
  demask-mask_chosen [] chain held plain sep = demask-scan [] sep text ∙ ap some (scan-no_key text)
  demask-mask_chosen (m ∷ ms) chain held plain sep =
      let s : Masker = (splice c text 0 (m ∷ ms) new_masker).1 in
      let marked =
        IsKnown-IsMarked s (splice-IsKnown c typed text 0 (m ∷ ms) new_masker new-IsKnown) in
      demask-scan s.mapping sep _
      ∙ ap some (
          scan-splice c typed text s.mapping sep marked 0 (m ∷ ms) new_masker new-IsKnown
            (λ k v h. h) chain held plain)

  -- With typed placeholders, where the detectors with rules give their matches, and the ML
  -- detectors theirs (or failed and were skipped), every candidate has a span and holds its part
  -- of the text, the text has no underscore outside the matches that are chosen, and no
  -- placeholder that was given out stands inside another: `mask` with a new masker returns, and
  -- demasking the masked text with the masker's mapping returns the text.
  pub demask-mask :
      (given found : List PiiMatch)
      → let candidates : List PiiMatch = given ++ found in
        let r : Text × Masker = mask_chosen c text (chosen c candidates) new_masker in
        rule_candidates c text c.detectors ≡ some given
        → ml_candidates c text c.ml_detectors ≡ some found
        → Spans candidates
        → HoldsSlices text candidates
        → PlainOutside text 0 (chosen c candidates)
        → is_separate (keys r.1.mapping) ≡ true
        → (mask c text new_masker ≡ some r) × (demask r.0 r.1.mapping ≡ some text)
  unfolding mask
  demask-mask given found rules ml spans held plain sep =
      let candidates : List PiiMatch = given ++ found in
      (
        rw (rules, ml, mask) refl,
        demask-mask_chosen (chosen c candidates) (chosen-Chain c candidates spans)
            (chosen-All c _ candidates held) plain sep,
      )
