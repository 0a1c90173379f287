-- ===== src/Mask/Decisions.antt =====
-- app/pii.py: the list of decisions of `PIIMasker.mask`, which is safe to log.
use privy_gate.Common.{
  ℕ, ◌<◌, ◌≡◌, refl, sym, Bool, true, false, ◌&&◌, ◌⊎◌, inl, inr, arith, List, [], ◌∷◌, In, All-In,
  In-All, In-keep_if, keep_if-In, Text, any, map, keep_if, text_eq, text_eq_iff, ◌==◌, Bool-cases,
  if◌then◌else◌,
}
use privy_gate.Mask.{
  PiiMatch, MaskerConfig, sort_by, position_leb, is_enabled, is_eligible,
  resolve_overlapping_matches, chosen,
}
use privy_gate.Mask.Overlap.{All-resolve}
use privy_gate.Mask.Maximal.{sort_by-In, IsOverlapped, resolve-IsOverlapped}

pub data Action : Type 0 where
  masked_action overlap_rejected below_threshold : Action

pub record PiiDecision : Type 0 where
  pub pii_type : Text
  pub confidence : ℕ
  pub action : Action

-- Equality of the data class.
unfoldable pub same_match : PiiMatch → PiiMatch → Bool
same_match a b =
    text_eq a.pii_type b.pii_type
    && (text_eq a.value b.value
        && (a.start == b.start && (a.end == b.end && a.confidence == b.confidence)))

-- `match in matches`
abbrev pub is_among : PiiMatch → List PiiMatch → Bool
is_among m = any (λ x. same_match x m)

module _ (c : MaskerConfig) where
  unfoldable pub action_of : List PiiMatch → PiiMatch → Action
  action_of candidates m =
      if is_among m (chosen c candidates)
      then masked_action
      else if is_among m (keep_if (is_eligible c) candidates)
      then overlap_rejected
      else below_threshold

  unfoldable pub decisions : List PiiMatch → List PiiDecision
  decisions candidates =
      map
        (λ m. record {
          pii_type = m.pii_type;
          confidence = m.confidence;
          action = action_of candidates m;
        })
        (sort_by position_leb [] candidates)

same_match_refl : (m : PiiMatch) → same_match m m ≡ true
unfolding same_match
same_match_refl m =
    let t = (text_eq_iff m.pii_type m.pii_type).1 refl in
    let v = (text_eq_iff m.value m.value).1 refl in ground arith

same_match→eq : (a b : PiiMatch) → same_match a b ≡ true → a ≡ b
unfolding same_match
same_match→eq a b h =
    let t : a.pii_type ≡ b.pii_type = (text_eq_iff a.pii_type b.pii_type).0 (ground arith) in
    let v : a.value ≡ b.value = (text_eq_iff a.value b.value).0 (ground arith) in
    let s : a.start ≡ b.start = ground arith in
    let e : a.end ≡ b.end = ground arith in let c : a.confidence ≡ b.confidence = ground arith in cc

is_among→In : (m : PiiMatch) (xs : List PiiMatch) → is_among m xs ≡ true → In m xs
is_among→In m [] h = absurd (ground arith)
is_among→In m (x ∷ xs) h = elim (Bool-cases (same_match x m)) [
  | inl e ↦ inl (sym (same_match→eq x m e))
  | inr e ↦ inr (is_among→In m xs (ground arith))
]

In→is_among : (m : PiiMatch) (xs : List PiiMatch) → In m xs → is_among m xs ≡ true
In→is_among m [] i = absurd i
In→is_among m (x ∷ xs) (inl e) = let r = same_match_refl x in rw (e, r) refl
In→is_among m (x ∷ xs) (inr i) = let later = In→is_among m xs i in ground arith

module _ (c : MaskerConfig) where
  chosen-is_eligible :
      (candidates : List PiiMatch) (m : PiiMatch)
      → In m (chosen c candidates)
      → is_eligible c m ≡ true
  unfolding chosen
  chosen-is_eligible candidates m i =
      let eligible = keep_if (is_eligible c) (sort_by position_leb [] candidates) in
      All-In (λ x. is_eligible c x ≡ true) (resolve_overlapping_matches eligible) m
        (All-resolve (λ x. is_eligible c x ≡ true) eligible
          (In-All (λ x. is_eligible c x ≡ true) eligible
            (λ x j. (In-keep_if (is_eligible c) _ x j).1)))
        i

  -- What an action says of a candidate: it is replaced; or it is eligible, not replaced, and a match
  -- that is replaced overlaps it; or its confidence is too low or its type is not masked.
  abbrev pub Says : List PiiMatch → PiiMatch → Action → Type 0
  Says candidates m masked_action = In m (chosen c candidates) × (is_eligible c m ≡ true)
  Says candidates m overlap_rejected =
      ¬ In m (chosen c candidates) × (is_eligible c m ≡ true) × IsOverlapped m (chosen c candidates)
  Says candidates m below_threshold =
      (m.confidence < c.min_confidence) ⊎ (is_enabled c m.pii_type ≡ false)

  -- What `decisions` says of each candidate with a span is so: "masked" of one that is replaced,
  -- which is eligible; "overlap_rejected" of one that is eligible and not replaced, and overlaps a
  -- match that is replaced; "below_threshold" of one whose confidence is below the minimum or whose
  -- type is not masked.
  pub action_of-Says :
      (candidates : List PiiMatch) (m : PiiMatch)
      → In m candidates
      → m.start < m.end
      → Says candidates m (action_of c candidates m)
  unfolding action_of is_eligible chosen
  action_of-Says candidates m i span = elim (Bool-cases (is_among m (chosen c candidates))) [
    | inl among ↦
        let there = is_among→In m (chosen c candidates) among in
        rw among (there, chosen-is_eligible candidates m there)
    | inr gone ↦ elim (Bool-cases (is_among m (keep_if (is_eligible c) candidates))) [
      | inl among ↦
          let fit = (In-keep_if (is_eligible c) candidates m (is_among→In m _ among)).1 in
          let sorted = sort_by-In position_leb m [] candidates (inr i) in
          rw (gone, among)
            (
              λ j. let yes = In→is_among m (chosen c candidates) j in absurd (ground arith),
              fit,
              resolve-IsOverlapped _ m (keep_if-In (is_eligible c) _ m sorted fit) span,
            )
      | inr unfit ↦
          rw (gone, unfit)
            (elim (Bool-cases (is_eligible c m)) [
              | inl fit ↦
                  let yes = In→is_among m _ (keep_if-In (is_eligible c) candidates m i fit) in
                  absurd (ground arith)
              | inr low ↦ elim (Bool-cases (is_enabled c m.pii_type)) [
                | inl on ↦ inl (ground arith)
                | inr off ↦ inr off
              ]
            ])
    ]
  ]
