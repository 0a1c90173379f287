-- ===== src/Detectors/Sound.antt =====
-- Matches that hold their own part of the text.
use privy_gate.Common.{
  ℕ, ◌≤◌, ◌<◌, ◌≡◌, refl, Bool, true, false, inl, inr, List, [], ◌∷◌, ◌++◌, Text, arith, length,
  All, All-append, Option-cases, if◌then◌else◌,
}
use privy_gate.Common.Dict
use privy_gate.Regex.{Regex, Match, finditer, bind, slice}
use privy_gate.Regex.Cursors.{consumes, All-bind}
use privy_gate.Regex.Places.{
  finditer-Successive, IsWithin, Successive-IsWithin, fills, HoldsGroups, finditer-HoldsGroups,
  All-both, get-HoldsGroups,
}
use privy_gate.Mask.{PiiMatch}
use privy_gate.Context.{Platform, ContextConfig}
use privy_gate.Detectors.{whole_match, group_match, scored_match, strong_match}

-- A span with a character at least, in the text, and the part of the text that it holds.
abbrev pub IsSound : Text → PiiMatch → Type 0
IsSound text m = (m.start < m.end) × (m.end ≤ length text) × (m.value ≡ slice m.start m.end text)

unfoldable pub AreSound : Text → List PiiMatch → Type 0
AreSound text = All (IsSound text)

module _ (text : Text) where
  pub nil-AreSound : AreSound text []
  unfolding AreSound
  nil-AreSound = tt

  pub append-AreSound :
      (xs ys : List PiiMatch) → AreSound text xs → AreSound text ys → AreSound text (xs ++ ys)
  unfolding AreSound
  append-AreSound = All-append (IsSound text)

  pub if-AreSound :
      (b : Bool) (xs ys : List PiiMatch)
      → AreSound text xs
      → AreSound text ys
      → AreSound text (if b then xs else ys)
  if-AreSound true xs ys p q = p
  if-AreSound false xs ys p q = q

  pub bind-AreSound :
      (r : Regex) (f : Match → List PiiMatch)
      → consumes r ≡ true
      → ((m : Match) → IsWithin text m → AreSound text (f m))
      → AreSound text (bind (finditer r text) f)
  unfolding AreSound
  bind-AreSound r f full h =
      All-bind (IsSound text) (IsWithin text) (finditer r text) f
        (Successive-IsWithin text 0 (finditer r text) (finditer-Successive text r full)) h

  pub whole_match-AreSound :
      (pii_type : Text) (confidence : ℕ) (m : Match)
      → IsWithin text m
      → AreSound text (whole_match pii_type text confidence m ∷ [])
  unfolding AreSound
  whole_match-AreSound pii_type confidence m w = ((w.0, w.1, refl), tt)

  module _ (l : Platform) (pii_type : Text) (config : ContextConfig) where
    pub scored_match-AreSound :
        (m : Match) → IsWithin text m → AreSound text (scored_match l pii_type config text m)
    unfolding scored_match
    scored_match-AreSound m w = whole_match-AreSound pii_type _ m w

    pub strong_match-AreSound :
        (m : Match) → IsWithin text m → AreSound text (strong_match l pii_type config text m)
    unfolding strong_match
    strong_match-AreSound m w =
        if-AreSound _ [] _ nil-AreSound (whole_match-AreSound pii_type _ m w)

module _ (text : Text) where
  -- The same, where the groups of the matches matter.
  pub bind_groups-AreSound :
      (r : Regex) (f : Match → List PiiMatch)
      → consumes r ≡ true
      → fills r ≡ true
      → ((m : Match) → IsWithin text m → HoldsGroups m → AreSound text (f m))
      → AreSound text (bind (finditer r text) f)
  unfolding AreSound
  bind_groups-AreSound r f full filled h =
      All-bind (IsSound text) (λ m. IsWithin text m × HoldsGroups m) (finditer r text) f
        (All-both (IsWithin text) HoldsGroups (finditer r text)
          (Successive-IsWithin text 0 (finditer r text) (finditer-Successive text r full))
          (finditer-HoldsGroups text r filled))
        (λ m w. h m w.0 w.1)

  pub group_match-AreSound :
      (pii_type : Text) (confidence : ℕ) (name : Text) (m : Match)
      → IsWithin text m
      → HoldsGroups m
      → AreSound text (group_match pii_type text confidence name m)
  unfolding AreSound
  group_match-AreSound pii_type confidence name m w g =
      elim (Option-cases (Dict.get name m.groups)) [
        | inl e ↦ rw (group_match, e) tt
        | inr ((s, e), found) ↦
            let (low, some_there, high) =
              get-HoldsGroups name m.start m.end m.groups {s = s} {e = e} g found in
            let inside = w.1 in rw (group_match, found) ((some_there, omega arith, refl), tt)
      ]
