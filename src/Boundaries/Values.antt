-- ===== src/Boundaries/Values.antt =====
-- Where the loops that look for the end of a value come to.
use privy_gate.Common.{
  ℕ, zero, suc, ◌+◌, ◌≤◌, ◌<◌, ◌≡◌, Bool, true, false, ◌&&◌, inl, inr, [], ◌∷◌, Text, arith, All,
  length, length-drop, take, drop, ltb, Bool-cases,
}
use privy_gate.Regex.{Chars, test_of, head_of, slice}
use privy_gate.Regex.Classes.{among}
use privy_gate.Patterns.{blank}
use privy_gate.Boundaries.{
  end_from, separators, place_stops, citizenship_stops, authority_stops, trim_end, place_end,
  citizenship_end, authority_end,
}

-- None of the characters of `s` before place `n` stops, and that at place `n`, if there is one, does.
abbrev pub IsFirstStop : (ℕ → Text → Bool) → ℕ → Text → Type 0
IsFirstStop stops zero [] = Unit
IsFirstStop stops zero (c ∷ s) = stops c s ≡ true
IsFirstStop stops (suc n) [] = ⊥
IsFirstStop stops (suc n) (c ∷ s) = (stops c s ≡ false) × IsFirstStop stops n s

end_from-IsFirstStop :
    (stops : ℕ → Text → Bool) (s : Text) (start : ℕ)
    → (n : ℕ) × (end_from stops s start ≡ start + n) × (n ≤ length s) × IsFirstStop stops n s
unfolding end_from
end_from-IsFirstStop stops [] start = (0, omega arith, omega arith, tt)
end_from-IsFirstStop stops (c ∷ s) start = elim (Bool-cases (stops c s)) [
  | inl e ↦ (0, rw e (omega arith), omega arith, e)
  | inr e ↦
      let (n, there, small, first) = end_from-IsFirstStop stops s (suc start) in
      (suc n, rw e (omega (arith, there)), omega arith, (e, first))
]

trim_end-bounds :
    (text : Text) (start end : ℕ)
    → start ≤ end
    → (start ≤ trim_end text start end) × (trim_end text start end ≤ end)
unfolding trim_end
trim_end-bounds text start zero h = (omega arith, omega arith)
trim_end-bounds text start (suc end) h =
    elim (Bool-cases (ltb start (suc end) && test_of blank (head_of (drop end text)))) [
      | inl e ↦
          let (low, high) = trim_end-bounds text start end (ground arith) in rw e (low, omega arith)
      | inr e ↦ rw e (h, omega arith)
    ]

-- No separator among the characters.
abbrev pub HoldsNoSeparator : Text → Type 0
HoldsNoSeparator = All (λ c. among separators c ≡ false)

take-HoldsNoSeparator :
    (stops : ℕ → Text → Bool) (n : ℕ) (s : Text)
    → ((c : ℕ) (r : Text) → stops c r ≡ false → among separators c ≡ false)
    → IsFirstStop stops n s
    → HoldsNoSeparator (take n s)
take-HoldsNoSeparator stops zero s h f = tt
take-HoldsNoSeparator stops (suc n) [] h f = tt
take-HoldsNoSeparator stops (suc n) (c ∷ s) h f = (h c s f.0, take-HoldsNoSeparator stops n s h f.1)

take-less : (n k : ℕ) (s : Text) → n ≤ k → HoldsNoSeparator (take k s) → HoldsNoSeparator (take n s)
take-less zero k s h f = tt
take-less (suc n) zero s h f = absurd (omega arith)
take-less (suc n) (suc k) [] h f = tt
take-less (suc n) (suc k) (c ∷ s) h f = (f.0, take-less n k s (omega arith) f.1)

-- The end of a value: a place in the text, unless it is the start, with no separator before it.
pub record IsEnd (text : Text) (start end : ℕ) : Type 0 where
  pub after : start ≤ end
  pub inside : start < end → end ≤ length text
  pub clean : HoldsNoSeparator (slice start end text)

end_from-IsEnd :
    (stops : ℕ → Text → Bool) (text : Text) (start : ℕ)
    → ((c : ℕ) (r : Text) → stops c r ≡ false → among separators c ≡ false)
    → IsEnd text start (end_from stops (drop start text) start)
end_from-IsEnd stops text start h =
    let (n, there, small, first) = end_from-IsFirstStop stops (drop start text) start in
    let size = length-drop start text in
    record {
      after = omega arith;
      inside = λ k. omega arith;
      clean =
          take-less _ n (drop start text) (omega arith)
            (take-HoldsNoSeparator stops n (drop start text) h first);
    }

place_stops-clean :
    (u : Chars) (c : ℕ) (r : Text) → place_stops u c r ≡ false → among separators c ≡ false
unfolding place_stops
place_stops-clean u c r h = ground arith

citizenship_stops-clean :
    (u : Chars) (c : ℕ) (r : Text) → citizenship_stops u c r ≡ false → among separators c ≡ false
unfolding citizenship_stops
citizenship_stops-clean u c r h = ground arith

authority_stops-clean :
    (u : Chars) (c : ℕ) (r : Text) → authority_stops u c r ≡ false → among separators c ≡ false
unfolding authority_stops
authority_stops-clean u c r h = ground arith

module _ (u : Chars) (text : Text) (start : ℕ) where
  pub place_end-IsEnd : IsEnd text start (place_end u text start)
  unfolding place_end
  place_end-IsEnd = end_from-IsEnd (place_stops u) text start (place_stops-clean u)

  pub citizenship_end-IsEnd : IsEnd text start (citizenship_end u text start)
  unfolding citizenship_end
  citizenship_end-IsEnd =
      end_from-IsEnd (citizenship_stops u) text start (citizenship_stops-clean u)

  pub authority_end-IsEnd : IsEnd text start (authority_end u text start)
  unfolding authority_end
  authority_end-IsEnd =
      let e = end_from-IsEnd (authority_stops u) text start (authority_stops-clean u) in
      let (low, high) = trim_end-bounds text start _ e.after in
      record {
        after = low;
        inside = λ h. omega (arith, e.inside (omega arith));
        clean = take-less _ _ (drop start text) (omega arith) e.clean;
      }
