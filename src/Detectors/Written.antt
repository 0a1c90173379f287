-- ===== src/Detectors/Written.antt =====
-- What `NameDetector` finds, and when it returns.
use privy_gate.Common.{
  ℕ, ◌+◌, ◌-◌, ◌≤◌, ◌<◌, ◌≡◌, refl, sym, ap, ◌∙◌, true, ◌⊎◌, inl, inr, List, [], ◌∷◌, ◌++◌,
  append_assoc, Option, some, Text, codes, arith, length, length-append, length-drop, drop-drop,
  take, drop, take-append-drop, take-append, drop-append, find, find-split, All, In, min,
  Option-cases,
}
use mathlib.Core.Option.{some-injective}
use privy_gate.Common.Dict.{Dict}
use privy_gate.Regex.{casefold, Match, finditer, match_at, bind, slice, whole}
use privy_gate.Regex.Classes.{literal}
use privy_gate.Regex.Cursors.{consumes, All-weaken}
use privy_gate.Regex.Places.{IsWithin, match_at-IsWithin}
use privy_gate.Patterns.Names.{name_candidate_pattern, latin_name_pattern}
use privy_gate.Mask.{PiiMatch}
use privy_gate.Context.{Platform}
use privy_gate.Boundaries.{trim_start}
use privy_gate.Names.{NameSets, split, join, is_full, is_full_name, spans_of}
use privy_gate.Names.Words.{first_such-In, spans_of-find}
use privy_gate.Detectors.Sound.{
  AreSound, nil-AreSound, append-AreSound, if-AreSound, bind-AreSound, whole_match-AreSound,
  strong_match-AreSound,
}
use privy_gate.Detectors.Persons.{
  latin_context, name_markers, gather, name_span, name_at, placed, candidate_match, latin_match,
  name_pattern_for, named, marker_match, context_names, detect_name,
}

In-append : {A : Type 0} (xs ys : List A) (x : A) → In x (xs ++ ys) → In x xs ⊎ In x ys
In-append [] ys x i = inr i
In-append (y ∷ xs) ys x (inl e) = inl (inl e)
In-append (y ∷ xs) ys x (inr i) = elim (In-append xs ys x i) [ inl j ↦ inl (inr j) | inr j ↦ inr j ]

-- A part of a slice is a slice of the text.
slice-part :
    (text : Text) (s e : ℕ) (a v r : Text)
    → slice s e text ≡ a ++ v ++ r
    → 0 < length v
    → (v ≡ slice (s + length a) (s + length a + length v) text)
      × (s + length a + length v ≤ length text)
slice-part text s e a v r h pos =
    let rest : Text = drop (e - s) (drop s text) in
    let whole_text : drop s text ≡ a ++ (v ++ (r ++ rest)) =
      sym (take-append-drop (e - s) (drop s text))
      ∙ ap (λ t. t ++ rest) h
      ∙ append_assoc (a ++ v) r rest
      ∙ append_assoc a v (r ++ rest) in
    let behind : drop (s + length a) text ≡ v ++ (r ++ rest) =
      sym (drop-drop s (length a) (s + length a) text refl)
      ∙ ap (drop (length a)) whole_text
      ∙ drop-append a (v ++ (r ++ rest)) in
    let size : length (v ++ (r ++ rest)) ≡ length text - (s + length a) =
      ap length (sym behind) ∙ length-drop (s + length a) text in
    let parts = length-append v (r ++ rest) in
    let same : s + length a + length v - (s + length a) ≡ length v = omega arith in
    (
      sym (
          ap (λ k. take k (drop (s + length a) text)) same
          ∙ ap (take (length v)) behind
          ∙ take-append v (r ++ rest)),
      omega arith,
    )

module _ (l : Platform) (n : NameSets) (text : Text) where
  placed-AreSound :
      (m : Match) (value : Text) {xs : List PiiMatch}
      → 0 < length value
      → placed l n text m value ≡ some xs
      → AreSound text xs
  unfolding placed AreSound
  placed-AreSound m value {xs} pos h = elim (Option-cases (find value (whole text m))) [
    | inl e ↦ absurd (ground arith)
    | inr (i, e) ↦
        let (a, r, split_here, size) = find-split value (whole text m) e in
        let (same, inside) = slice-part text m.start m.end a value r split_here pos in
        let found : name_at l n text (m.start + i) value ∷ [] ≡ xs = ground arith in
        rw (← found, ← size) ((omega arith, inside, same), tt)
  ]

  join-pos : (t t' : Text) (ts : List Text) → 0 < length (join (t ∷ t' ∷ ts))
  unfolding join
  join-pos t t' ts = let e = length-append t (b' ' ∷ join (t' ∷ ts)) in omega arith

  full_name-pos : (ts : List Text) → is_full_name l.chars n ts ≡ true → 0 < length (join ts)
  unfolding is_full
  full_name-pos [] h = absurd (ground arith)
  full_name-pos (t ∷ []) h = absurd (ground arith)
  full_name-pos (t ∷ t' ∷ ts) h = join-pos t t' ts

  -- The span that is chosen is a full name, and stands in one of the lists of spans.
  name_span-full :
      (tokens span : List Text)
      → name_span l n text tokens ≡ some span
      → (is_full_name l.chars n span ≡ true) × (In span (spans_of 3 tokens ++ spans_of 2 tokens))
  unfolding name_span
  name_span-full tokens span h =
      let (i, e) = first_such-In _ (spans_of 3 tokens ++ spans_of 2 tokens) h in (ground arith, i)

  candidate_match-AreSound :
      (m : Match) (xs : List PiiMatch) → candidate_match l n text m ≡ some xs → AreSound text xs
  unfolding candidate_match
  candidate_match-AreSound m xs h =
      elim (Option-cases (name_span l n text (split l.chars (whole text m)))) [
        | inl e ↦ let same : [] ≡ xs = ground arith in rw (← same) (nil-AreSound text)
        | inr (span, e) ↦
            let (full, i) = name_span-full _ span e in
            placed-AreSound m (join span) (full_name-pos span full) (rw (candidate_match, e) at h)
      ]

  gather-AreSound :
      (ms : List Match) (f : Match → Option (List PiiMatch)) {xs : List PiiMatch}
      → ((m : Match) (ys : List PiiMatch) → f m ≡ some ys → AreSound text ys)
      → gather ms f ≡ some xs
      → AreSound text xs
  gather-AreSound [] f {xs} h e =
      let same : [] ≡ xs = ground arith in rw (← same) (nil-AreSound text)
  gather-AreSound (m ∷ ms) f {xs} h e = elim (Option-cases (f m)) [
    | inl raised ↦ absurd (ground arith)
    | inr (ys, found) ↦ elim (Option-cases (gather ms f)) [
      | inl later ↦ absurd (ground arith)
      | inr (zs, more) ↦
          let same : ys ++ zs ≡ xs = ground arith in
          rw (← same) (append-AreSound text ys zs (h m ys found) (gather-AreSound ms f h more))
    ]
  ]

  latin_match-AreSound : (m : Match) → IsWithin text m → AreSound text (latin_match l n text m)
  unfolding latin_match
  latin_match-AreSound m w =
      if-AreSound text _ _ _ (whole_match-AreSound text (codes "PERSON") _ m w)
        (strong_match-AreSound text l (codes "PERSON") latin_context m w)

  named-AreSound :
      (marker : Text) (weight : ℕ) (m : Match)
      → IsWithin text m
      → AreSound text (named l n text marker weight m)
  unfolding named
  named-AreSound marker weight m w = if-AreSound text _ [] _ (nil-AreSound text) (
      if-AreSound text _ [] _ (nil-AreSound text)
        (whole_match-AreSound text (codes "PERSON") _ m w))

  pattern-consumes : (marker : Text) → consumes (name_pattern_for l n text marker) ≡ true
  unfolding consumes
  pattern-consumes marker = ground arith

  marker_match-AreSound :
      (marker : Text) (weight : ℕ) (found : Match)
      → AreSound text (marker_match l n text marker weight found)
  unfolding marker_match
  marker_match-AreSound marker weight found =
      let start = min (trim_start (codes " \t:;—–-") text found.end) (length text) in
      elim (Option-cases (match_at (name_pattern_for l n text marker) text start)) [
        | inl e ↦ rw (marker_match, e) (nil-AreSound text)
        | inr (m, e) ↦
            rw (marker_match, e)
              (named-AreSound marker weight m (
                match_at-IsWithin text (name_pattern_for l n text marker) start
                  (pattern-consumes marker) (omega arith) e))
      ]

  pairs-AreSound :
      (ws : Dict ℕ)
      → AreSound text (
          bind ws (λ p.
            bind (finditer (literal p.0) (casefold l.chars text)) (marker_match l n text p.0 p.1)))
  pairs-AreSound [] = nil-AreSound text
  pairs-AreSound ((marker, weight) ∷ ws) =
      append-AreSound text _ _ (each (finditer (literal marker) (casefold l.chars text)))
        (pairs-AreSound ws)
    where
      each : (ms : List Match) → AreSound text (bind ms (marker_match l n text marker weight))
      each [] = nil-AreSound text
      each (m ∷ ms) = append-AreSound text _ _ (marker_match-AreSound marker weight m) (each ms)

  pub detect_name-AreSound :
      (xs : List PiiMatch) → detect_name l n text ≡ some xs → AreSound text xs
  unfolding detect_name context_names consumes
  detect_name-AreSound xs h =
      elim (Option-cases
        (gather (finditer (name_candidate_pattern l.chars) text) (candidate_match l n text))) [
          | inl raised ↦ absurd (ground arith)
          | inr (found, e) ↦
              let same : found
                    ++ bind (finditer (latin_name_pattern l.chars) text) (latin_match l n text)
                    ++ context_names l n text
                  ≡ xs =
                some-injective _ _ (rw (detect_name, e) at h) in
              rw (← same) (
                append-AreSound text _ _
                  (append-AreSound text _ _
                    (gather-AreSound (finditer (name_candidate_pattern l.chars) text) _
                      candidate_match-AreSound e)
                    (bind-AreSound text (latin_name_pattern l.chars) _ refl latin_match-AreSound))
                  (pairs-AreSound name_markers))
        ]

  -- The words of the candidate are joined by single spaces.
  abbrev pub IsSpaced : Match → Type 0
  IsSpaced m = join (split l.chars (whole text m)) ≡ whole text m

  candidate_match-returns :
      (m : Match) → IsSpaced m → (xs : List PiiMatch) × (candidate_match l n text m ≡ some xs)
  unfolding candidate_match placed
  candidate_match-returns m spaced =
      elim (Option-cases (name_span l n text (split l.chars (whole text m)))) [
        | inl e ↦ ([], rw (candidate_match, e) refl)
        | inr (span, e) ↦
            let (i, found) = place span (name_span-full _ span e).1 in
            (
              name_at l n text (m.start + i) (join span) ∷ [],
              rw (candidate_match, e, placed, found) refl,
            )
      ]
    where
      tokens : List Text
      tokens = split l.chars (whole text m)

      place :
          (span : List Text)
          → In span (
              spans_of 3 (split l.chars (whole text m))
              ++ spans_of 2 (split l.chars (whole text m)))
          → (i : ℕ) × (find (join span) (whole text m) ≡ some i)
      place span i = elim (In-append (spans_of 3 tokens) (spans_of 2 tokens) span i) [
        | inl j ↦ let (k, e) = spans_of-find 3 tokens span j in (k, rw spaced at e)
        | inr j ↦ let (k, e) = spans_of-find 2 tokens span j in (k, rw spaced at e)
      ]

  gather-returns :
      (ms : List Match) (f : Match → Option (List PiiMatch))
      → All (λ m. (xs : List PiiMatch) × (f m ≡ some xs)) ms
      → (xs : List PiiMatch) × (gather ms f ≡ some xs)
  gather-returns [] f h = ([], refl)
  gather-returns (m ∷ ms) f h =
      let (xs, e) = h.0 in let (ys, e') = gather-returns ms f h.1 in (xs ++ ys, ground arith)

  -- The detector of names returns where the words of each candidate are joined by single spaces.
  pub detect_name-returns :
      All IsSpaced (finditer (name_candidate_pattern l.chars) text)
      → (xs : List PiiMatch) × (detect_name l n text ≡ some xs)
  unfolding detect_name
  detect_name-returns h =
      let (found, e) =
        gather-returns (finditer (name_candidate_pattern l.chars) text) (candidate_match l n text)
          (All-weaken IsSpaced _ _ h candidate_match-returns) in
      (
        found
            ++ bind (finditer (latin_name_pattern l.chars) text) (latin_match l n text)
            ++ context_names l n text,
        rw (detect_name, e) refl,
      )
