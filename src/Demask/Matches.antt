-- ===== src/Demask/Matches.antt =====
-- The placeholders that stand in the buffer, and the least of their places.
use privy_gate.Common.{
  ℕ, ◌≤◌, ◌≡◌, refl, sym, ap, true, false, inl, inr, List, [], ◌∷◌, ◌++◌, none, some, Text, arith,
  length, In, find, Bool-cases, Option-cases, find-le, ltb, if◌then◌else◌, tests,
}
use mathlib.Core.Path.{subst}
use privy_gate.Common.Dict.{Dict, keys}
use privy_gate.Demask.{matches, min_match}

pub matches-none :
    (b : Text) (ps : List Text) (p : Text) → matches b ps ≡ [] → In p ps → find p b ≡ none
unfolding matches
matches-none b [] p h i = absurd i
matches-none b (q ∷ ps) p h i = elim (Option-cases (find q b)) [
  | inr (k, found) ↦ absurd (ground arith)
  | inl nowhere ↦ elim i [
    | inl same ↦ rw same nowhere
    | inr there ↦ matches-none b ps p (ground arith) there
  ]
]

-- A match is a placeholder at a place where `find` finds it.
pub matches-found :
    (b : Text) (ps : List Text) (i : ℕ) (p : Text)
    → In (i, p) (matches b ps)
    → In p ps × (find p b ≡ some i)
unfolding matches
matches-found b [] i p h = absurd h
matches-found b (q ∷ ps) i p h = elim (Option-cases (find q b)) [
  | inl nowhere ↦ let (j, f) = matches-found b ps i p (rw (nowhere, matches) at h) in (inr j, f)
  | inr (k, found) ↦ elim (rw (found, matches) at h) [
    | inl same ↦ (
      inl (ap (λ (x : ℕ × Text). x.1) same),
      rw (ap (λ (x : ℕ × Text). x.1) same, ap (λ (x : ℕ × Text). x.0) same) found,
    )
    | inr there ↦ let (j, f) = matches-found b ps i p there in (inr j, f)
  ]
]

pub matches-has :
    (b : Text) (ps : List Text) (i : ℕ) (p : Text)
    → In p ps
    → find p b ≡ some i
    → In (i, p) (matches b ps)
unfolding matches
matches-has b [] i p h f = absurd h
matches-has b (q ∷ ps) i p h f = elim (Option-cases (find q b)) [
  | inl nowhere ↦
      rw (nowhere, matches)
        (elim h [ inl same ↦ absurd (ground arith) | inr there ↦ matches-has b ps i p there f ])
  | inr (k, found) ↦
      rw (found, matches)
        (elim h [ inl same ↦ inl (ground arith) | inr there ↦ inr (matches-has b ps i p there f) ])
]

min_match-nil : (best : ℕ × Text) → min_match best [] ≡ best
unfolding min_match
min_match-nil best = refl

min_match-less :
    (best m : ℕ × Text) (ms : List (ℕ × Text))
    → ltb m.0 best.0 ≡ true
    → min_match best (m ∷ ms) ≡ min_match m ms
unfolding min_match
min_match-less best m ms h = ap (λ b. min_match (if b then m else best) ms) h

min_match-keep :
    (best m : ℕ × Text) (ms : List (ℕ × Text))
    → ltb m.0 best.0 ≡ false
    → min_match best (m ∷ ms) ≡ min_match best ms
unfolding min_match
min_match-keep best m ms h = ap (λ b. min_match (if b then m else best) ms) h

pub min_match-In : (best : ℕ × Text) (ms : List (ℕ × Text)) → In (min_match best ms) (best ∷ ms)
min_match-In best [] = inl (min_match-nil best)
min_match-In best (m ∷ ms) = elim (Bool-cases (ltb m.0 best.0)) [
  | inl less ↦
      subst (λ x. In x (best ∷ m ∷ ms)) (sym (min_match-less best m ms less))
        (inr (min_match-In m ms))
  | inr keep ↦
      subst (λ x. In x (best ∷ m ∷ ms)) (sym (min_match-keep best m ms keep))
        (elim (min_match-In best ms) [ inl same ↦ inl same | inr there ↦ inr (inr there) ])
]

min_match-le_self : (best : ℕ × Text) (ms : List (ℕ × Text)) → (min_match best ms).0 ≤ best.0
min_match-le_self best [] = rw (min_match-nil best) (omega arith)
min_match-le_self best (m ∷ ms) = elim (Bool-cases (ltb m.0 best.0)) [
  | inl less ↦ rw (min_match-less best m ms less) (omega (tests, min_match-le_self m ms))
  | inr keep ↦ rw (min_match-keep best m ms keep) (min_match-le_self best ms)
]

-- The least match is not after any of the matches.
pub min_match-le :
    (best : ℕ × Text) (ms : List (ℕ × Text)) (x : ℕ × Text)
    → In x (best ∷ ms)
    → (min_match best ms).0 ≤ x.0
min_match-le best [] x i =
    rw (min_match-nil best)
      (elim i [ inl same ↦ rw same (omega arith) | inr no_more ↦ absurd no_more ])
min_match-le best (m ∷ ms) x i = elim (Bool-cases (ltb m.0 best.0)) [
  | inl less ↦ rw (min_match-less best m ms less) (elim i [
    | inl same ↦ rw same (omega (tests, min_match-le_self m ms))
    | inr there ↦ min_match-le m ms x there
  ])
  | inr keep ↦ rw (min_match-keep best m ms keep) (elim i [
    | inl same ↦ rw same (min_match-le_self best ms)
    | inr there ↦ elim there [
      | inl second ↦ rw second (omega (tests, min_match-le_self best ms))
      | inr later ↦ min_match-le best ms x (inr later)
    ]
  ])
]

-- Where `p` stands at a place of the buffer, the least match is not after it.
pub least :
    (m : Dict Text) (b : Text) (x : ℕ × Text) (ms : List (ℕ × Text)) (p a r : Text)
    → matches b (keys m) ≡ x ∷ ms
    → In p (keys m)
    → b ≡ a ++ p ++ r
    → (min_match x ms).0 ≤ length a
least m b x ms p a r found i e =
    let (k, f, h) = find-le p a r in
    let j = matches-has b (keys m) k p i (rw e f) in
    omega (arith, min_match-le x ms (k, p) (rw found at j))
