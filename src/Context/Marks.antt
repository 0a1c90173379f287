-- ===== src/Context/Marks.antt =====
-- What a confidence above the weak one says of the text.
use privy_gate.Common.{
  ℕ, ◌-◌, ◌≤◌, ◌<◌, ◌≡◌, ◌≢◌, refl, inl, inr, List, [], ◌∷◌, Option, some, Text, arith, tests, ltb,
  leb, ◌==◌, In, Bool-cases, Option-cases,
}
use privy_gate.Common.Dict.{Dict}
use privy_gate.Regex.{Match, slice}
use privy_gate.Context.{
  Platform, ContextConfig, boundary_multiplier, near_influence, marker_influence,
  strongest_influence, strongest_of, markers, context_influence, hundredths, context_confidence,
}

-- The marker stands beside the span, within the window, with no hard boundary between.
pub data IsNear (window : ℕ) (multiplier : Text → ℕ) (text : Text) (start end : ℕ) (m : Match)
    : Type 0 where
  before :
      m.end ≤ start
      → start - m.end ≤ window
      → multiplier (slice m.end start text) ≢ 0
      → IsNear window multiplier text start end m
  behind :
      end ≤ m.start
      → m.start - end ≤ window
      → multiplier (slice end m.start text) ≢ 0
      → IsNear window multiplier text start end m

near_influence-some :
    (f : ℕ → ℕ → ℕ) (window : ℕ) (multiplier : Text → ℕ) (distance : ℕ) (between : Text) {n : ℕ}
    → near_influence f window multiplier distance between ≡ some n
    → (distance ≤ window) × (multiplier between ≢ 0)
unfolding near_influence
near_influence-some f window multiplier distance between h =
    elim (Bool-cases (ltb window distance)) [
      | inl far ↦ absurd (ground arith)
      | inr close ↦ elim (Bool-cases (multiplier between == 0)) [
        | inl hard ↦ absurd (ground arith)
        | inr soft ↦ (ground arith, λ e. ground arith)
      ]
    ]

marker_influence-some :
    (f : ℕ → ℕ → ℕ) (window : ℕ) (multiplier : Text → ℕ) (text : Text) (start end : ℕ) (m : Match)
    {n : ℕ}
    → marker_influence f window multiplier text start end m ≡ some n
    → IsNear window multiplier text start end m
unfolding marker_influence
marker_influence-some f window multiplier text start end m h = elim (Bool-cases (leb m.end start)) [
  | inl left ↦
      let (close, soft) = near_influence-some f window multiplier _ _ (rw left at h) in
      before (omega tests) close soft
  | inr not_left ↦ elim (Bool-cases (leb end m.start)) [
    | inl right ↦
        let (close, soft) =
          near_influence-some f window multiplier _ _ (rw (not_left, right) at h) in
        behind (omega tests) close soft
    | inr inside ↦ absurd (ground arith)
  ]
]

-- A strongest influence above the one that the loop starts with comes from a marker.
strongest_influence-from :
    (f : Match → Option ℕ) (n : ℕ) (ms : List Match)
    → n < strongest_influence f n ms
    → (m : Match) × In m ms × (k : ℕ) × (f m ≡ some k)
unfolding strongest_influence
strongest_influence-from f n [] h = absurd (omega arith)
strongest_influence-from f n (m ∷ ms) h = elim (Option-cases (f m)) [
  | inr (k, found) ↦ (m, inl refl, k, found)
  | inl nothing ↦
      let (m', i, k, found) = strongest_influence-from f n ms (rw nothing at h) in
      (m', inr i, k, found)
]

strongest_of-from :
    (f : Text → ℕ → ℕ) (ws : Dict ℕ)
    → 0 < strongest_of f ws
    → (phrase : Text) × (weight : ℕ) × In (phrase, weight) ws × (0 < f phrase weight)
unfolding strongest_of
strongest_of-from f [] h = absurd (omega arith)
strongest_of-from f ((phrase, weight) ∷ ws) h = elim (Bool-cases (ltb 0 (f phrase weight))) [
  | inl here ↦ (phrase, weight, inl refl, omega tests)
  | inr later ↦ let (p, w, i, more) = strongest_of-from f ws (omega tests) in (p, w, inr i, more)
]

context_influence-marked :
    (l : Platform) (text : Text) (start end : ℕ) (phrase : Text) (weight : ℕ)
    (config : ContextConfig)
    → 0 < context_influence l text start end phrase weight config
    → (m : Match) × In m (markers l phrase text)
      × IsNear config.context_window_chars (boundary_multiplier l.chars config) text start end m
unfolding context_influence
context_influence-marked l text start end phrase weight config pos =
    let (m, j, k, found) = strongest_influence-from _ 0 (markers l phrase text) pos in
    (m, j, marker_influence-some _ _ _ text start end m found)

-- Where the confidence of a span is above the weak one, a positive phrase of the configuration has
-- a marker in the casefolded text that stands beside the span, within the window and with no hard
-- boundary between.
pub context_confidence-marked :
    (l : Platform) (text : Text) (start end : ℕ) (config : ContextConfig)
    → hundredths l config.weak_confidence < context_confidence l text start end config
    → (phrase : Text) × (weight : ℕ) × (m : Match) × In
        (phrase, weight)
        config.positive_context_weights
      × In m (markers l phrase text)
      × IsNear config.context_window_chars (boundary_multiplier l.chars config) text start end m
unfolding context_confidence
context_confidence-marked l text start end config h =
    let (phrase, weight, i, some_influence) =
      strongest_of-from (λ phrase weight. context_influence l text start end phrase weight config)
        config.positive_context_weights (omega arith) in
    let (m, j, near) =
      context_influence-marked l text start end phrase weight config some_influence in
    (phrase, weight, m, i, j, near)
