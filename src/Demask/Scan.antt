-- ===== src/Demask/Scan.antt =====
-- The reference for demasking: one pass over the whole text that replaces a placeholder where it
-- begins and copies every other character.
use privy_gate.Common.{
  ℕ, zero, suc, ◌+◌, ◌-◌, ◌≡◌, ◌≢◌, refl, ap, ◌∙◌, Bool, true, false, ◌&&◌, ◌||◌, inl, inr, List,
  [], ◌∷◌, ◌++◌, Option, none, some, Text, arith, length, all, In, starts_with, find, text_eq,
  Bool-cases, find-le, length-append, text_eq_iff, if◌then◌else◌,
}
use privy_gate.Common.Dict
use privy_gate.Common.Dict.{Dict, keys}

-- The first entry whose placeholder begins the text.
unfoldable pub first_prefix : Dict Text → Text → Option (Text × Text)
first_prefix [] s = none
first_prefix ((p, value) ∷ m) s = if starts_with p s then some (p, value) else first_prefix m s

-- `skip` counts the characters of a replaced placeholder that are still to come.
unfoldable pub scan : Dict Text → ℕ → Text → Text
scan m skip [] = []
scan m (suc skip) (c ∷ s) = scan m skip s
scan m zero (c ∷ s) = elim (first_prefix m (c ∷ s)) [
  | none ↦ c ∷ scan m zero s
  | some (p, value) ↦ value ++ scan m (length p - 1) s
]

-- No placeholder begins within `u`, in `u ++ v`.
abbrev pub Clear : Dict Text → Text → Text → Type 0
Clear m [] v = Unit
Clear m (c ∷ u) v = (first_prefix m (c ∷ u ++ v) ≡ none) × Clear m u v

pub scan-Clear : (m : Dict Text) (u v : Text) → Clear m u v → scan m 0 (u ++ v) ≡ u ++ scan m 0 v
unfolding scan
scan-Clear m [] v h = refl
scan-Clear m (c ∷ u) v h = rw (h.0, scan) (ap (◌∷◌ c) (scan-Clear m u v h.1))

pub scan-skip : (m : Dict Text) (p v : Text) → scan m (length p) (p ++ v) ≡ scan m 0 v
unfolding scan
scan-skip m [] v = refl
scan-skip m (c ∷ p) v = scan-skip m p v

pub scan-hit :
    (m : Dict Text) (c : ℕ) (p v value : Text)
    → first_prefix m (c ∷ p ++ v) ≡ some (c ∷ p, value)
    → scan m 0 (c ∷ p ++ v) ≡ value ++ scan m 0 v
unfolding scan
scan-hit m c p v value h =
    let e : length (c ∷ p) - 1 ≡ length p = omega arith in
    rw (h, scan) (ap (λ n. value ++ scan m n (p ++ v)) e ∙ ap (◌++◌ value) (scan-skip m p v))

lacks : Text → Text → Bool
lacks p q = elim (find p q) [ none ↦ true | some i ↦ false ]

is_filled : Text → Bool
is_filled [] = false
is_filled (c ∷ p) = true

-- No placeholder is empty, and none stands inside another.
unfoldable pub is_separate : List Text → Bool
unfolding lacks is_filled
is_separate ps = all (λ p. is_filled p && all (λ q. text_eq p q || lacks p q) ps) ps

all-In : (f : Text → Bool) (ps : List Text) (p : Text) → all f ps ≡ true → In p ps → f p ≡ true
all-In f [] p h i = absurd i
all-In f (x ∷ ps) p h i = elim i [
  | inl here ↦ rw here (ground arith)
  | inr there ↦ all-In f ps p (ground arith) there
]

module _ (m : Dict Text) (sep : is_separate (keys m) ≡ true) where
  pub filled : (p : Text) → In p (keys m) → p ≢ []
  unfolding is_separate
  filled p i e = let h = all-In _ (keys m) p sep i in ground arith

  same_or_lacks : (p q : Text) → In p (keys m) → In q (keys m) → (text_eq p q || lacks p q) ≡ true
  unfolding is_separate
  same_or_lacks p q i j =
      let h = all-In _ (keys m) p sep i in
      all-In (λ r. text_eq p r || lacks p r) (keys m) q (ground arith) j

  -- A placeholder that holds another is that one.
  pub separate :
      (p q a b : Text) → In p (keys m) → In q (keys m) → q ≡ a ++ p ++ b → length a + length b ≡ 0
  unfolding lacks
  separate p q a b i j e =
      let h = same_or_lacks p q i j in
      let lengths = ap length e ∙ length-append (a ++ p) b in
      let more = length-append a p in
      elim (Bool-cases (text_eq p q)) [
        | inl same ↦ omega (arith, ap length ((text_eq_iff p q).0 same), lengths, more)
        | inr differs ↦
            let (k, found, _) = find-le p a b in
            let found' : find p q ≡ some k = rw e found in absurd (ground arith)
      ]

-- What `first_prefix` finds, and that it finds what there is.
pub first_prefix-some :
    (m : Dict Text) (s : Text) {p value : Text}
    → first_prefix m s ≡ some (p, value)
    → In p (keys m) × (starts_with p s ≡ true) × (Dict.get p m ≡ some value)
unfolding first_prefix Dict.get
first_prefix-some [] s h = absurd (ground arith)
first_prefix-some ((q, w) ∷ m) s {p} {value} h = elim (Bool-cases (starts_with q s)) [
  | inl here ↦ (inl (ground arith), ground arith, ground (arith, text_eq_iff q p))
  | inr later ↦
      let (i, begins, got) = first_prefix-some m s {p = p} {value = value} (ground arith) in
      (inr i, begins, ground (arith, text_eq_iff q p))
]

pub first_prefix-none :
    (m : Dict Text) (s p : Text) → first_prefix m s ≡ none → In p (keys m) → starts_with p s ≡ false
unfolding first_prefix
first_prefix-none [] s p h i = absurd i
first_prefix-none ((q, w) ∷ m) s p h i = elim (Bool-cases (starts_with q s)) [
  | inl here ↦ absurd (ground arith)
  | inr later ↦ elim i [
    | inl same ↦ rw same later
    | inr there ↦ first_prefix-none m s p (ground arith) there
  ]
]
