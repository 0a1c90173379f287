-- ===== src/Demask/Drain.antt =====
-- One drain of the buffer against the reference: what is given out, followed by the reference on
-- what is left and on any text to come, is the reference on the buffer and that text.
use privy_gate.Common.{
  ℕ, suc, ◌+◌, ◌-◌, ◌≡◌, refl, sym, ap, ◌∙◌, Bool, true, false, ◌⊎◌, inl, inr, List, [], ◌∷◌, ◌++◌,
  append_assoc, append-nil, some, Text, arith, length, drop, take, In, starts_with-append,
  Bool-cases, Option-cases, starts_with-split, append_compare, ◌==◌, text_eq_iff, text_eq,
  length-drop, take-append-drop,
}
use privy_gate.Common.Dict
use privy_gate.Common.Dict.{Dict, keys}
use privy_gate.Demask.{
  matches, min_match, possible_placeholder_prefix_length, drain_rest, Drained, drain_loop, prepend,
}
use privy_gate.Demask.Scan.{
  first_prefix, scan, Clear, scan-Clear, scan-hit, is_separate, filled, separate, first_prefix-some,
  first_prefix-none,
}
use privy_gate.Demask.Kept.{Clear-before, Clear-after, Clear-end, kept-le}

-- What a drain of `buffer` has to give, for any text that may come after it.
pub record Restores (m : Dict Text) (final : Bool) (buffer : Text) (d : Drained) : Type 0 where
  pub goes_on :
      (rest : Text)
      → final ≡ false
      → scan m 0 (buffer ++ rest) ≡ d.output ++ scan m 0 (d.left ++ rest)
  pub ends : final ≡ true → (d.left ≡ []) × (d.output ≡ scan m 0 buffer)

pub Clear-no_placeholder : (u v : Text) → Clear [] u v
unfolding first_prefix
Clear-no_placeholder [] v = tt
Clear-no_placeholder (c ∷ u) v = (refl, Clear-no_placeholder u v)

pub scan-Clear_end : (m : Dict Text) (u : Text) → Clear m u [] → scan m 0 u ≡ u
unfolding scan
scan-Clear_end m u h = ap (scan m 0) (sym (append-nil u)) ∙ scan-Clear m u [] h ∙ append-nil u

-- What is kept for the next chunk is enough.
drain_kept :
    (m : Dict Text) (buffer rest : Text)
    → matches buffer (keys m) ≡ []
    → let e : ℕ = length buffer - possible_placeholder_prefix_length buffer (keys m) in
      scan m 0 (buffer ++ rest) ≡ take e buffer ++ scan m 0 (drop e buffer ++ rest)
drain_kept m buffer rest free =
    let e : ℕ = length buffer - possible_placeholder_prefix_length buffer (keys m) in
    let u : Text = take e buffer in
    let k : Text = drop e buffer in
    let same : u ++ k ≡ buffer = take-append-drop e buffer in
    let kept : possible_placeholder_prefix_length (u ++ k) (keys m) ≡ length k =
      ap (λ b. possible_placeholder_prefix_length b (keys m)) same
      ∙ omega (arith, length-drop e buffer, kept-le buffer (keys m)) in
    ap (λ b. scan m 0 (b ++ rest)) (sym same)
    ∙ ap (scan m 0) (append_assoc u k rest)
    ∙ scan-Clear m u (k ++ rest)
        (Clear-after m u k rest (ap (λ b. matches b (keys m)) same ∙ free) kept)

pub drain_rest-Restores :
    (m : Dict Text) (final : Bool) (buffer : Text)
    → matches buffer (keys m) ≡ []
    → Restores m final buffer (drain_rest final buffer (keys m))
unfolding drain_rest
drain_rest-Restores m true buffer free = record {
  goes_on = λ rest no_end. absurd (ground arith);
  ends = λ _. (refl, sym (scan-Clear_end m buffer (Clear-end m buffer free)));
}
drain_rest-Restores [] false buffer free = record {
  goes_on = λ rest _. scan-Clear [] buffer rest (Clear-no_placeholder buffer rest);
  ends = λ no_end. absurd (ground arith);
}
drain_rest-Restores ((p, value) ∷ m) false buffer free = record {
  goes_on = λ rest _.
      let keep = possible_placeholder_prefix_length buffer (p ∷ keys m) in
      elim (Bool-cases (keep == length buffer)) [
        | inl whole ↦ rw whole
        | inr part ↦ rw part (drain_kept ((p, value) ∷ m) buffer rest free)
      ];
  ends = λ no_end. absurd (ground arith);
}

pub list_cases {ℓ} :
    {A : Type ℓ} (xs : List A) → (xs ≡ []) ⊎ ((x : A) × (ys : List A) × (xs ≡ x ∷ ys))
list_cases [] = inl refl
list_cases (x ∷ xs) = inr (x, xs, refl)

pub get-In :
    (m : Dict Text) (p : Text) → In p (keys m) → (value : Text) × (Dict.get p m ≡ some value)
unfolding Dict.get
get-In [] p i = absurd i
get-In ((q, w) ∷ m) p i = elim (Bool-cases (text_eq q p)) [
  | inl same ↦ (w, rw same)
  | inr differs ↦ elim i [
    | inl same ↦ absurd (ground (arith, text_eq_iff q p))
    | inr there ↦ let (value, got) = get-In m p there in (value, rw (differs, got))
  ]
]

pub length-zero : (r : Text) → length r ≡ 0 → r ≡ []
length-zero [] h = refl
length-zero (c ∷ r) h = absurd (omega arith)

pub drain_loop-hit :
    (fuel : ℕ) (m : Dict Text) (final : Bool) (c : ℕ) (s : Text) (x : ℕ × Text)
    (ms : List (ℕ × Text)) {value : Text}
    → matches (c ∷ s) (keys m) ≡ x ∷ ms
    → Dict.get (min_match x ms).1 m ≡ some value
    → drain_loop (suc fuel) m final (c ∷ s)
      ≡ prepend
          (take (min_match x ms).0 (c ∷ s) ++ value)
          (drain_loop fuel m final (drop ((min_match x ms).0 + length (min_match x ms).1) (c ∷ s)))
unfolding drain_loop
drain_loop-hit fuel m final c s x ms found got = rw (found, drain_loop) (rw got)

pub drain_loop-miss :
    (fuel : ℕ) (m : Dict Text) (final : Bool) (c : ℕ) (s : Text)
    → matches (c ∷ s) (keys m) ≡ []
    → drain_loop (suc fuel) m final (c ∷ s) ≡ some (drain_rest final (c ∷ s) (keys m))
unfolding drain_loop
drain_loop-miss fuel m final c s found = rw (found, drain_loop)

module _ (m : Dict Text) (sep : is_separate (keys m) ≡ true) where
  -- A placeholder that stands at the beginning is the one that the reference finds there.
  first_prefix-hit :
      (p v : Text) {value : Text}
      → In p (keys m)
      → Dict.get p m ≡ some value
      → first_prefix m (p ++ v) ≡ some (p, value)
  first_prefix-hit p v {value} i got = elim (Option-cases (first_prefix m (p ++ v))) [
    | inl nothing ↦
        let no_begin = first_prefix-none m (p ++ v) p nothing i in
        let begins = starts_with-append p v in absurd (ground arith)
    | inr ((q, w), hit) ↦
        let (j, begins, got_q) = first_prefix-some m _ hit in
        let (z, split) = starts_with-split q _ begins in
        let same : q ≡ p = elim (append_compare p q v z split) [
          | inl (r, longer) ↦
              let none_left = length-zero r (omega (arith, separate m sep q p [] r j i longer)) in
              sym (longer ∙ ap (◌++◌ q) none_left ∙ append-nil q)
          | inr (r, longer) ↦
              let none_left = length-zero r (omega (arith, separate m sep p q [] r i j longer)) in
              longer ∙ ap (◌++◌ p) none_left ∙ append-nil p
        ] in
        let got_w : Dict.get p m ≡ some w = rw same at got_q in rw (hit, same) (ground arith)
  ]

  pub scan-placeholder :
      (p v : Text) {value : Text}
      → In p (keys m)
      → Dict.get p m ≡ some value
      → scan m 0 (p ++ v) ≡ value ++ scan m 0 v
  scan-placeholder [] v i got = absurd (filled m sep [] i refl)
  scan-placeholder (c ∷ p) v {value} i got =
      scan-hit m c p v value (first_prefix-hit (c ∷ p) v i got)

  -- The reference on a buffer whose least match is the placeholder between `a` and `r`.
  pub scan-match :
      (a p r rest : Text) (x : ℕ × Text) (ms : List (ℕ × Text)) {value : Text}
      → matches (a ++ p ++ r) (keys m) ≡ x ∷ ms
      → In p (keys m)
      → (min_match x ms).0 ≡ length a
      → Dict.get p m ≡ some value
      → scan m 0 (a ++ p ++ r ++ rest) ≡ (a ++ value) ++ scan m 0 (r ++ rest)
  scan-match a p r rest x ms {value} found i pos got =
      ap (scan m 0) (simp append_assoc)
      ∙ scan-Clear m a (p ++ (r ++ rest)) (Clear-before m sep a p r rest x ms found i pos)
      ∙ ap (◌++◌ a) (scan-placeholder p (r ++ rest) i got)
      ∙ sym (append_assoc a value (scan m 0 (r ++ rest)))
