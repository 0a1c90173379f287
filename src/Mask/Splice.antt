-- ===== src/Mask/Splice.antt =====
-- The loop of `mask` in the mode of typed placeholders: what it records, and what replacing the
-- recorded placeholders in its output gives.
use privy_gate.Common.{
  drop-drop, ℕ, ◌+◌, ◌-◌, ◌≤◌, ◌≡◌, ◌≢◌, refl, sym, ◌∙◌, ap, true, false, inl, inr, List, [], ◌∷◌,
  ◌++◌, Option, none, some, Text, arith, take, drop, All, In, Bool-cases, Option-cases, starts_with,
  text_eq, text_eq_iff, take-append-drop,
}
use privy_gate.Common.Dict
use privy_gate.Common.Dict.{Dict, keys, get-put, get-put_inv}
use privy_gate.Demask.Scan.{first_prefix, scan, Clear, scan-Clear, is_separate, first_prefix-some}
use privy_gate.Demask.Drain.{scan-placeholder, scan-Clear_end}
use privy_gate.Mask.{
  PiiMatch, MaskerConfig, Masker, typed_placeholder, typed_value, placeholder, next_index, index_of,
  placeholder_of, note_match, splice,
}
use privy_gate.Mask.Overlap.{Chain}
use privy_gate.Mask.Typed.{typed_value-injective, typed_value-cons, underscore, IsPlain}

abbrev count_of : Option ℕ → ℕ
count_of none = 0
count_of (some n) = n

abbrev count : Text → Masker → ℕ
count t s = count_of (Dict.get t s.counters)

-- Every placeholder on record is the typed one of a number that its type has reached.
abbrev pub IsKnown : Masker → Type 0
IsKnown s =
    (k v : Text)
    → Dict.get k s.mapping ≡ some v
    → (t : Text) × (i : ℕ) × (k ≡ typed_value t i) × (i ≤ count t s)

-- What is on record stays on record.
abbrev pub Grows : Masker → Masker → Type 0
Grows s t = (k v : Text) → Dict.get k s.mapping ≡ some v → Dict.get k t.mapping ≡ some v

next_index-count : (o : Option ℕ) → next_index o ≡ count_of o + 1
next_index-count none = refl
next_index-count (some n) = refl

module _ (c : MaskerConfig) (typed : c.masking_mode ≡ typed_placeholder) where
  placeholder-typed :
      (s : Masker) (m : PiiMatch) → placeholder_of c s m ≡ typed_value m.pii_type (index_of c s m)
  unfolding placeholder
  placeholder-typed s m = rw (typed, placeholder)

  -- The placeholder of the next match is new.
  placeholder-fresh :
      (s : Masker) (m : PiiMatch) → IsKnown s → Dict.get (placeholder_of c s m) s.mapping ≡ none
  placeholder-fresh s m known = elim (Option-cases (Dict.get (placeholder_of c s m) s.mapping)) [
    | inl fresh ↦ fresh
    | inr (v, old) ↦
        let (t, i, e, h) = known (placeholder_of c s m) v old in
        let (types, numbers) =
          typed_value-injective m.pii_type t (index_of c s m) i (sym (placeholder-typed s m) ∙ e) in
        absurd (
          omega (
            arith,
            next_index-count (Dict.get m.pii_type s.counters),
            ap (λ u. count u s) types,
            numbers,
            h,
          ))
  ]

  count-note_match : (s : Masker) (m : PiiMatch) (t : Text) → count t s ≤ count t (note_match c s m)
  count-note_match s m t = elim (Bool-cases (text_eq m.pii_type t)) [
    | inl same ↦
        let e = (text_eq_iff m.pii_type t).0 same in
        rw (get-put, same)
          (omega (arith, next_index-count (Dict.get m.pii_type s.counters), ap (λ u. count u s) e))
    | inr differs ↦ rw (get-put, differs) (omega arith)
  ]

  count-note_match_self :
      (s : Masker) (m : PiiMatch) → index_of c s m ≤ count m.pii_type (note_match c s m)
  count-note_match_self s m =
      let same = (text_eq_iff m.pii_type m.pii_type).1 refl in rw (get-put, same) (omega arith)

  note_match-IsKnown : (s : Masker) (m : PiiMatch) → IsKnown s → IsKnown (note_match c s m)
  note_match-IsKnown s m known = λ k v h.
      elim (get-put_inv k (placeholder_of c s m) m.value s.mapping h) [
        | inl (here, _) ↦
            (m.pii_type, index_of c s m, here ∙ placeholder-typed s m, count-note_match_self s m)
        | inr old ↦
            let (t, i, e, n) = known k v old in (t, i, e, omega (arith, n, count-note_match s m t))
      ]

  note_match-Grows : (s : Masker) (m : PiiMatch) → IsKnown s → Grows s (note_match c s m)
  note_match-Grows s m known = λ k v h.
      let fresh = placeholder-fresh s m known in
      elim (Bool-cases (text_eq (placeholder_of c s m) k)) [
        | inl same ↦
            let e = (text_eq_iff (placeholder_of c s m) k).0 same in
            let lost = rw e at fresh in absurd (ground arith)
        | inr differs ↦ rw (get-put, differs) h
      ]

  pub splice-IsKnown :
      (text : Text) (n : ℕ) (ms : List PiiMatch) (s : Masker)
      → IsKnown s
      → IsKnown (splice c text n ms s).1
  unfolding splice
  splice-IsKnown text n [] s known = known
  splice-IsKnown text n (m ∷ ms) s known =
      splice-IsKnown text m.end ms (note_match c s m) (note_match-IsKnown s m known)

  splice-Grows :
      (text : Text) (n : ℕ) (ms : List PiiMatch) (s : Masker)
      → IsKnown s
      → Grows s (splice c text n ms s).1
  unfolding splice
  splice-Grows text n [] s known = λ k v h. h
  splice-Grows text n (m ∷ ms) s known = λ k v h.
      splice-Grows text m.end ms (note_match c s m) (note_match-IsKnown s m known) k v
        (note_match-Grows s m known k v h)

-- Every match holds its part of the text.
abbrev pub HoldsSlices : Text → List PiiMatch → Type 0
HoldsSlices text = All (λ m. m.value ≡ take (m.end - m.start) (drop m.start text))

-- Outside the matches the text has no underscore.
abbrev pub PlainOutside : Text → ℕ → List PiiMatch → Type 0
PlainOutside text n [] = IsPlain (drop n text)
PlainOutside text n (m ∷ ms) =
    IsPlain (take (m.start - n) (drop n text)) × PlainOutside text m.end ms

get-some-In : (m : Dict Text) (k : Text) {v : Text} → Dict.get k m ≡ some v → In k (keys m)
unfolding Dict.get
get-some-In [] k h = absurd (ground arith)
get-some-In ((j, w) ∷ m) k {v} h = elim (Bool-cases (text_eq j k)) [
  | inl same ↦ inl (sym ((text_eq_iff j k).0 same))
  | inr differs ↦ inr (get-some-In m k {v = v} (ground arith))
]

slice-drop :
    (text : Text) (a b : ℕ) → a ≤ b → take (b - a) (drop a text) ++ drop b text ≡ drop a text
slice-drop text a b h =
    ap (◌++◌ (take (b - a) (drop a text))) (sym (drop-drop a (b - a) b text (omega arith)))
    ∙ take-append-drop (b - a) (drop a text)

-- The keys begin with an underscore.
abbrev pub IsMarked : Dict Text → Type 0
IsMarked m = (k v : Text) → Dict.get k m ≡ some v → (r : Text) × (k ≡ underscore ∷ r)

pub IsKnown-IsMarked : (s : Masker) → IsKnown s → IsMarked s.mapping
IsKnown-IsMarked s known k v h =
    let (t, i, e, n) = known k v h in let (r, f) = typed_value-cons t i in (r, e ∙ f)

not_begun :
    (r : Text) (c : ℕ) (u : Text) → c ≢ underscore → starts_with (underscore ∷ r) (c ∷ u) ≡ false
unfolding starts_with
not_begun r c u h = ground arith

IsPlain-Clear : (m : Dict Text) (u v : Text) → IsMarked m → IsPlain u → Clear m u v
IsPlain-Clear m [] v marked p = tt
IsPlain-Clear m (c ∷ u) v marked p = (
  elim (Option-cases (first_prefix m (c ∷ u ++ v))) [
    | inl nothing ↦ nothing
    | inr ((q, w), hit) ↦
        let (i, begins, got) = first_prefix-some m _ hit in
        let (r, e) = marked q w got in
        let no_begin = not_begun r c (u ++ v) p.0 in
        let begins' = rw e at begins in absurd (ground arith)
  ],
  IsPlain-Clear m u v marked p.1,
)

module _ (c : MaskerConfig) (typed : c.masking_mode ≡ typed_placeholder) (text : Text)
    (mapping : Dict Text) (sep : is_separate (keys mapping) ≡ true)
    (marked : IsMarked mapping) where
  -- The reference on what the loop gives out, with a mapping that holds what is recorded.
  pub scan-splice :
      (n : ℕ) (ms : List PiiMatch) (s : Masker)
      → IsKnown s
      → ((k v : Text)
          → Dict.get k (splice c text n ms s).1.mapping ≡ some v
          → Dict.get k mapping ≡ some v)
      → Chain n ms
      → HoldsSlices text ms
      → PlainOutside text n ms
      → scan mapping 0 (splice c text n ms s).0 ≡ drop n text
  unfolding splice
  scan-splice n [] s known grows chain held plain =
      scan-Clear_end mapping (drop n text) (IsPlain-Clear mapping (drop n text) [] marked plain)
  scan-splice n (m ∷ ms) s known grows chain held plain =
      let raw : Text = take (m.start - n) (drop n text) in
      let p : Text = placeholder_of c s m in
      let s' : Masker = note_match c s m in
      let rest : Text = (splice c text m.end ms s').0 in
      let known' = note_match-IsKnown c typed s m known in
      let same = (text_eq_iff p p).1 refl in
      let here : Dict.get p s'.mapping ≡ some m.value = rw (get-put, same) refl in
      let got = grows p m.value (splice-Grows c typed text m.end ms s' known' p m.value here) in
      scan-Clear mapping raw (p ++ rest) (IsPlain-Clear mapping raw (p ++ rest) marked plain.0)
      ∙ ap (◌++◌ raw) (
          scan-placeholder mapping sep p rest (get-some-In mapping p got) got
          ∙ ap (◌++◌ m.value) (scan-splice m.end ms s' known' grows chain.2 held.1 plain.1)
          ∙ rw held.0 (slice-drop text m.start m.end (omega arith)))
      ∙ slice-drop text n m.start chain.0
