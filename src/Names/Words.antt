-- ===== src/Names/Words.antt =====
-- The words of a text, and their places in it.
use privy_gate.Common.{
  ℕ, zero, suc, ◌≡◌, refl, sym, ap, ◌∙◌, Bool, true, inl, inr, List, [], ◌∷◌, ◌++◌, append_assoc,
  append-nil, some, Text, arith, length, take, In, find, find-le, leb, Bool-cases,
}
use privy_gate.Names.{join, spans_of, first_such}

pub first_such-In :
    (p : List Text → Bool) (xs : List (List Text)) {x : List Text}
    → first_such p xs ≡ some x
    → In x xs × (p x ≡ true)
unfolding first_such
first_such-In p [] h = absurd (ground arith)
first_such-In p (y ∷ ys) {x} h = elim (Bool-cases (p y)) [
  | inl e ↦ let same : y ≡ x = ground arith in (inl (sym same), rw (← same) e)
  | inr e ↦ let (i, q) = first_such-In p ys {x = x} (rw e at h) in (inr i, q)
]

-- Words joined are the joined words before a span, the span and what follows.
join-take : (count : ℕ) (ts : List Text) → (r : Text) × (join ts ≡ join (take count ts) ++ r)
unfolding join
join-take zero ts = (join ts, refl)
join-take (suc count) [] = ([], refl)
join-take (suc zero) (t ∷ []) = ([], sym (append-nil t))
join-take (suc (suc count)) (t ∷ []) = ([], sym (append-nil t))
join-take (suc zero) (t ∷ t' ∷ ts) = (b' ' ∷ join (t' ∷ ts), refl)
join-take (suc (suc count)) (t ∷ t' ∷ ts) =
    let (r, e) = join-take (suc count) (t' ∷ ts) in
    (r, ap (λ s. t ++ b' ' ∷ s) e ∙ sym (append_assoc t (b' ' ∷ join (t' ∷ take count ts)) r))

-- Where the joined words have the joined span.
abbrev pub HasPlace : List Text → List Text → Type 0
HasPlace span ts = (a r : Text) × (join ts ≡ a ++ join span ++ r)

HasPlace-cons :
    (count : ℕ) (t : Text) (ts span : List Text)
    → In span (spans_of count ts)
    → HasPlace span ts
    → HasPlace span (t ∷ ts)
unfolding spans_of join
HasPlace-cons count t [] span i p = absurd i
HasPlace-cons count t (t' ∷ ts) span i (a, r, e) = (
  t ++ b' ' ∷ a,
  r,
  ap (λ s. t ++ b' ' ∷ s) e
      ∙ sym (append_assoc t (b' ' ∷ (a ++ join span)) r)
      ∙ ap (λ s. s ++ r) (sym (append_assoc t (b' ' ∷ a) (join span))),
)

pub spans_of-HasPlace :
    (count : ℕ) (ts span : List Text) → In span (spans_of count ts) → HasPlace span ts
unfolding spans_of
spans_of-HasPlace count [] span i = absurd i
spans_of-HasPlace count (t ∷ ts) span i = elim (Bool-cases (leb count (length (t ∷ ts)))) [
  | inr e ↦ absurd (rw (spans_of, e) at i)
  | inl e ↦ here (λ j. spans_of-HasPlace count ts span j) (rw (spans_of, e) at i)
]
  where
    here :
        (In span (spans_of count ts) → HasPlace span ts)
        → In span (take count (t ∷ ts) ∷ spans_of count ts)
        → HasPlace span (t ∷ ts)
    here ih (inl same) =
        let (r, e) = join-take count (t ∷ ts) in ([], r, e ∙ ap (λ w. join w ++ r) (sym same))
    here ih (inr later) = HasPlace-cons count t ts span later (ih later)

-- Joined words are found where the words that they are a span of are joined.
pub spans_of-find :
    (count : ℕ) (ts span : List Text)
    → In span (spans_of count ts)
    → (i : ℕ) × (find (join span) (join ts) ≡ some i)
spans_of-find count ts span i =
    let (a, r, e) = spans_of-HasPlace count ts span i in
    let (n, found, small) = find-le (join span) a r in (n, ap (find (join span)) e ∙ found)
