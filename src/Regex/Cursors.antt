-- ===== src/Regex/Cursors.antt =====
-- The places that a match of a pattern goes through.
use privy_gate.Common.{
  ℕ, zero, suc, ◌-◌, ◌≤◌, ◌<◌, ◌≡◌, refl, ◌∙◌, Bool, true, false, ◌&&◌, ◌||◌, inl, inr, List, [],
  ◌∷◌, Text, arith, ltb, length, drop, map, All, All-append, Bool-cases,
}
use privy_gate.Regex.{
  Regex, nothing, one_of, sequence, either, at_least, between, group, not_behind, not_ahead,
  word_boundary, Cursor, bind, advance, only_if, times, optional, note, run,
}

pub record At (text : Text) (c : Cursor) : Type 0 where
  pub here : drop c.position text ≡ c.rest
  pub inside : c.position ≤ length text

-- From `c` to `d`: `d` is in the text and not before `c`, and behind it if `moves`.
pub record Follows (text : Text) (moves : Bool) (c d : Cursor) : Type 0 where
  pub at : At text d
  pub on : c.position ≤ d.position
  pub moved : moves ≡ true → c.position < d.position

-- Whether each match of a pattern takes a character.
unfoldable pub consumes : Regex → Bool
consumes (one_of p) = true
consumes (sequence r s) = consumes r || consumes s
consumes (either r s) = consumes r && consumes s
consumes (at_least least r) = ltb 0 least && consumes r
consumes (between least most r) = ltb 0 least && consumes r
consumes (group name r) = consumes r
consumes nothing = false
consumes (not_behind p) = false
consumes (not_ahead p) = false
consumes (word_boundary p) = false

module _ {A B : Type 0} (P : B → Type 0) where
  pub All-bind :
      (Q : A → Type 0) (xs : List A) (f : A → List B)
      → All Q xs
      → ((x : A) → Q x → All P (f x))
      → All P (bind xs f)
  All-bind Q [] f a h = tt
  All-bind Q (x ∷ xs) f a h = All-append P (f x) (bind xs f) (h x a.0) (All-bind Q xs f a.1 h)

  pub All-map :
      (Q : A → Type 0) (xs : List A) (f : A → B)
      → All Q xs
      → ((x : A) → Q x → P (f x))
      → All P (map f xs)
  All-map Q [] f a h = tt
  All-map Q (x ∷ xs) f a h = (h x a.0, All-map Q xs f a.1 h)

module _ {A : Type 0} (P Q : A → Type 0) where
  pub All-weaken : (xs : List A) → All P xs → ((x : A) → P x → Q x) → All Q xs
  All-weaken [] a h = tt
  All-weaken (x ∷ xs) a h = (h x a.0, All-weaken xs a.1 h)

pub drop_cons :
    (n : ℕ) (text : Text) {x : ℕ} {s : Text}
    → drop n text ≡ x ∷ s
    → (drop (suc n) text ≡ s) × (n < length text)
drop_cons zero [] h = absurd (ground arith)
drop_cons zero (y ∷ t) h = (ground arith, omega arith)
drop_cons (suc n) [] h = absurd (ground arith)
drop_cons (suc n) (y ∷ t) {x} {s} h =
    let (e, k) = drop_cons n t {x = x} {s = s} h in (e, omega arith)

module _ (text : Text) where
  pub Follows-refl : (c : Cursor) → At text c → Follows text false c c
  Follows-refl c a = record { at = a; on = omega arith; moved = λ e. cc }

  pub Follows-trans :
      (b b' : Bool) {c d e : Cursor}
      → Follows text b c d
      → Follows text b' d e
      → Follows text (b || b') c e
  Follows-trans b b' f g = record {
    at = g.at;
    on = omega (arith, f.on, g.on);
    moved = λ h. elim (Bool-cases b) [
      | inl first ↦ omega (arith, f.moved first, g.on)
      | inr later ↦ let h' : b' ≡ true = ground arith in omega (arith, f.on, g.moved h')
    ];
  }

  Follows-weaken :
      (b b' : Bool) {c d : Cursor}
      → (b' ≡ true → b ≡ true)
      → Follows text b c d
      → Follows text b' c d
  Follows-weaken b b' h f = record { at = f.at; on = f.on; moved = λ e. f.moved (h e) }

  All-Follows-bind :
      (b b' : Bool) (c : Cursor) (cs : List Cursor) (f : Cursor → List Cursor)
      → All (Follows text b c) cs
      → ((d : Cursor) → At text d → All (Follows text b' d) (f d))
      → All (Follows text (b || b') c) (bind cs f)
  All-Follows-bind b b' c cs f a h =
      All-bind (Follows text (b || b') c) (Follows text b c) cs f a (λ d g.
        All-weaken (Follows text b' d) (Follows text (b || b') c) (f d) (h d g.at)
          (λ e k. Follows-trans b b' g k))

  advance-Follows :
      (p : ℕ → Bool) (s : Text) (c : Cursor)
      → At text c
      → c.rest ≡ s
      → All (Follows text true c) (advance p s c)
  unfolding advance
  advance-Follows p [] c a e = tt
  advance-Follows p (x ∷ s) c a e = elim (Bool-cases (p x)) [
    | inl passes ↦
        let (there, small) = drop_cons c.position text (a.here ∙ e) in
        rw passes (
          record {
            at = record { here = there; inside = omega arith };
            on = omega arith;
            moved = λ h. omega arith;
          },
          tt,
        )
    | inr fails ↦ rw fails tt
  ]

  only_if-Follows : (b : Bool) (c : Cursor) → At text c → All (Follows text false c) (only_if b c)
  only_if-Follows true c a = (Follows-refl c a, tt)
  only_if-Follows false c a = tt

  module _ (b : Bool) (step : Cursor → List Cursor)
      (h : (c : Cursor) → At text c → All (Follows text b c) (step c)) where
    times-Follows :
        (n : ℕ) (c : Cursor) → At text c → All (Follows text (ltb 0 n && b) c) (times n step c)
    unfolding times
    times-Follows zero c a = (Follows-refl c a, tt)
    times-Follows (suc n) c a =
        All-weaken (Follows text (b || (ltb 0 n && b)) c) (Follows text (ltb 0 (suc n) && b) c) _
          (All-Follows-bind b (ltb 0 n && b) c (step c) (times n step) (h c a) (times-Follows n))
          (λ d f. Follows-weaken _ _ (λ e. ground arith) f)

    optional-Follows :
        (n : ℕ) (c : Cursor) → At text c → All (Follows text false c) (optional n step c)
    unfolding optional
    optional-Follows zero c a = (Follows-refl c a, tt)
    optional-Follows (suc n) c a =
        All-append (Follows text false c) (bind (step c) (optional n step)) (c ∷ [])
          (All-weaken (Follows text (b || false) c) (Follows text false c) _
            (All-Follows-bind b false c (step c) (optional n step) (h c a) (optional-Follows n))
            (λ d f. Follows-weaken _ _ (λ e. cc) f))
          (Follows-refl c a, tt)

    repeat-Follows :
        (least more : ℕ) (c : Cursor)
        → At text c
        → All (Follows text (ltb 0 least && b) c) (bind (times least step c) (optional more step))
    repeat-Follows least more c a =
        All-weaken (Follows text ((ltb 0 least && b) || false) c)
          (Follows text (ltb 0 least && b) c) _
          (All-Follows-bind (ltb 0 least && b) false c _ (optional more step)
            (times-Follows least c a) (optional-Follows more))
          (λ d f. Follows-weaken _ _ (λ e. ground arith) f)

  pub run-Follows :
      (r : Regex) (c : Cursor) → At text c → All (Follows text (consumes r) c) (run r c)
  unfolding run consumes
  run-Follows nothing c a = (Follows-refl c a, tt)
  run-Follows (one_of p) c a = advance-Follows p c.rest c a refl
  run-Follows (sequence r s) c a =
      All-Follows-bind (consumes r) (consumes s) c (run r c) (run s) (run-Follows r c a)
        (run-Follows s)
  run-Follows (either r s) c a =
      let both = consumes r && consumes s in
      All-append (Follows text both c) (run r c) (run s c)
        (All-weaken (Follows text (consumes r) c) (Follows text both c) _ (run-Follows r c a)
          (λ d f. Follows-weaken _ _ (λ e. ground arith) f))
        (All-weaken (Follows text (consumes s) c) (Follows text both c) _ (run-Follows s c a)
          (λ d f. Follows-weaken _ _ (λ e. ground arith) f))
  run-Follows (at_least least r) c a =
      repeat-Follows (consumes r) (run r) (run-Follows r) least (length c.rest) c a
  run-Follows (between least most r) c a =
      repeat-Follows (consumes r) (run r) (run-Follows r) least (most - least) c a
  run-Follows (group name r) c a =
      All-map (Follows text (consumes r) c) (Follows text (consumes r) c) (run r c)
        (note name c.position) (run-Follows r c a)
        (λ d f. record {
          at = record { here = f.at.here; inside = f.at.inside };
          on = f.on;
          moved = f.moved;
        })
  run-Follows (not_behind p) c a = only_if-Follows _ c a
  run-Follows (not_ahead p) c a = only_if-Follows _ c a
  run-Follows (word_boundary p) c a = only_if-Follows _ c a
