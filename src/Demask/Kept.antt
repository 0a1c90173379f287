-- ===== src/Demask/Kept.antt =====
-- Where no placeholder begins: before the least match, and before what is kept for the next chunk.
use privy_gate.Common.{
  ℕ, zero, suc, ◌-◌, ◌≤◌, ◌<◌, ◌≡◌, refl, sym, ap, ◌∙◌, Bool, true, inl, inr, List, [], ◌∷◌, ◌++◌,
  append_assoc, append-nil, none, some, Text, arith, length, drop, In, starts_with,
  starts_with-append, find, Bool-cases, Option-cases, starts_with-split, append_compare, find-le,
  length-append, drop-append, min, any, last, ==_iff, ◌==◌,
}
use privy_gate.Common.Dict.{Dict, keys}
use privy_gate.Demask.{
  matches, min_match, longest_prefix, max_prefix, possible_placeholder_prefix_length,
}
use privy_gate.Demask.Scan.{first_prefix, Clear, is_separate, separate, first_prefix-some}
use privy_gate.Demask.Matches.{matches-none, least}

-- A text is clear if no placeholder begins at any of its places.
Clear-intro :
    (m : Dict Text) (u v : Text)
    → ((a b : Text) (d : ℕ) → u ≡ a ++ d ∷ b → first_prefix m (d ∷ b ++ v) ≡ none)
    → Clear m u v
Clear-intro m [] v h = tt
Clear-intro m (x ∷ u) v h =
    (h [] u x refl, Clear-intro m u v (λ a b d e. h (x ∷ a) b d (ap (◌∷◌ x) e)))

-- The longest prefix that is found is at least as long as any that is there.
any-In : (f : Text → Bool) (ps : List Text) (p : Text) → In p ps → f p ≡ true → any f ps ≡ true
any-In f [] p i h = absurd i
any-In f (x ∷ ps) p i h = elim i [
  | inl here ↦ rw (← here, h)
  | inr there ↦ ground (arith, any-In f ps p there h)
]

longest_prefix-ge :
    (top n : ℕ) (b : Text) (ps : List Text) (q : Text)
    → n ≤ top
    → 0 < n
    → In q ps
    → starts_with (last n b) q ≡ true
    → n ≤ longest_prefix top b ps
unfolding longest_prefix
longest_prefix-ge zero n b ps q h pos i begins = absurd (omega arith)
longest_prefix-ge (suc top) n b ps q h pos i begins =
    elim (Bool-cases (any (λ p. starts_with (last (suc top) b) p) ps)) [
      | inl here ↦ rw here h
      | inr not_here ↦ elim (Bool-cases (n == suc top)) [
        | inl same ↦
            let e = (==_iff n (suc top)).0 same in
            let yes_here = any-In (λ p. starts_with (last (suc top) b) p) ps q i (rw e at begins) in
            absurd (ground arith)
        | inr less ↦ rw not_here (longest_prefix-ge top n b ps q (ground arith) pos i begins)
      ]
    ]

longest_prefix-le : (top : ℕ) (b : Text) (ps : List Text) → longest_prefix top b ps ≤ top
unfolding longest_prefix
longest_prefix-le zero b ps = omega arith
longest_prefix-le (suc top) b ps =
    elim (Bool-cases (any (λ p. starts_with (last (suc top) b) p) ps)) [
      | inl here ↦ rw here (omega arith)
      | inr not_here ↦ rw not_here (omega (arith, longest_prefix-le top b ps))
    ]

max_prefix-ge : (ps : List Text) (q : Text) → In q ps → length q - 1 ≤ max_prefix ps
unfolding max_prefix
max_prefix-ge [] q i = absurd i
max_prefix-ge (p ∷ ps) q i = elim i [
  | inl here ↦ rw here (omega arith)
  | inr there ↦ omega (arith, max_prefix-ge ps q there)
]

last-append : (a x : Text) → last (length x) (a ++ x) ≡ x
last-append a x =
    let e : length (a ++ x) - length x ≡ length a = omega (arith, length-append a x) in
    ap (λ n. drop n (a ++ x)) e ∙ drop-append a x

-- A text that begins a placeholder and ends the buffer is at most as long as what is kept, if
-- it is shorter than the placeholder.
kept-ge :
    (b : Text) (ps : List Text) (q a x r : Text) (d : ℕ)
    → In q ps
    → b ≡ a ++ x
    → 0 < length x
    → q ≡ x ++ d ∷ r
    → length x ≤ possible_placeholder_prefix_length b ps
unfolding possible_placeholder_prefix_length
kept-ge b ps q a x r d i ends pos e =
    let begins : starts_with (last (length x) b) q ≡ true =
      rw (ends, last-append a x, e) (starts_with-append x (d ∷ r)) in
    longest_prefix-ge _ (length x) b ps q
      (omega (
        arith,
        max_prefix-ge ps q i,
        ap length e,
        length-append x (d ∷ r),
        ap length ends,
        length-append a x,
      ))
      pos i begins

pub kept-le : (b : Text) (ps : List Text) → possible_placeholder_prefix_length b ps ≤ length b
unfolding possible_placeholder_prefix_length
kept-le b ps = omega (arith, longest_prefix-le (min (length b) (max_prefix ps)) b ps)

-- With no placeholder in the buffer, none begins before what is kept, whatever text comes.
module _ (m : Dict Text) (u k rest : Text) (free : matches (u ++ k) (keys m) ≡ []) where
  not_inside : (q a x r : Text) → In q (keys m) → u ++ k ≡ a ++ x → x ≡ q ++ r → ⊥
  not_inside q a x r i ends e =
      let place : u ++ k ≡ a ++ q ++ r = ends ∙ simp append_assoc (ap (◌++◌ a) e) in
      let (n, found, _) = find-le q a r in
      let nowhere = matches-none (u ++ k) (keys m) q free i in
      let found' : find q (u ++ k) ≡ some n = rw place found in absurd (ground arith)

  pub Clear-after :
      possible_placeholder_prefix_length (u ++ k) (keys m) ≡ length k → Clear m u (k ++ rest)
  Clear-after kept = Clear-intro m u (k ++ rest) λ a b d e.
      elim (Option-cases (first_prefix m (d ∷ b ++ (k ++ rest)))) [
        | inl nothing ↦ nothing
        | inr ((q, value), hit) ↦
            let (j, begins, _) = first_prefix-some m _ hit in
            let (z, split) = starts_with-split q _ begins in
            let x : Text = d ∷ b ++ k in
            let whole : x ++ rest ≡ q ++ z = append_assoc (d ∷ b) k rest ∙ split in
            let ends : u ++ k ≡ a ++ x = rw e (append_assoc a (d ∷ b) k) in
            elim (append_compare x q rest z whole) [
              | inl (r, inside) ↦ absurd (not_inside q a x r j ends inside)
              | inr ([], beyond) ↦ absurd (
                  not_inside q a x [] j ends (sym (append-nil x) ∙ sym beyond ∙ sym (append-nil q)))
              | inr (y ∷ r, beyond) ↦ absurd (
                  omega (
                    arith,
                    kept,
                    length-append (d ∷ b) k,
                    kept-ge (u ++ k) (keys m) q a x r y j ends
                        (omega (arith, length-append (d ∷ b) k)) beyond,
                  ))
            ]
      ]

module _ (m : Dict Text) (sep : is_separate (keys m) ≡ true) where
  -- Before the least match no placeholder begins, whatever text comes.
  pub Clear-before :
      (u p w rest : Text) (x : ℕ × Text) (ms : List (ℕ × Text))
      → matches (u ++ p ++ w) (keys m) ≡ x ∷ ms
      → In p (keys m)
      → (min_match x ms).0 ≡ length u
      → Clear m u (p ++ (w ++ rest))
  Clear-before u p w rest x ms found i pos = Clear-intro m u (p ++ (w ++ rest)) λ a b d e.
      elim (Option-cases (first_prefix m (d ∷ b ++ (p ++ (w ++ rest))))) [
        | inl nothing ↦ nothing
        | inr ((q, value), hit) ↦
            let (j, begins, _) = first_prefix-some m _ hit in
            let (z, split) = starts_with-split q _ begins in
            let whole : ((d ∷ b ++ p) ++ w) ++ rest ≡ q ++ z = simp append_assoc split in
            elim (append_compare ((d ∷ b ++ p) ++ w) q rest z whole) [
              | inl (r, inside) ↦
                  let place : u ++ p ++ w ≡ a ++ q ++ r =
                    rw e (simp append_assoc (ap (◌++◌ a) (simp append_assoc at inside))) in
                  absurd (
                    omega (
                      arith,
                      least m _ x ms q a r found j place,
                      ap length e,
                      length-append a (d ∷ b),
                    ))
              | inr (r, beyond) ↦ absurd (
                  omega (
                    arith,
                    separate m sep p q (d ∷ b) (w ++ r) i j
                        (beyond ∙ append_assoc (d ∷ b ++ p) w r),
                  ))
            ]
      ]

-- With no placeholder in the text, none begins in it at its end.
pub Clear-end : (m : Dict Text) (u : Text) → matches u (keys m) ≡ [] → Clear m u []
Clear-end m u free = Clear-intro m u [] λ a b d e.
    elim (Option-cases (first_prefix m (d ∷ b ++ []))) [
      | inl nothing ↦ nothing
      | inr ((q, value), hit) ↦
          let (j, begins, _) = first_prefix-some m _ hit in
          let (z, split) = starts_with-split q _ begins in
          absurd (
            not_inside m u [] [] (rw (append-nil u) free) q a (d ∷ b) z j (append-nil u ∙ e)
              (sym (append-nil (d ∷ b)) ∙ split))
    ]
