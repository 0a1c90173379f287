-- ===== src/Mask/Overlap.antt =====
-- `resolve_overlapping_matches`: the order and the places of what it selects.
use privy_gate.Common.{
  ℕ, ◌≤◌, ◌<◌, ◌≡◌, Bool, true, false, inl, inr, List, [], ◌∷◌, ◌++◌, arith, ltb, all, All,
  All-append, insert_by, Bool-cases,
}
use privy_gate.Mask.{
  PiiMatch, same_key, add_unique, unique_matches, rank_leb, position_leb, sort_by, is_apart, select,
  resolve_overlapping_matches,
}

-- What holds of every match that is given holds of every match that is kept.
module _ (P : PiiMatch → Type 0) where
  All-insert_by :
      (le : PiiMatch → PiiMatch → Bool) (m : PiiMatch) (xs : List PiiMatch)
      → P m
      → All P xs
      → All P (insert_by le m xs)
  unfolding insert_by
  All-insert_by le m [] p a = (p, tt)
  All-insert_by le m (x ∷ xs) p a = elim (Bool-cases (le x m)) [
    | inl before ↦ rw before (a.0, All-insert_by le m xs p a.1)
    | inr after ↦ rw after (p, a)
  ]

  pub All-sort_by :
      (le : PiiMatch → PiiMatch → Bool) (sorted ms : List PiiMatch)
      → All P sorted
      → All P ms
      → All P (sort_by le sorted ms)
  unfolding sort_by
  All-sort_by le sorted [] s a = s
  All-sort_by le sorted (m ∷ ms) s a =
      All-sort_by le (insert_by le m sorted) ms (All-insert_by le m sorted a.0 s) a.1

  All-add_unique : (m : PiiMatch) (xs : List PiiMatch) → P m → All P xs → All P (add_unique m xs)
  unfolding add_unique
  All-add_unique m [] p a = (p, tt)
  All-add_unique m (x ∷ xs) p a = elim (Bool-cases (same_key x m)) [
    | inl same ↦ elim (Bool-cases (ltb x.confidence m.confidence)) [
      | inl better ↦ rw (same, better) (p, a.1)
      | inr worse ↦ rw (same, worse) a
    ]
    | inr other ↦ rw other (a.0, All-add_unique m xs p a.1)
  ]

  All-unique_matches :
      (unique ms : List PiiMatch) → All P unique → All P ms → All P (unique_matches unique ms)
  unfolding unique_matches
  All-unique_matches unique [] u a = u
  All-unique_matches unique (m ∷ ms) u a =
      All-unique_matches (add_unique m unique) ms (All-add_unique m unique a.0 u) a.1

  All-select :
      (selected ranked : List PiiMatch)
      → All P selected
      → All P ranked
      → All P (select selected ranked)
  unfolding select
  All-select selected [] s a = s
  All-select selected (c ∷ ranked) s a = elim (Bool-cases (all (is_apart c) selected)) [
    | inl free ↦
        rw free
          (All-select (selected ++ c ∷ []) ranked (All-append P selected (c ∷ []) s (a.0, tt)) a.1)
    | inr taken ↦ rw taken (All-select selected ranked s a.1)
  ]

  pub All-resolve : (ms : List PiiMatch) → All P ms → All P (resolve_overlapping_matches ms)
  unfolding resolve_overlapping_matches
  All-resolve ms a =
      All-sort_by position_leb [] _ tt
        (All-select [] _ tt (All-sort_by rank_leb [] _ tt (All-unique_matches [] ms tt a)))

-- No two of the matches overlap.
abbrev IsApart : List PiiMatch → Type 0
IsApart [] = Unit
IsApart (x ∷ xs) = All (λ y. is_apart x y ≡ true) xs × IsApart xs

is_apart_comm : (a b : PiiMatch) → is_apart a b ≡ true → is_apart b a ≡ true
unfolding is_apart
is_apart_comm a b h = ground arith

all→All :
    (c : PiiMatch) (xs : List PiiMatch)
    → all (is_apart c) xs ≡ true
    → All (λ y. is_apart y c ≡ true) xs
all→All c [] h = tt
all→All c (x ∷ xs) h = (is_apart_comm c x (ground arith), all→All c xs (ground arith))

IsApart-append :
    (xs : List PiiMatch) (c : PiiMatch)
    → IsApart xs
    → All (λ y. is_apart y c ≡ true) xs
    → IsApart (xs ++ c ∷ [])
IsApart-append [] c p a = (tt, tt)
IsApart-append (x ∷ xs) c p a =
    (All-append (λ y. is_apart x y ≡ true) xs (c ∷ []) p.0 (a.0, tt), IsApart-append xs c p.1 a.1)

select-IsApart :
    (selected ranked : List PiiMatch) → IsApart selected → IsApart (select selected ranked)
unfolding select
select-IsApart selected [] p = p
select-IsApart selected (c ∷ ranked) p = elim (Bool-cases (all (is_apart c) selected)) [
  | inl free ↦ rw free (
      select-IsApart (selected ++ c ∷ []) ranked
        (IsApart-append selected c p (all→All c selected free)))
  | inr taken ↦ rw taken (select-IsApart selected ranked p)
]

insert_by-IsApart :
    (le : PiiMatch → PiiMatch → Bool) (m : PiiMatch) (xs : List PiiMatch)
    → IsApart xs
    → All (λ y. is_apart m y ≡ true) xs
    → IsApart (insert_by le m xs)
unfolding insert_by
insert_by-IsApart le m [] p a = (tt, tt)
insert_by-IsApart le m (x ∷ xs) p a = elim (Bool-cases (le x m)) [
  | inl before ↦ rw before (
    All-insert_by (λ y. is_apart x y ≡ true) le m xs (is_apart_comm m x a.0) p.0,
    insert_by-IsApart le m xs p.1 a.1,
  )
  | inr after ↦ rw after (a, p)
]

-- Every match of `xs` is apart from every match of `ys`.
abbrev Across : List PiiMatch → List PiiMatch → Type 0
Across xs ys = All (λ y. All (λ x. is_apart y x ≡ true) xs) ys

Across-insert_by :
    (le : PiiMatch → PiiMatch → Bool) (m : PiiMatch) (xs ys : List PiiMatch)
    → All (λ y. is_apart m y ≡ true) ys
    → Across xs ys
    → Across (insert_by le m xs) ys
Across-insert_by le m xs [] a b = tt
Across-insert_by le m xs (y ∷ ys) a b = (
  All-insert_by (λ x. is_apart y x ≡ true) le m xs (is_apart_comm m y a.0) b.0,
  Across-insert_by le m xs ys a.1 b.1,
)

sort_by-IsApart :
    (le : PiiMatch → PiiMatch → Bool) (sorted ms : List PiiMatch)
    → IsApart sorted
    → IsApart ms
    → Across sorted ms
    → IsApart (sort_by le sorted ms)
unfolding sort_by
sort_by-IsApart le sorted [] s p b = s
sort_by-IsApart le sorted (m ∷ ms) s p b =
    sort_by-IsApart le (insert_by le m sorted) ms (insert_by-IsApart le m sorted s b.0) p.1
      (Across-insert_by le m sorted ms p.0 b.1)

Across-nil : (ms : List PiiMatch) → Across [] ms
Across-nil [] = tt
Across-nil (m ∷ ms) = (tt, Across-nil ms)

pub resolve-IsApart : (ms : List PiiMatch) → IsApart (resolve_overlapping_matches ms)
unfolding resolve_overlapping_matches
resolve-IsApart ms = sort_by-IsApart position_leb [] _ tt (select-IsApart [] _ tt) (Across-nil _)

-- In the order of the starts.
abbrev InOrder : List PiiMatch → Type 0
InOrder [] = Unit
InOrder (x ∷ xs) = All (λ y. x.start ≤ y.start) xs × InOrder xs

position_leb→le : (a b : PiiMatch) → position_leb a b ≡ true → a.start ≤ b.start
unfolding position_leb
position_leb→le a b h = ground arith

position_leb→ge : (a b : PiiMatch) → position_leb a b ≡ false → b.start ≤ a.start
unfolding position_leb
position_leb→ge a b h = ground arith

All-start_weaken :
    (m n : ℕ) (xs : List PiiMatch) → m ≤ n → All (λ y. n ≤ y.start) xs → All (λ y. m ≤ y.start) xs
All-start_weaken m n [] h a = tt
All-start_weaken m n (x ∷ xs) h a = (omega arith, All-start_weaken m n xs h a.1)

insert_by-InOrder :
    (m : PiiMatch) (xs : List PiiMatch) → InOrder xs → InOrder (insert_by position_leb m xs)
unfolding insert_by
insert_by-InOrder m [] o = (tt, tt)
insert_by-InOrder m (x ∷ xs) o = elim (Bool-cases (position_leb x m)) [
  | inl before ↦ rw before (
    All-insert_by (λ y. x.start ≤ y.start) position_leb m xs (position_leb→le x m before) o.0,
    insert_by-InOrder m xs o.1,
  )
  | inr after ↦
      let low = position_leb→ge x m after in
      rw after ((low, All-start_weaken m.start x.start xs low o.0), o)
]

sort_by-InOrder :
    (sorted ms : List PiiMatch) → InOrder sorted → InOrder (sort_by position_leb sorted ms)
unfolding sort_by
sort_by-InOrder sorted [] o = o
sort_by-InOrder sorted (m ∷ ms) o =
    sort_by-InOrder (insert_by position_leb m sorted) ms (insert_by-InOrder m sorted o)

-- Spans that follow one another from `n` on, none of them empty.
abbrev pub Chain : ℕ → List PiiMatch → Type 0
Chain n [] = Unit
Chain n (m ∷ ms) = (n ≤ m.start) × (m.start < m.end) × Chain m.end ms

abbrev pub Spans : List PiiMatch → Type 0
Spans = All (λ m. m.start < m.end)

end-le-start :
    (x y : PiiMatch)
    → x.start < x.end
    → y.start < y.end
    → x.start ≤ y.start
    → is_apart x y ≡ true
    → x.end ≤ y.start
unfolding is_apart
end-le-start x y p q o h = ground arith

IsApart-Chain :
    (n : ℕ) (ms : List PiiMatch)
    → All (λ y. n ≤ y.start) ms
    → InOrder ms
    → IsApart ms
    → Spans ms
    → Chain n ms
IsApart-Chain n [] a o p s = tt
IsApart-Chain n (m ∷ ms) a o p s =
    (a.0, s.0, IsApart-Chain m.end ms (all_after m ms s.0 o.0 p.0 s.1) o.1 p.1 s.1)
  where
    all_after :
        (x : PiiMatch) (ys : List PiiMatch)
        → x.start < x.end
        → All (λ y. x.start ≤ y.start) ys
        → All (λ y. is_apart x y ≡ true) ys
        → Spans ys
        → All (λ y. x.end ≤ y.start) ys
    all_after x [] h i j k = tt
    all_after x (y ∷ ys) h i j k = (end-le-start x y h k.0 i.0 j.0, all_after x ys h i.1 j.1 k.1)

zero_le-start : (ms : List PiiMatch) → All (λ y. 0 ≤ y.start) ms
zero_le-start [] = tt
zero_le-start (m ∷ ms) = (omega arith, zero_le-start ms)

-- Of matches with a span each, the selected ones follow one another in the text: each ends
-- before the next starts, and none is empty.
pub resolve-Chain : (ms : List PiiMatch) → Spans ms → Chain 0 (resolve_overlapping_matches ms)
resolve-Chain ms s =
    IsApart-Chain 0 _ (zero_le-start _)
      (unfold resolve_overlapping_matches in sort_by-InOrder [] _ tt) (resolve-IsApart ms)
      (All-resolve (λ m. m.start < m.end) ms s)
