-- ===== src/Mask/Maximal.antt =====
-- `resolve_overlapping_matches`: no match is left out without one in its place.
use privy_gate.Common.{
  ◌<◌, ◌≡◌, refl, sym, ◌∙◌, Bool, false, ◌⊎◌, inl, inr, arith, List, [], ◌∷◌, ◌++◌, In, all,
  insert_by, insert_by_self, insert_by_other, ltb, Bool-cases, if◌then◌else◌,
}
use privy_gate.Mask.{
  PiiMatch, same_key, add_unique, unique_matches, rank_leb, position_leb, sort_by, is_apart, select,
  resolve_overlapping_matches,
}

pub sort_by-In :
    (le : PiiMatch → PiiMatch → Bool) (k : PiiMatch) (sorted ms : List PiiMatch)
    → In k sorted ⊎ In k ms
    → In k (sort_by le sorted ms)
unfolding sort_by
sort_by-In le k sorted [] (inl i) = i
sort_by-In le k sorted [] (inr i) = absurd i
sort_by-In le k sorted (m ∷ ms) (inl i) =
    sort_by-In le k (insert_by le m sorted) ms (inl (insert_by_other le m k sorted i))
sort_by-In le k sorted (m ∷ ms) (inr (inl e)) =
    sort_by-In le k (insert_by le m sorted) ms (inl (rw e (insert_by_self le m sorted)))
sort_by-In le k sorted (m ∷ ms) (inr (inr i)) = sort_by-In le k (insert_by le m sorted) ms (inr i)

-- A match of the same span is among those that are kept.
abbrev IsCovered : PiiMatch → List PiiMatch → Type 0
IsCovered m xs = (u : PiiMatch) × In u xs × (u.start ≡ m.start) × (u.end ≡ m.end)

add_unique_self : (m : PiiMatch) (xs : List PiiMatch) → IsCovered m (add_unique m xs)
unfolding add_unique same_key
add_unique_self m [] = (m, inl refl, refl, refl)
add_unique_self m (x ∷ xs) = elim (Bool-cases (same_key x m)) [
  | inl same ↦ elim (Bool-cases (ltb x.confidence m.confidence)) [
    | inl better ↦ rw (same, better) (m, inl refl, refl, refl)
    | inr worse ↦
        let start : x.start ≡ m.start = ground arith in
        let end : x.end ≡ m.end = ground arith in rw (same, worse) (x, inl refl, start, end)
  ]
  | inr other ↦ let (u, i, s, e) = add_unique_self m xs in rw other (u, inr i, s, e)
]

add_unique_other :
    (m k : PiiMatch) (xs : List PiiMatch) → IsCovered k xs → IsCovered k (add_unique m xs)
unfolding add_unique same_key
add_unique_other m k [] (u, i, s, e) = absurd i
add_unique_other m k (x ∷ xs) (u, i, s, e) = elim (Bool-cases (same_key x m)) [
  | inr other ↦ elim i [
    | inl first ↦ rw other (u, inl first, s, e)
    | inr i ↦ let (v, j, t, f) = add_unique_other m k xs (u, i, s, e) in rw other (v, inr j, t, f)
  ]
  | inl same ↦ elim (Bool-cases (ltb x.confidence m.confidence)) [
    | inr worse ↦ rw (same, worse) (u, i, s, e)
    | inl better ↦ elim i [
      | inr i ↦ rw (same, better) (u, inr i, s, e)
      | inl first ↦
          let start : x.start ≡ m.start = ground arith in
          let end : x.end ≡ m.end = ground arith in
          let from : x.start ≡ k.start = rw (← first) s in
          let to : x.end ≡ k.end = rw (← first) e in
          rw (same, better) (m, inl refl, sym start ∙ from, sym end ∙ to)
    ]
  ]
]

unique_matches-IsCovered :
    (k : PiiMatch) (unique ms : List PiiMatch)
    → IsCovered k unique ⊎ In k ms
    → IsCovered k (unique_matches unique ms)
unfolding unique_matches
unique_matches-IsCovered k unique [] (inl v) = v
unique_matches-IsCovered k unique [] (inr i) = absurd i
unique_matches-IsCovered k unique (m ∷ ms) (inl v) =
    unique_matches-IsCovered k (add_unique m unique) ms (inl (add_unique_other m k unique v))
unique_matches-IsCovered k unique (m ∷ ms) (inr (inl e)) =
    unique_matches-IsCovered k (add_unique m unique) ms (inl (rw e (add_unique_self m unique)))
unique_matches-IsCovered k unique (m ∷ ms) (inr (inr i)) =
    unique_matches-IsCovered k (add_unique m unique) ms (inr i)

-- One of the matches overlaps this one.
abbrev pub IsOverlapped : PiiMatch → List PiiMatch → Type 0
IsOverlapped m xs = (k : PiiMatch) × In k xs × (k.start < m.end) × (m.start < k.end)

In-append : (k : PiiMatch) (xs ys : List PiiMatch) → In k xs ⊎ In k ys → In k (xs ++ ys)
In-append k [] ys (inl i) = absurd i
In-append k [] ys (inr i) = i
In-append k (x ∷ xs) ys (inl (inl e)) = inl e
In-append k (x ∷ xs) ys (inl (inr i)) = inr (In-append k xs ys (inl i))
In-append k (x ∷ xs) ys (inr i) = inr (In-append k xs ys (inr i))

select-keeps :
    (k : PiiMatch) (selected ranked : List PiiMatch) → In k selected → In k (select selected ranked)
unfolding select
select-keeps k selected [] i = i
select-keeps k selected (c ∷ ranked) i = elim (Bool-cases (all (is_apart c) selected)) [
  | inl free ↦
      rw free (select-keeps k (selected ++ c ∷ []) ranked (In-append k selected (c ∷ []) (inl i)))
  | inr taken ↦ rw taken (select-keeps k selected ranked i)
]

taken-IsOverlapped :
    (c : PiiMatch) (xs : List PiiMatch) → all (is_apart c) xs ≡ false → IsOverlapped c xs
unfolding is_apart
taken-IsOverlapped c [] h = absurd (ground arith)
taken-IsOverlapped c (x ∷ xs) h = elim (Bool-cases (is_apart c x)) [
  | inl free ↦ let (k, i, p, q) = taken-IsOverlapped c xs (ground arith) in (k, inr i, p, q)
  | inr taken ↦ (x, inl refl, ground arith, ground arith)
]

select-IsOverlapped :
    (m : PiiMatch) (selected ranked : List PiiMatch)
    → m.start < m.end
    → In m ranked
    → IsOverlapped m (select selected ranked)
unfolding select
select-IsOverlapped m selected [] span i = absurd i
select-IsOverlapped m selected (c ∷ ranked) span (inr i) =
    select-IsOverlapped m (if all (is_apart c) selected then selected ++ c ∷ [] else selected)
      ranked span i
select-IsOverlapped m selected (c ∷ ranked) span (inl e) =
    elim (Bool-cases (all (is_apart c) selected)) [
      | inl free ↦ rw free (
        m,
        select-keeps m (selected ++ c ∷ []) ranked (In-append m selected (c ∷ []) (inr (inl e))),
        span,
        span,
      )
      | inr taken ↦
          let (k, i, p, q) = taken-IsOverlapped c selected taken in
          rw taken (k, select-keeps k selected ranked i, rw e p, rw e q)
    ]

-- Every match with a span overlaps one that is selected: it is left out only for another one in its
-- place.
pub resolve-IsOverlapped :
    (ms : List PiiMatch) (m : PiiMatch)
    → In m ms
    → m.start < m.end
    → IsOverlapped m (resolve_overlapping_matches ms)
unfolding resolve_overlapping_matches
resolve-IsOverlapped ms m i span =
    let (u, j, s, e) = unique_matches-IsCovered m [] ms (inr i) in
    let wide : u.start < u.end = rw (s, e) span in
    let ranked = sort_by-In rank_leb u [] (unique_matches [] ms) (inr j) in
    let (k, there, p, q) = select-IsOverlapped u [] _ wide ranked in
    (k, sort_by-In position_leb k [] _ (inr there), rw (← e) p, rw (← s) q)
