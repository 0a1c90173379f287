-- ===== src/Store/Heap.antt =====
-- The heap of expiry times: in order, and what `heappush` puts in and keeps.
use privy_gate.Common.{
  ℕ, suc, ◌≤◌, ◌<◌, ◌≡◌, refl, Bool-cases, inl, inr, true, false, List, [], ◌∷◌, Text, arith, All,
  In, insert_by, ◌⊎◌,
}
use privy_gate.Store.{ProcessSession, ExpiryEntry, expiry_leb}

-- In the order of expiry.
abbrev pub IsOrdered : List ExpiryEntry → Type 0
IsOrdered [] = Unit
IsOrdered (e ∷ heap) = All (λ f. e.expires_at ≤ f.expires_at) heap × IsOrdered heap

abbrev pub entry_of : Text → ProcessSession → ExpiryEntry
entry_of id session = record {
  expires_at = session.expires_at;
  version = session.version;
  payload_id = id;
}

All-weaken :
    (m n : ℕ) (heap : List ExpiryEntry)
    → m ≤ n
    → All (λ f. n ≤ f.expires_at) heap
    → All (λ f. m ≤ f.expires_at) heap
All-weaken m n [] h a = tt
All-weaken m n (e ∷ heap) h a = (omega arith, All-weaken m n heap h a.1)

pub All-insert_by_version :
    (m : ℕ) (e : ExpiryEntry) (heap : List ExpiryEntry)
    → e.version ≤ m
    → All (λ f. f.version ≤ m) heap
    → All (λ f. f.version ≤ m) (insert_by expiry_leb e heap)
unfolding insert_by
All-insert_by_version m e [] h a = (h, tt)
All-insert_by_version m e (x ∷ heap) h a = elim (Bool-cases (expiry_leb x e)) [
  | inl before ↦ rw before (a.0, All-insert_by_version m e heap h a.1)
  | inr after ↦ rw after (h, a)
]

All-insert_by :
    (m : ℕ) (e : ExpiryEntry) (heap : List ExpiryEntry)
    → m ≤ e.expires_at
    → All (λ f. m ≤ f.expires_at) heap
    → All (λ f. m ≤ f.expires_at) (insert_by expiry_leb e heap)
unfolding insert_by
All-insert_by m e [] h a = (h, tt)
All-insert_by m e (x ∷ heap) h a = elim (Bool-cases (expiry_leb x e)) [
  | inl before ↦ rw before (a.0, All-insert_by m e heap h a.1)
  | inr after ↦ rw after (h, a)
]

expiry_leb→le : (a b : ExpiryEntry) → expiry_leb a b ≡ true → a.expires_at ≤ b.expires_at
unfolding expiry_leb
expiry_leb→le a b h = ground arith

expiry_leb→ge : (a b : ExpiryEntry) → expiry_leb a b ≡ false → b.expires_at ≤ a.expires_at
unfolding expiry_leb
expiry_leb→ge a b h = ground arith

-- `heappush` keeps the order.
pub insert_by-IsOrdered :
    (e : ExpiryEntry) (heap : List ExpiryEntry)
    → IsOrdered heap
    → IsOrdered (insert_by expiry_leb e heap)
unfolding insert_by
insert_by-IsOrdered e [] o = (tt, tt)
insert_by-IsOrdered e (x ∷ heap) o = elim (Bool-cases (expiry_leb x e)) [
  | inl before ↦ rw before (
    All-insert_by x.expires_at e heap (expiry_leb→le x e before) o.0,
    insert_by-IsOrdered e heap o.1,
  )
  | inr after ↦
      let low = expiry_leb→ge x e after in
      rw after ((low, All-weaken e.expires_at x.expires_at heap low o.0), o)
]

pub In-insert_by_self :
    (e : ExpiryEntry) (heap : List ExpiryEntry) → In e (insert_by expiry_leb e heap)
unfolding insert_by
In-insert_by_self e [] = inl refl
In-insert_by_self e (x ∷ heap) = elim (Bool-cases (expiry_leb x e)) [
  | inl before ↦ rw before (inr (In-insert_by_self e heap))
  | inr after ↦ rw after (inl refl)
]

pub In-insert_by :
    (a e : ExpiryEntry) (heap : List ExpiryEntry) → In a heap → In a (insert_by expiry_leb e heap)
unfolding insert_by
In-insert_by a e [] i = absurd i
In-insert_by a e (x ∷ heap) i = elim (Bool-cases (expiry_leb x e)) [
  | inl before ↦
      rw before (elim i [ inl here ↦ inl here | inr there ↦ inr (In-insert_by a e heap there) ])
  | inr after ↦ rw after (inr i)
]

-- An entry of an ordered heap whose first entry lies after `now` lies after `now`.
pub In-later :
    (now : ℕ) (a : ExpiryEntry) (heap : List ExpiryEntry)
    → All (λ f. now < f.expires_at) heap
    → In a heap
    → now < a.expires_at
In-later now a [] l i = absurd i
In-later now a (e ∷ heap) l i = elim i [
  | inl here ↦ rw here l.0
  | inr there ↦ In-later now a heap l.1 there
]

-- Whatever the grown heap holds is the new entry or was there.
pub In-insert_by_inv :
    (a e : ExpiryEntry) (heap : List ExpiryEntry)
    → In a (insert_by expiry_leb e heap)
    → (a ≡ e) ⊎ In a heap
unfolding insert_by
In-insert_by_inv a e [] i = i
In-insert_by_inv a e (x ∷ heap) i = elim (Bool-cases (expiry_leb x e)) [
  | inl before ↦ elim (rw before at i) [
    | inl here ↦ inr (inl here)
    | inr there ↦ elim (In-insert_by_inv a e heap there) [
      | inl new ↦ inl new
      | inr old ↦ inr (inr old)
    ]
  ]
  | inr after ↦ rw after at i
]

pub All-In :
    (m : ℕ) (a : ExpiryEntry) (heap : List ExpiryEntry)
    → All (λ f. f.version ≤ m) heap
    → In a heap
    → a.version ≤ m
All-In m a [] l i = absurd i
All-In m a (e ∷ heap) l i = elim i [
  | inl here ↦ rw here l.0
  | inr there ↦ All-In m a heap l.1 there
]

pub All-version_weaken :
    (m : ℕ) (heap : List ExpiryEntry)
    → All (λ f. f.version ≤ m) heap
    → All (λ f. f.version ≤ suc m) heap
All-version_weaken m [] a = tt
All-version_weaken m (e ∷ heap) a = (omega arith, All-version_weaken m heap a.1)

pub All-later :
    (now m : ℕ) (heap : List ExpiryEntry)
    → now < m
    → All (λ f. m ≤ f.expires_at) heap
    → All (λ f. now < f.expires_at) heap
All-later now m [] h a = tt
All-later now m (e ∷ heap) h a = (omega arith, All-later now m heap h a.1)
