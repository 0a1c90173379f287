-- ===== src/Routing/Rounds.antt =====
-- The order in which the router gives out its backends.
use privy_gate.Common.{
  ℕ, zero, suc, ◌+◌, ◌%◌, ◌<◌, ◌≡◌, refl, sym, ap, ◌∙◌, List, [], ◌∷◌, Option, none, some, Text,
  arith, length, get_elem?,
}
use native.Mathlib.Nat.{mod-lt, mod-eq_of_lt, mod-add-mod}
use privy_gate.Routing.{RoundRobinRouter, next_backend}

-- What call number `k` from now answers.
pub nth_call : ℕ → RoundRobinRouter → Option Text
nth_call zero r = elim (next_backend r) [ none ↦ none | some (backend, r') ↦ some backend ]
nth_call (suc k) r = elim (next_backend r) [ none ↦ none | some (backend, r') ↦ nth_call k r' ]

get_elem?-some : (xs : List Text) (i : ℕ) → i < length xs → (x : Text) × (get_elem? xs i ≡ some x)
get_elem?-some [] i h = absurd (omega arith)
get_elem?-some (x ∷ xs) zero h = (x, refl)
get_elem?-some (x ∷ xs) (suc i) h = get_elem?-some xs i (omega arith)

abbrev pub turn_of : ℕ → RoundRobinRouter → ℕ
turn_of k r = (r.next_index + k) % length r.backends

-- A router whose index is one of its backends' answers every call, and call number `k` from now
-- goes to the backend `k` places on, counted round.
pub nth_call-round :
    (k : ℕ) (r : RoundRobinRouter)
    → r.next_index < length r.backends
    → (backend : Text) × (nth_call k r ≡ some backend)
      × (get_elem? r.backends (turn_of k r) ≡ some backend)
unfolding nth_call next_backend
nth_call-round zero r h =
    let (backend, here) = get_elem?-some r.backends r.next_index h in
    let same : turn_of zero r ≡ r.next_index =
      ap (λ n. n % length r.backends) (omega arith) ∙ mod-eq_of_lt h in
    (backend, rw (here, nth_call), ap (get_elem? r.backends) same ∙ here)
nth_call-round (suc k) r h =
    let (first, here) = get_elem?-some r.backends r.next_index h in
    let n : ℕ = length r.backends in
    let r' : RoundRobinRouter = record r { next_index = (r.next_index + 1) % n } in
    let (backend, answer, place) = nth_call-round k r' (mod-lt (r.next_index + 1) (omega arith)) in
    let same : turn_of (suc k) r ≡ turn_of k r' =
      ap (λ m. m % n) (omega arith) ∙ sym (mod-add-mod (r.next_index + 1) n k) in
    (backend, rw (here, nth_call) answer, ap (get_elem? r.backends) same ∙ place)
