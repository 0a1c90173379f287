-- ===== src/Routing.antt =====
-- app/routing.py: `RoundRobinRouter`. `next_backend` runs under its lock without an `await`, so a
-- call is one step; `none` is the error of the index.
pub mod Rounds
pub mod Tests
use privy_gate.Common.{
  ℕ, ◌+◌, ◌%◌, List, [], ◌∷◌, Option, none, some, Text, ◌==◌, length, map, get_elem?, if◌then◌else◌,
}

pub record RoundRobinRouter : Type 0 where
  pub backends : List Text
  pub next_index : ℕ

abbrev put_back : ℕ → ℕ → Text → Text
put_back ch c [] = if c == ch then [] else c ∷ []
put_back ch c (x ∷ s) = c ∷ x ∷ s

-- s.rstrip(ch)
unfoldable pub rstrip : ℕ → Text → Text
rstrip ch [] = []
rstrip ch (c ∷ s) = put_back ch c (rstrip ch s)

-- `__init__`; `none` is the ValueError for no backend.
unfoldable pub new_router : List Text → Option RoundRobinRouter
new_router [] = none
new_router (url ∷ urls) =
    some (record { backends = map (rstrip b'/') (url ∷ urls); next_index = 0 })

unfoldable pub next_backend : RoundRobinRouter → Option (Text × RoundRobinRouter)
next_backend r = elim (get_elem? r.backends r.next_index) [
  | none ↦ none
  | some backend ↦ some (backend, record r { next_index = (r.next_index + 1) % length r.backends })
]
