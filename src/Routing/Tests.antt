-- ===== src/Routing/Tests.antt =====
-- The router with two backends, and its theorem there.
use privy_gate.Common.{◌≡◌, refl, [], ◌∷◌, some, Text, codes, get_elem?, arith}
use privy_gate.Routing.{RoundRobinRouter, rstrip, new_router}
use privy_gate.Routing.Rounds.{nth_call, turn_of, nth_call-round}

abbrev router : RoundRobinRouter
router = record { backends = codes "http://a" ∷ codes "http://b" ∷ []; next_index = 0 }

stripped : new_router (codes "http://a//" ∷ codes "http://b" ∷ []) ≡ some router
unfolding new_router rstrip
stripped = refl

nth_call-round_example :
    (backend : Text) × (nth_call 3 router ≡ some backend)
    × (get_elem? router.backends (turn_of 3 router) ≡ some backend)
nth_call-round_example = nth_call-round 3 router (omega arith)
