-- ===== src/Routing/Tables/Ibgp.antt =====
-- A3/router.cpp: `startIBGP`, by which a router sends all traffic for the other autonomous system to
-- the nearest border router of its own.
pub mod Routes
use computer_network_course.Prelude.{
  ℕ, zero, suc, ◌+◌, Bool, true, false, List, [], ◌∷◌, Option, none, some, ltb, ◌==◌, if◌then◌else◌,
}
use computer_network_course.Routing.Qt.{QHash, value_or_zero, is_some}

-- `i` from `first` on, `count` of them.
abbrev pub range : ℕ → ℕ → List ℕ
range first zero = []
range first (suc count) = first ∷ range (first + 1) count

module _ (q : QHash) where
  open q use {Table, find, insert}

  -- `table[key]`: the value, and the table in which a key that was missing is 0.
  unfoldable pub touch : Table → ℕ → Table
  touch t key = if is_some (find t key) then t else insert t key 0

  abbrev pub value : Table → ℕ → ℕ
  value t key = value_or_zero (find t key)

  -- The search for the border router, with the cost table behind it.
  unfoldable pub nearest : Table → ℕ → List ℕ → ℕ × Table
  unfolding touch
  nearest costs best [] = (best, costs)
  nearest costs best (i ∷ rest) =
      let better = ltb (value costs i) (value costs best) in
      nearest (touch (touch costs best) i) (if better then i else best) rest

  unfoldable pub route_via : Table → ℕ → List ℕ → Table
  unfolding touch
  route_via forwarding border [] = forwarding
  route_via forwarding border (i ∷ rest) =
      route_via (insert (touch forwarding border) i (value forwarding border)) border rest

  -- One of the two branches; the border routers start at `first`.
  unfoldable pub route_outside : ℕ → List ℕ → List ℕ → List ℕ → Table → Table → Table × Table
  route_outside first borders ids others costs forwarding =
      let (border, costs') = nearest costs first borders in
      (costs', route_via (route_via forwarding border ids) border others)

  -- `iseBGP` is set on the border routers. The cost and forwarding tables behind the call.
  unfoldable pub start_ibgp : Bool → ℕ → Table → Table → Table × Table
  start_ibgp true as_id costs forwarding = (costs, forwarding)
  start_ibgp false as_id costs forwarding =
      if as_id == 1
      then route_outside 14 (range 14 3) (range 17 8) (range 33 5) costs forwarding
      else route_outside 17 (range 17 3) (range 1 16) (range 25 8) costs forwarding
