-- ===== src/Routing/Router/Ospf/Scan.antt =====
-- A3/router.cpp: where the walk of OSPF goes on.
use computer_network_course.Prelude.{ℕ, ◌≡◌, ◌≢◌, List, [], ◌∷◌, ◌++◌, ◌⊎◌, All}
use computer_network_course.Routing.Ports.{Port}
use computer_network_course.Routing.Router.{Router}

-- A node that the record has been at.
abbrev pub IsVisited : ℕ → List ℕ → Type 0
IsVisited id [] = ⊥
IsVisited id (x ∷ xs) = (x ≡ id) ⊎ IsVisited id xs

-- A port whose neighbour is in the system and was not visited, and one that is not such a port.
abbrev pub IsOpen : ℕ → List ℕ → Port → Type 0
IsOpen as_id visited p = ¬ IsVisited p.destination.node_id visited × (p.destination.as_id ≡ as_id)

abbrev pub IsClosed : ℕ → List ℕ → Port → Type 0
IsClosed as_id visited p = IsVisited p.destination.node_id visited ⊎ (p.destination.as_id ≢ as_id)

-- The ports of the scan, in order: closed ones, and the first that is open if there is one.
pub record FirstOpen (as_id : ℕ) (visited : List ℕ) (ports : List Port) : Type 0 where
  pub before : List Port
  pub found : Port
  pub after : List Port
  pub split : ports ≡ before ++ found ∷ after
  pub closed : All (IsClosed as_id visited) before
  pub open_port : IsOpen as_id visited found
