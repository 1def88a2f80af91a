-- ===== src/Routing/Network/Walks.antt =====
-- A3: the costs that RIP reaches, in every order of turns.
use computer_network_course.Prelude.{ℕ, ◌≤◌, ◌≡◌, ◌≢◌, false, some}
use computer_network_course.Routing.Qt.{QHash}
use computer_network_course.Routing.Text.{QtText}
use computer_network_course.Routing.Tables.{update_distance_vector}
use computer_network_course.Routing.Tables.Walks.{Walk, Sound, stable_tables_shortest}
use computer_network_course.Routing.Network.{Net, Reach, here, next}
use computer_network_course.Routing.Network.Tidy.{Tidy}
use computer_network_course.Routing.Network.Turns.{Step-Tidy}

module _ (q : QHash) (t : QtText) (Link : ℕ → ℕ → Type 0) (far : ℕ → ℕ → ℕ) where
  open q use {find}

  pub Reach-Tidy : {s net : Net q} → Reach q t s net → Tidy q t Link far s → Tidy q t Link far net
  Reach-Tidy here tidy = tidy
  Reach-Tidy (next r st) tidy = Step-Tidy q t Link far st (Reach-Tidy r tidy)

  -- From a tidy start, where every router knows its neighbours and the cables have two ends, after any
  -- turns of RIP in any order every cost in every table is the length of a walk over the links.
  pub Reach-Sound :
      {s net : Net q} (a : ℕ)
      → Tidy q t Link far s
      → Reach q t s net
      → Sound q Link a (net a).distance_vector
  Reach-Sound a tidy r = (Reach-Tidy r tidy a).sound

  -- Where RIP comes to rest, that is where no router would change its costs for the table of a
  -- neighbour, every router has for every other router in reach the length of a shortest walk.
  pub rip_rest_shortest :
      {s net : Net q} {a j n : ℕ}
      → Tidy q t Link far s
      → Reach q t s net
      → ((a b : ℕ)
          → Link a b
          → (update_distance_vector q a
              (net b).distance_vector
              0
              (net a).distance_vector
              (net a).forwarding_table).changed
            ≡ false)
      → Walk Link a j n
      → a ≢ j
      → (c : ℕ) × (find (net a).distance_vector j ≡ some c) × Walk Link a j c × (c ≤ n)
  rip_rest_shortest {net = net} tidy r quiet w ne =
      stable_tables_shortest q Link (λ a. (net a).distance_vector) (λ a. (net a).forwarding_table)
        (λ a b. 0) (λ a. (Reach-Tidy r tidy a).sound) (λ a b l. (Reach-Tidy r tidy a).near b l)
        quiet w ne
