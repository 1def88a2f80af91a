-- ===== src/Routing/Tests.antt =====
-- The theorems about A3 with association lists for tables and two routers, 1 and 2, that are linked.
use computer_network_course.Prelude.{
  ℕ, ◌≤◌, ◌≡◌, ◌⊎◌, inl, inr, refl, sym, subst, arith, true, false, not, ◌&&◌, List, [], ◌∷◌, some,
  ◌==◌, if◌then◌else◌, suc, zero,
}
use computer_network_course.Prelude.{Lacks}
use computer_network_course.Prelude.{All, ◌||◌}
use computer_network_course.Routing.Qt.{elem}
use computer_network_course.Routing.Tables.Ibgp.{
  range, value, start_ibgp, route_outside, nearest, route_via, touch,
}
use computer_network_course.Routing.Tables.Ibgp.Routes.{exit, outside, start_ibgp_exits}
use computer_network_course.Routing.Ports.{Port}
use computer_network_course.Prelude.Text.{codes}
use computer_network_course.Routing.Text.Plain.{plain}
use computer_network_course.Routing.Packet.{Packet, hash, packet, incode, decode, print_packet}
use computer_network_course.Routing.Packet.Journey.{Stop, travel, report, names, packet_journey}
use computer_network_course.Routing.Qt.Assoc.{assoc, find, keys}
use computer_network_course.Routing.Tables.{
  update_distance_vector, update_lsp, learn_all, learn, improve, write,
}
use computer_network_course.Routing.Tables.Merge.{merge, improves, update_merges}
use computer_network_course.Routing.Tables.Walks.{Walk, here, next, Sound}

-- What router 1 knows first, and a table that router 2 sends.
abbrev known : List (ℕ × ℕ)
known = (2, 1) ∷ []

abbrev sent : List (ℕ × ℕ)
sent = (1, 1) ∷ (3, 4) ∷ []

update_merges_example :
    (find (update_distance_vector assoc 1 sent 9 known []).costs 3
      ≡ (if 3 == 1 then find known 3 else merge (find known 3) (find sent 3)))
    × (find (update_distance_vector assoc 1 sent 9 known []).forwarding 3
        ≡ (if not (3 == 1) && improves (find known 3) (find sent 3) then some 9 else find [] 3))
    × (update_lsp assoc 1 sent 9 known [] ≡ (
      (update_distance_vector assoc 1 sent 9 known []).costs,
      (update_distance_vector assoc 1 sent 9 known []).forwarding,
    ))
update_merges_example = update_merges assoc 1 sent 9 known [] 3

-- The run of the update itself.
update_run : update_lsp assoc 1 sent 9 known [] ≡ ((3, 5) ∷ (2, 1) ∷ [], (3, 9) ∷ [])
unfolding update_lsp learn_all learn improve write find keys
update_run = refl

-- Link 1 2 and Link 2 1.
abbrev Link : ℕ → ℕ → Type 0
Link a b = ((a ≡ 1) × (b ≡ 2)) ⊎ ((a ≡ 2) × (b ≡ 1))

abbrev first : List (ℕ × ℕ)
first = (1, 1) ∷ []

find_one : (k v j n : ℕ) → find ((k, v) ∷ []) j ≡ some n → (j ≡ k) × (n ≡ v)
unfolding find
find_one k v j n e = (ground arith, ground arith)

one_hop : (a b j n : ℕ) → Link a b → find ((b, 1) ∷ []) j ≡ some n → Walk Link a j n
one_hop a b j n l e =
    let (je, ne) = find_one b 1 j n e in
    subst (λ x. Walk Link a x n) (sym je) (subst (Walk Link a b) (sym ne) (next l (here b)))

known-Sound : Sound assoc Link 1 known
known-Sound j n e = one_hop 1 2 j n (inl (refl, refl)) e

first-Sound : Sound assoc Link 2 first
first-Sound j n e = one_hop 2 1 j n (inr (refl, refl)) e

-- The tables of both routers.
abbrev costs : ℕ → List (ℕ × ℕ)
costs zero = []
costs (suc zero) = known
costs (suc (suc zero)) = first
costs (suc (suc (suc a))) = []

empty-Sound : (a : ℕ) → Sound assoc Link a []
unfolding find
empty-Sound a j n e = ground arith

costs-Sound : (a : ℕ) → Sound assoc Link a (costs a)
costs-Sound zero = empty-Sound zero
costs-Sound (suc zero) = known-Sound
costs-Sound (suc (suc zero)) = first-Sound
costs-Sound (suc (suc (suc a))) = empty-Sound (suc (suc (suc a)))

direct : (a b : ℕ) → Link a b → (c : ℕ) × (find (costs a) b ≡ some c) × (c ≤ 1)
unfolding find
direct a b (inl (p, r)) = (1, ground arith, omega arith)
direct a b (inr (p, r)) = (1, ground arith, omega arith)

quiet :
    (a b : ℕ) → Link a b → (update_distance_vector assoc a (costs b) 9 (costs a) []).changed ≡ false
unfolding update_distance_vector learn_all learn improve write find keys
quiet a b (inl (p, r)) = ground arith
quiet a b (inr (p, r)) = ground arith

-- A packet through two routers.
abbrev way : List Stop
way = record { router = 4; waits = 2 } ∷ record { router = 7; waits = 0 } ∷ []

hello-Lacks : Lacks hash (codes "HELLO")
hello-Lacks = (omega arith, (omega arith, (omega arith, (omega arith, (omega arith, tt)))))

packet_journey_example :
    (line : List ℕ) × (p : Packet) × (travel plain way
        (incode plain (packet plain (codes "HELLO") 30 12))
      ≡ some line)
    × (decode plain line ≡ some p)
    × (print_packet plain p
        ≡ some (
          report plain way (codes "HELLO") 30 12,
          record p { routers_in_path = names plain way },
        ))
packet_journey_example = packet_journey plain way (codes "HELLO") 30 12 hello-Lacks

-- Router 3 of the first system, whose nearest border router is 15.
abbrev to_borders : List (ℕ × ℕ)
to_borders = (14, 5) ∷ (15, 2) ∷ (16, 4) ∷ []

abbrev border_ports : List (ℕ × ℕ)
border_ports = (15, 6) ∷ []

start_ibgp_exits_example :
    (elem (exit assoc 14 to_borders) (range 14 3) ≡ true)
    × All
        (λ i. value assoc to_borders (exit assoc 14 to_borders) ≤ value assoc to_borders i)
        (range 14 3)
    × (find (start_ibgp assoc false 1 to_borders border_ports).1 20 ≡ (
        if (20 == exit assoc 14 to_borders) || outside assoc 1 20
        then some (value assoc border_ports (exit assoc 14 to_borders))
        else find border_ports 20))
start_ibgp_exits_example = start_ibgp_exits assoc 1 to_borders border_ports 20

start_ibgp_run : find (start_ibgp assoc false 1 to_borders border_ports).1 20 ≡ some 6
unfolding start_ibgp route_outside nearest route_via touch find
start_ibgp_run = refl

-- The ports of router 4: two to its own system, one to the other.
abbrev ports : List Port
ports =
    record {
      number = 6;
      node_id = 4;
      as_id = 1;
      destination = record { node_id = 7; as_id = 1; number = 1 };
      buffer = [];
    }
    ∷ record {
      number = 8;
      node_id = 4;
      as_id = 1;
      destination = record { node_id = 5; as_id = 1; number = 1 };
      buffer = [];
    }
    ∷ record {
      number = 9;
      node_id = 4;
      as_id = 1;
      destination = record { node_id = 17; as_id = 2; number = 1 };
      buffer = [];
    }
    ∷ []

abbrev to_hello : List (ℕ × ℕ)
to_hello = (12, 8) ∷ []

abbrev waiting : Port
waiting = record {
  number = 6;
  node_id = 4;
  as_id = 1;
  destination = record { node_id = 7; as_id = 1; number = 1 };
  buffer = codes "M" ∷ [];
}
