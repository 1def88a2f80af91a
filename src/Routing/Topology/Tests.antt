-- ===== src/Routing/Topology/Tests.antt =====
-- The theorems about main.cpp of A3 at a small network and at concrete draws.
use computer_network_course.Prelude.{
  ℕ, zero, suc, ◌≡◌, refl, arith, List, [], ◌∷◌, ◌++◌, some, length, All, ◌<◌, true, false,
}
use computer_network_course.Routing.Qt.Assoc.{assoc}
use computer_network_course.Routing.Text.Plain.{plain}
use computer_network_course.Routing.Ports
use computer_network_course.Routing.Ports.{Port, Peer}
use computer_network_course.Routing.Router.{rip_protocol, ospf_protocol, new_router}
use computer_network_course.Routing.Pc.{new_pc}
use computer_network_course.Routing.Topology.{
  Nodes, router_node, pc_node, find_by_id, get_id, bind_by_input_line,
}
use computer_network_course.Routing.Topology.Bind.{Links}
use computer_network_course.Routing.Topology.Line.{link_line, bind_by_input_line-Links}
use computer_network_course.Routing.Topology.Schedule.{
  Draw, generate_poisson_numbers, count_occurrences, send_from_pc, print_table,
}
use computer_network_course.Routing.Topology.Schedule.Packets.{Crosses, packets_sent}
use computer_network_course.Routing.Topology.Schedule.Walk.{IsAt, after, started, ospf_walk}
use computer_network_course.Routing.Topology.Phases.{
  Plan, System, Main, at_one, at_two, rip_finished,
}

abbrev unset : Peer
unset = record { node_id = 0; as_id = 0; number = 0 }

abbrev unset_port : Port
unset_port = record { number = 0; node_id = 0; as_id = 0; destination = unset; buffer = [] }

abbrev three_nodes : Nodes assoc
three_nodes =
    router_node (new_router assoc rip_protocol 1 1)
    ∷ pc_node (new_pc unset_port 3 2)
    ∷ router_node (new_router assoc rip_protocol 1 3)
    ∷ []

bind_by_input_line-Links_example :
    (nodes' : Nodes assoc) × (bind_by_input_line assoc plain unset
        (link_line plain (3, 200) (2, 100))
        three_nodes
      ≡ some nodes')
    × Links assoc 200 100 2 1
        (router_node (new_router assoc rip_protocol 1 3))
        (pc_node (new_pc unset_port 3 2))
        three_nodes
        nodes'
unfolding find_by_id get_id new_router new_pc Ports.get_port_by_port_number
bind_by_input_line-Links_example =
    bind_by_input_line-Links assoc plain unset 200 100 2 1 3 2
      (router_node (new_router assoc rip_protocol 1 3)) (pc_node (new_pc unset_port 3 2))
      three_nodes (omega arith) refl refl refl refl refl tt

ospf_walk_example :
    ((n : ℕ) → n < 8 → IsAt 8 2 16 n (after 8 2 16 n))
    × ((after 8 2 16 8).finish_flag ≡ true)
    × ((after 8 2 16 8).calls
        ≡ started 2 (16 ∷ 17 ∷ 18 ∷ 19 ∷ 20 ∷ 21 ∷ 22 ∷ 23 ∷ []) ++ (16, print_table) ∷ [])
ospf_walk_example = ospf_walk 8 2 16

-- Draws that are all 7.
abbrev sevens : ℕ → List ℕ
sevens zero = []
sevens (suc n) = 7 ∷ sevens n

abbrev drawn : ℕ → Draw
drawn k = record { first_pc = 24; second_pc = 36; side = k }

packets_sent_example :
    (numbers : List ℕ) × (generate_poisson_numbers 30 30 (0 ∷ 31 ∷ sevens 30) ≡ some numbers)
    × (length (send_from_pc drawn 0 (count_occurrences 30 numbers)) ≡ 30)
    × All
        (Crosses assoc unset_port rip_protocol ospf_protocol)
        (send_from_pc drawn 0 (count_occurrences 30 numbers))
packets_sent_example =
    packets_sent assoc unset_port rip_protocol ospf_protocol (0 ∷ 31 ∷ sevens 30) drawn
      (omega arith) (λ k. ((omega arith, omega arith), (omega arith, omega arith)))

abbrev rip_plan : ℕ → ℕ → ℕ → Plan
rip_plan as_id start count = record {
  as_id = as_id;
  start = start;
  count = count;
  protocol = rip_protocol;
}

abbrev waiting : System
waiting = record { finish_flag = false; index = 0; rip_timer = true }

abbrev at_start : Main
at_start = record {
  one = waiting;
  two = waiting;
  polling = true;
  ibgp_timer = false;
  packets_timer = false;
  console_timer = false;
  calls = [];
}

abbrev both_ended : Main
both_ended =
    let m = at_one (rip_finished (rip_plan 1 0 16) at_start.one) at_start in
    at_two (rip_finished (rip_plan 2 16 8) m.two) m
