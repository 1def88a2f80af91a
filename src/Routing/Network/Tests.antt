-- ===== src/Routing/Network/Tests.antt =====
-- The theorems about the routers together, with association lists for tables and two linked routers.
use computer_network_course.Prelude.{
  ℕ, zero, suc, All, map, length, ◌≤◌, ◌≡◌, ◌≢◌, ◌⊎◌, inl, inr, refl, subst, arith, true, false,
  List, [], ◌∷◌, none, some, ◌==◌, if◌then◌else◌,
}
use computer_network_course.Routing.Qt.Assoc.{assoc, find, keys}
use computer_network_course.Routing.Text.Plain.{plain}
use computer_network_course.Routing.Ports.{Port, send_rip}
use computer_network_course.Routing.Tables.{
  update_distance_vector, learn_all, learn, improve, write,
}
use computer_network_course.Routing.Tables.Walks.{Walk, here, next, Sound}
use computer_network_course.Routing.Router.{Router, rip_protocol}
use computer_network_course.Routing.Router.Rip.{start_rip, update_rip, send_table}
use computer_network_course.Routing.Network
use computer_network_course.Routing.Network.{
  Net, Reach, Step, starts, updates, take_turn, post_all, post, take_updates, turn_off_all,
}
use computer_network_course.Prelude.Text.{codes}
use computer_network_course.Routing.Packet.{packet, decode}
use computer_network_course.Routing.Pc.{Pc, start_pcs}
use computer_network_course.Routing.Network.Idle.{IsEmpty}
use computer_network_course.Routing.Network.Delivery.{IsAlone}
use computer_network_course.Routing.Network.Settled.{Cabled, rip_delivers}
use computer_network_course.Routing.Network.Tidy.{Tidy, RouterIs}
use computer_network_course.Routing.Network.Posts.{Flows, FlowIs, costs_of}
use computer_network_course.Routing.Network.Routes.{Route, Reach-Route}
use computer_network_course.Routing.Network.Walks.{Reach-Sound, rip_rest_shortest}

abbrev Link : ℕ → ℕ → Type 0
Link a b = ((a ≡ 1) × (b ≡ 2)) ⊎ ((a ≡ 2) × (b ≡ 1))

abbrev far : ℕ → ℕ → ℕ
far a n = if a == 1 then 2 else 1

-- A router of the network, with the port to its one neighbour, which is number 1: the entry of a cost
-- of 1 is that of the forwarding table too.
abbrev router_of : ℕ → List Port → List (ℕ × ℕ) → Router assoc
router_of id ports costs = record {
  id = id;
  as_id = 1;
  protocol_type = rip_protocol;
  ports = ports;
  forwarding_table = costs;
  lsdb = record { table = []; visited_node_ids = [] };
  distance_vector = costs;
  is_start_ospf = false;
  lsp_index = 0;
  lsp_receive_port = none;
  send_ospf = false;
  is_rip_finished = false;
  rip_convergence_condition = 0;
  rip_finish_signal_emited = false;
  is_rip_start = true;
  is_ospf_start = true;
  is_ebgp = false;
}

abbrev port_to : ℕ → ℕ → Port
port_to a b = record {
  number = 1;
  node_id = a;
  as_id = 1;
  destination = record { node_id = b; as_id = 1; number = 1 };
  buffer = [];
}

abbrev two : Net assoc
two zero = router_of zero [] []
two (suc zero) = router_of 1 (port_to 1 2 ∷ []) ((2, 1) ∷ [])
two (suc (suc zero)) = router_of 2 (port_to 2 1 ∷ []) ((1, 1) ∷ [])
two (suc (suc (suc a))) = router_of (suc (suc (suc a))) [] []

one_hop : (a b : ℕ) → Link a b → (j n : ℕ) → find ((b, 1) ∷ []) j ≡ some n → Walk Link a j n
unfolding find
one_hop a b l j n e =
    subst (λ x. Walk Link a x n) (ground arith)
      (subst (λ m. Walk Link a b m) (ground arith) (next l (here b)))

alone : (a : ℕ) → (a ≢ 1) → (a ≢ 2) → RouterIs assoc plain Link far a (router_of a [] [])
unfolding find
alone a h k = record {
  id = refl;
  sound = λ j n e. ground arith;
  near = λ b l. ground arith;
  ports = tt;
}

linked :
    (a b : ℕ)
    → Link a b
    → Link b a
    → ((c : ℕ) → Link a c → c ≡ b)
    → b ≡ far a 1
    → far b 1 ≡ a
    → RouterIs assoc plain Link far a (router_of a (port_to a b ∷ []) ((b, 1) ∷ []))
unfolding find
linked a b l m only there back = record {
  id = refl;
  sound = one_hop a b l;
  near = λ c k. (1, ground (arith, only c k), omega arith);
  ports = (record { there = there; back = back; link = l; told = tt }, tt);
}

two-Tidy : Tidy assoc plain Link far two
two-Tidy zero = alone zero (omega arith) (omega arith)
two-Tidy (suc zero) =
    linked 1 2 (inl (refl, refl)) (inr (refl, refl)) (λ c l. ground arith) refl refl
two-Tidy (suc (suc zero)) =
    linked 2 1 (inr (refl, refl)) (inl (refl, refl)) (λ c l. ground arith) refl refl
two-Tidy (suc (suc (suc a))) = alone (suc (suc (suc a))) (omega arith) (omega arith)

-- Router 1 starts and router 2 hears it.
abbrev started : Net assoc
started = take_turn assoc 1 (start_rip assoc plain (two 1)) two

still_runs : (started 2).is_rip_start ≡ true
unfolding take_turn post_all post start_rip send_table send_rip
still_runs = refl

Reach-Sound_example :
    Sound assoc Link 2
      (take_turn assoc 2 (update_rip assoc plain (started 2)) started 2).distance_vector
Reach-Sound_example =
    Reach-Sound assoc plain Link far 2 two-Tidy
      (Network.next (Network.next Network.here (starts two 1)) (updates started 2 still_runs))

quiet :
    (a b : ℕ)
    → Link a b
    → (update_distance_vector assoc a
        (two b).distance_vector
        0
        (two a).distance_vector
        (two a).forwarding_table).changed
      ≡ false
unfolding update_distance_vector learn_all learn improve write find keys
quiet a b (inl (p, r)) = ground arith
quiet a b (inr (p, r)) = ground arith

rip_rest_shortest_example : (c : ℕ) × (find ((2, 1) ∷ []) 2 ≡ some c) × Walk Link 1 2 c × (c ≤ 1)
rip_rest_shortest_example =
    rip_rest_shortest assoc plain Link far two-Tidy Network.here quiet
      (next (inl (refl, refl)) (here 2)) (λ p. ground arith)

alone-FlowIs :
    (a : ℕ) → FlowIs assoc plain Link far (costs_of assoc plain Link far two) a (router_of a [] [])
unfolding find
alone-FlowIs a = (tt, λ j n ne e. ground arith)

linked-FlowIs :
    (a b : ℕ)
    → Link a b
    → b ≡ far a 1
    → FlowIs assoc plain Link far
        (costs_of assoc plain Link far two)
        a
        (router_of a (port_to a b ∷ []) ((b, 1) ∷ []))
unfolding find
linked-FlowIs a b l there = (
  (tt, tt),
  λ j n ne e. record {
    port = 1;
    entry = ground arith;
    has_port = refl;
    link = subst (Link a) there l;
    positive = ground arith;
    onward = inl (ground arith);
  },
)

two-Flows : Flows assoc plain Link far two
two-Flows zero = alone-FlowIs zero
two-Flows (suc zero) = linked-FlowIs 1 2 (inl (refl, refl)) refl
two-Flows (suc (suc zero)) = linked-FlowIs 2 1 (inr (refl, refl)) refl
two-Flows (suc (suc (suc a))) = alone-FlowIs (suc (suc (suc a)))

cost_still : find (started 1).distance_vector 2 ≡ some 1
unfolding take_turn post_all post start_rip send_table send_rip find
cost_still = refl

two-IsEmpty : (a : ℕ) → All IsEmpty (two a).ports
two-IsEmpty zero = tt
two-IsEmpty (suc zero) = (refl, tt)
two-IsEmpty (suc (suc zero)) = (refl, tt)
two-IsEmpty (suc (suc (suc a))) = tt

two-Cabled : Cabled assoc plain Link far two
two-Cabled zero = tt
two-Cabled (suc zero) = (refl, tt)
two-Cabled (suc (suc zero)) = (refl, tt)
two-Cabled (suc (suc (suc a))) = tt

-- A PC at router 1.
abbrev sender : Pc
sender = record { id = 7; as_id = 3; source_port = port_to 7 1 }

rip_delivers_example :
    (ids : List ℕ) × (u : Net assoc) × (line : List ℕ) × (length ids ≤ 1)
    × (take_updates assoc plain ids (
          post assoc
            (sender.source_port.destination, start_pcs plain 2 sender)
            (turn_off_all assoc plain two))
        ≡ some u)
    × IsAlone assoc line 2 u
    × (decode plain line
        ≡ some (record (packet plain (codes "HELLO") 7 2) {
          routers_in_path = [] ∷ map plain.number ids;
        }))
rip_delivers_example =
    rip_delivers assoc plain Link far sender two-Tidy two-Flows Network.here quiet two-IsEmpty
      two-Cabled refl (next (inl (refl, refl)) (here 2)) (omega arith)

Reach-Route_example : (k : ℕ) × Route assoc plain Link far started 1 2 k × (k ≤ 1)
Reach-Route_example =
    Reach-Route assoc plain Link far two-Tidy two-Flows (Network.next Network.here (starts two 1))
      (omega arith) cost_still
