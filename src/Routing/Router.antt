-- ===== src/Routing/Router.antt =====
-- A3/router.cpp and router.h: the class Router. A slot that the program runs is a function of the router
-- to a Turn: the router behind it, what it sent, and the signals it emitted. The children have the
-- protocols and the traffic.
pub mod Rip
pub mod Ospf
pub mod Traffic
pub mod Slots
mod Tests
use computer_network_course.Prelude.{
  ℕ, zero, suc, ◌+◌, Bool, true, false, List, [], ◌∷◌, ◌++◌, Option, none, some, ◌==◌,
  if◌then◌else◌,
}
use computer_network_course.Routing.Qt.{QHash}
use computer_network_course.Routing.Records.{Lsp}
use computer_network_course.Routing.Ports.{Port, Peer, Sends, get_port_by_port_number}

-- `RIP` and `OSPF` of node.h.
abbrev pub rip_protocol : ℕ
rip_protocol = b'R'

abbrev pub ospf_protocol : ℕ
ospf_protocol = b'O'

pub data Signal : Type 0 where
  rip_finished ospf_finished : Signal

module _ (q : QHash) where
  open q use {Table, empty, insert}

  -- `ip` is left out; `lsp_receive_port` is `none` before it is first set.
  pub record Router : Type 0 where
    pub id : ℕ
    pub as_id : ℕ
    pub protocol_type : ℕ
    pub ports : List Port
    pub forwarding_table : Table
    pub lsdb : Lsp q
    pub distance_vector : Table
    pub is_start_ospf : Bool
    pub lsp_index : ℕ
    pub lsp_receive_port : Option Peer
    pub send_ospf : Bool
    pub is_rip_finished : Bool
    pub rip_convergence_condition : ℕ
    pub rip_finish_signal_emited : Bool
    pub is_rip_start : Bool
    pub is_ospf_start : Bool
    pub is_ebgp : Bool

  pub record Turn : Type 0 where
    pub router : Router
    pub sends : Sends
    pub signals : List Signal

  abbrev pub still : Router → Turn
  still r = record { router = r; sends = []; signals = [] }

  -- One turn after another; `none` is a program that has stopped.
  unfoldable pub join_turns : Turn → Option Turn → Option Turn
  join_turns a none = none
  join_turns a (some b) =
      some
        (record { router = b.router; sends = a.sends ++ b.sends; signals = a.signals ++ b.signals })

  -- The constructor.
  unfoldable pub new_router : ℕ → ℕ → ℕ → Router
  new_router protocol as_id id = record {
    id = id;
    as_id = as_id;
    protocol_type = protocol;
    ports = [];
    forwarding_table = empty;
    lsdb = record { table = empty; visited_node_ids = [] };
    distance_vector = empty;
    is_start_ospf = false;
    lsp_index = 0;
    lsp_receive_port = none;
    send_ospf = false;
    is_rip_finished = false;
    rip_convergence_condition = 0;
    rip_finish_signal_emited = false;
    is_rip_start = true;
    is_ospf_start = true;
    is_ebgp = false;
  }

  -- `destination` of a new port is a pointer with no value yet, which `unset` stands for.
  unfoldable pub add_new_port : Peer → ℕ → Router → Router
  add_new_port unset number r = record r {
    ports =
        r.ports
        ++ record {
          number = number;
          node_id = r.id;
          as_id = r.as_id;
          destination = unset;
          buffer = [];
        }
          ∷ [];
  }

  -- `setPortDest` on the port that `getPortByPortNumber` finds.
  unfoldable pub set_port_dest : ℕ → Peer → List Port → List Port
  set_port_dest number dest [] = []
  set_port_dest number dest (p ∷ ports) =
      let rest = set_port_dest number dest ports in
      if p.number == number then record p { destination = dest } ∷ ports else p ∷ rest

  -- The new neighbour costs 1 in both tables.
  unfoldable pub bind_found : Option Port → ℕ → Peer → Router → Router
  bind_found none number dest r = r
  bind_found (some p) number dest r = record r {
    ports = set_port_dest number dest r.ports;
    lsdb = record {
      table = insert r.lsdb.table dest.node_id 1;
      visited_node_ids = r.lsdb.visited_node_ids;
    };
    distance_vector = insert r.distance_vector dest.node_id 1;
    forwarding_table = insert r.forwarding_table dest.node_id number;
  }

  unfoldable pub bind_dest_port : ℕ → Peer → Router → Router
  unfolding bind_found
  bind_dest_port number dest r = bind_found (get_port_by_port_number number r.ports) number dest r
