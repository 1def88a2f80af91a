-- ===== src/Routing/Ports.antt =====
-- A3/port.cpp, and what A3/router.cpp does with the ports of a router: `send` with a port is an entry
-- of a list of sends, which the other end's `deliver` takes.
pub mod Sends
pub mod Buffer
use computer_network_course.Prelude.{
  ℕ, zero, suc, map, ◌+◌, Bool, true, false, not, List, [], ◌∷◌, ◌++◌, Option, none, some, ◌==◌,
  if◌then◌else◌,
}
use computer_network_course.Prelude.Text.{codes}
use computer_network_course.Routing.Qt.{QHash}
use computer_network_course.Routing.Tables.Ibgp.{touch, value}
use computer_network_course.Routing.Text.{QtText}
use computer_network_course.Routing.Packet.{Packet, hash, decode, incode, add_router_to_path}

-- What is read of `destination`: its node's id and its autonomous system. Together with its number the
-- id says which port it is, as `bindDestPort` is only given what `getPortByPortNumber` returns.
pub record Peer : Type 0 where
  pub node_id : ℕ
  pub as_id : ℕ
  pub number : ℕ

pub record Port : Type 0 where
  pub number : ℕ
  pub node_id : ℕ
  pub as_id : ℕ
  pub destination : Peer
  pub buffer : List (List ℕ)

abbrev pub numbers : List Port → List ℕ
numbers ports = map (λ p. p.number) ports

-- The other end's `buffer.push_back`.
unfoldable pub deliver : List ℕ → Port → Port
deliver text p = record p { buffer = p.buffer ++ text ∷ [] }

-- `none` is `first` of an empty list, which asserts.
unfoldable pub take_first : List (List ℕ) → Port → Option (List ℕ × Port)
take_first [] p = none
take_first (text ∷ rest) p = some (text, record p { buffer = rest })

unfoldable pub receive : Port → Option (List ℕ × Port)
unfolding take_first
receive p = take_first p.buffer p

unfoldable pub get_port_by_port_number : ℕ → List Port → Option Port
get_port_by_port_number n [] = none
get_port_by_port_number n (p ∷ ports) =
    let rest = get_port_by_port_number n ports in if p.number == n then some p else rest

-- Sends, each with the port at whose buffer it arrives.
abbrev pub Sends : Type 0
Sends = List (Peer × List ℕ)

-- `sendRip` with the text of the table, to the neighbours of the router's own system.
unfoldable pub send_rip : ℕ → List ℕ → List Port → Sends
send_rip as_id text [] = []
send_rip as_id text (p ∷ ports) =
    let rest = send_rip as_id text ports in
    if p.destination.as_id == as_id then (p.destination, text) ∷ rest else rest

-- `startEBGP`, to those of the other; `send` marks the text.
unfoldable pub start_ebgp : ℕ → List ℕ → List Port → Sends
start_ebgp as_id text [] = []
start_ebgp as_id text (p ∷ ports) =
    let rest = start_ebgp as_id text ports in
    if p.destination.as_id == as_id then rest else (p.destination, codes "E" ++ hash ∷ text) ∷ rest

module _ (q : QHash) (t : QtText) where
  open q use {Table, find, insert}

  send_through : Option Port → List ℕ → Sends
  send_through none text = []
  send_through (some p) text = (p.destination, text) ∷ []

  forward_packet : ℕ → List Port → Table → Option Packet → Option (Table × Sends)
  unfolding send_through
  forward_packet id ports forwarding none = none
  forward_packet id ports forwarding (some p) = some (
    touch q forwarding p.dest_id,
    send_through (get_port_by_port_number (value q forwarding p.dest_id) ports)
        (incode t (add_router_to_path t id p)),
  )

  -- The forwarding table behind the call, and what was sent; `none` is a text that is no packet.
  unfoldable pub forward : ℕ → List Port → Table → List ℕ → Option (Table × Sends)
  unfolding forward_packet
  forward id ports forwarding line = forward_packet id ports forwarding (decode t line)
