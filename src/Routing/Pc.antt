-- ===== src/Routing/Pc.antt =====
-- A3/pc.cpp: a PC has one port, sends one packet through it and prints those that it gets.
use computer_network_course.Prelude.{ℕ, List, [], Option, none, some}
use computer_network_course.Prelude.Text.{codes}
use computer_network_course.Routing.Text.{QtText}
use computer_network_course.Routing.Packet.{Packet, packet, incode, decode, print_packet}
use computer_network_course.Routing.Ports.{Port, Peer, receive}

pub record Pc : Type 0 where
  pub id : ℕ
  pub as_id : ℕ
  pub source_port : Port

-- The constructor, and `addNewPort`: `unset_port` and `unset` stand for pointers with no value yet.
unfoldable pub new_pc : Port → ℕ → ℕ → Pc
new_pc unset_port as_id id = record { id = id; as_id = as_id; source_port = unset_port }

unfoldable pub add_new_port : Peer → ℕ → Pc → Pc
add_new_port unset number pc = record pc {
  source_port = record {
    number = number;
    node_id = pc.id;
    as_id = pc.as_id;
    destination = unset;
    buffer = [];
  };
}

-- The number is not read.
unfoldable pub bind_dest_port : ℕ → Peer → Pc → Pc
bind_dest_port number dest pc = record pc {
  source_port = record pc.source_port { destination = dest };
}

unfoldable pub get_port_by_port_number : ℕ → Pc → Port
get_port_by_port_number number pc = pc.source_port

module _ (t : QtText) where
  -- `startPCs`: the text sent through the one port.
  unfoldable pub start_pcs : ℕ → Pc → List ℕ
  start_pcs dest pc = incode t (packet t (codes "HELLO") pc.id dest)

  printed : Option (List ℕ × Packet) → Option (List ℕ)
  printed none = none
  printed (some (text, p)) = some text

  print_decoded : Option Packet → Option (List ℕ)
  unfolding printed
  print_decoded none = none
  print_decoded (some p) = printed (print_packet t p)

  with_port : Pc → Option (List ℕ × Port) → Pc × Option (Option (List ℕ))
  unfolding print_decoded
  with_port pc none = (pc, none)
  with_port pc (some (line, port)) =
      (record pc { source_port = port }, some (print_decoded (decode t line)))

  -- `update`: nothing on an empty buffer; else what is printed, `none` for a text that stops it.
  unfoldable pub update : Pc → Pc × Option (Option (List ℕ))
  unfolding with_port
  update pc = with_port pc (receive pc.source_port)
