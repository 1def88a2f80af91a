-- ===== src/Routing/Packet.antt =====
-- A3/packet.cpp, and what the routers do to the text of a packet that lies in a buffer.
pub mod Travel
pub mod Journey
use computer_network_course.Prelude.{
  ℕ, ◌+◌, List, [], ◌∷◌, ◌++◌, Option, none, some, ◌==◌, if◌then◌else◌, length, get_elem?,
}
use computer_network_course.Prelude.Text.{codes, same_text}
use computer_network_course.Routing.Text.{QtText}

abbrev pub hash : ℕ
hash = b'#'

abbrev pub comma : ℕ
comma = b','

-- `MESSAGE`, as a text.
abbrev pub message_kind : List ℕ
message_kind = codes "M"

pub record Packet : Type 0 where
  pub message : List ℕ
  pub source_id : ℕ
  pub source_ip : List ℕ
  pub dest_id : ℕ
  pub dest_ip : List ℕ
  pub routers_in_path : List (List ℕ)
  pub cycle_in_buffer : ℕ

module _ (t : QtText) where
  open t use {split, join, number, to_int}

  abbrev pub ip : ℕ → List ℕ
  ip id = codes "192.168.0." ++ number id

  -- The constructor.
  unfoldable pub packet : List ℕ → ℕ → ℕ → Packet
  packet message source dest = record {
    message = message;
    source_id = source;
    source_ip = ip source;
    dest_id = dest;
    dest_ip = ip dest;
    routers_in_path = [];
    cycle_in_buffer = 0;
  }

  unfoldable pub increase_buffer_time : Packet → Packet
  increase_buffer_time p = record p { cycle_in_buffer = p.cycle_in_buffer + 1 }

  unfoldable pub add_router_to_path : ℕ → Packet → Packet
  add_router_to_path id p = record p { routers_in_path = p.routers_in_path ++ number id ∷ [] }

  unfoldable pub incode : Packet → List ℕ
  incode p =
      message_kind
      ++ hash
        ∷ (number p.dest_id
            ++ hash
              ∷ (number p.source_id
                  ++ hash
                    ∷ (p.message
                        ++ hash
                          ∷ (join p.routers_in_path comma ++ hash ∷ number p.cycle_in_buffer))))

  -- `none` is an index out of range, at which the list asserts.
  decode_parts : List (List ℕ) → Option Packet
  unfolding packet
  decode_parts (kind ∷ dest ∷ source ∷ message ∷ path ∷ cycles ∷ rest) =
      some (record (packet message (to_int source) (to_int dest)) {
        routers_in_path = split path comma;
        cycle_in_buffer = to_int cycles;
      })
  decode_parts _ = none

  unfoldable pub decode : List ℕ → Option Packet
  unfolding decode_parts
  decode line = decode_parts (split line hash)

  -- The text that is printed, and the packet behind it; `removeFirst` asserts on an empty list.
  print_path : List (List ℕ) → Packet → Option (List ℕ × Packet)
  print_path [] p = none
  print_path (first ∷ path) p = some (
    codes "Packet Info: SourceIP:"
        ++ p.source_ip
        ++ codes " DestIP:"
        ++ p.dest_ip
        ++ codes " Message:"
        ++ p.message
        ++ codes " RoutersInPath:"
        ++ join path comma
        ++ codes " PathLength:"
        ++ number (length path + 1)
        ++ codes " CyclesInBuffer:"
        ++ number p.cycle_in_buffer,
    record p { routers_in_path = path },
  )

  unfoldable pub print_packet : Packet → Option (List ℕ × Packet)
  unfolding print_path
  print_packet p = print_path p.routers_in_path p

  map_incode : (Packet → Packet) → Option Packet → Option (List ℕ)
  map_incode f none = none
  map_incode f (some p) = some (incode (f p))

  -- `increaseTimeInBuffer` on one text of a buffer.
  aged : List (List ℕ) → List ℕ → Option (List ℕ)
  unfolding map_incode
  aged [] line = none
  aged (kind ∷ parts) line =
      if same_text kind message_kind
      then map_incode increase_buffer_time (decode line)
      else some line

  unfoldable pub increase_time_in_buffer : List ℕ → Option (List ℕ)
  unfolding aged
  increase_time_in_buffer line = aged (split line hash) line

  -- The text that `Router::forward` sends on.
  unfoldable pub forwarded : ℕ → List ℕ → Option (List ℕ)
  unfolding map_incode
  forwarded id line = map_incode (add_router_to_path id) (decode line)
