-- ===== src/Routing/Router/Traffic.antt =====
-- A3/router.cpp: `updateForwarding` and `increaseTimeInBuffer`. `none` is a text of a kind that it does
-- not have the parts of.
use computer_network_course.Prelude.{
  ℕ, zero, suc, ◌+◌, List, [], ◌∷◌, Option, none, some, length, get_elem?, set, if◌then◌else◌,
}
use computer_network_course.Prelude.Text.{codes, same_text}
use computer_network_course.Routing.Qt.{QHash}
use computer_network_course.Routing.Tables.{update_distance_vector}
use computer_network_course.Routing.Text.{QtText}
use computer_network_course.Routing.Packet.{hash, message_kind, increase_time_in_buffer}
use computer_network_course.Routing.Records.{rip_decode}
use computer_network_course.Routing.Ports.{Port, Sends, receive, forward}
use computer_network_course.Routing.Router.{Router, Turn, still, join_turns}

module _ (q : QHash) (t : QtText) where
  open q use {Table}

  -- `EBGP`, as a text.
  abbrev pub ebgp_kind : List ℕ
  ebgp_kind = codes "E"

  learn_ebgp : ℕ → Router q → List (List ℕ) → Option (Turn q)
  learn_ebgp number r [] = none
  learn_ebgp number r (text ∷ rest) =
      let s =
        update_distance_vector q r.id (rip_decode q t text) number r.distance_vector
          r.forwarding_table in
      some (still q (record r { distance_vector = s.costs; forwarding_table = s.forwarding }))

  unfoldable pub send_on : Router q → Option (Table × Sends) → Option (Turn q)
  send_on r none = none
  send_on r (some (table, sends)) =
      some (record { router = record r { forwarding_table = table }; sends = sends; signals = [] })

  -- One text that was received through a port.
  unfoldable pub handle_parts : ℕ → List ℕ → Router q → List (List ℕ) → Option (Turn q)
  unfolding learn_ebgp send_on
  handle_parts number line r [] = none
  handle_parts number line r (kind ∷ parts) =
      if same_text kind ebgp_kind
      then learn_ebgp number r parts
      else if same_text kind message_kind
      then send_on r (forward q t r.id r.ports r.forwarding_table line)
      else some (still q r)

  unfoldable pub handle_received : ℕ → Router q → Option (List ℕ × Port) → Option (Turn q)
  handle_received i r none = some (still q r)
  handle_received i r (some (line, p)) =
      handle_parts p.number line (record r { ports = set r.ports i p }) (t.split line hash)

  unfoldable pub handle_at : ℕ → Router q → Option Port → Option (Turn q)
  unfolding handle_received
  handle_at i r none = some (still q r)
  handle_at i r (some p) = handle_received i r (receive p)

  -- The loop, with `n` ports left.
  unfoldable pub handle_ports : ℕ → ℕ → Router q → Option (Turn q)
  unfolding handle_at
  handle_ports zero i r = some (still q r)
  handle_ports (suc n) i r = elim (handle_at i r (get_elem? r.ports i)) [
    | none ↦ none
    | some a ↦ join_turns q a (handle_ports n (i + 1) a.router)
  ]

  unfoldable pub update_forwarding : Router q → Option (Turn q)
  update_forwarding r = handle_ports (length r.ports) 0 r

  cons_aged : Option (List ℕ) → Option (List (List ℕ)) → Option (List (List ℕ))
  cons_aged (some text) (some texts) = some (text ∷ texts)
  cons_aged none texts = none
  cons_aged (some text) none = none

  unfoldable pub age_buffer : List (List ℕ) → Option (List (List ℕ))
  unfolding cons_aged
  age_buffer [] = some []
  age_buffer (text ∷ texts) = cons_aged (increase_time_in_buffer t text) (age_buffer texts)

  unfoldable pub cons_port : Port → Option (List (List ℕ)) → Option (List Port) → Option (List Port)
  cons_port p (some buffer) (some ports) = some (record p { buffer = buffer } ∷ ports)
  cons_port p none ports = none
  cons_port p (some buffer) none = none

  unfoldable pub age_ports : List Port → Option (List Port)
  unfolding cons_port
  age_ports [] = some []
  age_ports (p ∷ ports) = cons_port p (age_buffer p.buffer) (age_ports ports)
