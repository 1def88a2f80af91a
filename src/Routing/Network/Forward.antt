-- ===== src/Routing/Network/Forward.antt =====
-- A3/router.cpp: a turn of a router where one packet waits and nothing else does.
use computer_network_course.Prelude.{
  ℕ, suc, ◌≡◌, ◌≢◌, inl, inr, refl, sym, ap, ap₂, subst, ◌∙◌, arith, true, false, ◌&&◌, List, [],
  ◌∷◌, ◌++◌, append_assoc, Option, some, All, length, length-append, set, if_true, if_false, ◌==◌,
}
use computer_network_course.Prelude.Text.{same_text}
use computer_network_course.Routing.Qt.{QHash, elem, is_some, value_or_zero}
use computer_network_course.Routing.Text.{QtText}
use computer_network_course.Routing.Tables.Ibgp.{touch, value}
use computer_network_course.Routing.Packet.{Packet, incode, hash}
use computer_network_course.Routing.Packet.Travel.{IsValid, hop, split-incode}
use computer_network_course.Routing.Ports.{numbers, Port, take_first, get_port_by_port_number}
use computer_network_course.Routing.Ports.Sends.{forward_sends}
use computer_network_course.Routing.Router.{Router, Turn, join_turns, rip_protocol, ospf_protocol}
use computer_network_course.Routing.Router.Traffic.{
  send_on, cons_port, handle_parts, handle_received, handle_ports, update_forwarding, age_ports,
  age_buffer,
}
use computer_network_course.Routing.Router.Slots.{update, age_turn, with_ports}
use computer_network_course.Routing.Network.Idle.{
  IsEmpty, OneText, emptied, emptied-IsEmpty, numbered_once, emptied_empty, handle_ports-suc,
  handle_next, skip_port, idle,
}

module _ (q : QHash) (t : QtText) where
  open q use {Table, find}

  -- The text was sent once, through the port that the forwarding table has, and its buffer is empty.
  pub record Sent (port : ℕ) (r : Router q) (text : List ℕ) (ports : List Port)
      (o : Option (Turn q)) : Type 0 where
    pub through : Port
    pub found : get_port_by_port_number port ports ≡ some through
    pub turn :
        o
        ≡ some (record {
          router = record r { ports = ports };
          sends = (through.destination, text) ∷ [];
          signals = [];
        })

  forward_valid :
      (port number : ℕ) (r : Router q) (p : Packet)
      → IsValid t p
      → find r.forwarding_table p.dest_id ≡ some port
      → elem port (numbers r.ports) ≡ true
      → Sent port r
          (incode t (hop t r.id p))
          r.ports
          (handle_parts q t number (incode t p) r (t.split (incode t p) hash))
  unfolding handle_parts touch same_text send_on
  forward_valid port number r p valid entry has =
      let at : value q r.forwarding_table p.dest_id ≡ port = ap value_or_zero entry in
      let kept : touch q r.forwarding_table p.dest_id ≡ r.forwarding_table =
        if_true _ _ (is_some (find r.forwarding_table p.dest_id)) (ap is_some entry) in
      elim (forward_sends q t r.id r.ports r.forwarding_table p valid) [
        | inl (x, e, found, sent) ↦ record {
          through = x;
          found = ap (λ n. get_port_by_port_number n r.ports) (sym at) ∙ found;
          turn =
              ap (handle_parts q t number (incode t p) r) (split-incode t p valid)
              ∙ ap (send_on q t r) sent
              ∙ ap
                  (λ table. some (record {
                    router = record r { forwarding_table = table };
                    sends = (x.destination, incode t (hop t r.id p)) ∷ [];
                    signals = [];
                  }))
                  kept;
        }
        | inr (sent, all) ↦
            absurd
              (numbered_once port r.ports has (subst (λ n. All (λ x. x.number ≢ n) r.ports) at all))
      ]

  set-middle : (xs ys : List Port) (a b : Port) → set (xs ++ a ∷ ys) (length xs) b ≡ xs ++ b ∷ ys
  set-middle [] ys a b = refl
  set-middle (x ∷ xs) ys a b = ap (◌∷◌ x) (set-middle xs ys a b)

  numbers-middle :
      (xs ys : List Port) (a : Port)
      → numbers (xs ++ record a { buffer = [] } ∷ ys) ≡ numbers (xs ++ a ∷ ys)
  numbers-middle [] ys a = refl
  numbers-middle (x ∷ xs) ys a = ap (◌∷◌ x.number) (numbers-middle xs ys a)

  take_text :
      (passed rest : List Port) (a : Port) (port : ℕ) (r : Router q) (p : Packet)
      → r.ports ≡ passed ++ a ∷ rest
      → a.buffer ≡ incode t p ∷ []
      → All IsEmpty rest
      → IsValid t p
      → find r.forwarding_table p.dest_id ≡ some port
      → elem port (numbers r.ports) ≡ true
      → Sent port r
          (incode t (hop t r.id p))
          (passed ++ record a { buffer = [] } ∷ rest)
          (handle_ports q t (suc (length rest)) (length passed) r)
  unfolding handle_received take_first join_turns
  take_text passed rest a port r p e b empty valid entry has =
      let taken : Router q = record r { ports = passed ++ record a { buffer = [] } ∷ rest } in
      let sent =
        forward_valid port a.number taken p valid entry
          (ap (elem port) (numbers-middle passed rest a ∙ ap numbers (sym e)) ∙ has) in
      let handled =
        handle_next q t passed rest a r e
        ∙ ap (λ b. handle_received q t (length passed) r (take_first b a)) b
        ∙ ap
            (λ ps.
              handle_parts q t a.number (incode t p) (record r { ports = ps })
                (t.split (incode t p) hash))
            (ap (λ ps. set ps (length passed) (record a { buffer = [] })) e
              ∙ set-middle passed rest a (record a { buffer = [] }))
        ∙ sent.turn in
      let turn : Turn q = record {
        router = taken;
        sends = (sent.through.destination, incode t (hop t r.id p)) ∷ [];
        signals = [];
      } in
      record {
        through = sent.through;
        found = sent.found;
        turn =
            handle_ports-suc q t (length rest) (length passed) r turn handled
            ∙ ap (join_turns q turn) (
                ap (λ i. handle_ports q t (length rest) i taken)
                  (omega (arith, length-append passed (record a { buffer = [] } ∷ [])))
                ∙ idle q t (passed ++ record a { buffer = [] } ∷ []) rest taken
                    (sym (append_assoc passed (record a { buffer = [] } ∷ []) rest)) empty);
      }

  forward_one :
      (passed rest : List Port) (port : ℕ) (r : Router q) (p : Packet)
      → r.ports ≡ passed ++ rest
      → OneText (incode t p) rest
      → IsValid t p
      → find r.forwarding_table p.dest_id ≡ some port
      → elem port (numbers r.ports) ≡ true
      → Sent port r
          (incode t (hop t r.id p))
          (passed ++ emptied rest)
          (handle_ports q t (length rest) (length passed) r)
  forward_one passed [] port r p e h valid entry has = absurd h
  forward_one passed (a ∷ rest) port r p e (inl (b, empty)) valid entry has =
      subst
        (λ ps.
          Sent port r (incode t (hop t r.id p)) (passed ++ record a { buffer = [] } ∷ ps)
            (handle_ports q t (suc (length rest)) (length passed) r))
        (sym (emptied_empty rest empty))
        (take_text passed rest a port r p e b empty valid entry has)
  forward_one passed (a ∷ rest) port r p e (inr (b, one)) valid entry has =
      let more =
        forward_one (passed ++ a ∷ []) rest port r p (e ∙ sym (append_assoc passed (a ∷ []) rest))
          one valid entry has in
      let same : (passed ++ a ∷ []) ++ emptied rest
          ≡ passed ++ record a { buffer = [] } ∷ emptied rest =
        append_assoc passed (a ∷ []) (emptied rest)
        ∙ ap (λ b. passed ++ record a { buffer = b } ∷ emptied rest) b in
      subst
        (Sent port r (incode t (hop t r.id p)) (passed ++ record a { buffer = [] } ∷ emptied rest))
        (sym (skip_port q t passed rest a r e b))
        (subst
          (λ ps.
            Sent port r (incode t (hop t r.id p)) ps
              (handle_ports q t (length rest) (length (passed ++ a ∷ [])) r))
          same more)

  age_ports-empty : (ports : List Port) → All IsEmpty ports → age_ports q t ports ≡ some ports
  unfolding age_ports age_buffer cons_port
  age_ports-empty [] h = refl
  age_ports-empty (p ∷ ports) (hp, h) =
      ap₂ (cons_port q t p) (ap (age_buffer q t) hp) (age_ports-empty ports h)
      ∙ ap (λ b. some (record p { buffer = b } ∷ ports)) (sym hp)

  -- Both protocols are turned off.
  abbrev pub IsOff : Router q → Type 0
  IsOff r = (r.is_rip_start ≡ false) × (r.is_ospf_start ≡ false)

  pub update_forwards :
      (port : ℕ) (r : Router q) (p : Packet)
      → IsOff r
      → OneText (incode t p) r.ports
      → IsValid t p
      → find r.forwarding_table p.dest_id ≡ some port
      → elem port (numbers r.ports) ≡ true
      → Sent port r (incode t (hop t r.id p)) (emptied r.ports) (update q t r)
  unfolding update update_forwarding age_turn with_ports
  update_forwards port r p (rip, ospf) one valid entry has =
      let sent = forward_one [] r.ports port r p refl one valid entry has in
      record {
        through = sent.through;
        found = sent.found;
        turn =
            if_false _ _ (r.protocol_type == ospf_protocol && r.is_ospf_start) (ground arith)
            ∙ if_false _ _ (r.protocol_type == rip_protocol && r.is_rip_start) (ground arith)
            ∙ ap (age_turn q t) sent.turn
            ∙ ap
                (with_ports q t (record {
                  router = record r { ports = emptied r.ports };
                  sends = (sent.through.destination, incode t (hop t r.id p)) ∷ [];
                  signals = [];
                }))
                (age_ports-empty (emptied r.ports) (emptied-IsEmpty r.ports));
      }
