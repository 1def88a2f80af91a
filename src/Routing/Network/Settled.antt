-- ===== src/Routing/Network/Settled.antt =====
-- A3: from the first turn of RIP to the packet at its end.
use computer_network_course.Prelude.{
  arith, ℕ, ◌≤◌, ◌≡◌, ◌≢◌, refl, true, false, List, [], ◌∷◌, some, All, map, length,
}
use computer_network_course.Routing.Qt.{QHash, elem}
use computer_network_course.Routing.Text.{QtText}
use computer_network_course.Routing.Tables.{update_distance_vector}
use computer_network_course.Routing.Tables.Walks.{Walk}
use computer_network_course.Routing.Packet.{Packet, packet, incode, decode}
use computer_network_course.Routing.Packet.Journey.{packet-IsValid}
use computer_network_course.Routing.Ports.{numbers, Port, Peer}
use computer_network_course.Routing.Pc.{Pc, start_pcs}
use computer_network_course.Prelude.Text.{codes}
use computer_network_course.Routing.Router.Slots.{turn_off_protocols}
use computer_network_course.Routing.Network.{Net, post, Reach, turn_off_all, take_updates}
use computer_network_course.Routing.Network.Tidy.{Tidy, PortIs}
use computer_network_course.Routing.Network.Walks.{Reach-Tidy}
use computer_network_course.Routing.Network.Posts.{Flows}
use computer_network_course.Routing.Network.Routes.{Route, at_end, through, rip_rest-Route}
use computer_network_course.Routing.Network.Idle.{IsEmpty}
use computer_network_course.Routing.Network.Delivery.{
  IsWired, AllReady, IsAlone, post-AllReady, delivered-IsAlone, packet_delivered,
}

module _ (q : QHash) (t : QtText) (Link : ℕ → ℕ → Type 0) (far : ℕ → ℕ → ℕ) where
  -- Every cable ends at a port that is there.
  abbrev pub Cabled : Net q → Type 0
  Cabled net =
      (a : ℕ)
      → All (λ p. elem p.destination.number (numbers (net p.destination.node_id).ports) ≡ true)
          (net a).ports

  turn_off-Route :
      {net : Net q} {a j n : ℕ}
      → Route q t Link far net a j n
      → Route q t Link far (turn_off_all q t net) a j n
  unfolding turn_off_protocols
  turn_off-Route (at_end a) = at_end a
  turn_off-Route (through port entry has link way) =
      through port entry has link (turn_off-Route way)

  cables-IsWired :
      (net : Net q) (a : ℕ) (ports : List Port)
      → All (PortIs q t Link far a) ports
      → All
          (λ p. elem p.destination.number (numbers (net p.destination.node_id).ports) ≡ true)
          ports
      → All (IsWired q t Link far (turn_off_all q t net) a) ports
  unfolding turn_off_protocols
  cables-IsWired net a [] hp hc = tt
  cables-IsWired net a (p ∷ ports) (hp, hps) (hc, hcs) =
      ((hp.there, hc), cables-IsWired net a ports hps hcs)

  turn_off-AllReady :
      (net : Net q)
      → Tidy q t Link far net
      → Cabled net
      → AllReady q t Link far (turn_off_all q t net) (turn_off_all q t net)
  unfolding turn_off_protocols
  turn_off-AllReady net tidy cabled a = record {
    id = (tidy a).id;
    off = (refl, refl);
    entries = refl;
    wired = cables-IsWired net a (net a).ports (tidy a).ports (cabled a);
    same_numbers = refl;
  }

  -- From a tidy start whose forwarding tables fit the costs, after turns of RIP in any order to a state
  -- at rest with empty buffers, where every cable ends at a port that is there, the protocols are turned
  -- off, and a PC sends its packet through a cable to some router: routers that update once each, no more
  -- of them than any walk from that router to the destination has links, bring the packet there, with
  -- exactly their ids behind the empty start of its path, and no other text is anywhere.
  pub rip_delivers :
      {s net : Net q} {j n : ℕ} (pc : Pc)
      → Tidy q t Link far s
      → Flows q t Link far s
      → Reach q t s net
      → ((a b : ℕ)
          → Link a b
          → (update_distance_vector q a
              (net b).distance_vector
              0
              (net a).distance_vector
              (net a).forwarding_table).changed
            ≡ false)
      → ((a : ℕ) → All IsEmpty (net a).ports)
      → Cabled net
      → elem pc.source_port.destination.number
          (numbers (net pc.source_port.destination.node_id).ports)
        ≡ true
      → Walk Link pc.source_port.destination.node_id j n
      → j ≢ pc.source_port.destination.node_id
      → (ids : List ℕ) × (u : Net q) × (line : List ℕ) × (length ids ≤ n)
        × (take_updates q t ids
              (post q (pc.source_port.destination, start_pcs t j pc) (turn_off_all q t net))
            ≡ some u)
        × IsAlone q line j u
        × (decode t line
            ≡ some (record (packet t (codes "HELLO") pc.id j) {
              routers_in_path = [] ∷ map t.number ids;
            }))
  unfolding turn_off_protocols start_pcs packet
  rip_delivers {net = net} {j} pc tidy flows r quiet empty cabled has w ne =
      let dest : Peer = pc.source_port.destination in
      let p : Packet = packet t (codes "HELLO") pc.id j in
      let off : Net q = turn_off_all q t net in
      let (k, route, le) = rip_rest-Route q t Link far tidy flows r quiet w ne in
      let ready = turn_off-AllReady net (Reach-Tidy q t Link far r tidy) cabled in
      let (ids, u, line, l, turns, there, text) =
        packet_delivered q t Link far off p (post q (dest, incode t p) off) (turn_off-Route route)
          (post-AllReady q t Link far off dest (incode t p) off ready)
          (delivered-IsAlone q t Link far off (incode t p) dest off empty has)
          (packet-IsValid t (codes "HELLO") pc.id j (omega arith)) refl in
      (ids, u, line, omega (arith, l, le), turns, there, text)
