-- ===== src/Routing/Ports/Sends.antt =====
-- A3/router.cpp: what a router sends, and through which ports.
use computer_network_course.Prelude.{
  ℕ, ◌+◌, ◌≡◌, ◌⊎◌, inl, inr, refl, ap, ◌∙◌, arith, List, [], ◌∷◌, Option, none, some, length, ◌==◌,
  Bool-cases, All, ◌≢◌,
}
use computer_network_course.Routing.Qt.{QHash}
use computer_network_course.Routing.Tables.Ibgp.{touch, value}
use computer_network_course.Routing.Text.{QtText}
use computer_network_course.Routing.Packet.{Packet, incode, add_router_to_path}
use computer_network_course.Routing.Packet.Travel.{IsValid, decode-incode, hop}
use computer_network_course.Routing.Ports.{
  Port, Sends, get_port_by_port_number, send_rip, start_ebgp, send_through, forward, forward_packet,
}

-- Every port gets a message of exactly one of the two protocols.
pub length-send_rip :
    (as_id : ℕ) (a b : List ℕ) (ports : List Port)
    → length (send_rip as_id a ports) + length (start_ebgp as_id b ports) ≡ length ports
unfolding send_rip start_ebgp
length-send_rip as_id a b [] = omega arith
length-send_rip as_id a b (p ∷ ports) = ground (arith, length-send_rip as_id a b ports)

-- The port that a number stands for, or no port has it.
get_port_found :
    (n : ℕ) (ports : List Port)
    → ((p : Port) × (get_port_by_port_number n ports ≡ some p) × (p.number ≡ n))
      ⊎ ((get_port_by_port_number n ports ≡ none) × All (λ p. p.number ≢ n) ports)
unfolding get_port_by_port_number
get_port_found n [] = inr (refl, tt)
get_port_found n (p ∷ ports) = elim (Bool-cases (p.number == n)) [
  | inl same ↦ inl (p, rw same refl, ground arith)
  | inr other ↦ elim (get_port_found n ports) [
    | inl (r, e, f) ↦ inl (r, rw other e, f)
    | inr (e, all) ↦ inr (rw other e, (ground arith, all))
  ]
]

module _ (q : QHash) (t : QtText) where
  open q use {Table}

  -- A router that forwards the text of a valid packet sends it, with its own id behind the path, once
  -- through the port that its table has for the destination, 0 if it has none; it sends nothing exactly
  -- if none of its ports has that number.
  pub forward_sends :
      (id : ℕ) (ports : List Port) (forwarding : Table) (p : Packet)
      → IsValid t p
      → let n = value q forwarding p.dest_id in
        ((r : Port) × (r.number ≡ n)
          × (get_port_by_port_number n ports ≡ some r)
          × (forward q t id ports forwarding (incode t p)
              ≡ some (touch q forwarding p.dest_id, (r.destination, incode t (hop t id p)) ∷ [])))
        ⊎ ((forward q t id ports forwarding (incode t p) ≡ some (touch q forwarding p.dest_id, []))
            × All (λ r. r.number ≢ n) ports)
  unfolding forward forward_packet send_through add_router_to_path
  forward_sends id ports forwarding p h =
      let n = value q forwarding p.dest_id in
      let sent : Option Port → Option (Table × Sends) =
        λ o. some (touch q forwarding p.dest_id, send_through q t o (incode t (hop t id p))) in
      let decoded = ap (forward_packet q t id ports forwarding) (decode-incode t p h) in
      elim (get_port_found n ports) [
        | inl (r, e, f) ↦ inl (r, f, e, decoded ∙ ap sent e)
        | inr (e, all) ↦ inr (decoded ∙ ap sent e, all)
      ]
