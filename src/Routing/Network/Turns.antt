-- ===== src/Routing/Network/Turns.antt =====
-- A3: the turns of RIP keep the invariant of the routers.
use computer_network_course.Prelude.{
  ℕ, sym, ◌∙◌, subst, Bool, true, false, not, List, [], ◌∷◌, All, ◌==◌, if◌then◌else◌, Bool-cases,
  inl, inr,
}
use computer_network_course.Routing.Qt.{QHash}
use computer_network_course.Routing.Text.{QtText}
use computer_network_course.Routing.Tables.Walks.{Sound, update-Sound}
use computer_network_course.Routing.Records.{rip_decode, rip_incode}
use computer_network_course.Routing.Records.RoundTrip.{rip_decode-rip_incode}
use computer_network_course.Routing.Ports.{Port, receive, take_first, send_rip}
use computer_network_course.Routing.Router.{Router, Turn, still}
use computer_network_course.Routing.Router.Rip.{
  Heard, hear_text, hear_port, hear_ports, hear, finish_rip, update_rip, start_rip, send_table,
}
use computer_network_course.Routing.Network.{Net, Step, starts, updates}
use computer_network_course.Routing.Network.Tidy.{
  Told, PortIs, Near, RouterIs, Tidy, SendIs, update-Near, take_turn-Tidy,
}

module _ (q : QHash) (t : QtText) (Link : ℕ → ℕ → Type 0) (far : ℕ → ℕ → ℕ) where
  open q use {Table, find}

  -- What `sendRip` sends is the table that the router has.
  send_table-SendIs :
      (a : ℕ) (r : Router q)
      → RouterIs q t Link far a r
      → All (SendIs q t Link far a) (send_table q t r)
  unfolding send_table send_rip
  send_table-SendIs a r h = go r.ports h.ports
    where
      told : Told q t Link far a (rip_incode q t r.distance_vector)
      told j n e = h.sound j n (sym (rip_decode-rip_incode q t r.distance_vector j) ∙ e)

      go :
          (ports : List Port)
          → All (PortIs q t Link far a) ports
          → All (SendIs q t Link far a) (send_rip r.as_id (rip_incode q t r.distance_vector) ports)
      go [] hp = tt
      go (p ∷ ports) (hp, rest) = elim (Bool-cases (p.destination.as_id == r.as_id)) [
        | inl same ↦ rw same ((hp.back, told), go ports rest)
        | inr other ↦ rw other (go ports rest)
      ]

  -- A port heard.
  abbrev HeardIs : ℕ → Heard q t → Type 0
  HeardIs a h = Sound q Link a h.costs × Near q t Link far a h.costs

  hear_taken :
      (a : ℕ) (buffer : List (List ℕ)) (p : Port) (h : Heard q t)
      → PortIs q t Link far a p
      → All (Told q t Link far p.destination.node_id) buffer
      → HeardIs a h
      → PortIs q t Link far a (hear_text q t a (take_first buffer p) p h).0
        × HeardIs a (hear_text q t a (take_first buffer p) p h).1
  unfolding hear_text take_first
  hear_taken a [] p h hp told hh = (hp, hh)
  hear_taken a (text ∷ rest) p h hp (ht, told) (sound, near) = (
    record { there = hp.there; back = hp.back; link = hp.link; told = told },
    (
      update-Sound q Link a p.destination.node_id (rip_decode q t text) p.number h.costs
          h.forwarding hp.link ht sound,
      update-Near q t Link far a (rip_decode q t text) p.number h.costs h.forwarding near,
    ),
  )

  hear_port-PortIs :
      (a : ℕ) (p : Port) (h : Heard q t)
      → PortIs q t Link far a p
      → HeardIs a h
      → PortIs q t Link far a (hear_port q t a p h).0 × HeardIs a (hear_port q t a p h).1
  unfolding hear_port receive
  hear_port-PortIs a p h hp hh = hear_taken a p.buffer p h hp hp.told hh

  hear_ports-PortIs :
      (a : ℕ) (ports : List Port) (h : Heard q t)
      → All (PortIs q t Link far a) ports
      → HeardIs a h
      → All (PortIs q t Link far a) (hear_ports q t a ports h).0
        × HeardIs a (hear_ports q t a ports h).1
  unfolding hear_ports
  hear_ports-PortIs a [] h hp hh = (tt, hh)
  hear_ports-PortIs a (p ∷ ports) h (hp, rest) hh =
      let (hp', hh') = hear_port-PortIs a p h hp hh in
      let (rest', hh'') = hear_ports-PortIs a ports (hear_port q t a p h).1 rest hh' in
      ((hp', rest'), hh'')

  abbrev pub TurnIs : ℕ → Turn q → Type 0
  TurnIs a turn = RouterIs q t Link far a turn.router × All (SendIs q t Link far a) turn.sends

  either_turn :
      (a : ℕ) (b : Bool) (x y : Turn q) → TurnIs a x → TurnIs a y → TurnIs a (if b then x else y)
  either_turn a true x y hx hy = hx
  either_turn a false x y hx hy = hy

  finish_rip-RouterIs :
      (a : ℕ) (r : Router q) → RouterIs q t Link far a r → TurnIs a (finish_rip q t r)
  unfolding finish_rip
  finish_rip-RouterIs a r h =
      either_turn a (not r.is_rip_finished) _ _ (h, send_table-SendIs a r h)
        (either_turn a (not r.rip_finish_signal_emited) _ (still q r)
          (record { id = h.id; sound = h.sound; near = h.near; ports = h.ports }, tt) (h, tt))

  hear-PortIs :
      (a : ℕ) (r : Router q)
      → RouterIs q t Link far a r
      → All (PortIs q t Link far a) (hear q t r).0 × HeardIs a (hear q t r).1
  hear-PortIs a r h =
      let start : Heard q t = record {
        costs = r.distance_vector;
        forwarding = r.forwarding_table;
        any_receive = false;
        any_changed = false;
      } in
      subst
        (λ x.
          All (PortIs q t Link far a) (hear_ports q t x r.ports start).0
          × HeardIs a (hear_ports q t x r.ports start).1)
        (sym h.id) (hear_ports-PortIs a r.ports start h.ports (h.sound, h.near))

  pub update_rip-RouterIs :
      (a : ℕ) (r : Router q) → RouterIs q t Link far a r → TurnIs a (update_rip q t r)
  unfolding update_rip
  update_rip-RouterIs a r h =
      let (ports, (sound, near)) = hear-PortIs a r h in
      finish_rip-RouterIs a _ (record { id = h.id; sound = sound; near = near; ports = ports })

  pub start_rip-RouterIs :
      (a : ℕ) (r : Router q) → RouterIs q t Link far a r → TurnIs a (start_rip q t r)
  unfolding start_rip
  start_rip-RouterIs a r h = (
    record { id = h.id; sound = h.sound; near = h.near; ports = h.ports },
    send_table-SendIs a r h,
  )

  pub Step-Tidy : {net u : Net q} → Step q t net u → Tidy q t Link far net → Tidy q t Link far u
  Step-Tidy (starts net a) tidy =
      let (h, sends) = start_rip-RouterIs a (net a) (tidy a) in
      take_turn-Tidy q t Link far a (start_rip q t (net a)) net h sends tidy
  Step-Tidy (updates net a running) tidy =
      let (h, sends) = update_rip-RouterIs a (net a) (tidy a) in
      take_turn-Tidy q t Link far a (update_rip q t (net a)) net h sends tidy
