-- ===== src/Routing/Network/Flows.antt =====
-- A3: what a router hears keeps every hop leading to a nearer router.
use computer_network_course.Prelude.{
  ℕ, ◌≡◌, refl, sym, ap, subst, ◌∙◌, arith, true, List, [], ◌∷◌, ◌++◌, some, All,
}
use computer_network_course.Routing.Qt.{QHash, elem}
use computer_network_course.Routing.Text.{QtText}
use computer_network_course.Routing.Records.{rip_decode}
use computer_network_course.Routing.Ports.{numbers, Port, receive, take_first}
use computer_network_course.Routing.Router.Rip.{Heard, hear_text, hear_port, hear_ports}
use computer_network_course.Routing.Network.Tidy.{PortIs}
use computer_network_course.Routing.Network.Downhill.{
  AtMost, Behind, HeardBehind, Routes, update-Routes, update_falls,
}

module _ (q : QHash) (t : QtText) (Link : ℕ → ℕ → Type 0) (far : ℕ → ℕ → ℕ) where
  open q use {Table, find}

  abbrev pub AllNumbered : List ℕ → List Port → Type 0
  AllNumbered ns ports = All (λ p. elem p.number ns ≡ true) ports

  -- What a router has heard, against the costs of the others.
  pub record HeardIs (costs : ℕ → Table) (ns : List ℕ) (a : ℕ) (before : Table) (numbered : List ℕ)
      (r : List Port × Heard q t) : Type 0 where
    pub behind : All (HeardBehind q t Link far costs) r.0
    pub routes : Routes q t Link far costs ns a r.1.costs r.1.forwarding
    pub falls : (j n : ℕ) → find before j ≡ some n → AtMost q t Link far r.1.costs j n
    pub same_numbers : numbers r.0 ≡ numbered

  taken :
      (costs : ℕ → Table) (ns : List ℕ) (a : ℕ) (buffer : List (List ℕ)) (p : Port) (h : Heard q t)
      → PortIs q t Link far a p
      → elem p.number ns ≡ true
      → p.buffer ≡ buffer
      → All (Behind q t Link far costs p.destination.node_id) buffer
      → Routes q t Link far costs ns a h.costs h.forwarding
      → let r = hear_text q t a (take_first buffer p) p h in
        HeardIs costs ns a h.costs (p.number ∷ []) (r.0 ∷ [], r.1)
  unfolding hear_text take_first
  taken costs ns a [] p h hp has e behind routes = record {
    behind = (subst (All (Behind q t Link far costs p.destination.node_id)) (sym e) tt, tt);
    routes = routes;
    falls = λ j n found. (n, found, omega arith);
    same_numbers = refl;
  }
  taken costs ns a (text ∷ rest) p h hp has e (told, behind) routes = record {
    behind = (behind, tt);
    routes =
        update-Routes q t Link far costs ns a p.destination.node_id p.number (rip_decode q t text)
          h.costs h.forwarding (record { there = sym hp.there; link = hp.link; has_port = has })
          told routes;
    falls = update_falls q t Link far a p.number (rip_decode q t text) h.costs h.forwarding;
    same_numbers = refl;
  }

  pub all_taken :
      (costs : ℕ → Table) (ns : List ℕ) (a : ℕ) (ports : List Port) (h : Heard q t)
      → All (PortIs q t Link far a) ports
      → AllNumbered ns ports
      → All (HeardBehind q t Link far costs) ports
      → Routes q t Link far costs ns a h.costs h.forwarding
      → HeardIs costs ns a h.costs (numbers ports) (hear_ports q t a ports h)
  unfolding hear_ports hear_port receive
  all_taken costs ns a [] h hp has behind routes = record {
    behind = tt;
    routes = routes;
    falls = λ j n found. (n, found, omega arith);
    same_numbers = refl;
  }
  all_taken costs ns a (p ∷ ports) h (hp, hps) (has, all_has) (behind, behinds) routes =
      let one = taken costs ns a p.buffer p h hp has refl behind routes in
      let more =
        all_taken costs ns a ports (hear_port q t a p h).1 hps all_has behinds one.routes in
      record {
        behind = (one.behind.0, more.behind);
        routes = more.routes;
        falls = λ j n found.
            let (c, e, le) = one.falls j n found in
            let (d, e', le') = more.falls j c e in (d, e', omega (arith, le, le'));
        same_numbers =
            ap (λ ns. ns ++ numbers (hear_ports q t a ports (hear_port q t a p h).1).0)
              one.same_numbers
            ∙ ap (◌∷◌ p.number) more.same_numbers;
      }

  pub numbered_self : (ports : List Port) → AllNumbered (numbers ports) ports
  numbered_self ports = go (numbers ports) ports (λ k e. e)
    where
      go :
          (ns : List ℕ) (ports : List Port)
          → ((k : ℕ) → elem k (numbers ports) ≡ true → elem k ns ≡ true)
          → All (λ p. elem p.number ns ≡ true) ports
      go ns [] h = tt
      go ns (p ∷ ports) h = (h p.number (ground arith), go ns ports (λ k e. h k (ground arith)))
