-- ===== src/Routing/Network/Routes.antt =====
-- A3: where the forwarding tables lead while RIP runs, and when it has come to rest.
use computer_network_course.Prelude.{
  ℕ, zero, suc, ◌≤◌, ◌≡◌, ◌≢◌, inl, inr, subst, arith, true, false, some,
}
use native.Mathlib.Decide.{ℕ_discrete}
use computer_network_course.Routing.Qt.{QHash, elem}
use computer_network_course.Routing.Text.{QtText}
use computer_network_course.Routing.Tables.{update_distance_vector}
use computer_network_course.Routing.Tables.Walks.{Walk}
use computer_network_course.Routing.Ports.{numbers}
use computer_network_course.Routing.Network.{Net, Reach, here, next}
use computer_network_course.Routing.Network.Tidy.{Tidy}
use computer_network_course.Routing.Network.Walks.{Reach-Tidy, rip_rest_shortest}
use computer_network_course.Routing.Network.Hops.{Step-Flows}
use computer_network_course.Routing.Network.Posts.{Flows}

module _ (q : QHash) (t : QtText) (Link : ℕ → ℕ → Type 0) (far : ℕ → ℕ → ℕ) where
  open q use {find}

  -- The way of `n` hops from one router to another: each router has an entry for the last one, with the
  -- number of a port that it has, whose cable leads on.
  pub data Route (net : Net q) : ℕ → ℕ → ℕ → Type 0 where
    at_end : (a : ℕ) → Route net a a 0
    through :
        {a j n : ℕ} (port : ℕ)
        → find (net a).forwarding_table j ≡ some port
        → elem port (numbers (net a).ports) ≡ true
        → Link a (far a port)
        → Route net (far a port) j n
        → Route net a j (suc n)

  pub Reach-Flows :
      {s net : Net q}
      → Reach q t s net
      → Tidy q t Link far s
      → Flows q t Link far s
      → Flows q t Link far net
  Reach-Flows here tidy flows = flows
  Reach-Flows (next r st) tidy flows =
      Step-Flows q t Link far st (Reach-Tidy q t Link far r tidy) (Reach-Flows r tidy flows)

  -- The costs fall from hop to hop, so they bound the number of hops.
  way_in_fuel :
      (net : Net q) (fuel a j n : ℕ)
      → Flows q t Link far net
      → n ≤ fuel
      → j ≢ a
      → find (net a).distance_vector j ≡ some n
      → (k : ℕ) × Route net a j k × (k ≤ n)
  way_in_fuel net zero a j n flows le ne e =
      let first = (flows a).1 j n ne e in absurd (omega (arith, le, first.positive))
  way_in_fuel net (suc fuel) a j n flows le ne e =
      let first = (flows a).1 j n ne e in
      elim (ℕ_discrete j (far a first.port)) [
        | yes last ↦ (
          1,
          through first.port first.entry first.has_port first.link
              (subst (λ x. Route net x j 0) last (at_end j)),
          first.positive,
        )
        | no more ↦ elim first.onward [
          | inl last ↦ absurd (omega arith)
          | inr (m, em, lm) ↦
              let (k, route, lk) =
                way_in_fuel net fuel (far a first.port) j m flows (omega arith) more em in
              (suc k, through first.port first.entry first.has_port first.link route, omega arith)
        ]
      ]

  -- From a tidy start whose forwarding tables fit the costs, after any turns of RIP in any order: where a
  -- router has a cost for another one, the forwarding tables lead from it to the other in at most that
  -- many hops, over links. So they have no loop at any moment, whatever is still on its way.
  pub Reach-Route :
      {s net : Net q} {a j n : ℕ}
      → Tidy q t Link far s
      → Flows q t Link far s
      → Reach q t s net
      → j ≢ a
      → find (net a).distance_vector j ≡ some n
      → (k : ℕ) × Route net a j k × (k ≤ n)
  Reach-Route {net = net} {a} {j} {n} tidy flows r ne e =
      way_in_fuel net n a j n (Reach-Flows r tidy flows) (omega arith) ne e

  -- Where RIP comes to rest, the forwarding tables lead from every router to every other one in reach, in
  -- no more hops than any walk has.
  pub rip_rest-Route :
      {s net : Net q} {a j n : ℕ}
      → Tidy q t Link far s
      → Flows q t Link far s
      → Reach q t s net
      → ((a b : ℕ)
          → Link a b
          → (update_distance_vector q a
              (net b).distance_vector
              0
              (net a).distance_vector
              (net a).forwarding_table).changed
            ≡ false)
      → Walk Link a j n
      → j ≢ a
      → (k : ℕ) × Route net a j k × (k ≤ n)
  rip_rest-Route {a = a} {j} tidy flows r quiet w ne =
      let (c, e, walk, le) =
        rip_rest_shortest q t Link far tidy r quiet w (λ p. ne (omega arith)) in
      let (k, route, lk) = Reach-Route tidy flows r ne e in (k, route, omega (arith, le, lk))
