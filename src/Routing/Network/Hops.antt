-- ===== src/Routing/Network/Hops.antt =====
-- A3: a turn of RIP keeps every hop leading to a nearer router.
use computer_network_course.Prelude.{
  ℕ, ◌≡◌, inl, inr, refl, sym, ap, subst, ◌∙◌, arith, Bool, true, false, not, List, [], ◌∷◌, some,
  All, ==_iff, ne→==_false, Bool-cases, if_true, if_false, ◌==◌, if◌then◌else◌,
}
use native.Mathlib.Decide.{ℕ_discrete}
use computer_network_course.Routing.Qt.{QHash}
use computer_network_course.Routing.Text.{QtText}
use computer_network_course.Routing.Records.{rip_decode, rip_incode}
use computer_network_course.Routing.Records.RoundTrip.{rip_decode-rip_incode}
use computer_network_course.Routing.Ports.{numbers, Port, Sends, send_rip}
use computer_network_course.Routing.Router.{Router, Turn, still}
use computer_network_course.Routing.Router.Rip.{
  Heard, hear_ports, hear, finish_rip, update_rip, start_rip, send_table,
}
use computer_network_course.Routing.Network.{Net, put, post_all, take_turn, Step, starts, updates}
use computer_network_course.Routing.Network.Tidy.{Tidy, put-Tidy}
use computer_network_course.Routing.Network.Turns.{TurnIs, update_rip-RouterIs, start_rip-RouterIs}
use computer_network_course.Routing.Network.Downhill.{AtMost, Falls, Behind, Routes}
use computer_network_course.Routing.Network.Flows.{HeardIs, all_taken, numbered_self}
use computer_network_course.Routing.Network.Posts.{
  costs_of, FlowAt, FlowIs, Flows, FlowIs-Falls, put-FlowsOver, post_all-FlowsOver,
  costs_of-post_all,
}

module _ (q : QHash) (t : QtText) (Link : ℕ → ℕ → Type 0) (far : ℕ → ℕ → ℕ) where
  open q use {Table, find}

  -- What a slot makes of a router: the tables and ports it heard, and its table as what it sends.
  record Keeps (r : Router q) (turn : Turn q) : Type 0 where
    same_costs : turn.router.distance_vector ≡ r.distance_vector
    same_forwarding : turn.router.forwarding_table ≡ r.forwarding_table
    same_ports : turn.router.ports ≡ r.ports
    sends_costs : All (λ s. s.1 ≡ rip_incode q t r.distance_vector) turn.sends

  send_rip-All :
      (as_id : ℕ) (text : List ℕ) (ports : List Port)
      → All (λ s. s.1 ≡ text) (send_rip as_id text ports)
  unfolding send_rip
  send_rip-All as_id text [] = tt
  send_rip-All as_id text (p ∷ ports) = elim (Bool-cases (p.destination.as_id == as_id)) [
    | inl same ↦ rw same (refl, send_rip-All as_id text ports)
    | inr other ↦ rw other (send_rip-All as_id text ports)
  ]

  either-Keeps :
      (r : Router q) (b : Bool) (x y : Turn q)
      → Keeps r x
      → Keeps r y
      → Keeps r (if b then x else y)
  either-Keeps r true x y hx hy = hx
  either-Keeps r false x y hx hy = hy

  finish_rip-Keeps : (r : Router q) → Keeps r (finish_rip q t r)
  unfolding finish_rip send_table
  finish_rip-Keeps r =
      either-Keeps r (not r.is_rip_finished) _ _
        (record {
          same_costs = refl;
          same_forwarding = refl;
          same_ports = refl;
          sends_costs = send_rip-All r.as_id (rip_incode q t r.distance_vector) r.ports;
        })
        (either-Keeps r (not r.rip_finish_signal_emited) _ (still q r)
          (record {
            same_costs = refl;
            same_forwarding = refl;
            same_ports = refl;
            sends_costs = tt;
          })
          (record {
            same_costs = refl;
            same_forwarding = refl;
            same_ports = refl;
            sends_costs = tt;
          }))

  kept-FlowIs :
      (costs : ℕ → Table) (a : ℕ) (r : Router q) (turn : Turn q)
      → Keeps r turn
      → FlowIs q t Link far costs a r
      → FlowIs q t Link far costs a turn.router
  kept-FlowIs costs a r turn keeps h =
      subst
        (λ ps.
          FlowAt q t Link far costs a ps turn.router.distance_vector turn.router.forwarding_table)
        (sym keeps.same_ports)
        (subst (λ c. FlowAt q t Link far costs a r.ports c turn.router.forwarding_table)
          (sym keeps.same_costs)
          (subst (FlowAt q t Link far costs a r.ports r.distance_vector) (sym keeps.same_forwarding)
            h))

  costs_of-put_self :
      (a : ℕ) (r : Router q) (net : Net q) (b : ℕ)
      → b ≡ a
      → costs_of q t Link far (put q a r net) b ≡ r.distance_vector
  costs_of-put_self a r net b e =
      ap (λ x. x.distance_vector) (if_true r (net b) (b == a) ((==_iff b a).1 e))

  put-Falls :
      (a : ℕ) (r : Router q) (net : Net q)
      → ((j n : ℕ)
          → find (costs_of q t Link far net a) j ≡ some n
          → AtMost q t Link far r.distance_vector j n)
      → Falls q t Link far (costs_of q t Link far net) (costs_of q t Link far (put q a r net))
  put-Falls a r net falls b j n e = elim (ℕ_discrete b a) [
    | yes same ↦
        subst (λ c. AtMost q t Link far c j n) (sym (costs_of-put_self a r net b same))
          (falls j n (ap (λ x. find (costs_of q t Link far net x) j) (sym same) ∙ e))
    | no other ↦ (
      n,
      ap (λ r. find r.distance_vector j) (if_false r (net b) (b == a) (ne→==_false b a other)) ∙ e,
      omega arith,
    )
  ]

  sends-Behind :
      (costs : ℕ → Table) (a : ℕ) (table : Table) (sends : Sends)
      → costs a ≡ table
      → All (λ s. s.1 ≡ rip_incode q t table) sends
      → All (λ s. Behind q t Link far costs a s.1) sends
  sends-Behind costs a table [] e h = tt
  sends-Behind costs a table (s ∷ sends) e (hs, h) = (
    λ j n found. (
      n,
      ap (λ c. find c j) e
          ∙ sym (rip_decode-rip_incode q t table j)
          ∙ ap (λ x. find (rip_decode q t x) j) (sym hs)
          ∙ found,
      omega arith,
    ),
    sends-Behind costs a table sends e h,
  )

  -- A router that heard, and what it then sends, against the costs of all once it has moved.
  turn-Flows :
      (a : ℕ) (r : Router q) (turn : Turn q) (net : Net q)
      → Tidy q t Link far net
      → Flows q t Link far net
      → TurnIs q t Link far a turn
      → Keeps r turn
      → FlowIs q t Link far (costs_of q t Link far net) a r
      → ((j n : ℕ)
          → find (net a).distance_vector j ≡ some n
          → AtMost q t Link far r.distance_vector j n)
      → Flows q t Link far (take_turn q a turn net)
  unfolding take_turn
  turn-Flows a r turn net tidy flows (is_router, is_sent) keeps h falls b =
      FlowIs-Falls q t Link far moved (costs_of q t Link far after) b (after b)
        (λ c j n e. (
          n,
          ap (λ x. find x j) (costs_of-post_all q t Link far turn.sends (put q a turn.router net) c)
              ∙ e,
          omega arith,
        ))
        (post_all-FlowsOver q t Link far moved a turn.sends (put q a turn.router net)
          (put-Tidy q t Link far a turn.router net is_router tidy) is_sent
          (sends-Behind moved a r.distance_vector turn.sends
            (costs_of-put_self a turn.router net a refl ∙ keeps.same_costs) keeps.sends_costs)
          (put-FlowsOver q t Link far moved a turn.router net
            (FlowIs-Falls q t Link far (costs_of q t Link far net) moved a turn.router lower
              (kept-FlowIs (costs_of q t Link far net) a r turn keeps h))
            (λ c.
              FlowIs-Falls q t Link far (costs_of q t Link far net) moved c (net c) lower
                (flows c)))
          b)
    where
      moved : ℕ → Table
      moved = costs_of q t Link far (put q a turn.router net)

      after : Net q
      after = post_all q turn.sends (put q a turn.router net)

      lower : Falls q t Link far (costs_of q t Link far net) moved
      lower =
          put-Falls a turn.router net
            (λ j n e. subst (λ c. AtMost q t Link far c j n) (sym keeps.same_costs) (falls j n e))

  hear-HeardIs :
      (a : ℕ) (net : Net q)
      → Tidy q t Link far net
      → Flows q t Link far net
      → HeardIs q t Link far
          (costs_of q t Link far net)
          (numbers (net a).ports)
          a
          (net a).distance_vector
          (numbers (net a).ports)
          (hear q t (net a))
  hear-HeardIs a net tidy flows =
      let r : Router q = net a in
      let start : Heard q t = record {
        costs = r.distance_vector;
        forwarding = r.forwarding_table;
        any_receive = false;
        any_changed = false;
      } in
      subst
        (λ x.
          HeardIs q t Link far (costs_of q t Link far net) (numbers r.ports) a r.distance_vector
            (numbers r.ports) (hear_ports q t x r.ports start))
        (sym (tidy a).id)
        (all_taken q t Link far (costs_of q t Link far net) (numbers r.ports) a r.ports start
          (tidy a).ports (numbered_self q t Link far r.ports) (flows a).0 (flows a).1)

  pub Step-Flows :
      {net u : Net q}
      → Step q t net u
      → Tidy q t Link far net
      → Flows q t Link far net
      → Flows q t Link far u
  unfolding start_rip send_table update_rip
  Step-Flows (starts net a) tidy flows =
      turn-Flows a (net a) (start_rip q t (net a)) net tidy flows
        (start_rip-RouterIs q t Link far a (net a) (tidy a))
        (record {
          same_costs = refl;
          same_forwarding = refl;
          same_ports = refl;
          sends_costs =
              send_rip-All (net a).as_id (rip_incode q t (net a).distance_vector) (net a).ports;
        })
        (flows a) (λ j n e. (n, e, omega arith))
  Step-Flows (updates net a running) tidy flows =
      let heard = hear-HeardIs a net tidy flows in
      turn-Flows a _ (update_rip q t (net a)) net tidy flows
        (update_rip-RouterIs q t Link far a (net a) (tidy a)) (finish_rip-Keeps _)
        (
          heard.behind,
          subst
              (λ ns.
                Routes q t Link far (costs_of q t Link far net) ns a (hear q t (net a)).1.costs
                  (hear q t (net a)).1.forwarding)
              (sym heard.same_numbers) heard.routes,
        )
        heard.falls
