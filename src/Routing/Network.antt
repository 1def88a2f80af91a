-- ===== src/Routing/Network.antt =====
-- A3: the routers together. A turn of a router runs to its end, as slots of one thread do, and what it
-- sends lies in the buffers of the other ends before the next turn; turns come in any order.
pub mod Tidy
pub mod Turns
pub mod Downhill
pub mod Flows
pub mod Posts
pub mod Hops
pub mod Routes
pub mod Idle
pub mod Forward
pub mod Delivery
pub mod Settled
pub mod Walks
mod Tests
use mathlib.Core.Option.{bind}
use computer_network_course.Prelude.{
  Option, none, some, ℕ, Bool, true, ◌≡◌, List, [], ◌∷◌, ◌==◌, if◌then◌else◌,
}
use computer_network_course.Routing.Qt.{QHash}
use computer_network_course.Routing.Text.{QtText}
use computer_network_course.Routing.Ports.{Port, Peer, Sends, deliver}
use computer_network_course.Routing.Router.{Router, Turn}
use computer_network_course.Routing.Router.Rip.{start_rip, update_rip}
use computer_network_course.Routing.Router.Slots.{update, turn_off_protocols}

-- The text arrives at the first port of the number.
unfoldable pub deliver_at : ℕ → List ℕ → List Port → List Port
deliver_at number text [] = []
deliver_at number text (p ∷ ports) =
    let rest = deliver_at number text ports in
    if p.number == number then deliver text p ∷ ports else p ∷ rest

module _ (q : QHash) where
  -- The routers by their ids.
  abbrev pub Net : Type 0
  Net = ℕ → Router q

  abbrev pub put : ℕ → Router q → Net → Net
  put id r net j = if j == id then r else net j

  unfoldable pub post : Peer × List ℕ → Net → Net
  post (dest, text) net =
      put dest.node_id
        (record (net dest.node_id) { ports = deliver_at dest.number text (net dest.node_id).ports })
        net

  unfoldable pub post_all : Sends → Net → Net
  post_all [] net = net
  post_all (s ∷ sends) net = post_all sends (post s net)

  unfoldable pub take_turn : ℕ → Turn q → Net → Net
  take_turn id turn net = post_all turn.sends (put id turn.router net)

module _ (q : QHash) (t : QtText) where
  -- `turnOffProtocols` at every router.
  abbrev pub turn_off_all : Net q → Net q
  turn_off_all net id = turn_off_protocols q t (net id)

  -- `update` at one router after another.
  unfoldable pub take_updates : List ℕ → Net q → Option (Net q)
  unfolding bind
  take_updates [] net = some net
  take_updates (id ∷ ids) net =
      bind (update q t (net id)) (λ turn. take_updates ids (take_turn q id turn net))

  -- The turns of RIP.
  pub data Step : Net q → Net q → Type 0 where
    starts : (net : Net q) (id : ℕ) → Step net (take_turn q id (start_rip q t (net id)) net)
    updates :
        (net : Net q) (id : ℕ)
        → (net id).is_rip_start ≡ true
        → Step net (take_turn q id (update_rip q t (net id)) net)

  pub data Reach (s : Net q) : Net q → Type 0 where
    here : Reach s s
    next : {net u : Net q} → Reach s net → Step net u → Reach s u
