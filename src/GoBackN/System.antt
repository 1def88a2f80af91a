-- ===== src/GoBackN/System.antt =====
-- A4/Part3: the three programs and the network between them, as steps of one system. A step is one
-- round of one thread of HostA.cpp, Router.cpp or HostB.cpp, with the datagram that it sends or
-- receives; the network delivers datagrams in any order, and never twice.
pub mod Window
pub mod Loss
pub mod Transfer
pub mod Complete
use computer_network_course.Prelude.{
  ℕ, suc, ◌+◌, ◌≤◌, ◌≡◌, ◌≢◌, List, [], ◌∷◌, ◌++◌, Option, none, some, length,
}
use computer_network_course.GoBackN.Datagram.{Bytes, Packet}
use computer_network_course.GoBackN.Datagram.Wire.{through_wire}
use computer_network_course.GoBackN.HostA
use computer_network_course.GoBackN.HostA.{HostA}
use computer_network_course.GoBackN.Router
use computer_network_course.GoBackN.Router.{Host, host_a, router, host_b}
use computer_network_course.GoBackN.HostB

-- A datagram in flight: where it goes, and the packet that was serialized into it.
pub record Datagram : Type 0 where
  pub to : Host
  pub packet : Packet

-- `at_router` and `at_b` are the two `buffer_message` queues.
pub record System : Type 0 where
  pub a : HostA
  pub at_router : List Packet
  pub at_b : List Packet
  pub net : List Datagram

-- A sender with nothing in flight.
abbrev pub idle : HostA → System
idle a = record { a = a; at_router = []; at_b = []; net = [] }

abbrev pub begin : Bytes → Bytes → System
begin file message = idle (HostA.start file message)

unfoldable pub post : Host → Packet → System → System
post to p s = record s { net = s.net ++ record { to = to; packet = p } ∷ [] }

-- What `sendto` of the router gets, if anything.
unfoldable pub post_some : Option (Host × Packet) → System → System
unfolding post
post_some none s = s
post_some (some (to, p)) s = post to p s

unfoldable pub router_round : System → System
unfolding post_some
router_round s =
    let (rest, sent) = Router.send s.at_router in post_some sent (record s { at_router = rest })

unfoldable pub b_round : System → System
unfolding post
b_round s = b_sends (HostB.send s.at_b)
  where
    b_sends : List Packet × Option Packet → System
    b_sends (rest, none) = record s { at_b = rest }
    b_sends (rest, some p) = post router p (record s { at_b = rest })

-- A packet that was read from a datagram, at the program that it came to.
unfoldable pub deliver : Host → Packet → System → System
deliver host_a p s = record s { a = HostA.receive s.a p }
deliver router p s = record s { at_router = Router.receive s.at_router p }
deliver host_b p s = record s { at_b = HostB.receive s.at_b p }

-- `from` is the sender's memory and `to` the receiver's, from the buffer on.
pub data Step : System → System → Type 0 where
  a_sends :
      (s : System) (h : HostA) (p : Packet)
      → HostA.send_step s.a ≡ some (h, p)
      → Step s (post router p (record s { a = h }))
  router_sends : (s : System) → s.at_router ≢ [] → Step s (router_round s)
  b_sends : (s : System) → s.at_b ≢ [] → Step s (b_round s)
  arrives :
      (s : System) (before after : List Datagram) (d : Datagram) (from to : Bytes)
      → s.net ≡ before ++ d ∷ after
      → 1544 ≤ length to
      → Step s (deliver d.to (through_wire d.packet from to) (record s { net = before ++ after }))

-- UDP may also lose a datagram.
pub data Move : System → System → Type 0 where
  step : {s t : System} → Step s t → Move s t
  lost :
      (s : System) (before after : List Datagram) (d : Datagram)
      → s.net ≡ before ++ d ∷ after
      → Move s (record s { net = before ++ after })

pub data Reach (s : System) : System → Type 0 where
  here : Reach s s
  next : {t u : System} → Reach s t → Move t u → Reach s u

-- A run of `n` steps in which nothing is lost.
pub data Run (s : System) : ℕ → System → Type 0 where
  done : Run s 0 s
  more : {n : ℕ} {t u : System} → Run s n t → Step t u → Run s (suc n) u
