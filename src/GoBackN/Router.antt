-- ===== src/GoBackN/Router.antt =====
-- A4/Part3/Router.cpp: a queue of packets between the two hosts, filled by one thread and emptied by
-- the other. `receive` is one round of `receiveMessages`, `send` one of `sendMessages`.
use computer_network_course.Prelude.{
  ℕ, List, [], ◌∷◌, ◌++◌, Option, none, some, ◌==◌, ◌≡◌, ◌≢◌, arith, if◌then◌else◌,
}
use computer_network_course.GoBackN.Datagram.{Packet}

-- Where a datagram goes: the three ports of `main`.
pub data Host : Type 0 where
  host_a router host_b : Host

abbrev pub router_id : ℕ
router_id = 2

-- A packet that bears the router's own id is not queued.
unfoldable pub receive : List Packet → Packet → List Packet
receive queue p = if p.source_id == 2 then queue else queue ++ p ∷ []

-- The packet under the router's id, and where it goes by the id that it came with.
unfoldable pub route : Packet → Option (Host × Packet)
route p =
    if p.source_id == 1
    then some (host_b, record p { source_id = router_id })
    else if p.source_id == 3
    then some (host_a, record p { source_id = router_id })
    else none

-- One packet leaves the queue, routed or not.
unfoldable pub send : List Packet → List Packet × Option (Host × Packet)
unfolding route
send [] = ([], none)
send (p ∷ queue) = (queue, route p)

pub route_data :
    (p : Packet) → p.source_id ≡ 1 → route p ≡ some (host_b, record p { source_id = 2 })
unfolding route
route_data p e = rw (e, route)

pub route_ack : (p : Packet) → p.source_id ≡ 3 → route p ≡ some (host_a, record p { source_id = 2 })
unfolding route
route_ack p e = rw (e, route)

pub receive_new :
    (queue : List Packet) (p : Packet) → p.source_id ≢ 2 → receive queue p ≡ queue ++ p ∷ []
unfolding receive
receive_new queue p h = ground arith
