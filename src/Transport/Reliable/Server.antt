-- ===== src/Transport/Reliable/Server.antt =====
-- A4/Part2/Server.cpp: `handle_client`, which acknowledges the last packet in order, and drops the
-- packets 10 and 23 once each. `lastPacketId` is a field of the server, the two flags are local.
pub mod Order
pub mod Clients
use computer_network_course.Prelude.Text.{same_text}
use computer_network_course.Prelude.{
  ℕ, zero, suc, ◌+◌, Bool, true, false, ◌&&◌, List, [], ◌∷◌, Option, none, some, if◌then◌else◌,
}
use computer_network_course.Prelude.Int.{ℤ, pos, ◌+ℤ◌, ◌==ℤ◌}
use computer_network_course.Transport.Packet.{
  Bytes, Packet, encode, decode, syn, syn_ack, ack, default_message,
}
use computer_network_course.Transport.Socket.{Outcome, finished, uncaught, recv}

pub record Server : Type 0 where
  pub last_packet_id : ℤ
  pub flag7 : Bool
  pub flag8 : Bool

-- `sendTo`.
unfoldable pub reply : ℤ → Bytes → Bytes
reply id m = encode (record { id = id; text = m })

-- The body of the test for a message: the id is taken if it is the next one, unless it is lost.
unfoldable pub accept : Server → ℤ → Server
accept s id =
    if s.last_packet_id +ℤ pos 1 ==ℤ id
    then (if (id ==ℤ pos 10) && s.flag7
        then record s { flag7 = false }
        else if (id ==ℤ pos 23) && s.flag8
        then record s { flag8 = false }
        else record s { last_packet_id = id })
    else s

-- What was sent, oldest first, the server behind it, and the end.
abbrev pub Served : Type 0
Served = List Bytes × Server × Outcome

unfoldable pub sends : Bytes → Served → Served
sends m r = (m ∷ r.0, r.1, r.2)

-- The rounds of the loop that are left. A packet with another text is not answered.
unfoldable pub serve : ℕ → Server → List Bytes → Served
serve zero s buffers = ([], s, finished)
serve (suc rounds) s buffers = elim (decode (recv buffers).0) [
  | none ↦ ([], s, uncaught)
  | some p ↦
      let s' = accept s p.id in
      let answered = serve rounds s' (recv buffers).1 in
      let passed = serve rounds s (recv buffers).1 in
      if same_text p.text default_message
      then sends (reply s'.last_packet_id ack) answered
      else passed
]

-- `i < 101`.
abbrev pub max_rounds : ℕ
max_rounds = 101

second : Server → Option Packet → List Bytes → Served
unfolding serve
second s none buffers = ([], s, uncaught)
second s (some p) buffers =
    if same_text p.text ack then serve max_rounds s buffers else ([], s, finished)

first : Server → Option Packet → List Bytes → Served
unfolding second sends reply
first s none buffers = ([], s, uncaught)
first s (some p) buffers =
    if same_text p.text syn
    then sends (reply (pos 0) syn_ack) (second s (decode (recv buffers).0) (recv buffers).1)
    else ([], s, finished)

unfoldable pub handle_client : ℤ → List Bytes → Served
unfolding first recv
handle_client last buffers =
    first (record { last_packet_id = last; flag7 = true; flag8 = true }) (decode (recv buffers).0)
      (recv buffers).1
