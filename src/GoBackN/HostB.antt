-- ===== src/GoBackN/HostB.antt =====
-- A4/Part3/HostB.cpp: the receiver, which answers every packet with an acknowledgement. `receive` is
-- one round of `receiveMessages`, `send` one of `sendMessages`.
use computer_network_course.Prelude.{
  ℕ, List, [], ◌∷◌, ◌++◌, Option, none, some, ◌==◌, ◌≢◌, if◌then◌else◌, replicate, length, ◌≡◌,
  refl, ◌-◌, arith, length-replicate,
}
use computer_network_course.GoBackN.Datagram.{Bytes, Packet, buffer_size}

abbrev pub host_b_id : ℕ
host_b_id = 3

-- `strncpy` fills the array behind the text with zeros.
unfoldable pub ack_message : Bytes
ack_message = b'a' ∷ b'c' ∷ b'k' ∷ replicate (buffer_size - 3) 0

unfoldable pub acknowledgement : Packet → Packet
acknowledgement p = record { source_id = host_b_id; seq_num = p.seq_num; message = ack_message }

-- A packet that bears the host's own id is not answered.
unfoldable pub receive : List Packet → Packet → List Packet
unfolding acknowledgement
receive queue p = if p.source_id == 3 then queue else queue ++ acknowledgement p ∷ []

-- The oldest answer, for the router.
unfoldable pub send : List Packet → List Packet × Option Packet
send [] = ([], none)
send (p ∷ queue) = (queue, some p)

pub length-ack_message : length ack_message ≡ buffer_size
unfolding ack_message
length-ack_message = omega (arith, length-replicate {0} 1533 (b'a' - b'a'))

pub receive_new :
    (queue : List Packet) (p : Packet)
    → p.source_id ≢ 3
    → receive queue p ≡ queue ++ acknowledgement p ∷ []
unfolding receive
receive_new queue p h = ground arith

pub acknowledgement_fields :
    (p : Packet)
    → (length (acknowledgement p).message ≡ buffer_size)
      × ((acknowledgement p).source_id ≡ host_b_id)
unfolding acknowledgement
acknowledgement_fields p = (length-ack_message, refl)
