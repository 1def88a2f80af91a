-- ===== src/Transport/Reliable/Client/Rounds.antt =====
-- A4/Part2/Client.cpp: what one round of the loop does.
use computer_network_course.Prelude.{
  ◌≡◌, ◌≢◌, ◌⊎◌, refl, arith, true, false, List, [], ◌∷◌, some, if◌then◌else◌,
}
use computer_network_course.Prelude.Int.{ℤ, pos, negsuc, ◌+ℤ◌, ◌≤ℤ◌, ◌==ℤ◌, ==ℤ_iff, +ℤ_parts}
use computer_network_course.Congestion.{fast_recovery, on_packet_acked}
use computer_network_course.Transport.Packet.{Bytes}
use computer_network_course.Transport.Reliable.Client.{
  Client, insert, find, client_text, send_to, retransmit, count_loss, on_reply,
}

find-insert :
    (k j : ℤ) (v : Bytes) (m : List (ℤ × Bytes))
    → find j (insert k v m) ≡ (if k ==ℤ j then some v else find j m)
unfolding find insert
find-insert k j v [] = refl
find-insert k j v ((i, w) ∷ m) =
    ground (arith, ==ℤ_iff k j, ==ℤ_iff i k, ==ℤ_iff i j, find-insert k j v m)

-- After `sendTo` the client can send the same text again under its id, and every text of another id
-- as before; the next id is one higher.
pub retransmit-send_to :
    (m : Bytes) (c : Client) (id : ℤ)
    → let (text, c') = send_to m c in
      (retransmit id c' ≡ (if c.packet_id ==ℤ id then some text else retransmit id c))
      × (c'.packet_id ≡ c.packet_id +ℤ pos 1)
unfolding send_to retransmit
retransmit-send_to m c id =
    (find-insert c.packet_id id (client_text c.packet_id m) c.packet_buffer, refl)

-- A duplicate acknowledgement counts a loss. If it leaves the control in fast recovery, the next
-- packet is the one behind the last acknowledged, and the counter of the loop goes back to it too;
-- otherwise both stay.
pub on_reply_duplicate :
    (id i : ℤ) (c : Client)
    → c.last_ack_id ≡ id
    → let (j, c') = on_reply id i c in
      (c'.last_ack_id ≡ id)
      × (c'.loss ≡ c.loss +ℤ pos 1)
      × (c'.control ≡ on_packet_acked c.control true (c.loss +ℤ pos 1))
      × (((c'.control.state ≡ fast_recovery) × (j ≡ id +ℤ pos 1) × (c'.packet_id ≡ id +ℤ pos 1))
          ⊎ ((c'.control.state ≢ fast_recovery) × (j ≡ i) × (c'.packet_id ≡ c.packet_id)))
unfolding on_reply
on_reply_duplicate id i c e = ground (arith, ==ℤ_iff id c.last_ack_id)

-- A new acknowledgement is remembered, takes one from the losses unless there are none, and leaves
-- the counter and the next id as they are.
pub on_reply_new :
    (id i : ℤ) (c : Client)
    → id ≢ c.last_ack_id
    → let (j, c') = on_reply id i c in
      (j ≡ i)
      × (c'.packet_id ≡ c.packet_id)
      × (c'.last_ack_id ≡ id)
      × (c'.loss ≡ count_loss false c.loss)
      × (c'.control ≡ on_packet_acked c.control false (count_loss false c.loss))
unfolding on_reply
on_reply_new id i c h = ground (arith, ==ℤ_iff id c.last_ack_id)

-- The number of losses is never negative.
pub on_reply_loss : (id i : ℤ) (c : Client) → pos 0 ≤ℤ c.loss → pos 0 ≤ℤ (on_reply id i c).1.loss
unfolding on_reply
on_reply_loss id i c h = ground (arith, +ℤ_parts c.loss (pos 1), +ℤ_parts c.loss (negsuc 0))
