-- ===== src/Transport/Reliable/Client/InOrder.antt =====
-- A4/Part2/Client.cpp: the loop of `send_data` where every packet is acknowledged in turn.
use computer_network_course.Prelude.{
  ℕ, zero, suc, ◌+◌, ◌^◌, ◌≤◌, ◌<◌, ◌≡◌, ◌≢◌, refl, ap, ap₂, ◌∙◌, arith, true, false, List, [], ◌∷◌,
  some,
}
use computer_network_course.Prelude.Int.{
  ℤ, pos, ◌+ℤ◌, ◌≤ℤ◌, ==ℤ_iff, +ℤ_parts, pos_suc, leb_ℤ, pos_part, neg_part,
}
use computer_network_course.Congestion.{CongestionControl, on_packet_acked}
use computer_network_course.Congestion.SlowStart.{acks}
use computer_network_course.Transport.Packet.{Bytes, Packet, decode, ack, default_message}
use computer_network_course.Transport.Packet.RoundTrip.{decode-encode}
use computer_network_course.Transport.Reliable.Server.{reply}
use computer_network_course.Transport.Reliable.Client.{
  Client, Reply, received, send_to, on_reply, send_loop, send_data, prepend, client_text,
  packets_to_send, done, Sent,
}

-- The acknowledgements of the packets n, n + 1, …, and the texts of those packets.
pub replies_from : ℕ → ℕ → List Reply
replies_from n zero = []
replies_from n (suc k) = received (reply (pos n) ack) ∷ replies_from (n + 1) k

pub texts_from : ℕ → ℕ → List Bytes
texts_from n zero = []
texts_from n (suc k) = client_text (pos n) default_message ∷ texts_from (n + 1) k

-- One round with an acknowledgement that was not seen before, while no loss is counted.
acknowledged : ℕ → Client → Client
acknowledged n c = record c {
  last_ack_id = pos n;
  control = on_packet_acked c.control false (pos 0);
}

on_reply_in_order :
    (n : ℕ) (i : ℤ) (c : Client)
    → c.last_ack_id ≢ pos n
    → c.loss ≡ pos 0
    → on_reply (pos n) i c ≡ (i, acknowledged n c)
unfolding on_reply acknowledged
on_reply_in_order n i c h e = ground (arith, ==ℤ_iff (pos n) c.last_ack_id)

pub decode-reply :
    (n : ℕ) → n < 2 ^ 31 → decode (reply (pos n) ack) ≡ some (record { id = pos n; text = ack })
unfolding reply
decode-reply n h =
    (decode-encode (record { id = pos n; text = ack }) [] h (omega arith) (omega arith)).0

pub loop_step :
    (i : ℤ) (c : Client) (b : Bytes) (p : Packet) (rest : List Reply)
    → leb_ℤ i packets_to_send ≡ true
    → decode b ≡ some p
    → send_loop i c (received b ∷ rest)
      ≡ prepend (send_to default_message c).0 (
          send_loop
            ((on_reply p.id i (send_to default_message c).1).0 +ℤ pos 1)
            (on_reply p.id i (send_to default_message c).1).1
            rest)
unfolding send_loop
loop_step i c b p rest more e = rw (more, send_loop, e)

pub loop_end :
    (i : ℤ) (c : Client) → leb_ℤ i packets_to_send ≡ false → send_loop i c [] ≡ ([], c, done)
unfolding send_loop
loop_end i c over = rw (over, send_loop)

-- What a loop sent, how it ended, and the client's next id and control.
abbrev pub Completes : Sent → ℕ → ℕ → CongestionControl → Type 0
Completes r n k control =
    (r.0 ≡ texts_from n k)
    × (r.2 ≡ done)
    × (r.1.packet_id ≡ pos (n + k))
    × (r.1.control ≡ acks k (pos 0) control)

-- The client behind a round that was acknowledged.
next_client : ℕ → Client → Client
unfolding acknowledged send_to
next_client n c = acknowledged n (send_to default_message c).1

round_in_order :
    (j n : ℕ) (c : Client) (rest : List Reply)
    → j ≤ 40
    → n < 2 ^ 31
    → c.packet_id ≡ pos n
    → c.last_ack_id ≢ pos n
    → c.loss ≡ pos 0
    → send_loop (pos j) c (received (reply (pos n) ack) ∷ rest)
      ≡ prepend
          (client_text (pos n) default_message)
          (send_loop (pos (j + 1)) (next_client n c) rest)
unfolding next_client
round_in_order j n c rest low small next unseen none_lost =
    loop_step (pos j) c (reply (pos n) ack) (record { id = pos n; text = ack }) rest (ground arith)
      (decode-reply n small)
    ∙ ap₂ prepend (ap (λ i. client_text i default_message) next) (
        ap (λ r. send_loop (r.0 +ℤ pos 1) r.1 rest)
          (on_reply_in_order n (pos j) (send_to default_message c).1 unseen none_lost)
        ∙ ap (λ i. send_loop i (next_client n c) rest) (pos_suc j))

loop_in_order :
    (k j n : ℕ) (c : Client)
    → j + k ≡ 41
    → n + k < 2 ^ 31
    → c.packet_id ≡ pos n
    → c.last_ack_id +ℤ pos 1 ≤ℤ pos n
    → c.loss ≡ pos 0
    → Completes (send_loop (pos j) c (replies_from n k)) n k c.control
unfolding replies_from texts_from acks next_client prepend
loop_in_order zero j n c count small next old none_lost =
    rw (loop_end (pos j) c (ground arith)) (refl, refl, next ∙ ap pos (omega arith), refl)
loop_in_order (suc k) j n c count small next old none_lost =
    let unseen : c.last_ack_id ≢ pos n =
      λ e. omega (arith, +ℤ_parts c.last_ack_id (pos 1), ap pos_part e, ap neg_part e) in
    let (sent, ended, id, control) =
      loop_in_order k (j + 1) (n + 1) (next_client n c) (omega arith) (omega arith)
        (ap (λ i. i +ℤ pos 1) next ∙ pos_suc n) (omega (arith, +ℤ_parts (pos n) (pos 1)))
        none_lost in
    rw
      (round_in_order j n c (replies_from (n + 1) k) (ground arith) (omega arith) next unseen
        none_lost)
      (
        ap (◌∷◌ (client_text (pos n) default_message)) sent,
        ended,
        id ∙ ap pos (omega arith),
        control,
      )

-- A client that has seen no acknowledgement from its next id on, and gets those of its forty packets in turn,
-- sends exactly the forty messages from that id on, in order; the loop ends; and the congestion
-- control has gone through forty new acknowledgements with no loss.
pub send_data_in_order :
    (n : ℕ) (c : Client)
    → n + 40 < 2 ^ 31
    → c.packet_id ≡ pos n
    → c.last_ack_id +ℤ pos 1 ≤ℤ pos n
    → Completes (send_data c (replies_from n 40)) n 40 c.control
unfolding send_data
send_data_in_order n c small next old =
    loop_in_order 40 1 n (record c { loss = pos 0 }) refl small next old refl
