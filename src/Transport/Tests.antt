-- ===== src/Transport/Tests.antt =====
-- Runs of A4/Part1 and A4/Part2, and their theorems at concrete inputs.
use computer_network_course.Prelude.Text.{c_str}
use computer_network_course.Prelude.Text.{codes, same_text}
use computer_network_course.Prelude.{
  ℕ, ◌≡◌, ◌≢◌, ◌↔◌, ◌⊎◌, ◌≤◌, All, ap, sym, map, ◌+◌, length, refl, arith, true, false, List, [],
  ◌∷◌, ◌++◌, none, some,
}
use computer_network_course.Prelude.Int.{pos, negsuc, ◌+ℤ◌, ◌==ℤ◌, pos_part, neg_part}
use computer_network_course.Transport.Packet.{
  Bytes, Packet, encode, decode, stoi, show_int, syn, syn_ack, ack, default_message,
}
use computer_network_course.Transport.Socket.{finished, uncaught, recv}
use computer_network_course.Transport.Handshake.{handle_client, client, server_text, client_text}
use computer_network_course.Transport.Handshake.Server.{text_of, server_replies}
use computer_network_course.Transport.Handshake.Session.{coalesced_session, client_sends}
use computer_network_course.Transport.Reliable.Server.{Server, accept, serve, reply, max_rounds}
use computer_network_course.Transport.Reliable.Server
use computer_network_course.Transport.Reliable.Server.Order.{Acks, serve-Acks}
use computer_network_course.Transport.Reliable.Client.{Client, start, send_data, received, done}
use computer_network_course.Transport.Reliable.Server.Clients.{
  Passed, AllIgnored, first_last, serve_clients, later_clients_ignored, short_client_stops,
}
use computer_network_course.Transport.Start.{Peer, run_clients}
use computer_network_course.Transport.Reliable.Exchange.Steps.{served}
use computer_network_course.Transport.Reliable.Exchange.Losses.{loop_ends_early}
use computer_network_course.Transport.Start.Sockets.{
  closed, clients_served, refused_client_stops, conversations, replies,
}

abbrev hello : Packet
hello = record { id = negsuc 11; text = codes "a,b" }

printed : encode hello ≡ codes "-12,a,b"
unfolding encode show_int
printed = refl

no_comma : decode (codes " +7") ≡ some (record { id = pos 7; text = codes " +7" })
unfolding decode stoi c_str
no_comma = refl

out_of_range : decode (codes "2147483648,x") ≡ none
unfolding decode stoi c_str
out_of_range = refl

server_replies_example :
    let sent = (handle_client (codes "1,SYN" ∷ codes "1,ACK" ∷ codes "1,no" ∷ [])).0 in
    ((sent ≡ []) ↔ (text_of (decode (codes "1,SYN")) ≢ some syn))
    × ((sent ≡ server_text syn_ack ∷ server_text default_message ∷ []) ↔ (
        (text_of (decode (codes "1,SYN")) ≡ some syn)
        × (text_of (decode (codes "1,ACK")) ≡ some ack)
        × (text_of (decode (codes "1,no")) ≡ some default_message)))
    × ((sent ≡ [])
        ⊎ (sent ≡ server_text syn_ack ∷ [])
        ⊎ (sent ≡ server_text syn_ack ∷ server_text default_message ∷ []))
server_replies_example = server_replies (codes "1,SYN") (codes "1,ACK") (codes "1,no") []

coalesced_session_example :
    (handle_client (
        client_text (pos 3) syn
        ∷ (client_text (pos 3) ack ++ client_text (pos 3) default_message)
        ∷ [])
      ≡ (server_text syn_ack ∷ [], finished))
    × (client (pos 3) (server_text syn_ack ∷ []) ≡ (
      client_text (pos 3) syn ∷ client_text (pos 3) ack ∷ client_text (pos 3) default_message ∷ [],
      uncaught,
    ))
coalesced_session_example = coalesced_session (pos 3) (omega arith)

refusal_decoded : decode (codes "0,NO") ≡ some (record { id = pos 0; text = codes "NO" })
unfolding decode stoi c_str
refusal_decoded = refl

client_sends_example :
    let sent = (client (pos 2) (codes "0,NO" ∷ codes "0,Hello" ∷ [])).0 in
    ((sent
        ≡ client_text (pos 2) syn
          ∷ client_text (pos 2) ack
          ∷ client_text (pos 2) default_message
          ∷ [])
      ↔ (codes "NO" ≡ syn_ack))
    × ((sent ≡ client_text (pos 2) syn ∷ client_text (pos 2) default_message ∷ [])
        ↔ (codes "NO" ≢ syn_ack))
client_sends_example =
    client_sends (pos 2) (codes "0,NO") (codes "0,Hello") (record { id = pos 0; text = codes "NO" })
      refusal_decoded

abbrev at_nine : Server
at_nine = record { last_packet_id = pos 9; flag7 = true; flag8 = true }

abbrev two_messages : List Bytes
two_messages = codes "11,Hello" ∷ codes "10,Hello" ∷ codes "10,Hello" ∷ codes "11,Hello" ∷ []

served_last : (serve 4 at_nine two_messages).1.last_packet_id ≡ pos 11
unfolding serve Server.sends accept decode stoi c_str recv same_text ◌+ℤ◌ ◌==ℤ◌
served_last = refl

serve-Acks_example : All (Acks (pos 9) two_messages) (serve 4 at_nine two_messages).0
serve-Acks_example = serve-Acks 4 at_nine two_messages

-- The client behind its handshake, which used the ids 0 and 1.
abbrev greeted : Client
greeted = record start { packet_id = pos 2 }

pos-ne-negsuc : {n m : ℕ} → pos n ≢ negsuc m
pos-ne-negsuc e = omega (arith, ap pos_part e, ap neg_part e)

abbrev again : List Bytes
again = codes "0,SYN" ∷ codes "1,ACK" ∷ codes "2,Hello" ∷ []

hello_ignored : Passed (pos 41) (decode (codes "2,Hello"))
unfolding decode stoi c_str ◌+ℤ◌
hello_ignored e = omega (arith, ap pos_part e)

later_clients_ignored_example :
    AllIgnored (pos 41) (again ∷ again ∷ []) (serve_clients (pos 41) (again ∷ again ∷ []))
later_clients_ignored_example =
    later_clients_ignored (pos 41) (again ∷ again ∷ [])
      ((hello_ignored, tt), ((hello_ignored, tt), tt))

abbrev text_packet : ℕ → Bytes → Packet
text_packet n m = record { id = pos n; text = m }

greeting_decoded :
    (decode (codes "0,SYN") ≡ some (text_packet 0 syn))
    × (decode (codes "1,ACK") ≡ some (text_packet 1 ack))
unfolding decode stoi c_str
greeting_decoded = (refl, refl)

short_client_stops_example :
    let (sent, end) = serve_clients first_last (again ∷ again ∷ []) in
    (end ≡ uncaught) × (length sent ≤ 1)
short_client_stops_example =
    short_client_stops first_last [] (again ∷ []) (codes "0,SYN") (codes "1,ACK")
      (codes "2,Hello" ∷ []) (text_packet 0 syn) (text_packet 1 ack) greeting_decoded.0 refl
      greeting_decoded.1 refl (omega arith)

-- The three clients of `main`.
abbrev peer : ℕ → Peer
peer n = record { descriptor = pos n; connected = pos 0; buffers = replies }

clients_served_example :
    let (calls, sent, ended) = run_clients (peer 3 ∷ peer 4 ∷ peer 5 ∷ []) in
    (sent ≡ conversations 1 (peer 3 ∷ peer 4 ∷ peer 5 ∷ []))
    × (ended ≡ true)
    × (closed calls ≡ pos 3 ∷ pos 4 ∷ pos 5 ∷ [])
    × All (λ texts. handle_client texts ≡ (replies, finished)) sent
clients_served_example =
    clients_served (peer 3 ∷ peer 4 ∷ peer 5 ∷ []) (omega arith)
      (pos-ne-negsuc, (pos-ne-negsuc, (pos-ne-negsuc, tt)))
      ((pos-ne-negsuc, refl), ((pos-ne-negsuc, refl), ((pos-ne-negsuc, refl), tt)))

abbrev refused_peer : Peer
refused_peer = record { descriptor = pos 4; connected = negsuc 0; buffers = [] }

refused_client_stops_example :
    let (calls, sent, ended) = run_clients (peer 3 ∷ refused_peer ∷ peer 5 ∷ []) in
    (sent ≡ conversations 1 (peer 3 ∷ [])) × (ended ≡ false) × (closed calls ≡ pos 3 ∷ pos 4 ∷ [])
refused_client_stops_example =
    refused_client_stops (peer 3 ∷ []) (peer 5 ∷ []) refused_peer (omega arith)
      (pos-ne-negsuc, (pos-ne-negsuc, (pos-ne-negsuc, tt))) ((pos-ne-negsuc, refl), tt) refl

-- The client and the server of A4/Part2, behind their handshake.
loop_ends_early_example :
    (messages : List Bytes) × (replies : List Bytes) × (c' : Client) × (send_data greeted
        (map received replies)
      ≡ (messages, c', done))
    × (serve max_rounds (served 1 true true) messages ≡ (replies, served 39 false false, uncaught))
    × (length messages + 2 ≡ 46)
    × (c'.packet_id ≡ pos 40)
    × (c'.last_ack_id ≡ pos 39)
unfolding ◌+ℤ◌
loop_ends_early_example =
    loop_ends_early 2 greeted (omega arith) (omega arith) refl (λ e. pos-ne-negsuc (sym e))
