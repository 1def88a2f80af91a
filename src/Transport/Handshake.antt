-- ===== src/Transport/Handshake.antt =====
-- A4/Part1/Client.cpp and Server.cpp: the handshake and the one message behind it, on both sides.
-- Printing is left out.
pub mod Server
pub mod Session
use computer_network_course.Prelude.Text.{same_text}
use computer_network_course.Transport.Socket.{finished, uncaught, Trace, sends, recv}
use computer_network_course.Prelude.{
  ℕ, ◌+◌, Bool, true, false, ◌&&◌, ◌≡◌, ◌↔◌, refl, ap, arith, List, [], ◌∷◌, Option, none, some,
  ◌==◌, if◌then◌else◌,
}
use computer_network_course.Prelude.Int.{ℤ, pos}
use computer_network_course.Transport.Packet.{
  Bytes, Packet, encode, decode, syn, syn_ack, ack, default_message,
}

-- `sendTo`: the server sends every message under the id 0.
unfoldable pub server_text : Bytes → Bytes
server_text m = encode (record { id = pos 0; text = m })

-- `handle_client`, from the third message on: `Hello` is echoed, and the packet shown.
third : Option Packet → Trace
unfolding sends server_text
third none = ([], uncaught)
third (some p) =
    if same_text p.text default_message
    then sends (server_text default_message) ([], finished)
    else ([], finished)

-- From the second one on.
second : Option Packet → List Bytes → Trace
unfolding third
second none buffers = ([], uncaught)
second (some p) buffers =
    if same_text p.text ack then third (decode (recv buffers).0) else ([], finished)

first : Option Packet → List Bytes → Trace
unfolding second sends server_text
first none buffers = ([], uncaught)
first (some p) buffers =
    if same_text p.text syn
    then sends (server_text syn_ack) (second (decode (recv buffers).0) (recv buffers).1)
    else ([], finished)

unfoldable pub handle_client : List Bytes → Trace
unfolding first recv
handle_client buffers = first (decode (recv buffers).0) (recv buffers).1

-- The client, by its `id_`.
unfoldable pub client_text : ℤ → Bytes → Bytes
client_text id m = encode (record { id = id; text = m })

-- `send_data`: `Hello`, and the reply is decoded to be shown.
shown : Option Packet → Trace
shown none = ([], uncaught)
shown (some p) = ([], finished)

send_data : ℤ → List Bytes → Trace
unfolding shown recv sends
send_data id buffers = sends (client_text id default_message) (shown (decode (recv buffers).0))

-- `perform_handshake` from the reply on, then `send_data` whatever the reply was.
replied : ℤ → Option Packet → List Bytes → Trace
unfolding send_data
replied id none buffers = ([], uncaught)
replied id (some p) buffers =
    if same_text p.text syn_ack
    then sends (client_text id ack) (send_data id buffers)
    else send_data id buffers

unfoldable pub client : ℤ → List Bytes → Trace
unfolding replied recv sends client_text
client id buffers =
    sends (client_text id syn) (replied id (decode (recv buffers).0) (recv buffers).1)
