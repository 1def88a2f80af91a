-- ===== src/Transport/Handshake/Server.antt =====
-- A4/Part1/Server.cpp: what the server sends, by what it received.
use computer_network_course.Prelude.Text.{same_text_iff}
use computer_network_course.Prelude.{◌≡◌, ◌↔◌, ◌⊎◌, ◌≢◌, arith, List, [], ◌∷◌, Option, none, some}
use computer_network_course.Transport.Packet.{
  Bytes, Packet, decode, syn, syn_ack, ack, default_message,
}
use computer_network_course.Transport.Socket.{recv}
use computer_network_course.Transport.Handshake.{handle_client, server_text, first, second, third}

-- The text of a decoded packet.
abbrev pub text_of : Option Packet → Option Bytes
text_of none = none
text_of (some p) = some p.text

-- The replies of the server, in the order in which it can send them.
abbrev greeting : Bytes
greeting = server_text syn_ack

abbrev echo : Bytes
echo = server_text default_message

third_replies :
    (o : Option Packet)
    → (((third o).0 ≡ echo ∷ []) ↔ (text_of o ≡ some default_message))
      × (((third o).0 ≡ []) ⊎ ((third o).0 ≡ echo ∷ []))
unfolding third
third_replies none = ground arith
third_replies (some p) = ground (arith, same_text_iff p.text default_message)

second_replies :
    (o : Option Packet) (b : Bytes) (rest : List Bytes)
    → let sent = (second o (b ∷ rest)).0 in
      ((sent ≡ echo ∷ []) ↔ ((text_of o ≡ some ack) × (text_of (decode b) ≡ some default_message)))
      × ((sent ≡ []) ⊎ (sent ≡ echo ∷ []))
unfolding second recv
second_replies none b rest = ground arith
second_replies (some p) b rest = ground (arith, same_text_iff p.text ack, third_replies (decode b))

-- The server sends nothing exactly when the first buffer does not hold SYN; else it sends SYN_ACK, and
-- then `Hello` exactly when the next two hold ACK and `Hello`; and it sends nothing else.
pub server_replies :
    (b₁ b₂ b₃ : Bytes) (rest : List Bytes)
    → let sent = (handle_client (b₁ ∷ b₂ ∷ b₃ ∷ rest)).0 in
      ((sent ≡ []) ↔ (text_of (decode b₁) ≢ some syn))
      × ((sent ≡ server_text syn_ack ∷ server_text default_message ∷ []) ↔ (
          (text_of (decode b₁) ≡ some syn)
          × (text_of (decode b₂) ≡ some ack)
          × (text_of (decode b₃) ≡ some default_message)))
      × ((sent ≡ [])
          ⊎ (sent ≡ server_text syn_ack ∷ [])
          ⊎ (sent ≡ server_text syn_ack ∷ server_text default_message ∷ []))
unfolding handle_client
server_replies b₁ b₂ b₃ rest = first_replies (decode b₁)
  where
    first_replies :
        (o : Option Packet)
        → let sent = (first o (b₂ ∷ b₃ ∷ rest)).0 in
          ((sent ≡ []) ↔ (text_of o ≢ some syn))
          × ((sent ≡ greeting ∷ echo ∷ []) ↔ (
              (text_of o ≡ some syn)
              × (text_of (decode b₂) ≡ some ack)
              × (text_of (decode b₃) ≡ some default_message)))
          × ((sent ≡ []) ⊎ (sent ≡ greeting ∷ []) ⊎ (sent ≡ greeting ∷ echo ∷ []))
    first_replies none = ground arith
    first_replies (some p) =
        ground (arith, same_text_iff p.text syn, second_replies (decode b₂) b₃ rest)
