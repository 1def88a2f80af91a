-- ===== src/Transport/Handshake/Session.antt =====
-- A4/Part1: the client and the server of one connection together.
use computer_network_course.Prelude.Text.{same_text, same_text_iff}
use computer_network_course.Prelude.{
  ℕ, ◌<◌, ◌≡◌, ◌≢◌, ◌↔◌, refl, ap, ◌∙◌, arith, false, [], ◌∷◌, ◌++◌, some, append_assoc, All-append,
  Lacks,
}
use computer_network_course.Prelude.Int.{ℤ, pos}
use computer_network_course.Transport.Packet.{
  Bytes, Packet, encode, decode, show_int, syn, syn_ack, ack, default_message, comma, newline,
}
use computer_network_course.Transport.Packet.Decimal.{IsInt32, show_int-Lacks}
use computer_network_course.Transport.Packet.RoundTrip.{decode-encode, decode_empty}
use computer_network_course.Transport.Socket.{finished, uncaught}
use computer_network_course.Transport.Handshake.{handle_client, client, server_text, client_text}

decode-server_text :
    (m : Bytes)
    → Lacks newline m
    → Lacks 0 m
    → decode (server_text m) ≡ some (record { id = pos 0; text = m })
unfolding server_text
decode-server_text m l z = (decode-encode (record { id = pos 0; text = m }) [] (omega arith) l z).0

decode-client_text :
    (id : ℤ) (m : Bytes)
    → IsInt32 id
    → Lacks newline m
    → Lacks 0 m
    → decode (client_text id m) ≡ some (record { id = id; text = m })
unfolding client_text
decode-client_text id m i l z = (decode-encode (record { id = id; text = m }) [] i l z).0

-- If every `recv` returns one message of the peer, whole and in order, then for every client id that
-- fits an int the client sends SYN, ACK and `Hello`, the server SYN_ACK and `Hello`, and both end.
pub handshake_session :
    (id : ℤ)
    → IsInt32 id
    → (client id (server_text syn_ack ∷ server_text default_message ∷ [])
        ≡ (client_text id syn ∷ client_text id ack ∷ client_text id default_message ∷ [], finished))
      × (handle_client
            (client_text id syn ∷ client_text id ack ∷ client_text id default_message ∷ [])
          ≡ (server_text syn_ack ∷ server_text default_message ∷ [], finished))
unfolding client handle_client same_text
handshake_session id i = (
  rw (
    decode-server_text syn_ack (omega arith) (omega arith),
    decode-server_text default_message (omega arith) (omega arith),
  ),
  rw (
    decode-client_text id syn i (omega arith) (omega arith),
    decode-client_text id ack i (omega arith) (omega arith),
    decode-client_text id default_message i (omega arith) (omega arith),
  ),
)

-- Two texts of one client in a row are the text of one packet.
client_text-append : (id : ℤ) (m n : Bytes) → client_text id m ++ n ≡ client_text id (m ++ n)
unfolding client_text encode
client_text-append id m n = append_assoc (show_int id) (comma ∷ m) n

client_text-Lacks : (id : ℤ) (m : Bytes) (b : ℕ) → b < b',' → Lacks b m → Lacks b (client_text id m)
unfolding client_text encode
client_text-Lacks id m b h l =
    All-append (λ c. c ≢ b) (show_int id) (comma ∷ m) (show_int-Lacks id b (omega arith))
      (omega arith, l)

decode_coalesced :
    (id : ℤ)
    → IsInt32 id
    → decode (client_text id ack ++ client_text id default_message)
      ≡ some (record { id = id; text = ack ++ client_text id default_message })
decode_coalesced id i =
    ap decode (client_text-append id ack (client_text id default_message))
    ∙ decode-client_text id (ack ++ client_text id default_message) i
        (lacks newline (omega arith) (omega arith) (omega arith))
        (lacks 0 (omega arith) (omega arith) (omega arith))
  where
    lacks :
        (b : ℕ)
        → b < b','
        → Lacks b ack
        → Lacks b default_message
        → Lacks b (ack ++ client_text id default_message)
    lacks b h a d =
        All-append (λ c. c ≢ b) ack (client_text id default_message) a
          (client_text-Lacks id default_message b h d)

-- What the server then finds behind ACK.
text_left : (p : Packet) → same_text (encode p) [] ≡ false
unfolding same_text encode
text_left p = not_empty (show_int p.id)
  where
    not_empty : (s : Bytes) → same_text (s ++ comma ∷ p.text) [] ≡ false
    not_empty [] = refl
    not_empty (x ∷ s) = refl

-- The bug: the client does not wait between ACK and `Hello`, and a stream socket may hand both to one
-- `recv`. Then, for every client id, the server takes them for one message, closes without an echo,
-- and the client fails with an exception on the empty buffer.
pub coalesced_session :
    (id : ℤ)
    → IsInt32 id
    → (handle_client
          (client_text id syn ∷ (client_text id ack ++ client_text id default_message) ∷ [])
        ≡ (server_text syn_ack ∷ [], finished))
      × (client id (server_text syn_ack ∷ []) ≡ (
        client_text id syn ∷ client_text id ack ∷ client_text id default_message ∷ [],
        uncaught,
      ))
unfolding client handle_client same_text
coalesced_session id i = (
  rw (decode-client_text id syn i (omega arith) (omega arith), decode_coalesced id i)
      (ground (arith, text_left (record { id = id; text = default_message }))),
  rw (decode-server_text syn_ack (omega arith) (omega arith), decode_empty),
)

-- A client whose handshake got another answer than SYN_ACK leaves out the ACK, and sends its message
-- all the same.
pub client_sends :
    (id : ℤ) (b₁ b₂ : Bytes) (p : Packet)
    → decode b₁ ≡ some p
    → let sent = (client id (b₁ ∷ b₂ ∷ [])).0 in
      ((sent ≡ client_text id syn ∷ client_text id ack ∷ client_text id default_message ∷ [])
        ↔ (p.text ≡ syn_ack))
      × ((sent ≡ client_text id syn ∷ client_text id default_message ∷ []) ↔ (p.text ≢ syn_ack))
unfolding client
client_sends id b₁ b₂ p e = ground (arith, same_text_iff p.text syn_ack)
