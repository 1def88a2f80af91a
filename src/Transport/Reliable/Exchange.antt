-- ===== src/Transport/Reliable/Exchange.antt =====
-- A4/Part2/Client.cpp and Server.cpp: the loop of `send_data` against the loop of `handle_client`, where
-- every `recv` returns one text of the other side.
pub mod Steps
pub mod Losses
use computer_network_course.Prelude.{
  ℕ, zero, suc, ◌+◌, ◌≤◌, ◌<◌, ◌^◌, ◌≡◌, refl, ap, ap₂, sym, ◌∙◌, arith, true, false, List, [], ◌∷◌,
  ◌++◌, some, map, length, length-append, append_assoc,
}
use computer_network_course.Prelude.Int.{ℤ, pos, ◌+ℤ◌, pos_suc, leb_ℤ}
use computer_network_course.Transport.Packet.{Bytes, Packet, decode, ack, default_message}
use computer_network_course.Transport.Packet.RoundTrip.{decode-encode}
use computer_network_course.Transport.Reliable.Server.{Server, Served, accept, serve, reply, sends}
use computer_network_course.Transport.Reliable.Server.Order.{serve_message}
use computer_network_course.Transport.Reliable.Client.{
  Client, Reply, received, send_to, on_reply, send_loop, prepend, client_text, packets_to_send,
  Sent,
}
use computer_network_course.Transport.Reliable.Client.InOrder.{decode-reply, loop_step}

abbrev pub prepend_all : List Bytes → Sent → Sent
prepend_all [] r = r
prepend_all (m ∷ ms) r = prepend m (prepend_all ms r)

abbrev pub sends_all : List Bytes → Served → Served
sends_all [] r = r
sends_all (m ∷ ms) r = sends m (sends_all ms r)

-- Some rounds of both loops, in which each side receives what the other sends: from a counter, a client
-- and a server to those behind the rounds.
pub record Exchange (n j : ℕ) (c : Client) (s : Server) (j' : ℕ) (c' : Client) (s' : Server)
    : Type 0 where
  pub messages : List Bytes
  pub replies : List Bytes
  pub count : length messages ≡ n
  pub client_side :
      (rest : List Reply)
      → send_loop (pos j) c (map received replies ++ rest)
        ≡ prepend_all messages (send_loop (pos j') c' rest)
  pub server_side :
      (rounds : ℕ) (rest : List Bytes)
      → serve (n + rounds) s (messages ++ rest) ≡ sends_all replies (serve rounds s' rest)

decode-message :
    (n : ℕ)
    → n < 2 ^ 31
    → decode (client_text (pos n) default_message)
      ≡ some (record { id = pos n; text = default_message })
unfolding client_text
decode-message n h =
    (decode-encode (record { id = pos n; text = default_message }) [] h (omega arith)
      (omega arith)).0

-- The counter and the client behind a message and the acknowledgement of a.
abbrev pub answered : ℕ → ℕ → Client → ℤ × Client
answered a j c = on_reply (pos a) (pos j) (send_to default_message c).1

-- One round: the client's packet n, and the acknowledgement of a.
pub round :
    (j n a j' : ℕ) (c : Client) (s s' : Server)
    → j ≤ 40
    → n < 2 ^ 31
    → a < 2 ^ 31
    → c.packet_id ≡ pos n
    → accept s (pos n) ≡ s'
    → s'.last_packet_id ≡ pos a
    → (answered a j c).0 ≡ pos j'
    → Exchange 1 j c s (suc j') (answered a j c).1 s'
unfolding send_to
round j n a j' c s s' low low_id low_reply known taken last step = record {
  messages = client_text (pos n) default_message ∷ [];
  replies = reply (pos a) ack ∷ [];
  count = refl;
  client_side = λ rest.
      loop_step (pos j) c (reply (pos a) ack) (record { id = pos a; text = ack }) rest
        (ground arith) (decode-reply a low_reply)
      ∙ ap₂ prepend (ap (λ i. client_text i default_message) known) (
          ap (λ i. send_loop i (answered a j c).1 rest)
            (ap (λ i. i +ℤ pos 1) step ∙ pos_suc j' ∙ ap pos (omega arith)));
  server_side = λ rounds rest.
      ap (λ k. serve k s (client_text (pos n) default_message ∷ rest)) (omega arith)
      ∙ serve_message rounds s (client_text (pos n) default_message) rest
          (record { id = pos n; text = default_message }) (decode-message n low_id) refl
      ∙ ap (λ x. sends (reply x.last_packet_id ack) (serve rounds x rest)) taken
      ∙ ap (λ i. sends (reply i ack) (serve rounds s' rest)) last;
}

prepend_all-append :
    (xs ys : List Bytes) (r : Sent) → prepend_all (xs ++ ys) r ≡ prepend_all xs (prepend_all ys r)
prepend_all-append [] ys r = refl
prepend_all-append (x ∷ xs) ys r = ap (prepend x) (prepend_all-append xs ys r)

sends_all-append :
    (xs ys : List Bytes) (r : Served) → sends_all (xs ++ ys) r ≡ sends_all xs (sends_all ys r)
sends_all-append [] ys r = refl
sends_all-append (x ∷ xs) ys r = ap (sends x) (sends_all-append xs ys r)

received-append :
    (xs ys : List Bytes) (rest : List Reply)
    → map received (xs ++ ys) ++ rest ≡ map received xs ++ (map received ys ++ rest)
received-append [] ys rest = refl
received-append (x ∷ xs) ys rest = ap (λ r. received x ∷ r) (received-append xs ys rest)

module _ {n m k j j' j'' : ℕ} {c c' c'' : Client} {s s' s'' : Server} where
  -- Rounds behind rounds.
  pub join_rounds :
      Exchange n j c s j' c' s'
      → Exchange m j' c' s' j'' c'' s''
      → n + m ≡ k
      → Exchange k j c s j'' c'' s''
  join_rounds x y e = record {
    messages = x.messages ++ y.messages;
    replies = x.replies ++ y.replies;
    count = length-append x.messages y.messages ∙ ap₂ (λ a b. a + b) x.count y.count ∙ e;
    client_side = λ rest.
        ap (send_loop (pos j) c) (received-append x.replies y.replies rest)
        ∙ x.client_side (map received y.replies ++ rest)
        ∙ ap (prepend_all x.messages) (y.client_side rest)
        ∙ sym (prepend_all-append x.messages y.messages (send_loop (pos j'') c'' rest));
    server_side = λ rounds rest.
        ap₂ (λ a b. serve a s b) (omega arith) (append_assoc x.messages y.messages rest)
        ∙ x.server_side (m + rounds) (y.messages ++ rest)
        ∙ ap (sends_all x.replies) (y.server_side rounds rest)
        ∙ sym (sends_all-append x.replies y.replies (serve rounds s'' rest));
  }
