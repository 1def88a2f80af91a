-- ===== src/Transport/Reliable/Client.antt =====
-- A4/Part2/Client.cpp: `sendTo`, `retransmit`, `isDuplicateAck`, the handshake and the loop of
-- `send_data`.
pub mod Rounds
pub mod InOrder
use computer_network_course.Prelude.Text.{same_text}
use computer_network_course.Prelude.{
  ◌++◌, ℕ, zero, suc, ◌+◌, Bool, true, false, ◌&&◌, List, [], ◌∷◌, Option, none, some,
  if◌then◌else◌,
}
use computer_network_course.Prelude.Int.{ℤ, pos, negsuc, ◌+ℤ◌, ◌==ℤ◌, leb_ℤ, ltb_ℤ}
use computer_network_course.Congestion.{
  CongestionControl, State, slow_start, congestion_avoidance, fast_recovery, init, on_packet_acked,
  on_timeout,
}
use computer_network_course.Transport.Packet.{
  Bytes, Packet, encode, decode, syn, syn_ack, ack, default_message,
}
use computer_network_course.Transport.Socket.{Outcome, finished, uncaught, recv}

-- `packet_buffer` is the map `packetBuffer`; `loss` is `numberOfLossPacket`, a local of `send_data`.
pub record Client : Type 0 where
  pub packet_id : ℤ
  pub last_ack_id : ℤ
  pub loss : ℤ
  pub packet_buffer : List (ℤ × Bytes)
  pub control : CongestionControl

abbrev pub start : Client
start = record {
  packet_id = pos 0;
  last_ack_id = negsuc 0;
  loss = pos 0;
  packet_buffer = [];
  control = init;
}

-- `map[key] = value` and `map.find(key)` of std::unordered_map.
pub insert : ℤ → Bytes → List (ℤ × Bytes) → List (ℤ × Bytes)
insert k v [] = (k, v) ∷ []
insert k v ((j, w) ∷ m) = if j ==ℤ k then (k, v) ∷ m else (j, w) ∷ insert k v m

pub find : ℤ → List (ℤ × Bytes) → Option Bytes
find k [] = none
find k ((j, w) ∷ m) = if j ==ℤ k then some w else find k m

unfoldable pub client_text : ℤ → Bytes → Bytes
client_text id m = encode (record { id = id; text = m })

-- The text that is sent, and the client behind the call.
unfoldable pub send_to : Bytes → Client → Bytes × Client
unfolding insert client_text
send_to m c =
    let text = client_text c.packet_id m in
    (
      text,
      record c {
        packet_buffer = insert c.packet_id text c.packet_buffer;
        packet_id = c.packet_id +ℤ pos 1;
      },
    )

-- What `retransmit` sends, if anything.
unfoldable pub retransmit : ℤ → Client → Option Bytes
unfolding find
retransmit id c = find id c.packet_buffer

-- One `recv`: a buffer, or an error or the end of the stream.
pub data Reply : Type 0 where
  received : Bytes → Reply
  nothing : Reply

-- `isDuplicateAck` on a decoded id.
unfoldable pub is_duplicate_ack : ℤ → Client → Bool × Client
is_duplicate_ack id c =
    if id ==ℤ c.last_ack_id then (true, c) else (false, record c { last_ack_id = id })

unfoldable pub count_loss : Bool → ℤ → ℤ
count_loss true loss = loss +ℤ pos 1
count_loss false loss = if ltb_ℤ (pos 0) loss then loss +ℤ negsuc 0 else loss

-- `congestionControl.getState() == State::FAST_RECOVERY`.
abbrev pub in_recovery : State → Bool
in_recovery fast_recovery = true
in_recovery _ = false

-- The rest of a round: the loop's counter and the client. In fast recovery a duplicate sets both the
-- counter and the next id one above the last acknowledged.
unfoldable pub on_reply : ℤ → ℤ → Client → ℤ × Client
unfolding is_duplicate_ack count_loss
on_reply id i c =
    let (dup, noted) = is_duplicate_ack id c in
    let loss = count_loss dup noted.loss in
    let acked = record noted { loss = loss; control = on_packet_acked noted.control dup loss } in
    if dup && in_recovery acked.control.state
    then (acked.last_ack_id +ℤ pos 1, record acked { packet_id = acked.last_ack_id +ℤ pos 1 })
    else (i, acked)

unfoldable pub on_silence : Client → Client
on_silence c = record c { control = on_timeout c.control }

-- How the loop ends; `waiting` is a `recv` that has not returned.
pub data End : Type 0 where
  done failed waiting : End

abbrev pub packets_to_send : ℤ
packets_to_send = pos 40

-- `for (i = …; i <= packetsToSend; i++)`, one reply a round: what is sent, the client, and the end.
abbrev pub Sent : Type 0
Sent = List Bytes × Client × End

unfoldable pub prepend : Bytes → Sent → Sent
prepend m r = (m ∷ r.0, r.1, r.2)

unfoldable pub send_loop : ℤ → Client → List Reply → Sent
send_loop i c [] =
    if leb_ℤ i packets_to_send
    then prepend (send_to default_message c).0 ([], (send_to default_message c).1, waiting)
    else ([], c, done)
send_loop i c (r ∷ rest) = elim (leb_ℤ i packets_to_send) [
  | false ↦ ([], c, done)
  | true ↦
      let (text, c') = send_to default_message c in
      prepend text (elim r [
        | nothing ↦ send_loop (i +ℤ pos 1) (on_silence c') rest
        | received b ↦ elim (decode b) [
          | none ↦ ([], c', failed)
          | some p ↦ let (j, c'') = on_reply p.id i c' in send_loop (j +ℤ pos 1) c'' rest
        ]
      ])
]

-- `send_data`.
unfoldable pub send_data : Client → List Reply → Sent
unfolding send_loop
send_data c replies = send_loop (pos 1) (record c { loss = pos 0 }) replies

-- What `recv` leaves in the zeroed buffer.
reply_text : Reply → Bytes
reply_text (received b) = b
reply_text nothing = []

-- `perform_handshake` behind its `recv`; `done` goes on to `send_data`.
acknowledge : Client → Option Packet → Sent
unfolding prepend
acknowledge c none = ([], c, failed)
acknowledge c (some p) =
    if same_text p.text syn_ack
    then prepend (send_to ack c).0 ([], (send_to ack c).1, done)
    else ([], c, done)

unfoldable pub perform_handshake : Client → Reply → Sent
unfolding acknowledge reply_text
perform_handshake c r =
    prepend (send_to syn c).0 (acknowledge (send_to syn c).1 (decode (reply_text r)))

then_data : Sent → List Reply → Sent
then_data (sent, c, done) replies =
    let (more, c', end) = send_data c replies in (sent ++ more, c', end)
then_data (sent, c, failed) replies = (sent, c, failed)
then_data (sent, c, waiting) replies = (sent, c, waiting)

-- `start`, from the connection on.
unfoldable pub start_session : Client → Reply → List Reply → Sent
unfolding then_data
start_session c r replies = then_data (perform_handshake c r) replies
