-- ===== src/GoBackN/Datagram/Wire.antt =====
-- What a packet is after it was serialized, sent and received, and what the writing of it destroys.
use computer_network_course.Prelude.{
  ℕ, ◌%◌, ◌^◌, ◌≤◌, ◌<◌, ◌≡◌, sym, ap, ◌∙◌, arith, ◌++◌, length, take, drop, length-append,
  drop-append, take_all, length-take, drop-drop, take-append_le, drop-append_le, take-append_add,
  length-drop,
}
use computer_network_course.GoBackN.Datagram.{
  Bytes, Packet, buffer_size, int_bytes, bytes_int, serialize_packet, deserialize_packet, sendto,
  recvfrom,
}

bytes_int-int_bytes : (n : ℕ) → bytes_int (int_bytes n) ≡ n % 2 ^ 32
unfolding bytes_int int_bytes
bytes_int-int_bytes n = omega arith

-- The whole of the memory after `serializePacket`.
pub serialize_layout :
    (p : Packet) (memory : Bytes)
    → length p.message ≡ buffer_size
    → serialize_packet p memory
      ≡ int_bytes p.source_id
        ++ int_bytes p.seq_num
        ++ p.message
        ++ drop 1536 (drop 4 (drop 4 memory))
unfolding serialize_packet
serialize_layout p memory h = rw (take_all 1536 p.message (omega arith))

-- `serializePacket` writes 1544 bytes into the 1536 of `Node::buffer`: the eight bytes of the object
-- behind the array become the last eight of the message, whatever the packet and the object hold.
pub serialize_overruns :
    (p : Packet) (buffer behind : Bytes)
    → length p.message ≡ buffer_size
    → length buffer ≡ buffer_size
    → drop buffer_size (serialize_packet p (buffer ++ behind))
      ≡ drop 1528 p.message ++ drop 8 behind
unfolding int_bytes
serialize_overruns p buffer behind h b =
    ap (drop buffer_size) (serialize_layout p (buffer ++ behind) h)
    ∙ drop-append_le 1528 p.message _ (omega arith)
    ∙ ap (◌++◌ (drop 1528 p.message)) beyond
  where
    beyond : drop 1536 (drop 4 (drop 4 (buffer ++ behind))) ≡ drop 8 behind
    beyond =
        ap (drop 1536) (drop-drop 4 4 (buffer ++ behind))
        ∙ drop-drop 1536 8 (buffer ++ behind)
        ∙ sym (drop-drop 8 1536 (buffer ++ behind))
        ∙ ap (drop 8) (drop-append 1536 buffer behind b)

-- The bytes that a sender puts on the wire.
datagram : Packet → Bytes
datagram p = int_bytes p.source_id ++ int_bytes p.seq_num ++ take 1528 p.message

sendto-serialize :
    (p : Packet) (memory : Bytes)
    → length p.message ≡ buffer_size
    → sendto (serialize_packet p memory) ≡ datagram p
unfolding sendto datagram int_bytes
sendto-serialize p memory h =
    ap (take buffer_size) (serialize_layout p memory h)
    ∙ ap (λ t. int_bytes p.source_id ++ int_bytes p.seq_num ++ t)
        (take-append_le 1528 p.message _ (omega arith))

length-datagram : (p : Packet) → length p.message ≡ buffer_size → length (datagram p) ≡ buffer_size
unfolding datagram int_bytes
length-datagram p h = omega (arith, length-take 1528 p.message)

recvfrom-datagram :
    (p : Packet) (memory : Bytes)
    → length p.message ≡ buffer_size
    → recvfrom (datagram p) memory ≡ datagram p ++ drop buffer_size memory
unfolding recvfrom
recvfrom-datagram p memory h =
    rw (take_all buffer_size (datagram p) (omega (arith, length-datagram p h)), length-datagram p h)

-- A packet that one host sends and another receives.
pub through_wire : Packet → Bytes → Bytes → Packet
through_wire p from to = deserialize_packet (recvfrom (sendto (serialize_packet p from)) to)

over_wire :
    (p : Packet) (from to : Bytes)
    → length p.message ≡ buffer_size
    → through_wire p from to ≡ record {
      source_id = p.source_id % 2 ^ 32;
      seq_num = p.seq_num % 2 ^ 32;
      message = take 1528 p.message ++ take 8 (drop buffer_size to);
    }
unfolding through_wire deserialize_packet int_bytes datagram
over_wire p from to h =
    rw (sendto-serialize p from h, recvfrom-datagram p to h)
      (λ i. record {
        source_id = bytes_int-int_bytes p.source_id i;
        seq_num = bytes_int-int_bytes p.seq_num i;
        message =
            take-append_add 1528 8 (take 1528 p.message) (drop buffer_size to)
              (omega (arith, length-take 1528 p.message)) i;
      })

-- It keeps its two numbers, as ints of 32 bits, and the first 1528 bytes of its message; the last
-- eight bytes are those that stood behind the receiver's own buffer, whatever the sender wrote.
pub packet_over_wire :
    (p : Packet) (from to : Bytes)
    → length p.message ≡ buffer_size
    → p.source_id < 2 ^ 32
    → p.seq_num < 2 ^ 32
    → through_wire p from to
      ≡ record p { message = take 1528 p.message ++ take 8 (drop buffer_size to) }
packet_over_wire p from to h s q = over_wire p from to h ∙ (λ i. record {
  source_id = fits p.source_id s i;
  seq_num = fits p.seq_num q i;
  message = take 1528 p.message ++ take 8 (drop buffer_size to);
})
  where
    fits : (n : ℕ) → n < 2 ^ 32 → n % 2 ^ 32 ≡ n
    fits n b = omega arith

-- What the programs rely on: the id survives, and the message still fills its array.
pub through_wire_fields :
    (p : Packet) (from to : Bytes)
    → length p.message ≡ buffer_size
    → p.source_id < 2 ^ 32
    → 1544 ≤ length to
    → ((through_wire p from to).source_id ≡ p.source_id)
      × (length (through_wire p from to).message ≡ buffer_size)
through_wire_fields p from to h s room = rw (over_wire p from to h) (
  omega arith,
  omega (
    arith,
    length-append (take 1528 p.message) (take 8 (drop buffer_size to)),
    length-take 1528 p.message,
    length-take 8 (drop buffer_size to),
    length-drop buffer_size to,
  ),
)
