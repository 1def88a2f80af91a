-- ===== src/GoBackN/HostA.antt =====
-- A4/Part3/HostA.cpp: the sender. `send_step` is one round of the inner loop of `sendMessages`, up to
-- the packet that it serializes; `receive` is one datagram of `receiveMessages`. The two threads share
-- `send_base`; each round is one step of the model. The file fits an int, and so do the counters.
pub mod Window
pub mod Segments
use computer_network_course.Prelude.{
  ℕ, zero, suc, ◌+◌, ◌-◌, ◌*◌, ◌/◌, ◌%◌, ◌^◌, Bool, true, false, ◌&&◌, List, [], ◌∷◌, ◌++◌, Option,
  none, some, length, take, drop, replicate, ltb, ◌==◌, ◌≡◌, ◌≢◌, arith, if◌then◌else◌, min,
}
use computer_network_course.GoBackN.Datagram.{Bytes, Packet, buffer_size}

-- `N`, and the id that `main` gives this host.
abbrev pub window : ℕ
window = 4

abbrev pub host_a_id : ℕ
host_a_id = 1

-- `file` is `fileBuffer`, and `message` the array of the local packet, which lives through all rounds.
pub record HostA : Type 0 where
  pub file : Bytes
  pub message : Bytes
  pub send_base : ℕ
  pub next_seq_num : ℕ

unfoldable pub total_packets : Bytes → ℕ
total_packets file = length file / buffer_size + (if length file % buffer_size == 0 then 0 else 1)

-- The state at the head of the loop. What the array held before is unknown.
abbrev pub start : Bytes → Bytes → HostA
start file message = record { file = file; message = message; send_base = 0; next_seq_num = 0 }

-- A result that is stored in an int, by its 32 bits; from 2 ^ 31 on they are those of a negative number.
abbrev pub as_int : ℕ → ℕ
as_int n = n % 2 ^ 32

-- The range that `std::copy` reads for packet `n`, from `startPos` up to `endPos`, both an int. The range
-- stands in the file while the file is shorter than 2 ^ 31 bytes by an array; beyond that the source
-- copies from outside of it, and the theorems on the segments keep away from there.
unfoldable pub segment : Bytes → ℕ → Bytes
segment file n =
    let start_pos = as_int (n * buffer_size) in
    let end_pos = min (as_int (start_pos + buffer_size)) (as_int (length file)) in
    take (end_pos - start_pos) (drop start_pos file)

-- `std::copy` to the front of the array; the rest of the array stays.
copy_to_front : Bytes → Bytes → Bytes
copy_to_front bytes message = bytes ++ drop (length bytes) message

unfoldable pub can_send : HostA → Bool
unfolding total_packets
can_send h = ltb h.next_seq_num (h.send_base + window) && ltb h.next_seq_num (total_packets h.file)

unfoldable pub next_packet : HostA → Packet
unfolding copy_to_front segment
next_packet h = record {
  source_id = host_a_id;
  seq_num = h.next_seq_num;
  message = copy_to_front (segment h.file h.next_seq_num) h.message;
}

unfoldable pub advance : HostA → HostA
unfolding next_packet
advance h = record h { message = (next_packet h).message; next_seq_num = h.next_seq_num + 1 }

-- `none` where the inner loop's test fails.
unfoldable pub send_step : HostA → Option (HostA × Packet)
unfolding can_send next_packet advance
send_step h = if can_send h then some (advance h, next_packet h) else none

-- The inner loop, with the packets that it sends.
unfoldable pub send_burst : ℕ → HostA → HostA × List Packet
send_burst zero h = (h, [])
send_burst (suc fuel) h = elim (can_send h) [
  | true ↦ let (h', sent) = send_burst fuel (advance h) in (h', next_packet h ∷ sent)
  | false ↦ (h, [])
]

-- A datagram of its own id is ignored; every other counts as an acknowledgement.
unfoldable pub receive : HostA → Packet → HostA
receive h p = if p.source_id == 1 then h else record h { send_base = h.send_base + 1 }

pub receive_ack :
    (h : HostA) (p : Packet)
    → p.source_id ≢ 1
    → receive h p ≡ record h { send_base = h.send_base + 1 }
unfolding receive
receive_ack h p e = ground arith
