-- ===== src/GoBackN/Tests.antt =====
-- The theorems about A4/Part3 at concrete packets and files.
use mathlib.Core.List.{flatten}
use computer_network_course.Prelude.{
  ℕ, ◌*◌, ◌≤◌, ◌≡◌, ◌↔◌, ◌⊎◌, arith, true, [], ◌∷◌, ◌++◌, length, take, drop, replicate,
  length-replicate,
}
use computer_network_course.GoBackN.Datagram.{Bytes, Packet, buffer_size, serialize_packet}
use computer_network_course.GoBackN.Datagram.Wire.{
  serialize_overruns, through_wire, packet_over_wire,
}
use computer_network_course.GoBackN.HostA.{HostA, total_packets, can_send, advance, next_packet}
use computer_network_course.GoBackN.HostA.Window.{lt-can_send, send_step_more}
use computer_network_course.GoBackN.HostA.Segments.{segments, segments_cover}
use computer_network_course.GoBackN.System.{
  System, Step, Move, Reach, here, next, step, a_sends, Run, done, begin, post,
}
use computer_network_course.GoBackN.Router.{router}
use computer_network_course.GoBackN.System.Window.{InWindow, Reach-InWindow}
use computer_network_course.GoBackN.System.Loss.{loss_deadlock}
use computer_network_course.GoBackN.System.Complete.{lossless_transfer, lossless_transfer_exists}

abbrev blank : Bytes
blank = replicate 1536 0

length-blank : length blank ≡ buffer_size
length-blank = length-replicate {0} {A = ℕ} 1536 0

abbrev sevens : Packet
sevens = record { source_id = 1; seq_num = 5; message = replicate 1536 7 }

length-sevens : length sevens.message ≡ buffer_size
length-sevens = length-replicate {0} {A = ℕ} 1536 7

-- A file of four packets.
abbrev long_file : Bytes
long_file = replicate 4609 9

long_file_total : total_packets long_file ≡ 4
unfolding total_packets
long_file_total = ground (arith, length-replicate {0} {A = ℕ} 4609 9)

abbrev behind : Bytes
behind = 1 ∷ 2 ∷ 3 ∷ 4 ∷ 5 ∷ 6 ∷ 7 ∷ 8 ∷ []

serialize_overruns_example :
    drop buffer_size (serialize_packet sevens (blank ++ behind))
    ≡ drop 1528 sevens.message ++ drop 8 behind
serialize_overruns_example = serialize_overruns sevens blank behind length-sevens length-blank

packet_over_wire_example :
    through_wire sevens blank blank
    ≡ record sevens { message = take 1528 sevens.message ++ take 8 (drop buffer_size blank) }
packet_over_wire_example =
    packet_over_wire sevens blank blank length-sevens (omega arith) (omega arith)

segments_cover_example : flatten (segments long_file 0 (total_packets long_file)) ≡ long_file
segments_cover_example = segments_cover long_file (omega (arith, length-blank))

abbrev sender : HostA
sender = record { file = long_file; message = blank; send_base = 0; next_seq_num = 0 }

one_sent : can_send sender ≡ true
one_sent = lt-can_send sender (omega (arith, long_file_total))

-- After the first packet is sent.
Reach-InWindow_example :
    InWindow
      (post router (next_packet sender) (record (begin long_file blank) { a = advance sender }))
Reach-InWindow_example = Reach-InWindow long_file blank (
    next here (
      step (
        a_sends (begin long_file blank) (advance sender) (next_packet sender)
          (send_step_more sender one_sent))))

loss_deadlock_example :
    (s : System) × Reach (begin long_file blank) s
    × (s.a.send_base ≡ 0)
    × ((t : System) → ¬ Move s t)
loss_deadlock_example = loss_deadlock long_file blank (omega (arith, long_file_total))

lossless_transfer_example :
    (0 ≤ 8 * total_packets long_file)
    × ((◌≡◌ {A = ℕ} 0 (8 * total_packets long_file)) ↔ (◌≡◌ {A = ℕ} 0 (total_packets long_file)))
    × ((◌≡◌ {A = ℕ} 0 (total_packets long_file)) ⊎ ((t : System) × Step (begin long_file blank) t))
lossless_transfer_example = lossless_transfer long_file blank length-blank done

lossless_transfer_exists_example :
    (t : System) × Run (begin long_file blank) (8 * total_packets long_file) t
    × (t.a.send_base ≡ total_packets long_file)
lossless_transfer_exists_example = lossless_transfer_exists long_file blank length-blank
