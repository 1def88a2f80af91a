-- ===== src/GoBackN/HostA/Window.antt =====
-- A4/Part3/HostA.cpp: what one run of the inner loop of `sendMessages` sends.
use computer_network_course.Prelude.{
  ℕ, zero, suc, ◌+◌, ◌-◌, ◌≤◌, ◌<◌, ◌≡◌, refl, sym, ap, ap₂, ◌∙◌, arith, inl, inr, true, false,
  List, [], ◌∷◌, map, length, take, drop, min, All, some, Bool-cases, take-append, length-append,
  length-drop,
}
use computer_network_course.GoBackN.Datagram.{Bytes, Packet, buffer_size}
use computer_network_course.GoBackN.HostA.{
  HostA, window, host_a_id, total_packets, segment, can_send, next_packet, advance, send_burst,
  send_step,
}
use computer_network_course.GoBackN.HostA.Segments.{segment_short}

-- n, n + 1, … , k numbers.
abbrev pub count_from : ℕ → ℕ → List ℕ
count_from n zero = []
count_from n (suc k) = n ∷ count_from (n + 1) k

-- The end of the window: `send_base + N`, or the number of packets.
abbrev pub limit : HostA → ℕ
limit h = min (h.send_base + window) (total_packets h.file)

pub can_send-lt : (h : HostA) → can_send h ≡ true → h.next_seq_num < limit h
unfolding can_send
can_send-lt h e = ground (arith)

pub not_can_send-le : (h : HostA) → can_send h ≡ false → limit h ≤ h.next_seq_num
unfolding can_send
not_can_send-le h e = ground (arith)

pub lt-can_send : (h : HostA) → h.next_seq_num < limit h → can_send h ≡ true
unfolding can_send
lt-can_send h e = ground (arith)

-- `send_step` by its test.
pub send_step_more : (h : HostA) → can_send h ≡ true → send_step h ≡ some (advance h, next_packet h)
unfolding send_step
send_step_more h e = ground (arith)

pub send_step_inv :
    (h h' : HostA) (p : Packet)
    → send_step h ≡ some (h', p)
    → (h.next_seq_num < limit h) × (h' ≡ advance h) × (p ≡ next_packet h)
unfolding send_step
send_step_inv h h' p e = (ground arith, ground arith, ground arith)

burst_more :
    (fuel : ℕ) (h : HostA)
    → can_send h ≡ true
    → send_burst (suc fuel) h
      ≡ ((send_burst fuel (advance h)).0, next_packet h ∷ (send_burst fuel (advance h)).1)
unfolding send_burst
burst_more fuel h e = rw (e, send_burst)

burst_done : (fuel : ℕ) (h : HostA) → can_send h ≡ false → send_burst (suc fuel) h ≡ (h, [])
unfolding send_burst
burst_done fuel h e = rw (e, send_burst)

count_from_step : (n m : ℕ) → n < m → count_from n (m - n) ≡ n ∷ count_from (n + 1) (m - (n + 1))
count_from_step n m h = ap (count_from n) {x = m - n} {y = suc (m - (n + 1))} (omega arith)

count_from_none : (n m : ℕ) → m ≤ n → count_from n (m - n) ≡ []
count_from_none n m h = ap (count_from n) {x = m - n} {y = 0} (omega arith)

next_packet_seq : (h : HostA) → (next_packet h).seq_num ≡ h.next_seq_num
unfolding next_packet
next_packet_seq h = refl

pub advance_fields :
    (h : HostA)
    → ((advance h).next_seq_num ≡ h.next_seq_num + 1)
      × ((advance h).send_base ≡ h.send_base)
      × ((advance h).file ≡ h.file)
      × ((advance h).message ≡ (next_packet h).message)
unfolding advance
advance_fields h = (refl, refl, refl, refl)

-- From a state within the window, the inner loop sends exactly the packets up to the end of the
-- window, each once and in order, and stops there with the base and the file as they were; fuel above
-- the number of free places is enough.
pub send_burst_fills :
    (fuel : ℕ) (h : HostA)
    → h.next_seq_num ≤ limit h
    → limit h < h.next_seq_num + fuel
    → let r = send_burst fuel h in
      (map (λ p. p.seq_num) r.1 ≡ count_from h.next_seq_num (limit h - h.next_seq_num))
      × (r.0.next_seq_num ≡ limit h)
      × (r.0.send_base ≡ h.send_base)
      × (can_send r.0 ≡ false)
send_burst_fills zero h w f = absurd (omega arith)
send_burst_fills (suc fuel) h w f = elim (Bool-cases (can_send h)) [
  | inl more ↦
      let (next, base, file, _) = advance_fields h in
      let room : h.next_seq_num < limit h = can_send-lt h more in
      let same : limit (advance h) ≡ limit h = rw (base, file) in
      let (seqs, last, kept, stopped) =
        send_burst_fills fuel (advance h) (omega arith) (omega arith) in
      rw (burst_more fuel h more) (
        ap₂ ◌∷◌ (next_packet_seq h) (seqs ∙ ap₂ (λ n m. count_from n (m - n)) next same)
            ∙ sym (count_from_step h.next_seq_num (limit h) room),
        last ∙ same,
        kept ∙ base,
        stopped,
      )
  | inr done ↦
      let full : limit h ≤ h.next_seq_num = not_can_send-le h done in
      rw (burst_done fuel h done)
        (sym (count_from_none h.next_seq_num (limit h) full), omega arith, refl, done)
]

-- A packet of the host: its id, a full array, and the file's segment of its number at the front.
pub record Carries (file : Bytes) (p : Packet) : Type 0 where
  pub own : p.source_id ≡ host_a_id
  pub full : length p.message ≡ buffer_size
  pub content : take (length (segment file p.seq_num)) p.message ≡ segment file p.seq_num

pub next_packet-Carries :
    (h : HostA) → length h.message ≡ buffer_size → Carries h.file (next_packet h)
unfolding next_packet
next_packet-Carries h e =
    let bytes = segment h.file h.next_seq_num in
    let fits = segment_short h.file h.next_seq_num in
    record {
      own = refl;
      full = omega (
        arith,
        length-append bytes (drop (length bytes) h.message),
        length-drop (length bytes) h.message,
      );
      content = take-append (length bytes) bytes (drop (length bytes) h.message) refl;
    }

-- Every packet that the inner loop sends has the id of the host, a message of 1536 bytes, and at the
-- front of it the segment of the file that its sequence number names.
pub send_burst-Carries :
    (fuel : ℕ) (h : HostA)
    → length h.message ≡ buffer_size
    → All (Carries h.file) (send_burst fuel h).1
unfolding advance
send_burst-Carries zero h e = unfold send_burst in tt
send_burst-Carries (suc fuel) h e = elim (Bool-cases (can_send h)) [
  | inl more ↦
      let (_, _, file, message) = advance_fields h in
      let made : Carries h.file (next_packet h) = next_packet-Carries h e in
      let rest : All (Carries (advance h).file) (send_burst fuel (advance h)).1 =
        send_burst-Carries fuel (advance h) (ap length message ∙ made.full) in
      rw (burst_more fuel h more) (made, rw file at rest)
  | inr done ↦ rw (burst_done fuel h done) tt
]
