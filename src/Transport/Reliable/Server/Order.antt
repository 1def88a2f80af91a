-- ===== src/Transport/Reliable/Server/Order.antt =====
-- A4/Part2/Server.cpp: the acknowledgements are cumulative and follow the order of the ids.
use mathlib.Core.Bool.{false≢true}
use native.Mathlib.Decide.{dec_le}
use computer_network_course.Prelude.Text.{same_text, same_text_iff}
use computer_network_course.Prelude.{
  All, ℕ, zero, suc, ◌+◌, ◌≡◌, ◌≢◌, ◌⊎◌, inl, inr, refl, arith, List, [], ◌∷◌, none, some,
  Bool-cases, Option-cases, sym, ◌∙◌, ap₂,
}
use computer_network_course.Prelude.Int.{
  ℤ, pos, ◌+ℤ◌, ◌≤ℤ◌, ==ℤ_iff, +ℤ_parts, eq_of_parts, pos_part, neg_part,
}
use computer_network_course.Transport.Packet.{Bytes, Packet, decode, ack, default_message}
use computer_network_course.Transport.Packet.RoundTrip.{decode_empty}
use computer_network_course.Transport.Socket.{finished, uncaught, recv}
use computer_network_course.Transport.Reliable.Server.{Server, accept, Served, serve, reply, sends}

-- A packet is taken only if it is the next one, and the two losses happen once: the next packet is
-- taken at the second time at the latest.
pub accept_next :
    (s : Server) (id : ℤ)
    → ((accept s id ≡ s) ⊎ (id ≡ s.last_packet_id +ℤ pos 1))
      × (((accept s id).last_packet_id ≡ s.last_packet_id)
          ⊎ ((accept s id).last_packet_id ≡ s.last_packet_id +ℤ pos 1))
      × ((accept (accept s (s.last_packet_id +ℤ pos 1)) (s.last_packet_id +ℤ pos 1)).last_packet_id
          ≡ s.last_packet_id +ℤ pos 1)
unfolding accept
accept_next s id =
    let next = s.last_packet_id +ℤ pos 1 in
    (
      ground (arith, ==ℤ_iff next id, ==ℤ_iff id (pos 10), ==ℤ_iff id (pos 23)),
      ground (arith, ==ℤ_iff next id, ==ℤ_iff id (pos 10), ==ℤ_iff id (pos 23)),
      ground (arith, ==ℤ_iff next next, ==ℤ_iff next (pos 10), ==ℤ_iff next (pos 23)),
    )

-- The id of one of the received messages.
abbrev pub IsReceived : ℤ → List Bytes → Type 0
IsReceived k [] = ⊥
IsReceived k (b ∷ bs) =
    (decode b ≡ some (record { id = k; text = default_message })) ⊎ IsReceived k bs

-- One round that can decode its buffer.
pub serve_message :
    (n : ℕ) (s : Server) (b : Bytes) (bs : List Bytes) (p : Packet)
    → decode b ≡ some p
    → p.text ≡ default_message
    → serve (suc n) s (b ∷ bs)
      ≡ sends (reply (accept s p.id).last_packet_id ack) (serve n (accept s p.id) bs)
unfolding serve recv
serve_message n s b bs p e t = ground (arith, e, same_text_iff p.text default_message)

pub serve_other :
    (n : ℕ) (s : Server) (b : Bytes) (bs : List Bytes) (p : Packet)
    → decode b ≡ some p
    → p.text ≢ default_message
    → serve (suc n) s (b ∷ bs) ≡ serve n s bs
unfolding serve recv
serve_other n s b bs p e t = ground (arith, e, same_text_iff p.text default_message)

pub serve_undecoded :
    (n : ℕ) (s : Server) (b : Bytes) (bs : List Bytes)
    → decode b ≡ none
    → serve (suc n) s (b ∷ bs) ≡ ([], s, uncaught)
unfolding serve recv
serve_undecoded n s b bs e = ground (arith, e)

pub serve_zero : (s : Server) (bs : List Bytes) → serve 0 s bs ≡ ([], s, finished)
unfolding serve
serve_zero s bs = refl

pub serve_nothing : (n : ℕ) (s : Server) → serve (suc n) s [] ≡ ([], s, uncaught)
unfolding serve recv
serve_nothing n s = rw (decode_empty, serve)

pub sends_parts : (m : Bytes) (r : Served) → sends m r ≡ (m ∷ r.0, r.1, r.2)
unfolding sends
sends_parts m r = refl

-- The last id passes k only by the packet k.
accept_crossed :
    (s : Server) (id k : ℤ)
    → s.last_packet_id +ℤ pos 1 ≤ℤ k
    → ¬ ((accept s id).last_packet_id +ℤ pos 1 ≤ℤ k)
    → id ≡ k
accept_crossed s id k lo below =
    let (taken, moved, _) = accept_next s id in
    ground (
      arith,
      taken,
      moved,
      +ℤ_parts s.last_packet_id (pos 1),
      +ℤ_parts (accept s id).last_packet_id (pos 1),
      eq_of_parts (s.last_packet_id +ℤ pos 1) k,
    )

-- An acknowledgement of one of the ids from which every one above a first id was received.
abbrev pub Acks : ℤ → List Bytes → Bytes → Type 0
Acks last buffers m =
    (a : ℤ) × (m ≡ reply a ack) × ((k : ℤ) → last +ℤ pos 1 ≤ℤ k → k ≤ℤ a → IsReceived k buffers)

Acks-more :
    (last last' : ℤ) (b : Bytes) (bs sent : List Bytes)
    → ((k : ℤ) → last +ℤ pos 1 ≤ℤ k → (last' +ℤ pos 1 ≤ℤ k) ⊎ IsReceived k (b ∷ bs))
    → All (Acks last' bs) sent
    → All (Acks last (b ∷ bs)) sent
Acks-more last last' b bs [] h all = tt
Acks-more last last' b bs (m ∷ sent) h ((a, e, below), all) = (
  (a, e, λ k lo hi. elim (h k lo) [ inl above ↦ inr (below k above hi) | inr got ↦ got ]),
  Acks-more last last' b bs sent h all,
)

-- A message is the packet k, or k is above the last packet behind it.
message-IsReceived :
    (s : Server) (p : Packet) (b : Bytes) (bs : List Bytes) (k : ℤ)
    → decode b ≡ some p
    → p.text ≡ default_message
    → s.last_packet_id +ℤ pos 1 ≤ℤ k
    → ((accept s p.id).last_packet_id +ℤ pos 1 ≤ℤ k) ⊎ IsReceived k (b ∷ bs)
message-IsReceived s p b bs k e text lo =
    let next = (accept s p.id).last_packet_id +ℤ pos 1 in
    elim (dec_le (pos_part next + neg_part k) (pos_part k + neg_part next)) [
      | yes above ↦ inl above
      | no below ↦ inr (
          inl (
            e
            ∙ ap₂ (λ i m. some (record { id = i; text = m })) (accept_crossed s p.id k lo below)
                text))
    ]

-- Every text that the loop sends is the acknowledgement of an id such that each id above the last one of
-- the start and up to it was received as a message before the loop ends: an acknowledgement is one of
-- all packets up to its id.
pub serve-Acks :
    (rounds : ℕ) (s : Server) (buffers : List Bytes)
    → All (Acks s.last_packet_id buffers) (serve rounds s buffers).0
serve-Acks zero s buffers = rw (serve_zero s buffers) tt
serve-Acks (suc n) s [] = rw (serve_nothing n s) tt
serve-Acks (suc n) s (b ∷ bs) = elim (Option-cases (decode b)) [
  | inl e ↦ rw (serve_undecoded n s b bs e) tt
  | inr (p, e) ↦ elim (Bool-cases (same_text p.text default_message)) [
    | inl t ↦
        let text = (same_text_iff p.text default_message).0 t in
        rw (serve_message n s b bs p e text, sends_parts)
          (
            (
              (accept s p.id).last_packet_id,
              refl,
              λ k lo hi. elim (message-IsReceived s p b bs k e text lo) [
                | inl above ↦
                    absurd (omega (arith, +ℤ_parts (accept s p.id).last_packet_id (pos 1)))
                | inr got ↦ got
              ],
            ),
            Acks-more s.last_packet_id (accept s p.id).last_packet_id b bs _
                (λ k. message-IsReceived s p b bs k e text) (serve-Acks n (accept s p.id) bs),
          )
    | inr f ↦
        rw
          (serve_other n s b bs p e
            (λ z. false≢true (sym f ∙ (same_text_iff p.text default_message).1 z)))
          (Acks-more s.last_packet_id s.last_packet_id b bs _ (λ k lo. inl lo) (serve-Acks n s bs))
  ]
]
