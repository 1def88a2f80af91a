-- ===== src/Transport/Reliable/Server/Clients.antt =====
-- A4/Part2/Server.cpp: the threads of `start` and the field that they share, with Server.hpp. The lock
-- is taken behind the first `recv` and kept to the end: the clients are served one after the other, in
-- the order in which their threads get it.
use mathlib.Core.Bool.{false≢true}
use computer_network_course.Prelude.Text.{same_text, same_text_iff}
use computer_network_course.Prelude.{
  Bool, false, if◌then◌else◌, replicate, map, ap₂, Option, true, ℕ, zero, suc, ◌≤◌, ◌<◌, ◌≡◌, ◌≢◌,
  ◌⊎◌, inl, inr, refl, arith, List, [], ◌∷◌, ◌++◌, none, some, length, All, drop, ap, subst,
  Bool-cases, Option-cases, sym, ◌∙◌,
}
use computer_network_course.Prelude.Int.{ℤ, pos, ◌+ℤ◌, ==ℤ_iff}
use computer_network_course.Transport.Packet.{
  Bytes, Packet, decode, syn, syn_ack, ack, default_message,
}
use computer_network_course.Transport.Reliable.Server.Order.{
  serve_message, serve_zero, sends_parts, serve_other, serve_undecoded, serve_nothing,
}
use computer_network_course.Transport.Packet.RoundTrip.{decode_empty}
use computer_network_course.Transport.Socket.{Outcome, finished, uncaught, recv}
use computer_network_course.Transport.Reliable.Server.{
  Server, accept, serve, reply, sends, first, second, max_rounds, handle_client,
}

-- `lastPacketId` of a new server.
abbrev pub first_last : ℤ
first_last = pos 1

-- An exception that leaves the thread ends the whole program, with the clients that still wait.
unfoldable pub joined :
    List Bytes → Outcome → List (List Bytes) × Outcome → List (List Bytes) × Outcome
joined sent finished others = (sent ∷ others.0, others.1)
joined sent uncaught others = (sent ∷ [], uncaught)

-- What was sent to each client that was served, and the end, by `lastPacketId`.
unfoldable pub serve_clients : ℤ → List (List Bytes) → List (List Bytes) × Outcome
unfolding joined
serve_clients last [] = ([], finished)
serve_clients last (buffers ∷ clients) =
    let served = handle_client last buffers in
    joined served.0 served.2 (serve_clients served.1.last_packet_id clients)

-- No id but the next one is taken.
accept_stale : (s : Server) (id : ℤ) → id ≢ s.last_packet_id +ℤ pos 1 → accept s id ≡ s
unfolding accept
accept_stale s id ne = ground (arith, ==ℤ_iff (s.last_packet_id +ℤ pos 1) id)

-- A buffer that holds no packet with the next id.
abbrev pub Passed : ℤ → Option Packet → Type 0
Passed last none = Unit
Passed last (some p) = p.id ≢ last +ℤ pos 1

abbrev pub has_text : Bytes → Option Packet → Bool
has_text m none = false
has_text m (some p) = same_text p.text m

abbrev pub count_message : Option Packet → ℕ → ℕ
count_message none n = 0
count_message (some p) n = if same_text p.text default_message then suc n else n

-- The messages that so many rounds find, up to a text that is no packet.
abbrev pub messages_in : ℕ → List Bytes → ℕ
messages_in zero buffers = 0
messages_in (suc n) [] = 0
messages_in (suc n) (b ∷ bs) = count_message (decode b) (messages_in n bs)

-- What a client gets none of whose packets is taken: an answer to SYN, and behind ACK one
-- acknowledgement for each message, all of the same id.
abbrev pub repeats : ℤ → List Bytes → List Bytes
repeats last [] = []
repeats last (c ∷ bs) =
    if has_text ack (decode c) then replicate (messages_in max_rounds bs) (reply last ack) else []

abbrev pub ignored : ℤ → List Bytes → List Bytes
ignored last [] = []
ignored last (b ∷ bs) =
    if has_text syn (decode b) then reply (pos 0) syn_ack ∷ repeats last bs else []

module _ (s : Server) where
  text : Bytes
  text = reply s.last_packet_id ack

  serve_stale :
      (n : ℕ) (buffers : List Bytes)
      → All (λ b. Passed s.last_packet_id (decode b)) buffers
      → ((serve n s buffers).1 ≡ s)
        × ((serve n s buffers).0 ≡ replicate (messages_in n buffers) text)
  unfolding text
  serve_stale zero buffers a = rw (serve_zero s buffers) (refl, refl)
  serve_stale (suc n) [] a = rw (serve_nothing n s) (refl, refl)
  serve_stale (suc n) (b ∷ bs) a = elim (Option-cases (decode b)) [
    | inl e ↦ rw (serve_undecoded n s b bs e, e) (refl, refl)
    | inr (p, e) ↦
        let (kept, same) = serve_stale n bs a.1 in
        let stays = accept_stale s p.id (subst (Passed s.last_packet_id) e a.0) in
        elim (Bool-cases (same_text p.text default_message)) [
          | inl t ↦
              rw
                (
                  serve_message n s b bs p e ((same_text_iff p.text default_message).0 t),
                  sends_parts,
                  stays,
                  e,
                  t,
                )
                (kept, ap (λ r. text ∷ r) same)
          | inr f ↦
              rw
                (
                  serve_other n s b bs p e
                      (λ z. false≢true (sym f ∙ (same_text_iff p.text default_message).1 z)),
                  e,
                  f,
                )
                (kept, same)
        ]
  ]

  second_stale :
      (o : Option Packet) (buffers : List Bytes)
      → All (λ b. Passed s.last_packet_id (decode b)) buffers
      → ((second s o buffers).1 ≡ s)
        × ((second s o buffers).0
            ≡ (if has_text ack o then replicate (messages_in max_rounds buffers) text else []))
  unfolding second text
  second_stale none buffers a = (refl, refl)
  second_stale (some p) buffers a = elim (Bool-cases (same_text p.text ack)) [
    | inl t ↦ rw t (serve_stale max_rounds buffers a)
    | inr f ↦ rw f (refl, refl)
  ]

module _ (last : ℤ) where
  server : Server
  server = record { last_packet_id = last; flag7 = true; flag8 = true }

  second_ignored :
      (buffers : List Bytes)
      → All (λ b. Passed last (decode b)) (drop 1 buffers)
      → let r = second server (decode (recv buffers).0) (recv buffers).1 in
        (r.1 ≡ server) × (r.0 ≡ repeats last buffers)
  unfolding recv server text second
  second_ignored [] a = rw decode_empty (refl, refl)
  second_ignored (c ∷ bs) a = second_stale server (decode c) bs a

  first_stale :
      (o : Option Packet) (buffers : List Bytes)
      → All (λ b. Passed last (decode b)) (drop 1 buffers)
      → ((first server o buffers).1.last_packet_id ≡ last)
        × ((first server o buffers).0
            ≡ (if has_text syn o then reply (pos 0) syn_ack ∷ repeats last buffers else []))
  unfolding first sends server
  first_stale none buffers a = (refl, refl)
  first_stale (some p) buffers a =
      let (kept, same) = second_ignored buffers a in
      elim (Bool-cases (same_text p.text syn)) [
        | inl t ↦ rw t (ap Server.last_packet_id kept, ap (λ r. reply (pos 0) syn_ack ∷ r) same)
        | inr f ↦ rw f (refl, refl)
      ]

  -- The first two packets are not counted.
  handle_stale :
      (buffers : List Bytes)
      → All (λ b. Passed last (decode b)) (drop 2 buffers)
      → ((handle_client last buffers).1.last_packet_id ≡ last)
        × ((handle_client last buffers).0 ≡ ignored last buffers)
  unfolding handle_client server recv first
  handle_stale [] a = rw decode_empty (refl, refl)
  handle_stale (b ∷ []) a = first_stale (decode b) [] tt
  handle_stale (b ∷ c ∷ bs) a = first_stale (decode b) (c ∷ bs) a

-- All clients were served, or those up to one that ended the server.
abbrev pub AllIgnored : ℤ → List (List Bytes) → List (List Bytes) × Outcome → Type 0
AllIgnored last clients (sent, end) =
    ((end ≡ finished) × (sent ≡ map (ignored last) clients))
    ⊎ ((end ≡ uncaught)
        × ((before : List (List Bytes)) × (c : List Bytes) × (after : List (List Bytes)) × (clients
              ≡ before ++ c ∷ after)
            × (sent ≡ map (ignored last) (before ++ c ∷ []))))

joined-AllIgnored :
    (last : ℤ) (end : Outcome) (sent buffers : List Bytes) (clients : List (List Bytes))
    (others : List (List Bytes) × Outcome)
    → sent ≡ ignored last buffers
    → AllIgnored last clients others
    → AllIgnored last (buffers ∷ clients) (joined sent end others)
unfolding joined
joined-AllIgnored last uncaught sent buffers clients others e h =
    inr (refl, ([], buffers, clients, refl, ap (λ m. m ∷ []) e))
joined-AllIgnored last finished sent buffers clients others e (inl (end, same)) =
    inl (end, ap₂ (λ m r. m ∷ r) e same)
joined-AllIgnored last finished sent buffers clients others e
      (inr (end, (before, c, after, split, same))) =
    inr (end, (buffers ∷ before, c, after, ap (λ r. buffers ∷ r) split, ap₂ (λ m r. m ∷ r) e same))

joined_stops :
    (end : Outcome) (sent : List Bytes) (others : List (List Bytes) × Outcome) (n : ℕ)
    → others.1 ≡ uncaught
    → length others.0 ≤ n
    → ((joined sent end others).1 ≡ uncaught) × (length (joined sent end others).0 ≤ suc n)
unfolding joined
joined_stops finished sent others n e l = (e, omega arith)
joined_stops uncaught sent others n e l = (refl, omega arith)

-- The loop waits for its rounds, and an empty buffer is no packet.
serve_uncaught :
    (n : ℕ) (s : Server) (buffers : List Bytes)
    → length buffers < n
    → (serve n s buffers).2 ≡ uncaught
serve_uncaught zero s buffers l = absurd (omega arith)
serve_uncaught (suc n) s [] l = rw (serve_nothing n s) refl
serve_uncaught (suc n) s (b ∷ bs) l = elim (Option-cases (decode b)) [
  | inl e ↦ rw (serve_undecoded n s b bs e) refl
  | inr (p, e) ↦ elim (Bool-cases (same_text p.text default_message)) [
    | inl t ↦
        rw (serve_message n s b bs p e ((same_text_iff p.text default_message).0 t), sends_parts)
          (serve_uncaught n (accept s p.id) bs (omega arith))
    | inr f ↦
        rw
          (serve_other n s b bs p e
            (λ z. false≢true (sym f ∙ (same_text_iff p.text default_message).1 z)))
          (serve_uncaught n s bs (omega arith))
  ]
]

handle_uncaught :
    (last : ℤ) (b c : Bytes) (messages : List Bytes) (p p' : Packet)
    → decode b ≡ some p
    → p.text ≡ syn
    → decode c ≡ some p'
    → p'.text ≡ ack
    → length messages < max_rounds
    → (handle_client last (b ∷ c ∷ messages)).2 ≡ uncaught
unfolding handle_client first second recv sends
handle_uncaught last b c messages p p' e t e' t' l =
    rw (e, e', (same_text_iff p.text syn).1 t, (same_text_iff p'.text ack).1 t')
      (serve_uncaught max_rounds (record { last_packet_id = last; flag7 = true; flag8 = true })
        messages l)

-- `lastPacketId` is not set back: if no client sends, behind its first two packets, one whose id is
-- the next of `lastPacketId`, then of every client that is served SYN is answered by SYN_ACK, each of
-- its messages behind ACK by the acknowledgement of that one id, and nothing else; and all clients are
-- served, or those up to one whose thread ends the server.
pub later_clients_ignored :
    (last : ℤ) (clients : List (List Bytes))
    → All (λ buffers. All (λ b. Passed last (decode b)) (drop 2 buffers)) clients
    → AllIgnored last clients (serve_clients last clients)
unfolding serve_clients
later_clients_ignored last [] a = inl (refl, refl)
later_clients_ignored last (buffers ∷ clients) a =
    let (kept, same) = handle_stale last buffers a.0 in
    joined-AllIgnored last (handle_client last buffers).2 (handle_client last buffers).0 buffers
      clients _ same (rw kept (later_clients_ignored last clients a.1))

-- A client that has shaken hands and is gone before it sent 101 messages ends the server, by an
-- exception in the loop: the clients that get the lock behind it are not served.
pub short_client_stops :
    (last : ℤ) (before after : List (List Bytes)) (b c : Bytes) (messages : List Bytes)
    (p p' : Packet)
    → decode b ≡ some p
    → p.text ≡ syn
    → decode c ≡ some p'
    → p'.text ≡ ack
    → length messages < max_rounds
    → let (sent, end) = serve_clients last (before ++ (b ∷ c ∷ messages) ∷ after) in
      (end ≡ uncaught) × (length sent ≤ suc (length before))
unfolding serve_clients joined
short_client_stops last [] after b c messages p p' e t e' t' l =
    rw (handle_uncaught last b c messages p p' e t e' t' l) (refl, omega arith)
short_client_stops last (d ∷ before) after b c messages p p' e t e' t' l =
    let served = handle_client last d in
    let (end, few) =
      short_client_stops served.1.last_packet_id before after b c messages p p' e t e' t' l in
    joined_stops served.2 served.0 _ (suc (length before)) end few
