-- ===== src/Transport/Reliable/Exchange/Losses.antt =====
-- A4/Part2/Client.cpp and Server.cpp: the whole of `send_data` against a server that loses the packets 10
-- and 23 once each.
use computer_network_course.Prelude.{
  ℕ, zero, suc, ◌+◌, ◌-◌, ◌≤◌, ◌<◌, ◌≡◌, ◌≢◌, inl, inr, refl, ap, ◌∙◌, arith, true, false, List, [],
  ◌∷◌, append-nil, map, length,
}
use computer_network_course.Prelude.Int.{pos, ◌+ℤ◌, ◌==ℤ◌}
use computer_network_course.Transport.Packet.{Bytes}
use computer_network_course.Transport.Socket.{uncaught, Outcome}
use computer_network_course.Transport.Reliable.Server.{Server, accept, serve, max_rounds, sends}
use computer_network_course.Transport.Reliable.Server.Order.{serve_nothing}
use computer_network_course.Transport.Reliable.Client.{
  Client, received, send_data, send_loop, done, End, prepend,
}
use computer_network_course.Transport.Reliable.Client.InOrder.{loop_end}
use computer_network_course.Transport.Reliable.Exchange.{
  Exchange, prepend_all, sends_all, join_rounds,
}
use computer_network_course.Transport.Reliable.Exchange.Steps.{
  At, served, taken_round, taken_rounds, lost_rounds,
}

prepend_all_end : (ms : List Bytes) (c : Client) (e : End) → prepend_all ms ([], c, e) ≡ (ms, c, e)
unfolding prepend
prepend_all_end [] c e = refl
prepend_all_end (m ∷ ms) c e = ap (prepend m) (prepend_all_end ms c e)

sends_all_end : (ms : List Bytes) (s : Server) (o : Outcome) → sends_all ms ([], s, o) ≡ (ms, s, o)
unfolding sends
sends_all_end [] s o = refl
sends_all_end (m ∷ ms) s o = ap (sends m) (sends_all_end ms s o)

-- Rounds up to the end of the client's loop are a whole conversation; the server then finds the client
-- gone.
conversation :
    (k m j' : ℕ) (c c' : Client) (s s' : Server)
    → k + suc m ≡ max_rounds
    → 41 ≤ j'
    → (x : Exchange k 1 c s j' c' s')
    → (send_loop (pos 1) c (map received x.replies) ≡ (x.messages, c', done))
      × (serve max_rounds s x.messages ≡ (x.replies, s', uncaught))
conversation k m j' c c' s s' e over x = (
  rw
      (
        append-nil (map received x.replies),
        loop_end (pos j') c' (ground arith),
        prepend_all_end x.messages c' done,
      )
      at (x.client_side []),
  rw (append-nil x.messages, e, serve_nothing m s', sends_all_end x.replies s' uncaught) at
      (x.server_side (suc m) []),
)

loses_10 : accept (served 9 true true) (pos 10) ≡ served 9 false true
unfolding accept ◌==ℤ◌ ◌+ℤ◌
loses_10 = refl

loses_23 : accept (served 22 false true) (pos 23) ≡ served 22 false false
unfolding accept ◌==ℤ◌ ◌+ℤ◌
loses_23 = refl

-- From the first message to the counter behind the loop.
all_rounds :
    (a : ℕ) (c : Client)
    → suc a < 10
    → c.packet_id ≡ pos (suc a)
    → c.last_ack_id ≢ pos (suc a)
    → c.loss ≡ pos 0
    → (c' : Client) × Exchange (45 - a) 1 c (served a true true) 41 c' (served 39 false false)
      × At 39 0 c'
all_rounds a c small known unseen lost =
    let (c1, first, at1) =
      taken_round 1 a 0 true true c (omega arith) (omega arith) (inl (omega arith))
        (inl (omega arith)) known unseen lost in
    let (c2, to_ten, at2) =
      taken_rounds (8 - a) 2 (suc a) 0 (10 - a) 9 0 true true c1 (omega arith) (omega arith)
        (omega arith) (omega arith) (omega arith) (inl (omega arith)) (inl (omega arith)) at1 in
    let (c3, ten, at3) =
      lost_rounds (10 - a) 9 true true false true c2 (omega arith) (omega arith) loses_10 at2 in
    let (c4, to_next, at4) =
      taken_rounds 13 11 9 3 24 22 0 false true c3 refl refl refl (omega arith) (omega arith)
        (inr (inr refl)) (inl (omega arith)) at3 in
    let (c5, next, at5) =
      lost_rounds 24 22 false true false false c4 (omega arith) (omega arith) loses_23 at4 in
    let (c6, to_end, at6) =
      taken_rounds 17 24 22 3 41 39 0 false false c5 refl refl refl (omega arith) (omega arith)
        (inr (inr refl)) (inr (inr refl)) at5 in
    (
      c6,
      join_rounds first
          (join_rounds to_ten
            (join_rounds ten (join_rounds to_next (join_rounds next to_end refl) refl) refl) refl)
          (omega arith),
      at6,
    )

-- The bug: the recovery sets the counter of messages to the id of a packet. A client whose next packet
-- is n, below 10, against a server that has all before it and loses 10 and 23 once each, where every
-- `recv` returns one text of the other side: the loop ends after 46 - n messages, with 39 the last packet
-- that was taken and acknowledged and 40 the next one, whatever n is; forty messages would reach up to
-- n + 39. Then the server, which waits for more, ends by an exception.
pub loop_ends_early :
    (n : ℕ) (c : Client)
    → 1 ≤ n
    → n < 10
    → c.packet_id ≡ pos n
    → c.last_ack_id ≢ pos n
    → (messages : List Bytes) × (replies : List Bytes) × (c' : Client) × (send_data c
          (map received replies)
        ≡ (messages, c', done))
      × (serve max_rounds (served (n - 1) true true) messages
          ≡ (replies, served 39 false false, uncaught))
      × (length messages + n ≡ 46)
      × (c'.packet_id ≡ pos 40)
      × (c'.last_ack_id ≡ pos 39)
unfolding send_data
loop_ends_early zero c low small known unseen = absurd (omega arith)
loop_ends_early (suc a) c low small known unseen =
    let (c', x, at) = all_rounds a (record c { loss = pos 0 }) small known unseen refl in
    let (client, server) =
      conversation (45 - a) (55 + a) 41 (record c { loss = pos 0 }) c' (served a true true)
        (served 39 false false) (omega arith) (omega arith) x in
    let before : suc a - 1 ≡ a = omega arith in
    (
      x.messages,
      x.replies,
      c',
      client,
      ap (λ k. serve max_rounds (served k true true) x.messages) before ∙ server,
      omega (arith, x.count),
      at.next,
      at.acked,
    )
