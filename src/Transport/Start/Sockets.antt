-- ===== src/Transport/Start/Sockets.antt =====
-- A4/Part1 and A4/Part2: what becomes of the sockets, and the three clients of A4/Part1/main.cpp.
use computer_network_course.Prelude.{
  ℕ, suc, ◌+◌, ◌<◌, ◌≤◌, ◌^◌, ◌≡◌, ◌≢◌, refl, ap, ap₂, append-nil, ◌∙◌, arith, true, false, List,
  [], ◌∷◌, ◌++◌, length, All, map,
}
use native.Mathlib.Numerals.{add-one, unary_clauses}
use computer_network_course.Prelude.Int.{ℤ, pos, ◌+ℤ◌, negsuc, ==ℤ_iff, pos_suc}
use computer_network_course.Transport.Packet.{Bytes, syn, syn_ack, ack, default_message}
use computer_network_course.Transport.Socket.{finished, Trace}
use computer_network_course.Transport.Handshake.{handle_client, client, server_text, client_text}
use computer_network_course.Transport.Handshake.Session.{handshake_session}
use computer_network_course.Transport.Start.{
  Call, Ran, Peer, socket, bind, connect, close, listen, open_client, open_all, start_client,
  start_all, run_clients, go_on, close_after,
}

-- The descriptors that the calls close.
abbrev pub closed : List Call → List ℤ
closed [] = []
closed (close fd ∷ calls) = fd ∷ closed calls
closed (_ ∷ calls) = closed calls

closed-append : (xs ys : List Call) → closed (xs ++ ys) ≡ closed xs ++ closed ys
closed-append [] ys = refl
closed-append (close fd ∷ xs) ys = ap (λ r. fd ∷ r) (closed-append xs ys)
closed-append (socket ∷ xs) ys = closed-append xs ys
closed-append (bind fd ∷ xs) ys = closed-append xs ys
closed-append (connect fd ∷ xs) ys = closed-append xs ys
closed-append (listen fd n ∷ xs) ys = closed-append xs ys

-- A conversation that ends is closed behind its texts.
go_on_connected :
    (fd connected : ℤ) (sent : List Bytes) (rest : Ran)
    → connected ≢ negsuc 0
    → go_on (start_client fd connected (sent, finished)) rest
      ≡ (connect fd ∷ close fd ∷ rest.0, sent ∷ rest.1, rest.2)
unfolding start_client go_on close_after
go_on_connected fd connected sent rest ne = ground (arith, ==ℤ_iff connected (negsuc 0))

go_on_refused :
    (fd connected : ℤ) (conversation : Trace) (rest : Ran)
    → connected ≡ negsuc 0
    → go_on (start_client fd connected conversation) rest ≡ (connect fd ∷ close fd ∷ [], [], false)
unfolding start_client go_on
go_on_refused fd connected conversation rest e = ground (arith, ==ℤ_iff connected (negsuc 0))

open_all_up :
    (peers : List Peer)
    → All (λ p. p.descriptor ≢ negsuc 0) peers
    → ((open_all peers).1 ≡ true) × (closed (open_all peers).0 ≡ [])
unfolding open_all open_client
open_all_up [] a = (refl, refl)
open_all_up (p ∷ peers) a =
    let (up, kept) = open_all_up peers a.1 in
    ground (arith, ==ℤ_iff p.descriptor (negsuc 0), up, kept, a.0)

-- What the server sends to a client, and n clients from the number k on to it.
abbrev pub replies : List Bytes
replies = server_text syn_ack ∷ server_text default_message ∷ []

abbrev pub conversation : ℕ → List Bytes
conversation k =
    client_text (pos k) syn ∷ client_text (pos k) ack ∷ client_text (pos k) default_message ∷ []

abbrev pub conversations : ℕ → List Peer → List (List Bytes)
conversations k [] = []
conversations k (p ∷ peers) = conversation k ∷ conversations (suc k) peers

conversations_answered :
    (k : ℕ) (peers : List Peer)
    → k + length peers ≤ 2 ^ 31
    → All (λ sent. handle_client sent ≡ (replies, finished)) (conversations k peers)
conversations_answered k [] l = tt
conversations_answered k (p ∷ peers) l = (
  (handshake_session (pos k) (omega arith)).1,
  conversations_answered (suc k) peers (omega arith),
)

-- A client that connects and receives what the server sends it.
abbrev pub IsServed : Peer → Type 0
IsServed p = (p.connected ≢ negsuc 0) × (p.buffers ≡ replies)

suc_add : (k n : ℕ) → suc k + n ≡ k + suc n
suc_add k n = omega arith

-- Clients that are served, with others behind them.
start_all_behind :
    (k : ℕ) (before after : List Peer)
    → k + length before ≤ 2 ^ 31
    → All IsServed before
    → let (calls, sent, ended) = start_all (pos k) (before ++ after) in
      let rest = start_all (pos (k + length before)) after in
      (sent ≡ conversations k before ++ rest.1)
      × (ended ≡ rest.2)
      × (closed calls ≡ map (λ p. p.descriptor) before ++ closed rest.0)
unfolding start_all
start_all_behind k [] after l a = simp unary_clauses (refl, refl, refl)
start_all_behind k (p ∷ before) after l a =
    let (sent, ended, shut) =
      rw (suc_add k (length before)) at (start_all_behind (suc k) before after (omega arith) a.1) in
    rw
      (
        pos_suc k,
        add-one k,
        a.0.1,
        (handshake_session (pos k) (omega arith)).0,
        go_on_connected p.descriptor p.connected _ (start_all (pos (suc k)) (before ++ after))
            a.0.0,
      )
      (ap (λ r. conversation k ∷ r) sent, ended, ap (λ r. p.descriptor ∷ r) shut)

-- Whatever the number of clients is: if every socket comes up and connects, and each client receives
-- what the server sends it, one message per `recv`, the program runs to its end, the clients numbered
-- from 1 on have sent SYN, ACK and `Hello` in turn, each to its own connection, every descriptor is
-- closed once and in order, and the server answers each of the conversations with what was received.
pub clients_served :
    (peers : List Peer)
    → length peers < 2 ^ 31
    → All (λ p. p.descriptor ≢ negsuc 0) peers
    → All IsServed peers
    → let (calls, sent, ended) = run_clients peers in
      (sent ≡ conversations 1 peers)
      × (ended ≡ true)
      × (closed calls ≡ map (λ p. p.descriptor) peers)
      × All (λ texts. handle_client texts ≡ (replies, finished)) sent
unfolding run_clients start_all
clients_served peers l up a =
    let (all_up, none_closed) = open_all_up peers up in
    let (sent, ended, shut) =
      rw
        (
          append-nil peers,
          append-nil (conversations 1 peers),
          append-nil (map (λ p. p.descriptor) peers),
        )
        at (start_all_behind 1 peers [] (omega arith) a) in
    rw (all_up, sent)
      (
        refl,
        ended,
        closed-append (open_all peers).0 (start_all (pos 1) peers).0
            ∙ ap₂ (λ x y. x ++ y) none_closed shut,
        conversations_answered 1 peers (omega arith),
      )

-- If every socket comes up and the clients before one whose `connect` fails are served, the program ends
-- at that client: those before it have sent their texts, no later one sends anything, and of all the
-- descriptors those up to it are closed, once each and in order.
pub refused_client_stops :
    (before after : List Peer) (p : Peer)
    → length before < 2 ^ 31
    → All (λ p. p.descriptor ≢ negsuc 0) (before ++ p ∷ after)
    → All IsServed before
    → p.connected ≡ negsuc 0
    → let (calls, sent, ended) = run_clients (before ++ p ∷ after) in
      (sent ≡ conversations 1 before)
      × (ended ≡ false)
      × (closed calls ≡ map (λ p. p.descriptor) before ++ p.descriptor ∷ [])
unfolding run_clients start_all
refused_client_stops before after p l up a refused =
    let (all_up, none_closed) = open_all_up (before ++ p ∷ after) up in
    let (sent, ended, shut) =
      rw
        (
          go_on_refused p.descriptor p.connected (client (pos (1 + length before)) p.buffers)
              (start_all (pos (1 + length before) +ℤ pos 1) after) refused,
          append-nil (conversations 1 before),
        )
        at (start_all_behind 1 before (p ∷ after) (omega arith) a) in
    rw (all_up, sent)
      (
        refl,
        ended,
        closed-append (open_all (before ++ p ∷ after)).0 (start_all (pos 1) (before ++ p ∷ after)).0
            ∙ ap₂ (λ x y. x ++ y) none_closed shut,
      )
