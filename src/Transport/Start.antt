-- ===== src/Transport/Start.antt =====
-- A4/Part1 and A4/Part2, main.cpp and the parts of Server.cpp and Client.cpp that make the sockets. What
-- a system call returns comes from outside; a program is the calls that it makes.
pub mod Sockets
use computer_network_course.Prelude.{
  ℕ, Bool, true, false, List, [], ◌∷◌, ◌++◌, Option, none, some, ◌==◌, if◌then◌else◌,
}
use computer_network_course.Prelude.Int.{ℤ, pos, ◌+ℤ◌, negsuc, ◌==ℤ◌}
use computer_network_course.Transport.Packet.{Bytes}
use computer_network_course.Transport.Handshake.{client}
use computer_network_course.Transport.Socket.{Outcome, finished, uncaught, Trace}

pub data Call : Type 0 where
  socket : Call
  bind connect close : ℤ → Call
  listen : ℤ → ℕ → Call

-- What was called, and the descriptor that a constructor leaves; `none` is `exit(EXIT_FAILURE)`.
abbrev pub Opened : Type 0
Opened = List Call × Option ℤ

-- A result of -1.
abbrev pub failed : ℤ → Bool
failed r = r ==ℤ negsuc 0

-- `Server::Server`, by the results of its three calls.
unfoldable pub open_server : ℤ → ℤ → ℤ → Opened
open_server fd bound listening =
    if failed fd
    then (socket ∷ [], none)
    else if failed bound
    then (socket ∷ bind fd ∷ close fd ∷ [], none)
    else if failed listening
    then (socket ∷ bind fd ∷ listen fd 5 ∷ close fd ∷ [], none)
    else (socket ∷ bind fd ∷ listen fd 5 ∷ [], some fd)

-- `Client::Client`.
unfoldable pub open_client : ℤ → Opened
open_client fd = if failed fd then (socket ∷ [], none) else (socket ∷ [], some fd)

-- `close` behind the conversation, which an exception does not reach.
close_after : ℤ → Outcome → List Call
close_after fd finished = close fd ∷ []
close_after fd uncaught = []

-- `Client::start`, by the result of `connect` and the conversation that follows it; `none` is an exit.
unfoldable pub start_client : ℤ → ℤ → Trace → List Call × Option Trace
unfolding close_after
start_client fd connected conversation =
    if failed connected
    then (connect fd ∷ close fd ∷ [], none)
    else (connect fd ∷ close_after fd conversation.1, some conversation)

-- What a client of A4/Part1 meets: its descriptor, the result of `connect`, and what `recv` leaves.
pub record Peer : Type 0 where
  pub descriptor : ℤ
  pub connected : ℤ
  pub buffers : List Bytes

-- What was called, what each client that was started has sent, and whether the program ran to its end.
abbrev pub Ran : Type 0
Ran = List Call × List (List Bytes) × Bool

-- The constructors of the clients: whether all came up.
unfoldable pub open_all : List Peer → List Call × Bool
open_all [] = ([], true)
open_all (p ∷ peers) =
    let rest = open_all peers in
    elim (open_client p.descriptor).1 [
      | none ↦ ((open_client p.descriptor).0, false)
      | some fd ↦ ((open_client p.descriptor).0 ++ rest.0, rest.1)
    ]

-- The call behind a client: an exit or an exception ends the program.
unfoldable pub go_on : List Call × Option Trace → Ran → Ran
go_on (calls, none) rest = (calls, [], false)
go_on (calls, some (sent, uncaught)) rest = (calls, sent ∷ [], false)
go_on (calls, some (sent, finished)) rest = (calls ++ rest.0, sent ∷ rest.1, rest.2)

-- The calls of `start` one after the other; the constructor took the next number of `globalId_`.
unfoldable pub start_all : ℤ → List Peer → Ran
unfolding go_on start_client
start_all id [] = ([], [], true)
start_all id (p ∷ peers) =
    go_on (start_client p.descriptor p.connected (client id p.buffers))
      (start_all (id +ℤ pos 1) peers)

unfoldable pub run_clients : List Peer → Ran
run_clients peers =
    let (calls, up) = open_all peers in
    let (more, sent, ended) = start_all (pos 1) peers in
    if up then (calls ++ more, sent, ended) else (calls, [], false)
