-- ===== src/Transport/Socket.antt =====
-- What the programs of A4/Part1 and A4/Part2 use of sockets and C strings. A socket is the list of
-- what each `recv` leaves in the zeroed buffer, as texts; where the list ends the peer is gone, and
-- the buffer stays empty.
use computer_network_course.Prelude.{List, [], ◌∷◌}
use computer_network_course.Transport.Packet.{Bytes}

-- How a run ends: by its last statement, or by an exception that nothing catches.
pub data Outcome : Type 0 where
  finished uncaught : Outcome

-- What was given to `send`, oldest first, and the end.
abbrev pub Trace : Type 0
Trace = List Bytes × Outcome

unfoldable pub sends : Bytes → Trace → Trace
sends m t = (m ∷ t.0, t.1)

-- `recv` into the zeroed buffer, and what later calls find.
unfoldable pub recv : List Bytes → Bytes × List Bytes
recv [] = ([], [])
recv (b ∷ bs) = (b, bs)
