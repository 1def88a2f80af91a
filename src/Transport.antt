-- ===== src/Transport.antt =====
-- A4/Part1 and A4/Part2: a client and a server that exchange texts over a stream socket. `Packet` is
-- the text format, `Handshake` the two programs of A4/Part1, `Reliable` those of A4/Part2, `Start` how they
-- make, connect and close their sockets.
pub mod Packet
pub mod Socket
pub mod Handshake
pub mod Reliable
pub mod Start
mod Tests
