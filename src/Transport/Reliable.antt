-- ===== src/Transport/Reliable.antt =====
-- A4/Part2/Client.cpp and Server.cpp: forty numbered messages under congestion control, and a server
-- that acknowledges the last one in order. The handshake is that of A4/Part1.
-- `Exchange` puts the two loops together.
pub mod Server
pub mod Client
pub mod Exchange
