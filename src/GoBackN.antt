-- ===== src/GoBackN.antt =====
-- A4/Part3: a file transfer from HostA.cpp over Router.cpp to HostB.cpp, in datagrams. The children
-- model the datagrams, the three programs, and the system of the three over a network.
pub mod Datagram
pub mod HostA
pub mod Router
pub mod HostB
pub mod System
mod Tests
