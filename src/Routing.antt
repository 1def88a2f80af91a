-- ===== src/Routing.antt =====
-- A3: the simulation of routers that run RIP or OSPF in two autonomous systems. `Qt` is what the
-- program takes from its framework, `Tables` the updates of the cost and forwarding tables.
pub mod Qt
pub mod Tables
pub mod Text
pub mod Records
pub mod Packet
pub mod Ports
pub mod Pc
pub mod Topology
pub mod Router
pub mod Network
mod Tests
