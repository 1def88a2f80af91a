-- ===== src/Lib.antt =====
-- Three assignments of a course on computer networks, as one library: A1 is a voice call, A3 a
-- simulation of routing in two autonomous systems, and A4 three studies of transport.
--
-- Prelude: shared names, tests, lists, texts, decimals, powers and signed integers.
--
-- Congestion (A4/Part2/CongestionControl.cpp, .hpp): the class CongestionControl as a record,
-- with on_packet_acked and on_timeout for onPacketAcked and onTimeout. The float cwnd_ holds
-- non-negative integers only; Congestion.Float has the rounding of binary32 for them. A
-- conversion to uint32_t of a window of 2 ^ 32 or more is undefined in C++ and wraps here;
-- Congestion.Bounds keeps the window away from there.
--
-- GoBackN (A4/Part3/HostA.cpp, HostB.cpp, Router.cpp): Datagram has the packet, its
-- serialization into a memory of bytes and the two socket calls; HostA, Router and HostB have
-- one function for one round of each thread; System puts the three together as a step relation
-- in which the network delivers in any order and, as a Move, loses. A round is atomic: the two
-- threads of a program share its send buffer and its queue with no lock, and what happens when
-- they meet inside a round is not modelled. The send loop of HostA takes fuel; fuel above the
-- free places of the window is enough. Opening sockets, addresses, sleeping and printing are
-- left out.
--
-- Transport (A4/Part1 and A4/Part2: Packet.cpp, Constants.cpp, Client.cpp, Server.cpp): Packet
-- has the text format with getline and stoi written out, where the text of a decoded packet is
-- what the local string of decode holds at its return, and get_data is what is read behind it,
-- with the memory that was freed as a parameter; Socket what is used of sockets, Handshake the
-- programs of A4/Part1, Reliable those of A4/Part2, and Start the calls that make, connect and
-- close the sockets, with the three clients of A4/Part1/main.cpp one after the other.
-- Reliable.Server.Clients has the threads of the server of A4/Part2, which one lock keeps
-- apart: the clients come in the order in which they get it, which is an input.
-- Reliable.Exchange puts the loops of client and server together: in an Exchange each receives
-- what the other sends, one text per recv. A socket is the list of what its recv calls return,
-- so every way to cut the stream is an input. Server.serve takes the number of rounds left, 101
-- at the start as in the source; Client.send_loop makes one round for each reply, so it needs
-- no fuel, and a reply that never comes ends it as waiting. What socket, bind, listen and
-- connect return comes from outside. The loop of accept, the destructors, the choice of the
-- side in main.cpp and printing are left out.
--
-- Voice (A1): Framing has startSending of send.cpp and Start of receive.cpp, over read_until of
-- Boost.Asio, which is a parameter with its documented law; Player has audioplay.cpp with its
-- queue, the buffer in play and the timers, as a step relation; Recorder has audiorec.cpp and
-- the order in which main.cpp opens the two sockets. Recording, playing, timers and the mute
-- button are events from outside.
--
-- Routing (A3): Qt has what A3 takes of QHash as an interface, a record of operations with
-- their documented laws, which Qt.Assoc fills with association lists; Text has QString's split,
-- join, number, toInt and trimmed, which Text.Plain fills. Packet (packet.cpp) has the text of
-- a packet, and what forward and increaseTimeInBuffer of router.cpp do to it, with
-- Packet.Journey for a whole way; Records (rip.cpp, lsp.cpp) has the texts of a cost table and
-- of a record of OSPF; Ports (port.cpp) has the buffers and what a router sends through its
-- ports; Pc (pc.cpp) the PC.
--
-- Tables has the two updates of a router's cost and forwarding tables by the table of a
-- neighbour, and Tables.Ibgp has startIBGP, both over the tables alone. Router (router.cpp,
-- router.h, node.h) is the whole class: its constructor and binding, and below it Rip, Ospf,
-- Traffic and Slots, where a slot is a function of the router to a Turn: the router behind it,
-- what it sent and the signals it emitted. Network puts routers together: a turn of RIP runs to
-- its end, and what it sends lies in the other ends' buffers before the next turn, of any
-- router. Its children follow what RIP learns to what is then done with it: Downhill, Flows,
-- Posts and Hops are about the entries of the forwarding tables, Routes about the ways that
-- they make, and Forward, Idle, Delivery and Settled about a packet that goes through update at
-- one router after another once the protocols are off. The walk of OSPF is modelled at one
-- router; its way through a whole network is not. Node ids, ports and costs are never negative.
--
-- Routing.Topology (main.cpp): the nodes, the reading of a line of Topology.txt and the link
-- that it makes; Schedule has the calls that main.cpp queues at the nodes, with the random
-- numbers as parameters, and Phases the timers and signals of main as steps in any order. The
-- loops of the draws are structural, on the list of what the distribution draws. Threads, the
-- timers' periods, the console and printTable are left out.
--
-- An int that counts is a number or a ℤ; where a program could overflow it, a theorem has the
-- bound. The positions in the file that HostA stores in an int are taken as their 32 bits. A
-- router of OSPF that would send through lspReceivePort before a record has set it has no
-- result.
pub mod Prelude
pub mod Congestion
pub mod GoBackN
pub mod Transport
pub mod Routing
pub mod Voice
