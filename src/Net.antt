-- ===== src/Net.antt =====
-- src/net/mn_net.c: one interface, one address, an ARP cache, four UDP sockets, and the poll that
-- pulls a frame and dispatches it.
pub mod State
pub mod Transmit
pub mod Sockets
pub mod Receive
pub mod Deliver
pub mod Outgoing
pub mod Arrival
pub mod Across
