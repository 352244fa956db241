-- ===== src/Tcp.antt =====
-- src/net/mn_tcp.c: a set of sockets, each an active or passive connection.
pub mod State
pub mod Ring
pub mod Emit
pub mod Calls
pub mod Input
pub mod Dispatch
pub mod Poll
pub mod Inv
pub mod Sending
pub mod Queue
pub mod Machine
pub mod Order
pub mod Timers
pub mod Reach
pub mod Layout
pub mod Direct
