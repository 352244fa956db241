-- ===== src/Api.antt =====
-- src/abi/api.c: the entries of the jump table, each a function on the machine behind it.
pub mod State
pub mod Codes
pub mod Start
pub mod Link
pub mod Sockets
pub mod Datagrams
pub mod Clients
pub mod Config
pub mod Table
pub mod Isolation
pub mod Reach
pub mod Blocks
pub mod Refusals
pub mod Addresses
pub mod Clock
pub mod Ticks
pub mod Stats
pub mod Streams
pub mod Places
pub mod Frames
