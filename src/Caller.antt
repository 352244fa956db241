-- ===== src/Caller.antt =====
-- src/abi/meganet.h: the calls of the jump table as a C program makes them.
pub mod Staging
pub mod Services
pub mod Sockets
pub mod Entries
pub mod Calls
pub mod Placed
pub mod Sending
