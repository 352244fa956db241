-- ===== src/Tests.antt =====
-- The theorems at concrete inputs.
mod Data
mod Wire
mod Tcp
mod Clients
mod Api
