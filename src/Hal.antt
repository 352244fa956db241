-- ===== src/Hal.antt =====
-- src/hal: the Ethernet controller and the registers that it is driven by.
pub mod Bus
pub mod Eth
pub mod Waiting
pub mod Sent
pub mod Taken
pub mod Started
pub mod Dma
