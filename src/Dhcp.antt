-- ===== src/Dhcp.antt =====
-- src/net/mn_dhcp.c: the DHCP client.
pub mod State
pub mod Message
pub mod Lease
pub mod Client
