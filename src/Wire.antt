-- ===== src/Wire.antt =====
-- The packet formats: what src/net builds and reads below the network layer.
pub mod Byteorder
pub mod Checksum
pub mod Ether
pub mod Arp
pub mod Ipv4
pub mod Icmp
pub mod Udp
