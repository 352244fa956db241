-- ===== src/Dns.antt =====
-- src/net/mn_dns.c: the DNS resolver.
pub mod Message
pub mod Client
