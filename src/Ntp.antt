-- ===== src/Ntp.antt =====
-- src/net/mn_ntp.c: the SNTP client and the calendar.
pub mod Civil
pub mod Client
