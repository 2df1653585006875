-- ===== src/Dhcp4.antt =====
-- internal/dhcp: the DHCPv4 messages, their options, and the server's handling of them.
pub mod Options
pub mod Values
pub mod Packet
pub mod Server
