-- ===== src/Dhcp6.antt =====
-- internal/dhcpv6: the DHCPv6 messages and the server's handling of them.
pub mod Packet
pub mod Relay
pub mod Ia
