-- ===== src/Dhcp4/Server/Release/Quarantine.antt =====
-- internal/dhcp/server.go: a declined address while other clients are served.
use dhcp_server.Base.{ℕ}
use dhcp_server.Base.{List}
use dhcp_server.Dhcp4.Packet.{Packet}
use dhcp_server.Store.{Lease, declined}

-- The row of a client after its Decline.
abbrev pub declined_lease : Lease → (now : ℕ) → Lease
declined_lease k now = record k { state = declined; updated_at = now }
