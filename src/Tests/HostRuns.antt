-- ===== src/Tests/HostRuns.antt =====
-- A run of LookupHostname, and a witness of its theorem.
use dhcp_server.Base.{ℕ, ◌%◌, ◌≡◌, refl, true, [], ◌∷◌}
use dhcp_server.Store.Hosts.Membership.{has}
use dhcp_server.Store.Hosts.Found.{IsHosted, IsDistinct, lookup_hostname-has}
use dhcp_server.Base.{◌/◌, ◌^◌, ◌≢◌, ◌↔◌}
use dhcp_server.Base.Rows.{any, reject}
use dhcp_server.Store.{active, is_active}
use dhcp_server.Store.Hosts.{
  Host, HostLease, lookup_hostname, lookup_addresses, lease_addresses, reserved_addresses, distinct,
  is_current, is_named, is_v4_mapped,
}

-- Letters of one name are the same modulo 100.
abbrev lower : ℕ → ℕ
lower c = c % 100

abbrev desktop : Host
desktop = record { ip_addr = 12; hostname = 7; domain_name = 9 }

abbrev desktop_lease : HostLease
desktop_lease = record { host = desktop; state = active; ends_at = 50 }

-- A lease of the reserved address is found once, and an expired one not at all.
desktop-found :
    lookup_hostname lower 107 109 40
      (desktop_lease ∷ [])
      (desktop ∷ [])
      (record desktop_lease { ends_at = 30 } ∷ [])
      []
    ≡ (12 ∷ [], [])
unfolding lookup_hostname lookup_addresses lease_addresses reserved_addresses distinct is_current
    is_named is_active any reject
desktop-found = refl

lookup_hostname-has_example :
    ((has 12 (12 ∷ []) ≡ true) ↔ IsHosted lower 107 109 40 12 (desktop_lease ∷ []) (desktop ∷ []))
    × ((has 12 [] ≡ true) ↔ (
        IsHosted lower 107 109 40 12 (record desktop_lease { ends_at = 30 } ∷ []) []
        × (12 / 2 ^ 32 ≢ 0xffff)))
    × IsDistinct (12 ∷ [])
    × IsDistinct []
unfolding lookup_hostname lookup_addresses lease_addresses reserved_addresses distinct is_current
    is_named is_active any reject is_v4_mapped has
lookup_hostname-has_example =
    lookup_hostname-has lower 107 109 40 12 (desktop_lease ∷ []) (desktop ∷ [])
      (record desktop_lease { ends_at = 30 } ∷ []) []
