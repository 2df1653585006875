-- ===== src/Tests/QuarantineRuns.antt =====
-- Runs after a Decline, and witnesses of the theorems on a lease while other clients are served.
use dhcp_server.Base.{◌≡◌, refl, none, List, [], ◌∷◌, arith}
use dhcp_server.Base.Outcome.{ok}
use dhcp_server.Base.Rows.{find_first, any, reject}
use dhcp_server.Base.Upsert.{upsert}
use dhcp_server.Dhcp4.Packet.{Packet}
use dhcp_server.Dhcp4.Server.{handle_decline}
use dhcp_server.Dhcp4.Server.Release.Quarantine.{declined_lease}
use dhcp_server.Store.{
  Lease, blocks, contains, or_else, lease_blocks_reuse, is_active, is_offered, is_declined,
}
use dhcp_server.Store.Table.{
  get_lease_by_mac, get_lease_by_ip, is_of, is_at, get_reservation_by_mac, get_reservation_by_ip,
  is_rival, save_lease, or_violation, delete_leases_by_mac,
}
use dhcp_server.Store.Pool.{allocate_ipv4, is_used, pool_loop, in_use, is_occupied, is_withheld}
use dhcp_server.Store.Allocate.{
  Request, allocate_v4_lease, new_lease, ends_at, assign, assign_preferred, is_usable, is_open,
  is_reserved_for_other, assign_from_pool, save_and_return, capped_lease_time, or_default, is_kept,
  declined_ip, evict, is_excluded_ip,
}
use dhcp_server.Store.Lifecycle.{release_expired_leases}
use dhcp_server.Store.Steps.Kept.{IsForeign, AreForeign, Reach-mem}
use dhcp_server.Tests.LifecycleRuns.{laptop_run}
use dhcp_server.Tests.ServerRuns.{renewal, office_scope}
use dhcp_server.Tests.StoreRuns.{printer, camera, tables-HasConstraints, laptop, laptop_lease}
use mathlib.Core.List.{Memᴰ}

Reach-mem_example : Memᴰ printer (release_expired_leases 5 (printer ∷ laptop_lease ∷ []))
unfolding AreForeign IsForeign blocks lease_blocks_reuse
Reach-mem_example =
    Reach-mem (camera ∷ []) (printer ∷ []) (release_expired_leases 5 (printer ∷ laptop_lease ∷ []))
      printer laptop_run tables-HasConstraints
      ((tt, record { scope = refl; other = omega arith; live = refl }), refl) (Memᴰ.head refl)

-- The printer declines its address.
abbrev refusal : Packet
refusal = record renewal { ciaddr = 0 ∷ 0 ∷ 0 ∷ 12 ∷ [] }

abbrev refused : Lease
refused = declined_lease printer 5

abbrev refused_table : List Lease
refused_table = handle_decline 0 7 5 (office_scope ∷ []) refusal (printer ∷ [])

-- The printer asks anew.
abbrev printer_again : Request
printer_again = record laptop { mac = 7; preferred = none; new_id = 103 }

-- The allocation of the client that has declined deletes its row; then the laptop, in the same second, is
-- given the declined address.
quarantine_forgotten :
    (allocate_v4_lease printer_again (record { leases = refused ∷ []; reservations = camera ∷ [] })
      ≡ ok (new_lease printer_again 14, new_lease printer_again 14 ∷ []))
    × (allocate_v4_lease laptop
          (record { leases = new_lease printer_again 14 ∷ []; reservations = camera ∷ [] })
        ≡ ok (new_lease laptop 12, new_lease printer_again 14 ∷ new_lease laptop 12 ∷ []))
unfolding allocate_v4_lease new_lease get_lease_by_mac find_first is_of assign
    get_reservation_by_mac assign_preferred is_usable contains is_reserved_for_other
    get_reservation_by_ip get_lease_by_ip is_at is_open blocks lease_blocks_reuse assign_from_pool
    allocate_ipv4 pool_loop is_used is_withheld any in_use is_occupied is_active is_offered
    is_declined or_else save_and_return save_lease or_violation upsert is_rival ends_at
    capped_lease_time or_default delete_leases_by_mac reject is_kept declined_ip evict
    is_excluded_ip
quarantine_forgotten = (refl, refl)
