-- ===== src/Tests/OfferRuns.antt =====
-- A run of processDiscover, and witnesses of the theorems on offers and NAKs.
use dhcp_server.Base.{◌+◌, ◌*◌, ◌≡◌, ◌≢◌, refl, true, false, some, [], ◌∷◌, arith}
use dhcp_server.Base.Rows.{find_first, any, reject}
use dhcp_server.Base.Upsert.{upsert}
use dhcp_server.Net.{to4, ip_equal, bytes_equal, ipv4_bcast}
use dhcp_server.Dhcp4.Server.Destination.{udp, destination, nak_reply, send_nak-destination}
use dhcp_server.Dhcp4.Options.{get, requested_ip}
use dhcp_server.Dhcp4.Server.{match_scope, ip_to_uint32, normalize_ip, is_candidate, most_specific}
use dhcp_server.Dhcp4.Server.Offer.{
  Offer, discover_allocation, is_served, offer, offer_of, serve_discover, process_discover,
}
use dhcp_server.Dhcp4.Server.Offer.Safe.{process_discover-IsHeldFrom, process_discover-served}
use dhcp_server.Store.{Lease, contains, blocks, lease_blocks_reuse, is_active, is_offered}
use dhcp_server.Store.{is_declined, or_else, second}
use dhcp_server.Store.Table.{
  get_lease_by_mac, get_lease_by_ip, get_reservation_by_mac, get_reservation_by_ip, is_of, is_at,
  is_rival, save_lease, or_violation,
}
use dhcp_server.Store.Pool.{allocate_ipv4, pool_loop, is_used, is_withheld, in_use, is_occupied}
use dhcp_server.Store.Allocate.{
  allocate_v4_lease, assign, assign_from_pool, save_and_return, new_lease, or_default, ends_at,
  capped_lease_time,
}
use dhcp_server.Tests.StoreRuns.{printer, camera, tables, tables-HasConstraints}
use dhcp_server.Tests.ServerRuns.{renewal, env, office_scope, office-matched}
use mathlib.Core.List.{Memᴰ}
use mathlib.Core.List.Memᴰ
use dhcp_server.Store.{expired, active, offered}
use dhcp_server.Store.Allocate.{Tables}
use dhcp_server.Store.Unique.{HasUniqueClients}
use dhcp_server.Base.{inl, sym, ◌∙◌}

abbrev offered_lease : Lease
offered_lease = new_lease (discover_allocation env renewal office_scope) 14

abbrev made : Offer
made = record { lease = offered_lease; lease_time = 600 }

discovered :
    process_discover env true false renewal tables tables
    ≡ (some made, printer ∷ offered_lease ∷ [])
unfolding process_discover serve_discover offer offer_of is_served discover_allocation match_scope
    ip_to_uint32 normalize_ip to4 reject is_candidate contains most_specific requested_ip get
    allocate_v4_lease get_lease_by_mac find_first is_of assign assign_from_pool allocate_ipv4
    pool_loop is_used is_withheld in_use is_occupied any get_reservation_by_mac
    get_reservation_by_ip get_lease_by_ip is_at save_and_return save_lease or_violation upsert
    is_rival new_lease or_default ends_at capped_lease_time lease_blocks_reuse blocks is_active
    is_offered is_declined or_else
discovered = refl

process_discover-IsHeldFrom_example :
    (office_scope.enabled ≡ true)
    × (offered_lease.mac_addr ≡ env.mac)
    × (printer.ip_addr ≢ offered_lease.ip_addr)
    × Memᴰ printer (printer ∷ offered_lease ∷ [])
    × (offered_lease.ends_at ≡ env.now + 600 * second)
    × (made.lease_time ≡ 600)
unfolding or_default discover_allocation blocks lease_blocks_reuse
process_discover-IsHeldFrom_example =
    process_discover-IsHeldFrom env true false renewal tables tables office_scope made
      (printer ∷ offered_lease ∷ []) printer tables-HasConstraints office-matched discovered
      (Memᴰ.head refl) (record { scope = refl; other = omega arith; live = refl })

-- The client once had a lease, which a clean-up deletes during the wait.
abbrev former_lease : Lease
former_lease = record printer { id = 102; mac_addr = 9; ip_addr = 15; state = expired }

abbrev former_tables : Tables
former_tables = record { leases = former_lease ∷ []; reservations = camera ∷ [] }

discovered_again :
    process_discover env true false renewal former_tables tables
    ≡ (some made, printer ∷ offered_lease ∷ [])
unfolding process_discover serve_discover offer offer_of is_served discover_allocation match_scope
    ip_to_uint32 normalize_ip to4 reject is_candidate contains most_specific requested_ip get
    allocate_v4_lease get_lease_by_mac find_first is_of assign assign_from_pool allocate_ipv4
    pool_loop is_used is_withheld in_use is_occupied any get_reservation_by_mac
    get_reservation_by_ip get_lease_by_ip is_at save_and_return save_lease or_violation upsert
    is_rival new_lease or_default ends_at capped_lease_time lease_blocks_reuse blocks is_active
    is_offered is_declined or_else
discovered_again = refl

process_discover-served_example : (expired ≢ active) × (expired ≢ offered)
unfolding HasUniqueClients
process_discover-served_example =
    process_discover-served env false renewal former_tables tables office_scope made
      (printer ∷ offered_lease ∷ []) former_lease
      (λ k l mk ml s a. Memᴰ.eq_of_singleton mk ∙ sym (Memᴰ.eq_of_singleton ml))
      tables-HasConstraints.clients office-matched discovered_again (inl (Memᴰ.head refl)) refl refl

-- The request comes without a relay agent.
send_nak-destination_example :
    destination false (nak_reply env.our_id renewal (110 ∷ 111 ∷ [])) ≡ udp ipv4_bcast 68
unfolding normalize_ip to4 ip_equal bytes_equal
send_nak-destination_example = send_nak-destination env.our_id renewal (110 ∷ 111 ∷ []) false
