-- ===== src/Tests/ServerRuns.antt =====
-- Runs of the DHCPv4 server and witnesses of its theorems, on the tables of the store's runs.
use dhcp_server.Base.{
  List, ◌≡◌, ◌≢◌, ◌⊎◌, ◌≤◌, ◌&&◌, ◌||◌, ◌==◌, refl, true, false, some, [], ◌∷◌, arith, length,
}
use dhcp_server.Base.Rows.{find_first, any, reject}
use dhcp_server.Net.{to4}
use dhcp_server.Dhcp4.Options.{get, server_id, requested_ip}
use dhcp_server.Dhcp4.Packet.{Packet}
use dhcp_server.Dhcp4.Server.{
  ServerScope, Env, ack, handle_request, handle_release, handle_decline, match_scope, is_candidate,
}
use dhcp_server.Dhcp4.Server.{
  mask_size, most_specific, ip_to_uint32, normalize_ip, is_for_us, serve_match, confirm, allocation,
}
use dhcp_server.Dhcp4.Server.{requested_address, mismatches_reservation}
use dhcp_server.Dhcp4.Server.Match.{match_scope-most_specific}
use dhcp_server.Dhcp4.Server.Request.{handle_request-ack, handle_request-IsHeldFrom}
use dhcp_server.Dhcp4.Server.Release.{handle_release-mem}
use dhcp_server.Store.{Lease, active, blocks, lease_blocks_reuse, contains}
use dhcp_server.Store.Table.{
  get_lease_by_mac, get_lease_by_ip, is_of, is_at, get_reservation_by_mac, get_reservation_by_ip,
  is_rival, save_lease,
}
use dhcp_server.Store.Allocate.{
  allocate_v4_lease, new_lease, assign, assign_preferred, is_usable, is_open, is_reserved_for_other,
  evict,
}
use dhcp_server.Store.Allocate.{save_and_return, is_excluded_ip}
use dhcp_server.Tests.StoreRuns.{office, printer, tables, tables-HasConstraints}
use dhcp_server.Base.Upsert.{upsert}
use dhcp_server.Store.Table.{or_violation}
use mathlib.Core.List.{Memᴰ}
use mathlib.Core.List.Memᴰ
use dhcp_server.Store.Lifecycle.{update_lease_state}

abbrev pub office_scope : ServerScope
office_scope = record { enabled = true; lease_time = 600; max_lease_time = 0; scope = office }

-- A client at 0.0.0.14 that asks for its address again.
abbrev pub renewal : Packet
renewal = record {
  op = 1;
  htype = 1;
  hlen = 6;
  hops = 0;
  xid = 1;
  secs = 0;
  flags = 0;
  ciaddr = 0 ∷ 0 ∷ 0 ∷ 14 ∷ [];
  yiaddr = 0 ∷ 0 ∷ 0 ∷ 0 ∷ [];
  siaddr = 0 ∷ 0 ∷ 0 ∷ 0 ∷ [];
  giaddr = 0 ∷ 0 ∷ 0 ∷ 0 ∷ [];
  chaddr = 2 ∷ 0 ∷ 0 ∷ 0 ∷ 0 ∷ 9 ∷ [];
  sname = [];
  file = [];
  options = [];
  boot_file = [];
  if_index = 0;
}

abbrev pub env : Env
env = record {
  our_id = 0 ∷ 0 ∷ 0 ∷ 10 ∷ [];
  is_blacklisted = false;
  local = 0;
  scopes = office_scope ∷ [];
  mac = 9;
  client_id = 0;
  hostname = 3;
  now = 1000000;
  new_id = 101;
  fuel = 12;
}

abbrev granted : Lease
granted = new_lease (allocation env renewal office_scope) 14

abbrev acked_table : List Lease
acked_table = printer ∷ record granted { state = active; updated_at = 1000000 } ∷ []

pub office-matched :
    match_scope (ip_to_uint32 renewal.giaddr) (ip_to_uint32 renewal.ciaddr) 0 (office_scope ∷ [])
    ≡ some office_scope
unfolding match_scope ip_to_uint32 normalize_ip to4 reject is_candidate contains most_specific
office-matched = refl

renewal-acked :
    handle_request env renewal tables
    ≡ (ack granted, printer ∷ record granted { state = active; updated_at = 1000000 } ∷ [])
unfolding handle_request is_for_us server_id get serve_match match_scope ip_to_uint32 normalize_ip
    to4 reject is_candidate contains most_specific mismatches_reservation get_reservation_by_mac
    find_first requested_address requested_ip confirm allocate_v4_lease get_lease_by_mac is_of
    assign assign_preferred is_usable is_reserved_for_other get_reservation_by_ip get_lease_by_ip
    is_at is_open is_excluded_ip any evict save_and_return save_lease or_violation upsert is_rival
    update_lease_state allocation new_lease
renewal-acked = refl

handle_request-ack_example :
    (is_for_us env.our_id renewal ≡ true)
    × (env.is_blacklisted ≡ false)
    × ((length (requested_address renewal) == 0
          || (granted.ip_addr == ip_to_uint32 (requested_address renewal)
              && contains office.subnet granted.ip_addr))
        ≡ true)
    × ((d : Lease) × Memᴰ d acked_table
        × (d.scope_id ≡ 1)
        × (d.mac_addr ≡ 9)
        × (d.ip_addr ≡ granted.ip_addr)
        × (d.ends_at ≡ granted.ends_at)
        × ((d.state ≡ active) ⊎ (d.id ≢ granted.id)))
handle_request-ack_example =
    handle_request-ack env renewal tables office_scope granted acked_table tables-HasConstraints
      office-matched renewal-acked

handle_request-IsHeldFrom_example : printer.ip_addr ≢ granted.ip_addr
unfolding allocation blocks lease_blocks_reuse
handle_request-IsHeldFrom_example =
    handle_request-IsHeldFrom env renewal tables office_scope granted acked_table printer
      tables-HasConstraints office-matched renewal-acked (Memᴰ.head refl)
      (record { scope = refl; other = omega arith; live = refl })

match_scope-most_specific_example :
    Memᴰ office_scope (office_scope ∷ [])
    × (is_candidate 0 14 0 office_scope ≡ true)
    × (mask_size office_scope ≤ mask_size office_scope)
unfolding match_scope reject is_candidate contains most_specific mask_size
match_scope-most_specific_example =
    match_scope-most_specific 0 14 0 (office_scope ∷ []) office_scope office_scope
      (λ s m on. rw (Memᴰ.eq_of_singleton m) (omega arith)) refl (Memᴰ.head refl) refl

handle_release-mem_example :
    Memᴰ printer (handle_release 0 9 5 (office_scope ∷ []) renewal (printer ∷ []))
    × Memᴰ printer (handle_decline 0 9 5 (office_scope ∷ []) renewal (printer ∷ []))
handle_release-mem_example =
    handle_release-mem 0 9 5 (office_scope ∷ []) renewal (printer ∷ []) printer (Memᴰ.head refl)
      (omega arith)
