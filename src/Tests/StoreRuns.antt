-- ===== src/Tests/StoreRuns.antt =====
-- Runs of the store and witnesses of its theorems, at small tables.
use dhcp_server.Base.{◌≡◌, ◌≢◌, refl, sym, ◌∙◌, none, some}
use dhcp_server.Base.{[], ◌∷◌, arith}
use dhcp_server.Base.Outcome.{ok}
use dhcp_server.Base.Rows.{find_first, any}
use dhcp_server.Store.{Lease, Reservation, Scope, active, offered, blocks, contains, or_else}
use dhcp_server.Store.{lease_blocks_reuse, is_active, is_offered, is_declined}
use dhcp_server.Store.Table.{get_lease_by_mac, get_lease_by_ip, is_of, is_at, overwrite}
use dhcp_server.Store.Table.{get_reservation_by_mac, get_reservation_by_ip, is_rival, save_lease}
use dhcp_server.Store.Pool.{allocate_ipv4, is_used, pool_loop, in_use, is_occupied, is_withheld}
use dhcp_server.Store.Pool.Search.{allocate_ipv4-exhausted}
use dhcp_server.Store.Pool.FirstFree.{IsFirstFree}
use dhcp_server.Store.Unique.{HasUniqueAddresses, HasUniqueClients, HasUniqueIds}
use dhcp_server.Store.Grant.{HasUniqueReservations, IsHeldFrom, IsReservedFrom}
use dhcp_server.Store.Allocate.{
  Request, Tables, allocate_v4_lease, new_lease, renewed_lease, ends_at,
}
use dhcp_server.Store.Allocate.{assign, assign_preferred, is_usable, is_open, is_reserved_for_other}
use dhcp_server.Store.Allocate.{assign_from_pool, save_and_return, capped_lease_time, or_default}
use dhcp_server.Store.Allocate.{is_kept, ip_in_range}
use dhcp_server.Store.Promise.{HasConstraints, allocate_v4_lease-IsHeldFrom}
use dhcp_server.Store.Promise.{allocate_v4_lease-IsReservedFrom, allocate_v4_lease-mem}
use dhcp_server.Store.Promise.{allocate_v4_lease-stored}
use dhcp_server.Base.Upsert.{upsert}
use dhcp_server.Store.Table.{or_violation}
use mathlib.Core.List.{Memᴰ}
use mathlib.Core.List.Memᴰ

-- The scope with the addresses 10 to 20; 11 is the gateway.
abbrev pub office : Scope
office = record {
  id = 1;
  subnet = some (record { ip = 0; ones = 24 });
  start_ip = 10;
  end_ip = 20;
  gateway = 11 ∷ [];
  dns = [];
  excluded_ips = [];
  prefix = none;
}

-- A client that holds the address 12.
abbrev pub printer : Lease
printer = record {
  id = 100;
  scope_id = 1;
  mac_addr = 7;
  ip_addr = 12;
  hostname = 0;
  client_id = 0;
  state = active;
  offered_at = none;
  starts_at = 0;
  ends_at = 9000000;
  created_at = 0;
  updated_at = 0;
}

abbrev pub camera : Reservation
camera = record { scope_id = 1; mac_addr = 8; ip_addr = 13 }

abbrev pub tables : Tables
tables = record { leases = printer ∷ []; reservations = camera ∷ [] }

-- A new client, that wishes the printer's address.
abbrev pub laptop : Request
laptop = record {
  scope = office;
  mac = 9;
  client_id = 0;
  preferred = some 12;
  hostname = 3;
  lease_time = 0;
  max_lease_time = 0;
  now = 1000000;
  new_id = 101;
  fuel = 12;
}

abbrev pub laptop_lease : Lease
laptop_lease = new_lease laptop 14

-- The wish, the gateway, the lease and the reservation are passed over.
pub laptop-allocated :
    allocate_v4_lease laptop tables ≡ ok (laptop_lease, printer ∷ laptop_lease ∷ [])
unfolding allocate_v4_lease new_lease get_lease_by_mac find_first is_of assign
    get_reservation_by_mac assign_preferred is_usable contains is_reserved_for_other
    get_reservation_by_ip get_lease_by_ip is_at is_open blocks lease_blocks_reuse assign_from_pool
    allocate_ipv4 pool_loop is_used is_withheld any in_use is_occupied is_active is_offered
    is_declined or_else save_and_return save_lease or_violation upsert is_rival ends_at
    capped_lease_time or_default
laptop-allocated = refl

-- The constraints of a table of at most one row.
pub tables-HasConstraints : HasConstraints tables
unfolding HasUniqueAddresses HasUniqueClients HasUniqueIds HasUniqueReservations
tables-HasConstraints = record {
  addresses = λ k l mk ml s a. Memᴰ.eq_of_singleton mk ∙ sym (Memᴰ.eq_of_singleton ml);
  clients = λ k l mk ml s a. Memᴰ.eq_of_singleton mk ∙ sym (Memᴰ.eq_of_singleton ml);
  ids = λ k l mk ml a. Memᴰ.eq_of_singleton mk ∙ sym (Memᴰ.eq_of_singleton ml);
  reserved = λ r s mr ms i a. Memᴰ.eq_of_singleton mr ∙ sym (Memᴰ.eq_of_singleton ms);
}

printer-IsHeldFrom : IsHeldFrom laptop printer
unfolding blocks lease_blocks_reuse
printer-IsHeldFrom = record { scope = refl; other = omega arith; live = refl }

camera-IsReservedFrom : IsReservedFrom laptop camera
camera-IsReservedFrom = record { scope = refl; other = omega arith }

allocate_v4_lease-IsHeldFrom_example :
    (laptop_lease.mac_addr ≡ laptop.mac)
    × (laptop_lease.scope_id ≡ office.id)
    × (printer.ip_addr ≢ laptop_lease.ip_addr)
allocate_v4_lease-IsHeldFrom_example =
    allocate_v4_lease-IsHeldFrom laptop tables laptop_lease (printer ∷ laptop_lease ∷ []) printer
      tables-HasConstraints laptop-allocated (Memᴰ.head refl) printer-IsHeldFrom

allocate_v4_lease-IsReservedFrom_example : camera.ip_addr ≢ laptop_lease.ip_addr
allocate_v4_lease-IsReservedFrom_example =
    allocate_v4_lease-IsReservedFrom laptop tables laptop_lease (printer ∷ laptop_lease ∷ []) camera
      tables-HasConstraints laptop-allocated (Memᴰ.head refl) camera-IsReservedFrom

allocate_v4_lease-mem_example : Memᴰ printer (printer ∷ laptop_lease ∷ [])
allocate_v4_lease-mem_example =
    allocate_v4_lease-mem laptop tables laptop_lease (printer ∷ laptop_lease ∷ []) printer
      tables-HasConstraints laptop-allocated (Memᴰ.head refl) printer-IsHeldFrom

allocate_v4_lease-stored_example :
    (r : Lease) × Memᴰ r (printer ∷ laptop_lease ∷ [])
    × (r.scope_id ≡ 1)
    × (r.mac_addr ≡ 9)
    × (r.ip_addr ≡ 14)
    × (r.state ≡ offered)
    × (r.ends_at ≡ laptop_lease.ends_at)
unfolding new_lease
allocate_v4_lease-stored_example =
    allocate_v4_lease-stored laptop tables laptop_lease (printer ∷ laptop_lease ∷ [])
      tables-HasConstraints laptop-allocated

-- The printer asks again.
abbrev printer_again : Request
printer_again = record laptop { mac = 7; preferred = none }

printer-renewed :
    allocate_v4_lease printer_again tables
    ≡ ok (renewed_lease printer_again printer, renewed_lease printer_again printer ∷ [])
unfolding allocate_v4_lease renewed_lease get_lease_by_mac find_first is_of get_reservation_by_mac
    is_kept ip_in_range is_reserved_for_other get_reservation_by_ip is_at is_active is_offered
    save_and_return save_lease or_violation upsert is_rival any overwrite ends_at capped_lease_time
    or_default
printer-renewed = refl

allocate_ipv4-exhausted_example :
    IsFirstFree
      (is_used (printer ∷ []) (camera ∷ []) office none 1000000)
      10
      20
      (allocate_ipv4 12 (printer ∷ []) (camera ∷ []) office none 1000000)
allocate_ipv4-exhausted_example =
    allocate_ipv4-exhausted 12 (printer ∷ []) (camera ∷ []) office none 1000000 (omega arith)
      (omega arith) (omega arith)
