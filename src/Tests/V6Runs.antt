-- ===== src/Tests/V6Runs.antt =====
-- Runs of the DHCPv6 part of the store and witnesses of its theorems, at small tables.
use dhcp_server.Base.{ℕ, ◌+◌, ◌*◌, ◌^◌, ◌<◌, ◌≡◌, ◌≢◌, ◌⊎◌, refl, true, false, none, some}
use dhcp_server.Base.{[], ◌∷◌, List, sym, ◌∙◌, arith}
use dhcp_server.Base.Outcome.{ok, err}
use dhcp_server.Base.Rows.{find_first, any, reject}
use dhcp_server.Base.Upsert.{upsert}
use dhcp_server.Store.{Scope, IpNet, active, contains_v6, or_else, lease_blocks_reuse}
use dhcp_server.Store.{is_active, is_offered, is_declined}
use dhcp_server.Store.Table.{or_violation, no_available_prefix}
use dhcp_server.Store.Pool.{is_occupied, is_withheld}
use dhcp_server.Store.Pool.FirstFree.{IsFirstFree}
use dhcp_server.Store.Allocate.{capped_lease_time, or_default, is_excluded_ip}
use dhcp_server.Store.Uint128.{cmp, is_at_most, ip_add_one, ip_to_uint128, uint128_to_ip}
use dhcp_server.Store.Uint128.{prefix_candidate, shift_left}
use dhcp_server.Store.V6.{V6Lease, V6Reservation, V6Prefix, blocks_v6, is_at_v6, is_of_v6}
use dhcp_server.Store.V6.{get_v6_lease_by_duid, get_v6_lease_by_ip, get_v6_reservation_by_duid}
use dhcp_server.Store.V6.{get_v6_reservation_by_ip, overwrite_v6, is_rival_v6, save_v6_lease}
use dhcp_server.Store.V6.Pool.{in_use_v6, is_used_v6, pool_loop_v6, allocate_ipv6}
use dhcp_server.Store.V6.Pool.Search.{allocate_ipv6-IsFirstFree}
use dhcp_server.Store.V6.Allocate.{
  V6Request, V6Tables, allocate_v6_lease, new_v6_lease, ends_at_v6, assign_v6, assign_preferred_v6,
  is_usable_v6, is_open_v6, is_reserved_for_other_v6, assign_from_pool_v6, save_and_return_v6,
  evict_v6,
}
use dhcp_server.Store.V6.Grant.{IsHeldFromV6}
use dhcp_server.Store.V6.Promise.{
  HasV6Constraints, allocate_v6_lease-IsHeldFromV6, allocate_v6_lease-IsReservedFromV6,
  allocate_v6_lease-stored,
}
use dhcp_server.Store.V6.Prefix.{
  PrefixRequest, allocate_v6_prefix, delegate, allocate_prefix, prefix_loop, candidate_net,
  is_used_prefix, is_prefix_in_use, is_same_net, has_prefix, get_v6_prefix_by_duid, is_prefix_of,
  new_v6_prefix, save_and_return_prefix, save_v6_prefix, is_rival_prefix, prefix_ends_at,
  delegated_len,
}
use dhcp_server.Store.V6.Prefix.Promise.{allocate_v6_prefix-IsDelegatedFrom}
use dhcp_server.Store.V6.Prefix.Pool.{allocate_prefix-pool, allocate_prefix-exhausted}
use mathlib.Core.List.{Memᴰ}
use mathlib.Core.List.Memᴰ

-- 2001:db8::, with a pool of four delegated prefixes behind 2001:db8:0:4::/62.
abbrev net_base : ℕ
net_base = 0x20010db8 * 2 ^ 96

abbrev pool_base : ℕ
pool_base = net_base + 4 * 2 ^ 64

abbrev home : Scope
home = record {
  id = 2;
  subnet = some (record { ip = net_base; ones = 64 });
  start_ip = net_base + 16;
  end_ip = net_base + 32;
  gateway = (net_base + 17) ∷ [];
  dns = [];
  excluded_ips = [];
  prefix = some (record { ip = pool_base; ones = 62 });
}

-- A client that holds the address 2001:db8::12 for its association 1.
abbrev pub phone : V6Lease
phone = record {
  id = 200;
  scope_id = 2;
  duid = 5;
  iaid = 1;
  ip_addr = net_base + 18;
  hostname = 0;
  state = active;
  offered_at = none;
  starts_at = 0;
  ends_at = 9000000;
  created_at = 0;
  updated_at = 0;
}

abbrev printer_v6 : V6Reservation
printer_v6 = record { scope_id = 2; duid = 6; ip_addr = net_base + 19 }

abbrev tables_v6 : V6Tables
tables_v6 = record { leases = phone ∷ []; reservations = printer_v6 ∷ [] }

-- A new client, that wishes the phone's address.
abbrev tablet : V6Request
tablet = record {
  scope = home;
  duid = 9;
  iaid = 1;
  preferred = some (net_base + 18);
  hostname = 3;
  lease_time = 0;
  max_lease_time = 0;
  now = 1000000;
  new_id = 201;
  fuel = 18;
}

abbrev tablet_lease : V6Lease
tablet_lease = new_v6_lease tablet (net_base + 20)

-- The wish, the gateway, the lease and the reservation are passed over.
tablet-allocated : allocate_v6_lease tablet tables_v6 ≡ ok (tablet_lease, phone ∷ tablet_lease ∷ [])
unfolding allocate_v6_lease new_v6_lease get_v6_lease_by_duid find_first is_of_v6 assign_v6
    get_v6_reservation_by_duid assign_preferred_v6 is_usable_v6 contains_v6 is_reserved_for_other_v6
    get_v6_reservation_by_ip get_v6_lease_by_ip is_at_v6 is_open_v6 blocks_v6 lease_blocks_reuse
    assign_from_pool_v6 allocate_ipv6 pool_loop_v6 is_used_v6 is_withheld any in_use_v6 is_occupied
    is_active is_offered is_declined or_else save_and_return_v6 save_v6_lease or_violation upsert
    is_rival_v6 ends_at_v6 capped_lease_time or_default cmp is_at_most ip_add_one ip_to_uint128
    uint128_to_ip
tablet-allocated = refl

tables_v6-HasV6Constraints : HasV6Constraints tables_v6
tables_v6-HasV6Constraints = record {
  addresses = λ k l m n s. Memᴰ.eq_of_singleton m ∙ sym (Memᴰ.eq_of_singleton n);
  associations = λ k l m n s. Memᴰ.eq_of_singleton m ∙ sym (Memᴰ.eq_of_singleton n);
  ids = λ k l m n s. Memᴰ.eq_of_singleton m ∙ sym (Memᴰ.eq_of_singleton n);
  reserved = λ k l m n s. Memᴰ.eq_of_singleton m ∙ sym (Memᴰ.eq_of_singleton n);
}

phone-IsHeldFromV6 : IsHeldFromV6 tablet phone
unfolding blocks_v6 lease_blocks_reuse
phone-IsHeldFromV6 = record { scope = refl; other = omega arith; live = refl }

allocate_v6_lease-IsHeldFromV6_example :
    (tablet_lease.duid ≡ 9)
    × (tablet_lease.iaid ≡ 1)
    × (phone.ip_addr ≢ tablet_lease.ip_addr)
    × Memᴰ phone (phone ∷ tablet_lease ∷ [])
allocate_v6_lease-IsHeldFromV6_example =
    allocate_v6_lease-IsHeldFromV6 tablet tables_v6 tablet_lease (phone ∷ tablet_lease ∷ []) phone
      tables_v6-HasV6Constraints tablet-allocated (Memᴰ.head refl) phone-IsHeldFromV6

allocate_v6_lease-stored_example :
    (r : V6Lease) × Memᴰ r (phone ∷ tablet_lease ∷ [])
    × (r.scope_id ≡ tablet.scope.id)
    × (r.duid ≡ 9)
    × (r.iaid ≡ 1)
    × (r.ip_addr ≡ tablet_lease.ip_addr)
    × (r.state ≡ tablet_lease.state)
    × (r.ends_at ≡ tablet_lease.ends_at)
allocate_v6_lease-stored_example =
    allocate_v6_lease-stored tablet tables_v6 tablet_lease (phone ∷ tablet_lease ∷ [])
      tables_v6-HasV6Constraints tablet-allocated

allocate_v6_lease-IsReservedFromV6_example : printer_v6.ip_addr ≢ tablet_lease.ip_addr
allocate_v6_lease-IsReservedFromV6_example =
    allocate_v6_lease-IsReservedFromV6 tablet tables_v6 tablet_lease (phone ∷ tablet_lease ∷ [])
      printer_v6 tables_v6-HasV6Constraints tablet-allocated (Memᴰ.head refl)
      (record { scope = refl; other = omega arith })

allocate_ipv6-IsFirstFree_example :
    IsFirstFree
      (is_used_v6 (phone ∷ []) (printer_v6 ∷ []) home none 1000000)
      (net_base + 16)
      (net_base + 32)
      (allocate_ipv6 18 (phone ∷ []) (printer_v6 ∷ []) home none 1000000)
allocate_ipv6-IsFirstFree_example =
    allocate_ipv6-IsFirstFree 18 (phone ∷ []) (printer_v6 ∷ []) home none 1000000 (omega arith)
      (omega arith) (omega arith)

-- The phone asks for the same address for its association 2: the row of the association 1 becomes
-- the row of the association 2, and the association 1 has no lease left.
abbrev second_association : V6Request
second_association = record tablet { duid = 5; iaid = 2; hostname = 0; new_id = 202 }

abbrev moved_lease : V6Lease
moved_lease = new_v6_lease second_association (net_base + 18)

association_overwritten :
    allocate_v6_lease second_association tables_v6
    ≡ ok (moved_lease, record moved_lease { id = 200; created_at = 0 } ∷ [])
unfolding allocate_v6_lease new_v6_lease get_v6_lease_by_duid find_first is_of_v6 assign_v6
    get_v6_reservation_by_duid assign_preferred_v6 is_usable_v6 contains_v6 is_reserved_for_other_v6
    get_v6_reservation_by_ip get_v6_lease_by_ip is_at_v6 is_open_v6 is_excluded_ip evict_v6 any
    save_and_return_v6 save_v6_lease or_violation upsert is_rival_v6 overwrite_v6 ends_at_v6
    capped_lease_time or_default
association_overwritten = refl

-- The first prefix of the pool is delegated to the association 1 of the client 5.
abbrev pub delegated : V6Prefix
delegated = record {
  id = 300;
  scope_id = 2;
  duid = 5;
  iaid = 1;
  prefix = record { ip = pool_base; ones = 64 };
  preferred_lifetime = 3600;
  valid_lifetime = 3600;
  state = active;
  starts_at = 0;
  ends_at = 9000000;
  created_at = 0;
  updated_at = 0;
}

abbrev router : PrefixRequest
router = record {
  scope = home;
  duid = 7;
  iaid = 1;
  lease_time = 0;
  max_lease_time = 0;
  now = 1000000;
  new_id = 301;
  fuel = 5;
}

abbrev router_prefix : V6Prefix
router_prefix = new_v6_prefix router (record { ip = pool_base + 2 ^ 64; ones = 64 })

router-delegated :
    allocate_v6_prefix router (delegated ∷ []) ≡ ok (router_prefix, delegated ∷ router_prefix ∷ [])
unfolding allocate_v6_prefix get_v6_prefix_by_duid find_first is_prefix_of delegate allocate_prefix
    prefix_loop is_used_prefix any is_prefix_in_use is_active is_offered is_same_net candidate_net
    prefix_candidate shift_left ip_to_uint128 uint128_to_ip has_prefix reject save_and_return_prefix
    new_v6_prefix save_v6_prefix or_violation upsert is_rival_prefix prefix_ends_at
    capped_lease_time or_default
router-delegated = refl

allocate_v6_prefix-IsDelegatedFrom_example :
    (is_same_net delegated.prefix router_prefix.prefix ≡ false)
    × Memᴰ delegated (delegated ∷ router_prefix ∷ [])
unfolding is_prefix_of is_prefix_in_use is_active is_offered
allocate_v6_prefix-IsDelegatedFrom_example =
    allocate_v6_prefix-IsDelegatedFrom router (delegated ∷ []) router_prefix
      (delegated ∷ router_prefix ∷ []) delegated
      (λ k l m n s. Memᴰ.eq_of_singleton m ∙ sym (Memᴰ.eq_of_singleton n)) router-delegated
      (Memᴰ.head refl) (record { other = refl; live = refl })

prefix-allocated :
    allocate_prefix 5 (delegated ∷ []) home 1000000
    ≡ ok (record { ip = pool_base + 2 ^ 64; ones = 64 }, delegated ∷ [])
unfolding allocate_prefix prefix_loop is_used_prefix any is_prefix_in_use is_active is_offered
    is_same_net candidate_net prefix_candidate shift_left ip_to_uint128 uint128_to_ip has_prefix
    reject
prefix-allocated = refl

allocate_prefix-pool_example :
    (j : ℕ) × (j < 4) × (pool_base + 2 ^ 64 ≡ pool_base + j * 2 ^ 64) × (64 ≡ delegated_len)
allocate_prefix-pool_example =
    allocate_prefix-pool 5 (delegated ∷ []) (delegated ∷ []) home 1000000
      (record { ip = pool_base + 2 ^ 64; ones = 64 }) (record { ip = pool_base; ones = 62 }) refl
      (omega arith) prefix-allocated

allocate_prefix-exhausted_example :
    ((net : IpNet) × (before : List V6Prefix) × (allocate_prefix 5 (delegated ∷ []) home 1000000
        ≡ ok (net, before)))
    ⊎ ((allocate_prefix 5 (delegated ∷ []) home 1000000 ≡ err no_available_prefix)
        × ((b : ℕ)
            → b < 2 ^ 2
            → is_used_prefix (delegated ∷ []) 2 1000000 (candidate_net (ip_to_uint128 pool_base) b)
              ≡ true))
allocate_prefix-exhausted_example =
    allocate_prefix-exhausted 5 (delegated ∷ []) home 1000000 (record { ip = pool_base; ones = 62 })
      refl (omega arith) (omega arith) (omega arith)
