-- ===== src/Store/V6/Pool.antt =====
-- internal/store/store.go: allocateIPv6Tx, the search of the pool on the two halves of an address.
pub mod Search
use dhcp_server.Base.{ℕ, zero, suc, ◌==◌, Bool, ◌&&◌, ◌||◌, List, if◌then◌else◌, Option}
use dhcp_server.Base.Outcome.{Outcome, ok, err, stuck}
use dhcp_server.Base.Rows.{any}
use dhcp_server.Store.{Scope}
use dhcp_server.Store.Table.{Error, no_available_ip}
use dhcp_server.Store.Pool.{is_occupied, is_withheld}
use dhcp_server.Store.Uint128.{Uint128, cmp, is_at_most, ip_add_one, ip_to_uint128, uint128_to_ip}
use dhcp_server.Store.V6.{V6Lease, V6Reservation}

-- The WHERE clause of the query for the addresses in use.
unfoldable pub in_use_v6 : (scope_id now : ℕ) → V6Lease → Bool
in_use_v6 s now l =
    l.scope_id == s && is_occupied l.state l.offered_at l.starts_at l.ends_at l.updated_at now

-- `used[ipKey(ip)]`, the map filled from the two tables, the scope and the extra address.
unfoldable pub is_used_v6 :
    List V6Lease → List V6Reservation → Scope → (extra : Option ℕ) → (now ip : ℕ) → Bool
is_used_v6 ls rs scope extra now ip =
    any (λ l. in_use_v6 scope.id now l && l.ip_addr == ip) ls
    || (any (λ r. r.scope_id == scope.id && r.ip_addr == ip) rs || is_withheld scope extra ip)

-- The loop; `end` is ipToUint128 of the last address.
unfoldable pub pool_loop_v6 :
    ℕ → (ℕ → Bool) → (start_ip end_ip : ℕ) → (end v : Uint128) → Outcome Error ℕ
pool_loop_v6 zero used s e end v = stuck
pool_loop_v6 (suc fuel) used s e end v =
    let rest = pool_loop_v6 fuel used s e end (ip_add_one v) in
    let candidate = uint128_to_ip v in
    if is_at_most (cmp v end)
    then if used candidate || (candidate == s || candidate == e) then rest else ok candidate
    else err no_available_ip

unfoldable pub allocate_ipv6 :
    ℕ → List V6Lease → List V6Reservation → Scope → (extra : Option ℕ) → (now : ℕ) → Outcome Error ℕ
allocate_ipv6 fuel ls rs scope extra now =
    pool_loop_v6 fuel (is_used_v6 ls rs scope extra now) scope.start_ip scope.end_ip
      (ip_to_uint128 scope.end_ip) (ip_to_uint128 scope.start_ip)
