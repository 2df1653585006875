-- ===== src/Store/Pool.antt =====
-- internal/store/store.go: allocateIPv4Tx, the search of the pool for the first free address.
pub mod FirstFree
pub mod Search
use dhcp_server.Base.{
  ℕ, zero, suc, ◌+◌, ◌*◌, ◌-◌, ◌%◌, ◌^◌, ◌<◌, ◌≤◌, ◌≡◌, ◌≢◌, ◌⊎◌, inl, inr, refl, ap, ltb, leb,
  ◌==◌,
}
use dhcp_server.Base.{
  Bool, true, false, Bool-cases, ltb→le, ◌&&◌, ◌||◌, List, [], ◌∷◌, ◌++◌, map, if◌then◌else◌, arith,
}
use dhcp_server.Base.{Option, none, some}
use dhcp_server.Base.Outcome.{Outcome, ok, err, stuck, Outcome-cases}
use dhcp_server.Base.Rows.{any}
use dhcp_server.Store.{
  LeaseState, blocks, lease_blocks_reuse, active, offered, declined, is_active, is_offered,
  is_declined, Lease, Reservation, Scope,
}
use dhcp_server.Store.{or_else, second, offer_timeout_seconds, decline_quarantine_seconds}
use dhcp_server.Store.Table.{Error, no_available_ip}

-- The WHERE clause of the queries for the addresses in use, on the columns of a row.
unfoldable pub is_occupied :
    LeaseState → (offered_at : Option ℕ) (starts_at ends_at updated_at now : ℕ) → Bool
is_occupied st o s e u now =
    (is_active st && ltb now e)
    || ((is_offered st && ltb now (or_else o s + offer_timeout_seconds * second))
        || (is_declined st && ltb now (u + decline_quarantine_seconds * second)))

unfoldable pub in_use : (scope_id now : ℕ) → Lease → Bool
in_use s now l =
    l.scope_id == s && is_occupied l.state l.offered_at l.starts_at l.ends_at l.updated_at now

-- The addresses that the scope and the caller keep out of the pool.
unfoldable pub is_withheld : Scope → (extra : Option ℕ) → (ip : ℕ) → Bool
is_withheld scope extra ip =
    any (◌==◌ ip) scope.excluded_ips
    || (any (◌==◌ ip) scope.gateway
        || (any (◌==◌ ip) scope.dns || elim extra [ none ↦ false | some e ↦ e == ip ]))

-- `used[ipKey(ip)]`, the map filled from the two tables, the scope and the extra address.
unfoldable pub is_used :
    List Lease → List Reservation → Scope → (extra : Option ℕ) → (now ip : ℕ) → Bool
is_used ls rs scope extra now ip =
    any (λ l. in_use scope.id now l && l.ip_addr == ip) ls
    || (any (λ r. r.scope_id == scope.id && r.ip_addr == ip) rs || is_withheld scope extra ip)

-- The loop; `ip++` on a uint32 wraps around.
unfoldable pub pool_loop : ℕ → (ℕ → Bool) → (start_ip end_ip ip : ℕ) → Outcome Error ℕ
pool_loop zero used s e ip = stuck
pool_loop (suc fuel) used s e ip =
    let rest = pool_loop fuel used s e ((ip + 1) % 2 ^ 32) in
    if ltb e ip
    then err no_available_ip
    else if used ip || (ip == s || ip == e)
    then rest
    else ok ip

unfoldable pub allocate_ipv4 :
    ℕ → List Lease → List Reservation → Scope → (extra : Option ℕ) → (now : ℕ) → Outcome Error ℕ
allocate_ipv4 fuel ls rs scope extra now =
    pool_loop fuel (is_used ls rs scope extra now) scope.start_ip scope.end_ip scope.start_ip
