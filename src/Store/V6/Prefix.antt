-- ===== src/Store/V6/Prefix.antt =====
-- internal/store/store.go: AllocateV6Prefix, with allocatePrefixTx and saveV6PrefixTx, on the rows of
-- the table `v6_prefixes`. Its constraints are UNIQUE (scope_id, duid, iaid), UNIQUE (scope_id,
-- prefix) and the primary key id.
pub mod Promise
pub mod Pool
use dhcp_server.Base.{ℕ, zero, suc, ◌+◌, ◌-◌, ◌*◌, ◌^◌, ltb, leb, ◌==◌, Bool, true, false, not}
use dhcp_server.Base.{◌&&◌, ◌||◌, Option, none, some, List, if◌then◌else◌}
use dhcp_server.Base.Outcome.{Outcome, ok, err, stuck, ◌>>=◌}
use dhcp_server.Base.Rows.{any, find_first, reject}
use dhcp_server.Base.Upsert.{upsert}
use dhcp_server.Store.{Scope, IpNet, LeaseState, offered, is_active, is_offered, contains_v6}
use dhcp_server.Store.{second, offer_timeout_seconds}
use dhcp_server.Store.Table.{
  Error, or_violation, no_prefix_configured, prefix_pool_too_small, prefix_pool_too_large,
  no_available_prefix,
}
use dhcp_server.Store.Allocate.{capped_lease_time}
use dhcp_server.Store.Uint128.{Uint128, ip_to_uint128, uint128_to_ip, prefix_candidate}
use dhcp_server.Store.V6.{V6Prefix}

-- The arguments of one call, with the clock, the fresh identifier and the fuel of the search.
pub record PrefixRequest : Type 0 where
  pub scope : Scope
  pub duid : ℕ
  pub iaid : ℕ
  pub lease_time : ℕ
  pub max_lease_time : ℕ
  pub now : ℕ
  pub new_id : ℕ
  pub fuel : ℕ

abbrev pub PrefixResult : Type 0
PrefixResult = Outcome Error (V6Prefix × List V6Prefix)

abbrev pub delegated_len : ℕ
delegated_len = 64

unfoldable pub is_prefix_of : (scope_id duid iaid : ℕ) → V6Prefix → Bool
is_prefix_of s duid iaid p = p.scope_id == s && (p.duid == duid && p.iaid == iaid)

-- Two networks whose String is the same.
unfoldable pub is_same_net : IpNet → IpNet → Bool
is_same_net a b = a.ip == b.ip && a.ones == b.ones

unfoldable pub has_prefix : (scope_id : ℕ) → IpNet → V6Prefix → Bool
has_prefix s net p = p.scope_id == s && is_same_net p.prefix net

unfoldable pub get_v6_prefix_by_duid : List V6Prefix → (scope_id duid iaid : ℕ) → Option V6Prefix
get_v6_prefix_by_duid ps s duid iaid = find_first (is_prefix_of s duid iaid) ps

-- The DO UPDATE part of saveV6PrefixTx: the columns id and created_at of the row stay.
unfoldable pub overwrite_prefix : V6Prefix → V6Prefix → V6Prefix
overwrite_prefix new p =
    if is_prefix_of new.scope_id new.duid new.iaid p
    then record p {
      prefix = new.prefix;
      preferred_lifetime = new.preferred_lifetime;
      valid_lifetime = new.valid_lifetime;
      state = new.state;
      starts_at = new.starts_at;
      ends_at = new.ends_at;
      updated_at = new.updated_at;
    }
    else p

-- A row that keeps the new one out: another association with the same prefix.
unfoldable pub is_rival_prefix : V6Prefix → V6Prefix → Bool
is_rival_prefix new p =
    has_prefix new.scope_id new.prefix p && not (is_prefix_of new.scope_id new.duid new.iaid p)

-- saveV6PrefixTx: INSERT … ON CONFLICT (scope_id, duid, iaid) DO UPDATE.
unfoldable pub save_v6_prefix : V6Prefix → List V6Prefix → Outcome Error (List V6Prefix)
save_v6_prefix new ps = or_violation (
    upsert (is_prefix_of new.scope_id new.duid new.iaid) (is_rival_prefix new) (λ p. p.id == new.id)
      (overwrite_prefix new) new ps)

-- The WHERE clause of the query for the prefixes in use.
unfoldable pub is_prefix_in_use : (scope_id now : ℕ) → V6Prefix → Bool
is_prefix_in_use s now p =
    p.scope_id == s
    && ((is_active p.state && ltb now p.ends_at)
        || (is_offered p.state && ltb now (p.starts_at + offer_timeout_seconds * second)))

-- `used[candidate.String()]`.
unfoldable pub is_used_prefix : List V6Prefix → (scope_id now : ℕ) → IpNet → Bool
is_used_prefix ps s now net = any (λ p. is_prefix_in_use s now p && is_same_net p.prefix net) ps

unfoldable pub candidate_net : (base : Uint128) → (i : ℕ) → IpNet
candidate_net base i = record {
  ip = uint128_to_ip (prefix_candidate base delegated_len i);
  ones = delegated_len;
}

-- The loop; `count` is at most 2^48, so `i++` on a uint64 does not wrap around.
unfoldable pub prefix_loop :
    ℕ → (IpNet → Bool) → (base : Uint128) → (count i : ℕ) → Outcome Error IpNet
prefix_loop zero used base count i = stuck
prefix_loop (suc fuel) used base count i =
    let rest = prefix_loop fuel used base count (i + 1) in
    if ltb i count
    then if used (candidate_net base i) then rest else ok (candidate_net base i)
    else err no_available_prefix

-- The candidate, and the table without the stale rows that have it.
unfoldable pub allocate_prefix :
    ℕ → List V6Prefix → Scope → (now : ℕ) → Outcome Error (IpNet × List V6Prefix)
allocate_prefix fuel ps scope now = elim scope.prefix [
  | none ↦ err no_prefix_configured
  | some pool ↦
      if leb delegated_len pool.ones
      then err prefix_pool_too_small
      else if ltb 48 (delegated_len - pool.ones)
      then err prefix_pool_too_large
      else prefix_loop fuel (is_used_prefix ps scope.id now) (ip_to_uint128 pool.ip)
          (2 ^ (delegated_len - pool.ones)) 0
        >>= λ net. ok (net, reject (has_prefix scope.id net) ps)
]

unfoldable pub prefix_ends_at : PrefixRequest → ℕ
prefix_ends_at q = q.now + capped_lease_time q.lease_time q.max_lease_time * second

-- The `&models.V6Prefix{…}` of the function, for its prefix.
unfoldable pub new_v6_prefix : PrefixRequest → IpNet → V6Prefix
new_v6_prefix q net = record {
  id = q.new_id;
  scope_id = q.scope.id;
  duid = q.duid;
  iaid = q.iaid;
  prefix = net;
  preferred_lifetime = capped_lease_time q.lease_time q.max_lease_time;
  valid_lifetime = capped_lease_time q.lease_time q.max_lease_time;
  state = offered;
  starts_at = q.now;
  ends_at = prefix_ends_at q;
  created_at = q.now;
  updated_at = q.now;
}

unfoldable pub renewed_v6_prefix : PrefixRequest → V6Prefix → V6Prefix
renewed_v6_prefix q p = record p {
  state = if is_active p.state then p.state else offered;
  preferred_lifetime = capped_lease_time q.lease_time q.max_lease_time;
  valid_lifetime = capped_lease_time q.lease_time q.max_lease_time;
  starts_at = q.now;
  ends_at = prefix_ends_at q;
  updated_at = q.now;
}

unfoldable pub save_and_return_prefix : V6Prefix → List V6Prefix → PrefixResult
save_and_return_prefix p ps = save_v6_prefix p ps >>= λ ps'. ok (p, ps')

-- The existing prefix is live and still in the pool.
unfoldable pub is_kept_prefix : PrefixRequest → V6Prefix → Bool
is_kept_prefix q p =
    (is_active p.state || is_offered p.state) && contains_v6 q.scope.prefix p.prefix.ip

unfoldable pub delegate : PrefixRequest → List V6Prefix → PrefixResult
delegate q ps = allocate_prefix q.fuel ps q.scope q.now >>= λ x.
    let (net, ps') = x in save_and_return_prefix (new_v6_prefix q net) ps'

unfoldable pub allocate_v6_prefix : PrefixRequest → List V6Prefix → PrefixResult
allocate_v6_prefix q ps = elim (get_v6_prefix_by_duid ps q.scope.id q.duid q.iaid) [
  | none ↦ delegate q ps
  | some p ↦
      if is_kept_prefix q p
      then save_and_return_prefix (renewed_v6_prefix q p) ps
      else delegate q ps
]
