-- ===== src/Store/V6/Allocate.antt =====
-- internal/store/store.go: AllocateV6Lease. As for IPv4, the advisory lock makes one call one step on
-- the tables, and an error rolls the step back. The existing lease is that of the association (DUID
-- and IAID), while reservations and occupants are compared by the DUID alone.
use dhcp_server.Base.{ℕ, ◌+◌, ◌*◌, ◌==◌, Bool, true, false, not, ◌&&◌, ◌||◌}
use dhcp_server.Base.{Option, none, some, List, if◌then◌else◌}
use dhcp_server.Base.Outcome.{Outcome, ok, ◌>>=◌}
use dhcp_server.Store.{offered, is_active, is_offered, is_declined, Scope, contains_v6, second}
use dhcp_server.Store.Table.{Error}
use dhcp_server.Store.Allocate.{capped_lease_time, ip_in_range, is_excluded_ip}
use dhcp_server.Store.V6.{V6Lease, V6Reservation, blocks_v6, get_v6_lease_by_duid}
use dhcp_server.Store.V6.{get_v6_lease_by_ip, get_v6_reservation_by_duid, get_v6_reservation_by_ip}
use dhcp_server.Store.V6.{save_v6_lease, delete_v6_lease, delete_v6_leases_by_duid}
use dhcp_server.Store.V6.{ensure_v6_ip_available}
use dhcp_server.Store.V6.Pool.{allocate_ipv6}

-- The arguments of one call, with the clock, the fresh identifier and the fuel of the pool's loop.
pub record V6Request : Type 0 where
  pub scope : Scope
  pub duid : ℕ
  pub iaid : ℕ
  pub preferred : Option ℕ
  pub hostname : ℕ
  pub lease_time : ℕ
  pub max_lease_time : ℕ
  pub now : ℕ
  pub new_id : ℕ
  pub fuel : ℕ

pub record V6Tables : Type 0 where
  pub leases : List V6Lease
  pub reservations : List V6Reservation

abbrev pub V6Result : Type 0
V6Result = Outcome Error (V6Lease × List V6Lease)

unfoldable pub ends_at_v6 : V6Request → ℕ
ends_at_v6 q = q.now + capped_lease_time q.lease_time q.max_lease_time * second

-- `reservedForOther`.
unfoldable pub is_reserved_for_other_v6 : List V6Reservation → (scope_id ip duid : ℕ) → Bool
is_reserved_for_other_v6 rs s ip duid = elim (get_v6_reservation_by_ip rs s ip) [
  | none ↦ false
  | some r ↦ not (r.duid == duid)
]

-- Each `&models.V6Lease{…}` of the function, for its address.
unfoldable pub new_v6_lease : V6Request → ℕ → V6Lease
new_v6_lease q ip = record {
  id = q.new_id;
  scope_id = q.scope.id;
  duid = q.duid;
  iaid = q.iaid;
  ip_addr = ip;
  hostname = q.hostname;
  state = offered;
  offered_at = some q.now;
  starts_at = q.now;
  ends_at = ends_at_v6 q;
  created_at = q.now;
  updated_at = q.now;
}

unfoldable pub renewed_v6_lease : V6Request → V6Lease → V6Lease
renewed_v6_lease q l = record l {
  hostname = q.hostname;
  state = if is_active l.state then l.state else offered;
  offered_at = if is_active l.state then l.offered_at else some q.now;
  starts_at = q.now;
  ends_at = ends_at_v6 q;
  updated_at = q.now;
}

unfoldable pub save_and_return_v6 : V6Lease → List V6Lease → V6Result
save_and_return_v6 l ls = save_v6_lease l ls >>= λ ls'. ok (l, ls')

-- The existing lease is live, in range, and no reservation speaks against it.
unfoldable pub is_kept_v6 : V6Request → List V6Reservation → V6Lease → Bool
is_kept_v6 q rs l =
    (is_active l.state || is_offered l.state)
    && (ip_in_range l.ip_addr q.scope.start_ip q.scope.end_ip
        && (not (is_reserved_for_other_v6 rs q.scope.id l.ip_addr q.duid)
            && elim (get_v6_reservation_by_duid rs q.scope.id q.duid) [
              | none ↦ true
              | some r ↦ l.ip_addr == r.ip_addr
            ]))

-- `declinedIP`.
unfoldable pub declined_ip_v6 : V6Request → V6Lease → Option ℕ
declined_ip_v6 q l = if is_declined l.state && blocks_v6 l q.now then some l.ip_addr else none

unfoldable pub assign_from_pool_v6 :
    V6Request → List V6Reservation → (declined : Option ℕ) → List V6Lease → V6Result
assign_from_pool_v6 q rs declined ls = allocate_ipv6 q.fuel ls rs q.scope declined q.now >>= λ ip.
    save_and_return_v6 (new_v6_lease q ip) ls

-- `occupied == nil || occupied.DUID == duid || !leaseBlocksReuse(…)`.
unfoldable pub is_open_v6 : V6Request → Option V6Lease → Bool
is_open_v6 q none = true
is_open_v6 q (some l) = l.duid == q.duid || not (blocks_v6 l q.now)

-- A stale row of another client at the preferred address is deleted.
unfoldable pub evict_v6 : V6Request → Option V6Lease → List V6Lease → List V6Lease
evict_v6 q none ls = ls
evict_v6 q (some l) ls = if l.duid == q.duid then ls else delete_v6_lease l.id ls

unfoldable pub is_usable_v6 :
    V6Request → List V6Reservation → (declined : Option ℕ) → List V6Lease → ℕ → Bool
is_usable_v6 q rs declined ls ip =
    contains_v6 q.scope.subnet ip
    && (not (is_reserved_for_other_v6 rs q.scope.id ip q.duid)
        && (is_open_v6 q (get_v6_lease_by_ip ls q.scope.id ip)
            && (not (elim declined [ none ↦ false | some d ↦ ip == d ])
                && not (is_excluded_ip q.scope ip))))

unfoldable pub assign_preferred_v6 :
    V6Request → List V6Reservation → (declined : Option ℕ) → List V6Lease → ℕ → V6Result
assign_preferred_v6 q rs declined ls ip =
    if is_usable_v6 q rs declined ls ip
    then save_and_return_v6 (new_v6_lease q ip)
        (evict_v6 q (get_v6_lease_by_ip ls q.scope.id ip) ls)
    else assign_from_pool_v6 q rs declined ls

unfoldable pub assign_reserved_v6 : V6Request → V6Reservation → List V6Lease → V6Result
assign_reserved_v6 q r ls = ensure_v6_ip_available ls q.scope.id r.ip_addr q.duid q.now >>= λ ls'.
    save_and_return_v6 (new_v6_lease q r.ip_addr) ls'

-- The steps 3 and 4, when the association has no lease that it keeps.
unfoldable pub assign_v6 :
    V6Request → List V6Reservation → (declined : Option ℕ) → List V6Lease → V6Result
assign_v6 q rs declined ls = elim (get_v6_reservation_by_duid rs q.scope.id q.duid) [
  | some r ↦ assign_reserved_v6 q r ls
  | none ↦ elim q.preferred [
    | none ↦ assign_from_pool_v6 q rs declined ls
    | some ip ↦ assign_preferred_v6 q rs declined ls ip
  ]
]

unfoldable pub allocate_v6_lease : V6Request → V6Tables → V6Result
allocate_v6_lease q t = elim (get_v6_lease_by_duid t.leases q.scope.id q.duid q.iaid) [
  | none ↦ assign_v6 q t.reservations none t.leases
  | some l ↦
      if is_kept_v6 q t.reservations l
      then save_and_return_v6 (renewed_v6_lease q l) t.leases
      else assign_v6 q t.reservations (declined_ip_v6 q l)
          (delete_v6_leases_by_duid q.scope.id q.duid q.iaid t.leases)
]
