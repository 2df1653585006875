-- ===== src/Store/Allocate.antt =====
-- internal/store/store.go: AllocateV4Lease. The advisory lock serialises the transactions of a
-- scope, so one call is one step on the tables; an error rolls the step back. The clock of the
-- database and the fresh identifier are arguments.
use dhcp_server.Base.{ℕ, ◌+◌, ◌*◌, ltb, leb, ◌==◌, Bool, true, false, not, ◌&&◌, ◌||◌}
use dhcp_server.Base.{Option, none, some, List, if◌then◌else◌}
use dhcp_server.Base.Outcome.{Outcome, ok, ◌>>=◌}
use dhcp_server.Base.Rows.{any}
use dhcp_server.Store.{offered, is_active, is_offered, is_declined, Lease, Reservation, Scope}
use dhcp_server.Store.{contains, second, blocks}
use dhcp_server.Store.Table.{Error, get_lease_by_mac, get_lease_by_ip, get_reservation_by_mac}
use dhcp_server.Store.Table.{get_reservation_by_ip, save_lease, delete_lease, delete_leases_by_mac}
use dhcp_server.Store.Table.{ensure_ip_available}
use dhcp_server.Store.Pool.{allocate_ipv4}

-- The arguments of one call, with the clock, the fresh identifier and the fuel of the pool's loop.
pub record Request : Type 0 where
  pub scope : Scope
  pub mac : ℕ
  pub client_id : ℕ
  pub preferred : Option ℕ
  pub hostname : ℕ
  pub lease_time : ℕ
  pub max_lease_time : ℕ
  pub now : ℕ
  pub new_id : ℕ
  pub fuel : ℕ

pub record Tables : Type 0 where
  pub leases : List Lease
  pub reservations : List Reservation

abbrev pub Result : Type 0
Result = Outcome Error (Lease × List Lease)

unfoldable pub or_default : ℕ → ℕ → ℕ
or_default t d = if t == 0 then d else t

-- The lease time in seconds, after the defaults and the cap.
unfoldable pub capped_lease_time : (lease_time max_lease_time : ℕ) → ℕ
capped_lease_time t m =
    let t' = or_default t 3600 in let m' = or_default m 86400 in if ltb m' t' then m' else t'

unfoldable pub ends_at : Request → ℕ
ends_at q = q.now + capped_lease_time q.lease_time q.max_lease_time * second

unfoldable pub ip_in_range : (ip start_ip end_ip : ℕ) → Bool
ip_in_range ip s e = leb s ip && leb ip e

unfoldable pub is_excluded_ip : Scope → ℕ → Bool
is_excluded_ip scope ip =
    any (◌==◌ ip) scope.excluded_ips || (any (◌==◌ ip) scope.gateway || any (◌==◌ ip) scope.dns)

-- `reservedForOther`.
unfoldable pub is_reserved_for_other : List Reservation → (scope_id ip mac : ℕ) → Bool
is_reserved_for_other rs s ip mac = elim (get_reservation_by_ip rs s ip) [
  | none ↦ false
  | some r ↦ not (r.mac_addr == mac)
]

-- Each `&models.Lease{…}` of the function, for its address.
unfoldable pub new_lease : Request → ℕ → Lease
new_lease q ip = record {
  id = q.new_id;
  scope_id = q.scope.id;
  mac_addr = q.mac;
  ip_addr = ip;
  hostname = q.hostname;
  client_id = q.client_id;
  state = offered;
  offered_at = some q.now;
  starts_at = q.now;
  ends_at = ends_at q;
  created_at = q.now;
  updated_at = q.now;
}

unfoldable pub renewed_lease : Request → Lease → Lease
renewed_lease q l = record l {
  hostname = q.hostname;
  client_id = q.client_id;
  state = if is_active l.state then l.state else offered;
  offered_at = if is_active l.state then l.offered_at else some q.now;
  starts_at = q.now;
  ends_at = ends_at q;
  updated_at = q.now;
}

unfoldable pub save_and_return : Lease → List Lease → Result
save_and_return l ls = save_lease l ls >>= λ ls'. ok (l, ls')

-- The existing lease of the client is live, in range, and no reservation speaks against it.
unfoldable pub is_kept : Request → List Reservation → Lease → Bool
is_kept q rs l =
    (is_active l.state || is_offered l.state)
    && (ip_in_range l.ip_addr q.scope.start_ip q.scope.end_ip
        && (not (is_reserved_for_other rs q.scope.id l.ip_addr q.mac)
            && elim (get_reservation_by_mac rs q.scope.id q.mac) [
              | none ↦ true
              | some r ↦ l.ip_addr == r.ip_addr
            ]))

-- `declinedIP`.
unfoldable pub declined_ip : Request → Lease → Option ℕ
declined_ip q l = if is_declined l.state && blocks l q.now then some l.ip_addr else none

unfoldable pub assign_from_pool :
    Request → List Reservation → (declined : Option ℕ) → List Lease → Result
assign_from_pool q rs declined ls =
    allocate_ipv4 q.fuel ls rs q.scope declined q.now >>= λ ip. save_and_return (new_lease q ip) ls

-- `occupied == nil || occupied.MACAddr == mac || !leaseBlocksReuse(…)`.
unfoldable pub is_open : Request → Option Lease → Bool
is_open q none = true
is_open q (some l) = l.mac_addr == q.mac || not (blocks l q.now)

-- A stale row of another client at the preferred address is deleted.
unfoldable pub evict : Request → Option Lease → List Lease → List Lease
evict q none ls = ls
evict q (some l) ls = if l.mac_addr == q.mac then ls else delete_lease l.id ls

unfoldable pub is_usable :
    Request → List Reservation → (declined : Option ℕ) → List Lease → ℕ → Bool
is_usable q rs declined ls ip =
    contains q.scope.subnet ip
    && (not (is_reserved_for_other rs q.scope.id ip q.mac)
        && (is_open q (get_lease_by_ip ls q.scope.id ip)
            && (not (elim declined [ none ↦ false | some d ↦ ip == d ])
                && not (is_excluded_ip q.scope ip))))

unfoldable pub assign_preferred :
    Request → List Reservation → (declined : Option ℕ) → List Lease → ℕ → Result
assign_preferred q rs declined ls ip =
    if is_usable q rs declined ls ip
    then save_and_return (new_lease q ip) (evict q (get_lease_by_ip ls q.scope.id ip) ls)
    else assign_from_pool q rs declined ls

unfoldable pub assign_reserved : Request → Reservation → List Lease → Result
assign_reserved q r ls = ensure_ip_available ls q.scope.id r.ip_addr q.mac q.now >>= λ ls'.
    save_and_return (new_lease q r.ip_addr) ls'

-- The steps 3 and 4, when the client has no lease that it keeps.
unfoldable pub assign : Request → List Reservation → (declined : Option ℕ) → List Lease → Result
assign q rs declined ls = elim (get_reservation_by_mac rs q.scope.id q.mac) [
  | some r ↦ assign_reserved q r ls
  | none ↦ elim q.preferred [
    | none ↦ assign_from_pool q rs declined ls
    | some ip ↦ assign_preferred q rs declined ls ip
  ]
]

unfoldable pub allocate_v4_lease : Request → Tables → Result
allocate_v4_lease q t = elim (get_lease_by_mac t.leases q.scope.id q.mac) [
  | none ↦ assign q t.reservations none t.leases
  | some l ↦
      if is_kept q t.reservations l
      then save_and_return (renewed_lease q l) t.leases
      else assign q t.reservations (declined_ip q l)
          (delete_leases_by_mac q.scope.id q.mac t.leases)
]
