-- ===== src/Store/V6.antt =====
-- internal/store/store.go and internal/models/models.go: the rows of the tables `v6_leases`,
-- `v6_reservations` and `v6_prefixes`, and the statements on `v6_leases`. A row of `v6_leases`
-- belongs to one identity association: the pair of a client's DUID and an IAID.
pub mod Pool
pub mod Allocate
pub mod Unique
pub mod Grant
pub mod Safe
pub mod Promise
pub mod Prefix
use dhcp_server.Base.{ℕ, ◌≡◌, arith, ◌==◌, Bool, not, ◌&&◌, Option, none, some, List, if◌then◌else◌}
use dhcp_server.Base.Outcome.{Outcome, ok, err}
use dhcp_server.Base.Rows.{find_first, reject}
use dhcp_server.Base.Upsert.{upsert}
use dhcp_server.Store.{LeaseState, IpNet, lease_blocks_reuse}
use dhcp_server.Store.Table.{Error, or_violation, reservation_ip_in_use}

pub record V6Lease : Type 0 where
  pub id : ℕ
  pub scope_id : ℕ
  pub duid : ℕ
  pub iaid : ℕ
  pub ip_addr : ℕ
  pub hostname : ℕ
  pub state : LeaseState
  pub offered_at : Option ℕ
  pub starts_at : ℕ
  pub ends_at : ℕ
  pub created_at : ℕ
  pub updated_at : ℕ

-- The columns of `V6Reservation` that the allocation reads.
pub record V6Reservation : Type 0 where
  pub scope_id : ℕ
  pub duid : ℕ
  pub ip_addr : ℕ

pub record V6Prefix : Type 0 where
  pub id : ℕ
  pub scope_id : ℕ
  pub duid : ℕ
  pub iaid : ℕ
  pub prefix : IpNet
  pub preferred_lifetime : ℕ
  pub valid_lifetime : ℕ
  pub state : LeaseState
  pub starts_at : ℕ
  pub ends_at : ℕ
  pub created_at : ℕ
  pub updated_at : ℕ

-- The call of leaseBlocksReuse on the columns of a row.
unfoldable pub blocks_v6 : V6Lease → (now : ℕ) → Bool
blocks_v6 l now = lease_blocks_reuse l.state l.offered_at l.starts_at l.ends_at l.updated_at now

unfoldable pub is_at_v6 : (scope_id ip : ℕ) → V6Lease → Bool
is_at_v6 s ip l = l.scope_id == s && l.ip_addr == ip

unfoldable pub is_of_v6 : (scope_id duid iaid : ℕ) → V6Lease → Bool
is_of_v6 s duid iaid l = l.scope_id == s && (l.duid == duid && l.iaid == iaid)

unfoldable pub get_v6_lease_by_duid : List V6Lease → (scope_id duid iaid : ℕ) → Option V6Lease
get_v6_lease_by_duid ls s duid iaid = find_first (is_of_v6 s duid iaid) ls

unfoldable pub get_v6_lease_by_ip : List V6Lease → (scope_id ip : ℕ) → Option V6Lease
get_v6_lease_by_ip ls s ip = find_first (is_at_v6 s ip) ls

unfoldable pub get_v6_reservation_by_duid :
    List V6Reservation → (scope_id duid : ℕ) → Option V6Reservation
get_v6_reservation_by_duid rs s duid = find_first (λ r. r.scope_id == s && r.duid == duid) rs

unfoldable pub get_v6_reservation_by_ip :
    List V6Reservation → (scope_id ip : ℕ) → Option V6Reservation
get_v6_reservation_by_ip rs s ip = find_first (λ r. r.scope_id == s && r.ip_addr == ip) rs

-- The DO UPDATE part of saveV6LeaseTx: the columns id and created_at of the row stay.
unfoldable pub overwrite_v6 : V6Lease → V6Lease → V6Lease
overwrite_v6 new l =
    if is_at_v6 new.scope_id new.ip_addr l
    then record l {
      duid = new.duid;
      iaid = new.iaid;
      hostname = new.hostname;
      state = new.state;
      offered_at = new.offered_at;
      starts_at = new.starts_at;
      ends_at = new.ends_at;
      updated_at = new.updated_at;
    }
    else l

-- A row that keeps the new one out: the same association at another address.
unfoldable pub is_rival_v6 : V6Lease → V6Lease → Bool
is_rival_v6 new l =
    is_of_v6 new.scope_id new.duid new.iaid l && not (is_at_v6 new.scope_id new.ip_addr l)

-- saveV6LeaseTx: INSERT … ON CONFLICT (scope_id, ip_addr) DO UPDATE.
unfoldable pub save_v6_lease : V6Lease → List V6Lease → Outcome Error (List V6Lease)
save_v6_lease new ls = or_violation (
    upsert (is_at_v6 new.scope_id new.ip_addr) (is_rival_v6 new) (λ l. l.id == new.id)
      (overwrite_v6 new) new ls)

unfoldable pub delete_v6_lease : (id : ℕ) → List V6Lease → List V6Lease
delete_v6_lease id ls = reject (λ l. l.id == id) ls

unfoldable pub delete_v6_leases_by_duid : (scope_id duid iaid : ℕ) → List V6Lease → List V6Lease
delete_v6_leases_by_duid s duid iaid ls = reject (is_of_v6 s duid iaid) ls

-- ensureV6IPAvailableTx: a stale row of another client is deleted.
unfoldable pub ensure_v6_ip_available :
    List V6Lease → (scope_id ip duid now : ℕ) → Outcome Error (List V6Lease)
ensure_v6_ip_available ls s ip duid now = elim (get_v6_lease_by_ip ls s ip) [
  | none ↦ ok ls
  | some l ↦
      if l.duid == duid
      then ok ls
      else if blocks_v6 l now
      then err reservation_ip_in_use
      else ok (delete_v6_lease l.id ls)
]
