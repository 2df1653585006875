-- ===== src/Store/Table.antt =====
-- internal/store/store.go: the statements on the table `leases` inside a transaction. The table is
-- the list of its rows; its constraints are UNIQUE (scope_id, ip_addr), UNIQUE (scope_id, mac_addr)
-- and the primary key id.
use dhcp_server.Base.{ℕ, ◌==◌, Bool, not, ◌&&◌, Option, none, some, List}
use dhcp_server.Base.{if◌then◌else◌}
use dhcp_server.Base.Outcome.{Outcome, ok, err}
use dhcp_server.Base.{◌≡◌, arith}
use dhcp_server.Base.Upsert.{upsert}
use dhcp_server.Base.Rows.{find_first, reject}
use dhcp_server.Store.{Lease, Reservation, blocks}

pub data Error : Type 0 where
  unique_violation : Error
  reservation_ip_in_use : Error
  no_available_ip : Error
  no_prefix_configured : Error
  prefix_pool_too_small : Error
  prefix_pool_too_large : Error
  no_available_prefix : Error

unfoldable pub is_at : (scope_id ip : ℕ) → Lease → Bool
is_at s ip l = l.scope_id == s && l.ip_addr == ip

unfoldable pub is_of : (scope_id mac : ℕ) → Lease → Bool
is_of s mac l = l.scope_id == s && l.mac_addr == mac

unfoldable pub get_lease_by_mac : List Lease → (scope_id mac : ℕ) → Option Lease
get_lease_by_mac ls s mac = find_first (is_of s mac) ls

unfoldable pub get_lease_by_ip : List Lease → (scope_id ip : ℕ) → Option Lease
get_lease_by_ip ls s ip = find_first (is_at s ip) ls

unfoldable pub get_reservation_by_mac : List Reservation → (scope_id mac : ℕ) → Option Reservation
get_reservation_by_mac rs s mac = find_first (λ r. r.scope_id == s && r.mac_addr == mac) rs

unfoldable pub get_reservation_by_ip : List Reservation → (scope_id ip : ℕ) → Option Reservation
get_reservation_by_ip rs s ip = find_first (λ r. r.scope_id == s && r.ip_addr == ip) rs

-- The DO UPDATE part of saveLeaseTx: the columns id and created_at of the row stay.
unfoldable pub overwrite : Lease → Lease → Lease
overwrite new l =
    if is_at new.scope_id new.ip_addr l
    then record l {
      mac_addr = new.mac_addr;
      hostname = new.hostname;
      client_id = new.client_id;
      state = new.state;
      offered_at = new.offered_at;
      starts_at = new.starts_at;
      ends_at = new.ends_at;
      updated_at = new.updated_at;
    }
    else l

-- A row that keeps the new one out: the same client at another address.
unfoldable pub is_rival : Lease → Lease → Bool
is_rival new l = is_of new.scope_id new.mac_addr l && not (is_at new.scope_id new.ip_addr l)

unfoldable pub or_violation : {A : Type 0} → Option A → Outcome Error A
or_violation none = err unique_violation
or_violation (some a) = ok a

pub or_violation-eq-ok : {A : Type 0} (m : Option A) (a : A) → or_violation m ≡ ok a → m ≡ some a
unfolding or_violation
or_violation-eq-ok none a h = cc
or_violation-eq-ok (some b) a h = ground arith

-- saveLeaseTx: INSERT … ON CONFLICT (scope_id, ip_addr) DO UPDATE.
unfoldable pub save_lease : Lease → List Lease → Outcome Error (List Lease)
save_lease new ls = or_violation (
    upsert (is_at new.scope_id new.ip_addr) (is_rival new) (λ l. l.id == new.id) (overwrite new) new
      ls)

unfoldable pub delete_lease : (id : ℕ) → List Lease → List Lease
delete_lease id ls = reject (λ l. l.id == id) ls

unfoldable pub delete_leases_by_mac : (scope_id mac : ℕ) → List Lease → List Lease
delete_leases_by_mac s mac ls = reject (is_of s mac) ls

-- ensureIPAvailableTx: a stale row of another client is deleted.
unfoldable pub ensure_ip_available :
    List Lease → (scope_id ip mac now : ℕ) → Outcome Error (List Lease)
ensure_ip_available ls s ip mac now = elim (get_lease_by_ip ls s ip) [
  | none ↦ ok ls
  | some l ↦
      if l.mac_addr == mac
      then ok ls
      else if blocks l now
      then err reservation_ip_in_use
      else ok (delete_lease l.id ls)
]
