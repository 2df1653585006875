-- ===== src/Store.antt =====
-- internal/store/store.go and internal/models/models.go: the rows of the tables `leases` and
-- `reservations`, the scope, and the clock. Text (identifiers, hardware addresses, names) is only
-- compared for equality, so a number stands for it; an IPv4 address is its number of 32 bits and an IPv6
-- address its number of 128 bits; an
-- instant is a count of microseconds, the resolution of the database.
pub mod Table
pub mod Uint128
pub mod Pool
pub mod Unique
pub mod Save
pub mod Grant
pub mod Safe
pub mod Promise
pub mod Allocate
pub mod V6
pub mod Lifecycle
pub mod Steps
pub mod Holders
pub mod Hosts
use dhcp_server.Base.{ℕ, ◌+◌, ◌-◌, ◌*◌, ◌/◌, ◌^◌, Bool, true, false, ◌&&◌, ◌||◌, ltb, leb, ◌==◌}
use dhcp_server.Base.{Option, none, some, List, if◌then◌else◌}

-- `LeaseState`, which is a string: `other` is each string that the program does not name.
pub data LeaseState : Type 0 where
  active : LeaseState
  expired : LeaseState
  released : LeaseState
  offered : LeaseState
  declined : LeaseState
  other : LeaseState

unfoldable pub is_active : LeaseState → Bool
is_active active = true
is_active _ = false

unfoldable pub is_offered : LeaseState → Bool
is_offered offered = true
is_offered _ = false

unfoldable pub is_declined : LeaseState → Bool
is_declined declined = true
is_declined _ = false

-- `Lease`; its field Reserved is no column of the table.
pub record Lease : Type 0 where
  pub id : ℕ
  pub scope_id : ℕ
  pub mac_addr : ℕ
  pub ip_addr : ℕ
  pub hostname : ℕ
  pub client_id : ℕ
  pub state : LeaseState
  pub offered_at : Option ℕ
  pub starts_at : ℕ
  pub ends_at : ℕ
  pub created_at : ℕ
  pub updated_at : ℕ

-- The columns of `Reservation` that the allocation reads.
pub record Reservation : Type 0 where
  pub scope_id : ℕ
  pub mac_addr : ℕ
  pub ip_addr : ℕ

-- A network: its address and the length of its mask.
pub record IpNet : Type 0 where
  pub ip : ℕ
  pub ones : ℕ

-- The fields of `Scope` that the allocations read; `prefix` is the pool of delegated prefixes.
pub record Scope : Type 0 where
  pub id : ℕ
  pub subnet : Option IpNet
  pub start_ip : ℕ
  pub end_ip : ℕ
  pub gateway : List ℕ
  pub dns : List ℕ
  pub excluded_ips : List ℕ
  pub prefix : Option IpNet

-- `IPNet.Contains` of the package net.
unfoldable pub contains : Option IpNet → ℕ → Bool
contains none ip = false
contains (some net) ip = ip / 2 ^ (32 - net.ones) == net.ip / 2 ^ (32 - net.ones)

abbrev pub second : ℕ
second = 1000000

abbrev pub offer_timeout_seconds : ℕ
offer_timeout_seconds = 120

abbrev pub decline_quarantine_seconds : ℕ
decline_quarantine_seconds = 3600

unfoldable pub contains_v6 : Option IpNet → ℕ → Bool
contains_v6 none ip = false
contains_v6 (some net) ip = ip / 2 ^ (128 - net.ones) == net.ip / 2 ^ (128 - net.ones)

unfoldable pub or_else : Option ℕ → ℕ → ℕ
or_else none x = x
or_else (some a) x = a

unfoldable pub lease_blocks_reuse :
    LeaseState → (offered_at : Option ℕ) (starts_at ends_at updated_at now : ℕ) → Bool
lease_blocks_reuse active offered_at starts_at ends_at updated_at now = ltb now ends_at
lease_blocks_reuse offered offered_at starts_at ends_at updated_at now =
    ltb now (or_else offered_at starts_at + offer_timeout_seconds * second)
lease_blocks_reuse declined offered_at starts_at ends_at updated_at now =
    ltb now (updated_at + decline_quarantine_seconds * second)
lease_blocks_reuse _ offered_at starts_at ends_at updated_at now = false

-- The call of leaseBlocksReuse on the columns of a row.
unfoldable pub blocks : Lease → (now : ℕ) → Bool
blocks l now = lease_blocks_reuse l.state l.offered_at l.starts_at l.ends_at l.updated_at now
