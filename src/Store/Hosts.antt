-- ===== src/Store/Hosts.antt =====
-- internal/store/store.go: LookupHostname, which the DNS server asks for a name. A text is a
-- number, the empty one 0, and LOWER is an argument; a row is joined with the domain of its scope.
pub mod Membership
pub mod Found
use dhcp_server.Base.{
  ℕ, ◌==◌, ◌/◌, ◌^◌, ltb, not, ◌&&◌, ◌||◌, Bool, true, Bool-cases, if◌then◌else◌,
}
use dhcp_server.Base.{List, [], ◌∷◌, ◌++◌, ◌≡◌, inl, inr, refl, ap, ◌∙◌, arith}
use dhcp_server.Base.{false, ◌≢◌, ◌⊎◌, ◌↔◌, ◌<◌, sym}
use dhcp_server.Base.Rows.{any, reject, any_of_mem, mem_of_any}
use dhcp_server.Store.{LeaseState, active, expired, released, offered, declined, other, is_active}
use mathlib.Core.List.{Memᴰ}

-- A reservation joined with its scope.
pub record Host : Type 0 where
  pub ip_addr : ℕ
  pub hostname : ℕ
  pub domain_name : ℕ

-- A lease joined with its scope.
pub record HostLease : Type 0 where
  pub host : Host
  pub state : LeaseState
  pub ends_at : ℕ

unfoldable pub is_current : (now : ℕ) → HostLease → Bool
is_current now l = not (l.host.hostname == 0) && (is_active l.state && ltb now l.ends_at)

module _ (lower : ℕ → ℕ) (hostname domain : ℕ) where
  -- The comparisons of the WHERE clauses.
  unfoldable pub is_named : Host → Bool
  is_named h =
      lower h.hostname == lower hostname && (domain == 0 || lower h.domain_name == lower domain)

  unfoldable pub lease_addresses : (now : ℕ) → List HostLease → List ℕ
  lease_addresses now [] = []
  lease_addresses now (l ∷ ls) =
      let rest = lease_addresses now ls in
      if is_current now l && is_named l.host then l.host.ip_addr ∷ rest else rest

  unfoldable pub reserved_addresses : List Host → List ℕ
  reserved_addresses [] = []
  reserved_addresses (r ∷ rs) =
      let rest = reserved_addresses rs in
      if not (r.hostname == 0) && is_named r then r.ip_addr ∷ rest else rest

-- `UNION` keeps one of the rows that are the same.
unfoldable pub distinct : List ℕ → List ℕ
distinct [] = []
distinct (a ∷ as_) = let rest = distinct as_ in if any (◌==◌ a) as_ then rest else a ∷ rest

unfoldable pub lookup_addresses :
    (lower : ℕ → ℕ) (hostname domain now : ℕ) → List HostLease → List Host → List ℕ
lookup_addresses lower hostname domain now ls rs =
    distinct
      (lease_addresses lower hostname domain now ls ++ reserved_addresses lower hostname domain rs)

-- `ip.To4() != nil` of an address of sixteen bytes.
unfoldable pub is_v4_mapped : ℕ → Bool
is_v4_mapped a = a / 2 ^ 32 == 0xffff

-- The addresses of both families.
unfoldable pub lookup_hostname :
    (lower : ℕ → ℕ) (hostname domain now : ℕ)
    → (v4_leases : List HostLease) (v4_reservations : List Host) (v6_leases : List HostLease)
      (v6_reservations : List Host)
    → List ℕ × List ℕ
lookup_hostname lower hostname domain now ls rs ls6 rs6 = (
  lookup_addresses lower hostname domain now ls rs,
  reject is_v4_mapped (lookup_addresses lower hostname domain now ls6 rs6),
)
