-- ===== src/Store/Lifecycle.antt =====
-- internal/store/store.go: the statements that change the states of rows, and the clean-up of the
-- tables. `now` is the clock of the database.
pub mod Sweep
use dhcp_server.Base.{ℕ, ◌+◌, ◌*◌, ltb, ◌==◌, Bool, ◌&&◌, ◌||◌, if◌then◌else◌, Option, List, map}
use dhcp_server.Base.Rows.{any, reject}
use dhcp_server.Store.{
  LeaseState, expired, is_active, is_offered, Lease, or_else, second, offer_timeout_seconds,
}
use dhcp_server.Store.Table.{is_at, is_of}
use dhcp_server.Store.Allocate.{or_default}
use dhcp_server.Store.V6.{V6Lease, V6Prefix}

-- The WHERE clause of UpdateLeaseStateByMACIP.
unfoldable pub is_live_of : (scope_id mac ip : ℕ) → Lease → Bool
is_live_of s mac ip l = is_of s mac l && (is_at s ip l && (is_active l.state || is_offered l.state))

unfoldable pub update_lease_state_by_mac_ip :
    (scope_id mac ip : ℕ) → LeaseState → (now : ℕ) → List Lease → List Lease
update_lease_state_by_mac_ip s mac ip state now ls =
    map (λ l. if is_live_of s mac ip l then record l { state = state; updated_at = now } else l) ls

unfoldable pub update_lease_state : (id : ℕ) → LeaseState → (now : ℕ) → List Lease → List Lease
update_lease_state id state now ls =
    map (λ l. if l.id == id then record l { state = state; updated_at = now } else l) ls

unfoldable pub update_v6_lease_state :
    (id : ℕ) → LeaseState → (now : ℕ) → List V6Lease → List V6Lease
update_v6_lease_state id state now ls =
    map (λ l. if l.id == id then record l { state = state; updated_at = now } else l) ls

unfoldable pub update_v6_prefix_state :
    (id : ℕ) → LeaseState → (now : ℕ) → List V6Prefix → List V6Prefix
update_v6_prefix_state id state now ps =
    map (λ p. if p.id == id then record p { state = state; updated_at = now } else p) ps

-- The WHERE clause of the sweeps, on the columns of a row; `offer` is the start of the offer.
unfoldable pub is_past : LeaseState → (offer ends_at now : ℕ) → Bool
is_past st offer e now =
    (is_active st && ltb e now)
    || (is_offered st && ltb (offer + offer_timeout_seconds * second) now)

unfoldable pub expire_lease : (now : ℕ) → Lease → Lease
expire_lease now l =
    if is_past l.state (or_else l.offered_at l.starts_at) l.ends_at now
    then record l { state = expired; updated_at = now }
    else l

unfoldable pub release_expired_leases : (now : ℕ) → List Lease → List Lease
release_expired_leases now ls = map (expire_lease now) ls

unfoldable pub expire_v6_lease : (now : ℕ) → V6Lease → V6Lease
expire_v6_lease now l =
    if is_past l.state (or_else l.offered_at l.starts_at) l.ends_at now
    then record l { state = expired; updated_at = now }
    else l

unfoldable pub release_expired_v6_leases : (now : ℕ) → List V6Lease → List V6Lease
release_expired_v6_leases now ls = map (expire_v6_lease now) ls

unfoldable pub expire_v6_prefix : (now : ℕ) → V6Prefix → V6Prefix
expire_v6_prefix now p =
    if is_past p.state p.starts_at p.ends_at now
    then record p { state = expired; updated_at = now }
    else p

unfoldable pub release_expired_v6_prefixes : (now : ℕ) → List V6Prefix → List V6Prefix
release_expired_v6_prefixes now ps = map (expire_v6_prefix now) ps

-- The columns of `Scope` that the clean-up reads.
pub record ScopeTimes : Type 0 where
  pub id : ℕ
  pub lease_time : ℕ
  pub max_lease_time : ℕ

-- `COALESCE(NULLIF(s.max_lease_time, 0), NULLIF(s.lease_time, 0), 86400)`, in seconds.
unfoldable pub retention : ScopeTimes → ℕ
retention s = or_default s.max_lease_time (or_default s.lease_time 86400)

unfoldable pub is_garbage : List ScopeTimes → (scope_id ends_at now : ℕ) → Bool
is_garbage scopes s e now = any (λ x. x.id == s && ltb (e + retention x * second) now) scopes

unfoldable pub is_garbage_prefix : List ScopeTimes → (now : ℕ) → V6Prefix → Bool
is_garbage_prefix scopes now p =
    any
      (λ x. x.id == p.scope_id && ltb (p.ends_at + or_default p.valid_lifetime 86400 * second) now)
      scopes

-- CleanupExpiredLeases on the three tables of leases and prefixes.
unfoldable pub cleanup_expired_leases :
    List ScopeTimes
    → (now : ℕ) → List Lease
    → List V6Lease
    → List V6Prefix
    → List Lease × List V6Lease × List V6Prefix
cleanup_expired_leases scopes now ls ls6 ps = (
  reject (λ l. is_garbage scopes l.scope_id l.ends_at now) ls,
  reject (λ l. is_garbage scopes l.scope_id l.ends_at now) ls6,
  reject (is_garbage_prefix scopes now) ps,
)
