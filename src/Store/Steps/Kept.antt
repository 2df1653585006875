-- ===== src/Store/Steps/Kept.antt =====
-- internal/store/store.go: a live lease while other clients are served.
use dhcp_server.Base.{ℕ, ◌≡◌, ◌≢◌, ◌≤◌, refl, subst, ◌==◌, ==_false, true, false, Bool-cases}
use dhcp_server.Base.{inl, inr, List, map, arith}
use dhcp_server.Base.Rows.{mem-reject, mem-map}
use dhcp_server.Store.{Lease, Reservation, blocks, or_else, decline_quarantine_seconds}
use dhcp_server.Store.Table.{delete_lease, is_at, is_of}
use dhcp_server.Store.Unique.{save_lease-mem}
use dhcp_server.Store.Grant.{IsHeldFrom}
use dhcp_server.Store.Promise.{HasConstraints, allocate_v4_lease-mem}
use dhcp_server.Store.Lifecycle.{
  is_live_of, update_lease_state_by_mac_ip, update_lease_state, release_expired_leases,
  expire_lease, ScopeTimes, retention, is_past,
}
use dhcp_server.Store.Lifecycle.Sweep.{is_past-lease_blocks_reuse, kept_lease}
use dhcp_server.Store.Steps.{
  Step, allocated, saved, updated, updated_live, swept, cleaned, deleted, Reach, here, step,
  Reach-HasConstraints,
}
use mathlib.Core.List.{Memᴰ}

-- The times of a row are in order, and its scope retains rows for the quarantine or longer.
pub record IsRetained (scopes : List ScopeTimes) (k : Lease) : Type 0 where
  pub scopes_retain : (x : ScopeTimes) → Memᴰ x scopes → decline_quarantine_seconds ≤ retention x
  pub offer : or_else k.offered_at k.starts_at ≤ k.ends_at
  pub update : k.updated_at ≤ k.ends_at

-- A step that is not for the row `k`: an allocation, a Release or a Decline is for another client, a save for
-- another address, an update or a deletion for another identifier; and the row holds its address when
-- it is an allocation, a sweep or a clean-up.
unfoldable pub IsForeign :
    {rs : List Reservation} {ls ls' : List Lease} → Lease → Step rs ls ls' → Type 0
IsForeign k (allocated q _ l _ h) = IsHeldFrom q k
IsForeign k (saved new _ _ h) = is_at new.scope_id new.ip_addr k ≡ false
IsForeign k (updated id state now _) = k.id ≢ id
IsForeign k (updated_live s mac ip state now _) = k.mac_addr ≢ mac
IsForeign k (swept now _) = blocks k now ≡ true
IsForeign k (cleaned scopes now _ ls6 ps) = IsRetained scopes k × (blocks k now ≡ true)
IsForeign k (deleted id _) = k.id ≢ id

-- Every step of a run is.
unfoldable pub AreForeign :
    {rs : List Reservation} {start ls : List Lease} → Lease → Reach rs start ls → Type 0
AreForeign k here = Unit
AreForeign k (step ls ls' r s) = AreForeign k r × IsForeign k s

-- A row that an update leaves as it is stays.
pub map-kept :
    (f : Lease → Lease) (ls : List Lease) (k : Lease) → f k ≡ k → Memᴰ k ls → Memᴰ k (map f ls)
map-kept f ls k e m = subst (λ x. Memᴰ x (map f ls)) e (mem-map f ls k m)

pub is_live_of-other : (s mac ip : ℕ) (k : Lease) → k.mac_addr ≢ mac → is_live_of s mac ip k ≡ false
unfolding is_live_of is_of
is_live_of-other s mac ip k h = let e = ==_false k.mac_addr mac h in ground arith

expire_lease-kept : (now : ℕ) (k : Lease) → blocks k now ≡ true → expire_lease now k ≡ k
unfolding expire_lease blocks
expire_lease-kept now k b =
    elim (Bool-cases (is_past k.state (or_else k.offered_at k.starts_at) k.ends_at now)) [
      | inl t ↦
          let f =
            is_past-lease_blocks_reuse k.state k.offered_at k.starts_at k.ends_at k.updated_at now
              now (omega arith) t in
          absurd cc
      | inr f ↦ rw f refl
    ]

Step-mem :
    (rs : List Reservation) (ls ls' : List Lease) (k : Lease) (s : Step rs ls ls')
    → HasConstraints (record { leases = ls; reservations = rs })
    → IsForeign k s
    → Memᴰ k ls
    → Memᴰ k ls'
unfolding IsForeign update_lease_state update_lease_state_by_mac_ip release_expired_leases
    delete_lease
Step-mem rs ls ls' k (allocated q _ l _ h) c f m =
    allocate_v4_lease-mem q (record { leases = ls; reservations = rs }) l ls' k c h m f
Step-mem rs ls ls' k (saved new _ _ h) c f m = save_lease-mem new ls ls' k h m f
Step-mem rs ls ls' k (updated id state now _) c f m =
    map-kept _ ls k (rw (==_false k.id id f) refl) m
Step-mem rs ls ls' k (updated_live s mac ip state now _) c f m =
    map-kept _ ls k (rw (is_live_of-other s mac ip k f) refl) m
Step-mem rs ls ls' k (swept now _) c f m =
    map-kept (expire_lease now) ls k (expire_lease-kept now k f) m
Step-mem rs ls ls' k (cleaned scopes now _ ls6 ps) c (w, b) m =
    kept_lease scopes now ls ls6 ps k w.scopes_retain w.offer w.update m b
Step-mem rs ls ls' k (deleted id _) c f m = mem-reject (λ l. l.id == id) ls k m (==_false k.id id f)

-- From tables with their constraints, any sequence of steps that are not for a row leaves it as it
-- was: allocations in its scope for other clients while it holds its address, Releases and Declines
-- of other clients, saves for other addresses, updates and deletions of other rows, and sweeps and
-- clean-ups while it holds its address, if its times are in order and the scopes retain their rows for the
-- quarantine.
pub Reach-mem :
    (rs : List Reservation) (start ls : List Lease) (k : Lease) (r : Reach rs start ls)
    → HasConstraints (record { leases = start; reservations = rs })
    → AreForeign k r
    → Memᴰ k start
    → Memᴰ k ls
unfolding AreForeign
Reach-mem rs start ls k here c f m = m
Reach-mem rs start ls k (step before _ r s) c (fs, f) m =
    Step-mem rs before ls k s (Reach-HasConstraints rs start before c r) f
      (Reach-mem rs start before k r c fs m)
