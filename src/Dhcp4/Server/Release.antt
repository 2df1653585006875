-- ===== src/Dhcp4/Server/Release.antt =====
-- internal/dhcp/server.go: the leases after handleRelease and handleDecline.
pub mod Quarantine
use dhcp_server.Base.{
  ℕ, ◌≡◌, ◌≢◌, ◌+◌, ◌*◌, ◌<◌, refl, subst, ◌==◌, ◌||◌, Bool, true, false, if◌then◌else◌,
}
use dhcp_server.Base.{List, map, some, arith, inl, inr, length, Option-cases, ==_false, lt→ltb}
use dhcp_server.Base.Rows.{mem-map}
use dhcp_server.Net.{ip_equal, ipv4_zero}
use dhcp_server.Dhcp4.Packet.{Packet}
use dhcp_server.Dhcp4.Server.{ServerScope, match_scope, ip_to_uint32}
use dhcp_server.Dhcp4.Server.{handle_release, handle_decline, declined_address}
use dhcp_server.Store.{Lease, LeaseState, declined, released, blocks, lease_blocks_reuse, second}
use dhcp_server.Store.Table.{is_of}
use mathlib.Core.List.{Memᴰ}
use dhcp_server.Store.Steps.Kept.{map-kept, is_live_of-other}
use dhcp_server.Store.Lifecycle.{is_live_of, update_lease_state_by_mac_ip}

-- A row of another client stays in the table.
update_lease_state_by_mac_ip-mem :
    (s mac ip : ℕ) (state : LeaseState) (now : ℕ) (ls : List Lease) (k : Lease)
    → Memᴰ k ls
    → k.mac_addr ≢ mac
    → Memᴰ k (update_lease_state_by_mac_ip s mac ip state now ls)
unfolding update_lease_state_by_mac_ip
update_lease_state_by_mac_ip-mem s mac ip state now ls k m h =
    map-kept _ ls k (rw (is_live_of-other s mac ip k h) refl) m

-- A live row of the client at the address gets the new state.
pub update_lease_state_by_mac_ip-live :
    (s mac ip : ℕ) (state : LeaseState) (now : ℕ) (ls : List Lease) (k : Lease)
    → Memᴰ k ls
    → is_live_of s mac ip k ≡ true
    → Memᴰ
        (record k { state = state; updated_at = now })
        (update_lease_state_by_mac_ip s mac ip state now ls)
unfolding update_lease_state_by_mac_ip
update_lease_state_by_mac_ip-live s mac ip state now ls k m h =
    let f : Lease → Lease =
      λ l. if is_live_of s mac ip l then record l { state = state; updated_at = now } else l in
    let e : f k ≡ record k { state = state; updated_at = now } = rw h refl in
    subst (λ x. Memᴰ x (map f ls)) e (mem-map f ls k m)

if-mem :
    (b : Bool) (ls ls' : List Lease) (k : Lease)
    → Memᴰ k ls
    → Memᴰ k ls'
    → Memᴰ k (if b then ls else ls')
if-mem true ls ls' k m m' = m
if-mem false ls ls' k m m' = m'

-- Neither a Release nor a Decline of one client, whatever its packet says, changes a lease of another
-- client.
pub handle_release-mem :
    (local mac now : ℕ) (scopes : List ServerScope) (req : Packet) (ls : List Lease) (k : Lease)
    → Memᴰ k ls
    → k.mac_addr ≢ mac
    → Memᴰ k (handle_release local mac now scopes req ls)
      × Memᴰ k (handle_decline local mac now scopes req ls)
unfolding handle_release handle_decline
handle_release-mem local mac now scopes req ls k m h =
    elim (Option-cases
      (match_scope (ip_to_uint32 req.giaddr) (ip_to_uint32 req.ciaddr) local scopes)) [
        | inl e ↦ (rw (e, handle_release) m, rw (e, handle_decline) m)
        | inr (sc, e) ↦ (
          rw (e, handle_release)
              (if-mem _ ls _ k m (
                update_lease_state_by_mac_ip-mem sc.scope.id mac (ip_to_uint32 req.ciaddr) released
                  now ls k m h)),
          rw (e, handle_decline)
              (if-mem _ ls _ k m (
                update_lease_state_by_mac_ip-mem sc.scope.id mac
                  (ip_to_uint32 (declined_address req)) declined now ls k m h)),
        )
      ]

-- A Decline is one update of the live rows of the client at the declined address.
pub handle_decline-update :
    (local mac now : ℕ) (scopes : List ServerScope) (sc : ServerScope) (req : Packet)
    (ls : List Lease)
    → match_scope (ip_to_uint32 req.giaddr) (ip_to_uint32 req.ciaddr) local scopes ≡ some sc
    → (length (declined_address req) == 0 || ip_equal (declined_address req) ipv4_zero) ≡ false
    → handle_decline local mac now scopes req ls
      ≡ update_lease_state_by_mac_ip sc.scope.id mac
          (ip_to_uint32 (declined_address req))
          declined
          now
          ls
unfolding handle_decline
handle_decline-update local mac now scopes sc req ls found named =
    rw (found, handle_decline) (rw named refl)
