-- ===== src/Dhcp4/Server/Request.antt =====
-- internal/dhcp/server.go: what a DHCPACK of handleRequest stands for.
use dhcp_server.Base.{
  ℕ, ◌≡◌, ◌≢◌, refl, sym, ◌∙◌, subst, ◌==◌, not, ◌&&◌, ◌||◌, Bool, true, false, if◌then◌else◌,
}
use dhcp_server.Base.{List, Option, some, arith, length, map, inl, inr, Bool-cases, ◌⊎◌}
use dhcp_server.Base.Rows.{mem-map}
use dhcp_server.Base.Outcome.{Outcome, ok, err, panic, stuck}
use dhcp_server.Dhcp4.Packet.{Packet}
use dhcp_server.Dhcp4.Server.{
  ServerScope, Answer, silent, nak, ack, Env, NakReason, requested_ip_unavailable, ip_unavailable,
  mac_blacklisted, scope_disabled, requested_ip_mismatch_reservation, ip_out_of_subnet,
  handle_request, confirm, is_for_us, match_scope, serve_match,
}
use dhcp_server.Dhcp4.Server.{mismatches_reservation, requested_address, ip_to_uint32, allocation}
use dhcp_server.Store.{Lease, IpNet, contains, active}
use dhcp_server.Store.Table.{Error}
use dhcp_server.Store.Allocate.{Tables, allocate_v4_lease}
use dhcp_server.Store.Grant.{IsHeldFrom}
use dhcp_server.Store.Promise.{
  HasConstraints, allocate_v4_lease-IsHeldFrom, allocate_v4_lease-stored,
}
use mathlib.Core.List.{Memᴰ}
use dhcp_server.Store.Lifecycle.{update_lease_state}

-- A guard that refuses with a NAK, on the way to an ACK.
nak-guard :
    (b : Bool) (r : NakReason) (ls : List Lease) (m : Answer × List Lease) (l : Lease)
    (ls' : List Lease)
    → (if b then (nak r, ls) else m) ≡ (ack l, ls')
    → (b ≡ false) × (m ≡ (ack l, ls'))
nak-guard true r ls m l ls' h = cc
nak-guard false r ls m l ls' h = (refl, h)

silent-guard :
    (b : Bool) (ls : List Lease) (m : Answer × List Lease) (l : Lease) (ls' : List Lease)
    → (if b then (silent, ls) else m) ≡ (ack l, ls')
    → (b ≡ false) × (m ≡ (ack l, ls'))
silent-guard true ls m l ls' h = cc
silent-guard false ls m l ls' h = (refl, h)

nak-ne-ack :
    {r : NakReason} {ls ls' : List Lease} {l : Lease}
    → ◌≢◌ {A = Answer × List Lease} (nak r, ls) (ack l, ls')
nak-ne-ack h = cc

ack_injective :
    {l l' : Lease} {ls ls' : List Lease}
    → ◌≡◌ {A = Answer × List Lease} (ack l, ls) (ack l', ls')
    → (l ≡ l') × (ls ≡ ls')
ack_injective h = (cc, cc)

not-false : (a : Bool) → not a ≡ false → a ≡ true
not-false true h = refl
not-false false h = cc

granted-test : (a b : Bool) → (not a && not b) ≡ false → (a || b) ≡ true
granted-test true b h = refl
granted-test false true h = refl
granted-test false false h = cc

confirm-ack :
    (env : Env) (req : Packet) (sc : ServerScope) (t : Tables) (l : Lease) (ls' : List Lease)
    → confirm env req sc t ≡ (ack l, ls')
    → (mid : List Lease) × (allocate_v4_lease (allocation env req sc) t ≡ ok (l, mid))
      × (ls' ≡ update_lease_state l.id active env.now mid)
      × ((length (requested_address req) == 0)
            || (l.ip_addr == ip_to_uint32 (requested_address req))
          ≡ true)
unfolding confirm
confirm-ack env req sc t l ls' h = go (allocate_v4_lease (allocation env req sc) t) refl
  where
    go :
        (r : Outcome Error (Lease × List Lease))
        → allocate_v4_lease (allocation env req sc) t ≡ r
        → (mid : List Lease) × (allocate_v4_lease (allocation env req sc) t ≡ ok (l, mid))
          × (ls' ≡ update_lease_state l.id active env.now mid)
          × ((length (requested_address req) == 0)
                || (l.ip_addr == ip_to_uint32 (requested_address req))
              ≡ true)
    go (ok (l', mid)) e =
        let step : (if not (length (requested_address req) == 0)
                && not (l'.ip_addr == ip_to_uint32 (requested_address req))
              then (nak requested_ip_unavailable, mid)
              else (ack l', update_lease_state l'.id active env.now mid))
            ≡ (ack l, ls') =
          sym (rw (e, confirm) refl) ∙ h in
        let (test, result) =
          nak-guard
            (not (length (requested_address req) == 0)
              && not (l'.ip_addr == ip_to_uint32 (requested_address req)))
            requested_ip_unavailable mid (ack l', update_lease_state l'.id active env.now mid) l ls'
            step in
        let (same, after) = ack_injective result in
        (mid, rw (← same) e, rw (← same) (sym after), rw (← same) (granted-test _ _ test))
    go (err x) e =
        absurd (nak-ne-ack {r = ip_unavailable} {ls = t.leases} (sym (rw (e, confirm) refl) ∙ h))
    go panic e =
        absurd (nak-ne-ack {r = ip_unavailable} {ls = t.leases} (sym (rw (e, confirm) refl) ∙ h))
    go stuck e =
        absurd (nak-ne-ack {r = ip_unavailable} {ls = t.leases} (sym (rw (e, confirm) refl) ∙ h))

address-test :
    (subnet : Option IpNet) (nil : Bool) (ip requested : ℕ)
    → (not nil && not (contains subnet requested)) ≡ false
    → (nil || ip == requested) ≡ true
    → (nil || (ip == requested && contains subnet ip)) ≡ true
address-test subnet true ip requested h k = refl
address-test subnet false ip requested h k =
    let same : ip ≡ requested = ground arith in
    let e : contains subnet ip ≡ true = rw same (not-false (contains subnet requested) h) in
    rw (k, e) refl

handle_request-granted :
    (env : Env) (req : Packet) (t : Tables) (sc : ServerScope) (l : Lease) (ls' : List Lease)
    → match_scope (ip_to_uint32 req.giaddr) (ip_to_uint32 req.ciaddr) env.local env.scopes ≡ some sc
    → handle_request env req t ≡ (ack l, ls')
    → (is_for_us env.our_id req ≡ true)
      × (env.is_blacklisted ≡ false)
      × ((length (requested_address req) == 0
            || (l.ip_addr == ip_to_uint32 (requested_address req)
                && contains sc.scope.subnet l.ip_addr))
          ≡ true)
      × ((mid : List Lease) × (allocate_v4_lease (allocation env req sc) t ≡ ok (l, mid))
          × (ls' ≡ update_lease_state l.id active env.now mid))
unfolding handle_request serve_match
handle_request-granted env req t sc l ls' found h =
    let requested = ip_to_uint32 (requested_address req) in
    let nil = length (requested_address req) == 0 in
    let (ours, h1) = silent-guard (not (is_for_us env.our_id req)) t.leases _ l ls' h in
    let (listed, h2) = nak-guard env.is_blacklisted mac_blacklisted t.leases _ l ls' h1 in
    let guards = subst (λ m. serve_match env req t m ≡ (ack l, ls')) found h2 in
    let (_, h3) = nak-guard (not sc.enabled) scope_disabled t.leases _ l ls' guards in
    let (_, h4) =
      nak-guard (mismatches_reservation env req sc t) requested_ip_mismatch_reservation t.leases _ l
        ls' h3 in
    let (inside, h5) =
      nak-guard (not nil && not (contains sc.scope.subnet requested)) ip_out_of_subnet t.leases _ l
        ls' h4 in
    let (mid, granted, after, address) = confirm-ack env req sc t l ls' h5 in
    (
      not-false _ ours,
      listed,
      address-test sc.scope.subnet nil l.ip_addr requested inside address,
      (mid, granted, after),
    )

-- A row of the table after the update to active.
update_lease_state-row :
    (id now : ℕ) (ls : List Lease) (r : Lease)
    → Memᴰ r ls
    → (d : Lease) × Memᴰ d (update_lease_state id active now ls)
      × (d.scope_id ≡ r.scope_id)
      × (d.mac_addr ≡ r.mac_addr)
      × (d.ip_addr ≡ r.ip_addr)
      × (d.ends_at ≡ r.ends_at)
      × ((d.state ≡ active) ⊎ (d.id ≢ id))
unfolding update_lease_state
update_lease_state-row id now ls r m =
    let f : Lease → Lease =
      λ l. if l.id == id then record l { state = active; updated_at = now } else l in
    elim (Bool-cases (r.id == id)) [
      | inl e ↦
          let same : f r ≡ record r { state = active; updated_at = now } = rw e refl in
          (
            record r { state = active; updated_at = now },
            subst (λ x. Memᴰ x (map f ls)) same (mem-map f ls r m),
            refl,
            refl,
            refl,
            refl,
            inl refl,
          )
      | inr e ↦
          let same : f r ≡ r = rw e refl in
          (
            r,
            subst (λ x. Memᴰ x (map f ls)) same (mem-map f ls r m),
            refl,
            refl,
            refl,
            refl,
            inr (λ i. ground arith),
          )
    ]

-- When handleRequest answers a DHCPACK, the tables having their constraints, the request was for
-- this server and its client is not blacklisted; where the client named an address, it is the one
-- acknowledged and lies inside the subnet of the matched scope; and the table has a row of the
-- client in that scope with the address and the end of the acknowledged lease. That row is active,
-- or its identifier is not that of the acknowledged lease.
pub handle_request-ack :
    (env : Env) (req : Packet) (t : Tables) (sc : ServerScope) (l : Lease) (ls' : List Lease)
    → HasConstraints t
    → match_scope (ip_to_uint32 req.giaddr) (ip_to_uint32 req.ciaddr) env.local env.scopes ≡ some sc
    → handle_request env req t ≡ (ack l, ls')
    → (is_for_us env.our_id req ≡ true)
      × (env.is_blacklisted ≡ false)
      × ((length (requested_address req) == 0
            || (l.ip_addr == ip_to_uint32 (requested_address req)
                && contains sc.scope.subnet l.ip_addr))
          ≡ true)
      × ((d : Lease) × Memᴰ d ls'
          × (d.scope_id ≡ sc.scope.id)
          × (d.mac_addr ≡ env.mac)
          × (d.ip_addr ≡ l.ip_addr)
          × (d.ends_at ≡ l.ends_at)
          × ((d.state ≡ active) ⊎ (d.id ≢ l.id)))
unfolding allocation
handle_request-ack env req t sc l ls' c found h =
    let (ours, listed, address, (mid, granted, after)) =
      handle_request-granted env req t sc l ls' found h in
    let (r, m, s, mac, ip, _, ends) =
      allocate_v4_lease-stored (allocation env req sc) t l mid c granted in
    let (d, md, ds, dmac, dip, dends, state) = update_lease_state-row l.id env.now mid r m in
    (
      ours,
      listed,
      address,
      (d, subst (λ x. Memᴰ d x) (sym after) md, ds ∙ s, dmac ∙ mac, dip ∙ ip, dends ∙ ends, state),
    )

-- Under the tables' constraints, the address of a DHCPACK is held by no live lease of another client
-- of the matched scope.
pub handle_request-IsHeldFrom :
    (env : Env) (req : Packet) (t : Tables) (sc : ServerScope) (l : Lease) (ls' : List Lease)
    (k : Lease)
    → HasConstraints t
    → match_scope (ip_to_uint32 req.giaddr) (ip_to_uint32 req.ciaddr) env.local env.scopes ≡ some sc
    → handle_request env req t ≡ (ack l, ls')
    → Memᴰ k t.leases
    → IsHeldFrom (allocation env req sc) k
    → k.ip_addr ≢ l.ip_addr
handle_request-IsHeldFrom env req t sc l ls' k c found h m b =
    let (_, _, _, (mid, granted, _)) = handle_request-granted env req t sc l ls' found h in
    let (_, _, free) =
      allocate_v4_lease-IsHeldFrom (allocation env req sc) t l mid k c granted m b in
    free
