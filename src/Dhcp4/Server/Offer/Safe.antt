-- ===== src/Dhcp4/Server/Offer/Safe.antt =====
-- internal/dhcp/server.go: what processDiscover offers.
use dhcp_server.Base.{ℕ, ◌+◌, ◌*◌, ◌≡◌, ◌≢◌, refl, sym, ◌∙◌, ap, Bool, true, false}
use dhcp_server.Base.{Bool-cases, Option, none, some, inl, inr, List, ◌||◌, ◌&&◌, arith}
use dhcp_server.Base.Outcome.{ok, err, panic, stuck}
use dhcp_server.Dhcp4.Packet.{Packet}
use dhcp_server.Dhcp4.Server.{Env, ServerScope, match_scope, ip_to_uint32}
use dhcp_server.Dhcp4.Server.Offer.{
  Offer, discover_allocation, is_served, offer_of, offer, serve_discover, process_discover,
}
use dhcp_server.Store.{Lease, second, active, offered, is_active, is_offered}
use dhcp_server.Store.Unique.{HasUniqueClients, is_of-true, is_of_of_eq}
use dhcp_server.Store.Table.{get_lease_by_mac, is_of}
use dhcp_server.Base.Rows.{find_first-eq-some, find_first-eq-none}
use dhcp_server.Base.{Option-cases, ltb, ◌==◌, ◌⊎◌, if◌then◌else◌}
use dhcp_server.Store.Allocate.{
  Tables, allocate_v4_lease, or_default, ends_at, capped_lease_time, Result,
}
use dhcp_server.Store.Grant.{IsHeldFrom}
use dhcp_server.Store.Promise.{HasConstraints, allocate_v4_lease-Grant, allocate_v4_lease-mem}
use mathlib.Core.List.{Memᴰ}

-- An offer is made of the result of the allocation.
made_of_result :
    (m : Result) (time : ℕ) (before : List Lease) (o : Offer) (ls' : List Lease)
    → offer_of m time before ≡ (some o, ls')
    → (m ≡ ok (o.lease, ls')) × (o.lease_time ≡ time)
unfolding offer_of
made_of_result (ok (l, ls)) time before o ls' h =
    let made : Offer = record { lease = l; lease_time = time } in
    let first : ◌≡◌ {A = Option Offer} (some made) (some o) = ap (λ x. x.0) h in
    let same : made ≡ o = cc in
    let lease : l ≡ o.lease = ap (λ x. x.lease) same in
    let rest : ls ≡ ls' = ap (λ x. x.1) h in
    (rw (lease, rest) refl, sym (ap (λ x. x.lease_time) same))
made_of_result (err e) time before o ls' h =
    let first : ◌≡◌ {A = Option Offer} none (some o) = ap (λ x. x.0) h in cc
made_of_result panic time before o ls' h =
    let first : ◌≡◌ {A = Option Offer} none (some o) = ap (λ x. x.0) h in cc
made_of_result stuck time before o ls' h =
    let first : ◌≡◌ {A = Option Offer} none (some o) = ap (λ x. x.0) h in cc

offer-allocated :
    (env : Env) (req : Packet) (sc : ServerScope) (t : Tables) (o : Offer) (ls' : List Lease)
    → offer env req sc t ≡ (some o, ls')
    → (allocate_v4_lease (discover_allocation env req sc) t ≡ ok (o.lease, ls'))
      × (o.lease_time ≡ or_default sc.lease_time 3600)
unfolding offer
offer-allocated env req sc t o ls' h =
    made_of_result (allocate_v4_lease (discover_allocation env req sc) t)
      (or_default sc.lease_time 3600) t.leases o ls' h

none-ne-some :
    (ls ls' : List Lease) (o : Offer) → ◌≢◌ {A = Option Offer × List Lease} (none, ls) (some o, ls')
none-ne-some ls ls' o h = let first : ◌≡◌ {A = Option Offer} none (some o) = ap (λ x. x.0) h in cc

-- An offer means that no guard has held the Discover back.
serve_discover-offer :
    (env : Env) (waits cancelled : Bool) (req : Packet) (t later : Tables) (sc : ServerScope)
    (o : Offer) (ls' : List Lease)
    → serve_discover env waits cancelled req t later (some sc) ≡ (some o, ls')
    → (sc.enabled ≡ true)
      × (offer env req sc later ≡ (some o, ls'))
      × ((waits
            && (is_served t.leases sc.scope.id env.mac
                || (cancelled || is_served later.leases sc.scope.id env.mac)))
          ≡ false)
unfolding serve_discover
serve_discover-offer env waits cancelled req t later sc o ls' h =
    let peer =
      is_served t.leases sc.scope.id env.mac
      || (cancelled || is_served later.leases sc.scope.id env.mac) in
    elim (Bool-cases sc.enabled) [
      | inr off ↦ absurd (none-ne-some later.leases ls' o (sym (rw (off, serve_discover) refl) ∙ h))
      | inl on ↦ elim (Bool-cases (waits && peer)) [
        | inl held ↦
            absurd (none-ne-some later.leases ls' o (sym (rw (on, held, serve_discover) refl) ∙ h))
        | inr free ↦ (on, sym (rw (on, free, serve_discover) refl) ∙ h, free)
      ]
    ]

abbrev pub min_of : ℕ → ℕ → ℕ
min_of a b = if ltb b a then b else a

discover_ends :
    (env : Env) (req : Packet) (sc : ServerScope)
    → ends_at (discover_allocation env req sc)
      ≡ env.now
        + min_of (or_default sc.lease_time 3600) (or_default sc.max_lease_time 86400) * second
unfolding ends_at discover_allocation capped_lease_time or_default
discover_ends env req sc = elim (Bool-cases (sc.lease_time == 0)) [
  | inl e ↦ ground arith
  | inr e ↦ ground arith
]

-- No row of the client in the scope is active or offered, when no two rows of a scope are of one
-- client.
is_served-false :
    (ls : List Lease) (s mac : ℕ) (k : Lease)
    → HasUniqueClients ls
    → is_served ls s mac ≡ false
    → Memᴰ k ls
    → k.scope_id ≡ s
    → k.mac_addr ≡ mac
    → (k.state ≢ active) × (k.state ≢ offered)
unfolding is_served get_lease_by_mac HasUniqueClients is_active is_offered
is_served-false ls s mac k u h m ks km = elim (Option-cases (get_lease_by_mac ls s mac)) [
  | inl missing ↦
      let f = find_first-eq-none (is_of s mac) ls k missing m in
      let t = is_of_of_eq s mac k ks km in absurd cc
  | inr (l, found) ↦
      let (ml, t) = find_first-eq-some (is_of s mac) ls l found in
      let (ls', lm) = is_of-true s mac l t in
      let same : k ≡ l = u k l m ml (ks ∙ sym ls') (km ∙ sym lm) in
      let idle : (is_active k.state || is_offered k.state) ≡ false =
        rw same (sym (rw (found, is_served) refl) ∙ h) in
      (
        λ e. let t : is_active k.state ≡ true = rw e refl in ground arith,
        λ e. let t : is_offered k.state ≡ true = rw e refl in ground arith,
      )
]

-- When processDiscover offers a lease of the scope that matchScope has found, the tables having their
-- constraints after the wait, the lease is the client's and of an enabled scope, no live lease of
-- another client has its address and each of their rows stays, the stored lease ends after the lease time of
-- the scope or after its maximum, whichever is less, and the reply has the lease time of the scope, even
-- where it is above the maximum.
pub process_discover-IsHeldFrom :
    (env : Env) (waits cancelled : Bool) (req : Packet) (t later : Tables) (sc : ServerScope)
    (o : Offer) (ls' : List Lease) (k : Lease)
    → HasConstraints later
    → match_scope (ip_to_uint32 req.giaddr) (ip_to_uint32 req.ciaddr) env.local env.scopes ≡ some sc
    → process_discover env waits cancelled req t later ≡ (some o, ls')
    → Memᴰ k later.leases
    → IsHeldFrom (discover_allocation env req sc) k
    → (sc.enabled ≡ true)
      × (o.lease.mac_addr ≡ env.mac)
      × (k.ip_addr ≢ o.lease.ip_addr)
      × Memᴰ k ls'
      × (o.lease.ends_at
          ≡ env.now
            + min_of (or_default sc.lease_time 3600) (or_default sc.max_lease_time 86400) * second)
      × (o.lease_time ≡ or_default sc.lease_time 3600)
unfolding process_discover discover_allocation
process_discover-IsHeldFrom env waits cancelled req t later sc o ls' k c found h m b =
    let served : serve_discover env waits cancelled req t later (some sc) ≡ (some o, ls') =
      ap (serve_discover env waits cancelled req t later) (sym found) ∙ h in
    let (on, granting, _) = serve_discover-offer env waits cancelled req t later sc o ls' served in
    let (granted, time) = offer-allocated env req sc later o ls' granting in
    let q = discover_allocation env req sc in
    let g = allocate_v4_lease-Grant q later o.lease ls' c granted in
    (
      on,
      g.client,
      g.free k m b,
      allocate_v4_lease-mem q later o.lease ls' k c granted m b,
      g.ends ∙ discover_ends env req sc,
      time,
    )

-- When no two rows of a scope are of one client, a node that waits offers nothing to a client that has an
-- active or offered lease in the matched scope, be it a row of the tables before the wait or of those after
-- it.
pub process_discover-served :
    (env : Env) (cancelled : Bool) (req : Packet) (t later : Tables) (sc : ServerScope) (o : Offer)
    (ls' : List Lease) (k : Lease)
    → HasUniqueClients t.leases
    → HasUniqueClients later.leases
    → match_scope (ip_to_uint32 req.giaddr) (ip_to_uint32 req.ciaddr) env.local env.scopes ≡ some sc
    → process_discover env true cancelled req t later ≡ (some o, ls')
    → Memᴰ k t.leases ⊎ Memᴰ k later.leases
    → k.scope_id ≡ sc.scope.id
    → k.mac_addr ≡ env.mac
    → (k.state ≢ active) × (k.state ≢ offered)
unfolding process_discover
process_discover-served env cancelled req t later sc o ls' k u u' found h m s a =
    let served : serve_discover env true cancelled req t later (some sc) ≡ (some o, ls') =
      ap (serve_discover env true cancelled req t later) (sym found) ∙ h in
    let (_, _, alone) = serve_discover-offer env true cancelled req t later sc o ls' served in
    elim m [
      | inl before ↦ is_served-false t.leases sc.scope.id env.mac k u (ground arith) before s a
      | inr after ↦ is_served-false later.leases sc.scope.id env.mac k u' (ground arith) after s a
    ]
