-- ===== src/Store/Lifecycle/Sweep/Pools.antt =====
-- internal/store/store.go: the searches of the pools after a sweep. An allocation also reads the
-- state of the client's own row, which a sweep can change.
use dhcp_server.Base.{ℕ, ◌≤◌, ◌≡◌, refl, ap, ◌==◌, ◌&&◌, ◌||◌, Bool, Bool-cases}
use dhcp_server.Base.{inl, inr, Option, List, [], ◌∷◌, map}
use dhcp_server.Base.Rows.{any}
use dhcp_server.Store.{Lease, Reservation, Scope, IpNet, or_else}
use dhcp_server.Store.Pool.{allocate_ipv4, pool_loop, is_used, in_use, is_withheld}
use dhcp_server.Store.Pool.Search.{in_use-blocks}
use dhcp_server.Store.V6.{V6Lease, V6Prefix, V6Reservation}
use dhcp_server.Store.V6.Pool.{allocate_ipv6, pool_loop_v6, is_used_v6, in_use_v6}
use dhcp_server.Store.V6.Pool.Search.{in_use_v6-blocks_v6}
use dhcp_server.Store.V6.Prefix.{is_prefix_in_use, is_used_prefix, is_same_net}
use dhcp_server.Store.Uint128.{ip_to_uint128}
use dhcp_server.Store.Lifecycle.{
  is_past, expire_lease, expire_v6_lease, expire_v6_prefix, release_expired_leases,
  release_expired_v6_leases, release_expired_v6_prefixes,
}
use dhcp_server.Store.Lifecycle.Sweep.{swept_lease, swept_v6_lease, swept_v6_prefix}
use mathlib.Core.Path.{fun_ext}

-- A test that an update of the rows does not change.
any-map :
    {A : Type 0} (p : A → Bool) (f : A → A) (xs : List A)
    → ((x : A) → p (f x) ≡ p x)
    → any p (map f xs) ≡ any p xs
unfolding any
any-map p f [] h = refl
any-map p f (x ∷ xs) h = rw (h x, any-map p f xs h) refl

expire_lease-keys :
    (now : ℕ) (l : Lease)
    → ((expire_lease now l).scope_id ≡ l.scope_id) × ((expire_lease now l).ip_addr ≡ l.ip_addr)
unfolding expire_lease
expire_lease-keys now l =
    elim (Bool-cases (is_past l.state (or_else l.offered_at l.starts_at) l.ends_at now)) [
      | inl e ↦ rw e (refl, refl)
      | inr e ↦ rw e (refl, refl)
    ]

expire_v6_lease-keys :
    (now : ℕ) (l : V6Lease)
    → ((expire_v6_lease now l).scope_id ≡ l.scope_id)
      × ((expire_v6_lease now l).ip_addr ≡ l.ip_addr)
unfolding expire_v6_lease
expire_v6_lease-keys now l =
    elim (Bool-cases (is_past l.state (or_else l.offered_at l.starts_at) l.ends_at now)) [
      | inl e ↦ rw e (refl, refl)
      | inr e ↦ rw e (refl, refl)
    ]

expire_v6_prefix-net : (now : ℕ) (p : V6Prefix) → (expire_v6_prefix now p).prefix ≡ p.prefix
unfolding expire_v6_prefix
expire_v6_prefix-net now p = elim (Bool-cases (is_past p.state p.starts_at p.ends_at now)) [
  | inl e ↦ rw e refl
  | inr e ↦ rw e refl
]

is_used-swept :
    (ls : List Lease) (rs : List Reservation) (scope : Scope) (extra : Option ℕ) (now later ip : ℕ)
    → now ≤ later
    → is_used (release_expired_leases now ls) rs scope extra later ip
      ≡ is_used ls rs scope extra later ip
unfolding is_used release_expired_leases
is_used-swept ls rs scope extra now later ip h =
    ap
      (λ b.
        b
        || (any (λ r. r.scope_id == scope.id && r.ip_addr == ip) rs || is_withheld scope extra ip))
      (any-map (λ l. in_use scope.id later l && l.ip_addr == ip) (expire_lease now) ls
        (λ l.
          let (s, a) = expire_lease-keys now l in
          rw
            (
              in_use-blocks scope.id later (expire_lease now l),
              in_use-blocks scope.id later l,
              swept_lease l now later h,
              s,
              a,
            )
            refl))

is_used_v6-swept :
    (ls : List V6Lease) (rs : List V6Reservation) (scope : Scope) (extra : Option ℕ)
    (now later ip : ℕ)
    → now ≤ later
    → is_used_v6 (release_expired_v6_leases now ls) rs scope extra later ip
      ≡ is_used_v6 ls rs scope extra later ip
unfolding is_used_v6 release_expired_v6_leases
is_used_v6-swept ls rs scope extra now later ip h =
    ap
      (λ b.
        b
        || (any (λ r. r.scope_id == scope.id && r.ip_addr == ip) rs || is_withheld scope extra ip))
      (any-map (λ l. in_use_v6 scope.id later l && l.ip_addr == ip) (expire_v6_lease now) ls
        (λ l.
          let (s, a) = expire_v6_lease-keys now l in
          rw
            (
              in_use_v6-blocks_v6 scope.id later (expire_v6_lease now l),
              in_use_v6-blocks_v6 scope.id later l,
              swept_v6_lease l now later h,
              s,
              a,
            )
            refl))

-- The searches of the pools, at the instant of a sweep or later, find on the swept tables what they find
-- on the tables before: allocateIPv4Tx and allocateIPv6Tx give the same address or error, and
-- delegated prefixes use the same networks.
pub allocate_ipv4-swept :
    (fuel fuel6 : ℕ) (ls : List Lease) (rs : List Reservation) (ls6 : List V6Lease)
    (rs6 : List V6Reservation) (ps : List V6Prefix) (scope : Scope) (extra : Option ℕ) (net : IpNet)
    (now later : ℕ)
    → now ≤ later
    → (allocate_ipv4 fuel (release_expired_leases now ls) rs scope extra later
        ≡ allocate_ipv4 fuel ls rs scope extra later)
      × (allocate_ipv6 fuel6 (release_expired_v6_leases now ls6) rs6 scope extra later
          ≡ allocate_ipv6 fuel6 ls6 rs6 scope extra later)
      × (is_used_prefix (release_expired_v6_prefixes now ps) scope.id later net
          ≡ is_used_prefix ps scope.id later net)
unfolding allocate_ipv4 allocate_ipv6 is_used_prefix release_expired_v6_prefixes
allocate_ipv4-swept fuel fuel6 ls rs ls6 rs6 ps scope extra net now later h = (
  ap (λ u. pool_loop fuel u scope.start_ip scope.end_ip scope.start_ip)
      (fun_ext (λ ip. is_used-swept ls rs scope extra now later ip h)),
  ap
      (λ u.
        pool_loop_v6 fuel6 u scope.start_ip scope.end_ip (ip_to_uint128 scope.end_ip)
          (ip_to_uint128 scope.start_ip))
      (fun_ext (λ ip. is_used_v6-swept ls6 rs6 scope extra now later ip h)),
  any-map (λ p. is_prefix_in_use scope.id later p && is_same_net p.prefix net)
      (expire_v6_prefix now) ps
      (λ p. rw (swept_v6_prefix p scope.id now later h, expire_v6_prefix-net now p) refl),
)
