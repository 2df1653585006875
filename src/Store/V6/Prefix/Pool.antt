-- ===== src/Store/V6/Prefix/Pool.antt =====
-- internal/store/store.go: the prefixes that allocatePrefixTx chooses from, and when it finds one.
use dhcp_server.Base.{ℕ, ◌+◌, ◌-◌, ◌*◌, ◌%◌, ◌^◌, ◌<◌, ◌≤◌, ◌≡◌, ◌⊎◌, refl, ◌∙◌, ap}
use dhcp_server.Base.{ltb, leb, true, false, some, inl, inr, List, arith}
use dhcp_server.Base.Outcome.{ok, err, ◌>>=◌}
use dhcp_server.Base.Rows.{reject}
use dhcp_server.Store.{Scope, IpNet}
use dhcp_server.Store.Table.{no_available_prefix}
use dhcp_server.Store.Uint128.{ip_to_uint128, uint128_to_ip, prefix_candidate}
use dhcp_server.Store.Uint128.Sum.{prefix_candidate-uint128_to_ip}
use dhcp_server.Store.V6.{V6Prefix}
use dhcp_server.Store.V6.Pool.Search.{ip_to_uint128-IsUint128, uint128_to_ip-ip_to_uint128}
use dhcp_server.Store.V6.Prefix.{
  has_prefix, is_used_prefix, candidate_net, prefix_loop, allocate_prefix, delegated_len,
}
use dhcp_server.Store.V6.Prefix.Promise.{allocate_prefix-candidate, prefix_loop-exhausted}

networks_fit :
    (a n j : ℕ)
    → a + n * 2 ^ 64 ≤ 2 ^ 128
    → j < n
    → (a < 2 ^ 128) × (j < 2 ^ 64) × ((a + j * 2 ^ 64) % 2 ^ 128 ≡ a + j * 2 ^ 64)
networks_fit a n j h k = (omega arith, omega arith, omega arith)

-- When the pool's networks of length 64 fit in 128 bits, the prefix that allocatePrefixTx returns is
-- one of them: the pool's address plus a whole number of such networks, less than the pool has.
pub allocate_prefix-pool :
    (fuel : ℕ) (ps before : List V6Prefix) (scope : Scope) (now : ℕ) (net pool : IpNet)
    → scope.prefix ≡ some pool
    → pool.ip + 2 ^ (delegated_len - pool.ones) * 2 ^ 64 ≤ 2 ^ 128
    → allocate_prefix fuel ps scope now ≡ ok (net, before)
    → (j : ℕ) × (j < 2 ^ (delegated_len - pool.ones))
      × (net.ip ≡ pool.ip + j * 2 ^ 64)
      × (net.ones ≡ delegated_len)
unfolding candidate_net
allocate_prefix-pool fuel ps before scope now net pool configured fits h =
    let (_, _, (pool', j, e, short, below, c)) =
      allocate_prefix-candidate fuel ps before scope now net h in
    let same : pool' ≡ pool = cc in
    let b : j < 2 ^ (delegated_len - pool.ones) = rw (← same) below in
    let (low, small, exact) = networks_fit pool.ip _ j fits b in
    let base = ip_to_uint128 pool.ip in
    let start = uint128_to_ip-ip_to_uint128 pool.ip low in
    let moved : uint128_to_ip (prefix_candidate base 64 j) ≡ pool.ip + j * 2 ^ 64 =
      prefix_candidate-uint128_to_ip base j (ip_to_uint128-IsUint128 pool.ip) small
      ∙ (ap (λ x. (x + j * 2 ^ 64) % 2 ^ 128) start ∙ exact) in
    let c' : net ≡ candidate_net base j = c ∙ ap (λ x. candidate_net (ip_to_uint128 x.ip) j) same in
    (j, b, ap (λ x. x.ip) c' ∙ moved, ap (λ x. x.ones) c')

-- When the scope has a pool of length 16 to 63 and the fuel covers its networks, allocatePrefixTx
-- ends with a prefix or, when each network of the pool is in use, with an error.
pub allocate_prefix-exhausted :
    (fuel : ℕ) (ps : List V6Prefix) (scope : Scope) (now : ℕ) (pool : IpNet)
    → scope.prefix ≡ some pool
    → 16 ≤ pool.ones
    → pool.ones < delegated_len
    → 2 ^ (delegated_len - pool.ones) + 1 ≤ fuel
    → ((net : IpNet) × (before : List V6Prefix) × (allocate_prefix fuel ps scope now
          ≡ ok (net, before)))
      ⊎ ((allocate_prefix fuel ps scope now ≡ err no_available_prefix)
          × ((b : ℕ)
              → b < 2 ^ (delegated_len - pool.ones)
              → is_used_prefix ps scope.id now (candidate_net (ip_to_uint128 pool.ip) b) ≡ true))
unfolding allocate_prefix
allocate_prefix-exhausted fuel ps scope now pool configured long short enough =
    let used = is_used_prefix ps scope.id now in
    let base = ip_to_uint128 pool.ip in
    let count = 2 ^ (delegated_len - pool.ones) in
    let fits : leb delegated_len pool.ones ≡ false = ground arith in
    let moderate : ltb 48 (delegated_len - pool.ones) ≡ false = ground arith in
    let step : allocate_prefix fuel ps scope now
        ≡ (prefix_loop fuel used base count 0 >>= λ x. ok (x, reject (has_prefix scope.id x) ps)) =
      rw (configured, fits, moderate, allocate_prefix) refl in
    elim (prefix_loop-exhausted fuel used base count 0 0 (omega arith) (omega arith)) [
      | inl (net, found) ↦ inl (net, reject (has_prefix scope.id net) ps, step ∙ rw found refl)
      | inr (failed, _) ↦ inr (
        step ∙ rw failed refl,
        λ b h. elim (prefix_loop-exhausted fuel used base count 0 b (omega arith) (omega arith)) [
          | inl (net, found) ↦ cc
          | inr (_, all) ↦ all (omega arith) h
        ],
      )
    ]
