-- ===== src/Store/V6/Pool/Search.antt =====
-- internal/store/store.go: what the search of allocateIPv6Tx finds.
use dhcp_server.Base.{
  ℕ, zero, suc, ◌+◌, ◌-◌, ◌^◌, ◌<◌, ◌≤◌, ◌≡◌, inl, inr, refl, ap, sym, ◌∙◌, subst, ltb, ◌==◌, Bool,
  false, not, Bool-cases, ◌&&◌, ◌||◌, List, Option, arith,
}
use dhcp_server.Base.Outcome.{ok}
use dhcp_server.Store.{Scope}
use dhcp_server.Store.Pool.FirstFree.{first_free, IsFirstFree, first_free-IsFirstFree}
use dhcp_server.Store.Pool.Search.{is_occupied-lease_blocks_reuse}
use dhcp_server.Store.Uint128.{Uint128, cmp, is_at_most, ip_add_one, ip_to_uint128, uint128_to_ip}
use dhcp_server.Store.Uint128.Sum.{IsUint128, ip_add_n-uint128_to_ip}
use dhcp_server.Store.V6.{V6Lease, V6Reservation, blocks_v6}
use dhcp_server.Store.V6.Pool.{in_use_v6, is_used_v6, pool_loop_v6, allocate_ipv6}

-- What the loop returns is free.
pub pool_loop_v6-free :
    (fuel : ℕ) (used : ℕ → Bool) (s e : ℕ) (end v : Uint128) (a : ℕ)
    → pool_loop_v6 fuel used s e end v ≡ ok a
    → used a ≡ false
unfolding pool_loop_v6
pool_loop_v6-free zero used s e end v a h = cc
pool_loop_v6-free (suc fuel) used s e end v a h = elim (Bool-cases (is_at_most (cmp v end))) [
  | inl inside ↦
      let c = uint128_to_ip v in
      elim (Bool-cases (used c || (c == s || c == e))) [
        | inl skip ↦ pool_loop_v6-free fuel used s e end (ip_add_one v) a (ground arith)
        | inr free ↦ ground arith
      ]
  | inr past ↦ ground arith
]

is_at_most-cmp :
    (a b : Uint128)
    → IsUint128 a
    → IsUint128 b
    → is_at_most (cmp a b) ≡ not (ltb (uint128_to_ip b) (uint128_to_ip a))
unfolding is_at_most cmp uint128_to_ip
is_at_most-cmp a b wa wb = let la = wa.lo_fits in let lb = wb.lo_fits in ground arith

pub ip_to_uint128-IsUint128 : (ip : ℕ) → IsUint128 (ip_to_uint128 ip)
unfolding ip_to_uint128
ip_to_uint128-IsUint128 ip = record { hi_fits = omega arith; lo_fits = omega arith }

ip_add_one-IsUint128 : (v : Uint128) → IsUint128 v → IsUint128 (ip_add_one v)
unfolding ip_add_one
ip_add_one-IsUint128 v w =
    let h = w.hi_fits in
    let l = w.lo_fits in
    elim (Bool-cases (v.lo == 2 ^ 64 - 1)) [
      | inl e ↦ rw e (record { hi_fits = omega arith; lo_fits = omega arith })
      | inr e ↦ rw e (record { hi_fits = h; lo_fits = ground arith })
    ]

-- The halves of an address make it up again.
pub uint128_to_ip-ip_to_uint128 : (ip : ℕ) → ip < 2 ^ 128 → uint128_to_ip (ip_to_uint128 ip) ≡ ip
unfolding uint128_to_ip ip_to_uint128
uint128_to_ip-ip_to_uint128 ip h = omega arith

-- With a last address below the last of all, the loop on the halves is the search on numbers of 128
-- bits.
pub pool_loop_v6-first_free :
    (fuel : ℕ) (used : ℕ → Bool) (s e : ℕ) (end v : Uint128)
    → IsUint128 end
    → IsUint128 v
    → uint128_to_ip end < 2 ^ 128 - 1
    → e ≡ uint128_to_ip end
    → pool_loop_v6 fuel used s e end v ≡ first_free fuel used s e (uint128_to_ip v)
unfolding pool_loop_v6 first_free
pool_loop_v6-first_free zero used s e end v we wv below h = refl
pool_loop_v6-first_free (suc fuel) used s e end v we wv below h =
    let c = uint128_to_ip v in
    let test : is_at_most (cmp v end) ≡ not (ltb e c) =
      is_at_most-cmp v end wv we ∙ ap (λ x. not (ltb x c)) (sym h) in
    elim (Bool-cases (ltb e c)) [
      | inl past ↦ rw (test, past) refl
      | inr inside ↦
          let next : uint128_to_ip (ip_add_one v) ≡ c + 1 =
            (ip_add_n-uint128_to_ip v 0 wv (omega arith)).0 ∙ ground arith in
          let rest =
            pool_loop_v6-first_free fuel used s e end (ip_add_one v) we (ip_add_one-IsUint128 v wv)
              below h in
          rw (test, inside, rest, next) refl
    ]

-- When the range is not empty, ends below the last address of 128 bits and the fuel covers it, the
-- search of the pool by allocateIPv6Tx, on the two halves of an address, ends in one of two ways:
-- with the lowest address strictly inside the range that no lease, reservation, exclusion, gateway
-- or name server uses, or with an error, and then every address strictly inside the range is used.
pub allocate_ipv6-IsFirstFree :
    (fuel : ℕ) (ls : List V6Lease) (rs : List V6Reservation) (scope : Scope) (extra : Option ℕ)
    (now : ℕ)
    → scope.start_ip ≤ scope.end_ip
    → scope.end_ip < 2 ^ 128 - 1
    → scope.end_ip + 2 ≤ scope.start_ip + fuel
    → IsFirstFree
        (is_used_v6 ls rs scope extra now)
        scope.start_ip
        scope.end_ip
        (allocate_ipv6 fuel ls rs scope extra now)
unfolding allocate_ipv6
allocate_ipv6-IsFirstFree fuel ls rs scope extra now order below enough =
    let used = is_used_v6 ls rs scope extra now in
    let s = scope.start_ip in
    let e = scope.end_ip in
    let es = uint128_to_ip-ip_to_uint128 s (omega arith) in
    let ee = uint128_to_ip-ip_to_uint128 e (omega arith) in
    let loop =
      pool_loop_v6-first_free fuel used s e (ip_to_uint128 e) (ip_to_uint128 s)
        (ip_to_uint128-IsUint128 e) (ip_to_uint128-IsUint128 s) (rw ee below) (sym ee) in
    subst (IsFirstFree used s e) (sym (loop ∙ ap (first_free fuel used s e) es))
      (first_free-IsFirstFree fuel used s e order enough)

-- The statement of the query and leaseBlocksReuse agree on every row.
pub in_use_v6-blocks_v6 :
    (s now : ℕ) (l : V6Lease) → in_use_v6 s now l ≡ (l.scope_id == s && blocks_v6 l now)
unfolding in_use_v6 blocks_v6
in_use_v6-blocks_v6 s now l =
    ap (λ b. l.scope_id == s && b)
      (is_occupied-lease_blocks_reuse l.state l.offered_at l.starts_at l.ends_at l.updated_at now)
