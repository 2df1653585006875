-- ===== src/Store/Pool/Search.antt =====
-- internal/store/store.go: what the search of allocateIPv4Tx finds.
use dhcp_server.Base.{
  ℕ, zero, suc, ◌+◌, ◌-◌, ◌%◌, ◌^◌, ◌<◌, ◌≤◌, ◌≡◌, ◌≢◌, inl, inr, refl, ap, ltb, ◌==◌,
}
use dhcp_server.Base.{Bool, false, Bool-cases, ◌&&◌, List, arith}
use dhcp_server.Base.{Option}
use dhcp_server.Base.Outcome.{ok}
use dhcp_server.Store.{
  LeaseState, blocks, lease_blocks_reuse, active, offered, declined, is_active, is_offered,
  is_declined, Lease, Reservation, Scope,
}
use dhcp_server.Store.Pool.FirstFree.{first_free, IsFirstFree, first_free-IsFirstFree}
use dhcp_server.Base.{sym, subst}
use dhcp_server.Store.Pool.{in_use, is_occupied, is_used, pool_loop, allocate_ipv4}

-- What the loop returns is free and neither the first nor the last address.
pub pool_loop-free :
    (fuel : ℕ) (used : ℕ → Bool) (s e ip a : ℕ)
    → pool_loop fuel used s e ip ≡ ok a
    → (used a ≡ false) × (a ≢ s) × (a ≢ e) × (a ≤ e)
unfolding pool_loop
pool_loop-free zero used s e ip a h = cc
pool_loop-free (suc fuel) used s e ip a h =
    ground (arith, pool_loop-free fuel used s e ((ip + 1) % 2 ^ 32) a)

-- With a last address below 255.255.255.255 the uint32 does not wrap around, and the loop is the
-- search on plain numbers.
pool_loop-first_free :
    (fuel : ℕ) (used : ℕ → Bool) (s e ip : ℕ)
    → e < 2 ^ 32 - 1
    → pool_loop fuel used s e ip ≡ first_free fuel used s e ip
unfolding pool_loop first_free
pool_loop-first_free zero used s e ip w = refl
pool_loop-first_free (suc fuel) used s e ip w = elim (Bool-cases (ltb e ip)) [
  | inl past ↦ rw past refl
  | inr inside ↦
      let next : (ip + 1) % 2 ^ 32 ≡ ip + 1 = ground arith in
      rw (next, pool_loop-first_free fuel used s e (ip + 1) w) refl
]

-- The statement of the queries and leaseBlocksReuse agree on the columns of a row.
pub is_occupied-lease_blocks_reuse :
    (st : LeaseState) (o : Option ℕ) (s e u now : ℕ)
    → is_occupied st o s e u now ≡ lease_blocks_reuse st o s e u now
unfolding is_occupied lease_blocks_reuse is_active is_offered is_declined
is_occupied-lease_blocks_reuse active o s e u now = ground arith
is_occupied-lease_blocks_reuse offered o s e u now = ground arith
is_occupied-lease_blocks_reuse declined o s e u now = ground arith
is_occupied-lease_blocks_reuse _ o s e u now = refl

-- The statement of the query and leaseBlocksReuse agree on every row.
pub in_use-blocks : (s now : ℕ) (l : Lease) → in_use s now l ≡ (l.scope_id == s && blocks l now)
unfolding in_use blocks
in_use-blocks s now l =
    ap (λ b. l.scope_id == s && b)
      (is_occupied-lease_blocks_reuse l.state l.offered_at l.starts_at l.ends_at l.updated_at now)

-- When the range is not empty, ends below 255.255.255.255 and the fuel covers it, the search of the
-- pool ends in one of two ways: with the lowest address strictly inside the range that no lease,
-- reservation, exclusion, gateway or name server uses, or with an error, and then every address
-- strictly inside the range is used.
pub allocate_ipv4-exhausted :
    (fuel : ℕ) (ls : List Lease) (rs : List Reservation) (scope : Scope) (extra : Option ℕ)
    (now : ℕ)
    → scope.start_ip ≤ scope.end_ip
    → scope.end_ip < 2 ^ 32 - 1
    → scope.end_ip + 2 ≤ scope.start_ip + fuel
    → IsFirstFree
        (is_used ls rs scope extra now)
        scope.start_ip
        scope.end_ip
        (allocate_ipv4 fuel ls rs scope extra now)
unfolding allocate_ipv4
allocate_ipv4-exhausted fuel ls rs scope extra now order below enough =
    let used = is_used ls rs scope extra now in
    let s = scope.start_ip in
    let e = scope.end_ip in
    subst (IsFirstFree used s e) (sym (pool_loop-first_free fuel used s e s below))
      (first_free-IsFirstFree fuel used s e order enough)
