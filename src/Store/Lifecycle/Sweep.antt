-- ===== src/Store/Lifecycle/Sweep.antt =====
-- internal/store/store.go: the rows that the sweeps and the clean-up change.
pub mod Pools
use dhcp_server.Base.{
  ℕ, ◌+◌, ◌*◌, ◌≤◌, ◌<◌, ◌≡◌, refl, ltb, ◌==◌, ◌&&◌, ◌||◌, true, false, Bool-cases,
}
use dhcp_server.Base.{inl, inr, Option, List, arith}
use dhcp_server.Base.Rows.{any, mem_of_any, mem-reject}
use dhcp_server.Store.{
  LeaseState, active, offered, declined, expired, released, other, is_active, is_offered, Lease,
  blocks, lease_blocks_reuse, or_else, second, offer_timeout_seconds, decline_quarantine_seconds,
}
use dhcp_server.Store.V6.{V6Lease, V6Prefix, blocks_v6}
use dhcp_server.Store.V6.Prefix.{is_prefix_in_use}
use dhcp_server.Store.Lifecycle.{
  is_past, expire_lease, expire_v6_lease, expire_v6_prefix, ScopeTimes, retention, is_garbage,
  cleanup_expired_leases, is_garbage_prefix,
}
use dhcp_server.Store.Allocate.{or_default}
use dhcp_server.Base.{Bool}
use mathlib.Core.List.{Memᴰ}

pub is_past-lease_blocks_reuse :
    (st : LeaseState) (o : Option ℕ) (s e u now later : ℕ)
    → now ≤ later
    → is_past st (or_else o s) e now ≡ true
    → lease_blocks_reuse st o s e u later ≡ false
unfolding is_past lease_blocks_reuse is_active is_offered
is_past-lease_blocks_reuse active o s e u now later h p = ground arith
is_past-lease_blocks_reuse offered o s e u now later h p = ground arith
is_past-lease_blocks_reuse _ o s e u now later h p = ground arith

expired-free : (o : Option ℕ) (s e u now : ℕ) → lease_blocks_reuse expired o s e u now ≡ false
unfolding lease_blocks_reuse
expired-free o s e u now = refl

pub swept_lease :
    (l : Lease) (now later : ℕ) → now ≤ later → blocks (expire_lease now l) later ≡ blocks l later
unfolding expire_lease blocks
swept_lease l now later h =
    elim (Bool-cases (is_past l.state (or_else l.offered_at l.starts_at) l.ends_at now)) [
      | inl t ↦
          let f =
            is_past-lease_blocks_reuse l.state l.offered_at l.starts_at l.ends_at l.updated_at now
              later h t in
          rw (t, f, expired-free l.offered_at l.starts_at l.ends_at now later) refl
      | inr f ↦ rw f refl
    ]

pub swept_v6_lease :
    (l : V6Lease) (now later : ℕ)
    → now ≤ later
    → blocks_v6 (expire_v6_lease now l) later ≡ blocks_v6 l later
unfolding expire_v6_lease blocks_v6
swept_v6_lease l now later h =
    elim (Bool-cases (is_past l.state (or_else l.offered_at l.starts_at) l.ends_at now)) [
      | inl t ↦
          let f =
            is_past-lease_blocks_reuse l.state l.offered_at l.starts_at l.ends_at l.updated_at now
              later h t in
          rw (t, f, expired-free l.offered_at l.starts_at l.ends_at now later) refl
      | inr f ↦ rw f refl
    ]

is_past-prefix :
    (st : LeaseState) (s e now later : ℕ)
    → now ≤ later
    → is_past st s e now ≡ true
    → ((is_active st && ltb later e)
        || (is_offered st && ltb later (s + offer_timeout_seconds * second)))
      ≡ false
unfolding is_past is_active is_offered
is_past-prefix active s e now later h t = ground arith
is_past-prefix offered s e now later h t = ground arith
is_past-prefix _ s e now later h t = ground arith

pub swept_v6_prefix :
    (p : V6Prefix) (s now later : ℕ)
    → now ≤ later
    → is_prefix_in_use s later (expire_v6_prefix now p) ≡ is_prefix_in_use s later p
unfolding expire_v6_prefix is_prefix_in_use is_active is_offered
swept_v6_prefix p s now later h = elim (Bool-cases (is_past p.state p.starts_at p.ends_at now)) [
  | inl t ↦ rw (t, is_past-prefix p.state p.starts_at p.ends_at now later h t) refl
  | inr f ↦ rw f refl
]

blocks-ends :
    (st : LeaseState) (o : Option ℕ) (s e u now : ℕ)
    → or_else o s ≤ e
    → u ≤ e
    → lease_blocks_reuse st o s e u now ≡ true
    → now < e + decline_quarantine_seconds * second
unfolding lease_blocks_reuse
blocks-ends active o s e u now h k b = ground arith
blocks-ends offered o s e u now h k b = ground arith
blocks-ends declined o s e u now h k b = ground arith
blocks-ends expired o s e u now h k b = ground arith
blocks-ends released o s e u now h k b = ground arith
blocks-ends other o s e u now h k b = ground arith

-- A row whose times are in order and whose scope retains its rows for the quarantine or longer is
-- not deleted while it holds its address.
pub is_garbage-lease_blocks_reuse :
    (scopes : List ScopeTimes) (st : LeaseState) (o : Option ℕ) (id s e u now : ℕ)
    → ((x : ScopeTimes) → Memᴰ x scopes → decline_quarantine_seconds ≤ retention x)
    → or_else o s ≤ e
    → u ≤ e
    → lease_blocks_reuse st o s e u now ≡ true
    → is_garbage scopes id e now ≡ false
unfolding is_garbage
is_garbage-lease_blocks_reuse scopes st o id s e u now r h k b =
    elim (Bool-cases (any (λ x. x.id == id && ltb (e + retention x * second) now) scopes)) [
      | inl t ↦
          let (x, m, g) =
            mem_of_any (λ x. x.id == id && ltb (e + retention x * second) now) scopes t in
          let long = r x m in let end = blocks-ends st o s e u now h k b in ground arith
      | inr f ↦ f
    ]

pub kept_lease :
    (scopes : List ScopeTimes) (now : ℕ) (ls : List Lease) (ls6 : List V6Lease) (ps : List V6Prefix)
    (k : Lease)
    → ((x : ScopeTimes) → Memᴰ x scopes → decline_quarantine_seconds ≤ retention x)
    → or_else k.offered_at k.starts_at ≤ k.ends_at
    → k.updated_at ≤ k.ends_at
    → Memᴰ k ls
    → blocks k now ≡ true
    → Memᴰ k (cleanup_expired_leases scopes now ls ls6 ps).0
unfolding cleanup_expired_leases blocks
kept_lease scopes now ls ls6 ps k r h u m b =
    mem-reject (λ l. is_garbage scopes l.scope_id l.ends_at now) ls k m
      (is_garbage-lease_blocks_reuse scopes k.state k.offered_at k.scope_id k.starts_at k.ends_at
        k.updated_at now r h u b)

kept_v6_lease :
    (scopes : List ScopeTimes) (now : ℕ) (ls : List Lease) (ls6 : List V6Lease) (ps : List V6Prefix)
    (k : V6Lease)
    → ((x : ScopeTimes) → Memᴰ x scopes → decline_quarantine_seconds ≤ retention x)
    → or_else k.offered_at k.starts_at ≤ k.ends_at
    → k.updated_at ≤ k.ends_at
    → Memᴰ k ls6
    → blocks_v6 k now ≡ true
    → Memᴰ k (cleanup_expired_leases scopes now ls ls6 ps).1
unfolding cleanup_expired_leases blocks_v6
kept_v6_lease scopes now ls ls6 ps k r h u m b =
    mem-reject (λ l. is_garbage scopes l.scope_id l.ends_at now) ls6 k m
      (is_garbage-lease_blocks_reuse scopes k.state k.offered_at k.scope_id k.starts_at k.ends_at
        k.updated_at now r h u b)

prefix-ends :
    (st : LeaseState) (s e now : ℕ)
    → s + offer_timeout_seconds * second ≤ e
    → ((is_active st && ltb now e)
        || (is_offered st && ltb now (s + offer_timeout_seconds * second)))
      ≡ true
    → now < e
unfolding is_active is_offered
prefix-ends active s e now h b = ground arith
prefix-ends offered s e now h b = ground arith
prefix-ends expired s e now h b = ground arith
prefix-ends released s e now h b = ground arith
prefix-ends declined s e now h b = ground arith
prefix-ends other s e now h b = ground arith

kept_v6_prefix :
    (scopes : List ScopeTimes) (now : ℕ) (ls : List Lease) (ls6 : List V6Lease) (ps : List V6Prefix)
    (k : V6Prefix)
    → k.starts_at + offer_timeout_seconds * second ≤ k.ends_at
    → Memᴰ k ps
    → is_prefix_in_use k.scope_id now k ≡ true
    → Memᴰ k (cleanup_expired_leases scopes now ls ls6 ps).2
unfolding cleanup_expired_leases is_garbage_prefix is_prefix_in_use
kept_v6_prefix scopes now ls ls6 ps k h m b =
    let p : ScopeTimes → Bool =
      λ x. x.id == k.scope_id && ltb (k.ends_at + or_default k.valid_lifetime 86400 * second) now in
    mem-reject (is_garbage_prefix scopes now) ps k m (elim (Bool-cases (any p scopes)) [
      | inl t ↦
          let (x, _, g) = mem_of_any p scopes t in
          let e = prefix-ends k.state k.starts_at k.ends_at now h (ground arith) in ground arith
      | inr f ↦ f
    ])

-- CleanupExpiredLeases keeps every row of the IPv4 and IPv6 leases that holds its address, when every scope
-- retains its rows for at least the quarantine of an hour and the row's offer and its last update are not after its
-- end; and every delegated prefix that is in use, when its end is not before the end of its offer.
pub cleanup_expired_leases-mem :
    (scopes : List ScopeTimes) (now : ℕ) (ls : List Lease) (ls6 : List V6Lease) (ps : List V6Prefix)
    (k : Lease) (k6 : V6Lease) (p : V6Prefix)
    → ((x : ScopeTimes) → Memᴰ x scopes → decline_quarantine_seconds ≤ retention x)
    → or_else k.offered_at k.starts_at ≤ k.ends_at
    → k.updated_at ≤ k.ends_at
    → Memᴰ k ls
    → blocks k now ≡ true
    → or_else k6.offered_at k6.starts_at ≤ k6.ends_at
    → k6.updated_at ≤ k6.ends_at
    → Memᴰ k6 ls6
    → blocks_v6 k6 now ≡ true
    → p.starts_at + offer_timeout_seconds * second ≤ p.ends_at
    → Memᴰ p ps
    → is_prefix_in_use p.scope_id now p ≡ true
    → Memᴰ k (cleanup_expired_leases scopes now ls ls6 ps).0
      × Memᴰ k6 (cleanup_expired_leases scopes now ls ls6 ps).1
      × Memᴰ p (cleanup_expired_leases scopes now ls ls6 ps).2
cleanup_expired_leases-mem scopes now ls ls6 ps k k6 p r h u m b h6 u6 m6 b6 hp mp bp = (
  kept_lease scopes now ls ls6 ps k r h u m b,
  kept_v6_lease scopes now ls ls6 ps k6 r h6 u6 m6 b6,
  kept_v6_prefix scopes now ls ls6 ps p hp mp bp,
)
