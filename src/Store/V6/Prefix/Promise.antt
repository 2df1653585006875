-- ===== src/Store/V6/Prefix/Promise.antt =====
-- internal/store/store.go: what AllocateV6Prefix promises to the clients of a scope.
use dhcp_server.Base.{ℕ, zero, suc, ◌+◌, ◌-◌, ◌^◌, ◌<◌, ◌≤◌, ◌≡◌, ◌⊎◌, refl, sym}
use dhcp_server.Base.{
  ◌∙◌, ap, subst, ltb, leb, ◌==◌, ◌&&◌, Bool, true, false, Bool-cases, Option-cases, some,
}
use dhcp_server.Base.{inl, inr, List, arith}
use dhcp_server.Base.Outcome.{ok, err, ◌>>=◌, bind-eq-ok}
use dhcp_server.Base.Rows.{reject, any-eq-false, find_first-eq-some, mem-reject}
use dhcp_server.Base.Upsert.{Unique, upsert-mem}
use dhcp_server.Store.{Scope, IpNet}
use dhcp_server.Store.Table.{or_violation-eq-ok, no_available_prefix}
use dhcp_server.Store.Uint128.{Uint128, ip_to_uint128}
use dhcp_server.Store.V6.{V6Prefix}
use dhcp_server.Store.V6.Prefix.{
  PrefixRequest, is_prefix_of, is_same_net, has_prefix, get_v6_prefix_by_duid, overwrite_prefix,
  is_rival_prefix, save_v6_prefix, is_prefix_in_use, is_used_prefix, candidate_net, prefix_loop,
  allocate_prefix, new_v6_prefix, renewed_v6_prefix, save_and_return_prefix, is_kept_prefix,
  delegate, allocate_v6_prefix, delegated_len,
}
use mathlib.Core.List.{Memᴰ}

-- UNIQUE (scope_id, prefix).
abbrev pub HasUniquePrefixes : List V6Prefix → Type 0
HasUniquePrefixes = Unique (λ k l.
    (k.scope_id ≡ l.scope_id) × (k.prefix.ip ≡ l.prefix.ip) × (k.prefix.ones ≡ l.prefix.ones))

-- A row that holds its prefix against the association of the request.
pub record IsDelegatedFrom (q : PrefixRequest) (k : V6Prefix) : Type 0 where
  pub other : is_prefix_of q.scope.id q.duid q.iaid k ≡ false
  pub live : is_prefix_in_use q.scope.id q.now k ≡ true

-- What the loop returns is a candidate that is not used.
prefix_loop-free :
    (fuel : ℕ) (used : IpNet → Bool) (base : Uint128) (count i : ℕ) (net : IpNet)
    → prefix_loop fuel used base count i ≡ ok net
    → (used net ≡ false) × ((j : ℕ) × (j < count) × (net ≡ candidate_net base j))
unfolding prefix_loop
prefix_loop-free zero used base count i net h = cc
prefix_loop-free (suc fuel) used base count i net h = elim (Bool-cases (ltb i count)) [
  | inr past ↦ ground arith
  | inl inside ↦ elim (Bool-cases (used (candidate_net base i))) [
    | inl skip ↦ prefix_loop-free fuel used base count (i + 1) net (ground arith)
    | inr free ↦
        let e : candidate_net base i ≡ net = ground arith in
        (sym (ap used e) ∙ free, (i, ground arith, sym e))
  ]
]

-- With fuel for all candidates the search ends, and an error means that every candidate is used.
pub prefix_loop-exhausted :
    (fuel : ℕ) (used : IpNet → Bool) (base : Uint128) (count i b : ℕ)
    → i ≤ count
    → count + 1 ≤ i + fuel
    → ((net : IpNet) × (prefix_loop fuel used base count i ≡ ok net))
      ⊎ ((prefix_loop fuel used base count i ≡ err no_available_prefix)
          × (i ≤ b → b < count → used (candidate_net base b) ≡ true))
unfolding prefix_loop
prefix_loop-exhausted zero used base count i b w h = absurd (omega arith)
prefix_loop-exhausted (suc fuel) used base count i b w h = elim (Bool-cases (ltb i count)) [
  | inr past ↦ ground arith
  | inl inside ↦ elim (Bool-cases (used (candidate_net base i))) [
    | inl skip ↦
        let below : prefix_loop (suc fuel) used base count i
            ≡ prefix_loop fuel used base count (i + 1) =
          ground arith in
        elim (prefix_loop-exhausted fuel used base count (i + 1) b (ground arith) (omega arith)) [
          | inl (net, found) ↦ inl (net, below ∙ found)
          | inr (failed, all) ↦ inr (
            below ∙ failed,
            λ l r. elim (Bool-cases (b == i)) [
              | inl e ↦
                  let e' : b ≡ i = ground arith in ap (λ x. used (candidate_net base x)) e' ∙ skip
              | inr n ↦ all (ground arith) r
            ],
          )
        ]
    | inr free ↦ inl (candidate_net base i, ground arith)
  ]
]

is_prefix_of-true :
    (s d i : ℕ) (p : V6Prefix)
    → is_prefix_of s d i p ≡ true
    → (p.scope_id ≡ s) × (p.duid ≡ d) × (p.iaid ≡ i)
unfolding is_prefix_of
is_prefix_of-true s d i p h = ground arith

is_same_net-true : (a b : IpNet) → is_same_net a b ≡ true → (a.ip ≡ b.ip) × (a.ones ≡ b.ones)
unfolding is_same_net
is_same_net-true a b h = ground arith

in_use_scope :
    (q : PrefixRequest) (k : V6Prefix)
    → is_prefix_in_use q.scope.id q.now k ≡ true
    → k.scope_id ≡ q.scope.id
unfolding is_prefix_in_use
in_use_scope q k h = ground arith

overwrite_prefix-elsewhere :
    (new p : V6Prefix)
    → is_prefix_of new.scope_id new.duid new.iaid p ≡ false
    → overwrite_prefix new p ≡ p
unfolding overwrite_prefix
overwrite_prefix-elsewhere new p h = rw h refl

-- saveV6PrefixTx, and the prefix is returned; the rows of other associations stay.
save_and_return_prefix-mem :
    (new : V6Prefix) (ps : List V6Prefix) (p : V6Prefix) (ps' : List V6Prefix) (k : V6Prefix)
    → save_and_return_prefix new ps ≡ ok (p, ps')
    → Memᴰ k ps
    → is_prefix_of new.scope_id new.duid new.iaid k ≡ false
    → (p ≡ new) × Memᴰ k ps'
unfolding save_and_return_prefix save_v6_prefix
save_and_return_prefix-mem new ps p ps' k h m other =
    let (x, s, e) = bind-eq-ok (save_v6_prefix new ps) _ h in
    let saved = or_violation-eq-ok _ x s in
    let same : x ≡ ps' = cc in
    (
      cc,
      upsert-mem (is_prefix_of new.scope_id new.duid new.iaid) (is_rival_prefix new)
          (λ z. z.id == new.id) (overwrite_prefix new) new ps ps' k (saved ∙ ap some same) m
          (overwrite_prefix-elsewhere new k other),
    )

-- A prefix that a live row holds is used.
is_used_prefix-held :
    (q : PrefixRequest) (ps : List V6Prefix) (net : IpNet) (k : V6Prefix)
    → is_used_prefix ps q.scope.id q.now net ≡ false
    → Memᴰ k ps
    → IsDelegatedFrom q k
    → is_same_net k.prefix net ≡ false
unfolding is_used_prefix
is_used_prefix-held q ps net k h m b =
    let live = b.live in
    let p : V6Prefix → Bool =
      λ z. is_prefix_in_use q.scope.id q.now z && is_same_net z.prefix net in
    let f : (is_prefix_in_use q.scope.id q.now k && is_same_net k.prefix net) ≡ false =
      any-eq-false p ps k h m in
    ground arith

-- The prefix that allocatePrefixTx returns is a candidate of the pool, and the rows with another
-- prefix stay.
pub allocate_prefix-candidate :
    (fuel : ℕ) (ps before : List V6Prefix) (scope : Scope) (now : ℕ) (net : IpNet)
    → allocate_prefix fuel ps scope now ≡ ok (net, before)
    → (is_used_prefix ps scope.id now net ≡ false)
      × (before ≡ reject (has_prefix scope.id net) ps)
      × ((pool : IpNet) × (j : ℕ) × (scope.prefix ≡ some pool)
          × (pool.ones < delegated_len)
          × (j < 2 ^ (delegated_len - pool.ones))
          × (net ≡ candidate_net (ip_to_uint128 pool.ip) j))
unfolding allocate_prefix
allocate_prefix-candidate fuel ps before scope now net h = elim (Option-cases scope.prefix) [
  | inl missing ↦ ground arith
  | inr (pool, configured) ↦ elim (Bool-cases (leb delegated_len pool.ones)) [
    | inl small ↦ ground arith
    | inr fits ↦ elim (Bool-cases (ltb 48 (delegated_len - pool.ones))) [
      | inl large ↦ ground arith
      | inr moderate ↦
          let used = is_used_prefix ps scope.id now in
          let base = ip_to_uint128 pool.ip in
          let count = 2 ^ (delegated_len - pool.ones) in
          let step : allocate_prefix fuel ps scope now ≡ (
              prefix_loop fuel used base count 0 >>= λ x.
              ok (x, reject (has_prefix scope.id x) ps)) =
            rw (configured, fits, moderate, allocate_prefix) refl in
          let (net', found, e) = bind-eq-ok (prefix_loop fuel used base count 0) _ (sym step ∙ h) in
          let same : net' ≡ net = cc in
          let rest : reject (has_prefix scope.id net') ps ≡ before = cc in
          let (free, (j, below, c)) = prefix_loop-free fuel used base count 0 net' found in
          (
            sym (ap used same) ∙ free,
            sym rest ∙ ap (λ x. reject (has_prefix scope.id x) ps) same,
            (pool, j, configured, ground arith, below, sym same ∙ c),
          )
    ]
  ]
]

delegate-mem :
    (q : PrefixRequest) (ps : List V6Prefix) (p : V6Prefix) (ps' : List V6Prefix) (k : V6Prefix)
    → delegate q ps ≡ ok (p, ps')
    → Memᴰ k ps
    → IsDelegatedFrom q k
    → (is_same_net k.prefix p.prefix ≡ false) × Memᴰ k ps'
unfolding delegate new_v6_prefix has_prefix
delegate-mem q ps p ps' k h m b =
    let ((net, before), found, h1) = bind-eq-ok (allocate_prefix q.fuel ps q.scope q.now) _ h in
    let (free, cut, _) = allocate_prefix-candidate q.fuel ps before q.scope q.now net found in
    let away = is_used_prefix-held q ps net k free m b in
    let stays : Memᴰ k before = subst (Memᴰ k) (sym cut) (
      mem-reject (λ z. z.scope_id == q.scope.id && is_same_net z.prefix net) ps k m
        (ground arith)) in
    let (e, kept) =
      save_and_return_prefix-mem (new_v6_prefix q net) before p ps' k h1 stays b.other in
    (ap (λ z. is_same_net k.prefix z.prefix) e ∙ away, kept)

renewed_v6_prefix-mem :
    (q : PrefixRequest) (ps : List V6Prefix) (old p : V6Prefix) (ps' : List V6Prefix) (k : V6Prefix)
    → HasUniquePrefixes ps
    → get_v6_prefix_by_duid ps q.scope.id q.duid q.iaid ≡ some old
    → save_and_return_prefix (renewed_v6_prefix q old) ps ≡ ok (p, ps')
    → Memᴰ k ps
    → IsDelegatedFrom q k
    → (is_same_net k.prefix p.prefix ≡ false) × Memᴰ k ps'
unfolding get_v6_prefix_by_duid renewed_v6_prefix
renewed_v6_prefix-mem q ps old p ps' k u found h m b =
    let other = b.other in
    let (m0, own) = find_first-eq-some (is_prefix_of q.scope.id q.duid q.iaid) ps old found in
    let (s, d, i) = is_prefix_of-true q.scope.id q.duid q.iaid old own in
    let elsewhere : is_prefix_of old.scope_id old.duid old.iaid k ≡ false = rw (s, d, i) other in
    let (e, kept) = save_and_return_prefix-mem (renewed_v6_prefix q old) ps p ps' k h m elsewhere in
    let away : is_same_net k.prefix old.prefix ≡ false =
      elim (Bool-cases (is_same_net k.prefix old.prefix)) [
        | inr f ↦ f
        | inl t ↦
            let (a, n) = is_same_net-true k.prefix old.prefix t in
            let same = u k old m m0 (in_use_scope q k b.live ∙ sym s, a, n) in
            let t' = ap (is_prefix_of q.scope.id q.duid q.iaid) same ∙ own in cc
      ] in
    (ap (λ z. is_same_net k.prefix z.prefix) e ∙ away, kept)

-- When no two rows of a scope have one prefix, a prefix that AllocateV6Prefix delegates differs from
-- that of every other association's live row (active and not expired, or offered inside the offer
-- window), and that row stays as it was.
pub allocate_v6_prefix-IsDelegatedFrom :
    (q : PrefixRequest) (ps : List V6Prefix) (p : V6Prefix) (ps' : List V6Prefix) (k : V6Prefix)
    → HasUniquePrefixes ps
    → allocate_v6_prefix q ps ≡ ok (p, ps')
    → Memᴰ k ps
    → IsDelegatedFrom q k
    → (is_same_net k.prefix p.prefix ≡ false) × Memᴰ k ps'
unfolding allocate_v6_prefix
allocate_v6_prefix-IsDelegatedFrom q ps p ps' k u h m b =
    elim (Option-cases (get_v6_prefix_by_duid ps q.scope.id q.duid q.iaid)) [
      | inl missing ↦ delegate-mem q ps p ps' k (ground arith) m b
      | inr (old, found) ↦ elim (Bool-cases (is_kept_prefix q old)) [
        | inl kept ↦ renewed_v6_prefix-mem q ps old p ps' k u found (ground arith) m b
        | inr given_up ↦ delegate-mem q ps p ps' k (ground arith) m b
      ]
    ]
