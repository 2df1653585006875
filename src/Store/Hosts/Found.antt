-- ===== src/Store/Hosts/Found.antt =====
-- internal/store/store.go: what LookupHostname finds.
use dhcp_server.Base.{ℕ, ◌==◌, ◌/◌, ◌^◌, ltb, not, ◌&&◌, Bool, true, Bool-cases}
use dhcp_server.Base.{List, [], ◌∷◌, ◌≡◌, inl, inr, refl, ap, ◌∙◌, arith}
use dhcp_server.Base.{false, ◌≢◌, ◌⊎◌, ◌↔◌, ◌<◌, sym}
use dhcp_server.Base.Rows.{any, reject, any_of_mem, mem_of_any}
use dhcp_server.Store.{LeaseState, active, expired, released, offered, declined, other, is_active}
use mathlib.Core.List.{Memᴰ}
use dhcp_server.Store.Hosts.{
  Host, HostLease, is_current, is_named, distinct, lookup_addresses, is_v4_mapped, lookup_hostname,
}
use dhcp_server.Store.Hosts.Membership.{
  has, has-distinct, has-lookup_addresses, has-reject, is_hosted,
}

-- A row answers to the name, in the domain if one is asked for.
pub record AnswersTo (lower : ℕ → ℕ) (hostname domain : ℕ) (h : Host) : Type 0 where
  pub is_given : h.hostname ≢ 0
  pub name : lower h.hostname ≡ lower hostname
  pub in_domain : (domain ≡ 0) ⊎ (lower h.domain_name ≡ lower domain)

-- An active lease that has not expired, or a reservation, has the address under the name.
abbrev pub IsHosted :
    (lower : ℕ → ℕ) (hostname domain now a : ℕ) → List HostLease → List Host → Type 0
IsHosted lower hostname domain now a ls rs =
    ((l : HostLease) × Memᴰ l ls
      × (l.host.ip_addr ≡ a)
      × (l.state ≡ active)
      × (now < l.ends_at)
      × AnswersTo lower hostname domain l.host)
    ⊎ ((r : Host) × Memᴰ r rs × (r.ip_addr ≡ a) × AnswersTo lower hostname domain r)

is_active-true : (st : LeaseState) → is_active st ≡ true → st ≡ active
unfolding is_active
is_active-true active h = refl
is_active-true expired h = cc
is_active-true released h = cc
is_active-true offered h = cc
is_active-true declined h = cc
is_active-true other h = cc

is_named-AnswersTo :
    (lower : ℕ → ℕ) (hostname domain : ℕ) (h : Host)
    → (not (h.hostname == 0) && is_named lower hostname domain h) ≡ true
    → AnswersTo lower hostname domain h
unfolding is_named
is_named-AnswersTo lower hostname domain h t = record {
  is_given = λ e. ground arith;
  name = ground arith;
  in_domain = ground arith;
}

AnswersTo-is_named :
    (lower : ℕ → ℕ) (hostname domain : ℕ) (h : Host)
    → AnswersTo lower hostname domain h
    → (not (h.hostname == 0) && is_named lower hostname domain h) ≡ true
unfolding is_named
AnswersTo-is_named lower hostname domain h w =
    let g = w.is_given in let n = w.name in let d = w.in_domain in ground arith

is_hosted-IsHosted :
    (lower : ℕ → ℕ) (hostname domain now a : ℕ) (ls : List HostLease) (rs : List Host)
    → is_hosted lower hostname domain now a ls rs ≡ true
    → IsHosted lower hostname domain now a ls rs
unfolding is_hosted is_current
is_hosted-IsHosted lower hostname domain now a ls rs h =
    let p : HostLease → Bool =
      λ l. (is_current now l && is_named lower hostname domain l.host) && a == l.host.ip_addr in
    let q : Host → Bool =
      λ r. (not (r.hostname == 0) && is_named lower hostname domain r) && a == r.ip_addr in
    elim (Bool-cases (any p ls)) [
      | inl t ↦
          let (l, m, e) = mem_of_any p ls t in
          let e' : (((not (l.host.hostname == 0) && (is_active l.state && ltb now l.ends_at))
                  && is_named lower hostname domain l.host)
                && a == l.host.ip_addr)
              ≡ true =
            e in
          inl (
            l,
            m,
            ground arith,
            is_active-true l.state (ground arith),
            ground arith,
            is_named-AnswersTo lower hostname domain l.host (ground arith),
          )
      | inr f ↦
          let (r, m, e) = mem_of_any q rs (ground arith) in
          let e' : ((not (r.hostname == 0) && is_named lower hostname domain r) && a == r.ip_addr)
              ≡ true =
            e in
          inr (r, m, ground arith, is_named-AnswersTo lower hostname domain r (ground arith))
    ]

IsHosted-is_hosted :
    (lower : ℕ → ℕ) (hostname domain now a : ℕ) (ls : List HostLease) (rs : List Host)
    → IsHosted lower hostname domain now a ls rs
    → is_hosted lower hostname domain now a ls rs ≡ true
unfolding is_hosted is_current is_active
IsHosted-is_hosted lower hostname domain now a ls rs (inl (l, m, ip, st, live, w)) =
    let p : HostLease → Bool =
      λ l. (is_current now l && is_named lower hostname domain l.host) && a == l.host.ip_addr in
    let n = AnswersTo-is_named lower hostname domain l.host w in
    let act : is_active l.state ≡ true = rw st refl in
    let t : any p ls ≡ true = any_of_mem p ls l m (ground arith) in ground arith
IsHosted-is_hosted lower hostname domain now a ls rs (inr (r, m, ip, w)) =
    let q : Host → Bool =
      λ r. (not (r.hostname == 0) && is_named lower hostname domain r) && a == r.ip_addr in
    let n = AnswersTo-is_named lower hostname domain r w in
    let t : any q rs ≡ true = any_of_mem q rs r m (ground arith) in ground arith

-- Each address stands once.
unfoldable pub IsDistinct : List ℕ → Type 0
IsDistinct [] = Unit
IsDistinct (a ∷ xs) = (has a xs ≡ false) × IsDistinct xs

distinct-IsDistinct : (xs : List ℕ) → IsDistinct (distinct xs)
unfolding distinct IsDistinct has
distinct-IsDistinct [] = tt
distinct-IsDistinct (x ∷ xs) = elim (Bool-cases (any (◌==◌ x) xs)) [
  | inl e ↦ rw e (distinct-IsDistinct xs)
  | inr e ↦ rw e (has-distinct x xs ∙ e, distinct-IsDistinct xs)
]

reject-IsDistinct : (p : ℕ → Bool) (xs : List ℕ) → IsDistinct xs → IsDistinct (reject p xs)
unfolding IsDistinct reject
reject-IsDistinct p [] h = tt
reject-IsDistinct p (x ∷ xs) (h, hs) = elim (Bool-cases (p x)) [
  | inl e ↦ rw e (reject-IsDistinct p xs hs)
  | inr e ↦
      let f : has x (reject p xs) ≡ false = has-reject p x xs ∙ ground arith in
      rw e (f, reject-IsDistinct p xs hs)
]

-- In each family, an address is among those that LookupHostname finds exactly when an active lease that
-- has not expired, or a reservation, has it under the name that was asked for, in either case of its
-- letters, and in a scope of the domain if one was asked for; of IPv6, no address that is an
-- IPv4-mapped one. No address is found twice.
pub lookup_hostname-has :
    (lower : ℕ → ℕ) (hostname domain now a : ℕ) (ls : List HostLease) (rs : List Host)
    (ls6 : List HostLease) (rs6 : List Host)
    → ((has a (lookup_hostname lower hostname domain now ls rs ls6 rs6).0 ≡ true)
        ↔ IsHosted lower hostname domain now a ls rs)
      × ((has a (lookup_hostname lower hostname domain now ls rs ls6 rs6).1 ≡ true)
          ↔ (IsHosted lower hostname domain now a ls6 rs6 × (a / 2 ^ 32 ≢ 0xffff)))
      × IsDistinct (lookup_hostname lower hostname domain now ls rs ls6 rs6).0
      × IsDistinct (lookup_hostname lower hostname domain now ls rs ls6 rs6).1
unfolding lookup_hostname is_v4_mapped lookup_addresses
lookup_hostname-has lower hostname domain now a ls rs ls6 rs6 =
    let v4 = has-lookup_addresses lower hostname domain now a ls rs in
    let v6 : has a (reject is_v4_mapped (lookup_addresses lower hostname domain now ls6 rs6))
        ≡ (not (is_v4_mapped a) && is_hosted lower hostname domain now a ls6 rs6) =
      has-reject is_v4_mapped a (lookup_addresses lower hostname domain now ls6 rs6)
      ∙ ap (λ b. not (is_v4_mapped a) && b)
          (has-lookup_addresses lower hostname domain now a ls6 rs6) in
    (
      (
        λ h. is_hosted-IsHosted lower hostname domain now a ls rs (sym v4 ∙ h),
        λ w. v4 ∙ IsHosted-is_hosted lower hostname domain now a ls rs w,
      ),
      (
        λ h.
            let t = sym v6 ∙ h in
            (
              is_hosted-IsHosted lower hostname domain now a ls6 rs6 (ground arith),
              λ e. ground arith,
            ),
        λ (w, unmapped).
            let t = IsHosted-is_hosted lower hostname domain now a ls6 rs6 w in v6 ∙ ground arith,
      ),
      distinct-IsDistinct _,
      reject-IsDistinct is_v4_mapped _ (distinct-IsDistinct _),
    )
