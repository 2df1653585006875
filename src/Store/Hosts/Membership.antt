-- ===== src/Store/Hosts/Membership.antt =====
-- internal/store/store.go: which addresses the parts of LookupHostname find.
use dhcp_server.Base.{ℕ, ◌==◌, not, ◌&&◌, ◌||◌, Bool, true, Bool-cases}
use dhcp_server.Base.{List, [], ◌∷◌, ◌++◌, ◌≡◌, inl, inr, refl, ap, ◌∙◌, arith}
use dhcp_server.Base.{false}
use dhcp_server.Base.Rows.{any, reject}
use dhcp_server.Store.Hosts.{
  Host, HostLease, is_current, is_named, lease_addresses, reserved_addresses, distinct,
  lookup_addresses,
}

-- An address is among the rows.
unfoldable pub has : (a : ℕ) → List ℕ → Bool
unfolding any
has a xs = any (◌==◌ a) xs

has-append : (a : ℕ) (xs ys : List ℕ) → has a (xs ++ ys) ≡ (has a xs || has a ys)
unfolding has any
has-append a [] ys = refl
has-append a (x ∷ xs) ys = ground (arith, has-append a xs ys)

pub has-distinct : (a : ℕ) (xs : List ℕ) → has a (distinct xs) ≡ has a xs
unfolding has any distinct
has-distinct a [] = refl
has-distinct a (x ∷ xs) =
    let ih = has-distinct a xs in
    elim (Bool-cases (any (◌==◌ x) xs)) [
      | inr e ↦ rw e (ap (λ b. (a == x) || b) ih)
      | inl e ↦ elim (Bool-cases (a == x)) [
        | inr ne ↦ rw (e, ne) ih
        | inl s ↦
            let same : a ≡ x = ground arith in
            let m : has a xs ≡ true = rw same e in rw (e, s) (ih ∙ m)
      ]
    ]

has-lease_addresses :
    (lower : ℕ → ℕ) (hostname domain now a : ℕ) (ls : List HostLease)
    → has a (lease_addresses lower hostname domain now ls)
      ≡ any
          (λ l. (is_current now l && is_named lower hostname domain l.host) && a == l.host.ip_addr)
          ls
unfolding has any lease_addresses
has-lease_addresses lower hostname domain now a [] = refl
has-lease_addresses lower hostname domain now a (l ∷ ls) =
    let ih = has-lease_addresses lower hostname domain now a ls in
    elim (Bool-cases (is_current now l && is_named lower hostname domain l.host)) [
      | inl e ↦ rw e (ap (λ b. (a == l.host.ip_addr) || b) ih)
      | inr e ↦ rw e ih
    ]

has-reserved_addresses :
    (lower : ℕ → ℕ) (hostname domain a : ℕ) (rs : List Host)
    → has a (reserved_addresses lower hostname domain rs)
      ≡ any (λ r. (not (r.hostname == 0) && is_named lower hostname domain r) && a == r.ip_addr) rs
unfolding has any reserved_addresses
has-reserved_addresses lower hostname domain a [] = refl
has-reserved_addresses lower hostname domain a (r ∷ rs) =
    let ih = has-reserved_addresses lower hostname domain a rs in
    elim (Bool-cases (not (r.hostname == 0) && is_named lower hostname domain r)) [
      | inl e ↦ rw e (ap (λ b. (a == r.ip_addr) || b) ih)
      | inr e ↦ rw e ih
    ]

-- The tests on the rows.
unfoldable pub is_hosted :
    (lower : ℕ → ℕ) (hostname domain now a : ℕ) → List HostLease → List Host → Bool
unfolding any is_current is_named
is_hosted lower hostname domain now a ls rs =
    any (λ l. (is_current now l && is_named lower hostname domain l.host) && a == l.host.ip_addr) ls
    || any (λ r. (not (r.hostname == 0) && is_named lower hostname domain r) && a == r.ip_addr) rs

pub has-lookup_addresses :
    (lower : ℕ → ℕ) (hostname domain now a : ℕ) (ls : List HostLease) (rs : List Host)
    → has a (lookup_addresses lower hostname domain now ls rs)
      ≡ is_hosted lower hostname domain now a ls rs
unfolding lookup_addresses is_hosted
has-lookup_addresses lower hostname domain now a ls rs =
    let l = lease_addresses lower hostname domain now ls in
    let r = reserved_addresses lower hostname domain rs in
    has-distinct a (l ++ r)
    ∙ (has-append a l r
        ∙ rw
            (
              has-lease_addresses lower hostname domain now a ls,
              has-reserved_addresses lower hostname domain a rs,
            )
            refl)

pub has-reject :
    (p : ℕ → Bool) (a : ℕ) (xs : List ℕ) → has a (reject p xs) ≡ (not (p a) && has a xs)
unfolding has any reject
has-reject p a [] = ground arith
has-reject p a (x ∷ xs) =
    let ih = has-reject p a xs in
    elim (Bool-cases (a == x)) [
      | inl s ↦
          let same : a ≡ x = ground arith in
          elim (Bool-cases (p x)) [
            | inl e ↦ let at : p a ≡ true = rw same e in rw (e, at) (ih ∙ rw (at, not) refl)
            | inr e ↦ let at : p a ≡ false = rw same e in rw (e, at, s, not) refl
          ]
      | inr ne ↦ elim (Bool-cases (p x)) [ inl e ↦ rw (e, ne) ih | inr e ↦ rw (e, ne) ih ]
    ]
