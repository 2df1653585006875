-- ===== src/Store/V6/Unique.antt =====
-- internal/store/store.go: the constraints of the table `v6_leases`, and that saveV6LeaseTx keeps
-- them.
use dhcp_server.Base.{ℕ, ◌≡◌, refl, ◌∙◌, ◌==◌, true, false, some}
use dhcp_server.Base.{Bool-cases, inl, inr, List, arith}
use dhcp_server.Base.Outcome.{ok}
use dhcp_server.Base.Upsert.{upsert, Unique, upsert-stored}
use dhcp_server.Store.Table.{or_violation-eq-ok}
use dhcp_server.Store.V6.{V6Lease, V6Reservation, is_at_v6, is_of_v6, overwrite_v6, is_rival_v6}
use dhcp_server.Store.V6.{save_v6_lease}
use mathlib.Core.List.{Memᴰ}

-- UNIQUE (scope_id, ip_addr).
abbrev pub HasUniqueV6Addresses : List V6Lease → Type 0
HasUniqueV6Addresses = Unique (λ k l. (k.scope_id ≡ l.scope_id) × (k.ip_addr ≡ l.ip_addr))

-- UNIQUE (scope_id, duid, iaid).
abbrev pub HasUniqueAssociations : List V6Lease → Type 0
HasUniqueAssociations =
    Unique (λ k l. (k.scope_id ≡ l.scope_id) × (k.duid ≡ l.duid) × (k.iaid ≡ l.iaid))

-- The primary key.
abbrev pub HasUniqueV6Ids : List V6Lease → Type 0
HasUniqueV6Ids = Unique (λ k l. k.id ≡ l.id)

-- UNIQUE (scope_id, ip_addr) of the table `v6_reservations`.
abbrev pub HasUniqueV6Reservations : List V6Reservation → Type 0
HasUniqueV6Reservations = Unique (λ r s. (r.scope_id ≡ s.scope_id) × (r.ip_addr ≡ s.ip_addr))

pub is_at_v6-true :
    (s a : ℕ) (l : V6Lease) → is_at_v6 s a l ≡ true → (l.scope_id ≡ s) × (l.ip_addr ≡ a)
unfolding is_at_v6
is_at_v6-true s a l h = ground arith

pub is_at_v6_of_eq :
    (s a : ℕ) (l : V6Lease) → l.scope_id ≡ s → l.ip_addr ≡ a → is_at_v6 s a l ≡ true
unfolding is_at_v6
is_at_v6_of_eq s a l h k = ground arith

pub is_of_v6-true :
    (s d i : ℕ) (l : V6Lease)
    → is_of_v6 s d i l ≡ true
    → (l.scope_id ≡ s) × (l.duid ≡ d) × (l.iaid ≡ i)
unfolding is_of_v6
is_of_v6-true s d i l h = ground arith

is_of_v6_of_eq :
    (s d i : ℕ) (l : V6Lease) → l.scope_id ≡ s → l.duid ≡ d → l.iaid ≡ i → is_of_v6 s d i l ≡ true
unfolding is_of_v6
is_of_v6_of_eq s d i l h k j = ground arith

-- saveV6LeaseTx is an INSERT … ON CONFLICT.
pub save_v6_lease-upsert :
    (new : V6Lease) (ls ls' : List V6Lease)
    → save_v6_lease new ls ≡ ok ls'
    → upsert
        (is_at_v6 new.scope_id new.ip_addr)
        (is_rival_v6 new)
        (λ l. l.id == new.id)
        (overwrite_v6 new)
        new
        ls
      ≡ some ls'
unfolding save_v6_lease
save_v6_lease-upsert new ls ls' h = or_violation-eq-ok _ ls' h

pub overwrite_v6-elsewhere :
    (new l : V6Lease) → is_at_v6 new.scope_id new.ip_addr l ≡ false → overwrite_v6 new l ≡ l
unfolding overwrite_v6
overwrite_v6-elsewhere new l h = rw h refl

-- The key columns of a row that the update keeps.
overwrite_v6-keys :
    (new l : V6Lease)
    → ((overwrite_v6 new l).id ≡ l.id)
      × ((overwrite_v6 new l).scope_id ≡ l.scope_id)
      × ((overwrite_v6 new l).ip_addr ≡ l.ip_addr)
unfolding overwrite_v6
overwrite_v6-keys new l = elim (Bool-cases (is_at_v6 new.scope_id new.ip_addr l)) [
  | inl e ↦ rw e (refl, refl, refl)
  | inr e ↦ rw e (refl, refl, refl)
]

overwrite_v6-here :
    (new l : V6Lease)
    → is_at_v6 new.scope_id new.ip_addr l ≡ true
    → ((overwrite_v6 new l).duid ≡ new.duid)
      × ((overwrite_v6 new l).iaid ≡ new.iaid)
      × ((overwrite_v6 new l).state ≡ new.state)
      × ((overwrite_v6 new l).ends_at ≡ new.ends_at)
unfolding overwrite_v6
overwrite_v6-here new l h = rw h (refl, refl, refl, refl)

-- After saveV6LeaseTx the table has a row with the columns that were saved.
pub save_v6_lease-stored :
    (new : V6Lease) (ls ls' : List V6Lease)
    → save_v6_lease new ls ≡ ok ls'
    → (r : V6Lease) × Memᴰ r ls'
      × (r.scope_id ≡ new.scope_id)
      × (r.ip_addr ≡ new.ip_addr)
      × (r.duid ≡ new.duid)
      × (r.iaid ≡ new.iaid)
      × (r.state ≡ new.state)
      × (r.ends_at ≡ new.ends_at)
save_v6_lease-stored new ls ls' h =
    elim (upsert-stored (is_at_v6 new.scope_id new.ip_addr) (is_rival_v6 new) (λ l. l.id == new.id)
      (overwrite_v6 new) new ls ls' (save_v6_lease-upsert new ls ls' h)) [
        | inr (l, m, t, stored) ↦
            let (s, a) = is_at_v6-true new.scope_id new.ip_addr l t in
            let (_, os, oa) = overwrite_v6-keys new l in
            let (duid, iaid, state, ends) = overwrite_v6-here new l t in
            (overwrite_v6 new l, stored, os ∙ s, oa ∙ a, duid, iaid, state, ends)
        | inl stored ↦ (new, stored, refl, refl, refl, refl, refl, refl)
      ]
