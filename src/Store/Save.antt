-- ===== src/Store/Save.antt =====
-- internal/store/store.go: saveLeaseTx keeps the constraints of the table `leases`, and stores the
-- columns that it is given.
use dhcp_server.Base.{◌≡◌, refl, sym, ◌∙◌, ap, ◌==◌, true, false}
use dhcp_server.Base.{Bool-cases, inl, inr, List, arith}
use dhcp_server.Base.Outcome.{ok}
use dhcp_server.Base.Upsert.{upsert-Unique, upsert-stored, upsert-origin}
use dhcp_server.Base.{ℕ, ◌⊎◌}
use dhcp_server.Store.{Lease, blocks}
use dhcp_server.Store.Table.{is_at, is_rival, overwrite, save_lease}
use dhcp_server.Store.Unique.{
  HasUniqueAddresses, HasUniqueClients, HasUniqueIds, is_at-true, is_at_of_eq, is_of_of_eq,
  overwrite-elsewhere, save_lease-upsert,
}
use mathlib.Core.List.{Memᴰ}

-- The key columns of a row that the update keeps.
overwrite-keys :
    (new l : Lease)
    → ((overwrite new l).id ≡ l.id)
      × ((overwrite new l).scope_id ≡ l.scope_id)
      × ((overwrite new l).ip_addr ≡ l.ip_addr)
unfolding overwrite
overwrite-keys new l = elim (Bool-cases (is_at new.scope_id new.ip_addr l)) [
  | inl e ↦ rw e (refl, refl, refl)
  | inr e ↦ rw e (refl, refl, refl)
]

overwrite-here :
    (new l : Lease)
    → is_at new.scope_id new.ip_addr l ≡ true
    → ((overwrite new l).mac_addr ≡ new.mac_addr)
      × ((overwrite new l).state ≡ new.state)
      × ((overwrite new l).ends_at ≡ new.ends_at)
unfolding overwrite
overwrite-here new l h = rw h (refl, refl, refl)

-- The overwritten row holds its address exactly when the new one does.
overwrite-blocks :
    (new l : Lease) (now : ℕ)
    → is_at new.scope_id new.ip_addr l ≡ true
    → blocks (overwrite new l) now ≡ blocks new now
unfolding overwrite blocks
overwrite-blocks new l now h = rw h refl

-- After saveLeaseTx a row with the key columns that were saved holds its address as the new one does.
pub save_lease-blocks :
    (new : Lease) (ls ls' : List Lease) (now : ℕ)
    → save_lease new ls ≡ ok ls'
    → (r : Lease) × Memᴰ r ls'
      × (is_at new.scope_id new.ip_addr r ≡ true)
      × (r.mac_addr ≡ new.mac_addr)
      × (blocks r now ≡ blocks new now)
save_lease-blocks new ls ls' now h =
    elim (upsert-stored (is_at new.scope_id new.ip_addr) (is_rival new) (λ l. l.id == new.id)
      (overwrite new) new ls ls' (save_lease-upsert new ls ls' h)) [
        | inr (l, m, t, stored) ↦
            let (s, a) = is_at-true new.scope_id new.ip_addr l t in
            let (_, os, oa) = overwrite-keys new l in
            (
              overwrite new l,
              stored,
              is_at_of_eq new.scope_id new.ip_addr (overwrite new l) (os ∙ s) (oa ∙ a),
              (overwrite-here new l t).0,
              overwrite-blocks new l now t,
            )
        | inl stored ↦ (new, stored, is_at_of_eq new.scope_id new.ip_addr new refl refl, refl, refl)
      ]

-- A row after saveLeaseTx is a row before it, or the client's own at the saved address.
pub save_lease-origin :
    (new : Lease) (ls ls' : List Lease) (k : Lease)
    → save_lease new ls ≡ ok ls'
    → Memᴰ k ls'
    → Memᴰ k ls ⊎ (k.mac_addr ≡ new.mac_addr)
save_lease-origin new ls ls' k h m =
    elim (upsert-origin (is_at new.scope_id new.ip_addr) (is_rival new) (λ l. l.id == new.id)
      (overwrite new) new ls ls' k (overwrite-elsewhere new) (save_lease-upsert new ls ls' h) m) [
        | inl old ↦ inl old
        | inr (inl e) ↦ inr (ap (λ x. x.mac_addr) e)
        | inr (inr (x, t, e)) ↦ inr (ap (λ z. z.mac_addr) e ∙ (overwrite-here new x t).0)
      ]

is_rival-true :
    (new l : Lease)
    → l.scope_id ≡ new.scope_id
    → l.mac_addr ≡ new.mac_addr
    → is_at new.scope_id new.ip_addr l ≡ false
    → is_rival new l ≡ true
unfolding is_rival
is_rival-true new l s m a = rw (is_of_of_eq new.scope_id new.mac_addr l s m, a) refl

pub save_lease-HasUniqueAddresses :
    (new : Lease) (ls ls' : List Lease)
    → save_lease new ls ≡ ok ls'
    → HasUniqueAddresses ls
    → HasUniqueAddresses ls'
unfolding HasUniqueAddresses
save_lease-HasUniqueAddresses new ls ls' h u k l mk ml s a =
    upsert-Unique (is_at new.scope_id new.ip_addr) (is_rival new) (λ l. l.id == new.id)
      (overwrite new) (λ x y. (x.scope_id ≡ y.scope_id) × (x.ip_addr ≡ y.ip_addr)) new ls ls'
      (λ x y (p, q). (sym p, sym q))
      (λ x y mx my _ _ (p, q).
        let (_, sx, ax) = overwrite-keys new x in
        let (_, sy, ay) = overwrite-keys new y in
        u x y mx my (sym sx ∙ (p ∙ sy)) (sym ax ∙ (q ∙ ay)))
      (λ x (p, q). inl (is_at_of_eq new.scope_id new.ip_addr x p q))
      (λ x y mx my (p, q). u x y mx my p q) (save_lease-upsert new ls ls' h) k l mk ml (s, a)

pub save_lease-HasUniqueIds :
    (new : Lease) (ls ls' : List Lease)
    → save_lease new ls ≡ ok ls'
    → HasUniqueIds ls
    → HasUniqueIds ls'
unfolding HasUniqueIds
save_lease-HasUniqueIds new ls ls' h u =
    upsert-Unique (is_at new.scope_id new.ip_addr) (is_rival new) (λ l. l.id == new.id)
      (overwrite new) (λ x y. x.id ≡ y.id) new ls ls' (λ x y p. sym p)
      (λ x y mx my _ _ p.
        u x y mx my (sym (overwrite-keys new x).0 ∙ (p ∙ (overwrite-keys new y).0)))
      (λ x p. inr (inr (ground arith))) u (save_lease-upsert new ls ls' h)

-- Two rows that are no rivals of the new one, and whose overwritten forms have one client, are one
-- row.
overwritten-client :
    (new : Lease) (ls : List Lease) (k l : Lease)
    → HasUniqueAddresses ls
    → HasUniqueClients ls
    → Memᴰ k ls
    → Memᴰ l ls
    → is_rival new k ≡ false
    → is_rival new l ≡ false
    → k.scope_id ≡ l.scope_id
    → (overwrite new k).mac_addr ≡ (overwrite new l).mac_addr
    → k ≡ l
unfolding HasUniqueAddresses HasUniqueClients
overwritten-client new ls k l ua u mk ml rk rl s c =
    let at = is_at new.scope_id new.ip_addr in
    elim (Bool-cases (at k)) [
      | inl kt ↦
          let (ks, ka) = is_at-true new.scope_id new.ip_addr k kt in
          let km = (overwrite-here new k kt).0 in
          elim (Bool-cases (at l)) [
            | inl lt ↦ ua k l mk ml s (ka ∙ sym (is_at-true new.scope_id new.ip_addr l lt).1)
            | inr lf ↦
                let lo = ap (λ z. z.mac_addr) (overwrite-elsewhere new l lf) in
                let t = is_rival-true new l (sym s ∙ ks) (sym lo ∙ (sym c ∙ km)) lf in cc
          ]
      | inr kf ↦
          let ko = ap (λ z. z.mac_addr) (overwrite-elsewhere new k kf) in
          elim (Bool-cases (at l)) [
            | inl lt ↦
                let (ls', _) = is_at-true new.scope_id new.ip_addr l lt in
                let lm = (overwrite-here new l lt).0 in
                let t = is_rival-true new k (s ∙ ls') (sym ko ∙ (c ∙ lm)) kf in cc
            | inr lf ↦
                let lo = ap (λ z. z.mac_addr) (overwrite-elsewhere new l lf) in
                u k l mk ml s (sym ko ∙ (c ∙ lo))
          ]
    ]

pub save_lease-HasUniqueClients :
    (new : Lease) (ls ls' : List Lease)
    → save_lease new ls ≡ ok ls'
    → HasUniqueAddresses ls
    → HasUniqueClients ls
    → HasUniqueClients ls'
unfolding HasUniqueClients
save_lease-HasUniqueClients new ls ls' h ua u k l mk ml s c =
    upsert-Unique (is_at new.scope_id new.ip_addr) (is_rival new) (λ l. l.id == new.id)
      (overwrite new) (λ x y. (x.scope_id ≡ y.scope_id) × (x.mac_addr ≡ y.mac_addr)) new ls ls'
      (λ x y (p, q). (sym p, sym q))
      (λ x y mx my rx ry (p, q).
        let (_, sx, _) = overwrite-keys new x in
        let (_, sy, _) = overwrite-keys new y in
        overwritten-client new ls x y ua u mx my rx ry (sym sx ∙ (p ∙ sy)) q)
      (λ x (p, q). elim (Bool-cases (is_at new.scope_id new.ip_addr x)) [
        | inl here ↦ inl here
        | inr away ↦ inr (inl (is_rival-true new x p q away))
      ])
      (λ x y mx my (p, q). u x y mx my p q) (save_lease-upsert new ls ls' h) k l mk ml (s, c)

-- After saveLeaseTx the table has a row with the scope, the address, the client and the state that
-- were saved.
pub save_lease-stored :
    (new : Lease) (ls ls' : List Lease)
    → save_lease new ls ≡ ok ls'
    → (r : Lease) × Memᴰ r ls'
      × (r.scope_id ≡ new.scope_id)
      × (r.ip_addr ≡ new.ip_addr)
      × (r.mac_addr ≡ new.mac_addr)
      × (r.state ≡ new.state)
      × (r.ends_at ≡ new.ends_at)
save_lease-stored new ls ls' h =
    elim (upsert-stored (is_at new.scope_id new.ip_addr) (is_rival new) (λ l. l.id == new.id)
      (overwrite new) new ls ls' (save_lease-upsert new ls ls' h)) [
        | inr (l, m, t, stored) ↦
            let (s, a) = is_at-true new.scope_id new.ip_addr l t in
            let (_, os, oa) = overwrite-keys new l in
            let (mac, state, ends) = overwrite-here new l t in
            (overwrite new l, stored, os ∙ s, oa ∙ a, mac, state, ends)
        | inl stored ↦ (new, stored, refl, refl, refl, refl, refl)
      ]
