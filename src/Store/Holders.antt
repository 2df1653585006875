-- ===== src/Store/Holders.antt =====
-- internal/store/store.go: the table `leases` as a map from the addresses of a scope to the clients
-- that hold them. The map forgets the order of the rows, those that hold nothing, and every column
-- but the client's.
use dhcp_server.Base.{ℕ, ◌≡◌, ◌≢◌, ◌↔◌, refl, sym, ◌∙◌, ap, ◌==◌, ◌&&◌, Bool, true, false}
use dhcp_server.Base.{Option, none, some, ◌⊎◌, inl, inr, List, arith, Bool-cases, Option-cases}
use dhcp_server.Base.Outcome.{ok}
use dhcp_server.Base.Rows.{find_first, find_first-eq-some, find_first-eq-none}
use dhcp_server.Store.{Lease, blocks}
use dhcp_server.Store.Table.{is_at}
use dhcp_server.Store.Unique.{HasUniqueAddresses, is_at-true, is_at_of_eq}
use dhcp_server.Store.Save.{save_lease-blocks, save_lease-origin}
use dhcp_server.Store.Allocate.{Request, Tables, allocate_v4_lease}
use dhcp_server.Store.Promise.{HasConstraints, allocate_v4_lease-Grant, allocate_v4_lease-mem}
use dhcp_server.Store.Promise.{allocate_v4_lease-HasUniqueAddresses}
use mathlib.Core.List.{Memᴰ}
use mathlib.Core.Option

-- Who holds an address of the scope.
unfoldable pub holder : List Lease → (now scope_id : ℕ) → ℕ → Option ℕ
holder ls now s a = Option.map (λ l. l.mac_addr) (find_first (λ l. is_at s a l && blocks l now) ls)

-- The grant of an address on the map: it is open to the client, the client holds it afterwards, and
-- what the other clients hold is as before.
pub record IsGranted (h h' : ℕ → Option ℕ) (mac a : ℕ) : Type 0 where
  pub available : (h a ≡ none) ⊎ (h a ≡ some mac)
  pub taken : h' a ≡ some mac
  pub frame : (b m : ℕ) → m ≢ mac → (h b ≡ some m) ↔ (h' b ≡ some m)

-- The holder of an address is the client of a live row there.
holder-eq-some :
    (ls : List Lease) (now s a m : ℕ)
    → holder ls now s a ≡ some m
    → (k : Lease) × Memᴰ k ls
      × (k.scope_id ≡ s)
      × (k.ip_addr ≡ a)
      × (k.mac_addr ≡ m)
      × (blocks k now ≡ true)
unfolding holder
holder-eq-some ls now s a m h =
    let p : Lease → Bool = λ l. is_at s a l && blocks l now in
    elim (Option-cases (find_first p ls)) [
      | inl missing ↦
          let e : Option.map (λ l. l.mac_addr) (find_first p ls) ≡ none = rw missing refl in cc
      | inr (k, found) ↦
          let (mk, t) = find_first-eq-some p ls k found in
          let t' : (is_at s a k && blocks k now) ≡ true = t in
          let e : Option.map (λ l. l.mac_addr) (find_first p ls) ≡ some k.mac_addr =
            rw found refl in
          let (sk, ak) = is_at-true s a k (ground arith) in (k, mk, sk, ak, cc, ground arith)
    ]

holder_of_mem :
    (ls : List Lease) (now s a : ℕ) (k : Lease)
    → HasUniqueAddresses ls
    → Memᴰ k ls
    → k.scope_id ≡ s
    → k.ip_addr ≡ a
    → blocks k now ≡ true
    → holder ls now s a ≡ some k.mac_addr
unfolding holder HasUniqueAddresses
holder_of_mem ls now s a k u m sk ak live =
    let p : Lease → Bool = λ l. is_at s a l && blocks l now in
    let t : (is_at s a k && blocks k now) ≡ true = rw (is_at_of_eq s a k sk ak, live) refl in
    elim (Option-cases (find_first p ls)) [
      | inl missing ↦
          let f : (is_at s a k && blocks k now) ≡ false = find_first-eq-none p ls k missing m in cc
      | inr (o, found) ↦
          let (mo, to) = find_first-eq-some p ls o found in
          let to' : (is_at s a o && blocks o now) ≡ true = to in
          let (so, ao) = is_at-true s a o (ground arith) in
          let same = u o k mo m (so ∙ sym sk) (ao ∙ sym ak) in
          rw found (ap (λ x. some x.mac_addr) same)
    ]

-- Under the tables' constraints, AllocateV4Lease refines the grant of an address on the map from the
-- addresses of the scope to the clients that hold them at the call's time: nobody else holds the
-- address before, the client holds it afterwards, and every other client holds the same addresses
-- before and after.
pub allocate_v4_lease-IsGranted :
    (q : Request) (t : Tables) (l : Lease) (ls' : List Lease)
    → HasConstraints t
    → allocate_v4_lease q t ≡ ok (l, ls')
    → IsGranted (holder t.leases q.now q.scope.id) (holder ls' q.now q.scope.id) q.mac l.ip_addr
allocate_v4_lease-IsGranted q t l ls' c h =
    let g = allocate_v4_lease-Grant q t l ls' c h in
    let ua = (allocate_v4_lease-HasUniqueAddresses q t l ls' c h).0 in
    let s = q.scope.id in
    record {
      available = elim (Option-cases (holder t.leases q.now s l.ip_addr)) [
        | inl free ↦ inl free
        | inr (m, held) ↦
            let (k, mk, sk, ak, e, live) = holder-eq-some t.leases q.now s l.ip_addr m held in
            elim (Bool-cases (m == q.mac)) [
              | inl mine ↦ let e' : m ≡ q.mac = ground arith in inr (held ∙ ap some e')
              | inr foreign ↦
                  let other : k.mac_addr ≢ q.mac =
                    λ x. let y : m ≡ q.mac = sym e ∙ x in ground arith in
                  absurd (g.free k mk (record { scope = sk; other = other; live = live }) ak)
            ]
      ];
      taken =
          let (r, m, at, mac, b) = save_lease-blocks l g.before ls' q.now g.saved in
          let (sr, ar) = is_at-true l.scope_id l.ip_addr r at in
          holder_of_mem ls' q.now s l.ip_addr r ua m (sr ∙ g.scope) ar (b ∙ g.live)
          ∙ ap some (mac ∙ g.client);
      frame = λ b m foreign. (
        λ held.
            let (k, mk, sk, ak, e, live) = holder-eq-some t.leases q.now s b m held in
            let stays =
              allocate_v4_lease-mem q t l ls' k c h mk
                (record { scope = sk; other = λ x. foreign (sym e ∙ x); live = live }) in
            holder_of_mem ls' q.now s b k ua stays sk ak live ∙ ap some e,
        λ held.
            let (k, mk, sk, ak, e, live) = holder-eq-some ls' q.now s b m held in
            elim (save_lease-origin l g.before ls' k g.saved mk) [
              | inl old ↦
                  holder_of_mem t.leases q.now s b k c.addresses (g.subset k old) sk ak live
                  ∙ ap some e
              | inr own ↦ absurd (foreign (sym e ∙ (own ∙ g.client)))
            ],
      );
    }
