-- ===== src/Store/Steps.antt =====
-- internal/store/store.go: the life of the table `leases` as a sequence of statements, of the
-- allocations and of those outside of them. A statement that fails changes nothing.
pub mod Kept
use dhcp_server.Base.{ℕ, ◌≡◌, refl, sym, ◌∙◌, ◌==◌, Bool, if◌then◌else◌, Bool-cases}
use dhcp_server.Base.{inl, inr, List, map}
use dhcp_server.Base.Outcome.{ok}
use dhcp_server.Base.Rows.{reject, mem_of_mem-reject}
use dhcp_server.Base.Upsert.{mapped-Unique}
use dhcp_server.Store.{Lease, LeaseState, expired, Reservation}
use dhcp_server.Store.Table.{save_lease, delete_lease}
use dhcp_server.Store.Unique.{HasUniqueAddresses, HasUniqueClients, HasUniqueIds}
use dhcp_server.Store.Save.{save_lease-HasUniqueAddresses, save_lease-HasUniqueClients}
use dhcp_server.Store.Save.{save_lease-HasUniqueIds}
use dhcp_server.Store.Allocate.{Request, allocate_v4_lease}
use dhcp_server.Store.Promise.{HasConstraints, allocate_v4_lease-HasConstraints}
use dhcp_server.Store.Lifecycle.{
  is_live_of, update_lease_state_by_mac_ip, update_lease_state, release_expired_leases,
  expire_lease, ScopeTimes, is_garbage, cleanup_expired_leases,
}
use dhcp_server.Store.V6.{V6Lease, V6Prefix}
use mathlib.Core.List.{Memᴰ}

-- One statement or allocation on the leases; the reservations stay.
pub data Step (rs : List Reservation) : List Lease → List Lease → Type 0 where
  allocated :
      (q : Request) (ls : List Lease) (l : Lease) (ls' : List Lease)
      → allocate_v4_lease q (record { leases = ls; reservations = rs }) ≡ ok (l, ls')
      → Step rs ls ls'
  saved : (new : Lease) (ls ls' : List Lease) → save_lease new ls ≡ ok ls' → Step rs ls ls'
  updated :
      (id : ℕ) (state : LeaseState) (now : ℕ) (ls : List Lease)
      → Step rs ls (update_lease_state id state now ls)
  updated_live :
      (s mac ip : ℕ) (state : LeaseState) (now : ℕ) (ls : List Lease)
      → Step rs ls (update_lease_state_by_mac_ip s mac ip state now ls)
  swept : (now : ℕ) (ls : List Lease) → Step rs ls (release_expired_leases now ls)
  cleaned :
      (scopes : List ScopeTimes) (now : ℕ) (ls : List Lease) (ls6 : List V6Lease)
      (ps : List V6Prefix)
      → Step rs ls (cleanup_expired_leases scopes now ls ls6 ps).0
  deleted : (id : ℕ) (ls : List Lease) → Step rs ls (delete_lease id ls)

-- The tables that a sequence of steps reaches.
pub data Reach (rs : List Reservation) (start : List Lease) : List Lease → Type 0 where
  here : Reach rs start start
  step : (ls ls' : List Lease) → Reach rs start ls → Step rs ls ls' → Reach rs start ls'

-- An update that leaves the key columns of a row as they are.
abbrev KeepsKeys : (Lease → Lease) → Type 0
KeepsKeys f =
    (l : Lease)
    → ((f l).id ≡ l.id)
      × ((f l).scope_id ≡ l.scope_id)
      × ((f l).ip_addr ≡ l.ip_addr)
      × ((f l).mac_addr ≡ l.mac_addr)

map-HasConstraints :
    (f : Lease → Lease) (ls : List Lease) (rs : List Reservation)
    → KeepsKeys f
    → HasConstraints (record { leases = ls; reservations = rs })
    → HasConstraints (record { leases = map f ls; reservations = rs })
unfolding HasUniqueAddresses HasUniqueClients HasUniqueIds
map-HasConstraints f ls rs keys c = record {
  addresses = λ k l mk ml s a.
      mapped-Unique (λ x y. (x.scope_id ≡ y.scope_id) × (x.ip_addr ≡ y.ip_addr)) f ls
        (λ x y mx my (p, q).
          let (_, sx, ax, _) = keys x in
          let (_, sy, ay, _) = keys y in
          c.addresses x y mx my (sym sx ∙ (p ∙ sy)) (sym ax ∙ (q ∙ ay)))
        k l mk ml (s, a);
  clients = λ k l mk ml s a.
      mapped-Unique (λ x y. (x.scope_id ≡ y.scope_id) × (x.mac_addr ≡ y.mac_addr)) f ls
        (λ x y mx my (p, q).
          let (_, sx, _, ax) = keys x in
          let (_, sy, _, ay) = keys y in
          c.clients x y mx my (sym sx ∙ (p ∙ sy)) (sym ax ∙ (q ∙ ay)))
        k l mk ml (s, a);
  ids =
      mapped-Unique (λ x y. x.id ≡ y.id) f ls
        (λ x y mx my p. c.ids x y mx my (sym (keys x).0 ∙ (p ∙ (keys y).0)));
  reserved = c.reserved;
}

reject-HasConstraints :
    (p : Lease → Bool) (ls : List Lease) (rs : List Reservation)
    → HasConstraints (record { leases = ls; reservations = rs })
    → HasConstraints (record { leases = reject p ls; reservations = rs })
unfolding HasUniqueAddresses HasUniqueClients HasUniqueIds
reject-HasConstraints p ls rs c =
    let sub : (k : Lease) → Memᴰ k (reject p ls) → Memᴰ k ls = mem_of_mem-reject p ls in
    record {
      addresses = λ k l mk ml. c.addresses k l (sub k mk) (sub l ml);
      clients = λ k l mk ml. c.clients k l (sub k mk) (sub l ml);
      ids = λ k l mk ml. c.ids k l (sub k mk) (sub l ml);
      reserved = c.reserved;
    }

set_state-KeepsKeys :
    (b : Lease → Bool) (state : LeaseState) (now : ℕ)
    → KeepsKeys (λ l. if b l then record l { state = state; updated_at = now } else l)
set_state-KeepsKeys b state now l = elim (Bool-cases (b l)) [
  | inl e ↦ rw e (refl, refl, refl, refl)
  | inr e ↦ rw e (refl, refl, refl, refl)
]

pub Step-HasConstraints :
    (rs : List Reservation) (ls ls' : List Lease)
    → Step rs ls ls'
    → HasConstraints (record { leases = ls; reservations = rs })
    → HasConstraints (record { leases = ls'; reservations = rs })
unfolding update_lease_state update_lease_state_by_mac_ip release_expired_leases expire_lease
    cleanup_expired_leases delete_lease
Step-HasConstraints rs ls ls' (allocated q _ l _ h) c =
    allocate_v4_lease-HasConstraints q (record { leases = ls; reservations = rs }) l ls' c h
Step-HasConstraints rs ls ls' (saved new _ _ h) c = record {
  addresses = save_lease-HasUniqueAddresses new ls ls' h c.addresses;
  clients = save_lease-HasUniqueClients new ls ls' h c.addresses c.clients;
  ids = save_lease-HasUniqueIds new ls ls' h c.ids;
  reserved = c.reserved;
}
Step-HasConstraints rs ls ls' (updated id state now _) c =
    map-HasConstraints _ ls rs (set_state-KeepsKeys (λ l. l.id == id) state now) c
Step-HasConstraints rs ls ls' (updated_live s mac ip state now _) c =
    map-HasConstraints _ ls rs (set_state-KeepsKeys (is_live_of s mac ip) state now) c
Step-HasConstraints rs ls ls' (swept now _) c =
    map-HasConstraints (expire_lease now) ls rs (set_state-KeepsKeys _ expired now) c
Step-HasConstraints rs ls ls' (cleaned scopes now _ ls6 ps) c =
    reject-HasConstraints (λ l. is_garbage scopes l.scope_id l.ends_at now) ls rs c
Step-HasConstraints rs ls ls' (deleted id _) c = reject-HasConstraints (λ l. l.id == id) ls rs c

pub Reach-HasConstraints :
    (rs : List Reservation) (start ls : List Lease)
    → HasConstraints (record { leases = start; reservations = rs })
    → Reach rs start ls
    → HasConstraints (record { leases = ls; reservations = rs })
Reach-HasConstraints rs start ls c here = c
Reach-HasConstraints rs start ls c (step before _ r s) =
    Step-HasConstraints rs before ls s (Reach-HasConstraints rs start before c r)
