-- ===== src/Store/Promise.antt =====
-- internal/store/store.go: what AllocateV4Lease promises to the clients of a scope, whatever branch
-- it takes.
use dhcp_server.Base.{ℕ, ◌≡◌, ◌≢◌, refl, sym, ◌∙◌, ap, ◌==◌, true, false}
use dhcp_server.Base.{Bool-cases, Option-cases, Option, none, some, ◌&&◌, inl, inr, List}
use dhcp_server.Base.{arith}
use dhcp_server.Base.Outcome.{ok}
use dhcp_server.Base.Rows.{find_first-eq-some, mem-reject, mem_of_mem-reject}
use dhcp_server.Base.{◌<◌, ◌||◌, if◌then◌else◌}
use dhcp_server.Store.{LeaseState, active, offered, is_active, is_offered, blocks, or_else}
use dhcp_server.Store.{lease_blocks_reuse, Lease, Reservation}
use dhcp_server.Store.Table.{is_at, is_of, get_lease_by_mac}
use dhcp_server.Store.Table.{delete_leases_by_mac}
use dhcp_server.Store.Unique.{HasUniqueAddresses, HasUniqueClients, HasUniqueIds, is_at-true}
use dhcp_server.Store.Unique.{is_of-true, save_lease-mem}
use dhcp_server.Store.Save.{
  save_lease-HasUniqueAddresses, save_lease-HasUniqueClients, save_lease-HasUniqueIds,
  save_lease-stored,
}
use dhcp_server.Store.Grant.{HasUniqueReservations, IsHeldFrom, IsReservedFrom, Grant}
use dhcp_server.Store.Grant.{save_and_return-eq-ok, is_reserved_for_other-false}
use dhcp_server.Store.Allocate.{
  Request, Tables, renewed_lease, save_and_return, ends_at, or_default, capped_lease_time,
}
use dhcp_server.Store.Allocate.{
  is_kept, declined_ip, assign, allocate_v4_lease, is_reserved_for_other,
}
use dhcp_server.Store.Safe.{assign-Grant}
use mathlib.Core.List.{Memᴰ}

-- The constraints of the two tables.
pub record HasConstraints (t : Tables) : Type 0 where
  pub addresses : HasUniqueAddresses t.leases
  pub clients : HasUniqueClients t.leases
  pub ids : HasUniqueIds t.leases
  pub reserved : HasUniqueReservations t.reservations

is_kept-true :
    (q : Request) (rs : List Reservation) (l : Lease)
    → is_kept q rs l ≡ true
    → is_reserved_for_other rs q.scope.id l.ip_addr q.mac ≡ false
unfolding is_kept
is_kept-true q rs l h = ground arith

ends_at-later : (q : Request) → q.now < ends_at q
unfolding ends_at capped_lease_time or_default
ends_at-later q = ground arith

renewed-blocks :
    (st : LeaseState) (o : Option ℕ) (s e u now : ℕ)
    → (is_active st || is_offered st) ≡ true
    → now < e
    → lease_blocks_reuse
        (if is_active st then st else offered)
        (if is_active st then o else some now)
        s
        e
        u
        now
      ≡ true
unfolding is_active is_offered lease_blocks_reuse or_else
renewed-blocks active o s e u now h k = ground arith
renewed-blocks offered o s e u now h k = ground arith
renewed-blocks _ o s e u now h k = ground arith

-- A lease that is granted again holds its address.
renewed_lease-blocks :
    (q : Request) (rs : List Reservation) (l : Lease)
    → is_kept q rs l ≡ true
    → blocks (renewed_lease q l) q.now ≡ true
unfolding is_kept blocks renewed_lease
renewed_lease-blocks q rs l h =
    let end = ends_at-later q in
    renewed-blocks l.state l.offered_at q.now (ends_at q) q.now q.now (ground arith) end

renewed_lease-Grant :
    (q : Request) (t : Tables) (old l : Lease) (ls' : List Lease)
    → HasConstraints t
    → get_lease_by_mac t.leases q.scope.id q.mac ≡ some old
    → is_kept q t.reservations old ≡ true
    → save_and_return (renewed_lease q old) t.leases ≡ ok (l, ls')
    → Grant q t.reservations t.leases l ls'
unfolding renewed_lease get_lease_by_mac HasUniqueAddresses
renewed_lease-Grant q t old l ls' c found kept h =
    let (e, saved) = save_and_return-eq-ok (renewed_lease q old) t.leases l ls' h in
    let (m0, own) = find_first-eq-some (is_of q.scope.id q.mac) t.leases old found in
    let (s, mine) = is_of-true q.scope.id q.mac old own in
    rw e (record {
      before = t.leases;
      saved = saved;
      subset = λ k m. m;
      kept = λ k m b. m;
      free = λ k m b same.
          b.other (ap (λ x. x.mac_addr) (c.addresses k old m m0 (b.scope ∙ sym s) same) ∙ mine);
      unreserved = λ r m b.
          is_reserved_for_other-false q t.reservations old.ip_addr r c.reserved
            (is_kept-true q t.reservations old kept) m b;
      scope = s;
      client = mine;
      live = renewed_lease-blocks q t.reservations old kept;
      ends = refl;
    })

delete_leases_by_mac-kept :
    (q : Request) (ls : List Lease) (k : Lease)
    → Memᴰ k ls
    → IsHeldFrom q k
    → Memᴰ k (delete_leases_by_mac q.scope.id q.mac ls)
unfolding delete_leases_by_mac is_of
delete_leases_by_mac-kept q ls k m b =
    let other = b.other in
    mem-reject (λ l. l.scope_id == q.scope.id && l.mac_addr == q.mac) ls k m (ground arith)

assign_anew-Grant :
    (q : Request) (t : Tables) (declined : Option ℕ) (l : Lease) (ls' : List Lease)
    → HasConstraints t
    → assign q t.reservations declined (delete_leases_by_mac q.scope.id q.mac t.leases)
      ≡ ok (l, ls')
    → Grant q t.reservations t.leases l ls'
unfolding delete_leases_by_mac HasUniqueAddresses HasUniqueIds
assign_anew-Grant q t declined l ls' c h =
    let rest = delete_leases_by_mac q.scope.id q.mac t.leases in
    let sub : (k : Lease) → Memᴰ k rest → Memᴰ k t.leases =
      λ k m. mem_of_mem-reject (is_of q.scope.id q.mac) t.leases k m in
    let g =
      assign-Grant q t.reservations declined rest l ls'
        (λ k k' m m'. c.addresses k k' (sub k m) (sub k' m'))
        (λ k k' m m'. c.ids k k' (sub k m) (sub k' m')) c.reserved h in
    record {
      before = g.before;
      saved = g.saved;
      subset = λ k m. sub k (g.subset k m);
      kept = λ k m b. g.kept k (delete_leases_by_mac-kept q t.leases k m b) b;
      free = λ k m b. g.free k (delete_leases_by_mac-kept q t.leases k m b) b;
      unreserved = g.unreserved;
      scope = g.scope;
      client = g.client;
      live = g.live;
      ends = g.ends;
    }

pub allocate_v4_lease-Grant :
    (q : Request) (t : Tables) (l : Lease) (ls' : List Lease)
    → HasConstraints t
    → allocate_v4_lease q t ≡ ok (l, ls')
    → Grant q t.reservations t.leases l ls'
unfolding allocate_v4_lease
allocate_v4_lease-Grant q t l ls' c h =
    elim (Option-cases (get_lease_by_mac t.leases q.scope.id q.mac)) [
      | inl missing ↦
          assign-Grant q t.reservations none t.leases l ls' c.addresses c.ids c.reserved
            (ground arith)
      | inr (old, found) ↦ elim (Bool-cases (is_kept q t.reservations old)) [
        | inl kept ↦ renewed_lease-Grant q t old l ls' c found kept (ground arith)
        | inr given_up ↦ assign_anew-Grant q t (declined_ip q old) l ls' c (ground arith)
      ]
    ]

-- Under the tables' constraints, a lease that AllocateV4Lease grants is the client's own, in the
-- scope asked for, and its address is held by no live lease of another client (active and not
-- expired, offered inside the offer window, or declined inside the quarantine).
pub allocate_v4_lease-IsHeldFrom :
    (q : Request) (t : Tables) (l : Lease) (ls' : List Lease) (k : Lease)
    → HasConstraints t
    → allocate_v4_lease q t ≡ ok (l, ls')
    → Memᴰ k t.leases
    → IsHeldFrom q k
    → (l.mac_addr ≡ q.mac) × (l.scope_id ≡ q.scope.id) × (k.ip_addr ≢ l.ip_addr)
allocate_v4_lease-IsHeldFrom q t l ls' k c h m b =
    let g = allocate_v4_lease-Grant q t l ls' c h in (g.client, g.scope, g.free k m b)

-- Under the tables' constraints, the address that AllocateV4Lease grants is not reserved for another
-- client of the scope.
pub allocate_v4_lease-IsReservedFrom :
    (q : Request) (t : Tables) (l : Lease) (ls' : List Lease) (r : Reservation)
    → HasConstraints t
    → allocate_v4_lease q t ≡ ok (l, ls')
    → Memᴰ r t.reservations
    → IsReservedFrom q r
    → r.ip_addr ≢ l.ip_addr
allocate_v4_lease-IsReservedFrom q t l ls' r c h m b =
    let g = allocate_v4_lease-Grant q t l ls' c h in g.unreserved r m b

-- Under the tables' constraints, AllocateV4Lease leaves the row of every live lease of another
-- client of the scope as it was.
pub allocate_v4_lease-mem :
    (q : Request) (t : Tables) (l : Lease) (ls' : List Lease) (k : Lease)
    → HasConstraints t
    → allocate_v4_lease q t ≡ ok (l, ls')
    → Memᴰ k t.leases
    → IsHeldFrom q k
    → Memᴰ k ls'
allocate_v4_lease-mem q t l ls' k c h m b =
    let g = allocate_v4_lease-Grant q t l ls' c h in
    let elsewhere : is_at l.scope_id l.ip_addr k ≡ false =
      elim (Bool-cases (is_at l.scope_id l.ip_addr k)) [
        | inl there ↦ absurd (g.free k m b (is_at-true l.scope_id l.ip_addr k there).1)
        | inr away ↦ away
      ] in
    save_lease-mem l g.before ls' k g.saved (g.kept k m b) elsewhere

-- AllocateV4Lease keeps the constraints that no two rows of a scope have one address or one client.
pub allocate_v4_lease-HasUniqueAddresses :
    (q : Request) (t : Tables) (l : Lease) (ls' : List Lease)
    → HasConstraints t
    → allocate_v4_lease q t ≡ ok (l, ls')
    → HasUniqueAddresses ls' × HasUniqueClients ls'
unfolding HasUniqueAddresses HasUniqueClients
allocate_v4_lease-HasUniqueAddresses q t l ls' c h =
    let g = allocate_v4_lease-Grant q t l ls' c h in
    let ua : HasUniqueAddresses g.before =
      λ k k' m m'. c.addresses k k' (g.subset k m) (g.subset k' m') in
    let uc : HasUniqueClients g.before =
      λ k k' m m'. c.clients k k' (g.subset k m) (g.subset k' m') in
    (
      save_lease-HasUniqueAddresses l g.before ls' g.saved ua,
      save_lease-HasUniqueClients l g.before ls' g.saved ua uc,
    )

-- AllocateV4Lease keeps all constraints of the tables.
pub allocate_v4_lease-HasConstraints :
    (q : Request) (t : Tables) (l : Lease) (ls' : List Lease)
    → HasConstraints t
    → allocate_v4_lease q t ≡ ok (l, ls')
    → HasConstraints (record { leases = ls'; reservations = t.reservations })
unfolding HasUniqueIds
allocate_v4_lease-HasConstraints q t l ls' c h =
    let g = allocate_v4_lease-Grant q t l ls' c h in
    let (addresses, clients) = allocate_v4_lease-HasUniqueAddresses q t l ls' c h in
    let ui : HasUniqueIds g.before = λ k k' m m'. c.ids k k' (g.subset k m) (g.subset k' m') in
    record {
      addresses = addresses;
      clients = clients;
      ids = save_lease-HasUniqueIds l g.before ls' g.saved ui;
      reserved = c.reserved;
    }

-- The lease that AllocateV4Lease returns is in the table: a row of the client has its address, its
-- state and its end, whether the statement inserted that row or overwrote one.
pub allocate_v4_lease-stored :
    (q : Request) (t : Tables) (l : Lease) (ls' : List Lease)
    → HasConstraints t
    → allocate_v4_lease q t ≡ ok (l, ls')
    → (r : Lease) × Memᴰ r ls'
      × (r.scope_id ≡ q.scope.id)
      × (r.mac_addr ≡ q.mac)
      × (r.ip_addr ≡ l.ip_addr)
      × (r.state ≡ l.state)
      × (r.ends_at ≡ l.ends_at)
allocate_v4_lease-stored q t l ls' c h =
    let g = allocate_v4_lease-Grant q t l ls' c h in
    let (r, m, s, a, mac, state, ends) = save_lease-stored l g.before ls' g.saved in
    (r, m, s ∙ g.scope, mac ∙ g.client, a, state, ends)
