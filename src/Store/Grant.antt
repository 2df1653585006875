-- ===== src/Store/Grant.antt =====
-- internal/store/store.go: what AllocateV4Lease grants. Each branch ends in one saveLeaseTx on the
-- table after the branch's deletions; these lemmas say what the branch has made sure of by then.
use dhcp_server.Base.{ℕ, ◌≡◌, ◌≢◌, refl, sym, ◌∙◌, ap, subst, ◌==◌, ==_false, Bool, true, false}
use dhcp_server.Base.{Option-cases, Option, none, some, ◌&&◌, ◌⊎◌, inl, inr, List}
use dhcp_server.Base.{arith}
use dhcp_server.Base.Outcome.{ok, bind-eq-ok}
use dhcp_server.Base.Rows.{any, any-eq-false, find_first-eq-some, find_first-eq-none}
use dhcp_server.Base.Rows.{mem-reject}
use dhcp_server.Store.{lease_blocks_reuse, or_else, Lease, Reservation, Scope, blocks}
use dhcp_server.Store.Table.{is_at, save_lease, get_lease_by_ip}
use dhcp_server.Store.Table.{delete_lease}
use dhcp_server.Store.Table.{get_reservation_by_ip, get_reservation_by_mac}
use dhcp_server.Store.Pool.{allocate_ipv4, is_used, in_use}
use dhcp_server.Store.Pool.Search.{pool_loop-free, in_use-blocks}
use dhcp_server.Store.Unique.{HasUniqueAddresses, HasUniqueIds, is_at-true, is_at_of_eq}
use dhcp_server.Store.Allocate.{Request, ends_at, new_lease, save_and_return}
use dhcp_server.Store.Allocate.{assign_from_pool}
use dhcp_server.Store.Allocate.{is_reserved_for_other}
use mathlib.Core.List.{Memᴰ}

-- UNIQUE (scope_id, ip_addr) of the table `reservations`.
unfoldable pub HasUniqueReservations : List Reservation → Type 0
HasUniqueReservations rs =
    (r s : Reservation)
    → Memᴰ r rs
    → Memᴰ s rs
    → r.scope_id ≡ s.scope_id
    → r.ip_addr ≡ s.ip_addr
    → r ≡ s

-- A row that holds its address against the client of the request.
pub record IsHeldFrom (q : Request) (k : Lease) : Type 0 where
  pub scope : k.scope_id ≡ q.scope.id
  pub other : k.mac_addr ≢ q.mac
  pub live : blocks k q.now ≡ true

-- A reservation for another client.
pub record IsReservedFrom (q : Request) (r : Reservation) : Type 0 where
  pub scope : r.scope_id ≡ q.scope.id
  pub other : r.mac_addr ≢ q.mac

-- What the result of a branch on the rows `ls` has: the saved row and the table before the save.
pub record Grant (q : Request) (rs : List Reservation) (ls : List Lease) (l : Lease)
    (ls' : List Lease) : Type 0 where
  pub before : List Lease
  pub saved : save_lease l before ≡ ok ls'
  pub subset : (k : Lease) → Memᴰ k before → Memᴰ k ls
  pub kept : (k : Lease) → Memᴰ k ls → IsHeldFrom q k → Memᴰ k before
  pub free : (k : Lease) → Memᴰ k ls → IsHeldFrom q k → k.ip_addr ≢ l.ip_addr
  pub unreserved : (r : Reservation) → Memᴰ r rs → IsReservedFrom q r → r.ip_addr ≢ l.ip_addr
  pub scope : l.scope_id ≡ q.scope.id
  pub client : l.mac_addr ≡ q.mac
  pub live : blocks l q.now ≡ true
  pub ends : l.ends_at ≡ ends_at q

-- saveLeaseTx, and the lease is returned.
pub save_and_return-eq-ok :
    (new : Lease) (ls : List Lease) (l : Lease) (ls' : List Lease)
    → save_and_return new ls ≡ ok (l, ls')
    → (l ≡ new) × (save_lease new ls ≡ ok ls')
unfolding save_and_return
save_and_return-eq-ok new ls l ls' h =
    let (x, s, e) = bind-eq-ok (save_lease new ls) _ h in (cc, cc)

is_used-false :
    (ls : List Lease) (rs : List Reservation) (scope : Scope) (extra : Option ℕ) (now ip : ℕ)
    → is_used ls rs scope extra now ip ≡ false
    → (any (λ l. in_use scope.id now l && l.ip_addr == ip) ls ≡ false)
      × (any (λ r. r.scope_id == scope.id && r.ip_addr == ip) rs ≡ false)
unfolding is_used
is_used-false ls rs scope extra now ip h = ground arith

IsHeldFrom-in_use : (q : Request) (k : Lease) → IsHeldFrom q k → in_use q.scope.id q.now k ≡ true
IsHeldFrom-in_use q k b =
    let s = b.scope in let live = b.live in in_use-blocks q.scope.id q.now k ∙ ground arith

is_used-held :
    (q : Request) (ls : List Lease) (rs : List Reservation) (extra : Option ℕ) (ip : ℕ) (k : Lease)
    → is_used ls rs q.scope extra q.now ip ≡ false
    → Memᴰ k ls
    → IsHeldFrom q k
    → k.ip_addr ≢ ip
is_used-held q ls rs extra ip k h m b e =
    let p : Lease → Bool = λ x. in_use q.scope.id q.now x && x.ip_addr == ip in
    let f : (in_use q.scope.id q.now k && k.ip_addr == ip) ≡ false =
      any-eq-false p ls k (is_used-false ls rs q.scope extra q.now ip h).0 m in
    let t = IsHeldFrom-in_use q k b in ground arith

is_used-reserved :
    (q : Request) (ls : List Lease) (rs : List Reservation) (extra : Option ℕ) (ip : ℕ)
    (r : Reservation)
    → is_used ls rs q.scope extra q.now ip ≡ false
    → Memᴰ r rs
    → r.scope_id ≡ q.scope.id
    → r.ip_addr ≢ ip
is_used-reserved q ls rs extra ip r h m s e =
    let p : Reservation → Bool = λ x. x.scope_id == q.scope.id && x.ip_addr == ip in
    let f : (r.scope_id == q.scope.id && r.ip_addr == ip) ≡ false =
      any-eq-false p rs r (is_used-false ls rs q.scope extra q.now ip h).1 m in
    ground arith

-- A lease that is granted anew holds its address.
pub new_lease-blocks : (q : Request) (ip : ℕ) → blocks (new_lease q ip) q.now ≡ true
unfolding blocks new_lease lease_blocks_reuse or_else
new_lease-blocks q ip = ground arith

pub assign_from_pool-Grant :
    (q : Request) (rs : List Reservation) (declined : Option ℕ) (ls : List Lease) (l : Lease)
    (ls' : List Lease)
    → assign_from_pool q rs declined ls ≡ ok (l, ls')
    → Grant q rs ls l ls'
unfolding assign_from_pool allocate_ipv4 new_lease
assign_from_pool-Grant q rs declined ls l ls' h =
    let (ip, found, h1) = bind-eq-ok (allocate_ipv4 q.fuel ls rs q.scope declined q.now) _ h in
    let (e, saved) = save_and_return-eq-ok (new_lease q ip) ls l ls' h1 in
    let (unused, _, _, _) =
      pool_loop-free q.fuel (is_used ls rs q.scope declined q.now) q.scope.start_ip q.scope.end_ip
        q.scope.start_ip ip found in
    rw e (record {
      before = ls;
      saved = saved;
      subset = λ k m. m;
      kept = λ k m b. m;
      free = λ k m b. is_used-held q ls rs declined ip k unused m b;
      unreserved = λ r m b. is_used-reserved q ls rs declined ip r unused m b.scope;
      scope = refl;
      client = refl;
      live = new_lease-blocks q ip;
      ends = refl;
    })

pub is_reserved_for_other-false :
    (q : Request) (rs : List Reservation) (ip : ℕ) (r : Reservation)
    → HasUniqueReservations rs
    → is_reserved_for_other rs q.scope.id ip q.mac ≡ false
    → Memᴰ r rs
    → IsReservedFrom q r
    → r.ip_addr ≢ ip
unfolding is_reserved_for_other get_reservation_by_ip HasUniqueReservations
is_reserved_for_other-false q rs ip r u h m b e =
    let s = b.scope in
    let other = b.other in
    let p : Reservation → Bool = λ x. x.scope_id == q.scope.id && x.ip_addr == ip in
    elim (Option-cases (get_reservation_by_ip rs q.scope.id ip)) [
      | inl missing ↦
          let f : (r.scope_id == q.scope.id && r.ip_addr == ip) ≡ false =
            find_first-eq-none p rs r missing m in
          ground arith
      | inr (r0, found) ↦
          let (m0, t) = find_first-eq-some p rs r0 found in
          let t' : (r0.scope_id == q.scope.id && r0.ip_addr == ip) ≡ true = t in
          let same : r ≡ r0 = u r r0 m m0 (ground arith) (ground arith) in
          let mine : r0.mac_addr ≡ q.mac = ground arith in other (ap (λ x. x.mac_addr) same ∙ mine)
    ]

pub own_reservation :
    (q : Request) (rs : List Reservation) (r0 r : Reservation)
    → HasUniqueReservations rs
    → get_reservation_by_mac rs q.scope.id q.mac ≡ some r0
    → Memᴰ r rs
    → IsReservedFrom q r
    → r.ip_addr ≢ r0.ip_addr
unfolding get_reservation_by_mac HasUniqueReservations
own_reservation q rs r0 r u found m b e =
    let s = b.scope in
    let p : Reservation → Bool = λ x. x.scope_id == q.scope.id && x.mac_addr == q.mac in
    let (m0, t) = find_first-eq-some p rs r0 found in
    let t' : (r0.scope_id == q.scope.id && r0.mac_addr == q.mac) ≡ true = t in
    let same : r ≡ r0 = u r r0 m m0 (ground arith) e in
    let mine : r0.mac_addr ≡ q.mac = ground arith in b.other (ap (λ x. x.mac_addr) same ∙ mine)

-- A row that does not hold its address against the client.
unfoldable pub IsStale : Request → Lease → Type 0
IsStale q o = (o.mac_addr ≡ q.mac) ⊎ (blocks o q.now ≡ false)

pub IsStale-not-IsHeldFrom : (q : Request) (o : Lease) → IsStale q o → ¬ IsHeldFrom q o
unfolding IsStale
IsStale-not-IsHeldFrom q o h b =
    let live = b.live in elim h [ inl mine ↦ b.other mine | inr idle ↦ cc ]

pub delete_lease-kept :
    (q : Request) (ls : List Lease) (o k : Lease)
    → HasUniqueIds ls
    → Memᴰ o ls
    → IsStale q o
    → Memᴰ k ls
    → IsHeldFrom q k
    → Memᴰ k (delete_lease o.id ls)
unfolding delete_lease HasUniqueIds
delete_lease-kept q ls o k u mo stale m b =
    mem-reject (λ l. l.id == o.id) ls k m
      (==_false k.id o.id
        (λ e. IsStale-not-IsHeldFrom q o stale (subst (λ x. IsHeldFrom q x) (u k o m mo e) b)))

-- With no row at the address, or a stale one, no row there holds it against the client.
pub free-at :
    (q : Request) (ls : List Lease) (ip : ℕ) (k : Lease)
    → HasUniqueAddresses ls
    → ((get_lease_by_ip ls q.scope.id ip ≡ none)
        ⊎ ((o : Lease) × (get_lease_by_ip ls q.scope.id ip ≡ some o) × IsStale q o))
    → Memᴰ k ls
    → IsHeldFrom q k
    → k.ip_addr ≢ ip
unfolding get_lease_by_ip HasUniqueAddresses
free-at q ls ip k u h m b e =
    let there : is_at q.scope.id ip k ≡ true = is_at_of_eq q.scope.id ip k b.scope e in
    elim h [
      | inl missing ↦ let f = find_first-eq-none (is_at q.scope.id ip) ls k missing m in cc
      | inr (o, found, stale) ↦
          let (mo, t) = find_first-eq-some (is_at q.scope.id ip) ls o found in
          let (s, a) = is_at-true q.scope.id ip o t in
          IsStale-not-IsHeldFrom q o stale
            (subst (λ x. IsHeldFrom q x) (u k o m mo (b.scope ∙ sym s) (e ∙ sym a)) b)
    ]
