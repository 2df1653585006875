-- ===== src/Store/V6/Grant.antt =====
-- internal/store/store.go: what AllocateV6Lease grants. Each branch ends in one saveV6LeaseTx on the
-- table after the branch's deletions; these lemmas say what the branch has made sure of by then.
use dhcp_server.Base.{ℕ, ◌≡◌, ◌≢◌, refl, sym, ◌∙◌, ap, subst, ◌==◌, Bool, true, false}
use dhcp_server.Base.{Option-cases, Option, some, ◌&&◌, inl, inr, List, arith}
use dhcp_server.Base.Outcome.{ok, bind-eq-ok}
use dhcp_server.Base.Rows.{any, any-eq-false, find_first-eq-some, find_first-eq-none}
use dhcp_server.Base.Rows.{mem_of_mem-reject}
use dhcp_server.Base.Upsert.{IsCleared, Keeps, upsert-Keeps}
use dhcp_server.Store.V6.{V6Lease, V6Reservation, blocks_v6, is_at_v6, is_rival_v6, overwrite_v6}
use dhcp_server.Store.V6.{save_v6_lease, delete_v6_lease, get_v6_lease_by_ip}
use dhcp_server.Store.V6.{ensure_v6_ip_available}
use dhcp_server.Store.V6.{get_v6_reservation_by_ip, get_v6_reservation_by_duid}
use dhcp_server.Store.V6.Pool.{in_use_v6, is_used_v6, allocate_ipv6}
use dhcp_server.Store.V6.Pool.Search.{pool_loop_v6-free, in_use_v6-blocks_v6}
use dhcp_server.Store.Uint128.{ip_to_uint128}
use dhcp_server.Store.V6.Unique.{HasUniqueV6Addresses, HasUniqueV6Ids, HasUniqueV6Reservations}
use dhcp_server.Store.V6.Unique.{is_at_v6-true, overwrite_v6-elsewhere}
use dhcp_server.Store.V6.Unique.{save_v6_lease-upsert}
use dhcp_server.Store.V6.Allocate.{
  V6Request, new_v6_lease, save_and_return_v6, is_open_v6, evict_v6,
}
use dhcp_server.Store.V6.Allocate.{assign_from_pool_v6, is_reserved_for_other_v6}
use mathlib.Core.List.{Memᴰ}

-- A row that holds its address against the client of the request.
pub record IsHeldFromV6 (q : V6Request) (k : V6Lease) : Type 0 where
  pub scope : k.scope_id ≡ q.scope.id
  pub other : k.duid ≢ q.duid
  pub live : blocks_v6 k q.now ≡ true

-- A reservation for another client.
pub record IsReservedFromV6 (q : V6Request) (r : V6Reservation) : Type 0 where
  pub scope : r.scope_id ≡ q.scope.id
  pub other : r.duid ≢ q.duid

-- What the result of a branch on the rows `ls` has: the saved row and the table before the save.
pub record V6Grant (q : V6Request) (rs : List V6Reservation) (ls : List V6Lease) (l : V6Lease)
    (ls' : List V6Lease) : Type 0 where
  pub before : List V6Lease
  pub saved : save_v6_lease l before ≡ ok ls'
  pub subset : (k : V6Lease) → Memᴰ k before → Memᴰ k ls
  pub keeps : Keeps (is_at_v6 q.scope.id l.ip_addr) (IsHeldFromV6 q) ls ls'
  pub unreserved : (r : V6Reservation) → Memᴰ r rs → IsReservedFromV6 q r → r.ip_addr ≢ l.ip_addr
  pub scope : l.scope_id ≡ q.scope.id
  pub duid : l.duid ≡ q.duid
  pub iaid : l.iaid ≡ q.iaid

-- saveV6LeaseTx, and the lease is returned.
pub save_and_return_v6-eq-ok :
    (new : V6Lease) (ls : List V6Lease) (l : V6Lease) (ls' : List V6Lease)
    → save_and_return_v6 new ls ≡ ok (l, ls')
    → (l ≡ new) × (save_v6_lease new ls ≡ ok ls')
unfolding save_and_return_v6
save_and_return_v6-eq-ok new ls l ls' h =
    let (x, s, e) = bind-eq-ok (save_v6_lease new ls) _ h in (cc, cc)

-- The table `before` is `ls` with the address cleared for the client.
abbrev pub IsClearedV6 : V6Request → ℕ → (ls before : List V6Lease) → Type 0
IsClearedV6 q ip = IsCleared (is_at_v6 q.scope.id ip) (IsHeldFromV6 q) (λ x k. k.id == x.id)

-- A save at an address that is cleared for the client.
pub save_v6_lease-Keeps :
    (q : V6Request) (l : V6Lease) (ls before ls' : List V6Lease)
    → HasUniqueV6Addresses ls
    → HasUniqueV6Ids ls
    → l.scope_id ≡ q.scope.id
    → IsClearedV6 q l.ip_addr ls before
    → save_v6_lease l before ≡ ok ls'
    → Keeps (is_at_v6 q.scope.id l.ip_addr) (IsHeldFromV6 q) ls ls'
save_v6_lease-Keeps q l ls before ls' ua ui s c saved =
    subst (λ sc. Keeps (is_at_v6 sc l.ip_addr) (IsHeldFromV6 q) ls ls') s
      (upsert-Keeps (is_at_v6 l.scope_id l.ip_addr) (is_rival_v6 l) (λ k. k.id == l.id)
        (overwrite_v6 l) (IsHeldFromV6 q) (λ x k. k.id == x.id) l ls before ls'
        (λ x y mx my e. ui x y mx my (ground arith))
        (λ x y mx my tx ty.
          let (sx, ax) = is_at_v6-true l.scope_id l.ip_addr x tx in
          let (sy, ay) = is_at_v6-true l.scope_id l.ip_addr y ty in
          ua x y mx my (sx ∙ sym sy, ax ∙ sym ay))
        (overwrite_v6-elsewhere l)
        (subst
          (λ sc. IsCleared (is_at_v6 sc l.ip_addr) (IsHeldFromV6 q) (λ x k. k.id == x.id) ls before)
          (sym s) c)
        (save_v6_lease-upsert l before ls' saved))

stale_not_held :
    (q : V6Request) (o : V6Lease)
    → (blocks_v6 o q.now ≡ true → o.duid ≡ q.duid)
    → ¬ IsHeldFromV6 q o
stale_not_held q o stale b = b.other (stale b.live)

pub ensure_v6_ip_available-IsClearedV6 :
    (q : V6Request) (ls before : List V6Lease) (ip : ℕ)
    → ensure_v6_ip_available ls q.scope.id ip q.duid q.now ≡ ok before
    → IsClearedV6 q ip ls before
unfolding ensure_v6_ip_available get_v6_lease_by_ip delete_v6_lease
ensure_v6_ip_available-IsClearedV6 q ls before ip h =
    elim (Option-cases (get_v6_lease_by_ip ls q.scope.id ip)) [
      | inl missing ↦ inl (missing, ground arith)
      | inr (o, found) ↦ inr (o, found, stale_not_held q o (λ live. ground arith), ground arith)
    ]

pub evict_v6-IsClearedV6 :
    (q : V6Request) (ls : List V6Lease) (ip : ℕ)
    → is_open_v6 q (get_v6_lease_by_ip ls q.scope.id ip) ≡ true
    → IsClearedV6 q ip ls (evict_v6 q (get_v6_lease_by_ip ls q.scope.id ip) ls)
unfolding is_open_v6 evict_v6 get_v6_lease_by_ip delete_v6_lease
evict_v6-IsClearedV6 q ls ip h = elim (Option-cases (get_v6_lease_by_ip ls q.scope.id ip)) [
  | inl missing ↦ inl (missing, rw missing refl)
  | inr (o, found) ↦ inr (o, found, stale_not_held q o (λ live. ground arith), ground arith)
]

-- A new lease at an address that is cleared for the client.
pub new_v6_lease-V6Grant :
    (q : V6Request) (rs : List V6Reservation) (ls before : List V6Lease) (ip : ℕ)
    (ls' : List V6Lease)
    → HasUniqueV6Addresses ls
    → HasUniqueV6Ids ls
    → IsClearedV6 q ip ls before
    → ((r : V6Reservation) → Memᴰ r rs → IsReservedFromV6 q r → r.ip_addr ≢ ip)
    → save_v6_lease (new_v6_lease q ip) before ≡ ok ls'
    → V6Grant q rs ls (new_v6_lease q ip) ls'
unfolding new_v6_lease
new_v6_lease-V6Grant q rs ls before ip ls' ua ui c res saved = record {
  before = before;
  saved = saved;
  subset = λ k m. elim c [
    | inl (_, e) ↦ subst (Memᴰ k) e m
    | inr (o, _, _, inl e) ↦ subst (Memᴰ k) e m
    | inr (o, _, _, inr e) ↦ mem_of_mem-reject (λ l. l.id == o.id) ls k (subst (Memᴰ k) e m)
  ];
  keeps = save_v6_lease-Keeps q (new_v6_lease q ip) ls before ls' ua ui refl c saved;
  unreserved = res;
  scope = refl;
  duid = refl;
  iaid = refl;
}

is_used_v6-false :
    (q : V6Request) (ls : List V6Lease) (rs : List V6Reservation) (extra : Option ℕ) (ip : ℕ)
    → is_used_v6 ls rs q.scope extra q.now ip ≡ false
    → (any (λ l. in_use_v6 q.scope.id q.now l && l.ip_addr == ip) ls ≡ false)
      × (any (λ r. r.scope_id == q.scope.id && r.ip_addr == ip) rs ≡ false)
unfolding is_used_v6
is_used_v6-false q ls rs extra ip h = ground arith

-- A free address of the pool is cleared for every client.
is_used_v6-IsClearedV6 :
    (q : V6Request) (ls : List V6Lease) (rs : List V6Reservation) (extra : Option ℕ) (ip : ℕ)
    → is_used_v6 ls rs q.scope extra q.now ip ≡ false
    → IsClearedV6 q ip ls ls
unfolding get_v6_lease_by_ip
is_used_v6-IsClearedV6 q ls rs extra ip h =
    elim (Option-cases (get_v6_lease_by_ip ls q.scope.id ip)) [
      | inl missing ↦ inl (missing, refl)
      | inr (o, found) ↦
          let (m, t) = find_first-eq-some (is_at_v6 q.scope.id ip) ls o found in
          let (s, a) = is_at_v6-true q.scope.id ip o t in
          let p : V6Lease → Bool = λ x. in_use_v6 q.scope.id q.now x && x.ip_addr == ip in
          let f : (in_use_v6 q.scope.id q.now o && o.ip_addr == ip) ≡ false =
            any-eq-false p ls o (is_used_v6-false q ls rs extra ip h).0 m in
          let u = in_use_v6-blocks_v6 q.scope.id q.now o in
          inr (o, found, λ b. let live = b.live in ground arith, inl refl)
    ]

is_used_v6-reserved :
    (q : V6Request) (ls : List V6Lease) (rs : List V6Reservation) (extra : Option ℕ) (ip : ℕ)
    (r : V6Reservation)
    → is_used_v6 ls rs q.scope extra q.now ip ≡ false
    → Memᴰ r rs
    → IsReservedFromV6 q r
    → r.ip_addr ≢ ip
is_used_v6-reserved q ls rs extra ip r h m b e =
    let s = b.scope in
    let p : V6Reservation → Bool = λ x. x.scope_id == q.scope.id && x.ip_addr == ip in
    let f : (r.scope_id == q.scope.id && r.ip_addr == ip) ≡ false =
      any-eq-false p rs r (is_used_v6-false q ls rs extra ip h).1 m in
    ground arith

pub assign_from_pool_v6-V6Grant :
    (q : V6Request) (rs : List V6Reservation) (declined : Option ℕ) (ls : List V6Lease)
    (l : V6Lease) (ls' : List V6Lease)
    → HasUniqueV6Addresses ls
    → HasUniqueV6Ids ls
    → assign_from_pool_v6 q rs declined ls ≡ ok (l, ls')
    → V6Grant q rs ls l ls'
unfolding assign_from_pool_v6 allocate_ipv6
assign_from_pool_v6-V6Grant q rs declined ls l ls' ua ui h =
    let (ip, found, h1) = bind-eq-ok (allocate_ipv6 q.fuel ls rs q.scope declined q.now) _ h in
    let (e, saved) = save_and_return_v6-eq-ok (new_v6_lease q ip) ls l ls' h1 in
    let unused =
      pool_loop_v6-free q.fuel (is_used_v6 ls rs q.scope declined q.now) q.scope.start_ip
        q.scope.end_ip (ip_to_uint128 q.scope.end_ip) (ip_to_uint128 q.scope.start_ip) ip found in
    rw e (
      new_v6_lease-V6Grant q rs ls ls ip ls' ua ui
        (is_used_v6-IsClearedV6 q ls rs declined ip unused)
        (λ r m b. is_used_v6-reserved q ls rs declined ip r unused m b) saved)

pub is_reserved_for_other_v6-false :
    (q : V6Request) (rs : List V6Reservation) (ip : ℕ) (r : V6Reservation)
    → HasUniqueV6Reservations rs
    → is_reserved_for_other_v6 rs q.scope.id ip q.duid ≡ false
    → Memᴰ r rs
    → IsReservedFromV6 q r
    → r.ip_addr ≢ ip
unfolding is_reserved_for_other_v6 get_v6_reservation_by_ip
is_reserved_for_other_v6-false q rs ip r u h m b e =
    let s = b.scope in
    let other = b.other in
    let p : V6Reservation → Bool = λ x. x.scope_id == q.scope.id && x.ip_addr == ip in
    elim (Option-cases (get_v6_reservation_by_ip rs q.scope.id ip)) [
      | inl missing ↦
          let f : (r.scope_id == q.scope.id && r.ip_addr == ip) ≡ false =
            find_first-eq-none p rs r missing m in
          ground arith
      | inr (r0, found) ↦
          let (m0, t) = find_first-eq-some p rs r0 found in
          let t' : (r0.scope_id == q.scope.id && r0.ip_addr == ip) ≡ true = t in
          let same : r ≡ r0 = u r r0 m m0 (ground arith, ground arith) in
          let mine : r0.duid ≡ q.duid = ground arith in other (ap (λ x. x.duid) same ∙ mine)
    ]

pub own_v6_reservation :
    (q : V6Request) (rs : List V6Reservation) (r0 r : V6Reservation)
    → HasUniqueV6Reservations rs
    → get_v6_reservation_by_duid rs q.scope.id q.duid ≡ some r0
    → Memᴰ r rs
    → IsReservedFromV6 q r
    → r.ip_addr ≢ r0.ip_addr
unfolding get_v6_reservation_by_duid
own_v6_reservation q rs r0 r u found m b e =
    let s = b.scope in
    let p : V6Reservation → Bool = λ x. x.scope_id == q.scope.id && x.duid == q.duid in
    let (m0, t) = find_first-eq-some p rs r0 found in
    let t' : (r0.scope_id == q.scope.id && r0.duid == q.duid) ≡ true = t in
    let same : r ≡ r0 = u r r0 m m0 (ground arith, e) in
    let mine : r0.duid ≡ q.duid = ground arith in b.other (ap (λ x. x.duid) same ∙ mine)
