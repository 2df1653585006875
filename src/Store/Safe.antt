-- ===== src/Store/Safe.antt =====
-- internal/store/store.go: AllocateV4Lease takes no address that another client holds or that is
-- reserved for another client, and keeps the rows of the other clients and the constraints.
use dhcp_server.Base.{ℕ, ◌≡◌, ◌≢◌, refl, sym, subst, ◌==◌, true, false}
use dhcp_server.Base.{Bool-cases, Option-cases, Option, none, some, ◌⊎◌, inl, inr, List}
use dhcp_server.Base.{arith}
use dhcp_server.Base.Outcome.{ok, bind-eq-ok}
use dhcp_server.Base.Rows.{find_first-eq-some, mem_of_mem-reject}
use dhcp_server.Store.{Lease, Reservation}
use dhcp_server.Store.Table.{is_at, save_lease, get_lease_by_ip}
use dhcp_server.Store.Table.{delete_lease, ensure_ip_available}
use dhcp_server.Store.Table.{get_reservation_by_mac}
use dhcp_server.Store.Unique.{HasUniqueAddresses, HasUniqueIds}
use dhcp_server.Store.Grant.{HasUniqueReservations, IsReservedFrom, Grant, IsStale}
use dhcp_server.Store.Grant.{
  save_and_return-eq-ok, new_lease-blocks, assign_from_pool-Grant, is_reserved_for_other-false,
}
use dhcp_server.Store.Grant.{own_reservation, delete_lease-kept, free-at}
use dhcp_server.Store.Allocate.{Request, new_lease}
use dhcp_server.Store.Allocate.{is_open, evict, is_usable, assign_preferred}
use dhcp_server.Store.Allocate.{assign_reserved, assign, is_reserved_for_other}
use mathlib.Core.List.{Memᴰ}

-- The table `before` is `ls` with no row at the address, or with a stale one, maybe deleted.
abbrev IsCleared : Request → List Lease → ℕ → List Lease → Type 0
IsCleared q ls ip before =
    ((get_lease_by_ip ls q.scope.id ip ≡ none) × (before ≡ ls))
    ⊎ ((o : Lease) × (get_lease_by_ip ls q.scope.id ip ≡ some o)
        × IsStale q o
        × ((before ≡ ls) ⊎ (before ≡ delete_lease o.id ls)))

ensure_ip_available-IsCleared :
    (q : Request) (ls before : List Lease) (ip : ℕ)
    → ensure_ip_available ls q.scope.id ip q.mac q.now ≡ ok before
    → IsCleared q ls ip before
unfolding ensure_ip_available IsStale
ensure_ip_available-IsCleared q ls before ip h =
    elim (Option-cases (get_lease_by_ip ls q.scope.id ip)) [
      | inl missing ↦ inl (missing, ground arith)
      | inr (o, found) ↦
          let rest : IsStale q o × ((before ≡ ls) ⊎ (before ≡ delete_lease o.id ls)) =
            ground arith in
          inr (o, found, rest.0, rest.1)
    ]

evict-IsCleared :
    (q : Request) (ls : List Lease) (ip : ℕ)
    → is_open q (get_lease_by_ip ls q.scope.id ip) ≡ true
    → IsCleared q ls ip (evict q (get_lease_by_ip ls q.scope.id ip) ls)
unfolding is_open evict IsStale
evict-IsCleared q ls ip h = elim (Option-cases (get_lease_by_ip ls q.scope.id ip)) [
  | inl missing ↦ inl (missing, rw missing refl)
  | inr (o, found) ↦
      let before = evict q (get_lease_by_ip ls q.scope.id ip) ls in
      let rest : IsStale q o × ((before ≡ ls) ⊎ (before ≡ delete_lease o.id ls)) = ground arith in
      inr (o, found, rest.0, rest.1)
]

-- A new lease at an address where there is no row, or a stale one that may have been deleted.
new_lease-Grant :
    (q : Request) (rs : List Reservation) (ls before : List Lease) (ip : ℕ) (ls' : List Lease)
    → HasUniqueAddresses ls
    → HasUniqueIds ls
    → IsCleared q ls ip before
    → ((r : Reservation) → Memᴰ r rs → IsReservedFrom q r → r.ip_addr ≢ ip)
    → save_lease (new_lease q ip) before ≡ ok ls'
    → Grant q rs ls (new_lease q ip) ls'
unfolding new_lease get_lease_by_ip delete_lease
new_lease-Grant q rs ls before ip ls' ua ui cases res saved = record {
  before = before;
  saved = saved;
  subset = λ k m. elim cases [
    | inl (missing, e) ↦ subst (λ x. Memᴰ k x) e m
    | inr (o, found, stale, inl e) ↦ subst (λ x. Memᴰ k x) e m
    | inr (o, found, stale, inr e) ↦
        mem_of_mem-reject (λ l. l.id == o.id) ls k (subst (λ x. Memᴰ k x) e m)
  ];
  kept = λ k m b. elim cases [
    | inl (missing, e) ↦ subst (λ x. Memᴰ k x) (sym e) m
    | inr (o, found, stale, inl e) ↦ subst (λ x. Memᴰ k x) (sym e) m
    | inr (o, found, stale, inr e) ↦
        subst (λ x. Memᴰ k x) (sym e)
          (delete_lease-kept q ls o k ui (find_first-eq-some (is_at q.scope.id ip) ls o found).0
            stale m b)
  ];
  free = λ k m b.
      free-at q ls ip k ua
        (elim cases [
          | inl (missing, e) ↦ inl missing
          | inr (o, found, stale, e) ↦ inr (o, found, stale)
        ])
        m b;
  unreserved = res;
  scope = refl;
  client = refl;
  live = new_lease-blocks q ip;
  ends = refl;
}

is_usable-true :
    (q : Request) (rs : List Reservation) (declined : Option ℕ) (ls : List Lease) (ip : ℕ)
    → is_usable q rs declined ls ip ≡ true
    → (is_reserved_for_other rs q.scope.id ip q.mac ≡ false)
      × (is_open q (get_lease_by_ip ls q.scope.id ip) ≡ true)
unfolding is_usable
is_usable-true q rs declined ls ip h = ground arith

assign_preferred-Grant :
    (q : Request) (rs : List Reservation) (declined : Option ℕ) (ls : List Lease) (ip : ℕ)
    (l : Lease) (ls' : List Lease)
    → HasUniqueAddresses ls
    → HasUniqueIds ls
    → HasUniqueReservations rs
    → assign_preferred q rs declined ls ip ≡ ok (l, ls')
    → Grant q rs ls l ls'
unfolding assign_preferred
assign_preferred-Grant q rs declined ls ip l ls' ua ui ur h =
    elim (Bool-cases (is_usable q rs declined ls ip)) [
      | inl usable ↦
          let (unreserved, opened) = is_usable-true q rs declined ls ip usable in
          let (e, saved) =
            save_and_return-eq-ok (new_lease q ip) (evict q (get_lease_by_ip ls q.scope.id ip) ls) l
              ls' (ground arith) in
          rw e (
            new_lease-Grant q rs ls (evict q (get_lease_by_ip ls q.scope.id ip) ls) ip ls' ua ui
              (evict-IsCleared q ls ip opened)
              (λ r m b. is_reserved_for_other-false q rs ip r ur unreserved m b) saved)
      | inr unusable ↦ assign_from_pool-Grant q rs declined ls l ls' (ground arith)
    ]

assign_reserved-Grant :
    (q : Request) (rs : List Reservation) (r : Reservation) (ls : List Lease) (l : Lease)
    (ls' : List Lease)
    → HasUniqueAddresses ls
    → HasUniqueIds ls
    → HasUniqueReservations rs
    → get_reservation_by_mac rs q.scope.id q.mac ≡ some r
    → assign_reserved q r ls ≡ ok (l, ls')
    → Grant q rs ls l ls'
unfolding assign_reserved
assign_reserved-Grant q rs r ls l ls' ua ui ur found h =
    let (before, cleared, h1) =
      bind-eq-ok (ensure_ip_available ls q.scope.id r.ip_addr q.mac q.now) _ h in
    let (e, saved) = save_and_return-eq-ok (new_lease q r.ip_addr) before l ls' h1 in
    rw e (
      new_lease-Grant q rs ls before r.ip_addr ls' ua ui
        (ensure_ip_available-IsCleared q ls before r.ip_addr cleared)
        (λ r' m b. own_reservation q rs r r' ur found m b) saved)

pub assign-Grant :
    (q : Request) (rs : List Reservation) (declined : Option ℕ) (ls : List Lease) (l : Lease)
    (ls' : List Lease)
    → HasUniqueAddresses ls
    → HasUniqueIds ls
    → HasUniqueReservations rs
    → assign q rs declined ls ≡ ok (l, ls')
    → Grant q rs ls l ls'
unfolding assign
assign-Grant q rs declined ls l ls' ua ui ur h =
    elim (Option-cases (get_reservation_by_mac rs q.scope.id q.mac)) [
      | inr (r, found) ↦ assign_reserved-Grant q rs r ls l ls' ua ui ur found (ground arith)
      | inl missing ↦ elim (Option-cases q.preferred) [
        | inl absent ↦ assign_from_pool-Grant q rs declined ls l ls' (ground arith)
        | inr (ip, wish) ↦ assign_preferred-Grant q rs declined ls ip l ls' ua ui ur (ground arith)
      ]
    ]
