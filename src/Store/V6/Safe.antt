-- ===== src/Store/V6/Safe.antt =====
-- internal/store/store.go: AllocateV6Lease for an association that keeps no lease.
use dhcp_server.Base.{ℕ, ◌≡◌, true, false}
use dhcp_server.Base.{Bool-cases, Option-cases, Option, some, inl, inr, List, arith}
use dhcp_server.Base.Outcome.{ok, bind-eq-ok}
use dhcp_server.Store.V6.{V6Lease, V6Reservation}
use dhcp_server.Store.V6.{get_v6_lease_by_ip, get_v6_reservation_by_duid}
use dhcp_server.Store.V6.{ensure_v6_ip_available}
use dhcp_server.Store.V6.Unique.{HasUniqueV6Addresses, HasUniqueV6Ids}
use dhcp_server.Store.V6.Unique.{HasUniqueV6Reservations}
use dhcp_server.Store.V6.Allocate.{V6Request, new_v6_lease}
use dhcp_server.Store.V6.Allocate.{evict_v6}
use dhcp_server.Store.V6.Allocate.{is_usable_v6, is_open_v6, is_reserved_for_other_v6}
use dhcp_server.Store.V6.Allocate.{assign_preferred_v6, assign_reserved_v6, assign_v6}
use dhcp_server.Store.V6.Grant.{V6Grant, save_and_return_v6-eq-ok}
use dhcp_server.Store.V6.Grant.{ensure_v6_ip_available-IsClearedV6}
use dhcp_server.Store.V6.Grant.{evict_v6-IsClearedV6, new_v6_lease-V6Grant}
use dhcp_server.Store.V6.Grant.{assign_from_pool_v6-V6Grant, is_reserved_for_other_v6-false}
use dhcp_server.Store.V6.Grant.{own_v6_reservation}

is_usable_v6-true :
    (q : V6Request) (rs : List V6Reservation) (declined : Option ℕ) (ls : List V6Lease) (ip : ℕ)
    → is_usable_v6 q rs declined ls ip ≡ true
    → (is_reserved_for_other_v6 rs q.scope.id ip q.duid ≡ false)
      × (is_open_v6 q (get_v6_lease_by_ip ls q.scope.id ip) ≡ true)
unfolding is_usable_v6
is_usable_v6-true q rs declined ls ip h = ground arith

assign_preferred_v6-V6Grant :
    (q : V6Request) (rs : List V6Reservation) (declined : Option ℕ) (ls : List V6Lease) (ip : ℕ)
    (l : V6Lease) (ls' : List V6Lease)
    → HasUniqueV6Addresses ls
    → HasUniqueV6Ids ls
    → HasUniqueV6Reservations rs
    → assign_preferred_v6 q rs declined ls ip ≡ ok (l, ls')
    → V6Grant q rs ls l ls'
unfolding assign_preferred_v6
assign_preferred_v6-V6Grant q rs declined ls ip l ls' ua ui ur h =
    let before = evict_v6 q (get_v6_lease_by_ip ls q.scope.id ip) ls in
    elim (Bool-cases (is_usable_v6 q rs declined ls ip)) [
      | inl usable ↦
          let (unreserved, opened) = is_usable_v6-true q rs declined ls ip usable in
          let (e, saved) =
            save_and_return_v6-eq-ok (new_v6_lease q ip) before l ls' (ground arith) in
          rw e (
            new_v6_lease-V6Grant q rs ls before ip ls' ua ui (evict_v6-IsClearedV6 q ls ip opened)
              (λ r m b. is_reserved_for_other_v6-false q rs ip r ur unreserved m b) saved)
      | inr unusable ↦ assign_from_pool_v6-V6Grant q rs declined ls l ls' ua ui (ground arith)
    ]

assign_reserved_v6-V6Grant :
    (q : V6Request) (rs : List V6Reservation) (r : V6Reservation) (ls : List V6Lease) (l : V6Lease)
    (ls' : List V6Lease)
    → HasUniqueV6Addresses ls
    → HasUniqueV6Ids ls
    → HasUniqueV6Reservations rs
    → get_v6_reservation_by_duid rs q.scope.id q.duid ≡ some r
    → assign_reserved_v6 q r ls ≡ ok (l, ls')
    → V6Grant q rs ls l ls'
unfolding assign_reserved_v6
assign_reserved_v6-V6Grant q rs r ls l ls' ua ui ur found h =
    let (before, cleared, h1) =
      bind-eq-ok (ensure_v6_ip_available ls q.scope.id r.ip_addr q.duid q.now) _ h in
    let (e, saved) = save_and_return_v6-eq-ok (new_v6_lease q r.ip_addr) before l ls' h1 in
    rw e (
      new_v6_lease-V6Grant q rs ls before r.ip_addr ls' ua ui
        (ensure_v6_ip_available-IsClearedV6 q ls before r.ip_addr cleared)
        (λ r' m b. own_v6_reservation q rs r r' ur found m b) saved)

pub assign_v6-V6Grant :
    (q : V6Request) (rs : List V6Reservation) (declined : Option ℕ) (ls : List V6Lease)
    (l : V6Lease) (ls' : List V6Lease)
    → HasUniqueV6Addresses ls
    → HasUniqueV6Ids ls
    → HasUniqueV6Reservations rs
    → assign_v6 q rs declined ls ≡ ok (l, ls')
    → V6Grant q rs ls l ls'
unfolding assign_v6
assign_v6-V6Grant q rs declined ls l ls' ua ui ur h =
    elim (Option-cases (get_v6_reservation_by_duid rs q.scope.id q.duid)) [
      | inr (r, found) ↦ assign_reserved_v6-V6Grant q rs r ls l ls' ua ui ur found (ground arith)
      | inl missing ↦ elim (Option-cases q.preferred) [
        | inl absent ↦ assign_from_pool_v6-V6Grant q rs declined ls l ls' ua ui (ground arith)
        | inr (ip, wish) ↦
            assign_preferred_v6-V6Grant q rs declined ls ip l ls' ua ui ur (ground arith)
      ]
    ]
