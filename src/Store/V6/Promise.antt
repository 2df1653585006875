-- ===== src/Store/V6/Promise.antt =====
-- internal/store/store.go: what AllocateV6Lease promises to the clients of a scope, whatever branch
-- it takes.
use dhcp_server.Base.{ℕ, ◌≡◌, ◌≢◌, refl, sym, ◌∙◌, ap, ◌==◌, ◌&&◌, true, false}
use dhcp_server.Base.{Bool-cases, Option-cases, Option, none, some, inl, inr, List, arith}
use dhcp_server.Base.Outcome.{ok}
use dhcp_server.Base.Rows.{find_first, find_first-eq-some, mem-reject, mem_of_mem-reject}
use dhcp_server.Store.V6.{V6Lease, V6Reservation, is_at_v6, is_of_v6, delete_v6_leases_by_duid}
use dhcp_server.Store.V6.{get_v6_lease_by_duid}
use dhcp_server.Store.V6.Unique.{HasUniqueV6Addresses, HasUniqueV6Ids, HasUniqueAssociations}
use dhcp_server.Store.V6.Unique.{HasUniqueV6Reservations, is_of_v6-true, is_at_v6-true}
use dhcp_server.Store.V6.Unique.{is_at_v6_of_eq}
use dhcp_server.Store.V6.Unique.{save_v6_lease-stored}
use dhcp_server.Store.V6.Allocate.{V6Request, V6Tables, renewed_v6_lease}
use dhcp_server.Store.V6.Allocate.{save_and_return_v6, is_kept_v6, declined_ip_v6}
use dhcp_server.Store.V6.Allocate.{is_reserved_for_other_v6}
use dhcp_server.Store.V6.Allocate.{assign_v6}
use dhcp_server.Store.V6.Allocate.{allocate_v6_lease}
use dhcp_server.Store.V6.Grant.{
  IsHeldFromV6, IsReservedFromV6, V6Grant, IsClearedV6, save_and_return_v6-eq-ok,
}
use dhcp_server.Store.V6.Grant.{save_v6_lease-Keeps}
use dhcp_server.Store.V6.Grant.{is_reserved_for_other_v6-false}
use mathlib.Core.List.{Memᴰ}
use dhcp_server.Store.V6.Safe.{assign_v6-V6Grant}

-- The constraints of the two tables.
pub record HasV6Constraints (t : V6Tables) : Type 0 where
  pub addresses : HasUniqueV6Addresses t.leases
  pub associations : HasUniqueAssociations t.leases
  pub ids : HasUniqueV6Ids t.leases
  pub reserved : HasUniqueV6Reservations t.reservations

is_kept_v6-true :
    (q : V6Request) (rs : List V6Reservation) (l : V6Lease)
    → is_kept_v6 q rs l ≡ true
    → is_reserved_for_other_v6 rs q.scope.id l.ip_addr q.duid ≡ false
unfolding is_kept_v6
is_kept_v6-true q rs l h = ground arith

-- The address of a row of the client is cleared for the client.
own_row-IsClearedV6 :
    (q : V6Request) (ls : List V6Lease) (old : V6Lease)
    → HasUniqueV6Addresses ls
    → Memᴰ old ls
    → old.scope_id ≡ q.scope.id
    → old.duid ≡ q.duid
    → IsClearedV6 q old.ip_addr ls ls
own_row-IsClearedV6 q ls old ua m0 s mine =
    let at = is_at_v6 q.scope.id old.ip_addr in
    elim (Option-cases (find_first at ls)) [
      | inl missing ↦ inl (missing, refl)
      | inr (o, found) ↦
          let (m, t) = find_first-eq-some at ls o found in
          let (so, ao) = is_at_v6-true q.scope.id old.ip_addr o t in
          let same = ua o old m m0 (so ∙ sym s, ao) in
          inr (o, found, λ b. b.other (ap (λ x. x.duid) same ∙ mine), inl refl)
    ]

-- A renewal: the row at the address is the client's own.
renewed_v6_lease-V6Grant :
    (q : V6Request) (t : V6Tables) (old l : V6Lease) (ls' : List V6Lease)
    → HasV6Constraints t
    → get_v6_lease_by_duid t.leases q.scope.id q.duid q.iaid ≡ some old
    → is_kept_v6 q t.reservations old ≡ true
    → save_and_return_v6 (renewed_v6_lease q old) t.leases ≡ ok (l, ls')
    → V6Grant q t.reservations t.leases l ls'
unfolding renewed_v6_lease get_v6_lease_by_duid
renewed_v6_lease-V6Grant q t old l ls' c found kept h =
    let (e, saved) = save_and_return_v6-eq-ok (renewed_v6_lease q old) t.leases l ls' h in
    let (m0, own) = find_first-eq-some (is_of_v6 q.scope.id q.duid q.iaid) t.leases old found in
    let (s, duid, iaid) = is_of_v6-true q.scope.id q.duid q.iaid old own in
    rw e (record {
      before = t.leases;
      saved = saved;
      subset = λ k m. m;
      keeps =
          save_v6_lease-Keeps q (renewed_v6_lease q old) t.leases t.leases ls' c.addresses c.ids s
            (own_row-IsClearedV6 q t.leases old c.addresses m0 s duid) saved;
      unreserved = λ r m b.
          is_reserved_for_other_v6-false q t.reservations old.ip_addr r c.reserved
            (is_kept_v6-true q t.reservations old kept) m b;
      scope = s;
      duid = duid;
      iaid = iaid;
    })

delete_v6_leases_by_duid-kept :
    (q : V6Request) (ls : List V6Lease) (k : V6Lease)
    → Memᴰ k ls
    → IsHeldFromV6 q k
    → Memᴰ k (delete_v6_leases_by_duid q.scope.id q.duid q.iaid ls)
unfolding delete_v6_leases_by_duid is_of_v6
delete_v6_leases_by_duid-kept q ls k m b =
    let other = b.other in
    mem-reject (λ l. l.scope_id == q.scope.id && (l.duid == q.duid && l.iaid == q.iaid)) ls k m
      (ground arith)

assign_anew-V6Grant :
    (q : V6Request) (t : V6Tables) (declined : Option ℕ) (l : V6Lease) (ls' : List V6Lease)
    → HasV6Constraints t
    → assign_v6 q t.reservations declined
        (delete_v6_leases_by_duid q.scope.id q.duid q.iaid t.leases)
      ≡ ok (l, ls')
    → V6Grant q t.reservations t.leases l ls'
unfolding delete_v6_leases_by_duid
assign_anew-V6Grant q t declined l ls' c h =
    let rest = delete_v6_leases_by_duid q.scope.id q.duid q.iaid t.leases in
    let sub : (k : V6Lease) → Memᴰ k rest → Memᴰ k t.leases =
      λ k m. mem_of_mem-reject (is_of_v6 q.scope.id q.duid q.iaid) t.leases k m in
    let g =
      assign_v6-V6Grant q t.reservations declined rest l ls'
        (λ k k' m m'. c.addresses k k' (sub k m) (sub k' m'))
        (λ k k' m m'. c.ids k k' (sub k m) (sub k' m')) c.reserved h in
    record {
      before = g.before;
      saved = g.saved;
      subset = λ k m. sub k (g.subset k m);
      keeps = λ k m b. g.keeps k (delete_v6_leases_by_duid-kept q t.leases k m b) b;
      unreserved = g.unreserved;
      scope = g.scope;
      duid = g.duid;
      iaid = g.iaid;
    }

allocate_v6_lease-V6Grant :
    (q : V6Request) (t : V6Tables) (l : V6Lease) (ls' : List V6Lease)
    → HasV6Constraints t
    → allocate_v6_lease q t ≡ ok (l, ls')
    → V6Grant q t.reservations t.leases l ls'
unfolding allocate_v6_lease
allocate_v6_lease-V6Grant q t l ls' c h =
    elim (Option-cases (get_v6_lease_by_duid t.leases q.scope.id q.duid q.iaid)) [
      | inl missing ↦
          assign_v6-V6Grant q t.reservations none t.leases l ls' c.addresses c.ids c.reserved
            (ground arith)
      | inr (old, found) ↦ elim (Bool-cases (is_kept_v6 q t.reservations old)) [
        | inl kept ↦ renewed_v6_lease-V6Grant q t old l ls' c found kept (ground arith)
        | inr given_up ↦ assign_anew-V6Grant q t (declined_ip_v6 q old) l ls' c (ground arith)
      ]
    ]

-- Under the tables' constraints, a lease that AllocateV6Lease grants belongs to the association
-- asked for; a live lease of another DUID in the scope (active and not expired, offered inside the
-- offer window, or declined inside the quarantine) has another address, and its row stays as it was.
pub allocate_v6_lease-IsHeldFromV6 :
    (q : V6Request) (t : V6Tables) (l : V6Lease) (ls' : List V6Lease) (k : V6Lease)
    → HasV6Constraints t
    → allocate_v6_lease q t ≡ ok (l, ls')
    → Memᴰ k t.leases
    → IsHeldFromV6 q k
    → (l.duid ≡ q.duid) × (l.iaid ≡ q.iaid) × (k.ip_addr ≢ l.ip_addr) × Memᴰ k ls'
allocate_v6_lease-IsHeldFromV6 q t l ls' k c h m b =
    let g = allocate_v6_lease-V6Grant q t l ls' c h in
    let (away, stays) = g.keeps k m b in
    (g.duid, g.iaid, λ e. let here = is_at_v6_of_eq q.scope.id l.ip_addr k b.scope e in cc, stays)

-- Under the tables' constraints, the address that AllocateV6Lease grants is not reserved for another
-- DUID in the scope.
pub allocate_v6_lease-IsReservedFromV6 :
    (q : V6Request) (t : V6Tables) (l : V6Lease) (ls' : List V6Lease) (r : V6Reservation)
    → HasV6Constraints t
    → allocate_v6_lease q t ≡ ok (l, ls')
    → Memᴰ r t.reservations
    → IsReservedFromV6 q r
    → r.ip_addr ≢ l.ip_addr
allocate_v6_lease-IsReservedFromV6 q t l ls' r c h m b =
    (allocate_v6_lease-V6Grant q t l ls' c h).unreserved r m b

-- The lease that AllocateV6Lease returns is in the table: a row of the association has its address,
-- its state and its end, whether the statement inserted that row or overwrote one.
pub allocate_v6_lease-stored :
    (q : V6Request) (t : V6Tables) (l : V6Lease) (ls' : List V6Lease)
    → HasV6Constraints t
    → allocate_v6_lease q t ≡ ok (l, ls')
    → (r : V6Lease) × Memᴰ r ls'
      × (r.scope_id ≡ q.scope.id)
      × (r.duid ≡ q.duid)
      × (r.iaid ≡ q.iaid)
      × (r.ip_addr ≡ l.ip_addr)
      × (r.state ≡ l.state)
      × (r.ends_at ≡ l.ends_at)
allocate_v6_lease-stored q t l ls' c h =
    let g = allocate_v6_lease-V6Grant q t l ls' c h in
    let (r, m, s, a, duid, iaid, state, ends) = save_v6_lease-stored l g.before ls' g.saved in
    (r, m, s ∙ g.scope, duid ∙ g.duid, iaid ∙ g.iaid, a, state, ends)
