-- ===== src/Dhcp4/Server.antt =====
-- internal/dhcp/server.go: the match of a scope, and what handleRequest, handleRelease and
-- handleDecline do to the leases. The text of a hardware address, a client identifier and a host
-- name is a number, as in the store; errors of the database are not modelled.
pub mod Match
pub mod Request
pub mod Release
pub mod Discover
pub mod Reply
pub mod Offer
pub mod Destination
pub mod Dispatch
use dhcp_server.Base.{
  ℕ, ◌+◌, ◌*◌, ltb, leb, ◌==◌, not, ◌&&◌, ◌||◌, Bool, true, false, if◌then◌else◌,
}
use dhcp_server.Base.{List, [], ◌∷◌, map, Option, none, some, length}
use dhcp_server.Base.Outcome.{ok}
use dhcp_server.Base.Rows.{any, reject}
use dhcp_server.Base.Wire.{Bytes, be32_at}
use dhcp_server.Net.{to4, ip_equal, ipv4_zero}
use dhcp_server.Dhcp4.Options.{get, server_id, requested_ip}
use dhcp_server.Dhcp4.Packet.{Packet}
use dhcp_server.Store.{
  Lease, LeaseState, Scope, IpNet, active, released, declined, is_active, is_offered, contains,
}
use dhcp_server.Store.Table.{is_at, is_of, get_reservation_by_mac}
use dhcp_server.Store.Lifecycle.{update_lease_state_by_mac_ip, update_lease_state}
use dhcp_server.Store.Allocate as Allocate
use dhcp_server.Store.Allocate.{Tables, allocate_v4_lease, or_default}

abbrev pub opt_ip_address_lease_time : ℕ
opt_ip_address_lease_time = 51

-- A scope, as the server has loaded it.
pub record ServerScope : Type 0 where
  pub enabled : Bool
  pub lease_time : ℕ
  pub max_lease_time : ℕ
  pub scope : Scope

unfoldable pub normalize_ip : Bytes → Bytes
normalize_ip ip = elim (to4 ip) [ none ↦ ip | some v4 ↦ v4 ]

unfoldable pub ip_to_uint32 : Bytes → ℕ
ip_to_uint32 ip = be32_at (normalize_ip ip) 0

-- One round of the loop over the scopes; `local` is the address of the local subnet.
unfoldable pub is_candidate : (giaddr ciaddr local : ℕ) → ServerScope → Bool
is_candidate giaddr ciaddr local sc =
    sc.enabled
    && ((contains sc.scope.subnet giaddr && not (giaddr == 0))
        || ((contains sc.scope.subnet ciaddr && not (ciaddr == 0))
            || ((giaddr == 0 && ciaddr == 0) && contains sc.scope.subnet local)))

-- `Mask.Size()`.
unfoldable pub mask_size : ServerScope → ℕ
mask_size sc = elim sc.scope.subnet [ none ↦ 0 | some net ↦ net.ones ]

unfoldable pub most_specific : ServerScope → List ServerScope → ServerScope
most_specific best [] = best
most_specific best (sc ∷ scs) =
    most_specific
      (if ltb 0 (mask_size best) && ltb (mask_size best) (mask_size sc) then sc else best) scs

unfoldable pub match_scope : (giaddr ciaddr local : ℕ) → List ServerScope → Option ServerScope
match_scope giaddr ciaddr local scopes =
    elim (reject (λ sc. not (is_candidate giaddr ciaddr local sc)) scopes) [
      | [] ↦ none
      | sc ∷ scs ↦ some (most_specific sc scs)
    ]

-- The leases after handleRelease.
unfoldable pub handle_release :
    (local mac now : ℕ) → List ServerScope → Packet → List Lease → List Lease
handle_release local mac now scopes req ls =
    elim (match_scope (ip_to_uint32 req.giaddr) (ip_to_uint32 req.ciaddr) local scopes) [
      | none ↦ ls
      | some sc ↦
          if length req.ciaddr == 0 || ip_equal (normalize_ip req.ciaddr) ipv4_zero
          then ls
          else update_lease_state_by_mac_ip sc.scope.id mac (ip_to_uint32 req.ciaddr) released now
              ls
    ]

unfoldable pub declined_address : Packet → Bytes
declined_address req = elim (requested_ip req.options) [
  | none ↦ normalize_ip req.ciaddr
  | some ip ↦ normalize_ip ip
]

-- The leases after handleDecline.
unfoldable pub handle_decline :
    (local mac now : ℕ) → List ServerScope → Packet → List Lease → List Lease
handle_decline local mac now scopes req ls =
    elim (match_scope (ip_to_uint32 req.giaddr) (ip_to_uint32 req.ciaddr) local scopes) [
      | none ↦ ls
      | some sc ↦
          if length (declined_address req) == 0 || ip_equal (declined_address req) ipv4_zero
          then ls
          else update_lease_state_by_mac_ip sc.scope.id mac (ip_to_uint32 (declined_address req))
              declined now ls
    ]

-- The reasons of the NAKs.
pub data NakReason : Type 0 where
  mac_blacklisted : NakReason
  no_scope : NakReason
  scope_disabled : NakReason
  requested_ip_mismatch_reservation : NakReason
  ip_out_of_subnet : NakReason
  ip_unavailable : NakReason
  requested_ip_unavailable : NakReason

pub data Answer : Type 0 where
  silent : Answer
  nak : NakReason → Answer
  ack : Lease → Answer

-- `requestedIP` after its default and normalizeIP; the empty list is nil.
unfoldable pub requested_address : Packet → Bytes
requested_address req = elim (requested_ip req.options) [
  | none ↦ normalize_ip req.ciaddr
  | some ip ↦ normalize_ip ip
]

-- The client may ask for a shorter time.
unfoldable pub wanted_lease_time : Packet → ℕ → ℕ
wanted_lease_time req lease_time = elim (get req.options opt_ip_address_lease_time) [
  | none ↦ lease_time
  | some v ↦
      if length v == 4 && (ltb 0 (be32_at v 0) && ltb (be32_at v 0) lease_time)
      then be32_at v 0
      else lease_time
]

-- The server identifier of the request, if it has one, is ours.
unfoldable pub is_for_us : (our_id : Bytes) → Packet → Bool
is_for_us our_id req = elim (server_id req.options) [ none ↦ true | some id ↦ ip_equal id our_id ]

-- The arguments of a call that do not stand in the packet.
pub record Env : Type 0 where
  pub our_id : Bytes
  pub is_blacklisted : Bool
  pub local : ℕ
  pub scopes : List ServerScope
  pub mac : ℕ
  pub client_id : ℕ
  pub hostname : ℕ
  pub now : ℕ
  pub new_id : ℕ
  pub fuel : ℕ

unfoldable pub allocation : Env → Packet → ServerScope → Allocate.Request
allocation env req sc = record {
  scope = sc.scope;
  mac = env.mac;
  client_id = env.client_id;
  preferred =
      if length (requested_address req) == 0
      then none
      else some (ip_to_uint32 (requested_address req));
  hostname = env.hostname;
  lease_time =
      let t = wanted_lease_time req (or_default sc.lease_time 3600) in
      let m = or_default sc.max_lease_time 86400 in if ltb m t then m else t;
  max_lease_time = or_default sc.max_lease_time 86400;
  now = env.now;
  new_id = env.new_id;
  fuel = env.fuel;
}

-- The reservation of the client is for another address than the requested one.
unfoldable pub mismatches_reservation : Env → Packet → ServerScope → Tables → Bool
mismatches_reservation env req sc t =
    elim (get_reservation_by_mac t.reservations sc.scope.id env.mac) [
      | none ↦ false
      | some r ↦
          not (length (requested_address req) == 0)
          && not (ip_to_uint32 (requested_address req) == r.ip_addr)
    ]

-- From the allocation on.
unfoldable pub confirm : Env → Packet → ServerScope → Tables → Answer × List Lease
confirm env req sc t = elim (allocate_v4_lease (allocation env req sc) t) [
  | ok (l, ls) ↦
      if not (length (requested_address req) == 0)
        && not (l.ip_addr == ip_to_uint32 (requested_address req))
      then (nak requested_ip_unavailable, ls)
      else (ack l, update_lease_state l.id active env.now ls)
  | _ ↦ (nak ip_unavailable, t.leases)
]

-- The guards behind matchScope.
unfoldable pub serve_match : Env → Packet → Tables → Option ServerScope → Answer × List Lease
serve_match env req t none = (nak no_scope, t.leases)
serve_match env req t (some sc) =
    if not sc.enabled
    then (nak scope_disabled, t.leases)
    else if mismatches_reservation env req sc t
    then (nak requested_ip_mismatch_reservation, t.leases)
    else if not (length (requested_address req) == 0)
        && not (contains sc.scope.subnet (ip_to_uint32 (requested_address req)))
    then (nak ip_out_of_subnet, t.leases)
    else confirm env req sc t

unfoldable pub handle_request : Env → Packet → Tables → Answer × List Lease
handle_request env req t =
    if not (is_for_us env.our_id req)
    then (silent, t.leases)
    else if env.is_blacklisted
    then (nak mac_blacklisted, t.leases)
    else serve_match env req t
        (match_scope (ip_to_uint32 req.giaddr) (ip_to_uint32 req.ciaddr) env.local env.scopes)
