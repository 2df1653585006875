-- ===== src/Dhcp4/Server/Offer.antt =====
-- internal/dhcp/server.go: processDiscover, up to the reply. A node of a cluster can be told to wait
-- before it answers: `t` are the tables before the wait and `later` those after it; it can be cancelled.
pub mod Safe
use dhcp_server.Base.{ℕ, Bool, true, false, ◌&&◌, ◌||◌, Option, none, some, List, if◌then◌else◌}
use dhcp_server.Base.Outcome.{Outcome, ok}
use dhcp_server.Dhcp4.Options.{requested_ip}
use dhcp_server.Dhcp4.Packet.{Packet}
use dhcp_server.Dhcp4.Server.{Env, ServerScope, match_scope, ip_to_uint32}
use dhcp_server.Store.{Lease, is_active, is_offered}
use dhcp_server.Store.Table.{get_lease_by_mac}
use dhcp_server.Store.Allocate as Allocate
use dhcp_server.Store.Allocate.{Tables, allocate_v4_lease, or_default}

-- The lease that is offered, and the lease time that applyOptions writes into the reply.
pub record Offer : Type 0 where
  pub lease : Lease
  pub lease_time : ℕ

-- The arguments of AllocateV4Lease.
unfoldable pub discover_allocation : Env → Packet → ServerScope → Allocate.Request
discover_allocation env req sc = record {
  scope = sc.scope;
  mac = env.mac;
  client_id = env.client_id;
  preferred = elim (requested_ip req.options) [ none ↦ none | some a ↦ some (ip_to_uint32 a) ];
  hostname = env.hostname;
  lease_time = or_default sc.lease_time 3600;
  max_lease_time = or_default sc.max_lease_time 86400;
  now = env.now;
  new_id = env.new_id;
  fuel = env.fuel;
}

-- A peer has offered or activated a lease for the client.
unfoldable pub is_served : List Lease → (scope_id mac : ℕ) → Bool
is_served ls s mac = elim (get_lease_by_mac ls s mac) [
  | none ↦ false
  | some l ↦ is_active l.state || is_offered l.state
]

-- What is made of the result of AllocateV4Lease: a failure is logged and not answered.
unfoldable pub offer_of :
    Allocate.Result → (lease_time : ℕ) → (before : List Lease) → Option Offer × List Lease
offer_of (ok (l, ls)) lease_time before = (some (record { lease = l; lease_time = lease_time }), ls)
offer_of _ lease_time before = (none, before)

unfoldable pub offer : Env → Packet → ServerScope → Tables → Option Offer × List Lease
offer env req sc t =
    offer_of (allocate_v4_lease (discover_allocation env req sc) t) (or_default sc.lease_time 3600)
      t.leases

-- The guards behind matchScope.
unfoldable pub serve_discover :
    Env
    → (waits cancelled : Bool) → Packet
    → (t later : Tables) → Option ServerScope
    → Option Offer × List Lease
serve_discover env waits cancelled req t later none = (none, later.leases)
serve_discover env waits cancelled req t later (some sc) =
    if sc.enabled
    then if waits
        && (is_served t.leases sc.scope.id env.mac
            || (cancelled || is_served later.leases sc.scope.id env.mac))
      then (none, later.leases)
      else offer env req sc later
    else (none, later.leases)

unfoldable pub process_discover :
    Env → (waits cancelled : Bool) → Packet → (t later : Tables) → Option Offer × List Lease
process_discover env waits cancelled req t later =
    serve_discover env waits cancelled req t later
      (match_scope (ip_to_uint32 req.giaddr) (ip_to_uint32 req.ciaddr) env.local env.scopes)
