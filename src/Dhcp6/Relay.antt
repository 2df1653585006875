-- ===== src/Dhcp6/Relay.antt =====
-- internal/dhcpv6/server.go: how handleRelayForward takes the layers of a relayed message off, and
-- how sendReply puts them back on around the reply.
pub mod Unwrap
pub mod Echo
use dhcp_server.Base.{ℕ, zero, suc, ◌+◌, List, [], ◌∷◌, ◌++◌, Option, none, some, length}
use dhcp_server.Base.Outcome.{Outcome, ok, err, stuck, ◌>>=◌}
use dhcp_server.Base.Wire.{Bytes}
use dhcp_server.Dhcp6.Packet.{Options, Packet, RelayPacket, Error, Inner, client, relayed}
use dhcp_server.Dhcp6.Packet.{add, marshal, marshal_relay, parse_relay_packet, get_relay_msg}
use dhcp_server.Dhcp6.Packet.{interface_id, copy_relay_options, opt_relay_msg, msg_type_relay_repl}

pub record RelayHop : Type 0 where
  pub hop_count : ℕ
  pub link_addr : Bytes
  pub peer_addr : Bytes
  pub options : Options

-- `net.UDPAddr`, without the zone.
pub record UdpAddr : Type 0 where
  pub ip : Bytes
  pub port : ℕ

pub record RelayContext : Type 0 where
  pub hop_count : ℕ
  pub link_addr : Bytes
  pub peer_addr : Bytes
  pub interface_id' : Option Bytes
  pub relay_addr : UdpAddr
  pub relay_options : Options
  pub hops : List RelayHop

pub hop_of : RelayPacket → RelayHop
hop_of rp = record {
  hop_count = rp.hop_count;
  link_addr = rp.link_addr;
  peer_addr = rp.peer_addr;
  options = copy_relay_options rp.options;
}

-- `relay.interfaceID` is overwritten only by a layer that has the option.
keep_interface_id : Option Bytes → Option Bytes → Option Bytes
keep_interface_id old none = old
keep_interface_id old (some i) = some i

-- The context after the outermost layer.
outer_context : RelayPacket → UdpAddr → RelayContext
outer_context rp addr = record {
  hop_count = rp.hop_count;
  link_addr = rp.link_addr;
  peer_addr = rp.peer_addr;
  interface_id' = interface_id rp.options;
  relay_addr = addr;
  relay_options = copy_relay_options rp.options;
  hops = hop_of rp ∷ [];
}

-- One round of `for innerRelay != nil`, before its GetRelayMsg.
enter_layer : RelayContext → RelayPacket → RelayContext
enter_layer relay rp = record relay {
  hop_count = rp.hop_count;
  link_addr = rp.link_addr;
  peer_addr = rp.peer_addr;
  interface_id' = keep_interface_id relay.interface_id' (interface_id rp.options);
  relay_options = copy_relay_options rp.options;
  hops = relay.hops ++ (hop_of rp ∷ []);
}

-- The loop, on fuel. The inner message comes first, for the recursion.
unwrap : ℕ → RelayContext → Inner → Outcome Error (Packet × RelayContext)
unwrap fuel relay (client p) = ok (p, relay)
unwrap zero relay (relayed rp) = stuck
unwrap (suc fuel) relay (relayed rp) =
    get_relay_msg rp.options >>= unwrap fuel (enter_layer relay rp)

-- handleRelayForward up to the dispatch on the inner message's type. Each layer takes 34 bytes at
-- least, so the length of the datagram is fuel enough.
pub unwrap_relay_forward : Bytes → UdpAddr → Outcome Error (Packet × RelayContext)
unfolding unwrap outer_context enter_layer hop_of keep_interface_id
unwrap_relay_forward input addr = parse_relay_packet input >>= λ rp.
    get_relay_msg rp.options >>= unwrap (length input) (outer_context rp addr)

-- The Relay-Reply of one layer around `input`.
unfoldable pub layer_reply : RelayHop → Bytes → RelayPacket
layer_reply h input = record {
  message_type = msg_type_relay_repl;
  hop_count = h.hop_count;
  link_addr = h.link_addr;
  peer_addr = h.peer_addr;
  options = add h.options opt_relay_msg input;
}

-- `for i := len(hops) - 1; i >= 0; i--`: the innermost layer is the last hop.
unfoldable pub wrap_hops : List RelayHop → Bytes → Bytes
wrap_hops [] input = input
wrap_hops (h ∷ hs) input = marshal_relay (layer_reply h (wrap_hops hs input))

-- `hops` of sendReply, with the fallback for a context that recorded none.
context_hops : RelayContext → List RelayHop → List RelayHop
context_hops relay [] =
    record {
      hop_count = relay.hop_count;
      link_addr = relay.link_addr;
      peer_addr = relay.peer_addr;
      options = relay.relay_options;
    }
    ∷ []
context_hops relay (h ∷ hs) = h ∷ hs

-- The datagram that sendReply writes, and where it goes.
pub send_reply : Packet → UdpAddr → Option RelayContext → Bytes × UdpAddr
unfolding wrap_hops layer_reply context_hops
send_reply reply addr none = (marshal reply, record { ip = addr.ip; port = 546 })
send_reply reply addr (some relay) = (
  wrap_hops (context_hops relay relay.hops) (marshal reply),
  record { ip = relay.relay_addr.ip; port = 547 },
)
