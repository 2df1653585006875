-- ===== src/Dhcp6/Relay/Unwrap.antt =====
-- The relay loop ends on every datagram.
use dhcp_server.Base.{ℕ, zero, suc, ◌≤◌, ◌≢◌, arith}
use dhcp_server.Base.{length}
use dhcp_server.Base.Outcome.{stuck, bind-ne-stuck}
use dhcp_server.Base.Wire.{Bytes}
use dhcp_server.Dhcp6.Packet.{Inner, client, relayed}
use dhcp_server.Dhcp6.Packet.{parse_relay_packet, get_relay_msg}
use dhcp_server.Dhcp6.Packet.Layers.{parse_relay_packet-wire_length, parse_relay_packet-ne-stuck}
use dhcp_server.Dhcp6.Packet.Layers.{inner_size, get_relay_msg-size, get_relay_msg-ne-stuck}
use dhcp_server.Dhcp6.Relay.{RelayContext, UdpAddr, outer_context, enter_layer, unwrap}
use dhcp_server.Dhcp6.Relay.{unwrap_relay_forward}

unwrap-ne-stuck :
    (fuel : ℕ) (relay : RelayContext) (inner : Inner)
    → inner_size inner ≤ fuel
    → unwrap fuel relay inner ≢ stuck
unfolding unwrap
unwrap-ne-stuck zero relay (client p) h = λ q. cc
unwrap-ne-stuck (suc fuel) relay (client p) h = λ q. cc
unwrap-ne-stuck zero relay (relayed rp) h = absurd (omega arith)
unwrap-ne-stuck (suc fuel) relay (relayed rp) h =
    bind-ne-stuck (get_relay_msg rp.options) (unwrap fuel (enter_layer relay rp))
      (get_relay_msg-ne-stuck rp.options)
      (λ inner e.
        unwrap-ne-stuck fuel (enter_layer relay rp) inner
          (omega (arith, get_relay_msg-size rp.options inner e)))

-- handleRelayForward comes to an end on every datagram, however the relay layers are nested: it
-- never runs out of the fuel that it is given.
pub unwrap_relay_forward-ne-stuck :
    (input : Bytes) (addr : UdpAddr) → unwrap_relay_forward input addr ≢ stuck
unfolding unwrap_relay_forward
unwrap_relay_forward-ne-stuck input addr =
    bind-ne-stuck (parse_relay_packet input) _ (parse_relay_packet-ne-stuck input) (λ rp e.
      bind-ne-stuck (get_relay_msg rp.options) (unwrap (length input) (outer_context rp addr))
        (get_relay_msg-ne-stuck rp.options)
        (λ inner f. unwrap-ne-stuck (length input) (outer_context rp addr) inner (
          omega (
            arith,
            get_relay_msg-size rp.options inner f,
            parse_relay_packet-wire_length input rp e,
          ))))
