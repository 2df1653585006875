-- ===== src/Tests/Dhcp6Runs.antt =====
-- DHCPv6 messages, relay layers and identity associations at concrete inputs.
use dhcp_server.Base.{ℕ, ◌≡◌, ◌≢◌, refl, arith, [], ◌∷◌, ◌++◌, none, some}
use dhcp_server.Base.{replicate}
use dhcp_server.Base.Outcome.{ok, panic, stuck}
use dhcp_server.Base.Wire.{Bytes}
use dhcp_server.Dhcp6.Packet.{Opt, Packet, RelayPacket, marshal, parse_packet}
use dhcp_server.Dhcp6.Packet.{marshal_relay, marshal_options}
use dhcp_server.Dhcp6.Packet.{marshal_option, get, add}
use dhcp_server.Dhcp6.Packet.Panic.{parse_packet_panic}
use dhcp_server.Dhcp6.Packet.RoundTrip.{parse_packet-marshal}
use dhcp_server.Dhcp6.Relay.{RelayHop, RelayContext, UdpAddr, unwrap_relay_forward, send_reply}
use dhcp_server.Dhcp6.Relay.{wrap_hops, layer_reply}
use dhcp_server.Dhcp6.Relay.Unwrap.{unwrap_relay_forward-ne-stuck}
use dhcp_server.Dhcp6.Relay.Echo.{unwrap_relay_forward-send_reply}
use dhcp_server.Dhcp6.Ia.{build_iana}
use dhcp_server.Dhcp6.Ia.{extract_requested_ip, get_iana_or_iata}
use dhcp_server.Dhcp6.Ia.Lookup.{extract_requested_ip_hangs}

-- fe80::1.
abbrev address : Bytes
address = 0xfe ∷ 0x80 ∷ 0 ∷ 0 ∷ 0 ∷ 0 ∷ 0 ∷ 0 ∷ 0 ∷ 0 ∷ 0 ∷ 0 ∷ 0 ∷ 0 ∷ 0 ∷ 1 ∷ []

abbrev client_id : Opt
client_id = record { code = 1; value = 0 ∷ 3 ∷ 0 ∷ 1 ∷ 7 ∷ [] }

-- A Solicit with a Client Identifier.
abbrev solicit : Packet
solicit = record {
  message_type = 1;
  trans_id_0 = 10;
  trans_id_1 = 20;
  trans_id_2 = 30;
  options = client_id ∷ [];
}

abbrev relay_packet : RelayPacket
relay_packet = record {
  message_type = 12;
  hop_count = 1;
  link_addr = address;
  peer_addr = address;
  options = client_id ∷ [];
}

parse_solicit :
    parse_packet (1 ∷ 10 ∷ 20 ∷ 30 ∷ 0 ∷ 1 ∷ 0 ∷ 5 ∷ 0 ∷ 3 ∷ 0 ∷ 1 ∷ 7 ∷ []) ≡ ok solicit
unfolding parse_packet
parse_solicit = refl

parse_packet-marshal_example : parse_packet (marshal solicit) ≡ ok solicit
parse_packet-marshal_example =
    parse_packet-marshal solicit (omega arith) (omega arith) (omega arith)

-- Eight bytes that end the handler.
parse_packet_panic_example : parse_packet (1 ∷ 0 ∷ 0 ∷ 0 ∷ 0 ∷ 1 ∷ 255 ∷ 255 ∷ []) ≡ panic
parse_packet_panic_example =
    parse_packet_panic 1 0 0 0 0 1 255 255 [] (omega arith) (omega arith) (omega arith)
      (omega arith)

abbrev relay_agent : UdpAddr
relay_agent = record { ip = address; port = 547 }

abbrev hop : ℕ → RelayHop
hop n = record {
  hop_count = n;
  link_addr = address;
  peer_addr = address;
  options = record { code = 18; value = n ∷ [] } ∷ [];
}

-- A client behind two relays.
abbrev two_relays : RelayContext
two_relays = record {
  hop_count = 0;
  link_addr = address;
  peer_addr = address;
  interface_id' = none;
  relay_addr = relay_agent;
  relay_options = [];
  hops = hop 1 ∷ hop 0 ∷ [];
}

unwrap_relay_forward-ne-stuck_example : unwrap_relay_forward (marshal solicit) relay_agent ≢ stuck
unwrap_relay_forward-ne-stuck_example = unwrap_relay_forward-ne-stuck (marshal solicit) relay_agent

unwrap_relay_forward-send_reply_example :
    (c : RelayContext) × (unwrap_relay_forward
        (send_reply solicit relay_agent (some two_relays)).0
        relay_agent
      ≡ ok (solicit, c))
    × (c.hops ≡ two_relays.hops)
unfolding wrap_hops layer_reply marshal_relay marshal_options marshal_option marshal add get
unwrap_relay_forward-send_reply_example =
    unwrap_relay_forward-send_reply solicit (omega arith) (omega arith) (omega arith) two_relays
      (hop 1) (hop 0 ∷ []) relay_agent relay_agent refl
      (
        record {
          link_is_v6 = refl;
          peer_is_v6 = refl;
          options_fit = omega arith;
          no_relay_msg = refl;
          input_fits = omega arith;
        },
        (
          record {
            link_is_v6 = refl;
            peer_is_v6 = refl;
            options_fit = omega arith;
            no_relay_msg = refl;
            input_fits = omega arith;
          },
          tt,
        ),
      )

-- An IA_NA for IAID 7 with one address.
abbrev ia_address : Opt
ia_address = record { code = 5; value = address ++ replicate 8 0 }

abbrev iana : Opt
iana = record { code = 3; value = build_iana 7 0 0 (ia_address ∷ []) }

abbrev request : Packet
request = record {
  message_type = 3;
  trans_id_0 = 1;
  trans_id_1 = 2;
  trans_id_2 = 3;
  options = iana ∷ [];
}

-- The IA_NA that stops the server: an option header of code 6 and length 65532.
abbrev endless : Opt
endless = record {
  code = 3;
  value = 0 ∷ 0 ∷ 0 ∷ 7 ∷ 0 ∷ 0 ∷ 0 ∷ 0 ∷ 0 ∷ 0 ∷ 0 ∷ 0 ∷ 0 ∷ 6 ∷ 255 ∷ 252 ∷ [];
}

extract_requested_ip_hangs_example :
    extract_requested_ip 100 [] (record request { options = endless ∷ [] }) 7 ≡ stuck
unfolding get_iana_or_iata get
extract_requested_ip_hangs_example =
    extract_requested_ip_hangs 100 [] (record request { options = endless ∷ [] }) endless 0 6 255
      252 [] refl refl (omega arith) refl
