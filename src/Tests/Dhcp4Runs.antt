-- ===== src/Tests/Dhcp4Runs.antt =====
-- DHCPv4 packets and options at concrete inputs.
use dhcp_server.Base.{◌≡◌, refl, arith, [], ◌∷◌, ◌++◌}
use dhcp_server.Base.{replicate, drop}
use dhcp_server.Base.Outcome.{ok}
use dhcp_server.Base.Wire.{Bytes}
use dhcp_server.Dhcp4.Options.{Options, message_type, get, parse, marshal_options}
use dhcp_server.Dhcp4.Options.RoundTrip.{parse-marshal_options}
use dhcp_server.Dhcp4.Options.Long.{parse-marshal_options_long}
use dhcp_server.Dhcp4.Packet.{Packet, parse_packet, marshal}
use dhcp_server.Dhcp4.Packet.RoundTrip.{IsWire, parse_packet-marshal_v4}

abbrev discover_options : Options
discover_options = (53, 1 ∷ []) ∷ (12, b'p' ∷ b'c' ∷ []) ∷ []

abbrev no_address : Bytes
no_address = 0 ∷ 0 ∷ 0 ∷ 0 ∷ []

abbrev discover : Packet
discover = record {
  op = 1;
  htype = 1;
  hlen = 6;
  hops = 0;
  xid = 0x1234_5678;
  secs = 3;
  flags = 0x8000;
  ciaddr = no_address;
  yiaddr = no_address;
  siaddr = no_address;
  giaddr = 10 ∷ 0 ∷ 0 ∷ 1 ∷ [];
  chaddr = 2 ∷ 0 ∷ 0 ∷ 0 ∷ 0 ∷ 9 ∷ [];
  sname = replicate 64 0;
  file = replicate 128 0;
  options = discover_options;
  boot_file = [];
  if_index = 0;
}

discover-IsWire : IsWire discover
unfolding message_type get
discover-IsWire = record {
  xid_fits = omega arith;
  secs_fits = omega arith;
  flags_fits = omega arith;
  ciaddr_is_v4 = refl;
  yiaddr_is_v4 = refl;
  siaddr_is_v4 = refl;
  giaddr_is_v4 = refl;
  hlen_fits = omega arith;
  chaddr_is_hlen = refl;
  sname_is_64 = refl;
  file_is_128 = refl;
  options_fit = omega arith;
  options_map = omega arith;
  has_message_type = omega arith;
}

-- A NAK.
abbrev refusal_reply : Packet
refusal_reply = record discover { op = 2; options = (53, 6 ∷ []) ∷ [] }

parse_packet-marshal_v4_example : parse_packet (marshal discover) ≡ ok discover
parse_packet-marshal_v4_example = parse_packet-marshal_v4 discover discover-IsWire

parse-marshal_options_example :
    parse (marshal_options discover_options ++ replicate 3 0) ≡ ok discover_options
parse-marshal_options_example =
    parse-marshal_options discover_options (replicate 3 0) (omega arith) (omega arith)

parse-marshal_options_long_example :
    parse (marshal_options ((43, replicate 300 7) ∷ []))
    ≡ ok ((43, drop 255 (replicate 300 7)) ∷ [])
parse-marshal_options_long_example =
    parse-marshal_options_long 43 (replicate 300 7) (omega arith) (omega arith) (omega arith)
      (omega arith)
