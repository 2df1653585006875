-- ===== src/Dhcp4/Packet.antt =====
-- internal/dhcp/packet.go: the BOOTP header, ParsePacket, Marshal and ReplyFromRequest.
pub mod Layout
pub mod RoundTrip
pub mod Parse
use dhcp_server.Base.{ℕ, ◌+◌, ◌-◌, ◌%◌, Bool, true, false, not}
use dhcp_server.Base.{List, [], ◌∷◌, ◌++◌, Option, none, some}
use dhcp_server.Base.{ltb, ◌==◌, if◌then◌else◌, length, take, drop, replicate}
use dhcp_server.Base.Outcome.{Outcome, ok, err, panic, stuck, ◌>>=◌}
use dhcp_server.Base.Wire.{Bytes, u16, u32, be16_at, be32_at, byte_at, slice}
use dhcp_server.Net.{to4, bytes_equal, copy_zeroed, ipv4_zero}
use dhcp_server.Dhcp4.Options.{Options, Error, too_short, bad_magic_cookie, missing_message_type}
use dhcp_server.Dhcp4.Options.{message_type, set_message_type, set, parse, marshal_options}

abbrev pub boot_reply : ℕ
boot_reply = 2

abbrev pub magic_cookie : Bytes
magic_cookie = 99 ∷ 130 ∷ 83 ∷ 99 ∷ []

-- The `Packet` of RFC 2131. SName and File are arrays of 64 and 128 bytes; BootFile is a string.
pub record Packet : Type 0 where
  pub op : ℕ
  pub htype : ℕ
  pub hlen : ℕ
  pub hops : ℕ
  pub xid : ℕ
  pub secs : ℕ
  pub flags : ℕ
  pub ciaddr : Bytes
  pub yiaddr : Bytes
  pub siaddr : Bytes
  pub giaddr : Bytes
  pub chaddr : Bytes
  pub sname : Bytes
  pub file : Bytes
  pub options : Options
  pub boot_file : Bytes
  pub if_index : ℕ

-- At most 16 bytes of hardware address.
pub capped : ℕ → ℕ
capped n = if ltb 16 n then 16 else n

-- The packet that ParsePacket builds from a datagram of 240 bytes or more and its options.
pub header_of : Bytes → Options → Packet
unfolding capped
header_of input options = record {
  op = byte_at input 0;
  htype = byte_at input 1;
  hlen = byte_at input 2;
  hops = byte_at input 3;
  xid = be32_at input 4;
  secs = be16_at input 8;
  flags = be16_at input 10;
  ciaddr = slice 12 16 input;
  yiaddr = slice 16 20 input;
  siaddr = slice 20 24 input;
  giaddr = slice 24 28 input;
  chaddr = take (capped (byte_at input 2)) (drop 28 input);
  sname = slice 44 108 input;
  file = slice 108 236 input;
  options = options;
  boot_file = [];
  if_index = 0;
}

unfoldable pub parse_packet : Bytes → Outcome Error Packet
unfolding header_of bytes_equal
parse_packet input =
    if ltb (length input) 240
    then err too_short
    else if not (bytes_equal (slice 236 240 input) magic_cookie)
    then err bad_magic_cookie
    else parse (drop 240 input) >>= λ options.
        (if message_type options == 0
          then err missing_message_type
          else ok (header_of input options))

-- `copy(buf[i:i+4], ip.To4())`: four zero bytes stay where To4 is nil.
pub address_field : Bytes → Bytes
unfolding to4
address_field ip = elim (to4 ip) [ none ↦ 0 ∷ 0 ∷ 0 ∷ 0 ∷ [] | some v4 ↦ copy_zeroed 4 v4 ]

-- The 240 bytes in front of the options.
pub marshal_header : Packet → Bytes
unfolding address_field
marshal_header p =
    p.op
    ∷ p.htype
    ∷ p.hlen
    ∷ p.hops
    ∷ (u32 p.xid
        ++ (u16 p.secs
            ++ (u16 p.flags
                ++ (address_field p.ciaddr
                    ++ (address_field p.yiaddr
                        ++ (address_field p.siaddr
                            ++ (address_field p.giaddr
                                ++ (copy_zeroed 16 p.chaddr
                                    ++ (copy_zeroed 64 p.sname
                                        ++ (copy_zeroed 128 p.file ++ magic_cookie))))))))))

-- Zero bytes up to the smallest BOOTP packet.
pub pad_to_300 : Bytes → Bytes
pad_to_300 out = if ltb (length out) 300 then out ++ replicate (300 - length out) 0 else out

unfoldable pub marshal : Packet → Bytes
unfolding marshal_header marshal_options pad_to_300
marshal p = pad_to_300 (marshal_header p ++ marshal_options p.options)

-- The zero value of SName and File is all zero bytes; YIAddr and SIAddr stay nil.
unfoldable pub reply_from_request : Packet → ℕ → Packet
unfolding set_message_type
reply_from_request req msg_type = record {
  op = boot_reply;
  htype = req.htype;
  hlen = req.hlen;
  hops = 0;
  xid = req.xid;
  secs = 0;
  flags = req.flags;
  ciaddr = req.ciaddr;
  yiaddr = [];
  siaddr = [];
  giaddr = req.giaddr;
  chaddr = req.chaddr;
  sname = replicate 64 0;
  file = replicate 128 0;
  options = set_message_type [] msg_type;
  boot_file = [];
  if_index = req.if_index;
}

-- AppendOption.
unfoldable pub append_option : Packet → ℕ → Option Bytes → Packet
append_option p code value = record p { options = set p.options code value }
