-- ===== src/Dhcp4/Packet/RoundTrip.antt =====
-- ParsePacket reads back what Marshal wrote.
use dhcp_server.Base.{ℕ, ◌-◌, ◌^◌, ◌≤◌, ◌<◌, ◌≡◌, ◌≢◌, refl, ap, ◌∙◌, arith}
use dhcp_server.Base.{[], ◌++◌, append_assoc, All, ltb, le→ltb}
use dhcp_server.Base.{Bool-cases, inl, inr, append-nil, length-drop, length-replicate, ==_false}
use dhcp_server.Base.{length, length-append, take, drop, replicate, take-append_le}
use dhcp_server.Base.Outcome.{ok}
use dhcp_server.Base.Wire.{Bytes, be16-u16, be32-u32, slice}
use dhcp_server.Net.{copy_zeroed, length-copy_zeroed, copy_zeroed_full}
use dhcp_server.Net.{take-copy_zeroed, to4_of_length}
use dhcp_server.Dhcp4.Options.{message_type, parse, marshal_options}
use dhcp_server.Dhcp4.Options.Map.{IsMap}
use dhcp_server.Dhcp4.Options.RoundTrip.{FitsWire, parse-marshal_options}
use dhcp_server.Dhcp4.Packet.{Packet, magic_cookie, capped, header_of, parse_packet, address_field}
use dhcp_server.Dhcp4.Packet.{marshal_header, pad_to_300, marshal}
use dhcp_server.Dhcp4.Packet.Layout.{skip_field, take_field}

-- A packet that the wire can carry: numbers in the range of their fields, addresses of four bytes,
-- as many bytes of hardware address as HLen says, and options that fit.
pub record IsWire (p : Packet) : Type 0 where
  pub xid_fits : p.xid < 2 ^ 32
  pub secs_fits : p.secs < 2 ^ 16
  pub flags_fits : p.flags < 2 ^ 16
  pub ciaddr_is_v4 : length p.ciaddr ≡ 4
  pub yiaddr_is_v4 : length p.yiaddr ≡ 4
  pub siaddr_is_v4 : length p.siaddr ≡ 4
  pub giaddr_is_v4 : length p.giaddr ≡ 4
  pub hlen_fits : p.hlen ≤ 16
  pub chaddr_is_hlen : length p.chaddr ≡ p.hlen
  pub sname_is_64 : length p.sname ≡ 64
  pub file_is_128 : length p.file ≡ 128
  pub options_fit : All FitsWire p.options
  pub options_map : IsMap p.options
  pub has_message_type : message_type p.options ≢ 0

address_field_v4 : (ip : Bytes) → length ip ≡ 4 → address_field ip ≡ ip
unfolding address_field
address_field_v4 ip h = rw (to4_of_length ip h, address_field, copy_zeroed_full 4 ip h)

module _ (p : Packet) (w : IsWire p) (tail : Bytes) where
  abbrev ch : Bytes
  ch = copy_zeroed 16 p.chaddr

  abbrev at_magic : Bytes
  at_magic = magic_cookie ++ tail

  abbrev at_ch : Bytes
  at_ch = ch ++ (p.sname ++ (p.file ++ at_magic))

  abbrev input : Bytes
  input = marshal_header p ++ tail

  at_12 : drop 12 input ≡ p.ciaddr ++ (p.yiaddr ++ (p.siaddr ++ (p.giaddr ++ at_ch)))
  unfolding marshal_header
  at_12 =
      rw
        (
          address_field_v4 p.ciaddr w.ciaddr_is_v4,
          address_field_v4 p.yiaddr w.yiaddr_is_v4,
          address_field_v4 p.siaddr w.siaddr_is_v4,
          address_field_v4 p.giaddr w.giaddr_is_v4,
          copy_zeroed_full 64 p.sname w.sname_is_64,
          copy_zeroed_full 128 p.file w.file_is_128,
        )
        (simp append_assoc)

  at_16 : drop 16 input ≡ p.yiaddr ++ (p.siaddr ++ (p.giaddr ++ at_ch))
  at_16 = skip_field 12 4 16 input p.ciaddr _ at_12 w.ciaddr_is_v4 refl

  at_20 : drop 20 input ≡ p.siaddr ++ (p.giaddr ++ at_ch)
  at_20 = skip_field 16 4 20 input p.yiaddr _ at_16 w.yiaddr_is_v4 refl

  at_24 : drop 24 input ≡ p.giaddr ++ at_ch
  at_24 = skip_field 20 4 24 input p.siaddr _ at_20 w.siaddr_is_v4 refl

  at_28 : drop 28 input ≡ at_ch
  at_28 = skip_field 24 4 28 input p.giaddr _ at_24 w.giaddr_is_v4 refl

  at_44 : drop 44 input ≡ p.sname ++ (p.file ++ at_magic)
  at_44 = skip_field 28 16 44 input ch _ at_28 (length-copy_zeroed 16 p.chaddr) refl

  at_108 : drop 108 input ≡ p.file ++ at_magic
  at_108 = skip_field 44 64 108 input p.sname _ at_44 w.sname_is_64 refl

  at_236 : drop 236 input ≡ at_magic
  at_236 = skip_field 108 128 236 input p.file _ at_108 w.file_is_128 refl

  at_240 : drop 240 input ≡ tail
  at_240 = skip_field 236 4 240 input magic_cookie tail at_236 refl refl

  chaddr_eq : take (capped p.hlen) (drop 28 input) ≡ p.chaddr
  unfolding capped
  chaddr_eq =
      let short : capped p.hlen ≡ p.hlen = ground arith in
      let fits : p.hlen ≤ length ch = omega (arith, length-copy_zeroed 16 p.chaddr) in
      rw (short, at_28)
        (take-append_le p.hlen ch _ fits
          ∙ take-copy_zeroed p.hlen 16 p.chaddr w.chaddr_is_hlen w.hlen_fits)

  header_of-marshal_header : header_of input p.options ≡ record p { boot_file = []; if_index = 0 }
  unfolding header_of marshal_header
  header_of-marshal_header = λ i. record {
    op = p.op;
    htype = p.htype;
    hlen = p.hlen;
    hops = p.hops;
    xid = be32-u32 p.xid w.xid_fits i;
    secs = be16-u16 p.secs w.secs_fits i;
    flags = be16-u16 p.flags w.flags_fits i;
    ciaddr = take_field 12 4 input p.ciaddr _ at_12 w.ciaddr_is_v4 i;
    yiaddr = take_field 16 4 input p.yiaddr _ at_16 w.yiaddr_is_v4 i;
    siaddr = take_field 20 4 input p.siaddr _ at_20 w.siaddr_is_v4 i;
    giaddr = take_field 24 4 input p.giaddr _ at_24 w.giaddr_is_v4 i;
    chaddr = chaddr_eq i;
    sname = take_field 44 64 input p.sname _ at_44 w.sname_is_64 i;
    file = take_field 108 128 input p.file _ at_108 w.file_is_128 i;
    options = p.options;
    boot_file = [];
    if_index = 0;
  }

  input_long : 240 ≤ length input
  input_long = omega (arith, ap length at_236, length-drop 236 input)

  parse_packet-marshal_header :
      parse tail ≡ ok p.options
      → parse_packet input ≡ ok (record p { boot_file = []; if_index = 0 })
  unfolding parse_packet
  parse_packet-marshal_header h =
      let cookie : slice 236 240 input ≡ magic_cookie =
        take_field 236 4 input magic_cookie tail at_236 refl in
      rw (le→ltb (length input) 240 input_long, cookie, at_240, h, ==_false _ 0 w.has_message_type)
        (ap ok header_of-marshal_header)

-- Marshal writes the header, then the options, then zero bytes.
marshal-split :
    (p : Packet)
    → (pad : Bytes) × (marshal p ≡ marshal_header p ++ (marshal_options p.options ++ pad))
unfolding marshal pad_to_300
marshal-split p = elim (Bool-cases (ltb (length out) 300)) [
  | inl short ↦ (
    replicate (300 - length out) 0,
    rw short (append_assoc (marshal_header p) (marshal_options p.options) _),
  )
  | inr long ↦ ([], rw (long, append-nil))
]
  where
    out : Bytes
    out = marshal_header p ++ marshal_options p.options

-- ParsePacket reads back every packet that fits the wire, for each order in which Marshal may visit
-- its option map. BootFile and IfIndex are not on the wire and come back empty.
pub parse_packet-marshal_v4 :
    (p : Packet)
    → IsWire p
    → parse_packet (marshal p) ≡ ok (record p { boot_file = []; if_index = 0 })
parse_packet-marshal_v4 p w =
    let (pad, e) = marshal-split p in
    rw e (
      parse_packet-marshal_header p w (marshal_options p.options ++ pad)
        (parse-marshal_options p.options pad w.options_fit w.options_map))

-- Marshal never writes less than the 300 bytes of the smallest BOOTP packet.
pub length-marshal : (p : Packet) → 300 ≤ length (marshal p)
unfolding marshal pad_to_300
length-marshal p =
    let out = marshal_header p ++ marshal_options p.options in
    ground (
      arith,
      length-append out (replicate (300 - length out) 0),
      length-replicate {A = ℕ} (300 - length out) 0,
    )
