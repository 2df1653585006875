-- ===== src/Dhcp6/Packet.antt =====
-- internal/dhcpv6/packet.go: DHCPv6 messages, relay messages and their options.
pub mod Parse
pub mod Panic
pub mod Layers
pub mod RoundTrip
use dhcp_server.Base.{ℕ, zero, suc, ◌+◌, ◌-◌, ◌%◌, ◌^◌, Bool, true, false, ◌||◌}
use dhcp_server.Base.{List, [], ◌∷◌, ◌++◌, Option, none, some}
use dhcp_server.Base.{ltb, ◌==◌, if◌then◌else◌, length, take, drop}
use dhcp_server.Base.Outcome.{Outcome, ok, err, panic, stuck, ◌>>=◌}
use dhcp_server.Base.Wire.{Bytes, u16, u32, be16, be32_at, slice}
use dhcp_server.Net.{to16, copy_zeroed}

abbrev pub msg_type_relay_forw : ℕ
msg_type_relay_forw = 12

abbrev pub msg_type_relay_repl : ℕ
msg_type_relay_repl = 13

abbrev pub opt_relay_msg : ℕ
opt_relay_msg = 9

abbrev pub opt_interface_id : ℕ
opt_interface_id = 18

-- `Option`, with `Data` under the name `value`.
pub record Opt : Type 0 where
  pub code : ℕ
  pub value : Bytes

abbrev pub Options : Type 0
Options = List Opt

-- `TransID` is an array of three bytes.
pub record Packet : Type 0 where
  pub message_type : ℕ
  pub trans_id_0 : ℕ
  pub trans_id_1 : ℕ
  pub trans_id_2 : ℕ
  pub options : Options

pub record RelayPacket : Type 0 where
  pub message_type : ℕ
  pub hop_count : ℕ
  pub link_addr : Bytes
  pub peer_addr : Bytes
  pub options : Options

pub data Error : Type 0 where
  too_short relay_packet truncated_option no_relay_message relay_message_empty : Error

-- `Options.Get`: the first option of the code.
unfoldable pub get : Options → ℕ → Option Opt
get [] code = none
get (o ∷ os) code = if o.code == code then some o else get os code

unfoldable pub add : Options → ℕ → Bytes → Options
add os code value = os ++ (record { code = code; value = value } ∷ [])

-- One option on the wire; `uint16(len(opt.Data))` drops the high bits.
unfoldable pub marshal_option : Opt → Bytes
marshal_option o = u16 o.code ++ (u16 (length o.value % 2 ^ 16) ++ o.value)

unfoldable pub marshal_options : Options → Bytes
unfolding marshal_option
marshal_options [] = []
marshal_options (o ∷ os) = marshal_option o ++ marshal_options os

unfoldable pub marshal : Packet → Bytes
unfolding marshal_options
marshal p = p.message_type ∷ p.trans_id_0 ∷ p.trans_id_1 ∷ p.trans_id_2 ∷ marshal_options p.options

unfoldable pub marshal_relay : RelayPacket → Bytes
unfolding marshal_options to16
marshal_relay rp =
    rp.message_type
    ∷ rp.hop_count
    ∷ (copy_zeroed 16 (to16 rp.link_addr)
        ++ (copy_zeroed 16 (to16 rp.peer_addr) ++ marshal_options rp.options))

-- The loop `for len(options) >= 4`. The lengths are `uint16`, so `4+length` is taken modulo 2 ^ 16,
-- and `options[4:4+length]` panics where it falls below 4.
pub parse_options : ℕ → Options → Bytes → Outcome Error Options
parse_options (suc fuel) opts (c1 ∷ c2 ∷ l1 ∷ l2 ∷ rest) =
    let next = (4 + be16 l1 l2) % 2 ^ 16 in
    let value = take (next - 4) rest in
    let more = parse_options fuel (add opts (be16 c1 c2) value) (drop (next - 4) rest) in
    if ltb (4 + length rest) next then err truncated_option else if ltb next 4 then panic else more
parse_options zero opts (c1 ∷ c2 ∷ l1 ∷ l2 ∷ rest) = stuck
parse_options fuel opts short = ok opts

-- A round takes four bytes at least, so the length of the input is fuel enough.
pub parse_all_options : Bytes → Outcome Error Options
unfolding parse_options add
parse_all_options options = parse_options (length options) [] options

unfoldable pub is_relay : ℕ → Bool
is_relay t = t == msg_type_relay_forw || t == msg_type_relay_repl

unfoldable pub parse_packet : Bytes → Outcome Error Packet
unfolding is_relay parse_all_options
parse_packet (t ∷ x ∷ y ∷ z ∷ options) =
    if is_relay t
    then err relay_packet
    else parse_all_options options >>= λ opts. ok (record {
      message_type = t;
      trans_id_0 = x;
      trans_id_1 = y;
      trans_id_2 = z;
      options = opts;
    })
parse_packet short = err too_short

unfoldable pub parse_relay_packet : Bytes → Outcome Error RelayPacket
unfolding parse_all_options
parse_relay_packet (t ∷ hops ∷ rest) =
    if ltb (length rest) 32
    then err too_short
    else parse_all_options (drop 32 rest) >>= λ opts. ok (record {
      message_type = t;
      hop_count = hops;
      link_addr = take 16 rest;
      peer_addr = take 16 (drop 16 rest);
      options = opts;
    })
parse_relay_packet short = err too_short

-- The message inside a Relay-Message option: a client's, or one more relay layer.
pub data Inner : Type 0 where
  client : Packet → Inner
  relayed : RelayPacket → Inner

unfoldable pub get_inner : Bytes → Outcome Error Inner
get_inner [] = err relay_message_empty
get_inner (t ∷ rest) =
    if is_relay t
    then (parse_relay_packet (t ∷ rest) >>= λ rp. ok (relayed rp))
    else parse_packet (t ∷ rest) >>= λ p. ok (client p)

unfoldable pub get_relay_msg : Options → Outcome Error Inner
unfolding get_inner is_relay
get_relay_msg os = elim (get os opt_relay_msg) [
  | none ↦ err no_relay_message
  | some o ↦ get_inner o.value
]

-- `Options.InterfaceID`.
unfoldable pub interface_id : Options → Option Bytes
interface_id os = elim (get os opt_interface_id) [ none ↦ none | some o ↦ some o.value ]

-- `Options.CopyRelayOptions`.
unfoldable pub copy_relay_options : Options → Options
copy_relay_options [] = []
copy_relay_options (o ∷ os) =
    if o.code == opt_relay_msg then copy_relay_options os else o ∷ copy_relay_options os
