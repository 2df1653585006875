-- ===== src/Dhcp6/Packet/RoundTrip.antt =====
-- Marshal and ParsePacket, Marshal and ParseRelayPacket, are inverse on messages that fit the wire.
use dhcp_server.Base.{
  ℕ, zero, suc, ◌+◌, ◌-◌, ◌/◌, ◌%◌, ◌^◌, ◌≤◌, ◌<◌, ◌≡◌, ◌≢◌, refl, sym, ap, ◌∙◌, arith,
}
use dhcp_server.Base.{[], ◌∷◌, ◌++◌, append-nil, append_assoc, length, length-append}
use dhcp_server.Base.{le→ltb, drop, take-append, drop-append, All}
use dhcp_server.Base.Outcome.{ok}
use dhcp_server.Base.Wire.{Bytes, be16}
use dhcp_server.Net.{copy_zeroed-to16}
use dhcp_server.Dhcp6.Packet.{Opt, Options, Packet, RelayPacket, add}
use dhcp_server.Dhcp6.Packet.{marshal_option, marshal_options, marshal, marshal_relay}
use dhcp_server.Dhcp6.Packet.{parse_options, parse_all_options, parse_packet, parse_relay_packet}

-- The code is a `uint16`, and the length field holds `4+length` with no wrap.
pub record FitsWire (o : Opt) : Type 0 where
  pub code_fits : o.code < 2 ^ 16
  pub value_fits : length o.value < 2 ^ 16 - 4

parse_options-marshal_option :
    (fuel : ℕ) (opts : Options) (o : Opt) (rest : Bytes)
    → FitsWire o
    → parse_options (suc fuel) opts (marshal_option o ++ rest)
      ≡ parse_options fuel (opts ++ o ∷ []) rest
unfolding parse_options marshal_option add
parse_options-marshal_option fuel opts o rest h =
    let n = length o.value in
    let next : (4 + be16 (n % 65536 / 256 % 256) (n % 65536 % 256)) % 65536 ≡ 4 + n = omega arith in
    let cut : 4 + n - 4 ≡ n = omega arith in
    let code : be16 (o.code / 256 % 256) (o.code % 256) ≡ o.code = omega arith in
    let enough : 4 + n ≤ 4 + length (o.value ++ rest) = omega (arith, length-append o.value rest) in
    rw (
      next,
      cut,
      code,
      take-append n o.value rest refl,
      drop-append n o.value rest refl,
      le→ltb _ _ enough,
      le→ltb (4 + n) 4 (omega arith),
    )

pub length-le-marshal_options : (os : Options) → length os ≤ length (marshal_options os)
unfolding marshal_options marshal_option
length-le-marshal_options [] = omega arith
length-le-marshal_options (o ∷ os) =
    omega (arith, length-le-marshal_options os, length-append o.value (marshal_options os))

parse_options-marshal_options :
    (os : Options) (fuel : ℕ) (opts : Options)
    → All FitsWire os
    → length os ≤ fuel
    → parse_options fuel opts (marshal_options os) ≡ ok (opts ++ os)
unfolding parse_options marshal_options
parse_options-marshal_options [] zero opts h hf = ap ok (sym (append-nil opts))
parse_options-marshal_options [] (suc fuel) opts h hf = ap ok (sym (append-nil opts))
parse_options-marshal_options (o ∷ os) zero opts h hf = absurd (omega arith)
parse_options-marshal_options (o ∷ os) (suc fuel) opts (h, hs) hf =
    parse_options-marshal_option fuel opts o (marshal_options os) h
    ∙ parse_options-marshal_options os fuel (opts ++ o ∷ []) hs (omega arith)
    ∙ ap ok (append_assoc opts (o ∷ []) os)

pub parse_all_options-marshal_options :
    (os : Options) → All FitsWire os → parse_all_options (marshal_options os) ≡ ok os
unfolding parse_all_options
parse_all_options-marshal_options os h =
    parse_options-marshal_options os (length (marshal_options os)) [] h
      (length-le-marshal_options os)

-- ParsePacket reads back what Marshal wrote for a message that is no relay message, whose option
-- codes are 16-bit numbers and whose option values are shorter than 65532 bytes.
pub parse_packet-marshal :
    (p : Packet)
    → p.message_type ≢ 12
    → p.message_type ≢ 13
    → All FitsWire p.options
    → parse_packet (marshal p) ≡ ok p
unfolding parse_packet marshal
parse_packet-marshal p a b h = rw (parse_all_options-marshal_options p.options h) (ground arith)

-- ParseRelayPacket reads back what the relay Marshal wrote, for addresses of sixteen bytes.
pub parse_relay_packet-marshal_relay :
    (rp : RelayPacket)
    → length rp.link_addr ≡ 16
    → length rp.peer_addr ≡ 16
    → All FitsWire rp.options
    → parse_relay_packet (marshal_relay rp) ≡ ok rp
unfolding parse_relay_packet marshal_relay
parse_relay_packet-marshal_relay rp a b h =
    let link = rp.link_addr in
    let peer = rp.peer_addr in
    let os = marshal_options rp.options in
    let skip : drop 32 (link ++ (peer ++ os)) ≡ os =
      rw (← append_assoc link peer os)
        (drop-append 32 (link ++ peer) os (omega (arith, length-append link peer))) in
    rw
      (
        copy_zeroed-to16 link a,
        copy_zeroed-to16 peer b,
        skip,
        take-append 16 link (peer ++ os) a,
        drop-append 16 link (peer ++ os) a,
        take-append 16 peer os b,
        parse_all_options-marshal_options rp.options h,
      )
      (ground (arith, length-append link (peer ++ os), length-append peer os))
