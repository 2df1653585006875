-- ===== src/Dhcp6/Packet/Parse.antt =====
-- The option loop of ParsePacket and ParseRelayPacket on any input.
use dhcp_server.Base.{ℕ, zero, suc, ◌+◌, ◌-◌, ◌%◌, ◌^◌, ◌≤◌, ◌≡◌, ◌≢◌, refl, arith}
use dhcp_server.Base.{[], ◌∷◌, ◌++◌, length, length-append, length-take, length-drop}
use dhcp_server.Base.{take, drop}
use dhcp_server.Base.Outcome.{ok, stuck}
use dhcp_server.Base.Wire.{Bytes, be16}
use dhcp_server.Dhcp6.Packet.{Opt, Options, add, marshal_option, marshal_options}
use dhcp_server.Dhcp6.Packet.{parse_options, parse_all_options}

parse_options-ne-stuck :
    (fuel : ℕ) (opts : Options) (input : Bytes)
    → length input ≤ fuel
    → parse_options fuel opts input ≢ stuck
unfolding parse_options
parse_options-ne-stuck (suc fuel) opts (c1 ∷ c2 ∷ l1 ∷ l2 ∷ rest) h = ground (
  arith,
  length-drop ((4 + be16 l1 l2) % 2 ^ 16 - 4) rest,
  parse_options-ne-stuck fuel (add opts (be16 c1 c2) (take ((4 + be16 l1 l2) % 2 ^ 16 - 4) rest))
      (drop ((4 + be16 l1 l2) % 2 ^ 16 - 4) rest),
)
parse_options-ne-stuck zero opts (c1 ∷ c2 ∷ l1 ∷ l2 ∷ rest) h = absurd (omega arith)
parse_options-ne-stuck zero opts [] h = λ e. cc
parse_options-ne-stuck zero opts (a ∷ []) h = λ e. cc
parse_options-ne-stuck zero opts (a ∷ b ∷ []) h = λ e. cc
parse_options-ne-stuck _ opts _ h = λ e. cc

pub parse_all_options-ne-stuck : (input : Bytes) → parse_all_options input ≢ stuck
unfolding parse_all_options
parse_all_options-ne-stuck input = parse_options-ne-stuck (length input) [] input (omega arith)

-- The bytes that options take on the wire.
abbrev pub wire_length : Options → ℕ
wire_length [] = 0
wire_length (o ∷ os) = 4 + length o.value + wire_length os

pub wire_length-append :
    (os ps : Options) → wire_length (os ++ ps) ≡ wire_length os + wire_length ps
wire_length-append [] ps = omega arith
wire_length-append (o ∷ os) ps = omega (arith, wire_length-append os ps)

parse_options-wire_length :
    (fuel : ℕ) (opts : Options) (input : Bytes) (result : Options)
    → parse_options fuel opts input ≡ ok result
    → wire_length result ≤ wire_length opts + length input
unfolding parse_options add
parse_options-wire_length (suc fuel) opts (c1 ∷ c2 ∷ l1 ∷ l2 ∷ rest) result h =
    let n = (4 + be16 l1 l2) % 2 ^ 16 - 4 in
    let opt : Opt = record { code = be16 c1 c2; value = take n rest } in
    ground (
      arith,
      length-drop n rest,
      length-take n rest,
      wire_length-append opts (opt ∷ []),
      parse_options-wire_length fuel (opts ++ opt ∷ []) (drop n rest) result,
    )
parse_options-wire_length zero opts (c1 ∷ c2 ∷ l1 ∷ l2 ∷ rest) result h = cc
parse_options-wire_length zero opts [] result h = ground arith
parse_options-wire_length zero opts (a ∷ []) result h = ground arith
parse_options-wire_length zero opts (a ∷ b ∷ []) result h = ground arith
parse_options-wire_length _ opts _ result h = ground arith

-- What is parsed was in the input: no option reaches past its end.
pub parse_all_options-wire_length :
    (input : Bytes) (result : Options)
    → parse_all_options input ≡ ok result
    → wire_length result ≤ length input
unfolding parse_all_options
parse_all_options-wire_length input result h =
    omega (arith, parse_options-wire_length (length input) [] input result h)

pub length-marshal_options : (os : Options) → length (marshal_options os) ≡ wire_length os
unfolding marshal_options marshal_option
length-marshal_options [] = refl
length-marshal_options (o ∷ os) =
    omega (arith, length-append o.value (marshal_options os), length-marshal_options os)
