-- ===== src/Dhcp6/Ia.antt =====
-- The identity associations of DHCPv6: the builders and readers of internal/dhcpv6/packet.go, and
-- the two loops of internal/dhcpv6/server.go that look for addresses inside them.
pub mod Lookup
pub mod Codec
use dhcp_server.Base.{ℕ, zero, suc, ◌+◌, ◌-◌, ◌%◌, ◌^◌, Bool, true, false, ◌&&◌, ◌||◌}
use dhcp_server.Base.{List, [], ◌∷◌, ◌++◌, Option, none, some}
use dhcp_server.Base.{ltb, leb, ◌==◌, if◌then◌else◌, length, take, drop}
use dhcp_server.Base.Outcome.{Outcome, ok, err, panic, stuck, ◌>>=◌}
use dhcp_server.Base.Wire.{Bytes, u16, u32, be16, be32_at, byte_at, slice}
use dhcp_server.Net.{to16, copy_zeroed}
use dhcp_server.Dhcp6.Packet.{Opt, Options, Packet, Error, too_short, get, marshal_options}

abbrev pub opt_iana : ℕ
opt_iana = 3

abbrev pub opt_iata : ℕ
opt_iata = 4

abbrev pub opt_iaaddr : ℕ
opt_iaaddr = 5

-- BuildIANA and BuildIAPD, whose bodies are the same.
unfoldable pub build_iana : ℕ → ℕ → ℕ → List Opt → Bytes
unfolding marshal_options
build_iana iaid t1 t2 addrs = u32 iaid ++ (u32 t1 ++ (u32 t2 ++ marshal_options addrs))

unfoldable pub build_iapd : ℕ → ℕ → ℕ → List Opt → Bytes
unfolding marshal_options
build_iapd iaid t1 t2 prefixes = u32 iaid ++ (u32 t1 ++ (u32 t2 ++ marshal_options prefixes))

unfoldable pub build_iaaddress : Bytes → ℕ → ℕ → Bytes
unfolding to16
build_iaaddress ip preferred_lifetime valid_lifetime =
    copy_zeroed 16 (to16 ip) ++ (u32 preferred_lifetime ++ u32 valid_lifetime)

-- The address and the preferred and valid lifetimes.
unfoldable pub parse_iaaddress : Bytes → Outcome Error (Bytes × ℕ × ℕ)
parse_iaaddress input =
    if ltb (length input) 24
    then err too_short
    else ok (slice 0 16 input, be32_at (drop 16 input) 0, be32_at (drop 16 input) 4)

unfoldable pub build_iaprefix : ℕ → Bytes → ℕ → ℕ → Bytes
unfolding to16
build_iaprefix prefix_len prefix preferred_lifetime valid_lifetime =
    u32 preferred_lifetime ++ (u32 valid_lifetime ++ (prefix_len ∷ copy_zeroed 16 (to16 prefix)))

-- The length of the prefix, the prefix, and the preferred and valid lifetimes.
unfoldable pub parse_iaprefix : Bytes → Outcome Error (ℕ × Bytes × ℕ × ℕ)
parse_iaprefix input =
    if ltb (length input) 25
    then err too_short
    else ok (byte_at input 8, slice 9 25 input, be32_at input 0, be32_at input 4)

unfoldable pub build_status_code : ℕ → Bytes → Bytes
build_status_code code message = u16 code ++ message

-- The IA_NA option of a message, or else its IA_TA option.
unfoldable pub get_iana_or_iata : Options → Option Opt
get_iana_or_iata os = elim (get os opt_iana) [ none ↦ get os opt_iata | some o ↦ some o ]

-- The loop of extractRequestedIP over the options inside an IA_NA, on fuel. `4+length` is taken
-- modulo 2 ^ 16 there, so the loop may stand still; `data[4:20]` may reach past the slice's length
-- into `spare`, the rest of its backing array, and panics past that.
unfoldable pub requested_loop : ℕ → Bytes → Bytes → Outcome Error (Option Bytes)
requested_loop (suc fuel) spare (c1 ∷ c2 ∷ l1 ∷ l2 ∷ rest) =
    let next = (4 + be16 l1 l2) % 2 ^ 16 in
    let more = requested_loop fuel spare (drop next (c1 ∷ c2 ∷ l1 ∷ l2 ∷ rest)) in
    if ltb (4 + length rest) next
    then ok none
    else if be16 c1 c2 == opt_iaaddr && leb 16 (be16 l1 l2)
    then (if ltb (length rest + length spare) 16
        then panic
        else ok (some (take 16 (rest ++ spare))))
    else more
requested_loop zero spare (c1 ∷ c2 ∷ l1 ∷ l2 ∷ rest) = stuck
requested_loop fuel spare short = ok none

-- extractRequestedIP, for the option that it has picked.
unfoldable pub requested_in : ℕ → Bytes → ℕ → Opt → Outcome Error (Option Bytes)
unfolding requested_loop
requested_in fuel spare iaid iana =
    if ltb (length iana.value) 12
    then ok none
    else if be32_at iana.value 0 == iaid
    then requested_loop fuel spare (drop 12 iana.value)
    else ok none

unfoldable pub extract_requested_ip : ℕ → Bytes → Packet → ℕ → Outcome Error (Option Bytes)
unfolding requested_in get_iana_or_iata
extract_requested_ip fuel spare req iaid = elim (get_iana_or_iata req.options) [
  | none ↦ ok none
  | some iana ↦ requested_in fuel spare iaid iana
]

-- The inner loop of extractIAAddrs, whose lengths are `int` and do not wrap.
unfoldable pub addrs_loop : ℕ → List Bytes → Bytes → Outcome Error (List Bytes)
addrs_loop (suc fuel) out (c1 ∷ c2 ∷ l1 ∷ l2 ∷ rest) =
    let n = be16 l1 l2 in
    let found = be16 c1 c2 == opt_iaaddr && leb 16 n in
    let more = addrs_loop fuel (if found then out ++ (take 16 rest ∷ []) else out) (drop n rest) in
    if ltb (length rest) n then ok out else more
addrs_loop zero out (c1 ∷ c2 ∷ l1 ∷ l2 ∷ rest) = stuck
addrs_loop fuel out short = ok out

unfoldable pub addrs_in : List Bytes → Opt → Outcome Error (List Bytes)
unfolding addrs_loop
addrs_in out o =
    if o.code == opt_iana || o.code == opt_iata
    then (if ltb (length o.value) 12
        then ok out
        else addrs_loop (length o.value) out (drop 12 o.value))
    else ok out

unfoldable pub extract_iaaddrs : List Bytes → Options → Outcome Error (List Bytes)
unfolding addrs_in
extract_iaaddrs out [] = ok out
extract_iaaddrs out (o ∷ os) = addrs_in out o >>= λ out'. extract_iaaddrs out' os
