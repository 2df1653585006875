-- ===== src/Dhcp6/Packet/Layers.antt =====
-- What GetRelayMsg finds is smaller than the options that it stands in.
use dhcp_server.Base.{ℕ, suc, ◌+◌, ◌≤◌, ◌≡◌, ◌≢◌, arith}
use dhcp_server.Base.{[], ◌∷◌, some, length, length-drop, drop, Option-cases}
use dhcp_server.Base.{inl, inr}
use dhcp_server.Base.Outcome.{ok, stuck}
use dhcp_server.Base.Wire.{Bytes}
use dhcp_server.Dhcp6.Packet.{Opt, Options, RelayPacket, Inner, client, relayed, get}
use dhcp_server.Dhcp6.Packet.{parse_relay_packet, parse_packet, get_relay_msg}
use dhcp_server.Dhcp6.Packet.{get_inner, opt_relay_msg}
use dhcp_server.Dhcp6.Packet.Parse.{wire_length}
use dhcp_server.Dhcp6.Packet.Parse.{parse_all_options-wire_length, parse_all_options-ne-stuck}

-- An option that Get finds is counted in full.
get-wire_length :
    (os : Options) (code : ℕ) (o : Opt) → get os code ≡ some o → 4 + length o.value ≤ wire_length os
unfolding get
get-wire_length [] code o h = cc
get-wire_length (p ∷ os) code o h = ground (arith, get-wire_length os code o)

pub parse_relay_packet-wire_length :
    (input : Bytes) (rp : RelayPacket)
    → parse_relay_packet input ≡ ok rp
    → 34 + wire_length rp.options ≤ length input
unfolding parse_relay_packet
parse_relay_packet-wire_length [] rp h = cc
parse_relay_packet-wire_length (t ∷ []) rp h = cc
parse_relay_packet-wire_length (t ∷ hops ∷ rest) rp h =
    ground (arith, length-drop 32 rest, parse_all_options-wire_length (drop 32 rest) rp.options)

pub parse_relay_packet-ne-stuck : (input : Bytes) → parse_relay_packet input ≢ stuck
unfolding parse_relay_packet
parse_relay_packet-ne-stuck [] = λ e. cc
parse_relay_packet-ne-stuck (t ∷ []) = λ e. cc
parse_relay_packet-ne-stuck (t ∷ hops ∷ rest) =
    ground (arith, parse_all_options-ne-stuck (drop 32 rest))

parse_packet-ne-stuck : (input : Bytes) → parse_packet input ≢ stuck
unfolding parse_packet
parse_packet-ne-stuck (t ∷ x ∷ y ∷ z ∷ options) = ground (arith, parse_all_options-ne-stuck options)
parse_packet-ne-stuck [] = λ e. cc
parse_packet-ne-stuck (a ∷ []) = λ e. cc
parse_packet-ne-stuck (a ∷ b ∷ []) = λ e. cc
parse_packet-ne-stuck (a ∷ b ∷ c ∷ []) = λ e. cc

get_inner-ne-stuck : (input : Bytes) → get_inner input ≢ stuck
unfolding get_inner
get_inner-ne-stuck [] = λ e. cc
get_inner-ne-stuck (t ∷ rest) =
    ground (arith, parse_packet-ne-stuck (t ∷ rest), parse_relay_packet-ne-stuck (t ∷ rest))

pub get_relay_msg-ne-stuck : (os : Options) → get_relay_msg os ≢ stuck
unfolding get_relay_msg
get_relay_msg-ne-stuck os = elim (Option-cases (get os opt_relay_msg)) [
  | inl e ↦ rw (e, get_relay_msg) (λ h. cc)
  | inr (o, e) ↦ rw (e, get_relay_msg) (get_inner-ne-stuck o.value)
]

-- A bound for the layers still inside.
abbrev pub inner_size : Inner → ℕ
inner_size (client p) = 0
inner_size (relayed rp) = suc (wire_length rp.options)

get_inner-size :
    (input : Bytes) (inner : Inner) → get_inner input ≡ ok inner → inner_size inner ≤ length input
unfolding get_inner
get_inner-size [] inner h = cc
get_inner-size (t ∷ rest) (client p) h = omega arith
get_inner-size (t ∷ rest) (relayed rp) h =
    ground (arith, parse_relay_packet-wire_length (t ∷ rest) rp)

-- A relay layer inside the options is shorter than they are.
pub get_relay_msg-size :
    (os : Options) (inner : Inner) → get_relay_msg os ≡ ok inner → inner_size inner ≤ wire_length os
unfolding get_relay_msg
get_relay_msg-size os inner h = elim (Option-cases (get os opt_relay_msg)) [
  | inl e ↦ cc (rw (e, get_relay_msg) at h)
  | inr (o, e) ↦ omega (
    arith,
    get_inner-size o.value inner (rw (e, get_relay_msg) at h),
    get-wire_length os opt_relay_msg o e,
  )
]
