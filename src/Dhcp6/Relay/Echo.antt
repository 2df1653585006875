-- ===== src/Dhcp6/Relay/Echo.antt =====
-- A relayed reply, taken apart layer by layer as the relays on its way do.
use dhcp_server.Base.{ℕ, zero, suc, ◌-◌, ◌^◌, ◌≤◌, ◌<◌, ◌≡◌, ◌≢◌, refl, sym, ◌∙◌, arith}
use dhcp_server.Base.{
  List, [], ◌∷◌, ◌++◌, append-nil, append_assoc, none, some, length, length-append, All,
}
use dhcp_server.Base.Outcome.{ok, ◌>>=◌}
use dhcp_server.Base.Wire.{Bytes}
use dhcp_server.Net.{to16, copy_zeroed}
use dhcp_server.Dhcp6.Packet.{Options, Packet, client, relayed}
use dhcp_server.Dhcp6.Packet.{get, add, marshal, marshal_options, marshal_relay, parse_relay_packet}
use dhcp_server.Dhcp6.Packet.{get_inner, get_relay_msg, is_relay, copy_relay_options, opt_relay_msg}
use dhcp_server.Dhcp6.Packet.Parse.{wire_length, wire_length-append, length-marshal_options}
use dhcp_server.Dhcp6.Packet.RoundTrip.{FitsWire, parse_packet-marshal}
use dhcp_server.Dhcp6.Packet.RoundTrip.{parse_relay_packet-marshal_relay}
use dhcp_server.Dhcp6.Relay.{RelayHop, RelayContext, hop_of, enter_layer, unwrap}
use dhcp_server.Dhcp6.Relay.{UdpAddr, layer_reply, wrap_hops, context_hops, send_reply}
use dhcp_server.Dhcp6.Relay.{outer_context, unwrap_relay_forward}

-- The relay layers that handleRelayForward records hold no Relay-Message option.
pub get-copy_relay_options : (os : Options) → get (copy_relay_options os) opt_relay_msg ≡ none
unfolding get copy_relay_options
get-copy_relay_options [] = refl
get-copy_relay_options (o ∷ os) = ground (arith, get-copy_relay_options os)

get-add :
    (os : Options) (code : ℕ) (value : Bytes)
    → get os code ≡ none
    → get (add os code value) code ≡ some (record { code = code; value = value })
unfolding get add
get-add [] code value h = ground arith
get-add (o ∷ os) code value h = ground (arith, get-add os code value)

copy_relay_options-add :
    (os : Options) (value : Bytes)
    → get os opt_relay_msg ≡ none
    → copy_relay_options (add os opt_relay_msg value) ≡ os
unfolding get add copy_relay_options
copy_relay_options-add [] value h = refl
copy_relay_options-add (o ∷ os) value h = ground (arith, copy_relay_options-add os value)

-- A layer can be put around `input`: the addresses have sixteen bytes, the options fit the wire and
-- hold no Relay-Message, and `input` fits into one.
pub record HopFits (h : RelayHop) (input : Bytes) : Type 0 where
  pub link_is_v6 : length h.link_addr ≡ 16
  pub peer_is_v6 : length h.peer_addr ≡ 16
  pub options_fit : All FitsWire h.options
  pub no_relay_msg : get h.options opt_relay_msg ≡ none
  pub input_fits : length input < 2 ^ 16 - 4

abbrev pub HopsFit : List RelayHop → Bytes → Type 0
HopsFit [] input = Unit
HopsFit (h ∷ hs) input = HopFits h (wrap_hops hs input) × HopsFit hs input

FitsWire-add :
    (os : Options) (code : ℕ) (value : Bytes)
    → All FitsWire os
    → FitsWire (record { code = code; value = value })
    → All FitsWire (add os code value)
unfolding add
FitsWire-add [] code value h f = (f, tt)
FitsWire-add (o ∷ os) code value (h, hs) f = (h, FitsWire-add os code value hs f)

module _ (h : RelayHop) (input : Bytes) (fits : HopFits h input) where
  layer_fits : All FitsWire (layer_reply h input).options
  unfolding layer_reply
  layer_fits =
      FitsWire-add h.options opt_relay_msg input fits.options_fit
        (record { code_fits = omega arith; value_fits = fits.input_fits })

  parse-layer : parse_relay_packet (marshal_relay (layer_reply h input)) ≡ ok (layer_reply h input)
  unfolding layer_reply
  parse-layer =
      parse_relay_packet-marshal_relay (layer_reply h input) fits.link_is_v6 fits.peer_is_v6
        layer_fits

  get_inner-layer :
      get_inner (marshal_relay (layer_reply h input)) ≡ ok (relayed (layer_reply h input))
  unfolding get_inner marshal_relay layer_reply is_relay add
  get_inner-layer = rw parse-layer

  get_relay_msg-layer : get_relay_msg (layer_reply h input).options ≡ get_inner input
  unfolding layer_reply get_relay_msg get_inner
  get_relay_msg-layer = rw (get-add h.options opt_relay_msg input fits.no_relay_msg, get_relay_msg)

  hop_of-layer : hop_of (layer_reply h input) ≡ h
  unfolding hop_of layer_reply
  hop_of-layer = rw (copy_relay_options-add h.options input fits.no_relay_msg)

wire_length-add :
    (os : Options) (code : ℕ) (value : Bytes) → length value ≤ wire_length (add os code value)
unfolding add
wire_length-add os code value =
    omega (arith, wire_length-append os (record { code = code; value = value } ∷ []))

length-layer :
    (h : RelayHop) (input : Bytes) → length input < length (marshal_relay (layer_reply h input))
unfolding marshal_relay layer_reply
length-layer h input =
    let os = add h.options opt_relay_msg input in
    let link = copy_zeroed 16 (to16 h.link_addr) in
    let peer = copy_zeroed 16 (to16 h.peer_addr) in
    omega (
      arith,
      length-append link (peer ++ marshal_options os),
      length-append peer (marshal_options os),
      length-marshal_options os,
      wire_length-add h.options opt_relay_msg input,
    )

length-wrap_hops :
    (hops : List RelayHop) (input : Bytes) → length hops ≤ length (wrap_hops hops input)
unfolding wrap_hops
length-wrap_hops [] input = omega arith
length-wrap_hops (h ∷ hs) input =
    omega (arith, length-wrap_hops hs input, length-layer h (wrap_hops hs input))

module _ (p : Packet) (not_forw : p.message_type ≢ 12) (not_repl : p.message_type ≢ 13)
    (fits : All FitsWire p.options) where
  get_inner-marshal : get_inner (marshal p) ≡ ok (client p)
  unfolding get_inner marshal is_relay
  get_inner-marshal = ground (arith, parse_packet-marshal p not_forw not_repl fits)

  unwrap-wrap_hops :
      (hops : List RelayHop) (fuel : ℕ) (relay : RelayContext)
      → HopsFit hops (marshal p)
      → length hops ≤ fuel
      → (c : RelayContext) × ((get_inner (wrap_hops hops (marshal p)) >>= unwrap fuel relay)
          ≡ ok (p, c))
        × (c.hops ≡ relay.hops ++ hops)
  unfolding wrap_hops unwrap enter_layer
  unwrap-wrap_hops [] fuel relay h hf = (relay, rw get_inner-marshal, sym (append-nil relay.hops))
  unwrap-wrap_hops (h ∷ hs) zero relay f hf = absurd (omega arith)
  unwrap-wrap_hops (h ∷ hs) (suc fuel) relay (f, fs) hf =
      let input = wrap_hops hs (marshal p) in
      let relay' = enter_layer relay (layer_reply h input) in
      let (c, e, k) = unwrap-wrap_hops hs fuel relay' fs (omega arith) in
      (
        c,
        rw (get_inner-layer h input f, get_relay_msg-layer h input f) e,
        k ∙ rw (hop_of-layer h input f, append_assoc),
      )

  -- The datagram that sendReply writes for a relayed client, read back by the layers, gives the
  -- reply itself and the hops of the request in their order: each relay finds its own layer. The reply
  -- is no relay message, there is at least one hop, and the options and layers fit the wire.
  pub unwrap_relay_forward-send_reply :
      (relay : RelayContext) (h : RelayHop) (hs : List RelayHop) (addr from : UdpAddr)
      → relay.hops ≡ h ∷ hs
      → HopsFit (h ∷ hs) (marshal p)
      → (c : RelayContext) × (unwrap_relay_forward (send_reply p addr (some relay)).0 from
          ≡ ok (p, c))
        × (c.hops ≡ relay.hops)
  unfolding unwrap_relay_forward send_reply wrap_hops context_hops outer_context
  unwrap_relay_forward-send_reply relay h hs addr from e (f, fs) =
      let input = wrap_hops hs (marshal p) in
      let fuel = length (marshal_relay (layer_reply h input)) in
      let outer = outer_context (layer_reply h input) from in
      let (c, r, k) =
        unwrap-wrap_hops hs fuel outer fs
          (omega (arith, length-wrap_hops hs (marshal p), length-layer h input)) in
      (
        c,
        rw (e, context_hops, parse-layer h input f, get_relay_msg-layer h input f) r,
        k ∙ rw (hop_of-layer h input f, e),
      )
