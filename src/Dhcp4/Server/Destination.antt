-- ===== src/Dhcp4/Server/Destination.antt =====
-- internal/dhcp/server.go: sendNAK, and where sendReply sends a reply. The server identifier is an
-- argument. The failure of a send is logged, except that of a raw frame, which is an argument.
use dhcp_server.Base.{ℕ, ◌/◌, ◌%◌, ◌^◌, ◌==◌, not, ◌&&◌, ◌||◌, Bool, if◌then◌else◌}
use dhcp_server.Base.{◌≡◌, refl, inl, inr, Bool-cases, Option-cases, some}
use dhcp_server.Base.Wire.{Bytes}
use dhcp_server.Net.{ip_equal, ipv4_zero, ipv4_bcast, to4}
use dhcp_server.Dhcp4.Options.{
  get, put, delete, set, set_message_type, message_type, opt_server_identifier,
}
use dhcp_server.Dhcp4.Packet.{Packet, reply_from_request}
use dhcp_server.Dhcp4.Server.{normalize_ip}

abbrev pub dhcp_nak : ℕ
dhcp_nak = 6

abbrev pub opt_message : ℕ
opt_message = 56

-- The address and port of a datagram, or a frame to the client's hardware address.
pub data Destination : Type 0 where
  udp : (ip : Bytes) (port : ℕ) → Destination
  raw_unicast : Destination

unfoldable out_if_index : (configured : ℕ) → Packet → ℕ
out_if_index configured reply = if configured == 0 then reply.if_index else configured

-- `isBroadcast`.
unfoldable pub is_broadcast : Packet → Bool
is_broadcast reply =
    message_type reply.options == dhcp_nak
    || (not ((reply.flags / 2 ^ 15) % 2 == 0)
        || (ip_equal reply.yiaddr ipv4_zero && ip_equal (normalize_ip reply.ciaddr) ipv4_zero))

unfoldable pub destination : (raw_fails : Bool) → Packet → Destination
destination raw_fails reply =
    if not (ip_equal (normalize_ip reply.giaddr) ipv4_zero)
    then udp (normalize_ip reply.giaddr) 67
    else if is_broadcast reply
    then udp ipv4_bcast 68
    else if not (ip_equal (normalize_ip reply.ciaddr) ipv4_zero)
    then udp (normalize_ip reply.ciaddr) 68
    else if raw_fails
    then udp ipv4_bcast 68
    else raw_unicast

-- The reply of sendNAK.
unfoldable pub nak_reply : (our_id : Bytes) → Packet → (reason : Bytes) → Packet
nak_reply our_id req reason =
    let reply = reply_from_request req dhcp_nak in
    record reply {
      options =
          set (set reply.options opt_server_identifier (to4 our_id)) opt_message (some reason);
    }

nak_reply-message_type :
    (our_id : Bytes) (req : Packet) (reason : Bytes)
    → message_type (nak_reply our_id req reason).options ≡ dhcp_nak
unfolding nak_reply reply_from_request message_type set put delete set_message_type get
nak_reply-message_type our_id req reason = elim (Option-cases (to4 our_id)) [
  | inl e ↦ rw (e, nak_reply) refl
  | inr (four, e) ↦ rw (e, nak_reply) refl
]

relayed :
    (our_id : Bytes) (req : Packet) (reason : Bytes)
    → (nak_reply our_id req reason).giaddr ≡ req.giaddr
unfolding nak_reply reply_from_request
relayed our_id req reason = refl

-- A NAK is broadcast to the clients' port, whatever the flags and the address of the client, unless a
-- relay agent has sent the request: then it goes to the servers' port of that agent.
pub send_nak-destination :
    (our_id : Bytes) (req : Packet) (reason : Bytes) (raw_fails : Bool)
    → destination raw_fails (nak_reply our_id req reason) ≡ (
        if ip_equal (normalize_ip req.giaddr) ipv4_zero
        then udp ipv4_bcast 68
        else udp (normalize_ip req.giaddr) 67)
unfolding destination is_broadcast
send_nak-destination our_id req reason raw_fails =
    let t = nak_reply-message_type our_id req reason in
    elim (Bool-cases (ip_equal (normalize_ip req.giaddr) ipv4_zero)) [
      | inl z ↦ rw (relayed our_id req reason, z, t) refl
      | inr z ↦ rw (relayed our_id req reason, z) refl
    ]
