-- ===== src/Dhcp4/Server/Dispatch.antt =====
-- internal/dhcp/server.go: handlePacket, which handler a datagram goes to.
use dhcp_server.Base.{ℕ, ◌==◌, ◌||◌, not, if◌then◌else◌}
use dhcp_server.Base.Outcome.{Outcome, ok, ◌>>=◌}
use dhcp_server.Base.Wire.{Bytes}
use dhcp_server.Dhcp4.Options.{message_type, Error}
use dhcp_server.Dhcp4.Packet.{Packet, parse_packet}

-- The handlers; `dropped` is a datagram of another hardware type, `unsupported` one of an unknown
-- message type, and `ignored` a server's reply.
pub data Handler : Type 0 where
  discover : Handler
  request : Handler
  release : Handler
  decline : Handler
  inform : Handler
  ignored : Handler
  dropped : Handler
  unsupported : Handler

-- The switch.
unfoldable pub handler_of : (msg_type : ℕ) → Handler
handler_of t =
    if t == 1
    then discover
    else if t == 3
    then request
    else if t == 7
    then release
    else if t == 4
    then decline
    else if t == 8
    then inform
    else if t == 2 || (t == 5 || t == 6)
    then ignored
    else unsupported

unfoldable pub dispatch : Packet → Handler
dispatch req =
    if not (req.htype == 1) || not (req.hlen == 6)
    then dropped
    else handler_of (message_type req.options)

-- The packet that the handler is given, and the handler.
unfoldable pub handle_packet : (input : Bytes) (if_index : ℕ) → Outcome Error (Packet × Handler)
handle_packet input if_index =
    parse_packet input >>= λ p. let req = record p { if_index = if_index } in ok (req, dispatch req)
