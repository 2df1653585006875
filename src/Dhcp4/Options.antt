-- ===== src/Dhcp4/Options.antt =====
-- The option map of internal/dhcp/packet.go, on and off the wire. A Go map is an association list
-- with at most one entry for a key; `range` visits it in no fixed order, so what is proved of
-- marshal_options for every list holds for every order of the same map.
pub mod Map
pub mod RoundTrip
pub mod Long
use dhcp_server.Base.{ℕ, zero, suc, ◌+◌, ◌-◌, ◌%◌, Bool, true, false, ◌&&◌, ◌||◌}
use dhcp_server.Base.{List, [], ◌∷◌, ◌++◌, Option, none, some}
use dhcp_server.Base.{ltb, ◌==◌, if◌then◌else◌, length, take, drop, get_or}
use dhcp_server.Base.Outcome.{Outcome, ok, err, panic, stuck}
use dhcp_server.Base.Wire.{Bytes}

abbrev pub opt_pad : ℕ
opt_pad = 0

abbrev pub opt_end : ℕ
opt_end = 255

abbrev pub opt_host_name : ℕ
opt_host_name = 12

abbrev pub opt_requested_ip_addr : ℕ
opt_requested_ip_addr = 50

abbrev pub opt_dhcp_message_type : ℕ
opt_dhcp_message_type = 53

abbrev pub opt_server_identifier : ℕ
opt_server_identifier = 54

abbrev pub opt_parameter_request_list : ℕ
opt_parameter_request_list = 55

abbrev pub opt_client_identifier : ℕ
opt_client_identifier = 61

-- The errors of ParsePacket.
pub data Error : Type 0 where
  too_short bad_magic_cookie truncated_header truncated_data missing_message_type : Error

abbrev pub Options : Type 0
Options = List (ℕ × Bytes)

unfoldable pub get : Options → ℕ → Option Bytes
get [] code = none
get ((c, v) ∷ os) code = if c == code then some v else get os code

-- `o[code] = data`.
unfoldable pub put : Options → ℕ → Bytes → Options
put [] code value = (code, value) ∷ []
put ((c, v) ∷ os) code value = if c == code then (code, value) ∷ os else (c, v) ∷ put os code value

-- `delete(o, code)`.
unfoldable pub delete : Options → ℕ → Options
delete [] code = []
delete ((c, v) ∷ os) code = if c == code then os else (c, v) ∷ delete os code

-- `Options.Set`, with `none` for a nil slice.
unfoldable pub set : Options → ℕ → Option Bytes → Options
unfolding put delete
set os code none = delete os code
set os code (some value) = put os code value

abbrev first_byte : Option Bytes → ℕ
first_byte none = 0
first_byte (some v) = get_or v 0 0

unfoldable pub message_type : Options → ℕ
unfolding get
message_type os = first_byte (get os opt_dhcp_message_type)

unfoldable pub set_message_type : Options → ℕ → Options
unfolding set
set_message_type os t = set os opt_dhcp_message_type (some (t ∷ []))

abbrev four_bytes : Option Bytes → Option Bytes
four_bytes none = none
four_bytes (some v) = if ltb (length v) 4 then none else some (take 4 v)

-- `none` is a nil address.
unfoldable pub requested_ip : Options → Option Bytes
unfolding get
requested_ip os = four_bytes (get os opt_requested_ip_addr)

unfoldable pub server_id : Options → Option Bytes
unfolding get
server_id os = four_bytes (get os opt_server_identifier)

abbrev or_empty : Option Bytes → Bytes
or_empty none = []
or_empty (some v) = v

unfoldable pub parameter_request_list : Options → Bytes
unfolding get
parameter_request_list os = or_empty (get os opt_parameter_request_list)

unfoldable pub host_name : Options → Bytes
unfolding get
host_name os = or_empty (get os opt_host_name)

unfoldable pub client_identifier : Options → Bytes
unfolding get
client_identifier os = or_empty (get os opt_client_identifier)

-- `Options.parse` from index `i` on, the list being `data[i:]`. A round takes a byte at least, so
-- the length of the data is fuel enough.
unfoldable pub parse_loop : ℕ → Options → Bytes → Outcome Error Options
parse_loop fuel os [] = ok os
parse_loop zero os (code ∷ rest) = stuck
parse_loop (suc fuel) os (code ∷ []) =
    if code == opt_end then ok os else if code == opt_pad then ok os else err truncated_header
parse_loop (suc fuel) os (code ∷ len ∷ body) =
    let skip_pad = parse_loop fuel os (len ∷ body) in
    let more = parse_loop fuel (put os code (take len body)) (drop len body) in
    if code == opt_end
    then ok os
    else if code == opt_pad
    then skip_pad
    else if ltb (length body) len
    then err truncated_data
    else more

unfoldable pub parse : Bytes → Outcome Error Options
unfolding parse_loop put
parse input = parse_loop (length input) [] input

-- The wire form of one option: `for len(data) > 255` writes chunks of 255 bytes. A round takes 255
-- bytes, so the length of the value is fuel enough, and with no fuel left the value is empty.
unfoldable pub marshal_value : ℕ → ℕ → Bytes → Bytes
marshal_value zero code value = code ∷ (length value % 256) ∷ value
marshal_value (suc fuel) code value =
    let rest = marshal_value fuel code (drop 255 value) in
    if ltb 255 (length value)
    then code ∷ 255 ∷ (take 255 value ++ rest)
    else code ∷ (length value % 256) ∷ value

unfoldable pub marshal_option : ℕ → Bytes → Bytes
unfolding marshal_value
marshal_option code value =
    if code == opt_end || code == opt_pad then [] else marshal_value (length value) code value

unfoldable pub marshal_options : Options → Bytes
unfolding marshal_option
marshal_options [] = opt_end ∷ []
marshal_options ((code, value) ∷ os) = marshal_option code value ++ marshal_options os
