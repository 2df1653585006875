-- ===== src/Dhcp4/Values.antt =====
-- internal/dhcp/options.go: typed option values to and from the bytes of an option. A value has come
-- through `interface{}`: each constructor of Value is a Go type that the conversions tell apart. A
-- signed integer is the 64 bits of its two's complement. Text is its bytes.
pub mod Routes
pub mod RoundTrip
use dhcp_server.Base.{ℕ, zero, suc, ◌+◌, ◌-◌, ◌*◌, ◌/◌, ◌%◌, ◌^◌, ltb, leb, ◌==◌, Bool, true, false}
use dhcp_server.Base.{not, ◌&&◌, ◌||◌, Option, none, some, List, [], ◌∷◌, ◌++◌, if◌then◌else◌}
use dhcp_server.Base.{length, take, drop, replicate}
use dhcp_server.Base.Outcome.{Outcome, ok, err, panic, stuck, ◌>>=◌}
use dhcp_server.Base.Rows.{reject}
use dhcp_server.Base.Wire.{Bytes, u16, u32, byte_at, slice, be16_at, be32_at}
use dhcp_server.Net.{to4}

-- The names of the option types; `other` is each string that BuildOption does not name.
pub data OptionType : Type 0 where
  ip ips string uint8 uint16 uint32 int32 hex bool routes other : OptionType

-- A route as a map or as encoding/json reads it: two texts and a number.
pub record Route : Type 0 where
  pub destination : Bytes
  pub mask : ℕ
  pub router : Bytes

mutual
  pub data Value : Type 0 where
    text : Bytes → Value
    number : Bytes → Value
    uint : ℕ → Value
    int : ℕ → Value
    int64 : ℕ → Value
    small_int : ℕ → Value
    float : (truncated : ℕ) → (is_zero : Bool) → Value
    boolean : Bool → Value
    texts : List Bytes → Value
    items : Items → Value
    route_maps : List Route → Value
    opaque : ℕ → Value

  pub data Items : Type 0 where
    nil : Items
    cons : Value → Items → Items

-- What the source calls of Go's standard library.
pub record Library : Type 0 where
  -- net.ParseIP
  pub parse_ip : Bytes → Option Bytes
  -- net.IP.String
  pub print_ip : Bytes → Bytes
  -- strconv.ParseUint(s, 10, 64), strconv.ParseInt(s, 10, 64), strconv.ParseBool
  pub parse_uint : Bytes → Option ℕ
  pub parse_int : Bytes → Option ℕ
  pub parse_bool : Bytes → Option Bool
  -- strconv.ParseUint(s, 16, 8)
  pub parse_hex_byte : Bytes → Option ℕ
  -- fmt.Sprintf("%v", v) and fmt.Sprintf("%x", data)
  pub print : Value → Bytes
  pub print_hex : Bytes → Bytes
  -- strings.Split(s, ",") with strings.TrimSpace of each part
  pub split_trimmed : Bytes → List Bytes
  -- json.Unmarshal of json.Marshal into the slice of routes
  pub routes_of : Value → Option (List Route)

pub data Error : Type 0 where
  invalid_ip invalid_ip_list_type invalid_hex invalid_hex_length cannot_convert : Error
  invalid_route unsupported_option_type : Error

-- An error of the library, or its result.
unfoldable pub or_error : {A : Type 0} → Error → Option A → Outcome Error A
or_error e none = err e
or_error e (some a) = ok a

unfoldable pub to_string : Library → Value → Bytes
to_string lib (text s) = s
to_string lib (number s) = s
to_string lib v = lib.print v

unfoldable pub to_uint64 : Library → Value → Outcome Error ℕ
to_uint64 lib (uint n) = ok n
to_uint64 lib (int n) = ok n
to_uint64 lib (int64 n) = ok n
to_uint64 lib (float n z) = ok n
to_uint64 lib (number s) = or_error cannot_convert (lib.parse_int s)
to_uint64 lib (text s) = or_error cannot_convert (lib.parse_uint s)
to_uint64 lib _ = err cannot_convert

unfoldable pub to_int64 : Library → Value → Outcome Error ℕ
to_int64 lib (uint n) = ok n
to_int64 lib (int n) = ok n
to_int64 lib (int64 n) = ok n
to_int64 lib (small_int n) = ok n
to_int64 lib (float n z) = ok n
to_int64 lib (number s) = or_error cannot_convert (lib.parse_int s)
to_int64 lib (text s) = or_error cannot_convert (lib.parse_int s)
to_int64 lib _ = err cannot_convert

unfoldable pub to_bool : Library → Value → Outcome Error Bool
to_bool lib (boolean b) = ok b
to_bool lib (text s) = or_error cannot_convert (lib.parse_bool s)
to_bool lib (int n) = ok (not (n == 0))
to_bool lib (float n z) = ok (not z)
to_bool lib _ = err cannot_convert

unfoldable pub parse_ip : Library → Value → Outcome Error Bytes
parse_ip lib v = or_error invalid_ip (lib.parse_ip (to_string lib v))

-- The loops of parseIPList over texts.
unfoldable pub parse_ips : Library → List Bytes → Outcome Error (List Bytes)
parse_ips lib [] = ok []
parse_ips lib (s ∷ ss) =
    or_error invalid_ip (lib.parse_ip s) >>= λ a. (parse_ips lib ss >>= λ rest. ok (a ∷ rest))

unfoldable pub to_strings : Library → Items → List Bytes
to_strings lib nil = []
to_strings lib (cons v vs) = to_string lib v ∷ to_strings lib vs

unfoldable pub is_empty : Bytes → Bool
is_empty [] = true
is_empty (_ ∷ _) = false

unfoldable pub parse_ip_list : Library → Value → Outcome Error (List Bytes)
parse_ip_list lib (texts ss) = parse_ips lib ss
parse_ip_list lib (items vs) = parse_ips lib (to_strings lib vs)
parse_ip_list lib (text s) = parse_ips lib (reject is_empty (lib.split_trimmed s))
parse_ip_list lib _ = err invalid_ip_list_type

unfoldable pub hex_decode : Library → Bytes → Outcome Error Bytes
hex_decode lib [] = ok []
hex_decode lib (a ∷ []) = err invalid_hex_length
hex_decode lib (a ∷ b ∷ s) = or_error invalid_hex (lib.parse_hex_byte (a ∷ b ∷ [])) >>= λ n.
    (hex_decode lib s >>= λ ns. ok (n ∷ ns))

-- hexDecodeString: the length is tested before any digit.
unfoldable pub hex_decode_string : Library → Bytes → Outcome Error Bytes
hex_decode_string lib s = if length s % 2 == 0 then hex_decode lib s else err invalid_hex_length

-- The character ' ' is 32 and ':' is 58.
unfoldable pub parse_hex : Library → Value → Outcome Error Bytes
parse_hex lib v =
    hex_decode_string lib (reject (λ c. c == 58) (reject (λ c. c == 32) (to_string lib v)))

-- `IPToBytes`, with the empty list for nil, and `IPsToBytes`.
unfoldable pub ip_to_bytes : Bytes → Bytes
ip_to_bytes addr = elim (to4 addr) [ none ↦ [] | some v4 ↦ v4 ]

unfoldable pub ips_to_bytes : List Bytes → Bytes
ips_to_bytes [] = []
ips_to_bytes (addr ∷ addrs) = ip_to_bytes addr ++ ips_to_bytes addrs

-- `(mask + 7) / 8` on an int, with `none` for a negative quotient.
unfoldable pub mask_bytes : ℕ → Option ℕ
mask_bytes mask =
    let x = (mask + 7) % 2 ^ 64 in
    if ltb x (2 ^ 63) then some (x / 8) else if ltb (2 ^ 64 - x) 8 then some 0 else none

-- `dest[:maskBytes]` panics past the four bytes and before the first.
unfoldable pub mask_prefix : ℕ → Bytes → Outcome Error Bytes
mask_prefix mask dest = elim (mask_bytes mask) [
  | none ↦ panic
  | some n ↦ if leb n 4 then ok (take n dest) else panic
]

unfoldable pub parse_ip4 : Library → Bytes → Outcome Error Bytes
parse_ip4 lib s = elim (lib.parse_ip s) [
  | none ↦ err invalid_route
  | some a ↦ or_error invalid_route (to4 a)
]

unfoldable pub build_routes : Library → List Route → Outcome Error Bytes
build_routes lib [] = ok []
build_routes lib (r ∷ rs) = parse_ip4 lib r.destination >>= λ dest.
    (parse_ip4 lib r.router >>= λ router.
    (mask_prefix r.mask dest >>= λ prefix.
    (build_routes lib rs >>= λ rest. ok ((r.mask % 256) ∷ (prefix ++ (router ++ rest))))))

unfoldable pub build_classless_routes : Library → Value → Outcome Error Bytes
build_classless_routes lib v = or_error invalid_route (lib.routes_of v) >>= build_routes lib

unfoldable pub build_option : Library → OptionType → Value → Outcome Error Bytes
build_option lib ip v = parse_ip lib v >>= λ a. ok (ip_to_bytes a)
build_option lib ips v = parse_ip_list lib v >>= λ list. ok (ips_to_bytes list)
build_option lib string v = ok (to_string lib v)
build_option lib uint8 v = to_uint64 lib v >>= λ n. ok ((n % 256) ∷ [])
build_option lib uint16 v = to_uint64 lib v >>= λ n. ok (u16 n)
build_option lib uint32 v = to_uint64 lib v >>= λ n. ok (u32 n)
build_option lib int32 v = to_int64 lib v >>= λ n. ok (u32 n)
build_option lib hex v = parse_hex lib v
build_option lib bool v = to_bool lib v >>= λ b. ok (if b then 1 ∷ [] else 0 ∷ [])
build_option lib routes v = build_classless_routes lib v
build_option lib other v = err unsupported_option_type

-- The loop of parseClasslessRoutes; `(mask + 7) / 8` is computed in a byte. Each route takes five
-- bytes or more, so the length of the data is enough fuel.
unfoldable pub parse_routes : ℕ → Library → Bytes → List Route
parse_routes zero lib data' = []
parse_routes (suc fuel) lib [] = []
parse_routes (suc fuel) lib (mask ∷ data') =
    let n = (mask + 7) % 256 / 8 in
    let rest = parse_routes fuel lib (drop (n + 4) data') in
    if ltb (length data') (n + 4)
    then []
    else record {
      destination = lib.print_ip (take 4 (take n data' ++ replicate 4 0));
      mask = mask;
      router = lib.print_ip (slice n (n + 4) data');
    }
      ∷ rest

unfoldable pub parse_classless_routes : Library → Bytes → List Route
parse_classless_routes lib data' = parse_routes (length data') lib data'

-- The loop over the addresses; what is left of fewer than four bytes is passed over.
unfoldable pub parse_addresses : Library → Bytes → List Bytes
parse_addresses lib (a ∷ b ∷ c ∷ d ∷ data') =
    lib.print_ip (a ∷ b ∷ c ∷ d ∷ []) ∷ parse_addresses lib data'
parse_addresses lib _ = []

-- `int32(n)` of a uint32.
unfoldable pub sign_extend : ℕ → ℕ
sign_extend n = if ltb n (2 ^ 31) then n else n + (2 ^ 64 - 2 ^ 32)

unfoldable pub as_hex : Library → Bytes → OptionType × Value
as_hex lib data' = (hex, text (lib.print_hex data'))

-- ParseOptionValue; `def` is the type that the registry has for the code, if it has one.
unfoldable pub parse_option_value : Library → (def : Option OptionType) → Bytes → OptionType × Value
parse_option_value lib (some ip) data' =
    if leb 4 (length data') then (ip, text (lib.print_ip (take 4 data'))) else as_hex lib data'
parse_option_value lib (some ips) data' = (ips, texts (parse_addresses lib data'))
parse_option_value lib (some uint32) data' =
    if leb 4 (length data') then (uint32, uint (be32_at data' 0)) else as_hex lib data'
parse_option_value lib (some int32) data' =
    if leb 4 (length data')
    then (int32, small_int (sign_extend (be32_at data' 0)))
    else as_hex lib data'
parse_option_value lib (some uint16) data' =
    if leb 2 (length data') then (uint16, uint (be16_at data' 0)) else as_hex lib data'
parse_option_value lib (some uint8) data' =
    if leb 1 (length data') then (uint8, uint (byte_at data' 0)) else as_hex lib data'
parse_option_value lib (some string) data' = (string, text data')
parse_option_value lib (some routes) data' = (routes, route_maps (parse_classless_routes lib data'))
parse_option_value lib _ data' = as_hex lib data'
