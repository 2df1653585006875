-- ===== src/Dhcp4/Values/RoundTrip.antt =====
-- internal/dhcp/options.go: BuildOption gives back the bytes that ParseOptionValue has read.
use dhcp_server.Base.{ℕ, ◌+◌, ◌-◌, ◌*◌, ◌/◌, ◌%◌, ◌^◌, ◌≡◌, ◌≢◌, refl, ◌∙◌, ap}
use dhcp_server.Base.{ltb, ◌==◌, true, false, Bool-cases, Option, none, some, List, [], ◌∷◌}
use dhcp_server.Base.{◌++◌, if◌then◌else◌, inl, inr, length, All, take_all, arith}
use dhcp_server.Base.Outcome.{ok}
use dhcp_server.Base.Rows.{reject}
use dhcp_server.Base.Wire.{Bytes, IsByte, u16, u32, be16_at, be32, be32_at, byte_at}
use dhcp_server.Net.{to4, v4_in_v6_prefix, bytes_equal}
use dhcp_server.Dhcp4.Values.{
  OptionType, ip, ips, string, uint8, uint16, uint32, int32, hex, bool, routes, other, text,
  Library, or_error, to_string, to_uint64, to_int64, parse_ip, parse_ips, parse_ip_list, hex_decode,
  hex_decode_string, parse_hex, ip_to_bytes, ips_to_bytes, build_option, parse_addresses,
  sign_extend, as_hex, parse_option_value,
}

-- A hexadecimal digit as a character.
abbrev pub digit : ℕ → ℕ
digit d = if ltb d 10 then 48 + d else 87 + d

-- What the standard library documents of the calls: the text of an IPv4 address is read as its
-- sixteen-byte form, and %x prints two digits for a byte and ParseUint reads them.
pub record IsLawful (lib : Library) : Type 0 where
  pub address :
      (a : Bytes)
      → length a ≡ 4
      → All IsByte a
      → lib.parse_ip (lib.print_ip a) ≡ some (v4_in_v6_prefix ++ a)
  pub hex_nil : lib.print_hex [] ≡ []
  pub hex_cons :
      (b : ℕ) (bs : Bytes)
      → IsByte b
      → All IsByte bs
      → lib.print_hex (b ∷ bs) ≡ digit (b / 16) ∷ digit (b % 16) ∷ lib.print_hex bs
  pub hex_byte :
      (b : ℕ) → IsByte b → lib.parse_hex_byte (digit (b / 16) ∷ digit (b % 16) ∷ []) ≡ some b

pub to4-mapped : (a : Bytes) → length a ≡ 4 → to4 (v4_in_v6_prefix ++ a) ≡ some a
unfolding to4 bytes_equal
to4-mapped a h = rw h refl

ip_to_bytes-mapped : (a : Bytes) → length a ≡ 4 → ip_to_bytes (v4_in_v6_prefix ++ a) ≡ a
unfolding ip_to_bytes
ip_to_bytes-mapped a h = rw (to4-mapped a h, ip_to_bytes) refl

hex_text-clean :
    (lib : Library) (bs : Bytes)
    → IsLawful lib
    → All IsByte bs
    → reject (λ c. c == 58) (reject (λ c. c == 32) (lib.print_hex bs)) ≡ lib.print_hex bs
unfolding reject
hex_text-clean lib [] w h = rw w.hex_nil refl
hex_text-clean lib (b ∷ bs) w (hb, hs) =
    let x : (digit (b / 16) == 32) ≡ false = ground arith in
    let y : (digit (b % 16) == 32) ≡ false = ground arith in
    let x' : (digit (b / 16) == 58) ≡ false = ground arith in
    let y' : (digit (b % 16) == 58) ≡ false = ground arith in
    rw (w.hex_cons b bs hb hs, x, y, x', y', hex_text-clean lib bs w hs) refl

length-print_hex :
    (lib : Library) (bs : Bytes)
    → IsLawful lib
    → All IsByte bs
    → length (lib.print_hex bs) ≡ 2 * length bs
length-print_hex lib [] w h = rw w.hex_nil refl
length-print_hex lib (b ∷ bs) w (hb, hs) =
    rw (w.hex_cons b bs hb hs) (omega (arith, length-print_hex lib bs w hs))

hex_decode-print_hex :
    (lib : Library) (bs : Bytes)
    → IsLawful lib
    → All IsByte bs
    → hex_decode lib (lib.print_hex bs) ≡ ok bs
unfolding hex_decode or_error
hex_decode-print_hex lib [] w h = rw w.hex_nil refl
hex_decode-print_hex lib (b ∷ bs) w (hb, hs) =
    rw (w.hex_cons b bs hb hs, w.hex_byte b hb, hex_decode-print_hex lib bs w hs) refl

parse_hex-print_hex :
    (lib : Library) (bs : Bytes)
    → IsLawful lib
    → All IsByte bs
    → parse_hex lib (text (lib.print_hex bs)) ≡ ok bs
unfolding parse_hex to_string hex_decode_string
parse_hex-print_hex lib bs w h =
    let n = length-print_hex lib bs w h in
    let even : (length (lib.print_hex bs) % 2 == 0) ≡ true = ground arith in
    rw (hex_text-clean lib bs w h, even, hex_decode-print_hex lib bs w h) refl

parse_addresses-back :
    (lib : Library) (bs : Bytes)
    → IsLawful lib
    → All IsByte bs
    → length bs % 4 ≡ 0
    → (as' : List Bytes) × (parse_ips lib (parse_addresses lib bs) ≡ ok as')
      × (ips_to_bytes as' ≡ bs)
unfolding parse_ips parse_addresses ips_to_bytes or_error
parse_addresses-back lib [] w hb h = ([], refl, refl)
parse_addresses-back lib (a ∷ []) w hb h = absurd (omega arith)
parse_addresses-back lib (a ∷ b ∷ []) w hb h = absurd (omega arith)
parse_addresses-back lib (a ∷ b ∷ c ∷ []) w hb h = absurd (omega arith)
parse_addresses-back lib (a ∷ b ∷ c ∷ d ∷ bs) w (ha, (hb, (hc, (hd, hs)))) h =
    let is_quad : All IsByte (a ∷ b ∷ c ∷ d ∷ []) = (ha, (hb, (hc, (hd, tt)))) in
    let quad : Bytes = a ∷ b ∷ c ∷ d ∷ [] in
    let (rest, parsed, back) = parse_addresses-back lib bs w hs (omega arith) in
    (
      (v4_in_v6_prefix ++ quad) ∷ rest,
      rw (w.address quad refl is_quad, parsed) refl,
      rw (ip_to_bytes-mapped quad refl, back) refl,
    )

-- The data has the size of its type: the readers take no more of it.
unfoldable pub IsSized : Option OptionType → Bytes → Type 0
IsSized (some ip) bs = length bs ≡ 4
IsSized (some ips) bs = length bs % 4 ≡ 0
IsSized (some uint32) bs = length bs ≡ 4
IsSized (some int32) bs = length bs ≡ 4
IsSized (some uint16) bs = length bs ≡ 2
IsSized (some uint8) bs = length bs ≡ 1
IsSized _ bs = Unit

u32-be32 :
    (a b c d : ℕ)
    → IsByte a
    → IsByte b
    → IsByte c
    → IsByte d
    → u32 (be32 a b c d) ≡ a ∷ b ∷ c ∷ d ∷ []
u32-be32 a b c d ha hb hc hd =
    let n = be32 a b c d in
    let x : n / 2 ^ 24 % 256 ≡ a = omega arith in
    let y : n / 2 ^ 16 % 256 ≡ b = omega arith in
    let z : n / 256 % 256 ≡ c = omega arith in
    let t : n % 256 ≡ d = omega arith in rw (x, y, z, t) refl

four_bytes :
    (f : ℕ → ℕ) (bs : Bytes)
    → length bs ≡ 4
    → All IsByte bs
    → ((n : ℕ) → u32 (f n) ≡ u32 n)
    → u32 (f (be32_at bs 0)) ≡ bs
four_bytes f (a ∷ b ∷ c ∷ d ∷ []) h (ha, (hb, (hc, (hd, _)))) same =
    same (be32_at (a ∷ b ∷ c ∷ d ∷ []) 0) ∙ u32-be32 a b c d ha hb hc hd
four_bytes f [] h w same = absurd (omega arith)
four_bytes f (a ∷ []) h w same = absurd (omega arith)
four_bytes f (a ∷ b ∷ []) h w same = absurd (omega arith)
four_bytes f (a ∷ b ∷ c ∷ []) h w same = absurd (omega arith)
four_bytes f (a ∷ b ∷ c ∷ d ∷ e ∷ bs) h w same = absurd (omega arith)

u16-be16_at : (bs : Bytes) → length bs ≡ 2 → All IsByte bs → u16 (be16_at bs 0) ≡ bs
u16-be16_at (a ∷ b ∷ []) h (ha, (hb, _)) =
    let x : (a * 256 + b) / 256 % 256 ≡ a = omega arith in
    let y : (a * 256 + b) % 256 ≡ b = omega arith in rw (x, y) refl
u16-be16_at [] h w = absurd (omega arith)
u16-be16_at (a ∷ []) h w = absurd (omega arith)
u16-be16_at (a ∷ b ∷ c ∷ bs) h w = absurd (omega arith)

one_byte : (bs : Bytes) → length bs ≡ 1 → All IsByte bs → (byte_at bs 0 % 256) ∷ [] ≡ bs
one_byte (a ∷ []) h (ha, _) = let x : a % 256 ≡ a = omega arith in rw x refl
one_byte [] h w = absurd (omega arith)
one_byte (a ∷ b ∷ bs) h w = absurd (omega arith)

u32-sign_extend : (n : ℕ) → u32 (sign_extend n) ≡ u32 n
unfolding sign_extend
u32-sign_extend n = elim (Bool-cases (ltb n (2 ^ 31))) [
  | inl small ↦ rw small refl
  | inr large ↦
      let m = n + (2 ^ 64 - 2 ^ 32) in
      let a : m / 2 ^ 24 % 256 ≡ n / 2 ^ 24 % 256 = omega arith in
      let b : m / 2 ^ 16 % 256 ≡ n / 2 ^ 16 % 256 = omega arith in
      let c : m / 256 % 256 ≡ n / 256 % 256 = omega arith in
      let d : m % 256 ≡ n % 256 = omega arith in rw (large, a, b, c, d) refl
]

-- When the standard library does what it documents, BuildOption gives back the bytes of every option
-- that ParseOptionValue has read, whatever type the registry has for its code or if it has none, for
-- data of the size of its type; routes are left out.
pub build_option-parse_option_value :
    (lib : Library) (def : Option OptionType) (bs : Bytes)
    → IsLawful lib
    → All IsByte bs
    → IsSized def bs
    → def ≢ some routes
    → build_option lib (parse_option_value lib def bs).0 (parse_option_value lib def bs).1 ≡ ok bs
unfolding build_option parse_option_value as_hex IsSized parse_ip to_string or_error to_uint64
    to_int64 parse_ip_list
build_option-parse_option_value lib none bs w h s n = parse_hex-print_hex lib bs w h
build_option-parse_option_value lib (some hex) bs w h s n = parse_hex-print_hex lib bs w h
build_option-parse_option_value lib (some bool) bs w h s n = parse_hex-print_hex lib bs w h
build_option-parse_option_value lib (some other) bs w h s n = parse_hex-print_hex lib bs w h
build_option-parse_option_value lib (some string) bs w h s n = refl
build_option-parse_option_value lib (some routes) bs w h s n = absurd (n refl)
build_option-parse_option_value lib (some ips) bs w h s n =
    let (as', parsed, back) = parse_addresses-back lib bs w h s in rw (parsed, back) refl
build_option-parse_option_value lib (some ip) bs w h s n =
    rw (s, take_all 4 bs (omega arith), w.address bs s h, ip_to_bytes-mapped bs s) refl
build_option-parse_option_value lib (some uint32) bs w h s n =
    rw s (ap ok (four_bytes (λ x. x) bs s h (λ x. refl)))
build_option-parse_option_value lib (some int32) bs w h s n =
    rw s (ap ok (four_bytes sign_extend bs s h u32-sign_extend))
build_option-parse_option_value lib (some uint16) bs w h s n = rw s (ap ok (u16-be16_at bs s h))
build_option-parse_option_value lib (some uint8) bs w h s n = rw s (ap ok (one_byte bs s h))
