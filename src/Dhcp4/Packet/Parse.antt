-- ===== src/Dhcp4/Packet/Parse.antt =====
-- Options.parse and ParsePacket on any datagram.
use dhcp_server.Base.{ℕ, zero, suc, ◌+◌, ◌≤◌, ◌≡◌, ◌≢◌, refl, arith, [], ◌∷◌}
use dhcp_server.Base.{
  length, length-drop, length-take, take, drop, ltb, ◌==◌, min, All, not, Bool, true, false,
  if◌then◌else◌, ltb→le, subst,
}
use dhcp_server.Net.{bytes_equal}
use dhcp_server.Base.Outcome.{
  Outcome, ok, err, stuck, bind-ne-stuck, bind-eq-ok, ok_injective, err-ne-stuck, ok-ne-stuck,
}
use dhcp_server.Base.Wire.{Bytes, slice}
use dhcp_server.Dhcp4.Options.{too_short, bad_magic_cookie, missing_message_type}
use dhcp_server.Dhcp4.Options.{Options, Error, put, parse_loop, parse, message_type}
use dhcp_server.Dhcp4.Options.Map.{IsMap, put-IsMap}
use dhcp_server.Dhcp4.Packet.{Packet, capped, header_of, parse_packet, magic_cookie}

parse_loop-ne-stuck :
    (fuel : ℕ) (os : Options) (input : Bytes)
    → length input ≤ fuel
    → parse_loop fuel os input ≢ stuck
unfolding parse_loop
parse_loop-ne-stuck fuel os [] h = λ e. cc
parse_loop-ne-stuck zero os (code ∷ rest) h = absurd (omega arith)
parse_loop-ne-stuck (suc fuel) os (code ∷ []) h = ground arith
parse_loop-ne-stuck (suc fuel) os (code ∷ len ∷ body) h = ground (
  arith,
  length-drop len body,
  parse_loop-ne-stuck fuel os (len ∷ body),
  parse_loop-ne-stuck fuel (put os code (take len body)) (drop len body),
)

pub parse-ne-stuck : (input : Bytes) → parse input ≢ stuck
unfolding parse
parse-ne-stuck input = parse_loop-ne-stuck (length input) [] input (omega arith)

if-ne-stuck :
    {E A : Type 0} (b : Bool) (m n : Outcome E A)
    → m ≢ stuck
    → n ≢ stuck
    → (if b then m else n) ≢ stuck
if-ne-stuck true m n h k = h
if-ne-stuck false m n h k = k

-- A refused test in front of a successful parse.
if-err-eq-ok :
    {E A : Type 0} (b : Bool) (x : E) (m : Outcome E A) {a : A}
    → (if b then err x else m) ≡ ok a
    → (b ≡ false) × (m ≡ ok a)
if-err-eq-ok true x m h = cc
if-err-eq-ok false x m h = (refl, h)

-- ParsePacket comes to an end on every datagram.
pub parse_packet-ne-stuck : (input : Bytes) → parse_packet input ≢ stuck
unfolding parse_packet
parse_packet-ne-stuck input = if-ne-stuck _ _ _ (err-ne-stuck too_short) (
    if-ne-stuck _ _ _ (err-ne-stuck bad_magic_cookie) (
      bind-ne-stuck (parse (drop 240 input)) _ (parse-ne-stuck (drop 240 input))
        (λ os e. if-ne-stuck _ _ _ (err-ne-stuck missing_message_type) (ok-ne-stuck _))))

-- Every entry has a code that is neither Pad nor End, and a value of one option's size.
abbrev pub IsOption : ℕ × Bytes → Type 0
IsOption (code, value) = (code ≢ 0) × (code ≢ 255)

put-IsOption :
    (os : Options) (code : ℕ) (value : Bytes)
    → code ≢ 0
    → code ≢ 255
    → All IsOption os
    → All IsOption (put os code value)
unfolding put
put-IsOption [] code value a b h = ((a, b), tt)
put-IsOption ((c, v) ∷ os) code value a b (h, hs) =
    ground (arith, put-IsOption os code value a b hs)

abbrev IsParsed : Outcome Error Options → Type 0
IsParsed (ok os) = IsMap os × All IsOption os
IsParsed _ = Unit

parse_loop-IsParsed :
    (fuel : ℕ) (os : Options) (input : Bytes)
    → IsMap os
    → All IsOption os
    → IsParsed (parse_loop fuel os input)
unfolding parse_loop
parse_loop-IsParsed fuel os [] m h = (m, h)
parse_loop-IsParsed zero os (code ∷ rest) m h = tt
parse_loop-IsParsed (suc fuel) os (code ∷ []) m h = ground arith
parse_loop-IsParsed (suc fuel) os (code ∷ len ∷ body) m h = ground (
  arith,
  parse_loop-IsParsed fuel os (len ∷ body) m h,
  parse_loop-IsParsed fuel (put os code (take len body)) (drop len body)
      (put-IsMap os code (take len body) m),
  put-IsOption os code (take len body),
)

parse-IsParsed : (input : Bytes) (os : Options) → parse input ≡ ok os → IsMap os × All IsOption os
unfolding parse
parse-IsParsed input os h = rw h at (parse_loop-IsParsed (length input) [] input tt tt)

-- What the server relies on of a packet that ParsePacket has accepted.
pub record IsValid (p : Packet) : Type 0 where
  pub ciaddr_is_v4 : length p.ciaddr ≡ 4
  pub yiaddr_is_v4 : length p.yiaddr ≡ 4
  pub siaddr_is_v4 : length p.siaddr ≡ 4
  pub giaddr_is_v4 : length p.giaddr ≡ 4
  pub chaddr_is_hlen : length p.chaddr ≡ min p.hlen 16
  pub sname_is_64 : length p.sname ≡ 64
  pub file_is_128 : length p.file ≡ 128
  pub has_message_type : message_type p.options ≢ 0
  pub options_map : IsMap p.options
  pub options_proper : All IsOption p.options

length-slice : (n m : ℕ) (input : Bytes) → n + m ≤ length input → length (take m (drop n input)) ≡ m
length-slice n m input h = omega (arith, length-take m (drop n input), length-drop n input)

header_of-IsValid :
    (input : Bytes) (os : Options)
    → 240 ≤ length input
    → IsMap os
    → All IsOption os
    → message_type os ≢ 0
    → IsValid (header_of input os)
unfolding header_of capped
header_of-IsValid input os long m h t = record {
  ciaddr_is_v4 = length-slice 12 4 input (omega arith);
  yiaddr_is_v4 = length-slice 16 4 input (omega arith);
  siaddr_is_v4 = length-slice 20 4 input (omega arith);
  giaddr_is_v4 = length-slice 24 4 input (omega arith);
  chaddr_is_hlen = ground (arith, length-slice 28 (capped (header_of input os).hlen) input);
  sname_is_64 = length-slice 44 64 input (omega arith);
  file_is_128 = length-slice 108 128 input (omega arith);
  has_message_type = t;
  options_map = m;
  options_proper = h;
}

-- A packet that ParsePacket accepts has addresses of four bytes, a hardware address of at most 16
-- bytes and as many as HLen says, a message type other than 0, and options that are a map with no
-- Pad and no End.
pub parse_packet-IsValid : (input : Bytes) (p : Packet) → parse_packet input ≡ ok p → IsValid p
unfolding parse_packet
parse_packet-IsValid input p h =
    let (long, h1) = if-err-eq-ok (ltb (length input) 240) _ _ h in
    let (cookie, h2) = if-err-eq-ok (not (bytes_equal (slice 236 240 input) magic_cookie)) _ _ h1 in
    let (os, parsed, h3) = bind-eq-ok (parse (drop 240 input)) _ h2 in
    let (typed, h4) = if-err-eq-ok (message_type os == 0) _ _ h3 in
    let (m, all) = parse-IsParsed (drop 240 input) os parsed in
    subst IsValid (ok_injective h4)
      (header_of-IsValid input os (ltb→le (length input) 240 long) m all (ground arith))
