-- ===== src/Tests/ValuesRuns.antt =====
-- Runs of the option values and witnesses of their theorems, with a small standard library.
use dhcp_server.Base.{ℕ, ◌+◌, ◌-◌, ◌*◌, ◌/◌, ◌%◌, ◌≡◌, refl, ltb}
use dhcp_server.Base.{Option, none, some, List, [], ◌∷◌, ◌++◌, if◌then◌else◌, length, arith, All}
use dhcp_server.Base.Outcome.{ok, panic}
use dhcp_server.Base.Wire.{Bytes, IsByte}
use dhcp_server.Net.{v4_in_v6_prefix, to4, bytes_equal}
use dhcp_server.Dhcp4.Values.{
  uint32, Value, route_maps, Route, Library, build_option, parse_option_value,
  build_classless_routes, parse_classless_routes, build_routes, parse_ip4, mask_prefix, mask_bytes,
  or_error, parse_routes,
}
use dhcp_server.Dhcp4.Values.RoundTrip.{digit, IsLawful, IsSized, build_option-parse_option_value}
use dhcp_server.Dhcp4.Values.Routes.{
  IsRoute, IsAscii, ReadsRoutes, parse_classless_routes-build_classless_routes,
}

unfoldable pub digit_value : ℕ → ℕ
digit_value c = if ltb c 58 then c - 48 else c - 87

unfoldable pub print_digits : Bytes → Bytes
print_digits [] = []
print_digits (b ∷ bs) = digit (b / 16) ∷ digit (b % 16) ∷ print_digits bs

unfoldable pub read_digits : Bytes → Option ℕ
read_digits (a ∷ b ∷ []) = some (digit_value a * 16 + digit_value b)
read_digits _ = none

unfoldable pub routes_in : Value → Option (List Route)
routes_in (route_maps rs) = some rs
routes_in _ = none

unfoldable pub read_address : Bytes → Option Bytes
read_address (a ∷ b ∷ c ∷ d ∷ e ∷ f ∷ g ∷ h ∷ []) = some (
    v4_in_v6_prefix
    ++ ((digit_value a * 16 + digit_value b)
        ∷ (digit_value c * 16 + digit_value d)
        ∷ (digit_value e * 16 + digit_value f)
        ∷ (digit_value g * 16 + digit_value h)
        ∷ []))
read_address _ = none

-- Addresses are written in hexadecimal digits.
abbrev pub library : Library
library = record {
  parse_ip = read_address;
  print_ip = print_digits;
  parse_uint = λ s. none;
  parse_int = λ s. none;
  parse_bool = λ s. none;
  parse_hex_byte = read_digits;
  print = λ v. [];
  print_hex = print_digits;
  split_trimmed = λ s. s ∷ [];
  routes_of = routes_in;
}

two_digits :
    (b : ℕ) → IsByte b → digit_value (digit (b / 16)) * 16 + digit_value (digit (b % 16)) ≡ b
unfolding digit_value
two_digits b h = ground arith

library-address :
    (a : Bytes)
    → length a ≡ 4
    → All IsByte a
    → library.parse_ip (library.print_ip a) ≡ some (v4_in_v6_prefix ++ a)
unfolding print_digits read_address
library-address (a ∷ b ∷ c ∷ d ∷ []) h (ha, (hb, (hc, (hd, _)))) =
    rw (two_digits a ha, two_digits b hb, two_digits c hc, two_digits d hd) refl
library-address [] h w = absurd (omega arith)
library-address (a ∷ []) h w = absurd (omega arith)
library-address (a ∷ b ∷ []) h w = absurd (omega arith)
library-address (a ∷ b ∷ c ∷ []) h w = absurd (omega arith)
library-address (a ∷ b ∷ c ∷ d ∷ e ∷ r) h w = absurd (omega arith)

print_digits-IsAscii : (a : Bytes) → All IsByte a → IsAscii (print_digits a)
unfolding print_digits
print_digits-IsAscii [] h = tt
print_digits-IsAscii (b ∷ bs) (h, hs) = (ground arith, (ground arith, print_digits-IsAscii bs hs))

library-ReadsRoutes : ReadsRoutes library
unfolding routes_in
library-ReadsRoutes = record { ascii = λ a n h. print_digits-IsAscii a h; maps = λ rs h. refl }

library-IsLawful : IsLawful library
unfolding print_digits read_digits digit_value
library-IsLawful = record {
  address = library-address;
  hex_nil = refl;
  hex_cons = λ b bs h hs. refl;
  hex_byte = λ b h. ground arith;
}

build_option-parse_option_value_example :
    build_option library
      (parse_option_value library (some uint32) (0 ∷ 1 ∷ 2 ∷ 255 ∷ [])).0
      (parse_option_value library (some uint32) (0 ∷ 1 ∷ 2 ∷ 255 ∷ [])).1
    ≡ ok (0 ∷ 1 ∷ 2 ∷ 255 ∷ [])
unfolding IsSized
build_option-parse_option_value_example =
    build_option-parse_option_value library (some uint32) (0 ∷ 1 ∷ 2 ∷ 255 ∷ []) library-IsLawful
      (omega arith, (omega arith, (omega arith, (omega arith, tt)))) refl (λ e. cc)

-- 10.1.0.0/12 by 10.0.0.1.
abbrev branch : Route
branch = record {
  destination = library.print_ip (10 ∷ 1 ∷ 0 ∷ 0 ∷ []);
  mask = 12;
  router = library.print_ip (10 ∷ 0 ∷ 0 ∷ 1 ∷ []);
}

branch-IsRoute : IsRoute library branch
branch-IsRoute = record {
  dest = 10 ∷ 1 ∷ 0 ∷ 0 ∷ [];
  gateway = 10 ∷ 0 ∷ 0 ∷ 1 ∷ [];
  dest_text = refl;
  gateway_text = refl;
  dest_bytes = (omega arith, (omega arith, (omega arith, (omega arith, tt))));
  gateway_bytes = (omega arith, (omega arith, (omega arith, (omega arith, tt))));
  dest_length = refl;
  gateway_length = refl;
  mask_fits = omega arith;
  dest_zero = refl;
}

parse_classless_routes-build_classless_routes_example :
    (bs : Bytes) × (build_classless_routes library (route_maps (branch ∷ [])) ≡ ok bs)
    × (parse_classless_routes library bs ≡ branch ∷ [])
parse_classless_routes-build_classless_routes_example =
    parse_classless_routes-build_classless_routes library (branch ∷ []) library-IsLawful
      library-ReadsRoutes (branch-IsRoute, tt)

-- A mask of more than 32 bits: the slice of the destination is out of range.
long_mask_panics :
    build_classless_routes library (route_maps (record branch { mask = 33 } ∷ [])) ≡ panic
unfolding build_classless_routes routes_in or_error build_routes parse_ip4 to4 bytes_equal
    read_address print_digits digit_value mask_prefix mask_bytes
long_mask_panics = refl

-- A route whose mask byte is 255: `mask + 7` wraps around in a byte, and the route is read as one
-- with no byte of the destination.
wrapped_mask :
    parse_classless_routes library (255 ∷ 10 ∷ 0 ∷ 0 ∷ 1 ∷ [])
    ≡ record {
      destination = library.print_ip (0 ∷ 0 ∷ 0 ∷ 0 ∷ []);
      mask = 255;
      router = library.print_ip (10 ∷ 0 ∷ 0 ∷ 1 ∷ []);
    }
      ∷ []
unfolding parse_classless_routes parse_routes
wrapped_mask = refl
