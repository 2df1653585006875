-- ===== src/Dhcp4/Values/Routes.antt =====
-- internal/dhcp/options.go: the classless routes of RFC 3442, built and read back.
use dhcp_server.Base.{ℕ, zero, suc, ◌+◌, ◌-◌, ◌/◌, ◌%◌, ◌≤◌, ◌≡◌, refl, sym, ◌∙◌, ap}
use dhcp_server.Base.{ltb, leb, true, false, some, List, [], ◌∷◌, ◌++◌, length, take, drop}
use dhcp_server.Base.{
  replicate, All, subst, ◌<◌, ◌^◌, take-append, drop-append, length-append, length-take,
}
use dhcp_server.Base.{append_assoc, arith}
use dhcp_server.Base.Outcome.{ok}
use dhcp_server.Base.Wire.{Bytes, IsByte, slice}
use dhcp_server.Dhcp4.Values.{
  Route, route_maps, Library, or_error, mask_bytes, mask_prefix, parse_ip4, build_routes,
  build_classless_routes, parse_routes, parse_classless_routes,
}
use dhcp_server.Dhcp4.Values.RoundTrip.{IsLawful, to4-mapped}

-- The number of bytes that a mask of at most 32 bits covers.
abbrev pub covered : ℕ → ℕ
covered mask = (mask + 7) / 8

-- Text of the first 128 characters, which encoding/json writes and reads without a replacement.
abbrev pub IsAscii : Bytes → Type 0
IsAscii s = All (λ c. c < 128) s

-- What is documented of encoding/json and net.IP: maps of routes with such texts and masks of an int
-- are read back, and an IPv4 address is written in digits and dots.
pub record ReadsRoutes (lib : Library) : Type 0 where
  pub ascii : (a : Bytes) → length a ≡ 4 → All IsByte a → IsAscii (lib.print_ip a)
  pub maps :
      (rs : List Route)
      → All (λ r. IsAscii r.destination × IsAscii r.router × (r.mask < 2 ^ 31)) rs
      → lib.routes_of (route_maps rs) ≡ some rs

-- A route with the texts of two addresses and a mask of at most 32 bits, the destination being zero
-- behind the bytes that the mask covers.
pub record IsRoute (lib : Library) (r : Route) : Type 0 where
  pub dest : Bytes
  pub gateway : Bytes
  pub dest_text : r.destination ≡ lib.print_ip dest
  pub gateway_text : r.router ≡ lib.print_ip gateway
  pub dest_bytes : All IsByte dest
  pub gateway_bytes : All IsByte gateway
  pub dest_length : length dest ≡ 4
  pub gateway_length : length gateway ≡ 4
  pub mask_fits : r.mask ≤ 32
  pub dest_zero : take 4 (take (covered r.mask) dest ++ replicate 4 0) ≡ dest

mask_bytes-covered : (mask : ℕ) → mask ≤ 32 → mask_bytes mask ≡ some (covered mask)
unfolding mask_bytes
mask_bytes-covered mask h = ground arith

mask_prefix-ok :
    (mask : ℕ) (dest : Bytes) → mask ≤ 32 → mask_prefix mask dest ≡ ok (take (covered mask) dest)
unfolding mask_prefix
mask_prefix-ok mask dest h =
    let z : leb ((mask + 7) / 8) 4 ≡ true = ground arith in
    rw (mask_bytes-covered mask h, mask_prefix, z) refl

parse_ip4-text :
    (lib : Library) (a : Bytes)
    → IsLawful lib
    → length a ≡ 4
    → All IsByte a
    → parse_ip4 lib (lib.print_ip a) ≡ ok a
unfolding parse_ip4 or_error
parse_ip4-text lib a w h b = rw (w.address a h b, parse_ip4, to4-mapped a h) refl

-- One route on the wire.
abbrev route_bytes : (mask : ℕ) → (dest gateway rest : Bytes) → Bytes
route_bytes mask dest gateway rest = (mask % 256) ∷ (take (covered mask) dest ++ (gateway ++ rest))

parse_routes-route_bytes :
    (lib : Library) (r : Route) (w : IsRoute lib r) (fuel : ℕ) (rest : Bytes)
    → parse_routes (suc fuel) lib (route_bytes r.mask w.dest w.gateway rest)
      ≡ r ∷ parse_routes fuel lib rest
unfolding parse_routes
parse_routes-route_bytes lib r w fuel rest =
    let n = covered r.mask in
    let fits = w.mask_fits in
    let front = take n w.dest in
    let data' = front ++ (w.gateway ++ rest) in
    let same : (r.mask % 256 + 7) % 256 / 8 ≡ n = omega arith in
    let mask : r.mask % 256 ≡ r.mask = omega arith in
    let len : length front ≡ n = length-take n w.dest ∙ (let l = w.dest_length in omega arith) in
    let all : length data' ≡ n + (4 + length rest) =
      length-append front (w.gateway ++ rest)
      ∙ (let g = w.gateway_length in let a = length-append w.gateway rest in omega arith) in
    let enough : ltb (length data') (n + 4) ≡ false = ground arith in
    let cut : take n data' ≡ front = take-append n front (w.gateway ++ rest) len in
    let after : drop n data' ≡ w.gateway ++ rest = drop-append n front (w.gateway ++ rest) len in
    let four : n + 4 - n ≡ 4 = omega arith in
    let router : slice n (n + 4) data' ≡ w.gateway =
      ap (λ k. take k (drop n data')) four
      ∙ (ap (take 4) after ∙ take-append 4 w.gateway rest w.gateway_length) in
    let len' : length (front ++ w.gateway) ≡ n + 4 =
      length-append front w.gateway ∙ (let g = w.gateway_length in omega arith) in
    let tail : drop (n + 4) data' ≡ rest =
      ap (drop (n + 4)) (sym (append_assoc front w.gateway rest))
      ∙ drop-append (n + 4) (front ++ w.gateway) rest len' in
    rw (same, enough, cut, w.dest_zero, router, tail, mask, ← w.dest_text, ← w.gateway_text) refl

build_routes-cons :
    (lib : Library) (r : Route) (rs : List Route) (w : IsRoute lib r) (rest : Bytes)
    → IsLawful lib
    → build_routes lib rs ≡ ok rest
    → build_routes lib (r ∷ rs) ≡ ok (route_bytes r.mask w.dest w.gateway rest)
unfolding build_routes
build_routes-cons lib r rs w rest l h =
    let dest : parse_ip4 lib r.destination ≡ ok w.dest =
      ap (parse_ip4 lib) w.dest_text ∙ parse_ip4-text lib w.dest l w.dest_length w.dest_bytes in
    let router : parse_ip4 lib r.router ≡ ok w.gateway =
      ap (parse_ip4 lib) w.gateway_text
      ∙ parse_ip4-text lib w.gateway l w.gateway_length w.gateway_bytes in
    rw (dest, router, mask_prefix-ok r.mask w.dest w.mask_fits, h) refl

long_enough :
    (lib : Library) (r : Route) (rs : List Route) (w : IsRoute lib r) (rest : Bytes)
    → ((fuel : ℕ) → length rest ≤ fuel → parse_routes fuel lib rest ≡ rs)
    → (fuel : ℕ) → length (route_bytes r.mask w.dest w.gateway rest) ≤ fuel
    → parse_routes fuel lib (route_bytes r.mask w.dest w.gateway rest) ≡ r ∷ rs
long_enough lib r rs w rest back zero n = absurd (omega arith)
long_enough lib r rs w rest back (suc fuel) n =
    let a = length-append (take (covered r.mask) w.dest) (w.gateway ++ rest) in
    let b = length-append w.gateway rest in
    parse_routes-route_bytes lib r w fuel rest ∙ ap (◌∷◌ r) (back fuel (omega arith))

parse_routes-nil : (lib : Library) (fuel : ℕ) → parse_routes fuel lib [] ≡ []
unfolding parse_routes
parse_routes-nil lib zero = refl
parse_routes-nil lib (suc fuel) = refl

read_back :
    (lib : Library) (rs : List Route)
    → IsLawful lib
    → All (IsRoute lib) rs
    → (bs : Bytes) × (build_routes lib rs ≡ ok bs)
      × ((fuel : ℕ) → length bs ≤ fuel → parse_routes fuel lib bs ≡ rs)
unfolding build_routes parse_routes
read_back lib [] l h = ([], refl, λ fuel n. parse_routes-nil lib fuel)
read_back lib (r ∷ rs) l (w, ws) =
    let (rest, built, back) = read_back lib rs l ws in
    (
      route_bytes r.mask w.dest w.gateway rest,
      build_routes-cons lib r rs w rest l built,
      λ fuel n. long_enough lib r rs w rest back fuel n,
    )

IsRoute-IsAscii :
    (lib : Library) (rs : List Route)
    → ReadsRoutes lib
    → All (IsRoute lib) rs
    → All (λ r. IsAscii r.destination × IsAscii r.router × (r.mask < 2 ^ 31)) rs
IsRoute-IsAscii lib [] j h = tt
IsRoute-IsAscii lib (r ∷ rs) j (w, ws) =
    let fits = w.mask_fits in
    (
      (
        subst IsAscii (sym w.dest_text) (j.ascii w.dest w.dest_length w.dest_bytes),
        subst IsAscii (sym w.gateway_text) (j.ascii w.gateway w.gateway_length w.gateway_bytes),
        omega arith,
      ),
      IsRoute-IsAscii lib rs j ws,
    )

-- When the standard library does what it documents, the bytes that buildClasslessRoutes makes of
-- routes with addresses of IPv4, masks of at most 32 bits and no bits behind the bytes of the mask
-- are read back by parseClasslessRoutes as the same routes.
pub parse_classless_routes-build_classless_routes :
    (lib : Library) (rs : List Route)
    → IsLawful lib
    → ReadsRoutes lib
    → All (IsRoute lib) rs
    → (bs : Bytes) × (build_classless_routes lib (route_maps rs) ≡ ok bs)
      × (parse_classless_routes lib bs ≡ rs)
unfolding build_classless_routes parse_classless_routes or_error
parse_classless_routes-build_classless_routes lib rs w j h =
    let (bs, built, back) = read_back lib rs w h in
    (bs, rw (j.maps rs (IsRoute-IsAscii lib rs j h)) built, back (length bs) (omega arith))
