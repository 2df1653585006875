-- ===== src/Dhcp6/Ia/Lookup.antt =====
-- The loops of extractRequestedIP and extractIAAddrs against the list of options they read.
use dhcp_server.Base.{
  ℕ, zero, suc, ◌+◌, ◌/◌, ◌%◌, ◌^◌, ◌≤◌, ◌<◌, ◌≡◌, ◌≢◌, refl, sym, ap, ◌∙◌, arith,
}
use dhcp_server.Base.{List, [], ◌∷◌, ◌++◌, append-nil, append_assoc, Option, none, some, All, leb}
use dhcp_server.Base.{length, length-append, length-drop, take, drop, take-append_le, drop-append}
use dhcp_server.Base.{
  ◌==◌, if◌then◌else◌, le→ltb, ◌&&◌, ◌||◌, Bool, true, Bool-cases, ◌⊎◌, inl, inr,
}
use dhcp_server.Base.Outcome.{ok, stuck, bind-ne-stuck}
use dhcp_server.Base.Wire.{Bytes, be16, be32_at, be32-u32}
use dhcp_server.Dhcp6.Packet.{Opt, Options, Packet, marshal_option, marshal_options}
use dhcp_server.Dhcp6.Packet.RoundTrip.{FitsWire, length-le-marshal_options}
use dhcp_server.Dhcp6.Ia.{
  opt_iana, opt_iata, opt_iaaddr, build_iana, get_iana_or_iata, requested_loop, requested_in,
}
use dhcp_server.Dhcp6.Ia.{extract_requested_ip, addrs_loop, addrs_in, extract_iaaddrs}

requested_loop_hangs :
    (fuel : ℕ) (spare : Bytes) (c1 c2 l1 l2 : ℕ) (rest : Bytes)
    → be16 c1 c2 ≢ opt_iaaddr
    → be16 l1 l2 ≡ 65532
    → requested_loop fuel spare (c1 ∷ c2 ∷ l1 ∷ l2 ∷ rest) ≡ stuck
unfolding requested_loop
requested_loop_hangs zero spare c1 c2 l1 l2 rest h k = refl
requested_loop_hangs (suc fuel) spare c1 c2 l1 l2 rest h k =
    rw k (ground (arith, requested_loop_hangs fuel spare c1 c2 l1 l2 rest))

-- A Request whose IA_NA holds, in front, an option header of a code other than IA Address and of
-- length 65532 makes extractRequestedIP loop for ever: no fuel is enough.
pub extract_requested_ip_hangs :
    (fuel : ℕ) (spare : Bytes) (req : Packet) (iana : Opt) (c1 c2 l1 l2 : ℕ) (rest : Bytes)
    → get_iana_or_iata req.options ≡ some iana
    → drop 12 iana.value ≡ c1 ∷ c2 ∷ l1 ∷ l2 ∷ rest
    → be16 c1 c2 ≢ opt_iaaddr
    → be16 l1 l2 ≡ 65532
    → extract_requested_ip fuel spare req (be32_at iana.value 0) ≡ stuck
unfolding extract_requested_ip requested_in
extract_requested_ip_hangs fuel spare req iana c1 c2 l1 l2 rest e d h k =
    rw (e, extract_requested_ip)
      (ground (
        arith,
        d,
        length-drop 12 iana.value,
        ap length d,
        requested_loop_hangs fuel spare c1 c2 l1 l2 rest,
      ))

-- An IA Address option that holds an address.
abbrev holds_address : Opt → Bool
holds_address o = o.code == opt_iaaddr && leb 16 (length o.value)

-- The first address among the options, and all of them.
abbrev pub first_address : Options → Option Bytes
first_address [] = none
first_address (o ∷ os) = if holds_address o then some (take 16 o.value) else first_address os

abbrev pub addresses : Options → List Bytes
addresses [] = []
addresses (o ∷ os) = if holds_address o then take 16 o.value ∷ addresses os else addresses os

drop_header :
    (n a b c d : ℕ) (xs ys : Bytes) → length xs ≡ n → drop (4 + n) (a ∷ b ∷ c ∷ d ∷ (xs ++ ys)) ≡ ys
drop_header n a b c d xs ys h =
    let e : 4 + n ≡ suc (suc (suc (suc n))) = omega arith in rw e (drop-append n xs ys h)

take_address : (xs ys zs : Bytes) → 16 ≤ length xs → take 16 ((xs ++ ys) ++ zs) ≡ take 16 xs
take_address xs ys zs h =
    take-append_le 16 (xs ++ ys) zs (omega (arith, length-append xs ys)) ∙ take-append_le 16 xs ys h

requested_loop-marshal_option :
    (fuel : ℕ) (spare : Bytes) (o : Opt) (more : Bytes)
    → FitsWire o
    → requested_loop (suc fuel) spare (marshal_option o ++ more)
      ≡ (if holds_address o then ok (some (take 16 o.value)) else requested_loop fuel spare more)
unfolding requested_loop marshal_option
requested_loop-marshal_option fuel spare o more h =
    let n = length o.value in
    let len : be16 (n % 65536 / 256 % 256) (n % 65536 % 256) ≡ n = omega arith in
    let next : (4 + n) % 65536 ≡ 4 + n = omega arith in
    let code : be16 (o.code / 256 % 256) (o.code % 256) ≡ o.code = omega arith in
    rw (len, next, code, drop_header n _ _ _ _ o.value more refl)
      (ground (arith, length-append o.value more, take_address o.value more spare))

requested_loop-marshal_options :
    (os : Options) (fuel : ℕ) (spare : Bytes)
    → All FitsWire os
    → length os ≤ fuel
    → requested_loop fuel spare (marshal_options os) ≡ ok (first_address os)
unfolding requested_loop marshal_options
requested_loop-marshal_options [] zero spare h k = refl
requested_loop-marshal_options [] (suc fuel) spare h k = refl
requested_loop-marshal_options (o ∷ os) zero spare h k = absurd (omega arith)
requested_loop-marshal_options (o ∷ os) (suc fuel) spare (h, hs) k =
    requested_loop-marshal_option fuel spare o (marshal_options os) h
    ∙ ground (arith, requested_loop-marshal_options os fuel spare hs (omega arith))

-- On an IA_NA that BuildIANA made of options that fit the wire, for its own IAID, extractRequestedIP
-- finds the address of the first IA Address option, or none if there is no such option, whatever
-- lies behind the slice.
pub extract_requested_ip-build_iana :
    (fuel : ℕ) (spare : Bytes) (req : Packet) (iana : Opt) (iaid t1 t2 : ℕ) (os : Options)
    → get_iana_or_iata req.options ≡ some iana
    → iana.value ≡ build_iana iaid t1 t2 os
    → iaid < 2 ^ 32
    → All FitsWire os
    → length os ≤ fuel
    → extract_requested_ip fuel spare req iaid ≡ ok (first_address os)
unfolding extract_requested_ip requested_in build_iana
extract_requested_ip-build_iana fuel spare req iana iaid t1 t2 os e v b h k =
    rw (e, extract_requested_ip, v, be32-u32 iaid b)
      (ground (arith, requested_loop-marshal_options os fuel spare h k))

keep_address :
    (out : List Bytes) (o : Opt) (more : Bytes)
    → (if holds_address o then out ++ (take 16 (o.value ++ more) ∷ []) else out)
      ≡ (if holds_address o then out ++ (take 16 o.value ∷ []) else out)
keep_address out o more = elim (Bool-cases (holds_address o)) [
  | inl e ↦ rw (e, take-append_le 16 o.value more (ground arith))
  | inr e ↦ rw e
]

addrs_loop-marshal_option :
    (fuel : ℕ) (out : List Bytes) (o : Opt) (more : Bytes)
    → FitsWire o
    → addrs_loop (suc fuel) out (marshal_option o ++ more)
      ≡ addrs_loop fuel (if holds_address o then out ++ (take 16 o.value ∷ []) else out) more
unfolding addrs_loop marshal_option
addrs_loop-marshal_option fuel out o more h =
    let n = length o.value in
    let len : be16 (n % 65536 / 256 % 256) (n % 65536 % 256) ≡ n = omega arith in
    let code : be16 (o.code / 256 % 256) (o.code % 256) ≡ o.code = omega arith in
    let room : n ≤ length (o.value ++ more) = omega (arith, length-append o.value more) in
    rw (len, code, drop-append n o.value more refl, le→ltb _ _ room)
      (ap (λ out'. addrs_loop fuel out' more) (keep_address out o more))

addrs_loop-marshal_options :
    (os : Options) (fuel : ℕ) (out : List Bytes)
    → All FitsWire os
    → length os ≤ fuel
    → addrs_loop fuel out (marshal_options os) ≡ ok (out ++ addresses os)
unfolding addrs_loop marshal_options
addrs_loop-marshal_options [] zero out h k = ap ok (sym (append-nil out))
addrs_loop-marshal_options [] (suc fuel) out h k = ap ok (sym (append-nil out))
addrs_loop-marshal_options (o ∷ os) zero out h k = absurd (omega arith)
addrs_loop-marshal_options (o ∷ os) (suc fuel) out (h, hs) k =
    addrs_loop-marshal_option fuel out o (marshal_options os) h
    ∙ addrs_loop-marshal_options os fuel _ hs (omega arith)
    ∙ ap ok (elim (Bool-cases (holds_address o)) [ inl e ↦ rw (e, append_assoc) | inr e ↦ rw e ])

-- From an IA_NA or IA_TA option that BuildIANA made of options that fit the wire, extractIAAddrs
-- collects the address of every IA Address option, in their order, behind those found before.
pub addrs_in-build_iana :
    (out : List Bytes) (o : Opt) (iaid t1 t2 : ℕ) (os : Options)
    → (o.code ≡ opt_iana) ⊎ (o.code ≡ opt_iata)
    → o.value ≡ build_iana iaid t1 t2 os
    → All FitsWire os
    → addrs_in out o ≡ ok (out ++ addresses os)
unfolding addrs_in build_iana
addrs_in-build_iana out o iaid t1 t2 os c v h =
    let test : (o.code == opt_iana || o.code == opt_iata) ≡ true = ground arith in
    rw (test, v, le→ltb (length (build_iana iaid t1 t2 os)) 12 (omega arith))
      (addrs_loop-marshal_options os (length (build_iana iaid t1 t2 os)) out h
        (omega (arith, length-le-marshal_options os)))

addrs_loop-ne-stuck :
    (fuel : ℕ) (out : List Bytes) (input : Bytes)
    → length input ≤ fuel
    → addrs_loop fuel out input ≢ stuck
unfolding addrs_loop
addrs_loop-ne-stuck (suc fuel) out (c1 ∷ c2 ∷ l1 ∷ l2 ∷ rest) h =
    let n = be16 l1 l2 in
    let out' = if be16 c1 c2 == opt_iaaddr && leb 16 n then out ++ (take 16 rest ∷ []) else out in
    ground (arith, length-drop n rest, addrs_loop-ne-stuck fuel out' (drop n rest))
addrs_loop-ne-stuck zero out (c1 ∷ c2 ∷ l1 ∷ l2 ∷ rest) h = absurd (omega arith)
addrs_loop-ne-stuck zero out [] h = λ e. cc
addrs_loop-ne-stuck zero out (a ∷ []) h = λ e. cc
addrs_loop-ne-stuck zero out (a ∷ b ∷ []) h = λ e. cc
addrs_loop-ne-stuck _ out _ h = λ e. cc

addrs_in-ne-stuck : (out : List Bytes) (o : Opt) → addrs_in out o ≢ stuck
unfolding addrs_in
addrs_in-ne-stuck out o =
    ground
      (arith, length-drop 12 o.value, addrs_loop-ne-stuck (length o.value) out (drop 12 o.value))

-- extractIAAddrs ends on every message.
pub extract_iaaddrs-ne-stuck : (out : List Bytes) (os : Options) → extract_iaaddrs out os ≢ stuck
unfolding extract_iaaddrs
extract_iaaddrs-ne-stuck out [] = λ e. cc
extract_iaaddrs-ne-stuck out (o ∷ os) =
    bind-ne-stuck (addrs_in out o) _ (addrs_in-ne-stuck out o)
      (λ out' e. extract_iaaddrs-ne-stuck out' os)
