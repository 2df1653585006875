-- ===== src/Dhcp4/Options/RoundTrip.antt =====
-- Options.marshal and Options.parse.
use dhcp_server.Base.{ℕ, zero, suc, ◌%◌, ◌≤◌, ◌<◌, ◌≡◌, ◌≢◌, refl, sym, ap, ◌∙◌, arith}
use dhcp_server.Base.{[], ◌∷◌, ◌++◌, append-nil, append_assoc, All}
use dhcp_server.Base.{length, length-append, take-append, drop-append, le→ltb}
use dhcp_server.Base.Outcome.{ok}
use dhcp_server.Base.Wire.{Bytes}
use dhcp_server.Dhcp4.Options.{Options, put, parse_loop, parse}
use dhcp_server.Dhcp4.Options.{marshal_value, marshal_option, marshal_options}
use dhcp_server.Dhcp4.Options.Map.{Absent, IsMap}

-- A code that is written, and a value that needs no splitting.
abbrev pub FitsWire : ℕ × Bytes → Type 0
FitsWire (code, value) = (code ≢ 0) × (code ≢ 255) × (length value ≤ 255)

pub marshal_value_short :
    (fuel code : ℕ) (value : Bytes)
    → length value ≤ 255
    → marshal_value fuel code value ≡ code ∷ length value ∷ value
unfolding marshal_value
marshal_value_short zero code value h =
    let e : length value % 256 ≡ length value = omega arith in rw e
marshal_value_short (suc fuel) code value h =
    let e : length value % 256 ≡ length value = omega arith in rw (e, le→ltb 255 (length value) h)

pub marshal_option_short :
    (code : ℕ) (value : Bytes)
    → FitsWire (code, value)
    → marshal_option code value ≡ code ∷ length value ∷ value
unfolding marshal_option
marshal_option_short code value (a, b, h) =
    ground (arith, marshal_value_short (length value) code value h)

-- One round of the parser over an option header and its value.
pub parse_loop-option :
    (fuel : ℕ) (os : Options) (code : ℕ) (value rest : Bytes)
    → code ≢ 0
    → code ≢ 255
    → parse_loop (suc fuel) os (code ∷ length value ∷ (value ++ rest))
      ≡ parse_loop fuel (put os code value) rest
unfolding parse_loop
parse_loop-option fuel os code value rest a b =
    rw (take-append (length value) value rest refl, drop-append (length value) value rest refl)
      (ground (arith, length-append value rest))

put-Absent :
    (acc : Options) (code : ℕ) (value : Bytes)
    → Absent code acc
    → put acc code value ≡ acc ++ (code, value) ∷ []
unfolding put
put-Absent [] code value h = refl
put-Absent ((c, v) ∷ acc) code value (h, hs) = ground (arith, put-Absent acc code value hs)

Absent-append :
    (acc : Options) (code c : ℕ) (v : Bytes) (os : Options)
    → Absent code (acc ++ (c, v) ∷ os)
    → c ≢ code
Absent-append [] code c v os h = h.0
Absent-append ((d, w) ∷ acc) code c v os h = Absent-append acc code c v os h.1

IsMap-append :
    (acc : Options) (code : ℕ) (value : Bytes) (os : Options)
    → IsMap (acc ++ (code, value) ∷ os)
    → Absent code acc
IsMap-append [] code value os h = tt
IsMap-append ((c, v) ∷ acc) code value os (h, hs) =
    ((λ e. Absent-append acc c code value os h (sym e)), IsMap-append acc code value os hs)

parse_loop-marshal_options :
    (os : Options) (fuel : ℕ) (acc : Options) (pad : Bytes)
    → All FitsWire os
    → IsMap (acc ++ os)
    → length os < fuel
    → parse_loop fuel acc (marshal_options os ++ pad) ≡ ok (acc ++ os)
unfolding parse_loop marshal_options
parse_loop-marshal_options os zero acc pad h m k = absurd (omega arith)
parse_loop-marshal_options [] (suc fuel) acc [] h m k = ap ok (sym (append-nil acc))
parse_loop-marshal_options [] (suc fuel) acc (x ∷ pad) h m k = ap ok (sym (append-nil acc))
parse_loop-marshal_options ((code, value) ∷ os) (suc fuel) acc pad ((a, b, l), hs) m k =
    let rest = marshal_options os ++ pad in
    let acc' = acc ++ (code, value) ∷ [] in
    rw (marshal_option_short code value (a, b, l), append_assoc)
      (parse_loop-option fuel acc code value rest a b
        ∙ rw (put-Absent acc code value (IsMap-append acc code value os m)) (
            parse_loop-marshal_options os fuel acc' pad hs (rw append_assoc m) (omega arith)
            ∙ ap ok (append_assoc acc ((code, value) ∷ []) os)))

length-marshal_options : (os : Options) → All FitsWire os → length os < length (marshal_options os)
unfolding marshal_options
length-marshal_options [] h = omega arith
length-marshal_options ((code, value) ∷ os) (h, hs) =
    rw (marshal_option_short code value h)
      (omega (arith, length-append value (marshal_options os), length-marshal_options os hs))

-- Options.parse reads back every option map that Options.marshal wrote, in whatever order the map
-- was visited and whatever follows the End option, if no value is longer than 255 bytes and no code
-- is Pad or End.
pub parse-marshal_options :
    (os : Options) (pad : Bytes)
    → All FitsWire os
    → IsMap os
    → parse (marshal_options os ++ pad) ≡ ok os
unfolding parse
parse-marshal_options os pad h m =
    parse_loop-marshal_options os (length (marshal_options os ++ pad)) [] pad h m
      (omega (arith, length-append (marshal_options os) pad, length-marshal_options os h))
