-- ===== src/Dhcp4/Options/Long.antt =====
-- Values that Options.marshal splits, and Options.parse on any input.
use dhcp_server.Base.{ℕ, zero, suc, ◌≤◌, ◌<◌, ◌≡◌, ◌≢◌, refl, ◌∙◌, arith}
use dhcp_server.Base.{[], ◌∷◌, ◌++◌, append-nil, append_assoc, false}
use dhcp_server.Base.{length, length-append, length-drop, length-take, take, drop, lt→ltb}
use dhcp_server.Base.{◌==◌, ◌||◌}
use dhcp_server.Base.Outcome.{ok}
use dhcp_server.Base.Wire.{Bytes}
use dhcp_server.Dhcp4.Options.{Options, put, parse_loop, parse}
use dhcp_server.Dhcp4.Options.{marshal_value, marshal_option, marshal_options}
use dhcp_server.Dhcp4.Options.RoundTrip.{marshal_value_short, parse_loop-option}

-- The two options that a value of 256 to 510 bytes is written as.
abbrev two_chunks : ℕ → Bytes → Bytes → Bytes
two_chunks code value rest =
    code ∷ 255 ∷ (take 255 value ++ (code ∷ length (drop 255 value) ∷ (drop 255 value ++ rest)))

marshal_value_long :
    (fuel code : ℕ) (value : Bytes)
    → 0 < fuel
    → 255 < length value
    → length value ≤ 510
    → marshal_value fuel code value ≡ two_chunks code value []
unfolding marshal_value
marshal_value_long zero code value f h k = absurd (omega arith)
marshal_value_long (suc fuel) code value f h k = rw (
  lt→ltb 255 (length value) h,
  marshal_value_short fuel code (drop 255 value) (omega (arith, length-drop 255 value)),
  append-nil,
)

-- The first chunk, in the form that one round of the parser takes.
parse_loop_chunk :
    (fuel : ℕ) (os : Options) (code : ℕ) (value rest : Bytes)
    → code ≢ 0
    → code ≢ 255
    → 255 < length value
    → parse_loop (suc fuel) os (code ∷ 255 ∷ (take 255 value ++ rest))
      ≡ parse_loop fuel (put os code (take 255 value)) rest
parse_loop_chunk fuel os code value rest a b h =
    let e : length (take 255 value) ≡ 255 = omega (arith, length-take 255 value) in
    rw e at (parse_loop-option fuel os code (take 255 value) rest a b)

put-put : (code : ℕ) (v w : Bytes) → put (put [] code v) code w ≡ (code, w) ∷ []
unfolding put
put-put code v w = ground arith

parse_loop-two_chunks :
    (fuel code : ℕ) (value : Bytes)
    → code ≢ 0
    → code ≢ 255
    → 255 < length value
    → 3 ≤ fuel
    → parse_loop fuel [] (two_chunks code value (255 ∷ [])) ≡ ok ((code, drop 255 value) ∷ [])
parse_loop-two_chunks zero code value a b h f = absurd (omega arith)
parse_loop-two_chunks (suc zero) code value a b h f = absurd (omega arith)
parse_loop-two_chunks (suc (suc zero)) code value a b h f = absurd (omega arith)
parse_loop-two_chunks (suc (suc (suc fuel))) code value a b h f =
    let tail = code ∷ length (drop 255 value) ∷ (drop 255 value ++ 255 ∷ []) in
    let chunk = put [] code (take 255 value) in
    parse_loop_chunk (suc (suc fuel)) [] code value tail a b h
    ∙ parse_loop-option (suc fuel) chunk code (drop 255 value) (255 ∷ []) a b
    ∙ rw (put-put code (take 255 value) (drop 255 value)) (unfold parse_loop in refl)

both_differ : (code : ℕ) → code ≢ 0 → code ≢ 255 → (code == 255 || code == 0) ≡ false
both_differ code a b = ground arith

marshal_option_long :
    (code : ℕ) (value : Bytes)
    → code ≢ 0
    → code ≢ 255
    → 255 < length value
    → length value ≤ 510
    → marshal_option code value ≡ two_chunks code value []
unfolding marshal_option
marshal_option_long code value a b h k =
    let test : (code == 255 || code == 0) ≡ false = both_differ code a b in
    rw test (marshal_value_long (length value) code value (omega arith) h k)

two_chunks-append :
    (code : ℕ) (value rest : Bytes) → two_chunks code value [] ++ rest ≡ two_chunks code value rest
two_chunks-append code value rest = simp (append_assoc, append-nil)

marshal_options_long :
    (code : ℕ) (value : Bytes)
    → code ≢ 0
    → code ≢ 255
    → 255 < length value
    → length value ≤ 510
    → marshal_options ((code, value) ∷ []) ≡ two_chunks code value (255 ∷ [])
unfolding marshal_options
marshal_options_long code value a b h k =
    rw (marshal_option_long code value a b h k) (two_chunks-append code value (255 ∷ []))

-- An option whose value has 256 to 510 bytes does not survive the wire: Marshal writes it as two
-- options of the same code, and parse keeps only the second, the bytes behind the first 255.
pub parse-marshal_options_long :
    (code : ℕ) (value : Bytes)
    → code ≢ 0
    → code ≢ 255
    → 255 < length value
    → length value ≤ 510
    → parse (marshal_options ((code, value) ∷ [])) ≡ ok ((code, drop 255 value) ∷ [])
unfolding parse
parse-marshal_options_long code value a b h k =
    let tail = code ∷ length (drop 255 value) ∷ (drop 255 value ++ 255 ∷ []) in
    rw (marshal_options_long code value a b h k) (
      parse_loop-two_chunks (length (two_chunks code value (255 ∷ []))) code value a b h
        (omega (arith, length-append (take 255 value) tail)))
