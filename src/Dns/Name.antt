-- ===== src/Dns/Name.antt =====
-- internal/dns/server.go: decodeName reads back what encodeName wrote.
use dhcp_server.Base.{ℕ, zero, suc, ◌+◌, ◌-◌, ◌%◌, ◌≡◌, ◌≢◌, ◌≤◌, ◌<◌, refl, ◌∙◌, leb, ◌==◌}
use dhcp_server.Base.{List, [], ◌∷◌, ◌++◌, append_assoc, append-nil, length, drop, false, All}
use dhcp_server.Base.{arith, length-append, drop-append, take-append, le→ltb}
use dhcp_server.Base.Outcome.{ok, stuck, bind-ne-stuck, ok-ne-stuck}
use dhcp_server.Base.Wire.{Bytes, byte_at, slice}
use dhcp_server.Dns.{decode_loop, decode_name, encode_labels, join_labels}

-- A label that fits the wire: 1 to 63 bytes.
pub record IsLabel (l : Bytes) : Type 0 where
  pub filled : 0 < length l
  pub fits : length l < 64

byte_at-append : (xs ys : Bytes) (y : ℕ) → byte_at (xs ++ y ∷ ys) (length xs) ≡ y
byte_at-append [] ys y = refl
byte_at-append (x ∷ xs) ys y = byte_at-append xs ys y

drop-append_length : (xs ys : Bytes) → drop (length xs) (xs ++ ys) ≡ ys
drop-append_length [] ys = refl
drop-append_length (x ∷ xs) ys = drop-append_length xs ys

-- The last round.
decode_loop-end :
    (fuel : ℕ) (input : Bytes) (offset : ℕ) (labels : List Bytes)
    → offset < length input
    → byte_at input offset ≡ 0
    → decode_loop (suc fuel) input offset labels ≡ ok (labels, offset + 1)
unfolding decode_loop
decode_loop-end fuel input offset labels h e =
    let inside : leb (length input) offset ≡ false = ground arith in rw (inside, e) refl

-- A round that reads a label.
decode_loop-label :
    (fuel : ℕ) (input : Bytes) (offset l : ℕ) (labels : List Bytes)
    → byte_at input offset ≡ l
    → 0 < l
    → l < 64
    → offset + 1 + l ≤ length input
    → decode_loop (suc fuel) input offset labels
      ≡ decode_loop fuel input
          (offset + 1 + l)
          (labels ++ slice (offset + 1) (offset + 1 + l) input ∷ [])
unfolding decode_loop
decode_loop-label fuel input offset l labels e p s h =
    let inside : leb (length input) offset ≡ false = ground arith in
    let filled : (l == 0) ≡ false = ground arith in
    let plain : leb 64 l ≡ false = ground arith in
    rw (inside, e, filled, plain, le→ltb (length input) (offset + 1 + l) h) refl

label-shape :
    (before l rest after : Bytes) (n : ℕ)
    → before ++ (n ∷ ((l ++ rest) ++ after)) ≡ (before ++ n ∷ []) ++ (l ++ (rest ++ after))
label-shape before l rest after n =
    rw (append_assoc before (n ∷ []) (l ++ (rest ++ after)), append_assoc l rest after) refl

length-front : (before : Bytes) (n : ℕ) → length (before ++ n ∷ []) ≡ length before + 1
length-front before n = length-append before (n ∷ [])

-- A round on a label in its place.
decode_loop-append :
    (fuel : ℕ) (done : List Bytes) (before l rest after : Bytes)
    → IsLabel l
    → decode_loop (suc fuel) (before ++ (length l ∷ ((l ++ rest) ++ after))) (length before) done
      ≡ decode_loop fuel
          ((before ++ length l ∷ l) ++ (rest ++ after))
          (length (before ++ length l ∷ l))
          (done ++ l ∷ [])
decode_loop-append fuel done before l rest after h =
    let n = length l in
    let input = before ++ (n ∷ ((l ++ rest) ++ after)) in
    let tail = rest ++ after in
    let shape = label-shape before l rest after n in
    let one = length-front before n in
    let long : length input ≡ length before + 1 + (n + length tail) =
      rw shape
        (omega (arith, length-append (before ++ n ∷ []) (l ++ tail), length-append l tail, one)) in
    let label : slice (length before + 1) (length before + 1 + n) input ≡ l =
      let d : drop (length before + 1) input ≡ l ++ tail =
        rw shape (drop-append (length before + 1) (before ++ n ∷ []) (l ++ tail) one) in
      let k : length before + 1 + n - (length before + 1) ≡ n = omega arith in
      rw (k, d) (take-append n l tail refl) in
    let whole : input ≡ (before ++ n ∷ l) ++ tail =
      rw (append_assoc before (n ∷ l) tail, append_assoc l rest after) refl in
    let stop : length (before ++ n ∷ l) ≡ length before + 1 + n =
      omega (arith, length-append before (n ∷ l)) in
    decode_loop-label fuel input (length before) n done
      (byte_at-append before ((l ++ rest) ++ after) n) h.filled h.fits (omega arith)
    ∙ rw (label, stop, whole) refl

-- decodeName at the place where encodeName wrote the labels.
pub decode_loop-encode_labels :
    (ls done : List Bytes) (before after : Bytes) (fuel : ℕ)
    → All IsLabel ls
    → length ls < fuel
    → decode_loop fuel (before ++ (encode_labels ls ++ after)) (length before) done
      ≡ ok (done ++ ls, length before + length (encode_labels ls))
unfolding encode_labels
decode_loop-encode_labels ls done before after zero h f = absurd (omega arith)
decode_loop-encode_labels [] done before after (suc fuel) h f =
    decode_loop-end fuel (before ++ 0 ∷ after) (length before) done
      (omega (arith, length-append before (0 ∷ after))) (byte_at-append before after 0)
    ∙ rw (append-nil done) refl
decode_loop-encode_labels ([] ∷ ls) done before after (suc fuel) (h, hs) f =
    let filled = h.filled in absurd (omega arith)
decode_loop-encode_labels ((c ∷ cs) ∷ ls) done before after (suc fuel) (h, hs) f =
    let l = c ∷ cs in
    let fits = h.fits in
    let n : length l % 256 ≡ length l = omega arith in
    let len : length (before ++ length l ∷ l) + length (encode_labels ls)
        ≡ length before + suc (length (l ++ encode_labels ls)) =
      omega (arith, length-append before (length l ∷ l), length-append l (encode_labels ls)) in
    rw n (
      decode_loop-append fuel done before l (encode_labels ls) after h
      ∙ (decode_loop-encode_labels ls (done ++ l ∷ []) (before ++ length l ∷ l) after fuel hs
            (omega arith)
          ∙ rw (append_assoc done (l ∷ []) ls, len) refl))

length-le-encode_labels : (ls : List Bytes) → All IsLabel ls → length ls < length (encode_labels ls)
unfolding encode_labels
length-le-encode_labels [] h = omega arith
length-le-encode_labels ([] ∷ ls) (h, hs) = let filled = h.filled in absurd (omega arith)
length-le-encode_labels ((c ∷ cs) ∷ ls) (h, hs) =
    omega (arith, length-append (c ∷ cs) (encode_labels ls), length-le-encode_labels ls hs)

-- decodeName, at the offset where the labels were encoded, whatever stands before and after, gives
-- the labels joined by dots and the offset behind them, if each label has 1 to 63 bytes.
pub decode_name-encode_labels :
    (ls : List Bytes) (before after : Bytes)
    → All IsLabel ls
    → decode_name (before ++ (encode_labels ls ++ after)) (length before)
      ≡ ok (join_labels ls, length before + length (encode_labels ls))
unfolding decode_name
decode_name-encode_labels ls before after h =
    let e =
      decode_loop-encode_labels ls [] before after
        (suc (length (before ++ (encode_labels ls ++ after)))) h
        (omega (
          arith,
          length-append before (encode_labels ls ++ after),
          length-append (encode_labels ls) after,
          length-le-encode_labels ls h,
        )) in
    rw e refl

decode_loop-ne-stuck :
    (fuel : ℕ) (input : Bytes) (offset : ℕ) (labels : List Bytes)
    → 0 < fuel
    → length input < offset + fuel
    → decode_loop fuel input offset labels ≢ stuck
unfolding decode_loop
decode_loop-ne-stuck zero input offset labels p h = absurd (omega arith)
decode_loop-ne-stuck (suc fuel) input offset labels p h = ground (
  arith,
  decode_loop-ne-stuck fuel input (offset + 1 + byte_at input offset)
      (labels ++ slice (offset + 1) (offset + 1 + byte_at input offset) input ∷ []),
)

-- decodeName ends on every message, at every offset.
pub decode_name-ne-stuck : (input : Bytes) (offset : ℕ) → decode_name input offset ≢ stuck
unfolding decode_name
decode_name-ne-stuck input offset =
    bind-ne-stuck (decode_loop (suc (length input)) input offset []) _
      (decode_loop-ne-stuck (suc (length input)) input offset [] (omega arith) (omega arith))
      (λ r e. ok-ne-stuck _)
