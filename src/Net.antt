-- ===== src/Net.antt =====
-- What the program uses of `net.IP` and `bytes` of Go's standard library. An address is its bytes:
-- four of them, sixteen, or none for `nil`.
use dhcp_server.Base.{ℕ, Bool, true, false, ◌&&◌, [], ◌∷◌, ◌++◌, Option, none, some}
use dhcp_server.Base.{
  ◌≡◌, ◌↔◌, ◌∙◌, arith, ◌==◌, if◌then◌else◌, take, drop, replicate, length, take-append, take-take,
  length-take,
}
use dhcp_server.Base.{length-append, length-replicate, ◌≤◌}
use dhcp_server.Base.Wire.{Bytes}

-- `bytes.Equal`.
unfoldable pub bytes_equal : Bytes → Bytes → Bool
bytes_equal [] [] = true
bytes_equal (x ∷ xs) (y ∷ ys) = x == y && bytes_equal xs ys
bytes_equal _ _ = false

pub bytes_equal_iff : (a b : Bytes) → (bytes_equal a b ≡ true) ↔ (a ≡ b)
unfolding bytes_equal
bytes_equal_iff (x ∷ a) (y ∷ b) = ground (arith, bytes_equal_iff a b)
bytes_equal_iff _ _ = ground arith

-- The twelve bytes in front of an IPv4 address in its sixteen-byte form.
abbrev pub v4_in_v6_prefix : Bytes
v4_in_v6_prefix = 0 ∷ 0 ∷ 0 ∷ 0 ∷ 0 ∷ 0 ∷ 0 ∷ 0 ∷ 0 ∷ 0 ∷ 0xff ∷ 0xff ∷ []

-- `net.IPv4zero` and `net.IPv4bcast`.
abbrev pub ipv4_zero : Bytes
ipv4_zero = v4_in_v6_prefix ++ (0 ∷ 0 ∷ 0 ∷ 0 ∷ [])

abbrev pub ipv4_bcast : Bytes
ipv4_bcast = v4_in_v6_prefix ++ (255 ∷ 255 ∷ 255 ∷ 255 ∷ [])

-- `ip.To4()`, with `none` for `nil`.
unfoldable pub to4 : Bytes → Option Bytes
unfolding bytes_equal
to4 ip =
    if length ip == 4
    then some ip
    else if length ip == 16 && bytes_equal (take 12 ip) v4_in_v6_prefix
    then some (drop 12 ip)
    else none

-- `ip.To16()`, with the empty list for `nil`.
unfoldable pub to16 : Bytes → Bytes
to16 ip = if length ip == 4 then v4_in_v6_prefix ++ ip else if length ip == 16 then ip else []

-- `ip.Equal(x)`.
unfoldable pub ip_equal : Bytes → Bytes → Bool
unfolding bytes_equal
ip_equal ip x =
    if length ip == length x
    then bytes_equal ip x
    else if length ip == 4 && length x == 16
    then bytes_equal (take 12 x) v4_in_v6_prefix && bytes_equal ip (drop 12 x)
    else if length ip == 16 && length x == 4
    then bytes_equal (take 12 ip) v4_in_v6_prefix && bytes_equal (drop 12 ip) x
    else false

-- `copy` of a slice into `n` zero bytes.
abbrev pub copy_zeroed : ℕ → Bytes → Bytes
copy_zeroed n bs = take n (bs ++ replicate n 0)

pub to16_of_length : (ip : Bytes) → length ip ≡ 16 → to16 ip ≡ ip
unfolding to16
to16_of_length ip h = ground arith

-- An address of sixteen bytes is copied whole.
pub copy_zeroed-to16 : (ip : Bytes) → length ip ≡ 16 → copy_zeroed 16 (to16 ip) ≡ ip
copy_zeroed-to16 ip h = rw (to16_of_length ip h) (take-append 16 ip _ h)

pub length-copy_zeroed : (n : ℕ) (bs : Bytes) → length (copy_zeroed n bs) ≡ n
length-copy_zeroed n bs = omega (
  arith,
  length-take n (bs ++ replicate n 0),
  length-append bs (replicate n 0),
  length-replicate {A = ℕ} n 0,
)

-- Bytes that fill the destination are copied whole.
pub copy_zeroed_full : (n : ℕ) (bs : Bytes) → length bs ≡ n → copy_zeroed n bs ≡ bs
copy_zeroed_full n bs h = take-append n bs (replicate n 0) h

-- The front of a shorter copy.
pub take-copy_zeroed :
    (k n : ℕ) (bs : Bytes) → length bs ≡ k → k ≤ n → take k (copy_zeroed n bs) ≡ bs
take-copy_zeroed k n bs h l =
    take-take k n (bs ++ replicate n 0) l ∙ take-append k bs (replicate n 0) h

pub to4_of_length : (ip : Bytes) → length ip ≡ 4 → to4 ip ≡ some ip
unfolding to4
to4_of_length ip h = ground arith
