-- ===== src/Base/Wire.antt =====
-- Byte slices and `encoding/binary.BigEndian`: a `[]byte` is a list of numbers below 256.
use dhcp_server.Base.Lists.{get_or, take, drop}
use Prim.Native.Nat.{ℕ, ◌+◌, ◌-◌, ◌*◌, ◌/◌, ◌%◌, ◌^◌, ◌<◌}
use mathlib.Core.Path.{◌≡◌}
use mathlib.Core.List.{List, [], ◌∷◌}
use native.Mathlib.Omega.{arith}

abbrev pub Bytes : Type 0
Bytes = List ℕ

abbrev pub IsByte : ℕ → Type 0
IsByte b = b < 256

-- `BigEndian.PutUint16` and `BigEndian.PutUint32` into a fresh slice.
abbrev pub u16 : ℕ → Bytes
u16 n = (n / 256 % 256) ∷ (n % 256) ∷ []

abbrev pub u32 : ℕ → Bytes
u32 n = (n / 2 ^ 24 % 256) ∷ (n / 2 ^ 16 % 256) ∷ (n / 256 % 256) ∷ (n % 256) ∷ []

-- `BigEndian.Uint16` and `BigEndian.Uint32` of the bytes of a slice.
abbrev pub be16 : ℕ → ℕ → ℕ
be16 a b = a * 256 + b

abbrev pub be32 : ℕ → ℕ → ℕ → ℕ → ℕ
be32 a b c d = a * 2 ^ 24 + b * 2 ^ 16 + c * 256 + d

-- `data[i]`, `data[lo:hi]` and the reads at an offset, for offsets that are in range.
abbrev pub byte_at : Bytes → ℕ → ℕ
byte_at data' i = get_or data' i 0

abbrev pub slice : ℕ → ℕ → Bytes → Bytes
slice lo hi data' = take (hi - lo) (drop lo data')

abbrev pub be16_at : Bytes → ℕ → ℕ
be16_at data' i = be16 (byte_at data' i) (byte_at data' (i + 1))

abbrev pub be32_at : Bytes → ℕ → ℕ
be32_at data' i =
    be32 (byte_at data' i) (byte_at data' (i + 1)) (byte_at data' (i + 2)) (byte_at data' (i + 3))

pub be16-u16 : (n : ℕ) → n < 2 ^ 16 → be16 (n / 256 % 256) (n % 256) ≡ n
be16-u16 n h = omega arith

pub be32-u32 :
    (n : ℕ) → n < 2 ^ 32 → be32 (n / 2 ^ 24 % 256) (n / 2 ^ 16 % 256) (n / 256 % 256) (n % 256) ≡ n
be32-u32 n h = omega arith
