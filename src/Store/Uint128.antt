-- ===== src/Store/Uint128.antt =====
-- internal/store/store.go: bigInt128, the two halves of an IPv6 address, and prefixCandidate. A uint64
-- keeps its wrap-around.
pub mod Sum
use dhcp_server.Base.{
  ℕ, ◌+◌, ◌-◌, ◌*◌, ◌/◌, ◌%◌, ◌^◌, Bool, true, false, ltb, leb, ◌==◌, if◌then◌else◌,
}

pub record Uint128 : Type 0 where
  pub hi : ℕ
  pub lo : ℕ

-- What `Cmp` returns: -1, 0 and 1.
pub data Sign : Type 0 where
  less : Sign
  same : Sign
  greater : Sign

unfoldable pub cmp : Uint128 → Uint128 → Sign
cmp b other =
    if ltb b.hi other.hi
    then less
    else if ltb other.hi b.hi
    then greater
    else if ltb b.lo other.lo
    then less
    else if ltb other.lo b.lo
    then greater
    else same

unfoldable pub ip_add_one : Uint128 → Uint128
ip_add_one v =
    if v.lo == 2 ^ 64 - 1
    then record { hi = (v.hi + 1) % 2 ^ 64; lo = 0 }
    else record { hi = v.hi; lo = v.lo + 1 }

unfoldable pub ip_add_n : Uint128 → ℕ → Uint128
ip_add_n v n =
    let lo' = (v.lo + n) % 2 ^ 64 in
    record { hi = if ltb lo' v.lo then (v.hi + 1) % 2 ^ 64 else v.hi; lo = lo' }

unfoldable pub is_at_most : Sign → Bool
is_at_most greater = false
is_at_most _ = true

unfoldable pub ip_to_uint128 : ℕ → Uint128
ip_to_uint128 ip = record { hi = ip / 2 ^ 64 % 2 ^ 64; lo = ip % 2 ^ 64 }

unfoldable pub uint128_to_ip : Uint128 → ℕ
uint128_to_ip v = v.hi * 2 ^ 64 + v.lo

-- `i << k` on a uint64.
unfoldable pub shift_left : ℕ → ℕ → ℕ
shift_left i k = i * 2 ^ k % 2 ^ 64

unfoldable pub prefix_candidate : Uint128 → (delegated_len i : ℕ) → Uint128
prefix_candidate base delegated_len i =
    let shift = 128 - delegated_len in
    let lo' = (base.lo + shift_left i (64 - shift)) % 2 ^ 64 in
    let hi' = (base.hi + i / 2 ^ shift) % 2 ^ 64 in
    if leb 64 shift
    then record { hi = (base.hi + shift_left i (shift - 64)) % 2 ^ 64; lo = base.lo }
    else record { hi = if ltb lo' base.lo then (hi' + 1) % 2 ^ 64 else hi'; lo = lo' }
