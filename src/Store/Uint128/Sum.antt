-- ===== src/Store/Uint128/Sum.antt =====
-- internal/store/store.go: the operations on the two halves are the operations on numbers of 128 bits.
use dhcp_server.Base.{ℕ, ◌+◌, ◌*◌, ◌%◌, ◌^◌, ◌<◌, ◌≡◌, ◌↔◌, arith}
use dhcp_server.Store.Uint128.{
  Uint128, less, same, cmp, ip_add_one, ip_add_n, shift_left, prefix_candidate, uint128_to_ip,
}

pub record IsUint128 (v : Uint128) : Type 0 where
  pub hi_fits : v.hi < 2 ^ 64
  pub lo_fits : v.lo < 2 ^ 64

-- Cmp orders the halves as the numbers that they make.
pub cmp-uint128_to_ip :
    (a b : Uint128)
    → IsUint128 a
    → IsUint128 b
    → ((cmp a b ≡ less) ↔ (uint128_to_ip a < uint128_to_ip b))
      × ((cmp a b ≡ same) ↔ (uint128_to_ip a ≡ uint128_to_ip b))
unfolding cmp uint128_to_ip
cmp-uint128_to_ip a b wa wb = let la = wa.lo_fits in let lb = wb.lo_fits in ground arith

-- ipAddOne and ipAddN add modulo 2^128.
pub ip_add_n-uint128_to_ip :
    (v : Uint128) (n : ℕ)
    → IsUint128 v
    → n < 2 ^ 64
    → (uint128_to_ip (ip_add_one v) ≡ (uint128_to_ip v + 1) % 2 ^ 128)
      × (uint128_to_ip (ip_add_n v n) ≡ (uint128_to_ip v + n) % 2 ^ 128)
unfolding ip_add_one ip_add_n uint128_to_ip
ip_add_n-uint128_to_ip v n w h = let l = w.lo_fits in let u = w.hi_fits in ground arith

-- For the delegated length 64, the only one that allocatePrefixTx asks for, prefixCandidate adds i
-- networks of that length modulo 2^128.
pub prefix_candidate-uint128_to_ip :
    (v : Uint128) (i : ℕ)
    → IsUint128 v
    → i < 2 ^ 64
    → uint128_to_ip (prefix_candidate v 64 i) ≡ (uint128_to_ip v + i * 2 ^ 64) % 2 ^ 128
unfolding prefix_candidate uint128_to_ip shift_left
prefix_candidate-uint128_to_ip v i w h = let l = w.lo_fits in let u = w.hi_fits in ground arith

-- For the delegated length 80 the shifts of the two halves are exchanged: prefixCandidate adds
-- i * 2^16 and not i * 2^48, so the candidate is no network of that length.
pub prefix_candidate_80 :
    (v : Uint128) (i : ℕ)
    → IsUint128 v
    → i < 2 ^ 48
    → uint128_to_ip v + i * 2 ^ 16 < 2 ^ 128
    → uint128_to_ip (prefix_candidate v 80 i) ≡ uint128_to_ip v + i * 2 ^ 16
unfolding prefix_candidate uint128_to_ip shift_left
prefix_candidate_80 v i w h k = let l = w.lo_fits in let u = w.hi_fits in ground arith
